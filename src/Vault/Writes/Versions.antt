-- ===== src/Vault/Writes/Versions.antt =====
-- Record_Version, Delete_Marker and Delete_Version of vault/src/dezhan-vault.adb keep what the vault
-- holds of a form that can be written.
use dezhan.Base.{
  ℕ, zero, suc, ◌+◌, ◌≤◌, ◌++◌, [], ◌∷◌, List, Bool, true, false, Option, none, some, ◌≡◌, ◌≢◌,
  refl, if◌then◌else◌, ◌==◌, ==_iff, All, All-append, Bool-cases, inl, inr, arith, tests, ◌>>=◌,
}
use dezhan.Text.{Text, text_eq, pos, itoa}
use dezhan.Dict.{Dict, AllOf, lookup, insert-AllOf, remove-AllOf, lookup-AllOf}
use dezhan.Core.Clock.{time_last}
use dezhan.Core.Retention.{create_lock}
use dezhan.Core.Audit.{delete_allowed, natural_last}
use dezhan.Vault.State.{Meta, VersionEntry, Vault, Act, del_line, vseq_line, ver_line}
use dezhan.Vault.Persist.{versions_or_empty}
use dezhan.Vault.Objects.{drop_object}
use dezhan.Vault.Versions.{
  next_version, push_version, record_version, record_named, zero_id, marker, drop_indexed,
  mark_named, delete_marker, has_version, without_version, newer, newest_real, repoint,
  keep_versions, delete_version_in, delete_version,
}
use dezhan.Vault.Printed.{IsWord, decimal-IsWord}
use dezhan.Vault.Readable.{IsName, IsMeta, IsVersion}
use dezhan.Vault.Writes.{
  Writable, Writes, then-Writes, pure-Writes, save-Writes, append_jrnl-Writes, change-Writes,
}
use dezhan.Vault.Writes.Calls.{
  set_object-Writable, drop_object-Writable, audited-Writes, line-Writes, pure_committed-Writes,
  found-IsMeta,
}

vid-IsWord : (n : ℕ) → IsWord (itoa (pos n))
unfolding itoa
vid-IsWord n = decimal-IsWord n

-- The entries of a name, if there are any.
found-versions :
    (name : Text) (v : Vault)
    → Writable v
    → (es : List VersionEntry) → lookup name v.versions ≡ some es
    → All IsVersion es
found-versions name v w es e = lookup-AllOf IsName (All IsVersion) name es v.versions e w.versions

versions_or_empty-All :
    (o : Option (List VersionEntry))
    → ((es : List VersionEntry) → o ≡ some es → All IsVersion es)
    → All IsVersion (versions_or_empty o)
versions_or_empty-All none f = tt
versions_or_empty-All (some es) f = f es refl

versions-Writable :
    (m : Dict (List VersionEntry)) (v : Vault)
    → AllOf IsName (All IsVersion) m
    → Writable v
    → Writable (record v { versions = m })
versions-Writable m v h w = record {
  floor = w.floor;
  boot = w.boot;
  buckets = w.buckets;
  versioned = w.versioned;
  ver_seq = w.ver_seq;
  versions = h;
  index = w.index;
  log = w.log;
  buffer = w.buffer;
  snapshot = w.snapshot;
  journal = w.journal;
}

push_version-Writable :
    (name : Text) (e : VersionEntry) (v : Vault)
    → IsName name
    → IsVersion e
    → Writable v
    → Writable (push_version name e v)
push_version-Writable name e v n i w =
    let old = versions_or_empty (lookup name v.versions) in
    let kept = versions_or_empty-All (lookup name v.versions) (found-versions name v w) in
    versions-Writable _ v
      (insert-AllOf IsName (All IsVersion) name (old ++ e ∷ []) v.versions n
        (All-append IsVersion old (e ∷ []) kept (i, tt)) w.versions)
      w

counted-Writable :
    (n : ℕ) (v : Vault) → n ≤ natural_last → Writable v → Writable (record v { ver_seq = n })
counted-Writable n v h w = record {
  floor = w.floor;
  boot = w.boot;
  buckets = w.buckets;
  versioned = w.versioned;
  ver_seq = h;
  versions = w.versions;
  index = w.index;
  log = w.log;
  buffer = w.buffer;
  snapshot = w.snapshot;
  journal = w.journal;
}

-- The next number, and what is done with it.
numbered-Writes :
    {A : Type 0} (f : ℕ → Act A)
    → ((n : ℕ) → n ≤ natural_last → Writes (f n))
    → Writes (next_version >>= f)
numbered-Writes f h = record {
  at = λ v w. elim (Bool-cases (v.ver_seq == natural_last)) [
    | inl e ↦ rw e w
    | inr e ↦ rw e (
        let room = below v.ver_seq w.ver_seq e in
        (h (v.ver_seq + 1) room).at _ (counted-Writable (v.ver_seq + 1) v room w))
  ];
}
  where
    below : (n : ℕ) → n ≤ natural_last → (n == natural_last) ≡ false → n + 1 ≤ natural_last
    below n h k = grind (arith, tests, ==_iff)

recorded-IsVersion :
    (m : Meta) (n : ℕ)
    → IsMeta m
    → IsVersion (record {
      vid = itoa (pos n);
      id = m.id;
      size = m.size;
      meta = m.user_meta;
      deleted = false;
    })
recorded-IsVersion m n i = record {
  vid = vid-IsWord n;
  id = i.id;
  size = i.size;
  meta = i.user_meta;
}

record_named-Writes :
    (name : Text) (o : Option Meta)
    → IsName name
    → ((m : Meta) → o ≡ some m → IsMeta m)
    → Writes (record_named name o)
record_named-Writes name none n f = pure-Writes _
record_named-Writes name (some m) n f = numbered-Writes _ (λ k h.
    let i = recorded-IsVersion m k (f m refl) in
    change-Writes (push_version name _) _ (λ u x. push_version-Writable name _ u n i x)
      (line-Writes (vseq_line k) _ h
        (line-Writes (ver_line name _) _ (n, i) (pure_committed-Writes _))))

pub record_version-Writable :
    (name : Text) (v : Vault) → IsName name → Writable v → Writable (record_version name v).1
unfolding record_version
record_version-Writable name v n w =
    (record_named-Writes name (lookup name v.index) n (found-IsMeta name v w)).at v w

pub marker-IsVersion : (k : ℕ) → IsVersion (marker k)
marker-IsVersion k = record {
  vid = vid-IsWord k;
  id = (refl, (zero_id-ne, zeros-spaceless));
  size = omega arith;
  meta = tt;
}
  where
    zero_id-ne : zero_id 64 ≢ []
    zero_id-ne h = cc

    zeros-spaceless : All (λ (c : ℕ). (c == b' ') ≡ false) (zero_id 64)
    zeros-spaceless = zeros 64
      where
        zeros : (n : ℕ) → All (λ (c : ℕ). (c == b' ') ≡ false) (zero_id n)
        zeros zero = tt
        zeros (suc n) = (refl, zeros n)

drop_indexed-Writes : (name : Text) (o : Option Meta) → IsName name → Writes (drop_indexed name o)
drop_indexed-Writes name none n = pure-Writes _
drop_indexed-Writes name (some m) n =
    change-Writes (drop_object name) _ (drop_object-Writable name)
      (append_jrnl-Writes (del_line name) n)

mark_named-Writes :
    (name : Text) (o : Option Meta) (now : ℕ)
    → IsName name
    → now ≤ time_last
    → Writes (mark_named name o now)
mark_named-Writes name o now n h = numbered-Writes _ (λ k room.
    change-Writes (push_version name (marker k)) _
      (λ u x. push_version-Writable name (marker k) u n (marker-IsVersion k) x)
      (then-Writes (drop_indexed name o) _ (drop_indexed-Writes name o n) (λ a.
        audited-Writes delete_allowed name now _ h (
          line-Writes (vseq_line k) _ room (
            line-Writes (ver_line name (marker k)) _ (n, marker-IsVersion k)
              (pure_committed-Writes _))))))

pub delete_marker-Writable :
    (name : Text) (v : Vault) → IsName name → Writable v → Writable (delete_marker name v).1
unfolding delete_marker
delete_marker-Writable name v n w =
    (mark_named-Writes name (lookup name v.index) v.clock.floor n w.floor).at v w

without_version-All :
    (vid : Text) (es : List VersionEntry)
    → All IsVersion es
    → All IsVersion (without_version vid es)
without_version-All vid [] h = tt
without_version-All vid (e ∷ es) (i, h) = elim (Bool-cases (has_version vid es)) [
  | inl b ↦ rw b (i, without_version-All vid es h)
  | inr b ↦ elim (Bool-cases (text_eq e.vid vid)) [
    | inl c ↦ rw (b, c) h
    | inr c ↦ rw (b, c) (i, without_version-All vid es h)
  ]
]

some-inj : {p q : VersionEntry} → ◌≡◌ {A = Option VersionEntry} (some p) (some q) → p ≡ q
some-inj e = cc

none-ne-some : (p : VersionEntry) → ◌≡◌ {A = Option VersionEntry} none (some p) → ⊥
none-ne-some p e = cc

-- The newest entry that is no marker, if there is one.
abbrev MaybeVersion : Option VersionEntry → Type 0
MaybeVersion none = Unit
MaybeVersion (some e) = IsVersion e

unless_deleted :
    (b : Bool) (e : VersionEntry) → IsVersion e → MaybeVersion (if b then none else some e)
unless_deleted true e i = tt
unless_deleted false e i = i

newer-IsVersion :
    (o : Option VersionEntry) (e : VersionEntry)
    → MaybeVersion o
    → IsVersion e
    → MaybeVersion (newer o e)
newer-IsVersion (some f) e h i = h
newer-IsVersion none e h i = unless_deleted e.deleted e i

newest_real-IsVersion : (es : List VersionEntry) → All IsVersion es → MaybeVersion (newest_real es)
newest_real-IsVersion [] h = tt
newest_real-IsVersion (e ∷ es) (i, h) =
    newer-IsVersion (newest_real es) e (newest_real-IsVersion es h) i

repoint-Writable :
    (name : Text) (o : Option VersionEntry) (v : Vault)
    → IsName name
    → MaybeVersion o
    → Writable v
    → Writable (repoint name o v)
unfolding create_lock
repoint-Writable name none v n h w = drop_object-Writable name v w
repoint-Writable name (some e) v n h w =
    set_object-Writable name _ (drop_object name v) n
      (record {
        id = h.id;
        until = omega arith;
        at = omega arith;
        size = h.size;
        user_meta = h.meta;
      })
      (drop_object-Writable name v w)

keep_versions-Writable :
    (name : Text) (es : List VersionEntry) (v : Vault)
    → IsName name
    → All IsVersion es
    → Writable v
    → Writable (keep_versions name es v)
keep_versions-Writable name [] v n h w =
    versions-Writable _ v (remove-AllOf IsName (All IsVersion) name v.versions w.versions) w
keep_versions-Writable name (e ∷ es) v n h w =
    versions-Writable _ v
      (insert-AllOf IsName (All IsVersion) name (e ∷ es) v.versions n h w.versions) w

delete_version_in-Writes :
    (name vid : Text) (o : Option (List VersionEntry))
    → IsName name
    → ((es : List VersionEntry) → o ≡ some es → All IsVersion es)
    → Writes (delete_version_in name vid o)
delete_version_in-Writes name vid none n f = pure-Writes _
delete_version_in-Writes name vid (some es) n f = elim (Bool-cases (has_version vid es)) [
  | inl e ↦ rw e (
      let left = without_version-All vid es (f es refl) in
      let o = newest_real (without_version vid es) in
      change-Writes (repoint name o) _
        (λ u x. repoint-Writable name o u n (newest_real-IsVersion _ left) x)
        (change-Writes (keep_versions name (without_version vid es)) _
          (λ u x. keep_versions-Writable name (without_version vid es) u n left x) save-Writes))
  | inr e ↦ rw e (pure-Writes _)
]

pub delete_version-Writable :
    (name vid : Text) (v : Vault)
    → IsName name
    → Writable v
    → Writable (delete_version name vid v).1
unfolding delete_version
delete_version-Writable name vid v n w =
    (delete_version_in-Writes name vid (lookup name v.versions) n (found-versions name v w)).at v w
