-- ===== src/Vault/Misread.antt =====
-- Versions of objects that are stored in parts, vault/src/dezhan-vault.adb: Record_Version,
-- Get_Object and Get_Object_Version.
use dezhan.Base.{
  ℕ, ◌+◌, ◌++◌, [], ◌∷◌, List, Bool, true, false, Option, some, ◌≡◌, refl, ap, ◌∙◌, Result, ok, err,
  if◌then◌else◌, ◌==◌, leb, length, All, Bool-cases, inl, inr, arith,
}
use dezhan.Text.{Text, text_eq, text_eq_refl, pos, itoa}
use dezhan.Dict.{Dict, lookup, lookup-insert}
use dezhan.Core.Audit.{natural_last}
use dezhan.Vault.State.{
  Meta, VersionEntry, Vault, Fault, egress_denied, object_quarantined, vseq_line, ver_line,
}
use dezhan.Vault.Persist.{committed, saved, buffered, versions_or_empty}
use dezhan.Vault.Versions.{record_version, record_named, has_version, push_version}
use dezhan.Vault.Content.{
  Cas, get_object, get_object_version, get_named, get_version_in, get_version_named, fetch,
}
use dezhan.Vault.Parts.{concat, Is64, Gets, fetch-list}

-- What a read looks at is the same.
record ReadsAs (u v : Vault) : Type 0 where
  index : v.index ≡ u.index
  versions : v.versions ≡ u.versions
  ingest_only : v.ingest_only ≡ u.ingest_only

committed-ReadsAs : (v : Vault) → ReadsAs v (committed v)
unfolding committed saved
committed-ReadsAs v = elim (Bool-cases (length v.jrnl_buf == 0)) [
  | inl e ↦ rw e (record { index = refl; versions = refl; ingest_only = refl })
  | inr e ↦ rw e (elim (Bool-cases (leb 20000 (v.jrnl_count + length v.jrnl_buf))) [
    | inl f ↦ rw f (record { index = refl; versions = refl; ingest_only = refl })
    | inr f ↦ rw f (record { index = refl; versions = refl; ingest_only = refl })
  ])
]

abbrev version_of : Meta → Text → VersionEntry
version_of m vid = record {
  vid = vid;
  id = m.id;
  size = m.size;
  meta = m.user_meta;
  deleted = false;
}

-- The version is there with the object's id, and the object is as it was.
record Recorded (name : Text) (m : Meta) (vid : Text) (v : Vault) (x : Result Fault Text × Vault)
    : Type 0 where
  result : x.0 ≡ ok vid
  same_index : x.1.index ≡ v.index
  same_mode : x.1.ingest_only ≡ v.ingest_only
  versions :
      lookup name x.1.versions
      ≡ some (versions_or_empty (lookup name v.versions) ++ version_of m vid ∷ [])

-- before Commit_Jrnl
abbrev noted_version : Text → VersionEntry → ℕ → Vault → Vault
noted_version name e n v =
    buffered (ver_line name e)
      (buffered (vseq_line n) (push_version name e (record v { ver_seq = n })))

record_named-Recorded :
    (name : Text) (m : Meta) (v : Vault)
    → (v.ver_seq == natural_last) ≡ false
    → Recorded name m (itoa (pos (v.ver_seq + 1))) v (record_named name (some m) v)
record_named-Recorded name m v room =
    let vid = itoa (pos (v.ver_seq + 1)) in
    let r = committed-ReadsAs (noted_version name (version_of m vid) (v.ver_seq + 1) v) in
    let es = versions_or_empty (lookup name v.versions) ++ version_of m vid ∷ [] in
    rw room (record {
      result = refl;
      same_index = r.index;
      same_mode = r.ingest_only;
      versions =
          ap (λ (d : Dict (List VersionEntry)). lookup name d) r.versions
          ∙ (lookup-insert name name es v.versions ∙ (rw text_eq_refl refl));
    })

neither : (b c : Bool) → (if b then true else c) ≡ false → (b ≡ false) × (c ≡ false)
neither b c h = ground arith

get_version_in-last :
    (S : Cas) (vid : Text) (es : List VersionEntry) (e : VersionEntry) (w : S.World)
    → has_version vid es ≡ false
    → e.vid ≡ vid
    → e.deleted ≡ false
    → get_version_in S vid (es ++ e ∷ []) w ≡ S.get e.id w
get_version_in-last S vid [] e w h q d = rw q (rw text_eq_refl (rw d refl))
get_version_in-last S vid (f ∷ es) e w h q d =
    let (other, rest) = neither (text_eq f.vid vid) (has_version vid es) h in
    rw other (get_version_in-last S vid es e w rest q d)

record_version-Recorded :
    (name : Text) (m : Meta) (v : Vault)
    → lookup name v.index ≡ some m
    → (v.ver_seq == natural_last) ≡ false
    → Recorded name m (itoa (pos (v.ver_seq + 1))) v (record_version name v)
unfolding record_version
record_version-Recorded name m v found room = rw found (record_named-Recorded name m v room)

get_object-at :
    (S : Cas) (name memory : Text) (m : Meta) (v : Vault) (w : S.World)
    → v.ingest_only ≡ false
    → lookup name v.index ≡ some m
    → m.quarantined ≡ false
    → m.composite ≡ true
    → get_object S v name memory w ≡ fetch S m.id true m.size memory w
unfolding get_object
get_object-at S name memory m v w free found whole comp =
    ap (λ (b : Bool). if b then err egress_denied else get_named S (lookup name v.index) memory w)
      free
    ∙ (ap (λ (o : Option Meta). get_named S o memory w) found
        ∙ (ap
              (λ (b : Bool).
                if b then err object_quarantined else fetch S m.id m.composite m.size memory w)
              whole
            ∙ ap (λ (c : Bool). fetch S m.id c m.size memory w) comp))

get_object_version-at :
    (S : Cas) (name vid : Text) (es : List VersionEntry) (v : Vault) (w : S.World)
    → v.ingest_only ≡ false
    → lookup name v.versions ≡ some es
    → get_object_version S v name vid w ≡ get_version_in S vid es w
unfolding get_object_version
get_object_version-at S name vid es v w free found =
    ap
      (λ (b : Bool).
        if b then err egress_denied else get_version_named S vid (lookup name v.versions) w)
      free
    ∙ ap (λ (o : Option (List VersionEntry)). get_version_named S vid o w) found

-- Where an object is stored in parts and its version is recorded, under an id that none of its
-- versions has, and reading is not denied: Get_Object goes on to give the parts joined, and
-- Get_Object_Version gives the list of the parts' ids in their place.
pub get_object_version-lists :
    (S : Cas) (name memory : Text) (m : Meta) (is ps : List Text) (v : Vault) (w : S.World)
    → lookup name v.index ≡ some m
    → m.composite ≡ true
    → m.quarantined ≡ false
    → v.ingest_only ≡ false
    → (v.ver_seq == natural_last) ≡ false
    → has_version (itoa (pos (v.ver_seq + 1))) (versions_or_empty (lookup name v.versions)) ≡ false
    → S.get m.id w ≡ ok (concat is)
    → All Is64 is
    → Gets S w is ps
    → m.size ≡ length (concat ps)
    → length memory ≡ m.size
    → (get_object S (record_version name v).1 name memory w ≡ ok (concat ps))
      × (get_object_version S (record_version name v).1 name (itoa (pos (v.ver_seq + 1))) w
          ≡ ok (concat is))
get_object_version-lists S name memory m is ps v w found comp whole free room fresh list ids64 gets
      size mem =
    let vid = itoa (pos (v.ver_seq + 1)) in
    let r = record_version-Recorded name m v found room in
    let u = (record_version name v).1 in
    (
      get_object-at S name memory m u w (r.same_mode ∙ free)
            (ap (λ (d : Dict Meta). lookup name d) r.same_index ∙ found) whole comp
          ∙ (ap (λ (n : ℕ). fetch S m.id true n memory w) size
              ∙ fetch-list S is ps (concat ps) memory m.id w list ids64 gets refl (mem ∙ size)),
      get_object_version-at S name vid _ u w (r.same_mode ∙ free) r.versions
          ∙ (get_version_in-last S vid (versions_or_empty (lookup name v.versions))
                (version_of m vid) w fresh refl refl
              ∙ list),
    )
