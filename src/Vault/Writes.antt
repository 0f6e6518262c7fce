-- ===== src/Vault/Writes.antt =====
-- What the vault holds can be written so that it is read back, vault/src/dezhan-vault.adb.
pub mod Calls
pub mod Versions
pub mod Admin
use dezhan.Base.{
  ℕ, ◌+◌, ◌≤◌, ◌<◌, ◌++◌, [], ◌∷◌, List, Bool, true, false, Option, none, some, ◌≡◌, refl, sym, ap,
  ◌∙◌, subst, Result, ok, err, if◌then◌else◌, ◌==◌, ==_iff, leb, ltb, length, All, All-append,
  Bool-cases, inl, inr, arith, tests, continue, ◌>>=◌, ◌>>◌, pure, fail,
}
use dezhan.Text.{Text}
use dezhan.Dict.{Dict, AllOf}
use dezhan.Core.Clock.{time_last}
use dezhan.Core.Sha256.{sha256, put32, byte_of, blocks, block_count, initial, padded}
use dezhan.Core.Audit.{AuditEvent, Digest, AuditEntry, append, hash_of, natural_last}
use dezhan.Core.Audit.Serial.{length-sha256}
use dezhan.Vault.State.{
  Meta, VersionEntry, Line, a_line, Vault, Fault, Act, update, unless, add_audit, logged,
  next_entry, last_element,
}
use dezhan.Vault.Persist.{
  bkt_lines, vsn_lines, ver_lines_of, ver_lines, obj_lines, a_lines, snapshot_of, saved, save,
  committed, append_jrnl, commit_jrnl,
}
use dezhan.Vault.Printed.{IsSpaceless, IsBytes}
use dezhan.Vault.Readable.{IsName, IsId, IsDigest, IsMeta, IsVersion, IsEntry, IsReadable}

abbrev pub AnyFlag : Bool → Type 0
AnyFlag b = Unit

-- The state, its buffer and its files.
pub record Writable (v : Vault) : Type 0 where
  pub floor : v.clock.floor ≤ time_last
  pub boot : IsSpaceless v.last_boot
  pub buckets : AllOf IsName AnyFlag v.buckets
  pub versioned : AllOf IsName AnyFlag v.versioned
  pub ver_seq : v.ver_seq ≤ natural_last
  pub versions : AllOf IsName (All IsVersion) v.versions
  pub index : AllOf IsName IsMeta v.index
  pub log : All IsEntry v.log
  pub buffer : All IsReadable v.jrnl_buf
  pub snapshot : All IsReadable v.snapshot
  pub journal : All IsReadable v.journal

pub bkt_lines-All : (m : Dict Bool) → AllOf IsName AnyFlag m → All IsReadable (bkt_lines m)
bkt_lines-All [] h = tt
bkt_lines-All ((k, b) ∷ m) ((n, u), h) = (n, bkt_lines-All m h)

pub vsn_lines-All : (m : Dict Bool) → AllOf IsName AnyFlag m → All IsReadable (vsn_lines m)
vsn_lines-All [] h = tt
vsn_lines-All ((k, true) ∷ m) ((n, u), h) = (n, vsn_lines-All m h)
vsn_lines-All ((k, false) ∷ m) ((n, u), h) = vsn_lines-All m h

ver_lines_of-All :
    (k : Text) (es : List VersionEntry)
    → IsName k
    → All IsVersion es
    → All IsReadable (ver_lines_of k es)
ver_lines_of-All k [] n h = tt
ver_lines_of-All k (e ∷ es) n (h, t) = ((n, h), ver_lines_of-All k es n t)

pub ver_lines-All :
    (m : Dict (List VersionEntry)) → AllOf IsName (All IsVersion) m → All IsReadable (ver_lines m)
ver_lines-All [] h = tt
ver_lines-All ((k, es) ∷ m) ((n, v), h) =
    All-append IsReadable (ver_lines_of k es) (ver_lines m) (ver_lines_of-All k es n v)
      (ver_lines-All m h)

obj_lines-All : (m : Dict Meta) → AllOf IsName IsMeta m → All IsReadable (obj_lines m)
obj_lines-All [] h = tt
obj_lines-All ((k, o) ∷ m) (h, t) = (h, obj_lines-All m t)

a_lines-All : (es : List AuditEntry) → All IsEntry es → All IsReadable (a_lines es)
a_lines-All [] h = tt
a_lines-All (e ∷ es) (h, t) = (h, a_lines-All es t)

pub snapshot_of-All : (v : Vault) → Writable v → All IsReadable (snapshot_of v)
unfolding snapshot_of
snapshot_of-All v w = (
  tt,
  (
    w.floor,
    (
      w.boot,
      (
        tt,
        All-append IsReadable (bkt_lines v.buckets) _ (bkt_lines-All v.buckets w.buckets) (
            All-append IsReadable (vsn_lines v.versioned) _ (vsn_lines-All v.versioned w.versioned)
              (
                w.ver_seq,
                All-append IsReadable (ver_lines v.versions) _ (ver_lines-All v.versions w.versions)
                    (All-append IsReadable (obj_lines v.index) _ (obj_lines-All v.index w.index)
                      (tt, a_lines-All v.log w.log)),
              )),
      ),
    ),
  ),
)

put32-IsBytes : (x : ℕ) → IsBytes (put32 x)
put32-IsBytes x = (omega arith, (omega arith, (omega arith, (omega arith, tt))))

words-IsBytes : (x : ℕ) (t : List ℕ) → IsBytes t → IsBytes (put32 x ++ t)
words-IsBytes x t h = All-append (λ (c : ℕ). c < 256) (put32 x) t (put32-IsBytes x) h

sha256-IsBytes : (msg : List ℕ) → IsBytes (sha256 msg)
unfolding sha256
sha256-IsBytes msg =
    let r = blocks (block_count (length msg)) initial (padded msg) in
    let g = put32 r.g ++ put32 r.h in
    let f = put32 r.f ++ g in
    let e = put32 r.e ++ f in
    let d = put32 r.d ++ e in
    let c = put32 r.c ++ d in
    let b = put32 r.b ++ c in
    words-IsBytes r.a b (
      words-IsBytes r.b c (
        words-IsBytes r.c d (
          words-IsBytes r.d e (
            words-IsBytes r.e f
              (words-IsBytes r.f g (words-IsBytes r.g (put32 r.h) (put32-IsBytes r.h)))))))

pub sha256-IsDigest : (msg : List ℕ) → IsDigest (sha256 msg)
sha256-IsDigest msg = (length-sha256 msg, sha256-IsBytes msg)

-- The action keeps what can be written.
pub record Writes {A : Type 0} (m : Act A) : Type 0 where
  pub at : (v : Vault) → Writable v → Writable (m v).1

continue-Writes :
    {A B : Type 0} (x : Result Fault A × Vault) (f : A → Act B)
    → Writable x.1
    → ((a : A) → Writes (f a))
    → Writable (continue x f).1
continue-Writes (ok a, w) f h g = (g a).at w h
continue-Writes (err e, w) f h g = h

pub then-Writes :
    {A B : Type 0} (m : Act A) (f : A → Act B)
    → Writes m
    → ((a : A) → Writes (f a))
    → Writes (m >>= f)
then-Writes m f h g = record { at = λ v w. continue-Writes (m v) f (h.at v w) g }

pub pure-Writes : {A : Type 0} (r : Result Fault A) → Writes (λ (v : Vault). (r, v))
pure-Writes r = record { at = λ v w. w }

pub save-Writes : Writes save
unfolding saved
save-Writes = record {
  at = λ v w. record {
    floor = w.floor;
    boot = w.boot;
    buckets = w.buckets;
    versioned = w.versioned;
    ver_seq = w.ver_seq;
    versions = w.versions;
    index = w.index;
    log = w.log;
    buffer = tt;
    snapshot = snapshot_of-All v w;
    journal = tt;
  };
}

pub append_jrnl-Writes : (l : Line) → IsReadable l → Writes (append_jrnl l)
append_jrnl-Writes l h = record {
  at = λ v w. record {
    floor = w.floor;
    boot = w.boot;
    buckets = w.buckets;
    versioned = w.versioned;
    ver_seq = w.ver_seq;
    versions = w.versions;
    index = w.index;
    log = w.log;
    buffer = All-append IsReadable v.jrnl_buf (l ∷ []) w.buffer (h, tt);
    snapshot = w.snapshot;
    journal = w.journal;
  };
}

pub commit_jrnl-Writes : Writes commit_jrnl
unfolding committed
commit_jrnl-Writes = record {
  at = λ v w. elim (Bool-cases (length v.jrnl_buf == 0)) [
    | inl e ↦ rw e w
    | inr e ↦ rw e (elim (Bool-cases (leb 20000 (v.jrnl_count + length v.jrnl_buf))) [
      | inl f ↦ rw f (save-Writes.at v w)
      | inr f ↦ rw f (record {
        floor = w.floor;
        boot = w.boot;
        buckets = w.buckets;
        versioned = w.versioned;
        ver_seq = w.ver_seq;
        versions = w.versions;
        index = w.index;
        log = w.log;
        buffer = tt;
        snapshot = w.snapshot;
        journal = All-append IsReadable v.journal v.jrnl_buf w.journal w.buffer;
      })
    ])
  ];
}

-- The subject is a digest, if it is given.
abbrev pub IsSubject : Result Fault Digest → Type 0
IsSubject (ok d) = IsDigest d
IsSubject (err e) = Unit

none-ne-some : (p : AuditEntry) → ◌≡◌ {A = Option AuditEntry} none (some p) → ⊥
none-ne-some p e = cc

some-inj : {p q : AuditEntry} → ◌≡◌ {A = Option AuditEntry} (some p) (some q) → p ≡ q
some-inj e = cc

last_element-All :
    (es : List AuditEntry) (p : AuditEntry) → last_element es ≡ some p → All IsEntry es → IsEntry p
last_element-All [] p e h = absurd (none-ne-some p e)
last_element-All (x ∷ []) p e (h, t) = subst IsEntry (some-inj e) h
last_element-All (x ∷ y ∷ es) p e (h, t) = last_element-All (y ∷ es) p e t

append-IsEntry :
    (p : AuditEntry) (time : ℕ) (kind : AuditEvent) (d : Digest) (detail : ℕ)
    → IsEntry p
    → (p.seq == natural_last) ≡ false
    → time ≤ time_last
    → detail ≤ time_last
    → IsDigest d
    → IsEntry (append p time kind d detail)
unfolding append hash_of
append-IsEntry p time kind d detail i room t l s = record {
  seq = next p.seq i.seq room;
  time = t;
  detail = l;
  subject = s;
  prev_hash = i.hash;
  hash = sha256-IsDigest _;
}
  where
    next : (n : ℕ) → n ≤ natural_last → (n == natural_last) ≡ false → n + 1 ≤ natural_last
    next n h k = grind (arith, tests, ==_iff)

noted-Writable :
    (e : AuditEntry) (v : Vault)
    → IsEntry e
    → Writable v
    → Writable (record v { log = v.log ++ e ∷ []; jrnl_buf = v.jrnl_buf ++ a_line e ∷ [] })
noted-Writable e v i w = record {
  floor = w.floor;
  boot = w.boot;
  buckets = w.buckets;
  versioned = w.versioned;
  ver_seq = w.ver_seq;
  versions = w.versions;
  index = w.index;
  log = All-append IsEntry v.log (e ∷ []) w.log (i, tt);
  buffer = All-append IsReadable v.jrnl_buf (a_line e ∷ []) w.buffer (i, tt);
  snapshot = w.snapshot;
  journal = w.journal;
}

entry-Writable :
    (o : Option AuditEntry) (kind : AuditEvent) (d : Digest) (detail : ℕ) (v : Vault)
    → ((p : AuditEntry) → o ≡ some p → IsEntry p)
    → IsDigest d
    → detail ≤ time_last
    → Writable v
    → Writable (logged (next_entry o v.clock.floor kind d detail) v).1
entry-Writable none kind d detail v f s l w = w
entry-Writable (some p) kind d detail v f s l w = elim (Bool-cases (p.seq == natural_last)) [
  | inl b ↦ rw b w
  | inr b ↦ rw b (
      noted-Writable (append p v.clock.floor kind d detail) v
        (append-IsEntry p v.clock.floor kind d detail (f p refl) b w.floor l s) w)
]

pub add_audit-Writes :
    (kind : AuditEvent) (subject : Result Fault Digest) (detail : ℕ)
    → IsSubject subject
    → detail ≤ time_last
    → Writes (add_audit kind subject detail)
unfolding add_audit
add_audit-Writes kind (err e) detail s l = record { at = λ v w. w }
add_audit-Writes kind (ok d) detail s l = record {
  at = λ v w.
      entry-Writable (last_element v.log) kind d detail v (λ p e. last_element-All v.log p e w.log)
        s l w;
}

pub unless-Writes :
    {A : Type 0} (r : Option Fault) (m : Act A) (v : Vault)
    → Writable v
    → (r ≡ none → Writable (m v).1)
    → Writable (unless r m v).1
unless-Writes none m v w f = f refl
unless-Writes (some e) m v w f = w

pub if-Writes :
    {A : Type 0} (b : Bool) (x y : Act A) → Writes x → Writes y → Writes (if b then x else y)
if-Writes true x y hx hy = hx
if-Writes false x y hx hy = hy

-- A change that keeps what can be written, and then the rest.
pub change-Writes :
    {A : Type 0} (f : Vault → Vault) (m : Act A)
    → ((v : Vault) → Writable v → Writable (f v))
    → Writes m
    → Writes (do update f; m)
change-Writes f m h g = record { at = λ v w. g.at (f v) (h v w) }
