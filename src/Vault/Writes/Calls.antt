-- ===== src/Vault/Writes/Calls.antt =====
-- The calls of vault/src/dezhan-vault.adb keep what the vault holds of a form that can be written.
use dezhan.Base.{
  ℕ, ◌+◌, ◌≤◌, Bool, true, false, not, Option, none, some, ◌≡◌, refl, ok, leb, ltb, length,
  Bool-cases, inl, inr, arith, tests, ◌>>◌, pure,
}
use dezhan.Text.{Text}
use dezhan.Dict.{lookup, insert-AllOf, remove-AllOf, lookup-AllOf}
use dezhan.Core.Clock.{time_last}
use dezhan.Core.Retention.{LockMode, create_lock, set_hold, release_hold}
use dezhan.Core.Audit.{AuditEvent, natural_last}
use dezhan.Vault.State.{
  Meta, Line, Vault, Fault, Act, update, name_digest, add_audit, digest_limit, ingest_refusal,
  seal_refusal, obj_line, del_line,
}
use dezhan.Vault.Persist.{save, append_jrnl, commit_jrnl}
use dezhan.Vault.Objects.{
  put_object, lock_refusal, placed, mode_is_lock, delete_object, delete_named, set_legal_hold,
  hold_named, release_legal_hold, release_named, set_object, drop_object,
}
use dezhan.Vault.Printed.{IsBytes}
use dezhan.Vault.Readable.{IsName, IsId, IsMeta, IsReadable}
use dezhan.Vault.Writes.{
  Writable, Writes, IsSubject, sha256-IsDigest, then-Writes, pure-Writes, save-Writes,
  append_jrnl-Writes, commit_jrnl-Writes, add_audit-Writes, unless-Writes, if-Writes, change-Writes,
}

name_digest-IsSubject : (name : Text) → IsSubject (name_digest name)
unfolding name_digest
name_digest-IsSubject name = elim (Bool-cases (leb (length name) digest_limit)) [
  | inl e ↦ rw e (sha256-IsDigest name)
  | inr e ↦ rw e tt
]

-- An entry, and then the rest.
pub audited-Writes :
    {A : Type 0} (kind : AuditEvent) (name : Text) (detail : ℕ) (m : Act A)
    → detail ≤ time_last
    → Writes m
    → Writes (do add_audit kind (name_digest name) detail; m)
audited-Writes kind name detail m l h =
    then-Writes (add_audit kind (name_digest name) detail) (λ a. m)
      (add_audit-Writes kind (name_digest name) detail (name_digest-IsSubject name) l) (λ a. h)

-- A line, and then the rest.
pub line-Writes :
    {A : Type 0} (l : Line) (m : Act A) → IsReadable l → Writes m → Writes (do append_jrnl l; m)
line-Writes l m i h = then-Writes (append_jrnl l) (λ a. m) (append_jrnl-Writes l i) (λ a. h)

pub pure_committed-Writes : {A : Type 0} (a : A) → Writes (do commit_jrnl; pure a)
pure_committed-Writes a =
    then-Writes commit_jrnl (λ u. pure a) commit_jrnl-Writes (λ u. pure-Writes (ok a))

pub set_object-Writable :
    (name : Text) (m : Meta) (v : Vault)
    → IsName name
    → IsMeta m
    → Writable v
    → Writable (set_object name m v)
set_object-Writable name m v n i w = record {
  floor = w.floor;
  boot = w.boot;
  buckets = w.buckets;
  versioned = w.versioned;
  ver_seq = w.ver_seq;
  versions = w.versions;
  index = insert-AllOf IsName IsMeta name m v.index n i w.index;
  log = w.log;
  buffer = w.buffer;
  snapshot = w.snapshot;
  journal = w.journal;
}

pub drop_object-Writable : (name : Text) (v : Vault) → Writable v → Writable (drop_object name v)
drop_object-Writable name v w = record {
  floor = w.floor;
  boot = w.boot;
  buckets = w.buckets;
  versioned = w.versioned;
  ver_seq = w.ver_seq;
  versions = w.versions;
  index = remove-AllOf IsName IsMeta name v.index w.index;
  log = w.log;
  buffer = w.buffer;
  snapshot = w.snapshot;
  journal = w.journal;
}

-- What Put_Object does not refuse is in range.
lock_refusal-none :
    (mode : LockMode) (retain_for : ℕ) (v : Vault)
    → lock_refusal mode retain_for v ≡ none
    → v.clock.floor + retain_for ≤ time_last
lock_refusal-none mode retain_for v h = elim (Bool-cases (not (mode_is_lock mode))) [
  | inl e ↦ absurd (some-ne-none _ (rw e at h))
  | inr e ↦ elim (Bool-cases (ltb time_last (v.clock.floor + retain_for))) [
    | inl f ↦ absurd (some-ne-none _ (rw (e, f) at h))
    | inr f ↦ grind (arith, tests)
  ]
]
  where
    some-ne-none : (e : Fault) → ◌≡◌ {A = Option Fault} (some e) none → ⊥
    some-ne-none e h = cc

placed-IsMeta :
    (id : Text) (composite : Bool) (size : ℕ) (mode : LockMode) (retain_for : ℕ) (meta : Text)
    (now : ℕ)
    → IsId id
    → size ≤ natural_last
    → IsBytes meta
    → now + retain_for ≤ time_last
    → IsMeta (placed id composite size mode retain_for meta now)
unfolding create_lock
placed-IsMeta id composite size mode retain_for meta now i s b h = record {
  id = i;
  until = h;
  at = omega arith;
  size = s;
  user_meta = b;
}

pub put_object-Writable :
    (name id : Text) (composite : Bool) (size : ℕ) (mode : LockMode) (retain_for : ℕ) (meta : Text)
    (v : Vault)
    → IsName name
    → IsId id
    → size ≤ natural_last
    → IsBytes meta
    → Writable v
    → Writable (put_object name id composite size mode retain_for meta v).1
unfolding put_object
put_object-Writable name id composite size mode retain_for meta v n i s b w =
    let now = v.clock.floor in
    unless-Writes (ingest_refusal v) _ v w (λ a.
      unless-Writes (lock_refusal mode retain_for v) _ v w (λ e.
        let m = placed id composite size mode retain_for meta now in
        let h = lock_refusal-none mode retain_for v e in
        let is_meta = placed-IsMeta id composite size mode retain_for meta now i s b h in
        (change-Writes (set_object name m) _ (λ u x. set_object-Writable name m u n is_meta x)
            (audited-Writes _ name (now + retain_for) _ h
              (line-Writes (obj_line name m) _ (n, is_meta) commit_jrnl-Writes))).at
          v w))

delete_named-Writes :
    (name : Text) (bypass : Bool) (o : Option Meta) (now : ℕ)
    → IsName name
    → now ≤ time_last
    → Writes (delete_named name bypass o now)
delete_named-Writes name bypass none now n h = pure-Writes _
delete_named-Writes name bypass (some m) now n h =
    if-Writes _ _ _
      (change-Writes (drop_object name) _ (drop_object-Writable name) (
        audited-Writes _ name now _ h
          (line-Writes (del_line name) _ n (pure_committed-Writes true))))
      (audited-Writes _ name now _ h (pure_committed-Writes false))

pub delete_object-Writable :
    (name : Text) (bypass : Bool) (v : Vault)
    → IsName name
    → Writable v
    → Writable (delete_object name bypass v).1
unfolding delete_object
delete_object-Writable name bypass v n w =
    unless-Writes (seal_refusal v) _ v w
      (λ e. (delete_named-Writes name bypass (lookup name v.index) v.clock.floor n w.floor).at v w)

-- A changed object, whose lock keeps its times.
relocked-Writes :
    (name : Text) (m : Meta) (kind : AuditEvent) (now : ℕ)
    → IsName name
    → IsMeta m
    → now ≤ time_last
    → Writes (do update (set_object name m); add_audit kind (name_digest name) now; save)
relocked-Writes name m kind now n i h =
    change-Writes (set_object name m) _ (λ u x. set_object-Writable name m u n i x)
      (audited-Writes kind name now save h save-Writes)

hold_named-Writes :
    (name : Text) (o : Option Meta) (now : ℕ)
    → IsName name
    → ((m : Meta) → o ≡ some m → IsMeta m)
    → now ≤ time_last
    → Writes (hold_named name o now)
unfolding set_hold
hold_named-Writes name none now n f h = pure-Writes _
hold_named-Writes name (some m) now n f h =
    let i = f m refl in
    relocked-Writes name _ _ now n
      (record { id = i.id; until = i.until; at = i.at; size = i.size; user_meta = i.user_meta }) h

release_named-Writes :
    (name : Text) (o : Option Meta) (now : ℕ)
    → IsName name
    → ((m : Meta) → o ≡ some m → IsMeta m)
    → now ≤ time_last
    → Writes (release_named name o now)
unfolding release_hold
release_named-Writes name none now n f h = pure-Writes _
release_named-Writes name (some m) now n f h =
    let i = f m refl in
    relocked-Writes name _ _ now n
      (record { id = i.id; until = i.until; at = i.at; size = i.size; user_meta = i.user_meta }) h

-- Objects that are there can be written.
pub found-IsMeta :
    (name : Text) (v : Vault) → Writable v → (m : Meta) → lookup name v.index ≡ some m → IsMeta m
found-IsMeta name v w m e = lookup-AllOf IsName IsMeta name m v.index e w.index

pub set_legal_hold-Writable :
    (name : Text) (v : Vault) → IsName name → Writable v → Writable (set_legal_hold name v).1
unfolding set_legal_hold
set_legal_hold-Writable name v n w =
    (hold_named-Writes name (lookup name v.index) v.clock.floor n (found-IsMeta name v w)
        w.floor).at
      v w

pub release_legal_hold-Writable :
    (name : Text) (v : Vault) → IsName name → Writable v → Writable (release_legal_hold name v).1
unfolding release_legal_hold
release_legal_hold-Writable name v n w =
    (release_named-Writes name (lookup name v.index) v.clock.floor n (found-IsMeta name v w)
        w.floor).at
      v w
