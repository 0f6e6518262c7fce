-- ===== src/Vault/Refines/Objects.antt =====
-- Objects and locks of the vault, vault/src/dezhan-vault.adb, against its abstract counterpart.
use dezhan.Base.{
  ℕ, ◌+◌, Bool, true, false, not, ◌&&◌, Option, none, some, ◌≡◌, refl, sym, ap, ◌∙◌, if◌then◌else◌,
  ltb, Bool-cases, inl, inr, ◌⊎◌, Result, pure, Option-cases, ◌>>◌,
}
use dezhan.Text.{Text}
use dezhan.Dict.{lookup}
use dezhan.Core.Retention.{LockMode, set_hold, release_hold, can_delete}
use dezhan.Core.Clock.{time_last}
use dezhan.Core.Audit.{
  AuditEvent, Digest, lock_created, delete_allowed, delete_denied, legal_hold_set,
  legal_hold_released,
}
use dezhan.Vault.State.{
  Meta, Vault, Line, del_line, obj_line, Act, Fault, vault_sealed, ingest_refusal, unless,
  add_audit, name_digest,
}
use dezhan.Vault.Persist.{save, append_jrnl, commit_jrnl}
use dezhan.Vault.Objects.{
  put_object, place, placed, lock_refusal, delete_object, delete_named, set_legal_hold,
  release_legal_hold, set_object, drop_object, mode_is_lock,
}
use dezhan.Vault.Operations.{put, delete, hold, release}
use dezhan.Vault.Keeps.{Plain, plain, Keeps, keeps}
use dezhan.Vault.Spec.{plain_step, accepts, may_delete, delete_if}

placed-Keeps :
    (kind : AuditEvent) (subject : Result Fault Digest) (detail : ℕ) (l : Line)
    → Keeps (do add_audit kind subject detail; append_jrnl l; commit_jrnl)
placed-Keeps kind subject detail l = search keeps

pub saved-Keeps :
    (kind : AuditEvent) (subject : Result Fault Digest) (detail : ℕ)
    → Keeps (do add_audit kind subject detail; save)
saved-Keeps kind subject detail = search keeps

allowed-Keeps :
    (name : Text) (detail : ℕ)
    → Keeps (do
      add_audit delete_allowed (name_digest name) detail
      append_jrnl (del_line name)
      commit_jrnl
      pure true)
allowed-Keeps name detail = search keeps

denied-Keeps :
    (name : Text) (detail : ℕ)
    → Keeps (do add_audit delete_denied (name_digest name) detail; commit_jrnl; pure false)
denied-Keeps name detail = search keeps

-- Either the checks let a Put_Object pass, or they leave the vault as it is.
accepts-cases :
    (v : Vault) (mode : LockMode) (retain_for : ℕ)
    → ((accepts (plain v) mode retain_for ≡ true)
        × (ingest_refusal v ≡ none)
        × (lock_refusal mode retain_for v ≡ none))
      ⊎ ((accepts (plain v) mode retain_for ≡ false)
          × ((m : Act Unit)
              → (unless (ingest_refusal v) (unless (lock_refusal mode retain_for v) m) v).1 ≡ v))
unfolding accepts
accepts-cases v mode retain_for = elim (Bool-cases v.op_sealed) [
  | inl a ↦ simp a (inr (refl, λ m. refl))
  | inr a ↦ elim (Bool-cases v.sync_shut) [
    | inl b ↦ simp (a, b) (inr (refl, λ m. refl))
    | inr b ↦ elim (Bool-cases (mode_is_lock mode)) [
      | inr c ↦ simp (a, b, c) (inr (refl, λ m. refl))
      | inl c ↦ elim (Bool-cases (ltb time_last (v.clock.floor + retain_for))) [
        | inl d ↦ simp (a, b, c, d) (inr (refl, λ m. refl))
        | inr d ↦ simp (a, b, c, d) (inl (refl, refl, refl))
      ]
    ]
  ]
]

unless-none :
    {A : Type 0} (r : Option Fault) (m : Act A) (v : Vault) → r ≡ none → unless r m v ≡ m v
unless-none r m v h = ap (λ (o : Option Fault). unless o m v) h

pub put_object-plain :
    (name id : Text) (composite : Bool) (size : ℕ) (mode : LockMode) (retain_for : ℕ) (meta : Text)
    (v : Vault)
    → plain (put_object name id composite size mode retain_for meta v).1
      ≡ plain_step (put name id composite size mode retain_for meta) (plain v)
unfolding put_object plain_step
put_object-plain name id composite size mode retain_for meta v =
    elim (accepts-cases v mode retain_for) [
      | inr (a, same) ↦
          rw a (ap plain (same (place name id composite size mode retain_for meta v.clock.floor)))
      | inl (a, r, l) ↦ rw a (
          ap (λ (x : Result Fault Unit × Vault). plain x.1)
            (unless-none (ingest_refusal v)
                (unless (lock_refusal mode retain_for v)
                  (place name id composite size mode retain_for meta v.clock.floor))
                v r
              ∙ unless-none (lock_refusal mode retain_for v)
                  (place name id composite size mode retain_for meta v.clock.floor) v l)
          ∙ placed-Keeps lock_created (name_digest name) (v.clock.floor + retain_for)
              (obj_line name (placed id composite size mode retain_for meta v.clock.floor))
              (set_object name (placed id composite size mode retain_for meta v.clock.floor) v))
    ]

pub choose-plain :
    {A : Type 0} (b c : Bool) (x y : Act A) (v : Vault) (p q : Plain)
    → b ≡ c
    → plain (x v).1 ≡ p
    → plain (y v).1 ≡ q
    → plain ((if b then x else y) v).1 ≡ (if c then p else q)
choose-plain true true x y v p q e hx hy = hx
choose-plain false false x y v p q e hx hy = hy
choose-plain true false x y v p q e hx hy = cc
choose-plain false true x y v p q e hx hy = cc

pub if-plain :
    {A : Type 0} (b c : Bool) (x y : Result Fault A × Vault) (p q : Plain)
    → b ≡ c
    → plain x.1 ≡ p
    → plain y.1 ≡ q
    → plain (if b then x else y).1 ≡ (if c then p else q)
if-plain true true x y p q e hx hy = hx
if-plain false false x y p q e hx hy = hy
if-plain true false x y p q e hx hy = cc
if-plain false true x y p q e hx hy = cc

delete_named-plain :
    (name : Text) (bypass : Bool) (o : Option Meta) (v : Vault)
    → v.op_sealed ≡ false
    → plain (delete_named name bypass o v.clock.floor v).1 ≡ delete_if name bypass o (plain v)
unfolding may_delete
delete_named-plain name bypass none v h = refl
delete_named-plain name bypass (some m) v h =
    choose-plain can (not v.op_sealed && can) _ _ v _ _ (ap (λ (b : Bool). not b && can) (sym h))
      (allowed-Keeps name v.clock.floor (drop_object name v)) (denied-Keeps name v.clock.floor v)
  where
    can : Bool
    can = can_delete m.lock v.clock.floor (record { bypass_governance = bypass })

delete_if-sealed :
    (name : Text) (bypass : Bool) (o : Option Meta) (p : Plain)
    → p.op_sealed ≡ true
    → delete_if name bypass o p ≡ p
unfolding may_delete
delete_if-sealed name bypass none p h = refl
delete_if-sealed name bypass (some m) p h = simp h refl

pub delete_object-plain :
    (name : Text) (bypass : Bool) (v : Vault)
    → plain (delete_object name bypass v).1 ≡ plain_step (delete name bypass) (plain v)
unfolding delete_object plain_step
delete_object-plain name bypass v = elim (Bool-cases v.op_sealed) [
  | inl a ↦
      ap (λ (b : Bool). plain (unless (if b then some vault_sealed else none) act v).1) a
      ∙ sym (delete_if-sealed name bypass found (plain v) a)
  | inr a ↦
      ap (λ (b : Bool). plain (unless (if b then some vault_sealed else none) act v).1) a
      ∙ delete_named-plain name bypass found v a
]
  where
    found : Option Meta
    found = lookup name v.index

    act : Act Bool
    act = delete_named name bypass found v.clock.floor

pub set_legal_hold-plain :
    (name : Text) (v : Vault) → plain (set_legal_hold name v).1 ≡ plain_step (hold name) (plain v)
unfolding set_legal_hold plain_step
set_legal_hold-plain name v = elim (Option-cases (lookup name v.index)) [
  | inl n ↦ simp n refl
  | inr (m, n) ↦ simp n (
      saved-Keeps legal_hold_set (name_digest name) v.clock.floor
        (set_object name (record m { lock = set_hold m.lock }) v))
]

pub release_legal_hold-plain :
    (name : Text) (v : Vault)
    → plain (release_legal_hold name v).1 ≡ plain_step (release name) (plain v)
unfolding release_legal_hold plain_step
release_legal_hold-plain name v = elim (Option-cases (lookup name v.index)) [
  | inl n ↦ simp n refl
  | inr (m, n) ↦ simp n (
      saved-Keeps legal_hold_released (name_digest name) v.clock.floor
        (set_object name (record m { lock = release_hold m.lock }) v))
]
