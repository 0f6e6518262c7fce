-- ===== src/Vault/Keeps.antt =====
-- Auditing, the journal and Save, of vault/src/dezhan-vault.adb, beside the rest of the state.
use dezhan.Base.{
  ℕ, ◌+◌, ◌≡◌, refl, ◌∙◌, List, Bool, Result, ok, err, pure, ◌>>=◌, continue, length, ◌==◌, leb,
  Bool-cases, inl, inr,
}
use dezhan.Text.{Text}
use dezhan.Dict.{Dict}
use dezhan.Core.Audit.{AuditEvent, Digest, AuditEntry}
use dezhan.Vault.State.{
  Meta, VersionEntry, Line, Vault, Fault, Act, add_audit, logged, next_entry, last_element,
}
use dezhan.Vault.Persist.{save, saved, commit_jrnl, committed, append_jrnl}

-- What the vault holds and knows of time, apart from records of it and from the untrusted clock.
pub record Plain : Type 0 where
  pub floor : ℕ
  pub last_mono : ℕ
  pub started : Bool
  pub op_sealed : Bool
  pub last_boot : Text
  pub sync_shut : Bool
  pub index : Dict Meta
  pub versions : Dict (List VersionEntry)
  pub ver_seq : ℕ

abbrev pub plain : Vault → Plain
plain v = record {
  floor = v.clock.floor;
  last_mono = v.clock.last_mono;
  started = v.started;
  op_sealed = v.op_sealed;
  last_boot = v.last_boot;
  sync_shut = v.sync_shut;
  index = v.index;
  versions = v.versions;
  ver_seq = v.ver_seq;
}

-- The action leaves the plain state as it is, whether it fails or not.
abbrev pub Keeps : {A : Type 0} → Act A → Type 0
Keeps m = (v : Vault) → plain (m v).1 ≡ plain v

pub continue-plain :
    {A B : Type 0} (x : Result Fault A × Vault) (f : A → Act B)
    → ((a : A) → Keeps (f a))
    → plain (continue x f).1 ≡ plain x.1
continue-plain (ok a, w) f h = h a w
continue-plain (err e, w) f h = refl

pub then-Keeps :
    {A B : Type 0} (m : Act A) (f : A → Act B) → Keeps m → ((a : A) → Keeps (f a)) → Keeps (m >>= f)
then-Keeps m f h k v = continue-plain (m v) f k ∙ h v

pub pure-Keeps : {A : Type 0} (a : A) → Keeps (pure a)
pure-Keeps a v = refl

pub save-Keeps : Keeps save
unfolding saved
save-Keeps v = refl

pub append_jrnl-Keeps : (l : Line) → Keeps (append_jrnl l)
append_jrnl-Keeps l v = refl

pub commit_jrnl-Keeps : Keeps commit_jrnl
unfolding committed saved
commit_jrnl-Keeps v = elim (Bool-cases (length v.jrnl_buf == 0)) [
  | inl e ↦ rw e refl
  | inr e ↦ elim (Bool-cases (leb 20000 (v.jrnl_count + length v.jrnl_buf))) [
    | inl f ↦ rw (e, f) refl
    | inr f ↦ rw (e, f) refl
  ]
]

logged-Keeps : (r : Result Fault AuditEntry) → Keeps (logged r)
logged-Keeps (ok e) v = refl
logged-Keeps (err e) v = refl

pub add_audit-Keeps :
    (kind : AuditEvent) (subject : Result Fault Digest) (detail : ℕ)
    → Keeps (add_audit kind subject detail)
unfolding add_audit
add_audit-Keeps kind (ok subject) detail v =
    logged-Keeps (next_entry (last_element v.log) v.clock.floor kind subject detail) v
add_audit-Keeps kind (err e) detail v = refl

pub ruleset keeps =
    (then-Keeps, pure-Keeps, save-Keeps, append_jrnl-Keeps, commit_jrnl-Keeps, add_audit-Keeps)
