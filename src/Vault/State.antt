-- ===== src/Vault/State.antt =====
-- The state of the vault, vault/src/dezhan-vault.adb, and what is persisted of it. A hashed map is a
-- dictionary; a line of vault.state or vault.journal has its fields, whose text is in Vault.Lines.
use dezhan.Base.{
  ℕ, ◌++◌, [], ◌∷◌, List, Bool, Option, none, some, Result, ok, err, Exec, if◌then◌else◌, ◌==◌, leb,
  length,
}
use dezhan.Text.{Text}
use dezhan.Dict.{Dict}
use dezhan.Core.Retention.{RetentionLock}
use dezhan.Core.Clock.{GuardState}
use dezhan.Core.Sha256.{sha256}
use dezhan.Core.Audit.{AuditEvent, AuditEntry, Digest, append, natural_last}

pub record Meta : Type 0 where
  pub id : Text
  pub lock : RetentionLock
  pub composite : Bool
  pub quarantined : Bool
  pub size : ℕ
  pub user_meta : Text

pub record VersionEntry : Type 0 where
  pub vid : Text
  pub id : Text
  pub size : ℕ
  pub meta : Text
  pub deleted : Bool

-- One line of the snapshot or of the journal, by its tag.
pub data Line : Type 0 where
  -- DEZHAN_VAULT 1, and AUDIT with the number of entries, which are only written
  header_line : Line
  count_line : ℕ → Line
  -- CLOCK: the trusted time, the seal of the clock guard, the operator's seal
  clock_line : ℕ → Bool → Bool → Line
  boot_line : Text → Line
  modes_line : Bool → Bool → Line
  bkt_line : Text → Bool → Line
  vsn_line : Text → Bool → Line
  vseq_line : ℕ → Line
  ver_line : Text → VersionEntry → Line
  obj_line : Text → Meta → Line
  del_line : Text → Line
  a_line : AuditEntry → Line

-- State, without the key, the root and the uploads; `snapshot` and `journal` are the files
-- vault.state and vault.journal. Jrnl_Pend is the length of jrnl_buf.
pub record Vault : Type 0 where
  pub clock : GuardState
  pub started : Bool
  pub op_sealed : Bool
  pub last_boot : Text
  pub ingest_only : Bool
  pub sync_shut : Bool
  pub index : Dict Meta
  pub log : List AuditEntry
  pub buckets : Dict Bool
  pub versioned : Dict Bool
  pub versions : Dict (List VersionEntry)
  pub ver_seq : ℕ
  pub jrnl_count : ℕ
  pub jrnl_buf : List Line
  pub snapshot : List Line
  pub journal : List Line

-- The exceptions; constraint_error is the language's own, for a number out of its range.
pub data Fault : Type 0 where
  not_found invalid_mode vault_sealed sync_closed egress_denied : Fault
  bucket_exists bucket_not_empty object_quarantined constraint_error : Fault
  corruption_detected auth_failed object_too_large assertion_error : Fault

abbrev pub Act : Type 0 → Type 0
Act A = Exec Vault Fault A

abbrev pub update : (Vault → Vault) → Act Unit
update f v = (ok tt, f v)

-- What Check_Ingest raises, if anything.
abbrev pub ingest_refusal : Vault → Option Fault
ingest_refusal v =
    if v.op_sealed then some vault_sealed else if v.sync_shut then some sync_closed else none

-- if Read_Only (V) then raise Vault_Sealed
abbrev pub seal_refusal : Vault → Option Fault
seal_refusal v = if v.op_sealed then some vault_sealed else none

-- A call behind a check.
abbrev pub unless : {A : Type 0} → Option Fault → Act A → Act A
unless none m = m
unless (some e) m = λ v. (err e, v)

-- Name_Digest; SHA256 has the precondition that its message has no more than 8192 bytes, and the
-- assertion is checked.
abbrev pub digest_limit : ℕ
digest_limit = 8192

unfoldable pub name_digest : Text → Result Fault Digest
name_digest name = if leb (length name) digest_limit then ok (sha256 name) else err assertion_error

-- Last_Element
abbrev pub last_element : List AuditEntry → Option AuditEntry
last_element [] = none
last_element (e ∷ []) = some e
last_element (e ∷ f ∷ es) = last_element (f ∷ es)

abbrev pub next_entry : Option AuditEntry → ℕ → AuditEvent → Digest → ℕ → Result Fault AuditEntry
next_entry none time kind subject detail = err constraint_error
next_entry (some p) time kind subject detail =
    if p.seq == natural_last then err constraint_error else ok (append p time kind subject detail)

abbrev pub logged : Result Fault AuditEntry → Act Unit
logged (err e) v = (err e, v)
logged (ok e) v =
    (ok tt, record v { log = v.log ++ e ∷ []; jrnl_buf = v.jrnl_buf ++ a_line e ∷ [] })

-- Add_Audit, whose subject is given or has raised
unfoldable pub add_audit : AuditEvent → Result Fault Digest → ℕ → Act Unit
add_audit kind (err e) detail v = (err e, v)
add_audit kind (ok subject) detail v =
    logged (next_entry (last_element v.log) v.clock.floor kind subject detail) v
