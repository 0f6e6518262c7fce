-- ===== src/Vault/Objects.antt =====
-- Objects and their locks, vault/src/dezhan-vault.adb: Put_Object after the storage has answered,
-- Delete_Object, the legal holds and the queries about them.
use dezhan.Base.{
  ℕ, ◌+◌, Bool, true, false, not, Option, none, some, if◌then◌else◌, ltb, pure, fail, ◌>>◌,
}
use dezhan.Text.{Text}
use dezhan.Dict.{lookup, insert, remove}
use dezhan.Core.Retention.{
  LockMode, unlocked, governance, compliance, create_lock, set_hold, release_hold, can_delete,
}
use dezhan.Core.Clock.{time_last}
use dezhan.Core.Audit.{
  lock_created, delete_denied, delete_allowed, legal_hold_set, legal_hold_released,
}
use dezhan.Vault.State.{
  Meta, Vault, Fault, not_found, invalid_mode, constraint_error, Act, update, ingest_refusal,
  seal_refusal, unless, name_digest, add_audit, del_line,
}
use dezhan.Vault.Persist.{save, append_jrnl, commit_jrnl, j_obj}

abbrev pub set_object : Text → Meta → Vault → Vault
set_object name m v = record v { index = insert name m v.index }

abbrev pub drop_object : Text → Vault → Vault
drop_object name v = record v { index = remove name v.index }

abbrev pub placed : Text → Bool → ℕ → LockMode → ℕ → Text → ℕ → Meta
placed id composite size mode retain_for user_meta now = record {
  id = id;
  lock = create_lock mode (now + retain_for) now;
  composite = composite;
  quarantined = false;
  size = size;
  user_meta = user_meta;
}

-- The storage has given the bytes the id, in one piece or as a composite.
abbrev pub place : Text → Text → Bool → ℕ → LockMode → ℕ → Text → ℕ → Act Unit
place name id composite size mode retain_for user_meta now = do
  update (set_object name (placed id composite size mode retain_for user_meta now))
  add_audit lock_created (name_digest name) (now + retain_for)
  j_obj name (placed id composite size mode retain_for user_meta now)
  commit_jrnl

-- At_Time + Retain_For has to be a Trusted_Time; Unlocked is refused.
abbrev pub mode_is_lock : LockMode → Bool
mode_is_lock unlocked = false
mode_is_lock governance = true
mode_is_lock compliance = true

abbrev pub lock_refusal : LockMode → ℕ → Vault → Option Fault
lock_refusal mode retain_for v =
    if not (mode_is_lock mode)
    then some invalid_mode
    else if ltb time_last (v.clock.floor + retain_for)
    then some constraint_error
    else none

unfoldable pub put_object : Text → Text → Bool → ℕ → LockMode → ℕ → Text → Act Unit
unfolding insert create_lock add_audit
put_object name id composite size mode retain_for user_meta v =
    unless (ingest_refusal v)
      (unless (lock_refusal mode retain_for v)
        (place name id composite size mode retain_for user_meta v.clock.floor))
      v

abbrev pub delete_named : Text → Bool → Option Meta → ℕ → Act Bool
delete_named name bypass none now = fail not_found
delete_named name bypass (some m) now =
    if can_delete m.lock now (record { bypass_governance = bypass })
    then (do
      update (drop_object name)
      add_audit delete_allowed (name_digest name) now
      append_jrnl (del_line name)
      commit_jrnl
      pure true)
    else (do add_audit delete_denied (name_digest name) now; commit_jrnl; pure false)

unfoldable pub delete_object : Text → Bool → Act Bool
unfolding remove can_delete add_audit
delete_object name bypass v =
    unless (seal_refusal v) (delete_named name bypass (lookup name v.index) v.clock.floor) v

abbrev pub hold_named : Text → Option Meta → ℕ → Act Unit
hold_named name none now = fail not_found
hold_named name (some m) now = do
  update (set_object name (record m { lock = set_hold m.lock }))
  add_audit legal_hold_set (name_digest name) now
  save

unfoldable pub set_legal_hold : Text → Act Unit
unfolding insert set_hold add_audit
set_legal_hold name v = hold_named name (lookup name v.index) v.clock.floor v

abbrev pub release_named : Text → Option Meta → ℕ → Act Unit
release_named name none now = fail not_found
release_named name (some m) now = do
  update (set_object name (record m { lock = release_hold m.lock }))
  add_audit legal_hold_released (name_digest name) now
  save

unfoldable pub release_legal_hold : Text → Act Unit
unfolding insert release_hold add_audit
release_legal_hold name v = release_named name (lookup name v.index) v.clock.floor v

abbrev has_hold : Option Meta → Bool
has_hold none = false
has_hold (some m) = m.lock.legal_hold

unfoldable pub has_legal_hold : Vault → Text → Bool
has_legal_hold v name = has_hold (lookup name v.index)

abbrev deletable : Option Meta → ℕ → Bool
deletable none now = false
deletable (some m) now = can_delete m.lock now (record { bypass_governance = false })

unfoldable pub object_deletable : Vault → Text → Bool
unfolding can_delete
object_deletable v name = deletable (lookup name v.index) v.clock.floor
