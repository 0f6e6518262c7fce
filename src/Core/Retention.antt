-- ===== src/Core/Retention.antt =====
-- The retention lock of one object, trusted_core/src/dezhan-trusted_core-retention.adb.
use dezhan.Base.{ℕ, Bool, true, false, ◌||◌, if◌then◌else◌, ltb, leb}

pub data LockMode : Type 0 where
  unlocked governance compliance : LockMode

pub record Authorization : Type 0 where
  pub bypass_governance : Bool

pub record RetentionLock : Type 0 where
  pub mode : LockMode
  pub retain_until : ℕ
  pub created_at : ℕ
  pub legal_hold : Bool

pub record ExtensionResult : Type 0 where
  pub lock : RetentionLock
  pub accepted : Bool

unfoldable pub create_lock : LockMode → ℕ → ℕ → RetentionLock
create_lock mode retain_until now = record {
  mode = mode;
  retain_until = retain_until;
  created_at = now;
  legal_hold = false;
}

unfoldable pub set_hold : RetentionLock → RetentionLock
set_hold l = record l { legal_hold = true }

unfoldable pub release_hold : RetentionLock → RetentionLock
release_hold l = record l { legal_hold = false }

unfoldable pub extend_retention : RetentionLock → ℕ → RetentionLock
extend_retention l new_until =
    if ltb l.retain_until new_until then record l { retain_until = new_until } else l

unfoldable pub request_extension : RetentionLock → ℕ → ExtensionResult
unfolding extend_retention
request_extension l new_until = record {
  lock = extend_retention l new_until;
  accepted = ltb l.retain_until new_until;
}

-- the case on the mode, where there is no legal hold
abbrev pub mode_allows : LockMode → ℕ → ℕ → Authorization → Bool
mode_allows unlocked until now auth = true
mode_allows compliance until now auth = leb until now
mode_allows governance until now auth = leb until now || auth.bypass_governance

unfoldable pub can_delete : RetentionLock → ℕ → Authorization → Bool
can_delete l now auth = if l.legal_hold then false else mode_allows l.mode l.retain_until now auth
