-- ===== src/Vault/Admin.antt =====
-- Trusted time, seals, ingest modes and buckets, vault/src/dezhan-vault.adb.
use dezhan.Base.{
  ℕ, ◌++◌, [], ◌∷◌, Bool, true, false, not, ◌&&◌, ◌||◌, Option, none, some, if◌then◌else◌, pure,
  fail, ok, ◌>>◌,
}
use dezhan.Text.{Text, text_eq, has_prefix}
use dezhan.Dict.{Dict, lookup, insert, remove}
use dezhan.Core.Clock.{GuardState, ClockSample, init, tick}
use dezhan.Core.Audit.{seal_engaged, zero_digest, verify_chain}
use dezhan.Csi.Conn.{is_empty}
use dezhan.Vault.State.{
  Meta, Vault, not_found, bucket_exists, bucket_not_empty, Act, update, ingest_refusal, unless,
  add_audit,
}
use dezhan.Vault.Persist.{save}

-- Clock_Tolerance
abbrev pub clock_tolerance : ℕ
clock_tolerance = 2

abbrev pub audit_seal : ℕ → Act Unit
audit_seal now = do add_audit seal_engaged (ok zero_digest) now; save

abbrev pub audit_fresh : Bool → ℕ → Act Unit
audit_fresh fresh now = if fresh then audit_seal now else pure tt

-- The guard goes from `before` to `after`.
abbrev pub advance : GuardState → GuardState → Act Unit
advance before after = do
  update (λ v. record v { clock = after })
  audit_fresh (after.sealed && not before.sealed) after.floor

-- First reading sets the baseline; no elapsed time yet.
abbrev pub tick_from : ClockSample → GuardState → Bool → Act Unit
tick_from sample clock started =
    if started
    then advance clock (tick clock sample clock_tolerance)
    else update (λ v. record v { clock = init sample; started = true })

unfoldable pub tick_clock : ClockSample → Act Unit
unfolding init tick add_audit
tick_clock sample v = tick_from sample v.clock v.started v

-- The sample and the boot id that the platform has read.
abbrev pub system_tick_from : ClockSample → Text → Text → Act Unit
system_tick_from sample boot old = do
  update (λ v. record v { last_boot = boot })
  tick_clock (record sample { boot_changed = not (is_empty old) && not (text_eq old boot) })
  if not (text_eq old boot) then save else pure tt

unfoldable pub tick_from_system : ClockSample → Text → Act Unit
unfolding tick_clock text_eq
tick_from_system sample boot v = system_tick_from sample boot v.last_boot v

abbrev pub seal_unless : Bool → ℕ → Act Unit
seal_unless sealed now =
    if sealed then pure tt else (do update (λ v. record v { op_sealed = true }); audit_seal now)

unfoldable pub seal : Act Unit
unfolding add_audit
seal v = seal_unless v.op_sealed v.clock.floor v

unfoldable pub set_one_way_ingest : Bool → Act Unit
set_one_way_ingest enabled = do update (λ v. record v { ingest_only = enabled }); save

unfoldable pub open_sync_window : Act Unit
open_sync_window = do update (λ v. record v { sync_shut = false }); save

unfoldable pub close_sync_window : Act Unit
close_sync_window = do update (λ v. record v { sync_shut = true }); save

unfoldable pub sealed : Vault → Bool
sealed v = v.op_sealed || v.clock.sealed

abbrev pub put_bucket : Text → Bool → Option Bool → Act Unit
put_bucket name lock (some b) = fail bucket_exists
put_bucket name lock none = do update (λ v. record v { buckets = insert name lock v.buckets }); save

unfoldable pub create_bucket : Text → Bool → Act Unit
unfolding insert
create_bucket name object_lock v =
    unless (ingest_refusal v) (put_bucket name object_lock (lookup name v.buckets)) v

abbrev pub any_under : Text → Dict Meta → Bool
any_under prefix [] = false
any_under prefix ((k, m) ∷ rest) = has_prefix k prefix || any_under prefix rest

abbrev pub drop_bucket : Text → Option Bool → Bool → Act Unit
drop_bucket name none occupied = fail not_found
drop_bucket name (some b) occupied =
    if occupied
    then fail bucket_not_empty
    else (do update (λ v. record v { buckets = remove name v.buckets }); save)

unfoldable pub delete_bucket : Text → Act Unit
unfolding remove has_prefix
delete_bucket name v =
    unless (ingest_refusal v)
      (drop_bucket name (lookup name v.buckets) (any_under (name ++ b'/' ∷ []) v.index)) v

unfoldable pub set_versioning : Text → Bool → Act Unit
unfolding insert
set_versioning bucket on = do
  update (λ v. record v { versioned = insert bucket on v.versioned })
  save

unfoldable pub audit_verifies : Vault → Bool
unfolding verify_chain
audit_verifies v = verify_chain v.log
