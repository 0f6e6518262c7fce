-- ===== src/Vault/Recovered/Runs.antt =====
-- Sequences of calls of the vault, vault/src/dezhan-vault.adb, with what a crash after them leaves.
use dezhan.Base.{ℕ, All, ◌+◌, ◌≤◌, [], ◌∷◌, List, true, false, ◌≡◌, refl, length, arith, tests}
use dezhan.Text.{Text, text_eq}
use dezhan.Dict.{insert}
use dezhan.Core.Clock.{ClockSample, init}
use dezhan.Core.Audit.{natural_last}
use dezhan.Core.Audit.Chains.{genesis_entry-verifies}
use dezhan.Csi.Conn.{is_empty}
use dezhan.Vault.State.{Vault}
use dezhan.Vault.Persist.{new_vault, saved}
use dezhan.Vault.Admin.{
  set_one_way_ingest, open_sync_window, close_sync_window, set_versioning, tick_from_system,
  tick_clock,
}
use dezhan.Vault.Operations.{
  Operation, put, delete, hold, release, version, mark, drop_version, tick, system_tick, seal_vault,
  open_window, close_window, ingest, make_bucket, versioning, remove_bucket, step, run,
}
use dezhan.Vault.Files.{IsDurable, IsSound, contents, saved-IsDurable}
use dezhan.Vault.Durable.{Settled, HasRoom}
use dezhan.Vault.Valid.{IsValid}
use dezhan.Vault.Recovered.{
  saved_change-Settles, put_object-Settles, delete_object-Settles, set_legal_hold-Settles,
  release_legal_hold-Settles,
}
use dezhan.Vault.Recovered.Versions.{
  record_version-Settles, delete_marker-Settles, delete_version-Settles,
}
use dezhan.Vault.Recovered.Admin.{
  tick_clock-Settles, tick_from_system-Settles, seal-Settles, create_bucket-Settles,
  delete_bucket-Settles,
}

-- A mode is set and saved.
mode-Settled :
    (f : Vault → Vault) (v : Vault)
    → (IsSound (contents v) → IsSound (contents (f v)))
    → (f v).log ≡ v.log
    → IsDurable v
    → HasRoom v
    → Settled (length v.log) (saved (f v))
mode-Settled f v h e = (saved_change-Settles f v h e).settled

step-Settled :
    (op : Operation) (v : Vault)
    → IsValid op
    → IsDurable v
    → HasRoom v
    → Settled (length v.log) (step op v)
unfolding step set_one_way_ingest open_sync_window close_sync_window set_versioning
step-Settled (put name id composite size mode retain_for meta) v h =
    (put_object-Settles name id composite size mode retain_for meta v h.0.1).settled
step-Settled (delete name bypass) v h = (delete_object-Settles name bypass v h.1).settled
step-Settled (hold name) v h = (set_legal_hold-Settles name v h.1).settled
step-Settled (release name) v h = (release_legal_hold-Settles name v h.1).settled
step-Settled (version name) v h = (record_version-Settles name v).settled
step-Settled (mark name) v h = (delete_marker-Settles name v h.1).settled
step-Settled (drop_version name vid) v h = (delete_version-Settles name vid v).settled
step-Settled (tick sample) v h = (tick_clock-Settles sample v).settled
step-Settled (system_tick sample boot) v h = (tick_from_system-Settles sample boot v).settled
step-Settled seal_vault v h = (seal-Settles v).settled
step-Settled open_window v h =
    mode-Settled (λ w. record w { sync_shut = false }) v
      (λ s. record { chain = s.chain; objects = s.objects; names = s.names }) refl
step-Settled close_window v h =
    mode-Settled (λ w. record w { sync_shut = true }) v
      (λ s. record { chain = s.chain; objects = s.objects; names = s.names }) refl
step-Settled (ingest enabled) v h =
    mode-Settled (λ w. record w { ingest_only = enabled }) v
      (λ s. record { chain = s.chain; objects = s.objects; names = s.names }) refl
step-Settled (make_bucket name lock) v h = (create_bucket-Settles name lock v).settled
step-Settled (versioning name on) v h =
    mode-Settled (λ w. record w { versioned = insert name on w.versioned }) v (λ s. s) refl
step-Settled (remove_bucket name) v h = (delete_bucket-Settles name v).settled

-- From a durable vault, after any sequence of calls, failing ones included, for which the chain has
-- room and whose names can be hashed, the lines of the files hold what the vault holds in memory: the
-- same objects under the same locks, the same buckets, chain, seal and modes, with nothing left in the
-- buffer.
pub run-IsDurable :
    (ops : List Operation) (v : Vault)
    → All IsValid ops
    → IsDurable v
    → length v.log + length ops ≤ natural_last + 1
    → IsDurable (run ops v)
unfolding run
run-IsDurable [] v h d room = d
run-IsDurable (op ∷ ops) v (h, t) d room =
    let s = step-Settled op v h d (omega arith) in
    run-IsDurable ops (step op v) t s.durable (omega (arith, s.entries))

-- The first sample of a new vault is saved, for the boot id is new.
first_tick-IsDurable :
    (sample : ClockSample) (b : ℕ) (bs : Text)
    → IsDurable (step (system_tick sample (b ∷ bs)) new_vault)
      × (length (step (system_tick sample (b ∷ bs)) new_vault).log ≡ 1)
unfolding step tick_from_system tick_clock text_eq new_vault saved
first_tick-IsDurable sample b bs = (
  saved-IsDurable
      (record new_vault {
        clock = init (record sample { boot_changed = false });
        started = true;
        last_boot = b ∷ bs;
      })
      (record { chain = genesis_entry-verifies 0; objects = tt; names = tt }),
  refl,
)

-- A new vault whose first call is a sample of the system clock with a boot id is durable from then
-- on, over any sequence of such calls for which the chain has room.
pub served-IsDurable :
    (sample : ClockSample) (boot : Text) (ops : List Operation)
    → is_empty boot ≡ false
    → All IsValid ops
    → length ops ≤ natural_last
    → IsDurable (run (system_tick sample boot ∷ ops) new_vault)
unfolding run
served-IsDurable sample [] ops h i room = grind (arith, tests)
served-IsDurable sample (b ∷ bs) ops h i room =
    let (d, n) = first_tick-IsDurable sample b bs in
    run-IsDurable ops (step (system_tick sample (b ∷ bs)) new_vault) i d (omega arith)
