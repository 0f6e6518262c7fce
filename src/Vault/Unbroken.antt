-- ===== src/Vault/Unbroken.antt =====
-- The audit chain over sequences of calls of the vault, vault/src/dezhan-vault.adb.
use dezhan.Base.{[], ◌∷◌, List, true, false, ◌≡◌, refl, ◌++◌}
use dezhan.Core.Audit.{AuditEntry}
use dezhan.Dict.{insert}
use dezhan.Vault.State.{Vault}
use dezhan.Vault.Admin.{
  set_one_way_ingest, open_sync_window, close_sync_window, set_versioning, audit_verifies,
}
use dezhan.Vault.Operations.{
  Operation, put, delete, hold, release, version, mark, drop_version, tick, system_tick, seal_vault,
  open_window, close_window, ingest, make_bucket, versioning, remove_bucket, step, run,
}
use dezhan.Vault.Logged.{Grows, same-Grows, Grows-trans}
use dezhan.Vault.Chain.{
  put_object-Grows, delete_object-Grows, set_legal_hold-Grows, release_legal_hold-Grows,
  record_version-Grows, delete_marker-Grows, delete_version-Grows, tick_clock-Grows,
  tick_from_system-Grows, seal-Grows, create_bucket-Grows, delete_bucket-Grows, saved_change-Grows,
}

step-Grows : (op : Operation) (v : Vault) → Grows v.log (step op v).log
unfolding step set_one_way_ingest open_sync_window close_sync_window set_versioning
step-Grows (put name id composite size mode retain_for meta) v =
    (put_object-Grows name id composite size mode retain_for meta).at v
step-Grows (delete name bypass) v = (delete_object-Grows name bypass).at v
step-Grows (hold name) v = (set_legal_hold-Grows name).at v
step-Grows (release name) v = (release_legal_hold-Grows name).at v
step-Grows (version name) v = (record_version-Grows name).at v
step-Grows (mark name) v = (delete_marker-Grows name).at v
step-Grows (drop_version name vid) v = (delete_version-Grows name vid).at v
step-Grows (tick sample) v = (tick_clock-Grows sample).at v
step-Grows (system_tick sample boot) v = (tick_from_system-Grows sample boot).at v
step-Grows seal_vault v = seal-Grows.at v
step-Grows open_window v =
    (saved_change-Grows (λ w. record w { sync_shut = false }) (λ w. refl)).at v
step-Grows close_window v =
    (saved_change-Grows (λ w. record w { sync_shut = true }) (λ w. refl)).at v
step-Grows (ingest enabled) v =
    (saved_change-Grows (λ w. record w { ingest_only = enabled }) (λ w. refl)).at v
step-Grows (make_bucket name lock) v = (create_bucket-Grows name lock).at v
step-Grows (versioning name on) v =
    (saved_change-Grows (λ w. record w { versioned = insert name on w.versioned }) (λ w. refl)).at v
step-Grows (remove_bucket name) v = (delete_bucket-Grows name).at v

run-Grows : (ops : List Operation) (v : Vault) → Grows v.log (run ops v).log
unfolding run
run-Grows [] v = same-Grows v.log v.log refl
run-Grows (op ∷ ops) v = Grows-trans (step-Grows op v) (run-Grows ops (step op v))

-- Over any sequence of calls, failing ones included, the audit chain keeps what it has, in order and
-- unchanged, in front of what is added, and a chain that verifies goes on to verify.
pub run-audit_verifies :
    (ops : List Operation) (v : Vault)
    → audit_verifies v ≡ true
    → (audit_verifies (run ops v) ≡ true)
      × ((new : List AuditEntry) × ((run ops v).log ≡ v.log ++ new))
unfolding audit_verifies
run-audit_verifies ops v h = let all = run-Grows ops v in (all.sound h, (all.new, all.grown))
