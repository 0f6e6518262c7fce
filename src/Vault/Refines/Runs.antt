-- ===== src/Vault/Refines/Runs.antt =====
-- Sequences of calls of the vault, vault/src/dezhan-vault.adb, and their abstract counterparts.
use dezhan.Base.{ℕ, [], ◌∷◌, List, ◌≡◌, refl, ap, ◌∙◌, sym}
use dezhan.Vault.State.{Vault}
use dezhan.Vault.Admin.{set_one_way_ingest, open_sync_window, close_sync_window, set_versioning}
use dezhan.Vault.Persist.{saved}
use dezhan.Vault.Operations.{
  Operation, put, delete, hold, release, version, mark, drop_version, tick, system_tick, seal_vault,
  open_window, close_window, ingest, make_bucket, versioning, remove_bucket, step, run,
}
use dezhan.Vault.Keeps.{Plain, plain}
use dezhan.Vault.Spec.{plain_step, plain_run, plain_tick, elapsed}
use dezhan.Vault.Refines.Objects.{
  put_object-plain, delete_object-plain, set_legal_hold-plain, release_legal_hold-plain,
}
use dezhan.Vault.Refines.Versions.{record_version-plain, delete_marker-plain, delete_version-plain}
use dezhan.Vault.Refines.Admin.{
  tick_clock-plain, tick_from_system-plain, seal-plain, create_bucket-Keeps, delete_bucket-Keeps,
}

-- One call, on every branch of it, does to the plain state what its abstract counterpart does.
pub step-plain : (op : Operation) (v : Vault) → plain (step op v) ≡ plain_step op (plain v)
unfolding step plain_step open_sync_window close_sync_window set_one_way_ingest set_versioning saved
step-plain (put name id composite size mode retain_for meta) v =
    put_object-plain name id composite size mode retain_for meta v
step-plain (delete name bypass) v = delete_object-plain name bypass v
step-plain (hold name) v = set_legal_hold-plain name v
step-plain (release name) v = release_legal_hold-plain name v
step-plain (version name) v = record_version-plain name v
step-plain (mark name) v = delete_marker-plain name v
step-plain (drop_version name vid) v = delete_version-plain name vid v
step-plain (tick sample) v = tick_clock-plain sample v
step-plain (system_tick sample boot) v = tick_from_system-plain sample boot v
step-plain seal_vault v = seal-plain v
step-plain open_window v = refl
step-plain close_window v = refl
step-plain (ingest enabled) v = refl
step-plain (make_bucket name lock) v = create_bucket-Keeps name lock v
step-plain (versioning name on) v = refl
step-plain (remove_bucket name) v = delete_bucket-Keeps name v

-- Any sequence of calls does to the objects, their locks, their versions, trusted time and the
-- operator's seal what the abstract vault does, which has no audit chain, no files, no exceptions and
-- no anomalies.
pub run-plain : (ops : List Operation) (v : Vault) → plain (run ops v) ≡ plain_run ops (plain v)
unfolding run plain_run
run-plain [] v = refl
run-plain (op ∷ ops) v = run-plain ops (step op v) ∙ ap (plain_run ops) (step-plain op v)

-- The call as it would be with another reading of the system's clock.
abbrev pub with_realtime : ℕ → Operation → Operation
with_realtime r (tick sample) = tick (record sample { realtime = r })
with_realtime r (system_tick sample boot) = system_tick (record sample { realtime = r }) boot
with_realtime r op = op

plain_step-with_realtime :
    (r : ℕ) (op : Operation) (p : Plain) → plain_step (with_realtime r op) p ≡ plain_step op p
unfolding plain_step plain_tick elapsed
plain_step-with_realtime r (tick sample) p = refl
plain_step-with_realtime r (system_tick sample boot) p = refl
plain_step-with_realtime r (put name id composite size mode retain_for meta) p = refl
plain_step-with_realtime r (delete name bypass) p = refl
plain_step-with_realtime r (hold name) p = refl
plain_step-with_realtime r (release name) p = refl
plain_step-with_realtime r (version name) p = refl
plain_step-with_realtime r (mark name) p = refl
plain_step-with_realtime r (drop_version name vid) p = refl
plain_step-with_realtime r seal_vault p = refl
plain_step-with_realtime r open_window p = refl
plain_step-with_realtime r close_window p = refl
plain_step-with_realtime r (ingest enabled) p = refl
plain_step-with_realtime r (make_bucket name lock) p = refl
plain_step-with_realtime r (versioning name on) p = refl
plain_step-with_realtime r (remove_bucket name) p = refl

-- The calls, each with a reading of the system's clock of its own.
abbrev pub with_realtimes : List ℕ → List Operation → List Operation
with_realtimes [] ops = ops
with_realtimes (r ∷ rs) [] = []
with_realtimes (r ∷ rs) (op ∷ ops) = with_realtime r op ∷ with_realtimes rs ops

plain_run-with_realtimes :
    (rs : List ℕ) (ops : List Operation) (p : Plain)
    → plain_run (with_realtimes rs ops) p ≡ plain_run ops p
unfolding plain_run
plain_run-with_realtimes [] ops p = refl
plain_run-with_realtimes (r ∷ rs) [] p = refl
plain_run-with_realtimes (r ∷ rs) (op ∷ ops) p =
    plain_run-with_realtimes rs ops (plain_step (with_realtime r op) p)
    ∙ ap (plain_run ops) (plain_step-with_realtime r op p)

-- Whatever the system's clock shows during a sequence of calls, the objects, their locks, their
-- versions and trusted time come out the same.
pub run-with_realtimes :
    (rs : List ℕ) (ops : List Operation) (v : Vault)
    → plain (run (with_realtimes rs ops) v) ≡ plain (run ops v)
run-with_realtimes rs ops v =
    run-plain (with_realtimes rs ops) v
    ∙ (plain_run-with_realtimes rs ops (plain v) ∙ sym (run-plain ops v))
