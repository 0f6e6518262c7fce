-- ===== src/Vault/Operations.antt =====
-- The calls of the vault, vault/src/dezhan-vault.adb, as data, and sequences of them. After an
-- exception the vault is what the call left of it.
use dezhan.Base.{ℕ, [], ◌∷◌, List, Bool}
use dezhan.Text.{Text}
use dezhan.Core.Retention.{LockMode}
use dezhan.Core.Clock.{ClockSample}
use dezhan.Vault.State.{Vault}
use dezhan.Vault.Objects.{put_object, delete_object, set_legal_hold, release_legal_hold}
use dezhan.Vault.Versions.{record_version, delete_marker, delete_version}
use dezhan.Vault.Admin.{
  tick_clock, tick_from_system, seal, set_one_way_ingest, open_sync_window, close_sync_window,
  create_bucket, delete_bucket, set_versioning,
}

pub data Operation : Type 0 where
  put : Text → Text → Bool → ℕ → LockMode → ℕ → Text → Operation
  delete : Text → Bool → Operation
  hold release : Text → Operation
  version mark : Text → Operation
  drop_version : Text → Text → Operation
  tick : ClockSample → Operation
  system_tick : ClockSample → Text → Operation
  seal_vault open_window close_window : Operation
  ingest : Bool → Operation
  make_bucket versioning : Text → Bool → Operation
  remove_bucket : Text → Operation

unfoldable pub step : Operation → Vault → Vault
unfolding put_object
step (put name id composite size mode retain_for user_meta) v =
    (put_object name id composite size mode retain_for user_meta v).1
step (delete name bypass) v = (delete_object name bypass v).1
step (hold name) v = (set_legal_hold name v).1
step (release name) v = (release_legal_hold name v).1
step (version name) v = (record_version name v).1
step (mark name) v = (delete_marker name v).1
step (drop_version name vid) v = (delete_version name vid v).1
step (tick sample) v = (tick_clock sample v).1
step (system_tick sample boot) v = (tick_from_system sample boot v).1
step seal_vault v = (seal v).1
step open_window v = (open_sync_window v).1
step close_window v = (close_sync_window v).1
step (ingest enabled) v = (set_one_way_ingest enabled v).1
step (make_bucket name lock) v = (create_bucket name lock v).1
step (versioning name on) v = (set_versioning name on v).1
step (remove_bucket name) v = (delete_bucket name v).1

unfoldable pub run : List Operation → Vault → Vault
unfolding step
run [] v = v
run (op ∷ ops) v = run ops (step op v)
