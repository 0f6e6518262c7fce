-- ===== src/Vault/Reloaded.antt =====
-- Sequences of calls of the vault, vault/src/dezhan-vault.adb, with the text of the files after them
-- and what Load makes of it.
use dezhan.Base.{some, ◌+◌, ◌≤◌, [], ◌∷◌, List, false, ◌≡◌, ap, subst, ok, length, All, arith}
use dezhan.Text.{Text}
use dezhan.Core.Clock.{ClockSample, init}
use dezhan.Core.Audit.{natural_last, genesis_entry, hash_of}
use dezhan.Csi.Conn.{is_empty}
use dezhan.Vault.State.{Vault}
use dezhan.Vault.Persist.{new_vault}
use dezhan.Vault.Operations.{
  Operation, put, delete, hold, release, version, mark, drop_version, tick, system_tick, seal_vault,
  open_window, close_window, ingest, make_bucket, versioning, remove_bucket, step, run,
}
use dezhan.Vault.Files.{IsDurable, Contents, Agrees, contents}
use dezhan.Vault.Valid.{IsValid}
use dezhan.Vault.Replay.{open_vault, texts}
use dezhan.Vault.Readable.{IsEntry}
use dezhan.Vault.Stored.{loaded, load-files, load_text-texts}
use dezhan.Vault.Writes.{Writable, sha256-IsDigest}
use dezhan.Vault.Writes.Calls.{
  put_object-Writable, delete_object-Writable, set_legal_hold-Writable, release_legal_hold-Writable,
}
use dezhan.Vault.Writes.Versions.{
  record_version-Writable, delete_marker-Writable, delete_version-Writable,
}
use dezhan.Vault.Writes.Admin.{
  tick_clock-Writes, tick_from_system-Writable, seal-Writable, set_one_way_ingest-Writes,
  open_sync_window-Writes, close_sync_window-Writes, create_bucket-Writable, delete_bucket-Writable,
  set_versioning-Writes, zero_digest-IsDigest,
}
use dezhan.Vault.Recovered.Runs.{run-IsDurable, served-IsDurable}

step-Writable : (op : Operation) (v : Vault) → IsValid op → Writable v → Writable (step op v)
unfolding step
step-Writable (put name id composite size mode retain_for meta) v ((n, k), i, s, b) w =
    put_object-Writable name id composite size mode retain_for meta v n i s b w
step-Writable (delete name bypass) v h w = delete_object-Writable name bypass v h.0 w
step-Writable (hold name) v h w = set_legal_hold-Writable name v h.0 w
step-Writable (release name) v h w = release_legal_hold-Writable name v h.0 w
step-Writable (version name) v h w = record_version-Writable name v h.0 w
step-Writable (mark name) v h w = delete_marker-Writable name v h.0 w
step-Writable (drop_version name vid) v h w = delete_version-Writable name vid v h.0 w
step-Writable (tick sample) v h w = (tick_clock-Writes sample h).at v w
step-Writable (system_tick sample boot) v h w = tick_from_system-Writable sample boot v h.0 h.1 w
step-Writable seal_vault v h w = seal-Writable v w
step-Writable open_window v h w = open_sync_window-Writes.at v w
step-Writable close_window v h w = close_sync_window-Writes.at v w
step-Writable (ingest enabled) v h w = (set_one_way_ingest-Writes enabled).at v w
step-Writable (make_bucket name lock) v h w = create_bucket-Writable name lock v h w
step-Writable (versioning name on) v h w = (set_versioning-Writes name on h).at v w
step-Writable (remove_bucket name) v h w = delete_bucket-Writable name v w

run-Writable :
    (ops : List Operation) (v : Vault) → All IsValid ops → Writable v → Writable (run ops v)
unfolding run
run-Writable [] v h w = w
run-Writable (op ∷ ops) v (h, t) w = run-Writable ops (step op v) t (step-Writable op v h w)

-- Nothing is left in the buffer, and Open reads the text of the files without an exception and makes
-- of it what the vault holds in memory: the same objects under the same locks, the same buckets,
-- chain, seal and modes.
pub record Reloads (v : Vault) : Type 0 where
  pub flat : v.jrnl_buf ≡ []
  pub read : Vault
  pub reads : open_vault (some (texts v.snapshot, texts v.journal)) ≡ ok read
  pub same : Agrees (contents read) (contents v)

durable-Reloads : (v : Vault) → IsDurable v → Writable v → Reloads v
unfolding open_vault
durable-Reloads v d w = record {
  flat = d.flat;
  read = loaded v.snapshot v.journal;
  reads = load_text-texts v.snapshot v.journal w.snapshot w.journal;
  same =
      subst (λ (c : Contents). Agrees c (contents v))
        (ap contents (load-files v.snapshot v.journal)) d.stored;
}

-- From a durable vault whose state and files can be written as text, after any sequence of calls,
-- failing ones included, for which the chain has room and whose names are bytes, not empty and at most
-- 8192 long, with object ids of 64 characters and numbers in range, Open reads the text of the files
-- without an exception and makes of it what the vault holds in memory: the same objects under the same
-- locks, the same buckets, chain, seal and modes, with nothing left in the buffer.
pub run-Reloads :
    (ops : List Operation) (v : Vault)
    → All IsValid ops
    → IsDurable v
    → Writable v
    → length v.log + length ops ≤ natural_last + 1
    → Reloads (run ops v)
run-Reloads ops v h d w room =
    durable-Reloads (run ops v) (run-IsDurable ops v h d room) (run-Writable ops v h w)

pub genesis-IsEntry : IsEntry (genesis_entry 0)
unfolding genesis_entry hash_of
genesis-IsEntry = record {
  seq = omega arith;
  time = omega arith;
  detail = omega arith;
  subject = zero_digest-IsDigest;
  prev_hash = zero_digest-IsDigest;
  hash = sha256-IsDigest _;
}

-- A new vault, before its first sample.
new_vault-Writable : Writable new_vault
unfolding new_vault init
new_vault-Writable = record {
  floor = omega arith;
  boot = tt;
  buckets = tt;
  versioned = tt;
  ver_seq = omega arith;
  versions = tt;
  index = tt;
  log = (genesis-IsEntry, tt);
  buffer = tt;
  snapshot = tt;
  journal = tt;
}

-- A new vault whose first call is a sample of the system clock, in range, with a boot id that is not
-- empty and has no space: after any further calls, failing ones included, for which the chain has room
-- and whose names are bytes, not empty and at most 8192 long, with object ids of 64 characters and
-- numbers in range, Open reads the text of the files without an exception and makes of it what the
-- vault holds in memory: the same objects under the same locks, the same buckets, chain, seal and
-- modes, with nothing left in the buffer.
pub served-Reloads :
    (sample : ClockSample) (boot : Text) (ops : List Operation)
    → is_empty boot ≡ false
    → IsValid (system_tick sample boot)
    → All IsValid ops
    → length ops ≤ natural_last
    → Reloads (run (system_tick sample boot ∷ ops) new_vault)
served-Reloads sample boot ops e h t room =
    let v = run (system_tick sample boot ∷ ops) new_vault in
    durable-Reloads v (served-IsDurable sample boot ops e t room)
      (run-Writable (system_tick sample boot ∷ ops) new_vault (h, t) new_vault-Writable)
