-- ===== src/Vault/Spec.antt =====
-- What the vault promises of its objects and of trusted time, without records, files and exceptions:
-- the abstract counterpart of vault/src/dezhan-vault.adb.
use dezhan.Base.{
  ℕ, ◌+◌, ◌-◌, ◌++◌, [], ◌∷◌, List, Bool, true, false, not, ◌&&◌, ◌||◌, Option, none, some,
  if◌then◌else◌, ltb, ◌==◌,
}
use dezhan.Text.{Text, text_eq, pos, itoa}
use dezhan.Dict.{Dict, lookup, insert, remove}
use dezhan.Core.Retention.{LockMode, governance, create_lock, set_hold, release_hold, can_delete}
use dezhan.Core.Clock.{ClockSample, time_last, saturated}
use dezhan.Core.Audit.{natural_last}
use dezhan.Csi.Conn.{is_empty}
use dezhan.Vault.State.{Meta, VersionEntry}
use dezhan.Vault.Persist.{versions_or_empty}
use dezhan.Vault.Objects.{mode_is_lock}
use dezhan.Vault.Versions.{marker, has_version, without_version, newest_real}
use dezhan.Vault.Operations.{
  Operation, put, delete, hold, release, version, mark, drop_version, tick, system_tick, seal_vault,
  open_window, close_window, ingest, make_bucket, versioning, remove_bucket,
}
use dezhan.Vault.Keeps.{Plain}

-- The time that a sample adds, by the monotonic clock alone.
unfoldable pub elapsed : Plain → ClockSample → ℕ
elapsed p sample =
    if sample.boot_changed || ltb sample.mono p.last_mono then 0 else sample.mono - p.last_mono

-- The first sample after an opening starts trusted time at 0.
unfoldable pub plain_tick : ClockSample → Plain → Plain
unfolding elapsed
plain_tick sample p = record p {
  floor = if p.started then saturated p.floor (elapsed p sample) else 0;
  last_mono = sample.mono;
  started = true;
}

unfoldable pub accepts : Plain → LockMode → ℕ → Bool
accepts p mode retain_for =
    not (p.op_sealed || p.sync_shut)
    && (mode_is_lock mode && not (ltb time_last (p.floor + retain_for)))

unfoldable pub may_delete : Plain → Bool → Meta → Bool
may_delete p bypass m =
    not p.op_sealed && can_delete m.lock p.floor (record { bypass_governance = bypass })

abbrev pub delete_if : Text → Bool → Option Meta → Plain → Plain
delete_if name bypass none p = p
delete_if name bypass (some m) p =
    if may_delete p bypass m then record p { index = remove name p.index } else p

abbrev pub hold_if : Text → Option Meta → Plain → Plain
hold_if name none p = p
hold_if name (some m) p = record p {
  index = insert name (record m { lock = set_hold m.lock }) p.index;
}

abbrev pub release_if : Text → Option Meta → Plain → Plain
release_if name none p = p
release_if name (some m) p = record p {
  index = insert name (record m { lock = release_hold m.lock }) p.index;
}

abbrev pub plain_push : Text → VersionEntry → Plain → Plain
plain_push name e p = record p {
  versions = insert name (versions_or_empty (lookup name p.versions) ++ e ∷ []) p.versions;
  ver_seq = p.ver_seq + 1;
}

abbrev pub version_if : Text → Option Meta → Plain → Plain
version_if name none p = p
version_if name (some m) p =
    if p.ver_seq == natural_last
    then p
    else plain_push name
        (record {
          vid = itoa (pos (p.ver_seq + 1));
          id = m.id;
          size = m.size;
          meta = m.user_meta;
          deleted = false;
        })
        p

-- A delete marker takes the object out whatever its lock.
abbrev pub drop_if : Text → Option Meta → Plain → Plain
drop_if name none p = p
drop_if name (some m) p = record p { index = remove name p.index }

abbrev pub plain_mark : Text → Plain → Plain
plain_mark name p =
    if p.ver_seq == natural_last
    then p
    else drop_if name (lookup name p.index) (plain_push name (marker (p.ver_seq + 1)) p)

-- The object is the newest of the versions that are left, under a lock that is over.
abbrev pub plain_repoint : Text → Option VersionEntry → Dict Meta → Dict Meta
plain_repoint name none index = remove name index
plain_repoint name (some e) index =
    insert name
      (record {
        id = e.id;
        lock = create_lock governance 0 0;
        composite = false;
        quarantined = false;
        size = e.size;
        user_meta = e.meta;
      })
      (remove name index)

abbrev pub kept : Text → List VersionEntry → Dict (List VersionEntry) → Dict (List VersionEntry)
kept name [] versions = remove name versions
kept name (e ∷ es) versions = insert name (e ∷ es) versions

abbrev pub drop_version_if : Text → Text → Option (List VersionEntry) → Plain → Plain
drop_version_if name vid none p = p
drop_version_if name vid (some es) p =
    if has_version vid es
    then record p {
      index = plain_repoint name (newest_real (without_version vid es)) p.index;
      versions = kept name (without_version vid es) p.versions;
    }
    else p

unfoldable pub plain_step : Operation → Plain → Plain
unfolding accepts plain_tick
plain_step (put name id composite size mode retain_for user_meta) p =
    if accepts p mode retain_for
    then record p {
      index =
          insert name
            (record {
              id = id;
              lock = create_lock mode (p.floor + retain_for) p.floor;
              composite = composite;
              quarantined = false;
              size = size;
              user_meta = user_meta;
            })
            p.index;
    }
    else p
plain_step (delete name bypass) p = delete_if name bypass (lookup name p.index) p
plain_step (hold name) p = hold_if name (lookup name p.index) p
plain_step (release name) p = release_if name (lookup name p.index) p
plain_step (version name) p = version_if name (lookup name p.index) p
plain_step (mark name) p = plain_mark name p
plain_step (drop_version name vid) p = drop_version_if name vid (lookup name p.versions) p
plain_step (tick sample) p = plain_tick sample p
plain_step (system_tick sample boot) p =
    plain_tick
      (record sample {
        boot_changed = not (is_empty p.last_boot) && not (text_eq p.last_boot boot);
      })
      (record p { last_boot = boot })
plain_step seal_vault p = record p { op_sealed = true }
plain_step open_window p = record p { sync_shut = false }
plain_step close_window p = record p { sync_shut = true }
plain_step (ingest enabled) p = p
plain_step (make_bucket name lock) p = p
plain_step (versioning name on) p = p
plain_step (remove_bucket name) p = p

unfoldable pub plain_run : List Operation → Plain → Plain
unfolding plain_step
plain_run [] p = p
plain_run (op ∷ ops) p = plain_run ops (plain_step op p)
