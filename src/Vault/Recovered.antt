-- ===== src/Vault/Recovered.antt =====
-- The calls of the vault, vault/src/dezhan-vault.adb, with what a crash after them leaves.
mod Versions
mod Admin
pub mod Runs
use dezhan.Base.{
  ℕ, zero, suc, ◌+◌, ◌≤◌, ◌++◌, [], ◌∷◌, List, Bool, true, false, not, Option, none, some, ◌≡◌,
  refl, sym, ap, ◌∙◌, subst, if◌then◌else◌, ◌==◌, length, arith, Bool-cases, inl, inr, Result, ok,
  err, continue, ◌>>=◌, ◌>>◌, pure, fail,
}
use dezhan.Text.{Text, text_eq}
use dezhan.Dict.{Dict, lookup, insert, remove, NodupKeys, insert-NodupKeys, remove-NodupKeys}
use dezhan.Core.Retention.{LockMode, can_delete, set_hold, release_hold, create_lock}
use dezhan.Core.Clock.{GuardState, ClockSample}
use dezhan.Core.Audit.{
  lock_created, delete_denied, delete_allowed, legal_hold_set, legal_hold_released, seal_engaged,
  AuditEvent, AuditEntry, natural_last, zero_digest,
}
use dezhan.Vault.State.{
  update, add_audit, Meta, VersionEntry, Line, vseq_line, ver_line, obj_line, del_line, Vault,
  Fault, Act, unless, ingest_refusal, seal_refusal, name_digest,
}
use dezhan.Vault.Persist.{save, saved, committed, buffered, append_jrnl, commit_jrnl, j_obj}
use dezhan.Vault.Objects.{
  put_object, place, placed, lock_refusal, delete_object, delete_named, set_legal_hold, hold_named,
  release_legal_hold, release_named, set_object, drop_object,
}
use dezhan.Vault.Versions.{
  record_version, record_named, delete_marker, mark_named, delete_version, delete_version_in,
  next_version, push_version, drop_indexed, marker, has_version, repoint, keep_versions,
  newest_real, without_version,
}
use dezhan.Vault.Admin.{
  tick_clock, tick_from, tick_from_system, system_tick_from, audit_fresh, seal, seal_unless,
  create_bucket, put_bucket, delete_bucket, drop_bucket,
}
use dezhan.Vault.Files.{
  Contents, contents, Agrees, IsSound, pending, IsDurable, obj_line-Agrees, del_line-Agrees,
  vseq_line-Agrees, ver_line-Agrees,
}
use dezhan.Core.Sha256.{sha256}
use dezhan.Vault.Durable.{
  IsShort, name_digest-ok, Settled, HasRoom, noted, Fits, add_audit-then, same-Settled,
  saved-Settled, audited-Settled, Waiting, committed-Settled, line_after-Settled, durable-Waiting,
  noted-Waiting, beside-Waiting,
}

-- From a durable vault with room for an entry, the call settles.
pub record Settles {A : Type 0} (m : Act A) (v : Vault) : Type 0 where
  pub settled : IsDurable v → HasRoom v → Settled (length v.log) (m v).1

pub unless-Settles :
    {A : Type 0} (r : Option Fault) (m : Act A) (v : Vault) → Settles m v → Settles (unless r m) v
unless-Settles none m v h = h
unless-Settles (some e) m v h = record { settled = λ d room. same-Settled v d }

pub if-Settles :
    {A : Type 0} (b : Bool) (x y : Act A) (v : Vault)
    → Settles x v
    → Settles y v
    → Settles (if b then x else y) v
if-Settles true x y v hx hy = hx
if-Settles false x y v hx hy = hy

place-Settles :
    (name id : Text) (composite : Bool) (size : ℕ) (mode : LockMode) (retain_for : ℕ) (meta : Text)
    (now : ℕ) (v : Vault)
    → IsShort name
    → Settles (place name id composite size mode retain_for meta now) v
place-Settles name id composite size mode retain_for meta now v short = record {
  settled = λ d room.
      let m = placed id composite size mode retain_for meta now in
      add_audit-then lock_created (name_digest name) (sha256 name) (now + retain_for)
        (do j_obj name m; commit_jrnl) (set_object name m v) (Settled (length v.log))
        (name_digest-ok name short) d.sound.chain room
        (λ e f.
          line_after-Settled (obj_line name m) (insert name m v.index) v e d f
            (insert-NodupKeys name m v.index d.sound.objects)
            (λ log r. obj_line-Agrees name m (record (contents v) { log = log }) r));
}

pub put_object-Settles :
    (name id : Text) (composite : Bool) (size : ℕ) (mode : LockMode) (retain_for : ℕ) (meta : Text)
    (v : Vault)
    → IsShort name
    → Settles (put_object name id composite size mode retain_for meta) v
unfolding put_object
put_object-Settles name id composite size mode retain_for meta v short = record {
  settled =
      (unless-Settles (ingest_refusal v) _ v (
        unless-Settles (lock_refusal mode retain_for v) _ v (
          place-Settles name id composite size mode retain_for meta v.clock.floor v
            short))).settled;
}

allowed-Settles :
    (name : Text) (now : ℕ) (v : Vault)
    → IsShort name
    → Settles
        (do
          update (drop_object name)
          add_audit delete_allowed (name_digest name) now
          append_jrnl (del_line name)
          commit_jrnl
          pure true)
        v
allowed-Settles name now v short = record {
  settled = λ d room.
      add_audit-then delete_allowed (name_digest name) (sha256 name) now
        (do append_jrnl (del_line name); commit_jrnl; pure true) (drop_object name v)
        (Settled (length v.log)) (name_digest-ok name short) d.sound.chain room
        (λ e f.
          line_after-Settled (del_line name) (remove name v.index) v e d f
            (remove-NodupKeys name v.index d.sound.objects)
            (λ log r. del_line-Agrees name (record (contents v) { log = log }) r));
}

denied-Settles :
    (name : Text) (now : ℕ) (v : Vault)
    → IsShort name
    → Settles (do add_audit delete_denied (name_digest name) now; commit_jrnl; pure false) v
denied-Settles name now v short = record {
  settled = λ d room.
      add_audit-then delete_denied (name_digest name) (sha256 name) now (do commit_jrnl; pure false)
        v (Settled (length v.log)) (name_digest-ok name short) d.sound.chain room
        (λ e f.
          committed-Settled (length v.log) (noted e v)
            (noted-Waiting e v d.sound (durable-Waiting v d).stored f));
}

pub fail-Settles : {A : Type 0} (e : Fault) (v : Vault) → Settles (fail {A = A} e) v
fail-Settles e v = record { settled = λ d room. same-Settled v d }

pub done-Settles : (v : Vault) → Settles (pure tt) v
done-Settles v = record { settled = λ d room. same-Settled v d }

delete_named-Settles :
    (name : Text) (bypass : Bool) (o : Option Meta) (now : ℕ) (v : Vault)
    → IsShort name
    → Settles (delete_named name bypass o now) v
delete_named-Settles name bypass none now v short = fail-Settles _ v
delete_named-Settles name bypass (some m) now v short =
    if-Settles _ _ _ v (allowed-Settles name now v short) (denied-Settles name now v short)

pub delete_object-Settles :
    (name : Text) (bypass : Bool) (v : Vault) → IsShort name → Settles (delete_object name bypass) v
unfolding delete_object
delete_object-Settles name bypass v short = record {
  settled =
      (unless-Settles (seal_refusal v) _ v
        (delete_named-Settles name bypass (lookup name v.index) v.clock.floor v short)).settled;
}

-- A change that keeps the vault sound, which is saved.
pub saved_change-Settles :
    (f : Vault → Vault) (v : Vault)
    → (IsSound (contents v) → IsSound (contents (f v)))
    → (f v).log ≡ v.log
    → Settles (do update f; save) v
saved_change-Settles f v h e = record {
  settled = λ d room.
      subst (λ (l : List AuditEntry). Settled (length l) (saved (f v))) e
        (saved-Settled (f v) (h d.sound));
}

-- A change of one object, with an entry, which is saved.
audited_object-Settles :
    (kind : AuditEvent) (name : Text) (m : Meta) (now : ℕ) (v : Vault)
    → IsShort name
    → Settles (do update (set_object name m); add_audit kind (name_digest name) now; save) v
audited_object-Settles kind name m now v short = record {
  settled = λ d room.
      audited-Settled kind (name_digest name) (sha256 name) now (set_object name m v)
        (name_digest-ok name short)
        (record {
          chain = d.sound.chain;
          objects = insert-NodupKeys name m v.index d.sound.objects;
          names = d.sound.names;
        })
        room;
}

hold_named-Settles :
    (name : Text) (o : Option Meta) (now : ℕ) (v : Vault)
    → IsShort name
    → Settles (hold_named name o now) v
hold_named-Settles name none now v short = fail-Settles _ v
hold_named-Settles name (some m) now v short =
    audited_object-Settles legal_hold_set name (record m { lock = set_hold m.lock }) now v short

pub set_legal_hold-Settles :
    (name : Text) (v : Vault) → IsShort name → Settles (set_legal_hold name) v
unfolding set_legal_hold
set_legal_hold-Settles name v short = record {
  settled = (hold_named-Settles name (lookup name v.index) v.clock.floor v short).settled;
}

release_named-Settles :
    (name : Text) (o : Option Meta) (now : ℕ) (v : Vault)
    → IsShort name
    → Settles (release_named name o now) v
release_named-Settles name none now v short = fail-Settles _ v
release_named-Settles name (some m) now v short =
    audited_object-Settles legal_hold_released name (record m { lock = release_hold m.lock }) now v
      short

pub release_legal_hold-Settles :
    (name : Text) (v : Vault) → IsShort name → Settles (release_legal_hold name) v
unfolding release_legal_hold
release_legal_hold-Settles name v short = record {
  settled = (release_named-Settles name (lookup name v.index) v.clock.floor v short).settled;
}
