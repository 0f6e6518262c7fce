-- ===== src/Vault/Chain.antt =====
-- The audit chain over single calls of the vault, vault/src/dezhan-vault.adb.
use dezhan.Base.{
  ℕ, ◌+◌, [], ◌∷◌, List, Bool, true, false, not, Option, none, some, ◌≡◌, refl, if◌then◌else◌, ◌==◌,
  Result, ok, err, pure, fail, ◌>>◌,
}
use dezhan.Text.{Text, text_eq}
use dezhan.Dict.{lookup}
use dezhan.Core.Retention.{LockMode, set_hold, release_hold}
use dezhan.Core.Clock.{GuardState, ClockSample}
use dezhan.Core.Audit.{AuditEvent, Digest, natural_last}
use dezhan.Vault.State.{
  Meta, VersionEntry, Vault, Line, Fault, Act, update, ingest_refusal, seal_refusal, add_audit,
  constraint_error,
}
use dezhan.Vault.Persist.{save, append_jrnl, commit_jrnl}
use dezhan.Vault.Objects.{
  put_object, lock_refusal, delete_object, delete_named, set_legal_hold, hold_named,
  release_legal_hold, release_named, set_object, drop_object,
}
use dezhan.Vault.Versions.{
  record_version, record_named, delete_marker, mark_named, delete_version, delete_version_in,
  next_version, push_version, drop_indexed, marker, has_version, repoint, keep_versions,
  newest_real, without_version,
}
use dezhan.Vault.Admin.{
  tick_clock, tick_from, tick_from_system, system_tick_from, audit_fresh, seal, seal_unless,
  create_bucket, put_bucket, delete_bucket, drop_bucket,
}
use dezhan.Vault.Logged.{
  Grows, GrowsBy, same-Grows, then-Grows, update-Grows, fails-Grows, save-Grows, append_jrnl-Grows,
  unless-Grows, if-Grows, grows,
}

fail-Grows : {A : Type 0} (e : Fault) → GrowsBy (fail {A = A} e)
fail-Grows e = fails-Grows (err e)

done-Grows : GrowsBy (pure tt)
done-Grows = fails-Grows (ok tt)

-- A change beside the chain, and then the rest.
change-Grows :
    {A : Type 0} (f : Vault → Vault) (m : Act A)
    → ((v : Vault) → (f v).log ≡ v.log)
    → GrowsBy m
    → GrowsBy (do update f; m)
change-Grows f m h g = then-Grows (update f) (λ a. m) (update-Grows f h) (λ a. g)

saved-Grows :
    (kind : AuditEvent) (subject : Result Fault Digest) (detail : ℕ)
    → GrowsBy (do add_audit kind subject detail; save)
saved-Grows kind subject detail = search grows

placed-Grows :
    (kind : AuditEvent) (subject : Result Fault Digest) (detail : ℕ) (l : Line)
    → GrowsBy (do add_audit kind subject detail; append_jrnl l; commit_jrnl)
placed-Grows kind subject detail l = search grows

allowed-Grows :
    (kind : AuditEvent) (subject : Result Fault Digest) (detail : ℕ) (l : Line)
    → GrowsBy (do add_audit kind subject detail; append_jrnl l; commit_jrnl; pure true)
allowed-Grows kind subject detail l = search grows

denied-Grows :
    (kind : AuditEvent) (subject : Result Fault Digest) (detail : ℕ)
    → GrowsBy (do add_audit kind subject detail; commit_jrnl; pure false)
denied-Grows kind subject detail = search grows

noted-Grows :
    (k l : Line) (t : Text) → GrowsBy (do append_jrnl k; append_jrnl l; commit_jrnl; pure t)
noted-Grows k l t = search grows

marked-Grows :
    (kind : AuditEvent) (subject : Result Fault Digest) (detail : ℕ) (k l : Line) (t : Text)
    → GrowsBy (do add_audit kind subject detail; append_jrnl k; append_jrnl l; commit_jrnl; pure t)
marked-Grows kind subject detail k l t = search grows

pub put_object-Grows :
    (name id : Text) (composite : Bool) (size : ℕ) (mode : LockMode) (retain_for : ℕ) (meta : Text)
    → GrowsBy (put_object name id composite size mode retain_for meta)
unfolding put_object
put_object-Grows name id composite size mode retain_for meta = record {
  at = λ v.
      (unless-Grows (ingest_refusal v) _ (
          unless-Grows (lock_refusal mode retain_for v) _
            (change-Grows _ _ (λ w. refl) (placed-Grows _ _ _ _)))).at
        v;
}

delete_named-Grows :
    (name : Text) (bypass : Bool) (o : Option Meta) (now : ℕ)
    → GrowsBy (delete_named name bypass o now)
delete_named-Grows name bypass none now = fail-Grows _
delete_named-Grows name bypass (some m) now =
    if-Grows _ _ _ (change-Grows (drop_object name) _ (λ w. refl) (allowed-Grows _ _ _ _))
      (denied-Grows _ _ _)

pub delete_object-Grows : (name : Text) (bypass : Bool) → GrowsBy (delete_object name bypass)
unfolding delete_object
delete_object-Grows name bypass = record {
  at = λ v.
      (unless-Grows (seal_refusal v) _
          (delete_named-Grows name bypass (lookup name v.index) v.clock.floor)).at
        v;
}

hold_named-Grows : (name : Text) (o : Option Meta) (now : ℕ) → GrowsBy (hold_named name o now)
hold_named-Grows name none now = fail-Grows _
hold_named-Grows name (some m) now =
    change-Grows (set_object name (record m { lock = set_hold m.lock })) _ (λ w. refl)
      (saved-Grows _ _ _)

pub set_legal_hold-Grows : (name : Text) → GrowsBy (set_legal_hold name)
unfolding set_legal_hold
set_legal_hold-Grows name = record {
  at = λ v. (hold_named-Grows name (lookup name v.index) v.clock.floor).at v;
}

release_named-Grows : (name : Text) (o : Option Meta) (now : ℕ) → GrowsBy (release_named name o now)
release_named-Grows name none now = fail-Grows _
release_named-Grows name (some m) now =
    change-Grows (set_object name (record m { lock = release_hold m.lock })) _ (λ w. refl)
      (saved-Grows _ _ _)

pub release_legal_hold-Grows : (name : Text) → GrowsBy (release_legal_hold name)
unfolding release_legal_hold
release_legal_hold-Grows name = record {
  at = λ v. (release_named-Grows name (lookup name v.index) v.clock.floor).at v;
}

abbrev bumped : Bool → Vault → Vault → ℕ → Result Fault ℕ × Vault
bumped b v w n = if b then (err constraint_error, v) else (ok n, w)

bump-log : (b : Bool) (v w : Vault) (n : ℕ) → w.log ≡ v.log → Grows v.log (bumped b v w n).1.log
bump-log true v w n e = same-Grows v.log v.log refl
bump-log false v w n e = same-Grows v.log w.log e

next_version-Grows : GrowsBy next_version
next_version-Grows = record {
  at = λ v.
      bump-log (v.ver_seq == natural_last) v (record v { ver_seq = v.ver_seq + 1 }) (v.ver_seq + 1)
        refl;
}

record_named-Grows : (name : Text) (o : Option Meta) → GrowsBy (record_named name o)
record_named-Grows name none = fail-Grows _
record_named-Grows name (some m) =
    then-Grows next_version _ next_version-Grows
      (λ n. change-Grows (push_version name _) _ (λ w. refl) (noted-Grows _ _ _))

pub record_version-Grows : (name : Text) → GrowsBy (record_version name)
unfolding record_version
record_version-Grows name = record {
  at = λ v. (record_named-Grows name (lookup name v.index)).at v;
}

drop_indexed-Grows : (name : Text) (o : Option Meta) → GrowsBy (drop_indexed name o)
drop_indexed-Grows name none = done-Grows
drop_indexed-Grows name (some m) =
    change-Grows (drop_object name) _ (λ w. refl) (append_jrnl-Grows _)

mark_named-Grows : (name : Text) (o : Option Meta) (now : ℕ) → GrowsBy (mark_named name o now)
mark_named-Grows name o now = then-Grows next_version _ next_version-Grows (λ n.
    change-Grows (push_version name (marker n)) _ (λ w. refl)
      (then-Grows (drop_indexed name o) _ (drop_indexed-Grows name o)
        (λ b. marked-Grows _ _ _ _ _ _)))

pub delete_marker-Grows : (name : Text) → GrowsBy (delete_marker name)
unfolding delete_marker
delete_marker-Grows name = record {
  at = λ v. (mark_named-Grows name (lookup name v.index) v.clock.floor).at v;
}

pub repoint-log :
    (name : Text) (o : Option VersionEntry) (v : Vault) → (repoint name o v).log ≡ v.log
repoint-log name none v = refl
repoint-log name (some e) v = refl

keep_versions-log :
    (name : Text) (es : List VersionEntry) (v : Vault) → (keep_versions name es v).log ≡ v.log
keep_versions-log name [] v = refl
keep_versions-log name (e ∷ es) v = refl

delete_version_in-Grows :
    (name vid : Text) (o : Option (List VersionEntry)) → GrowsBy (delete_version_in name vid o)
delete_version_in-Grows name vid none = fail-Grows _
delete_version_in-Grows name vid (some es) =
    if-Grows (has_version vid es) _ _
      (change-Grows (repoint name (newest_real (without_version vid es))) _
        (repoint-log name (newest_real (without_version vid es)))
        (change-Grows (keep_versions name (without_version vid es)) save
          (keep_versions-log name (without_version vid es)) save-Grows))
      (fail-Grows _)

pub delete_version-Grows : (name vid : Text) → GrowsBy (delete_version name vid)
unfolding delete_version
delete_version-Grows name vid = record {
  at = λ v. (delete_version_in-Grows name vid (lookup name v.versions)).at v;
}

audit_fresh-Grows : (fresh : Bool) (now : ℕ) → GrowsBy (audit_fresh fresh now)
audit_fresh-Grows true now = search grows
audit_fresh-Grows false now = done-Grows

tick_from-Grows :
    (sample : ClockSample) (clock : GuardState) (b : Bool) → GrowsBy (tick_from sample clock b)
tick_from-Grows sample clock true = change-Grows _ _ (λ w. refl) (audit_fresh-Grows _ _)
tick_from-Grows sample clock false = update-Grows _ (λ w. refl)

pub tick_clock-Grows : (sample : ClockSample) → GrowsBy (tick_clock sample)
unfolding tick_clock
tick_clock-Grows sample = record { at = λ v. (tick_from-Grows sample v.clock v.started).at v }

system_tick_from-Grows :
    (sample : ClockSample) (boot old : Text) → GrowsBy (system_tick_from sample boot old)
system_tick_from-Grows sample boot old =
    change-Grows _ _ (λ w. refl)
      (then-Grows (tick_clock _) _ (tick_clock-Grows _)
        (λ a. if-Grows (not (text_eq old boot)) save (pure tt) save-Grows done-Grows))

pub tick_from_system-Grows :
    (sample : ClockSample) (boot : Text) → GrowsBy (tick_from_system sample boot)
unfolding tick_from_system
tick_from_system-Grows sample boot = record {
  at = λ v. (system_tick_from-Grows sample boot v.last_boot).at v;
}

seal_unless-Grows : (b : Bool) (now : ℕ) → GrowsBy (seal_unless b now)
seal_unless-Grows true now = done-Grows
seal_unless-Grows false now = change-Grows _ _ (λ w. refl) (saved-Grows _ _ _)

pub seal-Grows : GrowsBy seal
unfolding seal
seal-Grows = record { at = λ v. (seal_unless-Grows v.op_sealed v.clock.floor).at v }

put_bucket-Grows : (name : Text) (lock : Bool) (o : Option Bool) → GrowsBy (put_bucket name lock o)
put_bucket-Grows name lock none = change-Grows _ _ (λ w. refl) save-Grows
put_bucket-Grows name lock (some b) = fail-Grows _

pub create_bucket-Grows : (name : Text) (lock : Bool) → GrowsBy (create_bucket name lock)
unfolding create_bucket
create_bucket-Grows name lock = record {
  at = λ v.
      (unless-Grows (ingest_refusal v) _ (put_bucket-Grows name lock (lookup name v.buckets))).at v;
}

drop_bucket-Grows :
    (name : Text) (o : Option Bool) (occupied : Bool) → GrowsBy (drop_bucket name o occupied)
drop_bucket-Grows name none occupied = fail-Grows _
drop_bucket-Grows name (some b) true = fail-Grows _
drop_bucket-Grows name (some b) false = change-Grows _ _ (λ w. refl) save-Grows

pub delete_bucket-Grows : (name : Text) → GrowsBy (delete_bucket name)
unfolding delete_bucket
delete_bucket-Grows name = record {
  at = λ v. (unless-Grows (ingest_refusal v) _ (drop_bucket-Grows name _ _)).at v;
}

pub saved_change-Grows :
    (f : Vault → Vault) → ((v : Vault) → (f v).log ≡ v.log) → GrowsBy (do update f; save)
saved_change-Grows f h = change-Grows f save h save-Grows
