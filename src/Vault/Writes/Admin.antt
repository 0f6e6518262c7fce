-- ===== src/Vault/Writes/Admin.antt =====
-- Trusted time, seals, modes and buckets of vault/src/dezhan-vault.adb keep what the vault holds of a
-- form that can be written.
use dezhan.Base.{
  ℕ, zero, suc, ◌≤◌, Bool, true, false, not, ◌&&◌, Option, none, some, refl, ok, arith, tests,
}
use dezhan.Text.{Text, text_eq}
use dezhan.Dict.{Dict, AllOf, lookup, insert, remove, insert-AllOf, remove-AllOf}
use dezhan.Core.Clock.{GuardState, ClockSample, time_last, saturated, mono_delta, tick, init}
use dezhan.Core.Sha256.{zeros}
use dezhan.Core.Audit.{seal_engaged, zero_digest}
use dezhan.Vault.State.{Vault, add_audit, ingest_refusal}
use dezhan.Vault.Persist.{save}
use dezhan.Vault.Admin.{
  clock_tolerance, audit_seal, advance, tick_from, tick_clock, tick_from_system, seal_unless, seal,
  set_one_way_ingest, open_sync_window, close_sync_window, put_bucket, create_bucket, drop_bucket,
  delete_bucket, set_versioning,
}
use dezhan.Vault.Printed.{IsSpaceless, IsBytes}
use dezhan.Vault.Readable.{IsName, IsDigest}
use dezhan.Vault.Writes.{
  AnyFlag, Writable, Writes, then-Writes, pure-Writes, save-Writes, add_audit-Writes, unless-Writes,
  if-Writes, change-Writes,
}

zeros-IsBytes : (n : ℕ) → IsBytes (zeros n)
zeros-IsBytes zero = tt
zeros-IsBytes (suc n) = (omega arith, zeros-IsBytes n)

pub zero_digest-IsDigest : IsDigest zero_digest
zero_digest-IsDigest = (refl, zeros-IsBytes 32)

-- Another clock and other modes.
pub clock-Writable :
    (c : GuardState) (started : Bool) (v : Vault)
    → c.floor ≤ time_last
    → Writable v
    → Writable (record v { clock = c; started = started })
clock-Writable c started v h w = record {
  floor = h;
  boot = w.boot;
  buckets = w.buckets;
  versioned = w.versioned;
  ver_seq = w.ver_seq;
  versions = w.versions;
  index = w.index;
  log = w.log;
  buffer = w.buffer;
  snapshot = w.snapshot;
  journal = w.journal;
}

boot-Writable :
    (boot : Text) (v : Vault)
    → IsSpaceless boot
    → Writable v
    → Writable (record v { last_boot = boot })
boot-Writable boot v h w = record {
  floor = w.floor;
  boot = h;
  buckets = w.buckets;
  versioned = w.versioned;
  ver_seq = w.ver_seq;
  versions = w.versions;
  index = w.index;
  log = w.log;
  buffer = w.buffer;
  snapshot = w.snapshot;
  journal = w.journal;
}

modes-Writable :
    (op_sealed ingest_only sync_shut : Bool) (v : Vault)
    → Writable v
    → Writable
        (record v { op_sealed = op_sealed; ingest_only = ingest_only; sync_shut = sync_shut })
modes-Writable a b c v w = record {
  floor = w.floor;
  boot = w.boot;
  buckets = w.buckets;
  versioned = w.versioned;
  ver_seq = w.ver_seq;
  versions = w.versions;
  index = w.index;
  log = w.log;
  buffer = w.buffer;
  snapshot = w.snapshot;
  journal = w.journal;
}

names-Writable :
    (buckets versioned : Dict Bool) (v : Vault)
    → (Writable v → AllOf IsName AnyFlag buckets × AllOf IsName AnyFlag versioned)
    → Writable v
    → Writable (record v { buckets = buckets; versioned = versioned })
names-Writable buckets versioned v f w = record {
  floor = w.floor;
  boot = w.boot;
  buckets = (f w).0;
  versioned = (f w).1;
  ver_seq = w.ver_seq;
  versions = w.versions;
  index = w.index;
  log = w.log;
  buffer = w.buffer;
  snapshot = w.snapshot;
  journal = w.journal;
}

audit_seal-Writes : (now : ℕ) → now ≤ time_last → Writes (audit_seal now)
audit_seal-Writes now h =
    then-Writes (add_audit seal_engaged (ok zero_digest) now) (λ a. save)
      (add_audit-Writes seal_engaged (ok zero_digest) now zero_digest-IsDigest h) (λ a. save-Writes)

advance-Writes :
    (before after : GuardState) → after.floor ≤ time_last → Writes (advance before after)
advance-Writes before after h =
    change-Writes (λ v. record v { clock = after }) _ (λ v w. clock-Writable after v.started v h w)
      (if-Writes (after.sealed && not before.sealed) _ _ (audit_seal-Writes after.floor h)
        (pure-Writes (ok tt)))

saturated-le : (a b : ℕ) → b ≤ time_last → saturated a b ≤ time_last
saturated-le a b h = grind (arith, tests)

mono_delta-le :
    (s : GuardState) (sample : ClockSample)
    → sample.mono ≤ time_last
    → mono_delta s sample ≤ time_last
unfolding mono_delta
mono_delta-le s sample h = ground arith

tick_from-Writes :
    (sample : ClockSample) (c : GuardState) (started : Bool)
    → sample.mono ≤ time_last
    → Writes (tick_from sample c started)
unfolding tick init
tick_from-Writes sample c true h =
    advance-Writes c (tick c sample clock_tolerance)
      (saturated-le c.floor (mono_delta c sample) (mono_delta-le c sample h))
tick_from-Writes sample c false h = record {
  at = λ v w. clock-Writable (init sample) true v (omega arith) w;
}

pub tick_clock-Writes :
    (sample : ClockSample) → sample.mono ≤ time_last → Writes (tick_clock sample)
unfolding tick_clock
tick_clock-Writes sample h = record {
  at = λ v w. (tick_from-Writes sample v.clock v.started h).at v w;
}

pub tick_from_system-Writable :
    (sample : ClockSample) (boot : Text) (v : Vault)
    → sample.mono ≤ time_last
    → IsSpaceless boot
    → Writable v
    → Writable (tick_from_system sample boot v).1
unfolding tick_from_system
tick_from_system-Writable sample boot v h b w =
    (change-Writes (λ u. record u { last_boot = boot }) _ (λ u x. boot-Writable boot u b x)
        (then-Writes (tick_clock _) _ (tick_clock-Writes _ h) (λ a.
          if-Writes (not (text_eq v.last_boot boot)) _ _ save-Writes (pure-Writes (ok tt))))).at
      v w

seal_unless-Writes : (sealed : Bool) (now : ℕ) → now ≤ time_last → Writes (seal_unless sealed now)
seal_unless-Writes true now h = pure-Writes (ok tt)
seal_unless-Writes false now h =
    change-Writes (λ v. record v { op_sealed = true }) _
      (λ v w. modes-Writable true v.ingest_only v.sync_shut v w) (audit_seal-Writes now h)

pub seal-Writable : (v : Vault) → Writable v → Writable (seal v).1
unfolding seal
seal-Writable v w = (seal_unless-Writes v.op_sealed v.clock.floor w.floor).at v w

pub set_one_way_ingest-Writes : (enabled : Bool) → Writes (set_one_way_ingest enabled)
unfolding set_one_way_ingest
set_one_way_ingest-Writes enabled =
    change-Writes (λ v. record v { ingest_only = enabled }) _
      (λ v w. modes-Writable v.op_sealed enabled v.sync_shut v w) save-Writes

pub open_sync_window-Writes : Writes open_sync_window
unfolding open_sync_window
open_sync_window-Writes =
    change-Writes (λ v. record v { sync_shut = false }) _
      (λ v w. modes-Writable v.op_sealed v.ingest_only false v w) save-Writes

pub close_sync_window-Writes : Writes close_sync_window
unfolding close_sync_window
close_sync_window-Writes =
    change-Writes (λ v. record v { sync_shut = true }) _
      (λ v w. modes-Writable v.op_sealed v.ingest_only true v w) save-Writes

put_bucket-Writes :
    (name : Text) (lock : Bool) (o : Option Bool) → IsName name → Writes (put_bucket name lock o)
put_bucket-Writes name lock (some b) n = pure-Writes _
put_bucket-Writes name lock none n =
    change-Writes (λ v. record v { buckets = insert name lock v.buckets }) _
      (λ v w.
        names-Writable (insert name lock v.buckets) v.versioned v
          (λ x. (insert-AllOf IsName AnyFlag name lock v.buckets n tt x.buckets, x.versioned)) w)
      save-Writes

pub create_bucket-Writable :
    (name : Text) (lock : Bool) (v : Vault)
    → IsName name
    → Writable v
    → Writable (create_bucket name lock v).1
unfolding create_bucket
create_bucket-Writable name lock v n w =
    unless-Writes (ingest_refusal v) _ v w
      (λ e. (put_bucket-Writes name lock (lookup name v.buckets) n).at v w)

drop_bucket-Writes :
    (name : Text) (o : Option Bool) (occupied : Bool) → Writes (drop_bucket name o occupied)
drop_bucket-Writes name none occupied = pure-Writes _
drop_bucket-Writes name (some b) true = pure-Writes _
drop_bucket-Writes name (some b) false =
    change-Writes (λ v. record v { buckets = remove name v.buckets }) _
      (λ v w.
        names-Writable (remove name v.buckets) v.versioned v
          (λ x. (remove-AllOf IsName AnyFlag name v.buckets x.buckets, x.versioned)) w)
      save-Writes

pub delete_bucket-Writable :
    (name : Text) (v : Vault) → Writable v → Writable (delete_bucket name v).1
unfolding delete_bucket
delete_bucket-Writable name v w =
    unless-Writes (ingest_refusal v) _ v w
      (λ e. (drop_bucket-Writes name (lookup name v.buckets) _).at v w)

pub set_versioning-Writes :
    (name : Text) (on : Bool) → IsName name → Writes (set_versioning name on)
unfolding set_versioning
set_versioning-Writes name on n =
    change-Writes (λ v. record v { versioned = insert name on v.versioned }) _
      (λ v w.
        names-Writable v.buckets (insert name on v.versioned) v
          (λ x. (x.buckets, insert-AllOf IsName AnyFlag name on v.versioned n tt x.versioned)) w)
      save-Writes
