-- ===== src/Vault/Recovered/Admin.antt =====
-- The calls about time, seals, modes and buckets, vault/src/dezhan-vault.adb, with what a crash
-- after them leaves.
use dezhan.Base.{
  ℕ, List, Bool, true, false, not, Option, none, some, ◌≡◌, refl, subst, if◌then◌else◌, length,
  Result, ok, err, continue, ◌>>◌, pure,
}
use dezhan.Text.{Text, text_eq}
use dezhan.Dict.{lookup, insert, remove, insert-NodupKeys, remove-NodupKeys}
use dezhan.Core.Clock.{GuardState, ClockSample}
use dezhan.Core.Audit.{seal_engaged, AuditEntry, zero_digest}
use dezhan.Vault.State.{update, Vault, Fault, ingest_refusal}
use dezhan.Vault.Persist.{save, saved}
use dezhan.Vault.Admin.{
  tick_clock, tick_from, tick_from_system, system_tick_from, audit_fresh, seal, seal_unless,
  create_bucket, put_bucket, delete_bucket, drop_bucket,
}
use dezhan.Vault.Files.{IsDurable, saved-IsDurable}
use dezhan.Vault.Durable.{Settled, same-Settled, audited-Settled}
use dezhan.Vault.Recovered.{
  Settles, unless-Settles, fail-Settles, done-Settles, saved_change-Settles,
}

-- A change of what does not outlive the process.
beside-Settles :
    (f : Vault → Vault) (v : Vault)
    → (IsDurable v → IsDurable (f v))
    → (f v).log ≡ v.log
    → Settles (update f) v
beside-Settles f v h e = record {
  settled = λ d room.
      subst (λ (l : List AuditEntry). Settled (length l) (f v)) e (same-Settled (f v) (h d));
}

clocked-IsDurable :
    (c : GuardState) (b : Bool) (v : Vault)
    → IsDurable v
    → IsDurable (record v { clock = c; started = b })
clocked-IsDurable c b v d = record { sound = d.sound; flat = d.flat; stored = d.stored }

booted-IsDurable : (b : Text) (v : Vault) → IsDurable v → IsDurable (record v { last_boot = b })
booted-IsDurable b v d = record { sound = d.sound; flat = d.flat; stored = d.stored }

advance-Settles :
    (fresh : Bool) (now : ℕ) (c : GuardState) (v : Vault)
    → Settles (do update (λ w. record w { clock = c }); audit_fresh fresh now) v
advance-Settles true now c v = record {
  settled = λ d room.
      audited-Settled seal_engaged (ok zero_digest) zero_digest now (record v { clock = c }) refl
        d.sound room;
}
advance-Settles false now c v = record {
  settled = λ d room. same-Settled (record v { clock = c }) (clocked-IsDurable c v.started v d);
}

tick_from-Settles :
    (sample : ClockSample) (clock : GuardState) (b : Bool) (v : Vault)
    → Settles (tick_from sample clock b) v
tick_from-Settles sample clock true v = advance-Settles _ _ _ v
tick_from-Settles sample clock false v = beside-Settles _ v (clocked-IsDurable _ true v) refl

pub tick_clock-Settles : (sample : ClockSample) (v : Vault) → Settles (tick_clock sample) v
unfolding tick_clock
tick_clock-Settles sample v = record {
  settled = (tick_from-Settles sample v.clock v.started v).settled;
}

-- What comes after a call that has settled, and leaves the contents alone.
save_after-Settled :
    (n : ℕ) (b : Bool) (x : Result Fault Unit × Vault)
    → Settled n x.1
    → Settled n (continue x (λ (a : Unit). if b then save else pure tt)).1
unfolding saved
save_after-Settled n true (ok a, w) s = record {
  durable = saved-IsDurable w s.durable.sound;
  entries = s.entries;
}
save_after-Settled n false (ok a, w) s = s
save_after-Settled n b (err e, w) s = s

system_tick_from-Settles :
    (sample : ClockSample) (boot old : Text) (v : Vault)
    → Settles (system_tick_from sample boot old) v
system_tick_from-Settles sample boot old v = record {
  settled = λ d room. save_after-Settled (length v.log) (not (text_eq old boot)) _ (
      (tick_clock-Settles _ (record v { last_boot = boot })).settled (booted-IsDurable boot v d)
        room);
}

pub tick_from_system-Settles :
    (sample : ClockSample) (boot : Text) (v : Vault) → Settles (tick_from_system sample boot) v
unfolding tick_from_system
tick_from_system-Settles sample boot v = record {
  settled = (system_tick_from-Settles sample boot v.last_boot v).settled;
}

seal_unless-Settles : (b : Bool) (now : ℕ) (v : Vault) → Settles (seal_unless b now) v
seal_unless-Settles true now v = done-Settles v
seal_unless-Settles false now v = record {
  settled = λ d room.
      audited-Settled seal_engaged (ok zero_digest) zero_digest now (record v { op_sealed = true })
        refl (record { chain = d.sound.chain; objects = d.sound.objects; names = d.sound.names })
        room;
}

pub seal-Settles : (v : Vault) → Settles seal v
unfolding seal
seal-Settles v = record { settled = (seal_unless-Settles v.op_sealed v.clock.floor v).settled }

put_bucket-Settles :
    (name : Text) (lock : Bool) (o : Option Bool) (v : Vault) → Settles (put_bucket name lock o) v
put_bucket-Settles name lock (some b) v = fail-Settles _ v
put_bucket-Settles name lock none v =
    saved_change-Settles (λ w. record w { buckets = insert name lock w.buckets }) v
      (λ s. record {
        chain = s.chain;
        objects = s.objects;
        names = insert-NodupKeys name lock v.buckets s.names;
      })
      refl

pub create_bucket-Settles :
    (name : Text) (lock : Bool) (v : Vault) → Settles (create_bucket name lock) v
unfolding create_bucket
create_bucket-Settles name lock v = record {
  settled =
      (unless-Settles (ingest_refusal v) _ v
        (put_bucket-Settles name lock (lookup name v.buckets) v)).settled;
}

drop_bucket-Settles :
    (name : Text) (o : Option Bool) (occupied : Bool) (v : Vault)
    → Settles (drop_bucket name o occupied) v
drop_bucket-Settles name none occupied v = fail-Settles _ v
drop_bucket-Settles name (some b) true v = fail-Settles _ v
drop_bucket-Settles name (some b) false v =
    saved_change-Settles (λ w. record w { buckets = remove name w.buckets }) v
      (λ s. record {
        chain = s.chain;
        objects = s.objects;
        names = remove-NodupKeys name v.buckets s.names;
      })
      refl

pub delete_bucket-Settles : (name : Text) (v : Vault) → Settles (delete_bucket name) v
unfolding delete_bucket
delete_bucket-Settles name v = record {
  settled = (unless-Settles (ingest_refusal v) _ v (drop_bucket-Settles name _ _ v)).settled;
}
