-- ===== src/Vault/Refines/Admin.antt =====
-- Trusted time, seals and buckets of the vault, vault/src/dezhan-vault.adb, against its abstract
-- counterpart.
use dezhan.Base.{
  ℕ, Bool, true, false, not, Option, none, some, ◌≡◌, refl, ap, ◌∙◌, if◌then◌else◌, pure,
}
use dezhan.Text.{Text, text_eq}
use dezhan.Core.Clock.{ClockSample, saturated, tick, init, mono_delta}
use dezhan.Vault.State.{Vault, Fault, Act, unless}
use dezhan.Vault.Persist.{save}
use dezhan.Vault.Admin.{
  tick_clock, tick_from, tick_from_system, audit_fresh, clock_tolerance, seal, seal_unless,
  create_bucket, put_bucket, delete_bucket, drop_bucket,
}
use dezhan.Vault.Operations.{system_tick}
use dezhan.Vault.Keeps.{plain, Keeps, continue-plain, save-Keeps}
use dezhan.Vault.Spec.{plain_step, plain_tick, elapsed}
use dezhan.Vault.Refines.Objects.{saved-Keeps}

audit_fresh-Keeps : (fresh : Bool) (now : ℕ) → Keeps (audit_fresh fresh now)
audit_fresh-Keeps true now v = saved-Keeps _ _ now v
audit_fresh-Keeps false now v = refl

tick_from-plain :
    (sample : ClockSample) (b : Bool) (v : Vault)
    → v.started ≡ b
    → plain (tick_from sample v.clock b v).1 ≡ record (plain v) {
      floor = if b then saturated v.clock.floor (mono_delta v.clock sample) else 0;
      last_mono = sample.mono;
      started = true;
    }
unfolding tick init mono_delta
tick_from-plain sample true v s =
    audit_fresh-Keeps _ _ (record v { clock = tick v.clock sample clock_tolerance })
    ∙ ap
        (λ (b : Bool). record (plain v) {
          floor = saturated v.clock.floor (mono_delta v.clock sample);
          last_mono = sample.mono;
          started = b;
        })
        s
tick_from-plain sample false v s = refl

pub tick_clock-plain :
    (sample : ClockSample) (v : Vault) → plain (tick_clock sample v).1 ≡ plain_tick sample (plain v)
unfolding tick_clock plain_tick elapsed mono_delta
tick_clock-plain sample v = tick_from-plain sample v.started v refl

save_if-Keeps : (b : Bool) → Keeps (if b then save else pure tt)
save_if-Keeps true v = save-Keeps v
save_if-Keeps false v = refl

pub tick_from_system-plain :
    (sample : ClockSample) (boot : Text) (v : Vault)
    → plain (tick_from_system sample boot v).1 ≡ plain_step (system_tick sample boot) (plain v)
unfolding tick_from_system plain_step
tick_from_system-plain sample boot v =
    continue-plain (tick_clock _ (record v { last_boot = boot })) _
      (λ u. save_if-Keeps (not (text_eq v.last_boot boot)))
    ∙ tick_clock-plain _ (record v { last_boot = boot })

seal_unless-plain :
    (b : Bool) (now : ℕ) (v : Vault)
    → v.op_sealed ≡ b
    → plain (seal_unless b now v).1 ≡ record (plain v) { op_sealed = true }
seal_unless-plain true now v s = ap (λ (b : Bool). record (plain v) { op_sealed = b }) s
seal_unless-plain false now v s = saved-Keeps _ _ now (record v { op_sealed = true })

pub seal-plain : (v : Vault) → plain (seal v).1 ≡ record (plain v) { op_sealed = true }
unfolding seal
seal-plain v = seal_unless-plain v.op_sealed v.clock.floor v refl

unless-Keeps : {A : Type 0} (r : Option Fault) (m : Act A) → Keeps m → Keeps (unless r m)
unless-Keeps none m h v = h v
unless-Keeps (some e) m h v = refl

put_bucket-Keeps : (name : Text) (lock : Bool) (o : Option Bool) → Keeps (put_bucket name lock o)
put_bucket-Keeps name lock none v = save-Keeps _
put_bucket-Keeps name lock (some b) v = refl

pub create_bucket-Keeps : (name : Text) (lock : Bool) → Keeps (create_bucket name lock)
unfolding create_bucket
create_bucket-Keeps name lock v = unless-Keeps _ _ (put_bucket-Keeps name lock _) v

drop_bucket-Keeps :
    (name : Text) (o : Option Bool) (occupied : Bool) → Keeps (drop_bucket name o occupied)
drop_bucket-Keeps name none occupied v = refl
drop_bucket-Keeps name (some b) true v = refl
drop_bucket-Keeps name (some b) false v = save-Keeps _

pub delete_bucket-Keeps : (name : Text) → Keeps (delete_bucket name)
unfolding delete_bucket
delete_bucket-Keeps name v = unless-Keeps _ _ (drop_bucket-Keeps name _ _) v
