-- ===== src/Vault/Time.antt =====
-- Trusted time over the calls of the vault, vault/src/dezhan-vault.adb and
-- trusted_core/src/dezhan-trusted_core-clock_guard.adb.
use dezhan.Base.{
  ◌+◌, ◌≤◌, [], ◌∷◌, List, Bool, true, false, ◌≡◌, refl, sym, ◌∙◌, subst, if◌then◌else◌, arith, All,
  Option, none, some, ◌==◌, not, ◌&&◌,
}
use dezhan.Text.{Text, text_eq}
use dezhan.Dict.{lookup}
use dezhan.Core.Clock.{ClockSample, time_last}
use dezhan.Core.Audit.{natural_last}
use dezhan.Csi.Conn.{is_empty}
use dezhan.Vault.State.{Meta, VersionEntry, Vault}
use dezhan.Vault.Versions.{has_version, marker}
use dezhan.Vault.Operations.{
  Operation, put, delete, hold, release, version, mark, drop_version, tick, system_tick, seal_vault,
  open_window, close_window, ingest, make_bucket, versioning, remove_bucket, run,
}
use dezhan.Vault.Keeps.{Plain, plain}
use dezhan.Vault.Spec.{
  plain_step, plain_run, plain_tick, elapsed, accepts, delete_if, hold_if, release_if, version_if,
  plain_mark, drop_if, drop_version_if, may_delete, plain_push,
}
use dezhan.Vault.Refines.Runs.{run-plain}

-- The readings of the monotonic clock are Trusted_Times.
abbrev pub IsTimed : Operation → Type 0
IsTimed (tick sample) = sample.mono ≤ time_last
IsTimed (system_tick sample boot) = sample.mono ≤ time_last
IsTimed op = Unit

-- Trusted time runs, and has come from p to q without going back.
pub record Advances (p q : Plain) : Type 0 where
  pub running : q.started ≡ true
  pub forward : p.floor ≤ q.floor
  pub in_range : q.floor ≤ time_last

plain_tick-Advances :
    (sample : ClockSample) (p : Plain)
    → sample.mono ≤ time_last
    → p.started ≡ true
    → p.floor ≤ time_last
    → Advances p (plain_tick sample p)
unfolding plain_tick elapsed
plain_tick-Advances sample p t s le =
    rw s (record { running = refl; forward = ground arith; in_range = ground arith })

-- q has the trusted time of p.
record SameTime (p q : Plain) : Type 0 where
  same_started : q.started ≡ p.started
  same_floor : q.floor ≡ p.floor

if-SameTime : (b : Bool) (p q : Plain) → SameTime p q → SameTime p (if b then q else p)
if-SameTime true p q h = h
if-SameTime false p q h = (record { same_started = refl; same_floor = refl })

unless-SameTime : (b : Bool) (p q : Plain) → SameTime p q → SameTime p (if b then p else q)
unless-SameTime true p q h = (record { same_started = refl; same_floor = refl })
unless-SameTime false p q h = h

delete_if-SameTime :
    (name : Text) (bypass : Bool) (o : Option Meta) (p : Plain)
    → SameTime p (delete_if name bypass o p)
delete_if-SameTime name bypass none p = (record { same_started = refl; same_floor = refl })
delete_if-SameTime name bypass (some m) p =
    if-SameTime (may_delete p bypass m) p _ (record { same_started = refl; same_floor = refl })

hold_if-SameTime :
    (name : Text) (o : Option Meta) (p : Plain)
    → SameTime p (hold_if name o p)
      × SameTime p (release_if name o p)
      × SameTime p (drop_if name o p)
hold_if-SameTime name none p = (
  (record { same_started = refl; same_floor = refl }),
  (record { same_started = refl; same_floor = refl }),
  (record { same_started = refl; same_floor = refl }),
)
hold_if-SameTime name (some m) p = (
  (record { same_started = refl; same_floor = refl }),
  (record { same_started = refl; same_floor = refl }),
  (record { same_started = refl; same_floor = refl }),
)

version_if-SameTime : (name : Text) (o : Option Meta) (p : Plain) → SameTime p (version_if name o p)
version_if-SameTime name none p = (record { same_started = refl; same_floor = refl })
version_if-SameTime name (some m) p =
    unless-SameTime (p.ver_seq == natural_last) p _
      (record { same_started = refl; same_floor = refl })

drop_version_if-SameTime :
    (name vid : Text) (o : Option (List VersionEntry)) (p : Plain)
    → SameTime p (drop_version_if name vid o p)
drop_version_if-SameTime name vid none p = (record { same_started = refl; same_floor = refl })
drop_version_if-SameTime name vid (some es) p =
    if-SameTime (has_version vid es) p _ (record { same_started = refl; same_floor = refl })

plain_mark-SameTime : (name : Text) (p : Plain) → SameTime p (plain_mark name p)
plain_mark-SameTime name p =
    let pushed = plain_push name (marker (p.ver_seq + 1)) p in
    let h = (hold_if-SameTime name (lookup name p.index) pushed).2 in
    unless-SameTime (p.ver_seq == natural_last) p (drop_if name (lookup name p.index) pushed)
      (record { same_started = h.same_started; same_floor = h.same_floor })

same-Advances : (p q : Plain) → p.started ≡ true → p.floor ≤ time_last → SameTime p q → Advances p q
same-Advances p q s le h = record {
  running = h.same_started ∙ s;
  forward = omega (arith, h.same_floor);
  in_range = omega (arith, h.same_floor);
}

pub plain_step-Advances :
    (op : Operation) (p : Plain)
    → IsTimed op
    → p.started ≡ true
    → p.floor ≤ time_last
    → Advances p (plain_step op p)
unfolding plain_step
plain_step-Advances (tick sample) p t s le = plain_tick-Advances sample p t s le
plain_step-Advances (system_tick sample boot) p t s le =
    let h =
      plain_tick-Advances
        (record sample {
          boot_changed = not (is_empty p.last_boot) && not (text_eq p.last_boot boot);
        })
        (record p { last_boot = boot }) t s le in
    record { running = h.running; forward = h.forward; in_range = h.in_range }
plain_step-Advances (put name id composite size mode retain_for meta) p t s le =
    same-Advances p _ s le (
      if-SameTime (accepts p mode retain_for) p _
        (record { same_started = refl; same_floor = refl }))
plain_step-Advances (delete name bypass) p t s le =
    same-Advances p _ s le (delete_if-SameTime name bypass _ p)
plain_step-Advances (hold name) p t s le = same-Advances p _ s le (hold_if-SameTime name _ p).0
plain_step-Advances (release name) p t s le = same-Advances p _ s le (hold_if-SameTime name _ p).1
plain_step-Advances (version name) p t s le = same-Advances p _ s le (version_if-SameTime name _ p)
plain_step-Advances (mark name) p t s le = same-Advances p _ s le (plain_mark-SameTime name p)
plain_step-Advances (drop_version name vid) p t s le =
    same-Advances p _ s le (drop_version_if-SameTime name vid _ p)
plain_step-Advances seal_vault p t s le = record {
  running = s;
  forward = omega arith;
  in_range = le;
}
plain_step-Advances open_window p t s le = record {
  running = s;
  forward = omega arith;
  in_range = le;
}
plain_step-Advances close_window p t s le = record {
  running = s;
  forward = omega arith;
  in_range = le;
}
plain_step-Advances (ingest enabled) p t s le = record {
  running = s;
  forward = omega arith;
  in_range = le;
}
plain_step-Advances (make_bucket name lock) p t s le = record {
  running = s;
  forward = omega arith;
  in_range = le;
}
plain_step-Advances (versioning name on) p t s le = record {
  running = s;
  forward = omega arith;
  in_range = le;
}
plain_step-Advances (remove_bucket name) p t s le = record {
  running = s;
  forward = omega arith;
  in_range = le;
}

pub plain_run-Advances :
    (ops : List Operation) (p : Plain)
    → All IsTimed ops
    → p.started ≡ true
    → p.floor ≤ time_last
    → Advances p (plain_run ops p)
unfolding plain_run
plain_run-Advances [] p t s le = record { running = s; forward = omega arith; in_range = le }
plain_run-Advances (op ∷ ops) p t s le =
    let one = plain_step-Advances op p t.0 s le in
    let more = plain_run-Advances ops (plain_step op p) t.1 one.running one.in_range in
    record {
      running = more.running;
      forward = omega (arith, one.forward, more.forward);
      in_range = more.in_range;
    }

-- Over a sequence of calls trusted time never goes back and keeps running, once it runs.
pub run-floor :
    (ops : List Operation) (v : Vault)
    → All IsTimed ops
    → v.started ≡ true
    → v.clock.floor ≤ time_last
    → ((run ops v).started ≡ true)
      × (v.clock.floor ≤ (run ops v).clock.floor)
      × ((run ops v).clock.floor ≤ time_last)
run-floor ops v t s le =
    let all =
      subst (Advances (plain v)) (sym (run-plain ops v))
        (plain_run-Advances ops (plain v) t s le) in
    (all.running, all.forward, all.in_range)
