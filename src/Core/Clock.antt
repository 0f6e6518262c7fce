-- ===== src/Core/Clock.antt =====
-- The clock guard, trusted_core/src/dezhan-trusted_core-clock_guard.adb.
use dezhan.Base.{ℕ, ◌+◌, ◌-◌, ◌^◌, Bool, true, false, ◌||◌, ◌&&◌, if◌then◌else◌, ltb, leb}

-- Trusted_Time'Last
abbrev pub time_last : ℕ
time_last = 2 ^ 63 - 1

pub data AnomalyKind : Type 0 where
  no_anomaly monotonic_reset rollback forward_jump : AnomalyKind

pub record GuardState : Type 0 where
  pub floor : ℕ
  pub last_mono : ℕ
  pub last_real : ℕ
  pub anomaly : AnomalyKind
  pub sealed : Bool

pub record ClockSample : Type 0 where
  pub mono : ℕ
  pub realtime : ℕ
  pub boot_changed : Bool

unfoldable pub mono_delta : GuardState → ClockSample → ℕ
mono_delta s sample =
    if sample.boot_changed || ltb sample.mono s.last_mono then 0 else sample.mono - s.last_mono

-- a + b, or Trusted_Time'Last where that is larger
abbrev pub saturated : ℕ → ℕ → ℕ
saturated a b = if leb a (time_last - b) then a + b else time_last

unfoldable pub advanced_floor : GuardState → ClockSample → ℕ
unfolding mono_delta
advanced_floor s sample = saturated s.floor (mono_delta s sample)

unfoldable pub init : ClockSample → GuardState
init sample = record {
  floor = 0;
  last_mono = sample.mono;
  last_real = sample.realtime;
  anomaly = no_anomaly;
  sealed = false;
}

unfoldable pub anomaly_of : GuardState → ClockSample → ℕ → ℕ → AnomalyKind
anomaly_of s sample expected tolerance =
    if sample.boot_changed
    then monotonic_reset
    else if ltb sample.mono s.last_mono
    then rollback
    else if ltb expected sample.realtime && ltb tolerance (sample.realtime - expected)
    then forward_jump
    else if ltb sample.realtime expected && ltb tolerance (expected - sample.realtime)
    then rollback
    else no_anomaly

-- Anomaly = Rollback or else Anomaly = Forward_Jump
abbrev pub seals : AnomalyKind → Bool
seals no_anomaly = false
seals monotonic_reset = false
seals rollback = true
seals forward_jump = true

unfoldable pub tick : GuardState → ClockSample → ℕ → GuardState
unfolding mono_delta anomaly_of
tick s sample tolerance =
    let d = mono_delta s sample in
    let found = anomaly_of s sample (saturated s.last_real d) tolerance in
    record {
      floor = saturated s.floor d;
      last_mono = sample.mono;
      last_real = sample.realtime;
      anomaly = found;
      sealed = s.sealed || seals found;
    }
