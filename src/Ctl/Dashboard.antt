-- ===== src/Ctl/Dashboard.antt =====
-- The dashboard, ctl/internal/tui/dashboard.go: its state, its messages and the fetch, and the lines of
-- the list of objects.
pub mod Runs
pub mod Fetch
pub mod View
pub mod Cards
use dezhan.Base.{
  ℕ, zero, suc, ◌+◌, ◌-◌, ◌++◌, [], ◌∷◌, List, Bool, true, false, not, ◌||◌, ◌&&◌, Option, none,
  some, if◌then◌else◌, ◌==◌, ltb, length, take, Result, ok, err, Exec, map,
}
use dezhan.Text.{Text, codes, ℤ, pos, negsuc, itoa, trim_space, text_eq}
use dezhan.Csi.Conn.{is_empty}
use dezhan.Ctl.Http.{Http}
use dezhan.Ctl.Client.{Client, health, version, list}
use dezhan.Ctl.Metrics.{Floats, Metrics, metrics}

-- a second, in the nanoseconds of time.Duration
abbrev pub second : ℤ
second = pos 1000000000

-- every < time.Second
abbrev pub below_second : ℤ → Bool
below_second (pos n) = ltb n 1000000000
below_second (negsuc n) = true

abbrev pub nz : Text → Text → Text
nz s dflt = if is_empty (trim_space s) then dflt else s

-- what becomes of a value beside an error that is dropped
abbrev pub value_or : {A E : Type 0} → A → Result E A → A
value_or d (ok a) = a
value_or d (err e) = d

-- "• " in UTF-8, in front of an object
abbrev pub bullet : Text → Text
bullet o = 226 ∷ 128 ∷ 162 ∷ 32 ∷ o

-- the lines of the objects' panel: at most 12 objects, and then how many more there are, in the
-- style of the footer
unfoldable pub lines_up_to : (Text → Text) → ℕ → ℕ → List Text → List Text
unfolding itoa
lines_up_to foot k total [] = []
lines_up_to foot zero total (o ∷ os) =
    foot (codes "... and " ++ (itoa (pos (total - 12)) ++ codes " more")) ∷ []
lines_up_to foot (suc n) total (o ∷ os) = bullet o ∷ lines_up_to foot n total os

abbrev pub or_none : (Text → Text) → List Text → List Text
or_none foot [] = foot (codes "(none)") ∷ []
or_none foot (l ∷ ls) = l ∷ ls

unfoldable pub object_lines : (Text → Text) → List Text → List Text
unfolding lines_up_to
object_lines foot objects = or_none foot (lines_up_to foot 12 (length objects) objects)

module _ (N : Floats) where
  -- snapshotMsg
  pub record Snapshot : Type 0 where
    pub health : Text
    pub version : Text
    pub metrics : Option (Metrics N.F)
    pub objects : List Text
    pub error : Option Text
    pub at : ℕ

  -- Model, without the client
  pub record Model : Type 0 where
    pub endpoint : Text
    pub every : ℤ
    pub snap : Snapshot
    pub loaded : Bool
    pub width : ℕ
    pub height : ℕ

  pub data Message : Type 0 where
    key : Text → Message
    window_size : ℕ → ℕ → Message
    tick : Message
    snapshot : Snapshot → Message
    other : Message

  -- what Update asks for: nothing, the end, a fetch, or a fetch and the next tick
  pub data Command : Type 0 where
    nothing quit fetch : Command
    fetch_and_tick : ℤ → Command

  abbrev pub empty_snapshot : Snapshot
  empty_snapshot = record {
    health = [];
    version = [];
    metrics = none;
    objects = [];
    error = none;
    at = 0;
  }

  unfoldable pub new_model : Text → ℤ → Model
  new_model endpoint every = record {
    endpoint = endpoint;
    every = if below_second every then second else every;
    snap = empty_snapshot;
    loaded = false;
    width = 0;
    height = 0;
  }

  unfoldable pub init : Model → Command
  init m = fetch_and_tick m.every

  unfoldable pub press : Model → Text → Model × Command
  unfolding text_eq
  press m k =
      if text_eq k (codes "q") || (text_eq k (codes "ctrl+c") || text_eq k (codes "esc"))
      then (m, quit)
      else if text_eq k (codes "r")
      then (m, fetch)
      else (m, nothing)

  unfoldable pub update : Model → Message → Model × Command
  unfolding press
  update m (key k) = press m k
  update m (window_size w h) = (record m { width = w; height = h }, nothing)
  update m tick = (m, fetch_and_tick m.every)
  update m (snapshot s) = (record m { snap = s; loaded = true }, nothing)
  update m other = (m, nothing)

  module _ (H : Http) (c : Client) (now : ℕ) where
    -- the metrics of a fetch, none beside an error, and none at all for a panic
    abbrev pub with_metrics : Snapshot → Result Text (Option (Metrics N.F)) → Option Snapshot
    with_metrics s (ok none) = none
    with_metrics s (ok (some m)) = some (record s { metrics = some m })
    with_metrics s (err e) = some (record s { error = some e })

    abbrev pub with_objects : Option Snapshot → List Text → Option Snapshot
    with_objects none os = none
    with_objects (some s) os = some (record s { objects = os })

    -- The fetch: four requests, whatever becomes of each; none for a panic.
    unfoldable pub take_snapshot : H.World → Option Snapshot × H.World
    take_snapshot w =
        let (h, w1) = health H c w in
        let (v, w2) = version H c w1 in
        let (m, w3) = metrics N H c w2 in
        let (o, w4) = list H c w3 in
        (
          with_objects
              (with_metrics
                (record empty_snapshot {
                  health = value_or [] h;
                  version = value_or [] v;
                  at = now;
                })
                m)
              (value_or [] o),
          w4,
        )

    -- FetchOnce; none where the fetch has panicked
    abbrev shown : Model → ℕ → Option Snapshot → Option Model
    shown m width none = none
    shown m width (some s) =
        some (record m { snap = s; loaded = true; width = if width == 0 then m.width else width })

    unfoldable pub fetch_once : Model → ℕ → H.World → Option Model × H.World
    unfolding take_snapshot
    fetch_once m width w = let (s, w') = take_snapshot w in (shown m width s, w')
