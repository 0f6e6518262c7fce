-- ===== src/Ctl/Dashboard/Runs.antt =====
-- About Update of ctl/internal/tui/dashboard.go over many messages, and the panel of objects.
use dezhan.Base.{
  ℕ, zero, suc, ◌-◌, ◌<◌, ◌≤◌, ◌++◌, ◌≡◌, refl, ap, sym, ◌∙◌, [], ◌∷◌, List, Bool, true, false,
  ◌||◌, if◌then◌else◌, ◌==◌, leb, length, take, map, arith, inl, inr, Bool-cases,
}
use dezhan.Text.{Text, codes, ℤ, pos, negsuc, itoa}
use dezhan.Ctl.Metrics.{Floats}
use dezhan.Ctl.Dashboard.{
  Snapshot, Model, Message, Command, key, window_size, tick, snapshot, other, nothing, quit, fetch,
  fetch_and_tick, new_model, init, press, update, below_second, second, bullet, lines_up_to,
  object_lines,
}

long_enough : (every : ℤ) → below_second (if below_second every then second else every) ≡ false
long_enough (pos n) = ground arith
long_enough (negsuc n) = ground arith

abbrev pub repeat : ℕ → ℤ → List ℤ
repeat zero d = []
repeat (suc n) d = d ∷ repeat n d

module _ (N : Floats) where
  -- the model after messages, in order
  abbrev pub run : Model N → List (Message N) → Model N
  run m [] = m
  run m (msg ∷ msgs) = run (update N m msg).0 msgs

  -- what is asked for on the way
  abbrev pub commands : Model N → List (Message N) → List (Command N)
  commands m [] = []
  commands m (msg ∷ msgs) = (update N m msg).1 ∷ commands (update N m msg).0 msgs

  -- the last snapshot among the messages, or the given one
  abbrev pub last_snapshot : Snapshot N → List (Message N) → Snapshot N
  last_snapshot s [] = s
  last_snapshot s (snapshot t ∷ msgs) = last_snapshot t msgs
  last_snapshot s (key k ∷ msgs) = last_snapshot s msgs
  last_snapshot s (window_size w h ∷ msgs) = last_snapshot s msgs
  last_snapshot s (tick ∷ msgs) = last_snapshot s msgs
  last_snapshot s (other ∷ msgs) = last_snapshot s msgs

  abbrev pub has_snapshot : List (Message N) → Bool
  has_snapshot [] = false
  has_snapshot (snapshot t ∷ msgs) = true
  has_snapshot (key k ∷ msgs) = has_snapshot msgs
  has_snapshot (window_size w h ∷ msgs) = has_snapshot msgs
  has_snapshot (tick ∷ msgs) = has_snapshot msgs
  has_snapshot (other ∷ msgs) = has_snapshot msgs

  -- the ticks among the messages
  abbrev pub ticks : List (Message N) → ℕ
  ticks [] = 0
  ticks (tick ∷ msgs) = suc (ticks msgs)
  ticks (key k ∷ msgs) = ticks msgs
  ticks (window_size w h ∷ msgs) = ticks msgs
  ticks (snapshot s ∷ msgs) = ticks msgs
  ticks (other ∷ msgs) = ticks msgs

  -- the intervals of the ticks that are asked for
  abbrev pub asked : List (Command N) → List ℤ
  asked [] = []
  asked (fetch_and_tick e ∷ cs) = e ∷ asked cs
  asked (nothing ∷ cs) = asked cs
  asked (quit ∷ cs) = asked cs
  asked (fetch ∷ cs) = asked cs

  press-same : (m : Model N) (k : Text) → (press N m k).0 ≡ m
  unfolding press
  press-same m k = ground arith

  or_true : (b : Bool) → (b || true) ≡ true
  or_true true = refl
  or_true false = refl

  -- what a run keeps and what it takes in, from any model
  Shows : Model N → Model N → List (Message N) → Type 0
  Shows m n msgs =
      (n.snap ≡ last_snapshot m.snap msgs)
      × (n.loaded ≡ (m.loaded || has_snapshot msgs))
      × (n.endpoint ≡ m.endpoint)
      × (n.every ≡ m.every)

  or_false : (b : Bool) → b ≡ (b || false)
  or_false true = refl
  or_false false = refl

  run-Shows : (m : Model N) (msgs : List (Message N)) → Shows m (run m msgs) msgs
  unfolding Shows update
  run-Shows m [] = (refl, or_false m.loaded, refl, refl)
  run-Shows m (key k ∷ msgs) = rw (press-same m k, run) (run-Shows m msgs)
  run-Shows m (window_size w h ∷ msgs) = run-Shows (record m { width = w; height = h }) msgs
  run-Shows m (tick ∷ msgs) = run-Shows m msgs
  run-Shows m (other ∷ msgs) = run-Shows m msgs
  run-Shows m (snapshot s ∷ msgs) =
      let (a, b, c, d) = run-Shows (record m { snap = s; loaded = true }) msgs in
      (a, b ∙ sym (or_true m.loaded), c, d)

  -- After any messages the dashboard shows the last snapshot that came in, or none yet if none did, and
  -- its endpoint and its interval are those that it was made with; the interval is a second if a
  -- shorter one was asked for.
  pub run-shown :
      (endpoint : Text) (every : ℤ) (msgs : List (Message N))
      → ((run (new_model N endpoint every) msgs).snap
          ≡ last_snapshot (new_model N endpoint every).snap msgs)
        × ((run (new_model N endpoint every) msgs).loaded ≡ has_snapshot msgs)
        × ((run (new_model N endpoint every) msgs).endpoint ≡ endpoint)
        × ((run (new_model N endpoint every) msgs).every
            ≡ (if below_second every then second else every))
        × (below_second (run (new_model N endpoint every) msgs).every ≡ false)
  unfolding Shows new_model
  run-shown endpoint every msgs =
      let (a, b, c, d) = run-Shows (new_model N endpoint every) msgs in
      (a, b, c, d, ap below_second d ∙ long_enough every)

  asked-press :
      (m : Model N) (k : Text) (cs : List (Command N)) → asked ((press N m k).1 ∷ cs) ≡ asked cs
  unfolding press
  asked-press m k cs = ground arith

  asked-run :
      (m : Model N) (msgs : List (Message N))
      → asked (commands m msgs) ≡ repeat (ticks msgs) m.every
  unfolding update
  asked-run m [] = refl
  asked-run m (key k ∷ msgs) = asked-press m k _ ∙ rw (press-same m k) (asked-run m msgs)
  asked-run m (window_size w h ∷ msgs) = asked-run (record m { width = w; height = h }) msgs
  asked-run m (tick ∷ msgs) = ap (λ ds. m.every ∷ ds) (asked-run m msgs)
  asked-run m (other ∷ msgs) = asked-run m msgs
  asked-run m (snapshot s ∷ msgs) = asked-run (record m { snap = s; loaded = true }) msgs

  -- The ticker neither stops nor doubles: from its start on, the dashboard has always asked for one tick
  -- more than have come in, each after its interval, whatever else came in between, keys and window
  -- sizes included.
  pub asked-commands :
      (m : Model N) (msgs : List (Message N))
      → asked (init N m ∷ commands m msgs) ≡ repeat (suc (ticks msgs)) m.every
  unfolding init
  asked-commands m msgs = ap (λ ds. m.every ∷ ds) (asked-run m msgs)

nonzero : (n : ℕ) → (suc n == 0) ≡ false
nonzero n = ground arith

lines_up_to-short :
    (foot : Text → Text) (k total : ℕ) (os : List Text)
    → length os ≤ k
    → lines_up_to foot k total os ≡ map bullet os
unfolding lines_up_to
lines_up_to-short foot k total [] h = refl
lines_up_to-short foot zero total (o ∷ os) h = absurd (omega (arith, h))
lines_up_to-short foot (suc n) total (o ∷ os) h =
    ap (λ ls. bullet o ∷ ls) (lines_up_to-short foot n total os (omega (arith, h)))

lines_up_to-long :
    (foot : Text → Text) (k total : ℕ) (os : List Text)
    → k < length os
    → lines_up_to foot k total os
      ≡ map bullet (take k os)
        ++ foot (codes "... and " ++ (itoa (pos (total - 12)) ++ codes " more")) ∷ []
unfolding lines_up_to
lines_up_to-long foot k total [] h = absurd (omega (arith, h))
lines_up_to-long foot zero total (o ∷ os) h = refl
lines_up_to-long foot (suc n) total (o ∷ os) h =
    ap (λ ls. bullet o ∷ ls) (lines_up_to-long foot n total os (omega (arith, h)))

-- The panel of objects: "(none)" for no object, all of up to 12 objects, and otherwise the first 12 and
-- a line with the number of the others.
pub object_lines-panel :
    (foot : Text → Text) (os : List Text)
    → object_lines foot os ≡ (
        if length os == 0
        then foot (codes "(none)") ∷ []
        else if leb (length os) 12
        then map bullet os
        else map bullet (take 12 os)
          ++ foot (codes "... and " ++ (itoa (pos (length os - 12)) ++ codes " more")) ∷ [])
unfolding object_lines lines_up_to
object_lines-panel foot [] = refl
object_lines-panel foot (o ∷ os) = elim (Bool-cases (leb (length (o ∷ os)) 12)) [
  | inl e ↦
      rw
        (
          lines_up_to-short foot 12 (length (o ∷ os)) (o ∷ os) (ground arith),
          e,
          nonzero (length os),
        )
        refl
  | inr e ↦
      rw
        (lines_up_to-long foot 12 (length (o ∷ os)) (o ∷ os) (ground arith), e, nonzero (length os))
        refl
]
