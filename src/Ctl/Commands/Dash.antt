-- ===== src/Ctl/Commands/Dash.antt =====
-- The dashboard command of ctl/cmd/dashboard.go, with its plain snapshot, and ctl/cmd/completion.go.
-- bubbletea's program and cobra's generators are arguments.
use dezhan.Base.{
  ℕ, ◌++◌, [], ◌∷◌, List, Bool, true, false, not, Option, none, some, if◌then◌else◌, length, Result,
  ok, Exec, pure, ◌>>=◌,
}
use dezhan.Text.{Text, codes, ℤ, pos, itoa, text_eq}
use dezhan.Ctl.Http.{Http}
use dezhan.Ctl.Client.{Client, health, version, list}
use dezhan.Ctl.Metrics.{Floats, Metrics, metrics}
use dezhan.Ctl.Commands.{Shell}
use dezhan.Ctl.Dashboard.{Model, new_model, fetch_once, value_or}
use dezhan.Ctl.Dashboard.View.{Lipgloss, Numbers, view, value, all_of}

-- "%v" of a truth value
abbrev pub bool_text : Bool → Text
bool_text true = codes "true"
bool_text false = codes "false"

-- the scripts that cobra writes
pub record Completions (W : Type 0) : Type 0 where
  pub bash : W → Option Text × W
  pub zsh : W → Option Text × W
  pub fish : W → Option Text × W
  pub powershell : W → Option Text × W

-- nil for another shell, which ValidArgs has ruled out
unfoldable pub completion_command : {W : Type 0} → Completions W → Text → W → Option Text × W
unfolding text_eq
completion_command c shell w =
    if text_eq shell (codes "bash")
    then c.bash w
    else if text_eq shell (codes "zsh")
    then c.zsh w
    else if text_eq shell (codes "fish")
    then c.fish w
    else if text_eq shell (codes "powershell")
    then c.powershell w
    else (none, w)

module _ (N : Floats) (L : Lipgloss) (P : Numbers N.F) (H : Http) (sh : Shell N.F H.World) where
  -- v, _ := call
  abbrev dropping : {A : Type 0} → A → Exec H.World Text A → Exec H.World Text A
  dropping d call w = let (r, w') = call w in (ok (value_or d r), w')

  unfoldable pub snapshot_text : Text → Text → Text → Metrics N.F → List Text → Text
  unfolding itoa
  snapshot_text endpoint h v m names = all_of (
      codes "endpoint  "
      ∷ endpoint
      ∷ codes "\n"
      ∷ codes "health    "
      ∷ h
      ∷ codes "\n"
      ∷ codes "version   "
      ∷ v
      ∷ codes "\n"
      ∷ codes "sealed    "
      ∷ bool_text (not (P.is_zero (value N L P m (codes "dezhan_sealed"))))
      ∷ codes "\n"
      ∷ codes "objects   "
      ∷ P.fixed0 (value N L P m (codes "dezhan_objects"))
      ∷ codes "\n"
      ∷ codes "stored    "
      ∷ P.fixed0 (value N L P m (codes "dezhan_storage_bytes"))
      ∷ codes " bytes\n"
      ∷ codes "audit     "
      ∷ P.fixed0 (value N L P m (codes "dezhan_audit_entries"))
      ∷ codes " entries\n"
      ∷ codes "quarantd  "
      ∷ P.fixed0 (value N L P m (codes "dezhan_quarantined"))
      ∷ codes "\n"
      ∷ codes "scrubs    "
      ∷ P.fixed0 (value N L P m (codes "dezhan_scrub_runs"))
      ∷ codes " (repaired "
      ∷ P.fixed0 (value N L P m (codes "dezhan_scrub_shards_repaired"))
      ∷ codes " shards)\n"
      ∷ codes "listed    "
      ∷ itoa (pos (length names))
      ∷ codes " objects\n"
      ∷ [])

  -- a panic of the metrics parser is none
  abbrev print_snapshot :
      Client → Text → Text → Text → Option (Metrics N.F) → Exec H.World Text (Option (Unit {0}))
  print_snapshot c endpoint h v none = pure none
  print_snapshot c endpoint h v (some m) = do
    names ← dropping [] (list H c)
    λ w. (ok (some tt), sh.print (snapshot_text endpoint h v m names) w)

  unfoldable pub snapshot : Client → Text → Exec H.World Text (Option (Unit {0}))
  unfolding snapshot_text
  snapshot c endpoint = do
    h ← health H c
    v ← dropping [] (version H c)
    m ← metrics N H c
    print_snapshot c endpoint h v m

  -- The frame of `--frame`; none for a panic of the fetch.
  abbrev print_frame : Option (Model N) × H.World → Result Text (Option (Unit {0})) × H.World
  print_frame (none, w) = (ok none, w)
  print_frame (some m, w) = (ok (some tt), sh.print (view N L P m ++ codes "\n") w)

  -- `program` runs the live view.
  unfoldable pub dashboard_command :
      Client
      → Text
      → ℤ
      → ℕ
      → Bool
      → Bool
      → (Model N → H.World → Result Text (Option (Unit {0})) × H.World)
      → Exec H.World Text (Option (Unit {0}))
  unfolding snapshot view fetch_once new_model
  dashboard_command c endpoint every now once frame program w =
      if once
      then snapshot c endpoint w
      else if frame
      then print_frame (fetch_once N H c now (new_model N endpoint every) 0 w)
      else program (new_model N endpoint every) w
