-- ===== src/Ctl/Dashboard/View.antt =====
-- View of ctl/internal/tui/dashboard.go, over lipgloss, which colours and frames texts, and over the
-- arithmetic and the printing of float64, of times and of durations.
use dezhan.Base.{
  ℕ, zero, suc, ◌+◌, ◌-◌, ◌++◌, [], ◌∷◌, List, Bool, true, false, not, Option, none, some,
  if◌then◌else◌, ltb, length, take, drop,
}
use dezhan.Text.{Text, codes, ℤ, pos, itoa, to_upper, join, text_eq}
use dezhan.Dict.{lookup}
use dezhan.Csi.Conn.{is_empty}
use dezhan.Ctl.Metrics.{Floats, Metrics}
use dezhan.Ctl.Dashboard.{Snapshot, Model, nz, object_lines}

-- lipgloss's styles, made from a new one by its methods, and JoinHorizontal at the top
pub record Lipgloss : Type 1 where
  pub Style : Type 0
  pub new_style : Style
  pub bold : Style → Style
  pub foreground : Text → Style → Style
  pub background : Text → Style → Style
  pub padding : ℕ → ℕ → Style → Style
  pub rounded_border : Style → Style
  pub border_foreground : Text → Style → Style
  pub width : ℕ → Style → Style
  pub render : Style → Text → Text
  pub join_horizontal : List Text → Text

-- float64: comparisons, division, 1024.0 and the verbs %.0f and %.1f; and how a time and a duration
-- are printed
pub record Numbers (F : Type 0) : Type 0 where
  pub unit : F
  pub is_zero : F → Bool
  pub lt : F → F → Bool
  pub le : F → F → Bool
  pub div : F → F → F
  pub fixed0 : F → Text
  pub fixed1 : F → Text
  pub clock : ℕ → Text
  pub duration : ℤ → Text

abbrev pub all_of : List Text → Text
all_of [] = []
all_of (t ∷ ts) = t ++ all_of ts

abbrev pub row_end : ℕ → List Text → ℕ
row_end i cards = if ltb (length cards) (i + 4) then length cards else i + 4

-- cards[i:end], with end cut to the number of cards, for i = 0, 4, ...
unfoldable pub card_rows : ℕ → ℕ → List Text → List (List Text)
card_rows zero i cards = []
card_rows (suc fuel) i cards =
    let rest = card_rows fuel (i + 4) cards in
    if ltb i (length cards) then take (row_end i cards - i) (drop i cards) ∷ rest else []

abbrev pub c_blue : Text
c_blue = codes "39"

abbrev pub c_green : Text
c_green = codes "42"

abbrev pub c_red : Text
c_red = codes "196"

abbrev pub c_amber : Text
c_amber = codes "214"

abbrev pub c_gray : Text
c_gray = codes "245"

abbrev pub c_faint : Text
c_faint = codes "240"

-- the units after KiB
abbrev pub larger_units : List Text
larger_units = codes "MiB" ∷ codes "GiB" ∷ codes "TiB" ∷ codes "PiB" ∷ []

-- "\n"
abbrev pub nl : Text
nl = 10 ∷ []

module _ (N : Floats) (L : Lipgloss) (P : Numbers N.F) where
  abbrev pub title_style : L.Style
  title_style =
      L.padding 0 1 (L.background c_blue (L.foreground (codes "231") (L.bold L.new_style)))

  abbrev pub panel_style : L.Style
  panel_style = L.padding 0 1 (L.border_foreground c_faint (L.rounded_border L.new_style))

  abbrev pub label_style : L.Style
  label_style = L.foreground c_gray L.new_style

  abbrev pub value_style : L.Style
  value_style = L.foreground (codes "231") (L.bold L.new_style)

  abbrev pub foot_style : L.Style
  foot_style = L.foreground c_faint L.new_style

  abbrev pub stat : Text → Text → Text
  stat label value =
      L.render (L.width 20 panel_style)
        (L.render value_style value ++ (nl ++ L.render label_style label))

  abbrev pub kv : Text → Text → Text
  kv label value = L.render label_style (label ++ codes " ") ++ value

  abbrev pub on_colour : Text → Text → L.Style
  on_colour ink c = L.padding 0 1 (L.background c (L.foreground ink (L.bold L.new_style)))

  abbrev pub badge : Bool → Text → Text
  badge good text = L.render (on_colour (codes "231") (if not good then c_red else c_green)) text

  abbrev pub bool_badge : Bool → Bool → Text
  bool_badge danger state =
      L.render (on_colour (codes "16") (if danger then c_amber else c_green))
        (if state then codes "yes" else codes "no")

  abbrev pub warn_num : N.F → Text
  warn_num v =
      if P.lt N.zero v
      then L.render (L.bold (L.foreground c_red L.new_style)) (P.fixed0 v)
      else P.fixed0 v

  -- The loop over the units: the last one is kept whatever the value is.
  unfoldable pub scale : Text → List Text → N.F → Text
  scale u [] v = P.fixed1 v ++ (codes " " ++ u)
  scale u (next ∷ more) v =
      let rest = scale next more (P.div v P.unit) in
      if P.le P.unit v then rest else P.fixed1 v ++ (codes " " ++ u)

  unfoldable pub human : N.F → Text
  unfolding scale
  human bytes =
      if P.lt bytes P.unit
      then P.fixed0 bytes ++ codes " B"
      else scale (codes "KiB") larger_units (P.div bytes P.unit)

  abbrev or_zero : Option N.F → N.F
  or_zero none = N.zero
  or_zero (some v) = v

  -- Get: the zero value for a missing key
  abbrev pub value : Metrics N.F → Text → N.F
  value m name = or_zero (lookup name m.values)

  abbrev pub count : Metrics N.F → Text → Text
  count m name = P.fixed0 (value m name)

  unfoldable pub cards : Metrics N.F → List Text
  unfolding human lookup
  cards m =
      stat (codes "objects") (count m (codes "dezhan_objects"))
      ∷ stat (codes "stored") (human (value m (codes "dezhan_storage_bytes")))
      ∷ stat (codes "audit entries") (count m (codes "dezhan_audit_entries"))
      ∷ stat (codes "quarantined") (warn_num (value m (codes "dezhan_quarantined")))
      ∷ stat (codes "retention denied") (count m (codes "dezhan_retention_denied_total"))
      ∷ stat (codes "scrub runs") (count m (codes "dezhan_scrub_runs"))
      ∷ stat (codes "shards repaired") (count m (codes "dezhan_scrub_shards_repaired"))
      ∷ stat (codes "trusted time") (count m (codes "dezhan_trusted_time") ++ codes "s")
      ∷ []

  abbrev pub row_texts : List (List Text) → Text
  row_texts [] = []
  row_texts (r ∷ rs) = L.join_horizontal r ++ (nl ++ row_texts rs)

  unfoldable pub card_panel : Option (Metrics N.F) → Text
  unfolding cards card_rows
  card_panel none = []
  card_panel (some m) = row_texts (card_rows (length (cards m)) 0 (cards m))

  abbrev pub title_line : Text → Text → Text
  title_line endpoint version =
      L.render title_style (codes " dezhan vault ")
      ++ (L.render label_style (codes "  " ++ endpoint)
          ++ ((if is_empty version then [] else L.render label_style (codes "  " ++ version))
              ++ codes "\n\n"))

  abbrev pub metric_badges : Option (Metrics N.F) → Text
  metric_badges none = []
  metric_badges (some m) =
      let sealed = not (P.is_zero (value m (codes "dezhan_sealed"))) in
      codes "   "
      ++ (kv (codes "sealed") (bool_badge sealed sealed)
          ++ ((if not (P.is_zero (value m (codes "dezhan_ingest_only")))
                then codes "   " ++ badge false (codes "INGEST-ONLY")
                else [])
              ++ (if not (P.is_zero (value m (codes "dezhan_sync_window_open")))
                  then codes "   " ++ badge true (codes "SYNC-WINDOW OPEN")
                  else [])))

  abbrev pub status_line : Snapshot N → Text
  status_line s =
      codes "  "
      ++ (badge (text_eq s.health (codes "ok")) (to_upper (nz s.health (codes "down")))
          ++ (metric_badges s.metrics ++ codes "\n\n"))

  abbrev pub object_panel : List Text → Text
  object_panel objects =
      L.render label_style (codes "objects (" ++ (itoa (pos (length objects)) ++ codes ")"))
      ++ (nl
          ++ (L.render panel_style (join (object_lines (L.render foot_style) objects) nl)
              ++ codes "\n\n"))

  abbrev pub error_line : Option Text → Text
  error_line none = []
  error_line (some e) = L.render (L.foreground c_red L.new_style) (codes "  " ++ e) ++ nl

  -- " · " in UTF-8
  abbrev pub dot : Text
  dot = 32 ∷ 194 ∷ 183 ∷ 32 ∷ []

  abbrev pub footer : ℕ → ℤ → Text
  footer at every = L.render foot_style (
      codes "  updated "
      ++ (P.clock at
          ++ (dot
              ++ (codes "refresh "
                  ++ (P.duration every ++ (dot ++ codes "[r] refresh  [q] quit"))))))

  unfoldable pub view : Model N → Text
  unfolding card_panel object_lines lookup to_upper itoa join text_eq
  view m =
      if not m.loaded
      then codes "\n  connecting to " ++ (m.endpoint ++ codes " ...\n")
      else title_line m.endpoint m.snap.version
        ++ (status_line m.snap
            ++ (card_panel m.snap.metrics
                ++ (nl
                    ++ (object_panel m.snap.objects
                        ++ (error_line m.snap.error ++ footer m.snap.at m.every)))))
