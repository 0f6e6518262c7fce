-- ===== src/Ctl/Metrics.antt =====
-- The metrics of the vault: Metrics, labelValue and their loop, ctl/internal/client/client.go.
pub mod Lines
pub mod Exposition
use dezhan.Base.{
  ℕ, ◌++◌, [], ◌∷◌, List, Bool, true, false, not, ◌||◌, ◌&&◌, Option, none, some, if◌then◌else◌,
  ◌==◌, ltb, length, Result, ok, err, Exec, pure, fail, ◌>>=◌, lift, continue,
}
use dezhan.Text.{
  Text, codes, trim_left, trim_right, trim_space, trim_suffix, split, cut, fields, text_eq,
  has_prefix,
}
use dezhan.Dict.{Dict, lookup, insert}
use dezhan.Csi.Conn.{is_empty}
use dezhan.Ctl.Http.{Http}
use dezhan.Ctl.Client.{Client, text, http_error, Call, no_headers}

-- float64 and strconv.ParseFloat, none for an error
pub record Floats : Type 1 where
  pub F : Type 0
  pub zero : F
  pub parse : Text → Option F

pub record Metrics (F : Type 0) : Type 0 where
  pub values : Dict F
  pub version : Text
  pub raw : Text

-- a trailing "\r" is not part of a line
abbrev pub drop_cr : Text → Text
drop_cr line = trim_suffix line (b'\r' ∷ [])

-- What bufio.Scanner makes of the pieces between newlines: an empty piece at the end is no line, and
-- a line of 65536 bytes or more ends the scan with an error, which the second part says.
unfoldable pub scan_lines : List Text → List Text × Bool
scan_lines [] = ([], false)
scan_lines (line ∷ []) =
    if is_empty line
    then ([], false)
    else if ltb (length line) 65536
    then (drop_cr line ∷ [], false)
    else ([], true)
scan_lines (line ∷ next ∷ lines) =
    let rest = scan_lines (next ∷ lines) in
    if ltb (length line) 65536 then (drop_cr line ∷ rest.0, rest.1) else ([], true)

is_quote : ℕ → Bool
is_quote c = c == b'"'

-- labelValue: the loop over the pieces between commas
unfoldable pub value_in : List Text → Text → Text
unfolding cut trim_space trim_left trim_right text_eq is_quote
value_in [] key = []
value_in (kv ∷ kvs) key =
    let rest = value_in kvs key in
    let pair = cut kv (codes "=") in
    if pair.found && text_eq (trim_space pair.before) key
    then trim_right is_quote (trim_left is_quote (trim_space pair.after))
    else rest

unfoldable pub label_value : Text → Text → Text
unfolding value_in split
label_value labels key = value_in (split labels b',') key

module _ (N : Floats) where
  -- `strings.Fields(rest)[0]` panics, which is none, where there is no field
  unfoldable pub set_value : Metrics N.F → Text → List Text → Option (Metrics N.F)
  unfolding insert
  set_value m name [] = none
  set_value m name (f ∷ fs) = elim (N.parse f) [
    | some v ↦ some (record m { values = insert name v m.values })
    | none ↦ some m
  ]

  -- the version label of the build information
  unfoldable pub set_version : Metrics N.F → Text → Text → Metrics N.F
  unfolding text_eq trim_suffix label_value
  set_version m base labels =
      if text_eq base (codes "dezhan_build_info")
      then record m { version = label_value (trim_suffix labels (codes "}")) (codes "version") }
      else m

  -- a line with a name and a rest
  unfoldable pub add_sample : Metrics N.F → Text → Text → Option (Metrics N.F)
  unfolding cut fields
  add_sample m name rest =
      let label = cut name (codes "{") in
      if label.found
      then set_value (set_version m label.before label.after) label.before (fields rest)
      else set_value m name (fields rest)

  -- the body of the loop, on a line without the white space around it
  unfoldable pub add_line : Metrics N.F → Text → Option (Metrics N.F)
  unfolding cut has_prefix
  add_line m line =
      if is_empty line || has_prefix line (codes "#")
      then some m
      else if (cut line (codes " ")).found
      then add_sample m (cut line (codes " ")).before (cut line (codes " ")).after
      else some m

  unfoldable pub add_lines : Metrics N.F → List Text → Option (Metrics N.F)
  unfolding trim_space
  add_lines m [] = some m
  add_lines m (line ∷ lines) = elim (add_line m (trim_space line)) [
    | none ↦ none
    | some m' ↦ add_lines m' lines
  ]

  -- The parse of a body: none for a panic, and whether the scan has ended with an error.
  unfoldable pub parse_metrics : Text → Option (Metrics N.F) × Bool
  unfolding split scan_lines
  parse_metrics body = (
    add_lines (record { values = []; version = []; raw = body }) (scan_lines (split body b'\n')).0,
    (scan_lines (split body b'\n')).1,
  )

  module _ (H : Http) (c : Client) where
    -- Metrics; the caller drops what comes beside an error
    unfoldable pub metrics : Call H c (Option (Metrics N.F))
    metrics = do
      r ← text H c (codes "GET") (codes "/metrics") no_headers []
      if r.code == 200
          then (if (parse_metrics r.body).1
              then fail (codes "bufio.Scanner: token too long")
              else pure (parse_metrics r.body).0)
          else fail (http_error (codes "metrics") r.code)

  -- Get: a metric's value, 0 where there is none
  unfoldable pub value_of : Metrics N.F → Text → N.F
  value_of m name = elim (lookup name m.values) [ none ↦ N.zero | some v ↦ v ]
