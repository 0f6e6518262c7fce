-- ===== src/Ctl/Metrics/Lines.antt =====
-- About the metrics parser of ctl/internal/client/client.go on any body.
use dezhan.Base.{
  ◌≡◌, ◌≢◌, refl, subst, [], ◌∷◌, List, true, false, ◌||◌, Option, none, some, arith, inl, inr,
  Bool-cases,
}
use dezhan.Text.{Text, codes, trim_space, is_space, cut, fields, has_prefix}
use dezhan.Text.Trim.{ends_without, trim_space-ends, ends_without-rest}
use dezhan.Text.Split.{cut_split, fields-ne}
use dezhan.Csi.Conn.{is_empty}
use dezhan.Ctl.Metrics.{Floats, Metrics, set_value, add_sample, add_line, add_lines, parse_metrics}

not_skipped : (line : Text) → (is_empty line || has_prefix line (codes "#")) ≡ false → line ≢ []
not_skipped [] h = cc
not_skipped (c ∷ line) h = ground arith

module _ (N : Floats) where
  set_value-some :
      (m : Metrics N.F) (name : Text) (fs : List Text) → fs ≢ [] → set_value N m name fs ≢ none
  unfolding set_value
  set_value-some m name [] h = absurd (h refl)
  set_value-some m name (f ∷ fs) h = ground arith

  add_sample-some :
      (m : Metrics N.F) (name rest : Text) → fields rest ≢ [] → add_sample N m name rest ≢ none
  unfolding add_sample
  add_sample-some m name rest h = elim (Bool-cases (cut name (codes "{")).found) [
    | inl e ↦ rw e (set_value-some _ _ (fields rest) h)
    | inr e ↦ rw e (set_value-some _ _ (fields rest) h)
  ]

  -- what stands behind the first space of a trimmed line has a field
  rest_has_field :
      (line : Text)
      → line ≢ []
      → ends_without is_space line ≡ true
      → (cut line (codes " ")).found ≡ true
      → fields (cut line (codes " ")).after ≢ []
  rest_has_field line n h f = fields-ne _ (
      ends_without-rest is_space (cut line (codes " ")).before 32 (cut line (codes " ")).after
        (unfold is_space in refl)
        (subst (λ t. ends_without is_space t ≡ true) (cut_split line (codes " ") f) h))

  add_line-some :
      (m : Metrics N.F) (line : Text)
      → (line ≢ [] → ends_without is_space line ≡ true)
      → add_line N m line ≢ none
  unfolding add_line
  add_line-some m line h = elim (Bool-cases (is_empty line || has_prefix line (codes "#"))) [
    | inl e ↦ rw e (ground arith)
    | inr e ↦ elim (Bool-cases (cut line (codes " ")).found) [
      | inl f ↦
          rw (e, f)
            (add_sample-some m (cut line (codes " ")).before (cut line (codes " ")).after
              (rest_has_field line (not_skipped line e) (h (not_skipped line e)) f))
      | inr f ↦ rw (e, f) (ground arith)
    ]
  ]

  add_lines-some : (m : Metrics N.F) (lines : List Text) → add_lines N m lines ≢ none
  unfolding add_lines
  add_lines-some m [] = ground arith
  add_lines-some m (line ∷ lines) =
      go (add_line N m (trim_space line)) (add_line-some m (trim_space line) (trim_space-ends line))
        (λ m'. add_lines-some m' lines)
    where
      go :
          (o : Option (Metrics N.F))
          → o ≢ none
          → ((m' : Metrics N.F) → add_lines N m' lines ≢ none)
          → (elim o [ none ↦ none | some m' ↦ add_lines N m' lines ]) ≢ none
      go none n k = absurd (n refl)
      go (some m') n k = k m'

  -- Parsing never panics, whatever the body is: every line that is read for a sample has a field behind
  -- its name, so that the first field is always there.
  pub parse_metrics-some : (body : Text) → (parse_metrics N body).0 ≢ none
  unfolding parse_metrics
  parse_metrics-some body = add_lines-some _ _
