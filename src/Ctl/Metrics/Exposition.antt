-- ===== src/Ctl/Metrics/Exposition.antt =====
-- About the metrics parser of ctl/internal/client/client.go on one sample to a line.
use dezhan.Base.{
  ℕ, ◌+◌, ◌<◌, ◌++◌, ◌≡◌, ◌≢◌, refl, ap, sym, ◌∙◌, [], ◌∷◌, List, true, false, ◌||◌, some, ◌==◌,
  arith, inl, inr, Bool-cases, All, length, length-append,
}
use dezhan.Text.{Text, codes, trim_space, trim_left, is_space, split, has_prefix}
use dezhan.Text.Trim.{ends_without, Keeps, trim_right_of_ends}
use dezhan.Text.Split.{Cut, split-ne}
use dezhan.Text.Split.Pieces.{
  is_byte, split-line, cut-at, cut-none, fields-one, Keeps-append, Keeps-weaken, trim_suffix-Keeps,
}
use dezhan.Dict.{Dict, insert}
use dezhan.Csi.Conn.{is_empty}
use dezhan.Ctl.Metrics.{
  Floats, Metrics, set_value, add_sample, add_line, add_lines, scan_lines, parse_metrics, drop_cr,
}

-- A name that can stand in front of a value: no white space, no brace, and not a comment.
pub record IsName (name : Text) : Type 0 where
  pub plain : Keeps is_space name
  pub braceless : Keeps (is_byte b'{') name
  pub named : name ≢ []
  pub no_comment : has_prefix name (codes "#") ≡ false

spaceless : (b c : ℕ) → is_space b ≡ true → is_space c ≡ false → is_byte b c ≡ false
spaceless b c h k = elim (Bool-cases (c == b)) [
  | inl e ↦ let same : c ≡ b = ground arith in absurd (clash (sym h ∙ ap is_space (sym same) ∙ k))
  | inr e ↦ e
]
  where
    clash : true ≢ false
    clash e = cc

-- a text without white space holds no given space
without : (b : ℕ) (s : Text) → is_space b ≡ true → Keeps is_space s → Keeps (is_byte b) s
without b s h = Keeps-weaken is_space (is_byte b) s (λ c. spaceless b c h)

uncommented :
    (name rest : Text)
    → name ≢ []
    → has_prefix name (codes "#") ≡ false
    → (is_empty (name ++ rest) || has_prefix (name ++ rest) (codes "#")) ≡ false
unfolding has_prefix
uncommented [] rest n h = absurd (n refl)
uncommented (c ∷ name) rest n h = ground arith

ends_plain : (s : Text) → s ≢ [] → Keeps is_space s → ends_without is_space s ≡ true
unfolding ends_without
ends_plain [] n h = absurd (n refl)
ends_plain (c ∷ []) n h = rw h.0 refl
ends_plain (c ∷ d ∷ s) n h = ends_plain (d ∷ s) cons-ne h.1
  where
    cons-ne : d ∷ s ≢ []
    cons-ne e = cc

ends-append : (s t : Text) → ends_without is_space t ≡ true → ends_without is_space (s ++ t) ≡ true
unfolding ends_without
ends-append [] t h = h
ends-append (c ∷ []) [] h = cc
ends-append (c ∷ []) (d ∷ t) h = h
ends-append (c ∷ d ∷ s) t h = ends-append (d ∷ s) t h

-- what begins and ends without white space is trimmed already
trimmed :
    (name rest : Text)
    → name ≢ []
    → Keeps is_space name
    → ends_without is_space (name ++ rest) ≡ true
    → trim_space (name ++ rest) ≡ name ++ rest
unfolding trim_space trim_left
trimmed [] rest n h e = absurd (n refl)
trimmed (c ∷ name) rest n h e = rw h.0 (trim_right_of_ends is_space (c ∷ (name ++ rest)) e)

module _ (N : Floats) where
  -- A sample: a name, how its value is written, and the value.
  pub record Sample : Type 0 where
    pub name : Text
    pub written : Text
    pub value : N.F

  pub record IsSample (s : Sample) : Type 0 where
    pub is_name : IsName s.name
    pub plain : Keeps is_space s.written
    pub given : s.written ≢ []
    pub parsed : N.parse s.written ≡ some s.value
    pub short : length s.name + length s.written < 65535

  abbrev pub line_of : Sample → Text
  line_of s = s.name ++ 32 ∷ s.written

  abbrev pub exposition : List Sample → Text
  exposition [] = []
  exposition (s ∷ ss) = line_of s ++ 10 ∷ exposition ss

  -- the values, later samples of a name over earlier ones
  unfoldable pub collect : Dict N.F → List Sample → Dict N.F
  collect d [] = d
  collect d (s ∷ ss) = collect (insert s.name s.value d) ss

  add_sample-sample :
      (m : Metrics N.F) (s : Sample)
      → IsSample s
      → add_sample N m s.name s.written
        ≡ some (record m { values = insert s.name s.value m.values })
  unfolding add_sample set_value
  add_sample-sample m s k =
      rw
        (
          ap (λ (c : Cut). c.found) (cut-none s.name b'{' k.is_name.braceless),
          fields-one s.written k.given k.plain,
          set_value,
          k.parsed,
        )
        refl

  add_line-sample :
      (m : Metrics N.F) (s : Sample)
      → IsSample s
      → add_line N m (line_of s) ≡ some (record m { values = insert s.name s.value m.values })
  unfolding add_line
  add_line-sample m s k =
      let parts =
        cut-at s.name s.written 32 (without 32 s.name (unfold is_space in refl) k.is_name.plain) in
      rw
        (
          uncommented s.name (32 ∷ s.written) k.is_name.named k.is_name.no_comment,
          ap (λ (c : Cut). c.found) parts,
        )
        (ap (λ (c : Cut). add_sample N m c.before c.after) parts ∙ add_sample-sample m s k)

  scan_lines-cons :
      (line : Text) (ls : List Text)
      → ls ≢ []
      → length line < 65536
      → scan_lines (line ∷ ls) ≡ (drop_cr line ∷ (scan_lines ls).0, (scan_lines ls).1)
  unfolding scan_lines
  scan_lines-cons line [] n h = absurd (n refl)
  scan_lines-cons line (l ∷ ls) n h = ground arith

  line-trimmed : (s : Sample) → IsSample s → trim_space (line_of s) ≡ line_of s
  line-trimmed s k = trimmed s.name (32 ∷ s.written) k.is_name.named k.is_name.plain (
      ends-append s.name (32 ∷ s.written)
        (ends-append (32 ∷ []) s.written (ends_plain s.written k.given k.plain)))

  line-without :
      (b : ℕ) (s : Sample)
      → is_space b ≡ true
      → is_byte b 32 ≡ false
      → IsSample s
      → Keeps (is_byte b) (line_of s)
  line-without b s h n k =
      Keeps-append (is_byte b) s.name (32 ∷ s.written) (without b s.name h k.is_name.plain)
        (n, without b s.written h k.plain)

  line-short : (s : Sample) → IsSample s → length (line_of s) < 65536
  line-short s k = omega (arith, length-append s.name (32 ∷ s.written), k.short)

  scan-exposition :
      (s : Sample) (ss : List Sample)
      → IsSample s
      → scan_lines (split (exposition (s ∷ ss)) 10) ≡ (
        line_of s ∷ (scan_lines (split (exposition ss) 10)).0,
        (scan_lines (split (exposition ss) 10)).1,
      )
  scan-exposition s ss k =
      rw
        (
          split-line (line_of s) (exposition ss) 10
              (line-without 10 s (unfold is_space in refl) refl k),
          scan_lines-cons (line_of s) (split (exposition ss) 10) (split-ne (exposition ss) 10)
              (line-short s k),
          trim_suffix-Keeps (line_of s) 13 (line-without 13 s (unfold is_space in refl) refl k),
        )
        refl

  add-exposition :
      (ss : List Sample) (m : Metrics N.F)
      → All IsSample ss
      → (add_lines N m (scan_lines (split (exposition ss) 10)).0
          ≡ some (record m { values = collect m.values ss }))
        × ((scan_lines (split (exposition ss) 10)).1 ≡ false)
  unfolding add_lines collect
  add-exposition [] m h = unfold scan_lines split in (refl, refl)
  add-exposition (s ∷ ss) m (k, h) =
      rw (scan-exposition s ss k, add_lines, line-trimmed s k, add_line-sample m s k)
        (add-exposition ss (record m { values = insert s.name s.value m.values }) h)

  -- An exposition of one sample to a line is read back whole: every sample's value under its name, the
  -- last one where a name stands twice, and nothing else. Names and values have no white space, names
  -- no brace and no "#" in front, and a line is shorter than 65536 bytes.
  pub parse_metrics-exposition :
      (ss : List Sample)
      → All IsSample ss
      → parse_metrics N (exposition ss)
        ≡ (some (record { values = collect [] ss; version = []; raw = exposition ss }), false)
  unfolding parse_metrics
  parse_metrics-exposition ss h =
      let all = add-exposition ss (record { values = []; version = []; raw = exposition ss }) h in
      λ i. (all.0 i, all.1 i)
