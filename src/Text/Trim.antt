-- ===== src/Text/Trim.antt =====
-- strings.TrimSpace, strings.TrimRight and strings.Trim with a set of bytes.
use dezhan.Base.{
  ℕ, ◌≡◌, refl, ◌≢◌, ◌∙◌, ap, Bool, true, false, not, ◌&&◌, ◌||◌, [], ◌∷◌, ◌++◌, arith, leb, ◌==◌,
  if◌then◌else◌,
}
use dezhan.Text.Equal.{Text}

-- ASCII white space: tab, newline, vertical tab, form feed, carriage return, space
unfoldable pub is_space : ℕ → Bool
is_space c = c == 32 || (leb 9 c && leb c 13)

unfoldable pub trim_left : (ℕ → Bool) → Text → Text
trim_left p [] = []
trim_left p (c ∷ s) = let rest = trim_left p s in if p c then rest else c ∷ s

push_unless : Bool → ℕ → Text → Text
push_unless true c [] = []
push_unless _ c s = c ∷ s

unfoldable pub trim_right : (ℕ → Bool) → Text → Text
unfolding push_unless
trim_right p [] = []
trim_right p (c ∷ s) = push_unless (p c) c (trim_right p s)

unfoldable pub trim_space : Text → Text
unfolding is_space trim_left trim_right
trim_space s = trim_right is_space (trim_left is_space s)

-- The last byte fails the test `p`, and there is one.
unfoldable pub ends_without : (ℕ → Bool) → Text → Bool
ends_without p [] = false
ends_without p (c ∷ []) = not (p c)
ends_without p (c ∷ d ∷ s) = ends_without p (d ∷ s)

push-ends :
    (p : ℕ → Bool) (b : Bool) (c : ℕ) (s : Text)
    → (s ≢ [] → ends_without p s ≡ true)
    → b ≡ p c
    → push_unless b c s ≢ []
    → ends_without p (push_unless b c s) ≡ true
unfolding ends_without push_unless
push-ends p true c [] h e n = absurd (n refl)
push-ends p false c [] h e n = ground arith
push-ends p true c (d ∷ s) h e n = h (ground arith)
push-ends p false c (d ∷ s) h e n = h (ground arith)

-- What is left after trimming on the right ends in a byte that stays.
pub trim_right-ends :
    (p : ℕ → Bool) (s : Text) → trim_right p s ≢ [] → ends_without p (trim_right p s) ≡ true
unfolding trim_right
trim_right-ends p [] h = absurd (h refl)
trim_right-ends p (c ∷ s) h = push-ends p (p c) c (trim_right p s) (trim_right-ends p s) refl h

pub trim_space-ends : (s : Text) → trim_space s ≢ [] → ends_without is_space (trim_space s) ≡ true
unfolding trim_space
trim_space-ends s h = trim_right-ends is_space (trim_left is_space s) h

-- If a text that ends so is cut in front of a byte that would be trimmed, the rest ends so too.
pub ends_without-rest :
    (p : ℕ → Bool) (a : Text) (c : ℕ) (r : Text)
    → p c ≡ true
    → ends_without p (a ++ c ∷ r) ≡ true
    → ends_without p r ≡ true
unfolding ends_without
ends_without-rest p [] c [] pc h = ground arith
ends_without-rest p [] c (d ∷ r) pc h = h
ends_without-rest p (b ∷ []) c r pc h = ends_without-rest p [] c r pc h
ends_without-rest p (b ∷ d ∷ a) c r pc h = ends_without-rest p (d ∷ a) c r pc h

-- Nothing of a text without bytes to trim is trimmed.
abbrev pub Keeps : (ℕ → Bool) → Text → Type 0
Keeps p [] = Unit
Keeps p (c ∷ s) = (p c ≡ false) × Keeps p s

trim_left-Keeps : (p : ℕ → Bool) (s : Text) → Keeps p s → trim_left p s ≡ s
unfolding trim_left
trim_left-Keeps p [] h = refl
trim_left-Keeps p (c ∷ s) h = ground arith

trim_right-Keeps : (p : ℕ → Bool) (s : Text) → Keeps p s → trim_right p s ≡ s
unfolding trim_right push_unless
trim_right-Keeps p [] h = refl
trim_right-Keeps p (c ∷ s) h = rw (h.0, trim_right-Keeps p s h.1)

pub trim_space-Keeps : (s : Text) → Keeps is_space s → trim_space s ≡ s
unfolding trim_space
trim_space-Keeps s h =
    ap (trim_right is_space) (trim_left-Keeps is_space s h) ∙ trim_right-Keeps is_space s h

push_unless-ne : (b : Bool) (c : ℕ) (s : Text) → push_unless b c s ≢ [] → push_unless b c s ≡ c ∷ s
unfolding push_unless
push_unless-ne true c [] h = absurd (h refl)
push_unless-ne true c (d ∷ s) h = refl
push_unless-ne false c s h = refl

pub trim_right_of_ends : (p : ℕ → Bool) (s : Text) → ends_without p s ≡ true → trim_right p s ≡ s
unfolding trim_right ends_without push_unless
trim_right_of_ends p [] h = cc
trim_right_of_ends p (c ∷ []) h = ground arith
trim_right_of_ends p (c ∷ d ∷ s) h = rw (trim_right_of_ends p (d ∷ s) h) (ground arith)

-- Trimming on the right a second time changes nothing.
pub trim_right_idem : (p : ℕ → Bool) (s : Text) → trim_right p (trim_right p s) ≡ trim_right p s
unfolding trim_right
trim_right_idem p s = go (trim_right p s) refl
  where
    go : (t : Text) → trim_right p s ≡ t → trim_right p t ≡ t
    go [] e = refl
    go (c ∷ t) e =
        trim_right_of_ends p (c ∷ t) (rw e at (trim_right-ends p s (rw e (ground arith))))
