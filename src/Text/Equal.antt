-- ===== src/Text/Equal.antt =====
-- Byte strings, their literals, `==`, and the prefix and suffix functions of the package strings.
use Prim.Native.Char.{code}
use dezhan.Base.{
  ℕ, String, ◌≡◌, refl, ◌↔◌, Bool, true, false, ◌&&◌, List, [], ◌∷◌, ◌++◌, arith, ◌==◌,
  if◌then◌else◌, Option, none, some,
}

abbrev pub Text : Type 0
Text = List ℕ

-- The bytes of an ASCII literal.
abbrev pub codes : String → Text
codes String.[] = []
codes (String.◌∷◌ c s) = code c ∷ codes s

unfoldable pub text_eq : Text → Text → Bool
text_eq [] [] = true
text_eq [] (d ∷ t) = false
text_eq (c ∷ s) [] = false
text_eq (c ∷ s) (d ∷ t) = c == d && text_eq s t

pub text_eq_iff : (s t : Text) → (text_eq s t ≡ true) ↔ (s ≡ t)
unfolding text_eq
text_eq_iff [] [] = ground arith
text_eq_iff [] (d ∷ t) = ground arith
text_eq_iff (c ∷ s) [] = ground arith
text_eq_iff (c ∷ s) (d ∷ t) = ground (arith, text_eq_iff s t)

pub text_eq_refl : (s : Text) → text_eq s s ≡ true
text_eq_refl s = (text_eq_iff s s).1 refl

-- strings.HasPrefix
unfoldable pub has_prefix : Text → Text → Bool
has_prefix s [] = true
has_prefix [] (p ∷ ps) = false
has_prefix (c ∷ s) (p ∷ ps) = c == p && has_prefix s ps

-- What is left of `s` behind a prefix, if it has that prefix.
strip : Text → Text → Option Text
strip s [] = some s
strip [] (p ∷ ps) = none
strip (c ∷ s) (p ∷ ps) = let rest = strip s ps in if c == p then rest else none

-- strings.TrimPrefix
unfoldable pub trim_prefix : Text → Text → Text
unfolding strip
trim_prefix s p = elim (strip s p) [ none ↦ s | some rest ↦ rest ]

-- strings.TrimSuffix
unfoldable pub trim_suffix : Text → Text → Text
unfolding text_eq
trim_suffix [] suffix = []
trim_suffix (c ∷ s) suffix =
    let rest = trim_suffix s suffix in if text_eq (c ∷ s) suffix then [] else c ∷ rest

pub has_prefix-append : (p s : Text) → has_prefix (p ++ s) p ≡ true
unfolding has_prefix
has_prefix-append [] s = refl
has_prefix-append (c ∷ p) s = ground (arith, has_prefix-append p s)

strip-append : (p s : Text) → strip (p ++ s) p ≡ some s
unfolding strip
strip-append [] s = refl
strip-append (c ∷ p) s = ground (arith, strip-append p s)

pub trim_prefix-append : (p s : Text) → trim_prefix (p ++ s) p ≡ s
unfolding trim_prefix
trim_prefix-append p s = ground (arith, strip-append p s)

strip_of_no_prefix : (s p : Text) → has_prefix s p ≡ false → strip s p ≡ none
unfolding has_prefix strip
strip_of_no_prefix s [] h = ground arith
strip_of_no_prefix [] (p ∷ ps) h = refl
strip_of_no_prefix (c ∷ s) (p ∷ ps) h = ground (arith, strip_of_no_prefix s ps)

pub trim_prefix_of_no_prefix : (s p : Text) → has_prefix s p ≡ false → trim_prefix s p ≡ s
unfolding trim_prefix
trim_prefix_of_no_prefix s p h = ground (arith, strip_of_no_prefix s p)
