-- ===== src/Text/Case.antt =====
-- strings.ToLower and strings.ToUpper, byte by byte on ASCII letters.
use dezhan.Base.{
  ℕ, zero, suc, ◌+◌, ◌-◌, ◌≡◌, refl, ap, Bool, ◌&&◌, [], ◌∷◌, map, ◌++◌, arith, leb, if◌then◌else◌,
  length, take,
}
use dezhan.Text.Equal.{Text}

is_upper : ℕ → Bool
is_upper c = leb b'A' c && leb c b'Z'

is_lower : ℕ → Bool
is_lower c = leb b'a' c && leb c b'z'

unfoldable pub lower : ℕ → ℕ
unfolding is_upper
lower c = if is_upper c then c + 32 else c

unfoldable pub upper : ℕ → ℕ
unfolding is_lower
upper c = if is_lower c then c - 32 else c

unfoldable pub to_lower : Text → Text
unfolding lower
to_lower = map lower

unfoldable pub to_upper : Text → Text
unfolding upper
to_upper = map upper

-- No byte is an upper case letter.
abbrev pub IsLower : Text → Type 0
IsLower [] = Unit
IsLower (c ∷ s) = (lower c ≡ c) × IsLower s

pub lower_idem : (c : ℕ) → lower (lower c) ≡ lower c
unfolding lower
lower_idem c = ground arith

pub to_lower-IsLower : (s : Text) → IsLower (to_lower s)
unfolding to_lower
to_lower-IsLower [] = tt
to_lower-IsLower (c ∷ s) = (lower_idem c, to_lower-IsLower s)

pub to_lower_of_IsLower : (s : Text) → IsLower s → to_lower s ≡ s
unfolding to_lower
to_lower_of_IsLower [] h = refl
to_lower_of_IsLower (c ∷ s) (e, h) = cc (e, to_lower_of_IsLower s h)

pub length-to_lower : (s : Text) → length (to_lower s) ≡ length s
unfolding to_lower
length-to_lower [] = refl
length-to_lower (c ∷ s) = ap suc (length-to_lower s)

pub IsLower-take : (n : ℕ) (s : Text) → IsLower s → IsLower (take n s)
IsLower-take zero s h = tt
IsLower-take (suc n) [] h = tt
IsLower-take (suc n) (c ∷ s) h = (h.0, IsLower-take n s h.1)

pub IsLower-append : (s t : Text) → IsLower s → IsLower t → IsLower (s ++ t)
IsLower-append [] t hs ht = ht
IsLower-append (c ∷ s) t hs ht = (hs.0, IsLower-append s t hs.1 ht)
