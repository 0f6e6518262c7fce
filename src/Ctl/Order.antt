-- ===== src/Ctl/Order.antt =====
-- sort.Strings: texts in the order of their bytes.
use dezhan.Base.{
  ◌≡◌, ◌↔◌, ◌⊎◌, refl, Bool, true, false, ◌&&◌, ◌||◌, List, [], ◌∷◌, arith, ltb, ◌==◌,
  if◌then◌else◌, inl, inr, Bool-cases, In,
}
use dezhan.Text.{Text}

unfoldable pub text_le : Text → Text → Bool
text_le [] t = true
text_le (c ∷ s) [] = false
text_le (c ∷ s) (d ∷ t) = ltb c d || (c == d && text_le s t)

place : Text → List Text → List Text
place s [] = s ∷ []
place s (t ∷ ts) = if text_le s t then s ∷ t ∷ ts else t ∷ place s ts

unfoldable pub sort : List Text → List Text
unfolding text_le place
sort [] = []
sort (s ∷ ss) = place s (sort ss)

-- Each text is at most the next one.
abbrev pub IsSorted : List Text → Type 0
IsSorted [] = Unit
IsSorted (s ∷ []) = Unit
IsSorted (s ∷ t ∷ ts) = (text_le s t ≡ true) × IsSorted (t ∷ ts)

text_le_total : (s t : Text) → text_le s t ≡ false → text_le t s ≡ true
unfolding text_le
text_le_total [] t h = cc
text_le_total (c ∷ s) [] h = refl
text_le_total (c ∷ s) (d ∷ t) h = ground (arith, text_le_total s t)

place-after :
    (u s : Text) (ts : List Text)
    → text_le u s ≡ true
    → IsSorted (u ∷ ts)
    → IsSorted (place s ts)
    → IsSorted (u ∷ place s ts)
unfolding place
place-after u s [] h k m = (h, tt)
place-after u s (t ∷ ts) h k m = elim (Bool-cases (text_le s t)) [
  | inl e ↦ rw (e, place) (h, (e, k.1))
  | inr e ↦ rw (e, place) (k.0, rw (e, place) at m)
]

place-IsSorted : (s : Text) (ts : List Text) → IsSorted ts → IsSorted (place s ts)
unfolding place
place-IsSorted s [] h = tt
place-IsSorted s (t ∷ ts) h = elim (Bool-cases (text_le s t)) [
  | inl e ↦ rw (e, place) (e, h)
  | inr e ↦
      rw (e, place) (place-after t s ts (text_le_total s t e) h (place-IsSorted s ts (tail t ts h)))
]
  where
    tail : (t : Text) (ts : List Text) → IsSorted (t ∷ ts) → IsSorted ts
    tail t [] h = tt
    tail t (u ∷ ts) h = h.1

pub sort-IsSorted : (ss : List Text) → IsSorted (sort ss)
unfolding sort
sort-IsSorted [] = tt
sort-IsSorted (s ∷ ss) = place-IsSorted s (sort ss) (sort-IsSorted ss)

past : {P Q R X : Type 0} → (X → Q ⊎ R) → P ⊎ X → Q ⊎ (P ⊎ R)
past f (inl p) = inr (inl p)
past f (inr x) = elim (f x) [ inl q ↦ inl q | inr r ↦ inr (inr r) ]

back : {P Q R X : Type 0} → (Q ⊎ R → X) → Q ⊎ (P ⊎ R) → P ⊎ X
back g (inl q) = inr (g (inl q))
back g (inr (inl p)) = inl p
back g (inr (inr r)) = inr (g (inr r))

In-place : (a s : Text) (ts : List Text) → In a (place s ts) ↔ ((a ≡ s) ⊎ In a ts)
unfolding place
In-place a s [] = (λ h. h, λ h. h)
In-place a s (t ∷ ts) = elim (Bool-cases (text_le s t)) [
  | inl e ↦ rw (e, place) (λ h. h, λ h. h)
  | inr e ↦ rw (e, place) (past (In-place a s ts).0, back (In-place a s ts).1)
]

under : {P Q R : Type 0} → (Q → R) → P ⊎ Q → P ⊎ R
under f (inl p) = inl p
under f (inr q) = inr (f q)

-- Sorting neither loses nor adds a text.
pub In-sort : (a : Text) (ss : List Text) → In a (sort ss) ↔ In a ss
unfolding sort
In-sort a [] = (λ h. h, λ h. h)
In-sort a (s ∷ ss) = (
  λ h. under (In-sort a ss).0 ((In-place a s (sort ss)).0 h),
  λ h. (In-place a s (sort ss)).1 (under (In-sort a ss).1 h),
)
