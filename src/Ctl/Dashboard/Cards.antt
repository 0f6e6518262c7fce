-- ===== src/Ctl/Dashboard/Cards.antt =====
-- The rows of cards and the units of sizes in ctl/internal/tui/dashboard.go.
use dezhan.Base.{
  ℕ, zero, suc, ◌+◌, ◌-◌, ◌≤◌, ◌<◌, ◌≡◌, ◌⊎◌, inl, inr, refl, sym, ap, ◌∙◌, ◌++◌, [], ◌∷◌, List,
  true, false, ltb, ltb→lt, append-nil, length, take, drop, length-take, length-drop, take-all, All,
  Bool-cases, arith,
}
use dezhan.Text.{Text, codes}
use dezhan.Ctl.Metrics.{Floats}
use dezhan.Ctl.Dashboard.View.{Lipgloss, Numbers, row_end, card_rows, scale, human, larger_units}

module _ {A : Type 0} where
  take-drop : (n : ℕ) (xs : List A) → take n xs ++ drop n xs ≡ xs
  take-drop zero xs = refl
  take-drop (suc n) [] = refl
  take-drop (suc n) (x ∷ xs) = ap (λ (t : List A). x ∷ t) (take-drop n xs)

  drop-nil : (n : ℕ) → drop {A = A} n [] ≡ []
  drop-nil zero = refl
  drop-nil (suc n) = refl

  drop-drop : (m n : ℕ) (xs : List A) → drop m (drop n xs) ≡ drop (n + m) xs
  drop-drop m zero xs = ap (λ (k : ℕ). drop k xs) (omega arith)
  drop-drop m (suc n) [] = drop-nil m ∙ sym (drop-nil (suc n + m))
  drop-drop m (suc n) (x ∷ xs) = drop-drop m n xs ∙ ap (λ (k : ℕ). drop k (x ∷ xs)) count
    where
      count : suc (n + m) ≡ suc n + m
      count = omega arith

  drop-all : (n : ℕ) (xs : List A) → length xs ≤ n → drop n xs ≡ []
  drop-all zero [] h = refl
  drop-all zero (x ∷ xs) h = absurd (omega arith)
  drop-all (suc n) [] h = refl
  drop-all (suc n) (x ∷ xs) h = drop-all n xs (omega arith)

abbrev pub joined : List (List Text) → List Text
joined [] = []
joined (r ∷ rs) = r ++ joined rs

-- A row is not empty, and has at most four cards.
abbrev pub IsRow : List Text → Type 0
IsRow r = (1 ≤ length r) × (length r ≤ 4)

-- A row that begins before the end of the cards, and what is left for the next.
IsRow-parts :
    (i : ℕ) (cards : List Text)
    → i < length cards
    → IsRow (take (row_end i cards - i) (drop i cards))
      × (take (row_end i cards - i) (drop i cards) ++ drop (i + 4) cards ≡ drop i cards)
IsRow-parts i cards h = elim (Bool-cases (ltb (length cards) (i + 4))) [
  | inl short ↦
      let rest : length rows ≡ length cards - i = length-drop i cards in
      let end : row_end i cards ≡ length cards = simp short refl in
      (
        (
          omega (arith, rest, end, length-take (row_end i cards - i) rows),
          ground (arith, rest, end, length-take (row_end i cards - i) rows),
        ),
        ap (λ (t : List Text). take (row_end i cards - i) rows ++ t)
              (drop-all (i + 4) cards (ground arith))
            ∙ (append-nil (take (row_end i cards - i) rows)
                ∙ take-all (row_end i cards - i) rows (omega (arith, rest, end))),
      )
  | inr long ↦
      let rest : length rows ≡ length cards - i = length-drop i cards in
      let end : row_end i cards - i ≡ 4 = simp long (omega arith) in
      (
        (
          ground (arith, rest, end, length-take (row_end i cards - i) rows),
          omega (arith, rest, end, length-take (row_end i cards - i) rows),
        ),
        ap (λ (n : ℕ). take n rows ++ drop (i + 4) cards) end
            ∙ (ap (λ (t : List Text). take 4 rows ++ t) (sym (drop-drop 4 i cards))
                ∙ take-drop 4 rows),
      )
]
  where
    rows : List Text
    rows = drop i cards

card_rows-rows :
    (fuel i : ℕ) (cards : List Text)
    → length cards ≤ i + fuel
    → All IsRow (card_rows fuel i cards) × (joined (card_rows fuel i cards) ≡ drop i cards)
unfolding card_rows
card_rows-rows zero i cards h = (tt, sym (drop-all i cards (omega arith)))
card_rows-rows (suc fuel) i cards h = elim (Bool-cases (ltb i (length cards))) [
  | inr done ↦ rw done (tt, sym (drop-all i cards (ground arith)))
  | inl more ↦
      let (row, split) = IsRow-parts i cards (ltb→lt i (length cards) more) in
      let (rows, all) = card_rows-rows fuel (i + 4) cards (omega arith) in
      rw more (
        (row, rows),
        ap (λ (t : List Text). take (row_end i cards - i) (drop i cards) ++ t) all ∙ split,
      )
]

-- The rows of cards, with as much fuel as there are cards, are all the cards in order, and each row has
-- from one to four of them.
pub card_rows-joined :
    (cards : List Text)
    → All IsRow (card_rows (length cards) 0 cards)
      × (joined (card_rows (length cards) 0 cards) ≡ cards)
card_rows-joined cards = card_rows-rows (length cards) 0 cards (omega arith)

module _ (N : Floats) (L : Lipgloss) (P : Numbers N.F) where
  -- divided k times by 1024
  abbrev pub quotient : ℕ → N.F → N.F
  quotient zero v = v
  quotient (suc k) v = quotient k (P.div v P.unit)

  abbrev pub unit_at : ℕ → Text → List Text → Text
  unit_at zero u more = u
  unit_at (suc k) u [] = u
  unit_at (suc k) u (next ∷ more) = unit_at k next more

  -- 1024 or more before each of the first k divisions
  abbrev pub IsLarge : ℕ → N.F → Type 0
  IsLarge zero v = Unit
  IsLarge (suc k) v = (P.le P.unit v ≡ true) × IsLarge k (P.div v P.unit)

  abbrev pub Scaled : Text → List Text → N.F → Text → Type 0
  Scaled u more v text =
      (k : ℕ) × (k ≤ length more)
      × IsLarge k v
      × ((k ≡ length more) ⊎ (P.le P.unit (quotient k v) ≡ false))
      × (text ≡ P.fixed1 (quotient k v) ++ (codes " " ++ unit_at k u more))

  scale-Scaled : (u : Text) (more : List Text) (v : N.F) → Scaled u more v (scale N L P u more v)
  unfolding scale
  scale-Scaled u [] v = (0, omega arith, tt, inl refl, refl)
  scale-Scaled u (next ∷ more) v = elim (Bool-cases (P.le P.unit v)) [
    | inl large ↦
        let (k, le, larger, stop, text) = scale-Scaled next more (P.div v P.unit) in
        rw large (suc k, omega arith, (large, larger), later stop, text)
    | inr small ↦ rw small (0, omega arith, tt, inr small, refl)
  ]
    where
      later : {k : ℕ} {Q : Type 0} → (k ≡ length more) ⊎ Q → (suc k ≡ suc (length more)) ⊎ Q
      later (inl e) = inl (omega (arith, e))
      later (inr q) = inr q

  -- A size of 1024 or more is printed in the first of KiB, MiB, GiB and TiB in which it is below 1024,
  -- and in PiB if there is none: it is divided by 1024 as often as that, and no further.
  pub human-Scaled :
      (bytes : N.F)
      → P.lt bytes P.unit ≡ false
      → Scaled (codes "KiB") larger_units (P.div bytes P.unit) (human N L P bytes)
  unfolding human
  human-Scaled bytes h = rw h (scale-Scaled (codes "KiB") larger_units (P.div bytes P.unit))
