-- ===== src/Text/Number.antt =====
-- Go's signed integers and strconv.Itoa.
use dezhan.Base.{
  ℕ, zero, suc, ◌+◌, ◌-◌, ◌*◌, ◌/◌, ◌%◌, ◌≤◌, ◌<◌, ◌≡◌, ◌≢◌, refl, ◌∙◌, ap, sym, Bool, true, false,
  ◌&&◌, leb, [], ◌∷◌, ◌++◌, arith, ◌==◌, ltb, if◌then◌else◌, inl, inr, Bool-cases, All, All-append,
}
use dezhan.Text.Equal.{Text}

-- `negsuc n` is -(n + 1).
pub data ℤ : Type 0 where
  pos : ℕ → ℤ
  negsuc : ℕ → ℤ

-- z == 0
abbrev pub is_zero : ℤ → Bool
is_zero (pos n) = n == 0
is_zero (negsuc n) = false

-- z > 0
abbrev pub is_pos : ℤ → Bool
is_pos (pos n) = ltb 0 n
is_pos (negsuc n) = false

digits : ℕ → ℕ → Text
digits zero n = []
digits (suc f) n =
    let more = digits f (n / 10) in if ltb n 10 then (48 + n) ∷ [] else more ++ (48 + n % 10) ∷ []

unfoldable pub decimal : ℕ → Text
unfolding digits
decimal n = digits (suc n) n

unfoldable pub itoa : ℤ → Text
unfolding decimal
itoa (pos n) = decimal n
itoa (negsuc n) = b'-' ∷ decimal (suc n)

read_from : ℕ → Text → ℕ
read_from acc [] = acc
read_from acc (c ∷ s) = read_from (acc * 10 + (c - 48)) s

-- The number that a text of digits, with a minus sign or without, stands for.
pub atoi : Text → ℤ
unfolding read_from
atoi [] = pos 0
atoi (c ∷ s) = if c == b'-' then negsuc (read_from 0 s - 1) else pos (read_from 0 (c ∷ s))

read_from-append :
    (acc : ℕ) (s : Text) (c : ℕ) → read_from acc (s ++ c ∷ []) ≡ read_from acc s * 10 + (c - 48)
unfolding read_from
read_from-append acc [] c = refl
read_from-append acc (d ∷ s) c = read_from-append (acc * 10 + (d - 48)) s c

read_from-digits : (f n : ℕ) → n < f → read_from 0 (digits f n) ≡ n
unfolding digits read_from
read_from-digits zero n h = absurd (omega arith)
read_from-digits (suc f) n h = elim (Bool-cases (ltb n 10)) [
  | inl e ↦ rw e (omega arith)
  | inr e ↦
      let big : 10 ≤ n = ground arith in
      rw (e, read_from-append) (omega (arith, read_from-digits f (n / 10) (omega arith)))
]

-- The number that a text of digits stands for.
unfoldable pub read_decimal : Text → ℕ
unfolding read_from
read_decimal s = read_from 0 s

pub read_decimal-decimal : (n : ℕ) → read_decimal (decimal n) ≡ n
unfolding read_decimal decimal
read_decimal-decimal n = read_from-digits (suc n) n (omega arith)

abbrev pub is_digit : ℕ → Bool
is_digit c = leb 48 c && leb c 57

digits-are : (f n : ℕ) → All (λ c. is_digit c ≡ true) (digits f n)
unfolding digits
digits-are zero n = tt
digits-are (suc f) n = elim (Bool-cases (ltb n 10)) [
  | inl e ↦ rw e (ground arith, tt)
  | inr e ↦ rw e (
      All-append (λ (c : ℕ). is_digit c ≡ true) (digits f (n / 10)) _ (digits-are f (n / 10))
        (ground arith, tt))
]

pub decimal-digits : (n : ℕ) → All (λ c. is_digit c ≡ true) (decimal n)
unfolding decimal
decimal-digits n = digits-are (suc n) n

snoc-ne : (s : Text) (c : ℕ) → s ++ c ∷ [] ≢ []
snoc-ne [] c = cc
snoc-ne (d ∷ s) c = cc

pub decimal-ne : (n : ℕ) → decimal n ≢ []
unfolding decimal digits
decimal-ne n = elim (Bool-cases (ltb n 10)) [
  | inl e ↦ rw e cc
  | inr e ↦ rw e (snoc-ne (digits n (n / 10)) (48 + n % 10))
]

digits-ge : (f n : ℕ) → All (λ c. 48 ≤ c) (digits f n)
unfolding digits
digits-ge zero n = tt
digits-ge (suc f) n = elim (Bool-cases (ltb n 10)) [
  | inl e ↦ rw e (omega arith, tt)
  | inr e ↦ rw e (
      All-append (λ (c : ℕ). 48 ≤ c) (digits f (n / 10)) _ (digits-ge f (n / 10)) (omega arith, tt))
]

atoi_of_digits : (s : Text) → All (λ c. 48 ≤ c) s → atoi s ≡ pos (read_from 0 s)
unfolding atoi
atoi_of_digits [] h = refl
atoi_of_digits (c ∷ s) h = ground arith

-- Reading back what strconv.Itoa prints gives the number.
pub atoi-itoa : (z : ℤ) → atoi (itoa z) ≡ z
unfolding itoa
atoi-itoa (pos n) =
    atoi_of_digits (digits (suc n) n) (digits-ge (suc n) n)
    ∙ ap pos (read_from-digits (suc n) n (omega arith))
atoi-itoa (negsuc n) =
    unfold atoi in
    ap (λ m. negsuc (m - 1)) (read_from-digits (suc (suc n)) (suc n) (omega arith))
    ∙ ap negsuc (omega arith)

-- Two numbers that print alike are equal.
pub itoa-injective : (y z : ℤ) → itoa y ≡ itoa z → y ≡ z
itoa-injective y z h = sym (atoi-itoa y) ∙ ap atoi h ∙ atoi-itoa z
