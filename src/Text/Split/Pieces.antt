-- ===== src/Text/Split/Pieces.antt =====
-- Splitting, cutting and reading the fields of texts that are put together from pieces.
use dezhan.Base.{
  ℕ, suc, ◌+◌, ◌≡◌, refl, ◌≢◌, ap, Bool, true, false, [], ◌∷◌, ◌++◌, arith, ◌==◌, length, take,
  drop, none, some, append_assoc, append-nil,
}
use dezhan.Text.Equal.{Text, has_prefix, trim_suffix, text_eq}
use dezhan.Text.Trim.{is_space, Keeps}
use dezhan.Text.Split.{index, cut, split, fields, fields_from, flush, push_head}

abbrev pub is_byte : ℕ → ℕ → Bool
is_byte b c = c == b

-- A line is split off at the first separator.
pub split-line :
    (w rest : Text) (sep : ℕ)
    → Keeps (is_byte sep) w
    → split (w ++ sep ∷ rest) sep ≡ w ∷ split rest sep
unfolding split push_head
split-line [] rest sep h = ground arith
split-line (c ∷ w) rest sep (h, hs) = rw (h, split-line w rest sep hs) refl

index-at :
    (w rest : Text) (b : ℕ) → Keeps (is_byte b) w → index (w ++ b ∷ rest) (b ∷ []) ≡ some (length w)
unfolding index has_prefix
index-at [] rest b h = ground arith
index-at (c ∷ w) rest b (h, hs) = rw (h, index-at w rest b hs) refl

index-none : (w : Text) (b : ℕ) → Keeps (is_byte b) w → index w (b ∷ []) ≡ none
unfolding index has_prefix
index-none [] b h = refl
index-none (c ∷ w) b (h, hs) = rw (h, index-none w b hs) refl

suc_plus : (n : ℕ) → suc n + 1 ≡ suc (n + 1)
suc_plus n = omega arith

take-length : (w rest : Text) → take (length w) (w ++ rest) ≡ w
take-length [] rest = refl
take-length (c ∷ w) rest = ap (λ (t : Text). c ∷ t) (take-length w rest)

drop-length : (w rest : Text) (b : ℕ) → drop (length w + 1) (w ++ b ∷ rest) ≡ rest
drop-length [] rest b = refl
drop-length (c ∷ w) rest b = rw (suc_plus (length w)) (drop-length w rest b)

-- Cutting at a byte that does not stand in front of it gives back both parts.
pub cut-at :
    (w rest : Text) (b : ℕ)
    → Keeps (is_byte b) w
    → cut (w ++ b ∷ rest) (b ∷ []) ≡ record { before = w; after = rest; found = true }
unfolding cut
cut-at w rest b h =
    rw (index-at w rest b h, cut, take-length w (b ∷ rest), drop-length w rest b) refl

pub cut-none :
    (w : Text) (b : ℕ)
    → Keeps (is_byte b) w
    → cut w (b ∷ []) ≡ record { before = w; after = []; found = false }
unfolding cut
cut-none w b h = rw (index-none w b h, cut) refl

fields_from-one : (w s : Text) → w ++ s ≢ [] → Keeps is_space s → fields_from w s ≡ (w ++ s) ∷ []
unfolding fields_from flush
fields_from-one [] [] n h = absurd (n refl)
fields_from-one (d ∷ w) [] n h = rw (append-nil (d ∷ w)) refl
fields_from-one w (c ∷ s) n (h, hs) =
    rw (h, fields_from, fields_from-one (w ++ c ∷ []) s (rw (append_assoc w (c ∷ []) s) n) hs)
      (rw (append_assoc w (c ∷ []) s) refl)

-- A text without white space is its only field.
pub fields-one : (s : Text) → s ≢ [] → Keeps is_space s → fields s ≡ s ∷ []
unfolding fields
fields-one s n h = fields_from-one [] s n h

pub Keeps-append : (p : ℕ → Bool) (s t : Text) → Keeps p s → Keeps p t → Keeps p (s ++ t)
Keeps-append p [] t h k = k
Keeps-append p (c ∷ s) t (h, hs) k = (h, Keeps-append p s t hs k)

pub Keeps-weaken :
    (p q : ℕ → Bool) (s : Text) → ((c : ℕ) → p c ≡ false → q c ≡ false) → Keeps p s → Keeps q s
Keeps-weaken p q [] f h = tt
Keeps-weaken p q (c ∷ s) f (h, hs) = (f c h, Keeps-weaken p q s f hs)

-- A suffix of one byte that is not there is not trimmed.
pub trim_suffix-Keeps : (s : Text) (b : ℕ) → Keeps (is_byte b) s → trim_suffix s (b ∷ []) ≡ s
unfolding trim_suffix text_eq
trim_suffix-Keeps [] b h = refl
trim_suffix-Keeps (c ∷ s) b (h, hs) = rw (h, trim_suffix-Keeps s b hs) refl
