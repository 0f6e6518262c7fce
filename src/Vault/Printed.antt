-- ===== src/Vault/Printed.antt =====
-- Words, numbers and hex digits are read back as they were written, vault/src/dezhan-vault.adb.
use dezhan.Base.{
  ℕ, ◌+◌, ◌*◌, ◌/◌, ◌%◌, ◌≤◌, ◌<◌, ◌++◌, [], ◌∷◌, List, Bool, true, false, ◌≡◌, ◌≢◌, refl, not, ap,
  ◌∙◌, Result, ok, err, if◌then◌else◌, ◌==◌, ==_iff, ltb, leb, length, take, take-all, All, arith,
  tests,
}
use dezhan.Text.{Text, text_eq, decimal, read_decimal-decimal, decimal-digits, decimal-ne, is_digit}
use dezhan.Core.Retention.{LockMode, unlocked, governance, compliance}
use dezhan.Core.Audit.{
  AuditEvent, genesis, lock_created, retention_extended, delete_denied, delete_allowed,
  clock_anomaly, seal_engaged, legal_hold_set, legal_hold_released, object_quarantined, event_pos,
  natural_last,
}
use dezhan.Vault.State.{Fault, constraint_error}
use dezhan.Vault.Lines.{
  hex_digit, str_to_hex, flag, spaced, words, glue, push, all_digits, is_numeral, value, then_ok,
  nibble, byte_of, hex_to_str, from_hex, object_id, is_on, is_off, mode_pos, mode_val, event_val,
  size_value,
}

abbrev pub IsSpaceless : Text → Type 0
IsSpaceless = All (λ c. (c == b' ') ≡ false)

abbrev pub IsWord : Text → Type 0
IsWord w = (w ≢ []) × IsSpaceless w

abbrev pub IsBytes : Text → Type 0
IsBytes = All (λ c. c < 256)

abbrev pub nonempty : List Text → List Text
nonempty [] = []
nonempty ([] ∷ ws) = nonempty ws
nonempty ((c ∷ w) ∷ ws) = (c ∷ w) ∷ nonempty ws

words-step :
    (c d : ℕ) (t : Text)
    → (c == b' ') ≡ false
    → (d == b' ') ≡ false
    → words (c ∷ d ∷ t) ≡ push c (words (d ∷ t))
unfolding words
words-step c d t h k =
    let rest = words (d ∷ t) in
    ap (λ (b : Bool). if b then rest else glue c (d ∷ t) rest) h
    ∙ ap (λ (b : Bool). if b then (c ∷ []) ∷ rest else push c rest) k

words_one : (c : ℕ) → (c == b' ') ≡ false → words (c ∷ []) ≡ (c ∷ []) ∷ []
unfolding words
words_one c h = rw h refl

words_space : (c : ℕ) (t : Text) → (c == b' ') ≡ false → words (c ∷ b' ' ∷ t) ≡ (c ∷ []) ∷ words t
unfolding words
words_space c t h = rw h refl

words_end : (c : ℕ) (w : Text) → IsSpaceless (c ∷ w) → words (c ∷ w) ≡ (c ∷ w) ∷ []
words_end c [] (h, t) = words_one c h
words_end c (d ∷ w) (h, (k, t)) = words-step c d w h k ∙ ap (push c) (words_end d w (k, t))

words_word :
    (c : ℕ) (w t : Text) → IsSpaceless (c ∷ w) → words (c ∷ w ++ b' ' ∷ t) ≡ (c ∷ w) ∷ words t
words_word c [] t (h, s) = words_space c t h
words_word c (d ∷ w) t (h, (k, s)) =
    words-step c d (w ++ b' ' ∷ t) h k ∙ ap (push c) (words_word d w t (k, s))

pub words-spaced : (ws : List Text) → All IsSpaceless ws → words (spaced ws) ≡ nonempty ws
unfolding spaced words
words-spaced [] h = refl
words-spaced ([] ∷ []) h = refl
words-spaced ((c ∷ w) ∷ []) (h, t) = words_end c w h
words-spaced ([] ∷ u ∷ ws) (h, t) = words-spaced (u ∷ ws) t
words-spaced ((c ∷ w) ∷ u ∷ ws) (h, t) =
    words_word c w (spaced (u ∷ ws)) h ∙ ap (λ l. (c ∷ w) ∷ l) (words-spaced (u ∷ ws) t)

pub nonempty-words : (ws us : List Text) → All IsWord ws → nonempty (ws ++ us) ≡ ws ++ nonempty us
nonempty-words [] us h = refl
nonempty-words ([] ∷ ws) us ((n, s), t) = absurd (n refl)
nonempty-words ((c ∷ w) ∷ ws) us (h, t) = ap (λ l. (c ∷ w) ∷ l) (nonempty-words ws us t)

digit-IsSpaceless : (s : Text) → All (λ c. is_digit c ≡ true) s → IsSpaceless s
digit-IsSpaceless [] h = tt
digit-IsSpaceless (c ∷ s) (h, t) = (ground (arith, h), digit-IsSpaceless s t)

pub decimal-IsWord : (n : ℕ) → IsWord (decimal n)
decimal-IsWord n = (decimal-ne n, digit-IsSpaceless (decimal n) (decimal-digits n))

pub flag-IsWord : (b : Bool) → IsWord (flag b)
flag-IsWord true = (cc, (refl, tt))
flag-IsWord false = (cc, (refl, tt))

all_digits-All : (s : Text) → All (λ c. is_digit c ≡ true) s → all_digits s ≡ true
all_digits-All [] h = refl
all_digits-All (c ∷ s) (h, t) = ground (arith, h, all_digits-All s t)

numeral : (s : Text) → s ≢ [] → is_numeral s ≡ all_digits s
numeral [] h = absurd (h refl)
numeral (c ∷ s) h = refl

pub value-decimal : (last n : ℕ) → n ≤ last → value last (decimal n) ≡ ok n
unfolding value
value-decimal last n h =
    let digits =
      numeral (decimal n) (decimal-ne n) ∙ all_digits-All (decimal n) (decimal-digits n) in
    let same = read_decimal-decimal n in
    let fits : leb n last ≡ true = ground arith in rw (digits, same, fits) refl

nibble-hex_digit : (n : ℕ) → n < 16 → nibble (hex_digit n) ≡ ok n
nibble-hex_digit n h = ground arith

byte_of-hex : (c : ℕ) → c < 256 → byte_of (hex_digit (c / 16)) (hex_digit (c % 16)) ≡ ok c
byte_of-hex c h =
    let low = nibble (hex_digit (c % 16)) in
    let whole : ℕ → Result Fault ℕ = λ n. if leb n 255 then ok n else err constraint_error in
    let sum : c / 16 * 16 + c % 16 ≡ c = omega arith in
    let fits : leb c 255 ≡ true = ground arith in
    ap (λ r. then_ok r (λ a. then_ok low (λ b. whole (a * 16 + b))))
      (nibble-hex_digit (c / 16) (omega arith))
    ∙ (ap (λ r. then_ok r (λ b. whole (c / 16 * 16 + b))) (nibble-hex_digit (c % 16) (omega arith))
        ∙ (ap whole sum ∙ ap (λ (b : Bool). if b then ok c else err constraint_error) fits))

pub hex_to_str-str_to_hex : (s : Text) → IsBytes s → hex_to_str (str_to_hex s) ≡ ok s
unfolding hex_to_str str_to_hex
hex_to_str-str_to_hex [] h = refl
hex_to_str-str_to_hex (c ∷ s) (h, t) = rw (byte_of-hex c h, hex_to_str-str_to_hex s t) refl

length-str_to_hex : (s : Text) → length (str_to_hex s) ≡ 2 * length s
unfolding str_to_hex
length-str_to_hex [] = refl
length-str_to_hex (c ∷ s) = omega (arith, length-str_to_hex s)

pub from_hex-str_to_hex : (s : Text) → length s ≡ 32 → IsBytes s → from_hex (str_to_hex s) ≡ ok s
unfolding from_hex
from_hex-str_to_hex s n h =
    let long : length (str_to_hex s) ≡ 64 = omega (arith, length-str_to_hex s) in
    let whole : ltb (length (str_to_hex s)) 64 ≡ false = grind (arith, tests) in
    ap (λ (b : Bool). if b then err constraint_error else hex_to_str (take 64 (str_to_hex s))) whole
    ∙ (ap hex_to_str (take-all 64 (str_to_hex s) (omega arith)) ∙ hex_to_str-str_to_hex s h)

hex_digit-word : (n : ℕ) → n < 16 → (hex_digit n == b' ') ≡ false
hex_digit-word n h = ground arith

pub str_to_hex-IsSpaceless : (s : Text) → IsBytes s → IsSpaceless (str_to_hex s)
unfolding str_to_hex
str_to_hex-IsSpaceless [] h = tt
str_to_hex-IsSpaceless (c ∷ s) (h, t) = (
  hex_digit-word (c / 16) (omega arith),
  (hex_digit-word (c % 16) (omega arith), str_to_hex-IsSpaceless s t),
)

pub str_to_hex-IsWord : (s : Text) → s ≢ [] → IsBytes s → IsWord (str_to_hex s)
unfolding str_to_hex
str_to_hex-IsWord [] n h = absurd (n refl)
str_to_hex-IsWord (c ∷ s) n h = (cc, str_to_hex-IsSpaceless (c ∷ s) h)

pub object_id-ok : (s : Text) → length s ≡ 64 → object_id s ≡ ok s
unfolding object_id
object_id-ok s n = rw ((==_iff (length s) 64).1 n) refl

pub is_on-flag : (b : Bool) → is_on (flag b) ≡ b
unfolding is_on text_eq
is_on-flag true = refl
is_on-flag false = refl

pub is_off-flag : (b : Bool) → not (is_off (flag b)) ≡ b
unfolding is_off text_eq
is_off-flag true = refl
is_off-flag false = refl

pub mode_val-mode_pos : (m : LockMode) → mode_val (mode_pos m) ≡ ok m
unfolding mode_val
mode_val-mode_pos unlocked = refl
mode_val-mode_pos governance = refl
mode_val-mode_pos compliance = refl

pub event_val-event_pos : (k : AuditEvent) → event_val (event_pos k) ≡ ok k
unfolding event_val
event_val-event_pos genesis = refl
event_val-event_pos lock_created = refl
event_val-event_pos retention_extended = refl
event_val-event_pos delete_denied = refl
event_val-event_pos delete_allowed = refl
event_val-event_pos clock_anomaly = refl
event_val-event_pos seal_engaged = refl
event_val-event_pos legal_hold_set = refl
event_val-event_pos legal_hold_released = refl
event_val-event_pos object_quarantined = refl

size_value-word : (s : Text) → s ≢ [] → size_value s ≡ value natural_last s
unfolding size_value
size_value-word [] h = absurd (h refl)
size_value-word (c ∷ s) h = refl

pub size_value-decimal : (n : ℕ) → n ≤ natural_last → size_value (decimal n) ≡ ok n
size_value-decimal n h = size_value-word (decimal n) (decimal-ne n) ∙ value-decimal natural_last n h

-- the words of a line whose last one may be empty
pub words_tail :
    (ws : List Text) (m : Text)
    → All IsWord ws
    → All IsSpaceless (ws ++ m ∷ [])
    → words (spaced (ws ++ m ∷ [])) ≡ ws ++ nonempty (m ∷ [])
words_tail ws m h k = words-spaced (ws ++ m ∷ []) k ∙ nonempty-words ws (m ∷ []) h

words_whole : (ws : List Text) → All IsWord ws → nonempty ws ≡ ws
words_whole [] h = refl
words_whole ([] ∷ ws) ((n, s), t) = absurd (n refl)
words_whole ((c ∷ w) ∷ ws) (h, t) = ap (λ l. (c ∷ w) ∷ l) (words_whole ws t)

spaceless : (ws : List Text) → All IsWord ws → All IsSpaceless ws
spaceless [] h = tt
spaceless (w ∷ ws) ((n, s), t) = (s, spaceless ws t)

-- the words of a line of which none is empty
pub words_all : (ws : List Text) → All IsWord ws → words (spaced ws) ≡ ws
words_all ws h = words-spaced ws (spaceless ws h) ∙ words_whole ws h

pub tail-IsSpaceless :
    (ws : List Text) (m : Text) → All IsWord ws → IsSpaceless m → All IsSpaceless (ws ++ m ∷ [])
tail-IsSpaceless [] m h k = (k, tt)
tail-IsSpaceless (w ∷ ws) m ((n, s), t) k = (s, tail-IsSpaceless ws m t k)

pub words_clock :
    (t : Text) (ws : List Text) → IsWord t → All IsWord ws → words (spaced (t ∷ [] ∷ ws)) ≡ t ∷ ws
words_clock t ws (n, s) h =
    words-spaced (t ∷ [] ∷ ws) (s, (tt, spaceless ws h))
    ∙ (nonempty-words (t ∷ []) ([] ∷ ws) ((n, s), tt) ∙ ap (λ l. t ∷ l) (words_whole ws h))
