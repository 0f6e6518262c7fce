-- ===== src/Text/Escape.antt =====
-- url.PathEscape, on the bytes of the text.
use dezhan.Base.{
  ℕ, ◌+◌, ◌-◌, ◌*◌, ◌/◌, ◌%◌, ◌<◌, ◌≡◌, refl, ◌∙◌, ap, Bool, false, not, ◌&&◌, ◌||◌, [], ◌∷◌, ◌++◌,
  arith, ◌==◌, ltb, leb, if◌then◌else◌, inl, inr, Bool-cases, All,
}
use dezhan.Text.Equal.{Text}

alphanumeric : ℕ → Bool
alphanumeric c =
    (leb b'a' c && leb c b'z') || ((leb b'A' c && leb c b'Z') || (leb b'0' c && leb c b'9'))

-- the marks `-_.~`, and `$&+:=@`, which a path segment may hold
kept_mark : ℕ → Bool
kept_mark c =
    c == b'-'
    || (c == b'_'
        || (c == b'.'
            || (c == b'~'
                || (c == b'$'
                    || (c == b'&' || (c == b'+' || (c == b':' || (c == b'=' || c == b'@'))))))))

should_escape : ℕ → Bool
unfolding alphanumeric kept_mark
should_escape c = not (alphanumeric c || kept_mark c)

hex : ℕ → ℕ
hex d = if ltb d 10 then 48 + d else 55 + d

escape_byte : ℕ → Text → Text
unfolding should_escape hex
escape_byte c rest = if should_escape c then b'%' ∷ hex (c / 16) ∷ hex (c % 16) ∷ rest else c ∷ rest

unfoldable pub path_escape : Text → Text
unfolding escape_byte
path_escape [] = []
path_escape (c ∷ s) = escape_byte c (path_escape s)

unhex : ℕ → ℕ
unhex c = if ltb c 58 then c - 48 else c - 55

-- Percent decoding, as the receiver of an escaped path does it.
unfoldable pub unescape : Text → Text
unfolding unhex
unescape [] = []
unescape (c ∷ []) = c ∷ []
unescape (c ∷ a ∷ []) = c ∷ a ∷ []
unescape (c ∷ a ∷ b ∷ s) =
    let decoded = unescape s in
    let plain = unescape (a ∷ b ∷ s) in
    if c == b'%' then (unhex a * 16 + unhex b) ∷ decoded else c ∷ plain

unhex-hex : (d : ℕ) → d < 16 → unhex (hex d) ≡ d
unfolding hex unhex
unhex-hex d h = ground arith

unescape_plain : (c : ℕ) (s : Text) → (c == b'%') ≡ false → unescape (c ∷ s) ≡ c ∷ unescape s
unfolding unescape
unescape_plain c [] h = refl
unescape_plain c (a ∷ []) h = refl
unescape_plain c (a ∷ b ∷ s) h = rw h

kept_ne_percent : (c : ℕ) → should_escape c ≡ false → (c == b'%') ≡ false
unfolding should_escape
kept_ne_percent c h = ground arith

unescape-escape_byte : (c : ℕ) (s : Text) → c < 256 → unescape (escape_byte c s) ≡ c ∷ unescape s
unfolding escape_byte
unescape-escape_byte c s h = elim (Bool-cases (should_escape c)) [
  | inl e ↦ rw e (
      unfold unescape in
      ap (λ (d : ℕ). d ∷ unescape s)
        (omega (arith, unhex-hex (c / 16) (omega arith), unhex-hex (c % 16) (omega arith))))
  | inr e ↦ rw e (unescape_plain c s (kept_ne_percent c e))
]

-- Decoding an escaped text of bytes gives the text.
pub unescape-path_escape : (s : Text) → All (λ c. c < 256) s → unescape (path_escape s) ≡ s
unfolding path_escape
unescape-path_escape [] h = unfold unescape in refl
unescape-path_escape (c ∷ s) (hc, hs) =
    unescape-escape_byte c (path_escape s) hc ∙ ap (λ (t : Text). c ∷ t) (unescape-path_escape s hs)

-- What an escaped text is made of: never a slash.
abbrev pub IsSlashFree : Text → Type 0
IsSlashFree = All (λ c. (c == b'/') ≡ false)

hex-slash_free : (d : ℕ) → (hex d == b'/') ≡ false
unfolding hex
hex-slash_free d = ground arith

kept-slash_free : (c : ℕ) → should_escape c ≡ false → (c == b'/') ≡ false
unfolding should_escape
kept-slash_free c h = ground arith

escape_byte-IsSlashFree : (c : ℕ) (s : Text) → IsSlashFree s → IsSlashFree (escape_byte c s)
unfolding escape_byte
escape_byte-IsSlashFree c s h = elim (Bool-cases (should_escape c)) [
  | inl e ↦ rw e (refl, (hex-slash_free (c / 16), (hex-slash_free (c % 16), h)))
  | inr e ↦ rw e (kept-slash_free c e, h)
]

pub path_escape-IsSlashFree : (s : Text) → IsSlashFree (path_escape s)
unfolding path_escape
path_escape-IsSlashFree [] = tt
path_escape-IsSlashFree (c ∷ s) =
    escape_byte-IsSlashFree c (path_escape s) (path_escape-IsSlashFree s)

-- A text with a slash in it is not slash-free.
pub not_IsSlashFree : (a b : Text) → ¬ IsSlashFree (a ++ (b'/' ∷ b))
not_IsSlashFree [] b (e, h) = cc
not_IsSlashFree (c ∷ a) b (e, h) = not_IsSlashFree a b h
