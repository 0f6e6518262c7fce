-- ===== src/Text/Split.antt =====
-- strings.Index, the client's `cut`, strings.Split, strings.Join and strings.Fields.
pub mod Pieces
use Prim.Native.Nat.add
use mathlib.Core.Option
use dezhan.Base.{
  ℕ, suc, ◌+◌, ◌≡◌, refl, ◌≢◌, ◌∙◌, ap, Bool, true, false, List, [], ◌∷◌, ◌++◌, arith, ◌==◌,
  if◌then◌else◌, inl, inr, Bool-cases, length, take, drop, Option, none, some,
}
use dezhan.Text.Equal.{Text, has_prefix}
use dezhan.Text.Trim.{is_space, ends_without}

-- strings.Index: where `sep` first stands, `none` for -1
unfoldable pub index : Text → Text → Option ℕ
unfolding has_prefix
index [] sep = if has_prefix [] sep then some 0 else none
index (c ∷ s) sep =
    let later = Option.map suc (index s sep) in if has_prefix (c ∷ s) sep then some 0 else later

pub record Cut : Type 0 where
  pub before : Text
  pub after : Text
  pub found : Bool

unfoldable pub cut : Text → Text → Cut
unfolding index
cut s sep = elim (index s sep) [
  | some i ↦ record { before = take i s; after = drop (i + length sep) s; found = true }
  | none ↦ record { before = s; after = []; found = false }
]

push_head : ℕ → List Text → List Text
push_head c [] = (c ∷ []) ∷ []
push_head c (w ∷ ws) = (c ∷ w) ∷ ws

-- strings.Split at a separator of one byte
unfoldable pub split : Text → ℕ → List Text
unfolding push_head
split [] sep = [] ∷ []
split (c ∷ s) sep = let rest = split s sep in if c == sep then [] ∷ rest else push_head c rest

unfoldable pub join : List Text → Text → Text
join [] sep = []
join (w ∷ []) sep = w
join (w ∷ v ∷ ws) sep = w ++ (sep ++ join (v ∷ ws) sep)

flush : Text → List Text → List Text
flush [] ws = ws
flush (c ∷ w) ws = (c ∷ w) ∷ ws

-- The loop of strings.Fields, with the word that is being read.
fields_from : Text → Text → List Text
fields_from word [] = flush word []
fields_from word (c ∷ s) = elim (is_space c) [
  | true ↦ flush word (fields_from [] s)
  | false ↦ fields_from (word ++ c ∷ []) s
]

unfoldable pub fields : Text → List Text
unfolding fields_from flush is_space
fields = fields_from []

has_prefix-split : (s p : Text) → has_prefix s p ≡ true → s ≡ p ++ drop (length p) s
unfolding has_prefix
has_prefix-split s [] h = refl
has_prefix-split [] (p ∷ ps) h = cc
has_prefix-split (c ∷ s) (p ∷ ps) h = ground (arith, has_prefix-split s ps)

drop_zero : (s sep : Text) → has_prefix s sep ≡ true → s ≡ sep ++ drop (0 + length sep) s
drop_zero s sep h = rw add.zero (has_prefix-split s sep h)

index-cons :
    (c : ℕ) (s sep : Text) (i : ℕ)
    → index (c ∷ s) sep ≡ some i
    → has_prefix (c ∷ s) sep ≡ false
    → (j : ℕ) × (index s sep ≡ some j) × (i ≡ suc j)
unfolding index
index-cons c s sep i h e = go (index s sep) (rw e at h)
  where
    go : (o : Option ℕ) → Option.map suc o ≡ some i → (j : ℕ) × (o ≡ some j) × (i ≡ suc j)
    go none k = cc
    go (some j) k = (j, refl, cc)

index-cons_here :
    (c : ℕ) (s sep : Text) (i : ℕ)
    → index (c ∷ s) sep ≡ some i
    → has_prefix (c ∷ s) sep ≡ true
    → i ≡ 0
unfolding index
index-cons_here c s sep i h e = ground arith

-- A text is what stands before the first `sep`, then `sep`, then the rest.
pub index-split :
    (s sep : Text) (i : ℕ) → index s sep ≡ some i → s ≡ take i s ++ (sep ++ drop (i + length sep) s)
unfolding index
index-split [] [] i h = let e : i ≡ 0 = ground arith in rw e
index-split [] (p ∷ ps) i h = cc
index-split (c ∷ s) sep i h = elim (Bool-cases (has_prefix (c ∷ s) sep)) [
  | inl e ↦ rw (index-cons_here c s sep i h e) (drop_zero (c ∷ s) sep e)
  | inr e ↦
      let (j, hj, ij) = index-cons c s sep i h e in
      rw (ij, add.suc) (ap (λ (t : Text). c ∷ t) (index-split s sep j hj))
]

-- A successful cut takes the text apart at the separator, and loses nothing.
pub cut_split :
    (s sep : Text) → (cut s sep).found ≡ true → s ≡ (cut s sep).before ++ (sep ++ (cut s sep).after)
unfolding cut
cut_split s sep h = go (index s sep) refl h
  where
    go :
        (o : Option ℕ)
        → index s sep ≡ o
        → (cut s sep).found ≡ true
        → s ≡ (cut s sep).before ++ (sep ++ (cut s sep).after)
    go none e f = ground arith
    go (some i) e f = rw (e, cut) (index-split s sep i e)

flush-ne : (w : Text) (ws : List Text) → w ≢ [] → flush w ws ≢ []
unfolding flush
flush-ne [] ws h = absurd (h refl)
flush-ne (c ∷ w) ws h = ground arith

flush-ne_rest : (w : Text) (ws : List Text) → ws ≢ [] → flush w ws ≢ []
unfolding flush
flush-ne_rest [] ws h = h
flush-ne_rest (c ∷ w) ws h = ground arith

append-ne-nil : (w : Text) (c : ℕ) → w ++ c ∷ [] ≢ []
append-ne-nil [] c = ground arith
append-ne-nil (d ∷ w) c = ground arith

fields_from-word : (w s : Text) → w ≢ [] → fields_from w s ≢ []
unfolding fields_from
fields_from-word w [] h = flush-ne w [] h
fields_from-word w (c ∷ s) h = elim (Bool-cases (is_space c)) [
  | inl e ↦ rw (e, fields_from) (flush-ne w (fields_from [] s) h)
  | inr e ↦ rw (e, fields_from) (fields_from-word (w ++ c ∷ []) s (append-ne-nil w c))
]

fields_from-ne : (w s : Text) → ends_without is_space s ≡ true → fields_from w s ≢ []
unfolding fields_from ends_without
fields_from-ne w [] h = cc
fields_from-ne w (c ∷ []) h =
    let e : is_space c ≡ false = ground arith in
    rw (e, fields_from) (flush-ne (w ++ c ∷ []) [] (append-ne-nil w c))
fields_from-ne w (c ∷ d ∷ s) h = elim (Bool-cases (is_space c)) [
  | inl e ↦ rw (e, fields_from) (flush-ne_rest w _ (fields_from-ne [] (d ∷ s) h))
  | inr e ↦ rw (e, fields_from) (fields_from-word (w ++ c ∷ []) (d ∷ s) (append-ne-nil w c))
]

-- A text that ends in a byte other than white space has a field.
pub fields-ne : (s : Text) → ends_without is_space s ≡ true → fields s ≢ []
unfolding fields
fields-ne s h = fields_from-ne [] s h

join-push_head :
    (c sep : ℕ) (ws : List Text)
    → ws ≢ []
    → join (push_head c ws) (sep ∷ []) ≡ c ∷ join ws (sep ∷ [])
unfolding push_head join
join-push_head c sep [] h = absurd (h refl)
join-push_head c sep (w ∷ []) h = refl
join-push_head c sep (w ∷ v ∷ ws) h = refl

pub split-ne : (s : Text) (sep : ℕ) → split s sep ≢ []
unfolding split push_head
split-ne [] sep = ground arith
split-ne (c ∷ s) sep = elim (Bool-cases (c == sep)) [
  | inl e ↦ rw (e, split) (ground arith)
  | inr e ↦ rw (e, split) (go (split s sep))
]
  where
    go : (ws : List Text) → push_head c ws ≢ []
    go [] = ground arith
    go (w ∷ ws) = ground arith

join-cons :
    (sep : ℕ) (ws : List Text) → ws ≢ [] → join ([] ∷ ws) (sep ∷ []) ≡ sep ∷ join ws (sep ∷ [])
unfolding join
join-cons sep [] h = absurd (h refl)
join-cons sep (w ∷ ws) h = refl

-- The pieces of a split, joined by the separator, are the text.
pub join-split : (s : Text) (sep : ℕ) → join (split s sep) (sep ∷ []) ≡ s
unfolding split
join-split [] sep = unfold join in refl
join-split (c ∷ s) sep = elim (Bool-cases (c == sep)) [
  | inl e ↦
      let same : c ≡ sep = ground arith in
      rw (e, split)
        (join-cons sep (split s sep) (split-ne s sep)
          ∙ rw (same) (ap (λ (t : Text). sep ∷ t) (join-split s sep)))
  | inr e ↦
      rw (e, split)
        (join-push_head c sep (split s sep) (split-ne s sep)
          ∙ ap (λ (t : Text). c ∷ t) (join-split s sep))
]
