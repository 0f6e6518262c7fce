-- ===== src/Dict.antt =====
-- Go maps with string keys, as association lists in order of insertion. A missing key reads as the
-- zero value of the map's type, by `get_or`.
use dezhan.Base.{
  ◌≡◌, refl, ap, ◌∙◌, List, [], ◌∷◌, Option, none, some, arith, if◌then◌else◌, Bool-cases, inl, inr,
  All, subst,
}
use dezhan.Text.{Text, text_eq, text_eq_iff, text_eq_refl}

abbrev pub Dict {ℓ} : Type ℓ → Type ℓ
Dict V = List (Text × V)

module _ {ℓ} {V : Type ℓ} where
  -- v, ok := m[k]
  unfoldable pub lookup : Text → Dict V → Option V
  unfolding text_eq
  lookup k [] = none
  lookup k ((j, v) ∷ m) = if text_eq j k then some v else lookup k m

  -- m[k] = v
  unfoldable pub insert : Text → V → Dict V → Dict V
  unfolding text_eq
  insert k v [] = (k, v) ∷ []
  insert k v ((j, w) ∷ m) = if text_eq j k then (j, v) ∷ m else (j, w) ∷ insert k v m

  -- for k, v := range src { dst[k] = v }
  unfoldable pub merge : Dict V → Dict V → Dict V
  unfolding insert
  merge dst [] = dst
  merge dst ((k, v) ∷ src) = merge (insert k v dst) src

  -- delete(m, k)
  unfoldable pub remove : Text → Dict V → Dict V
  unfolding text_eq
  remove k [] = []
  remove k ((j, v) ∷ m) = let rest = remove k m in if text_eq j k then rest else (j, v) ∷ rest

  pub lookup-insert :
      (k j : Text) (v : V) (m : Dict V)
      → lookup j (insert k v m) ≡ (if text_eq k j then some v else lookup j m)
  unfolding lookup insert
  lookup-insert k j v [] = refl
  lookup-insert k j v ((i, w) ∷ m) =
      ground (arith, text_eq_iff k j, text_eq_iff i k, text_eq_iff i j, lookup-insert k j v m)

  pub lookup-remove :
      (k j : Text) (m : Dict V) → lookup j (remove k m) ≡ (if text_eq k j then none else lookup j m)
  unfolding lookup remove
  lookup-remove k j [] = ground arith
  lookup-remove k j ((i, w) ∷ m) =
      ground (arith, text_eq_iff k j, text_eq_iff i k, text_eq_iff i j, lookup-remove k j m)

  -- No key stands twice, as in every Go map.
  abbrev pub NodupKeys : Dict V → Type ℓ
  NodupKeys [] = Unit
  NodupKeys ((k, v) ∷ m) = (lookup k m ≡ none) × NodupKeys m

  none-ne-some : (v : V) → ◌≡◌ {A = Option V} none (some v) → ⊥
  none-ne-some v e = cc

  some-inj : {v w : V} → ◌≡◌ {A = Option V} (some v) (some w) → v ≡ w
  some-inj e = cc

  pub insert-NodupKeys : (k : Text) (v : V) (m : Dict V) → NodupKeys m → NodupKeys (insert k v m)
  unfolding lookup insert
  insert-NodupKeys k v [] h = (refl, tt)
  insert-NodupKeys k v ((j, w) ∷ m) (fresh, h) = elim (Bool-cases (text_eq j k)) [
    | inl e ↦ rw e (fresh, h)
    | inr e ↦ rw e (
      ground (arith, lookup-insert k j v m, text_eq_iff k j, text_eq_iff j k),
      insert-NodupKeys k v m h,
    )
  ]

  -- Every key and every value has a property.
  abbrev pub AllOf {κ} : (Text → Type κ) → (V → Type κ) → Dict V → Type κ
  AllOf K W m = All (λ (p : Text × V). K p.0 × W p.1) m

  pub insert-AllOf {κ} :
      (K : Text → Type κ) (W : V → Type κ) (k : Text) (v : V) (m : Dict V)
      → K k
      → W v
      → AllOf K W m
      → AllOf K W (insert k v m)
  unfolding insert
  insert-AllOf K W k v [] key val h = ((key, val), tt)
  insert-AllOf K W k v ((j, w) ∷ m) key val ((kj, wj), h) = elim (Bool-cases (text_eq j k)) [
    | inl e ↦ rw e ((kj, val), h)
    | inr e ↦ rw e ((kj, wj), insert-AllOf K W k v m key val h)
  ]

  pub remove-AllOf {κ} :
      (K : Text → Type κ) (W : V → Type κ) (k : Text) (m : Dict V)
      → AllOf K W m
      → AllOf K W (remove k m)
  unfolding remove
  remove-AllOf K W k [] h = tt
  remove-AllOf K W k ((j, w) ∷ m) (hj, h) = elim (Bool-cases (text_eq j k)) [
    | inl e ↦ rw e (remove-AllOf K W k m h)
    | inr e ↦ rw e (hj, remove-AllOf K W k m h)
  ]

  pub lookup-AllOf {κ} :
      (K : Text → Type κ) (W : V → Type κ) (k : Text) (v : V) (m : Dict V)
      → lookup k m ≡ some v
      → AllOf K W m
      → W v
  unfolding lookup
  lookup-AllOf K W k v [] e h = absurd (none-ne-some v e)
  lookup-AllOf K W k v ((j, w) ∷ m) e ((kj, wj), h) = elim (Bool-cases (text_eq j k)) [
    | inl b ↦ subst W (some-inj (rw b at e)) wj
    | inr b ↦ lookup-AllOf K W k v m (rw b at e) h
  ]

  pub remove-NodupKeys : (k : Text) (m : Dict V) → NodupKeys m → NodupKeys (remove k m)
  unfolding remove
  remove-NodupKeys k [] h = tt
  remove-NodupKeys k ((j, w) ∷ m) (fresh, h) = elim (Bool-cases (text_eq j k)) [
    | inl e ↦ rw e (remove-NodupKeys k m h)
    | inr e ↦ rw e (ground (arith, lookup-remove k j m), remove-NodupKeys k m h)
  ]

  lookup-cons :
      (k j : Text) (v : V) (m : Dict V)
      → lookup j ((k, v) ∷ m) ≡ (if text_eq k j then some v else lookup j m)
  unfolding lookup
  lookup-cons k j v m = refl

  lookup-same : (k j : Text) (m : Dict V) → lookup k m ≡ none → k ≡ j → lookup j m ≡ none
  lookup-same k j m h e = rw (← e) h

  abbrev pub or_else : Option V → Option V → Option V
  or_else (some v) d = some v
  or_else none d = d

  -- After a merge a key has its value in `src`, if it is there, and what it had otherwise.
  pub lookup-merge :
      (src dst : Dict V) (j : Text)
      → NodupKeys src
      → lookup j (merge dst src) ≡ or_else (lookup j src) (lookup j dst)
  unfolding merge
  lookup-merge [] dst j h = unfold lookup in refl
  lookup-merge ((k, v) ∷ src) dst j (fresh, h) = ground (
    arith,
    lookup-merge src (insert k v dst) j h,
    lookup-insert k j v dst,
    text_eq_iff k j,
    lookup-cons k j v src,
    lookup-same k j src,
  )

  insert_self : (k : Text) (v : V) (m : Dict V) → lookup k m ≡ some v → insert k v m ≡ m
  unfolding lookup insert
  insert_self k v [] h = cc
  insert_self k v ((j, w) ∷ m) h = ground (arith, insert_self k v m)

  -- Every pair of `src` is in `m`.
  abbrev pub Holds : Dict V → Dict V → Type ℓ
  Holds m [] = Unit
  Holds m ((k, v) ∷ src) = (lookup k m ≡ some v) × Holds m src

  pub merge_self : (src m : Dict V) → Holds m src → merge m src ≡ m
  unfolding merge
  merge_self [] m h = refl
  merge_self ((k, v) ∷ src) m (e, h) =
      ap (λ (t : Dict V). merge t src) (insert_self k v m e) ∙ merge_self src m h

  Holds-weaken :
      (src m n : Dict V)
      → ((k : Text) (v : V) → lookup k m ≡ some v → lookup k n ≡ some v)
      → Holds m src
      → Holds n src
  Holds-weaken [] m n f h = tt
  Holds-weaken ((k, v) ∷ src) m n f (e, h) = (f k v e, Holds-weaken src m n f h)

  self-Holds : (src : Dict V) → NodupKeys src → Holds src src
  self-Holds [] h = tt
  self-Holds ((k, v) ∷ src) (fresh, h) = (
    unfold lookup in rw text_eq_refl,
    Holds-weaken src src _
        (λ j w e. ground (arith, lookup-cons k j v src, text_eq_iff k j, lookup-same k j src fresh))
        (self-Holds src h),
  )

  pub merge-Holds : (src dst : Dict V) → NodupKeys src → Holds (merge dst src) src
  merge-Holds src dst h =
      Holds-weaken src src _
        (λ k v e. lookup-merge src dst k h ∙ ap (λ o. or_else o (lookup k dst)) e)
        (self-Holds src h)

  -- Merging the same labels again changes nothing.
  pub merge_idem : (src dst : Dict V) → NodupKeys src → merge (merge dst src) src ≡ merge dst src
  merge_idem src dst h = merge_self src (merge dst src) (merge-Holds src dst h)

-- m[k], with the zero value "" of a map of strings
abbrev pub text_or_empty : Option Text → Text
text_or_empty none = []
text_or_empty (some v) = v

abbrev pub get : Text → Dict Text → Text
get k m = text_or_empty (lookup k m)
