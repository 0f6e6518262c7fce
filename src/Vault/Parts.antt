-- ===== src/Vault/Parts.antt =====
-- Get_Object on a list of parts, vault/src/dezhan-vault.adb.
use dezhan.Base.{
  ℕ, zero, suc, ◌+◌, ◌*◌, ◌≤◌, ◌++◌, [], ◌∷◌, List, true, false, ◌≡◌, refl, sym, ap, ◌∙◌, subst, ok,
  length, length-append, length-drop, take, drop, ltb, All, append-nil, append_assoc, arith, tests,
}
use dezhan.Text.{Text}
use dezhan.Vault.Content.{Cas, part_size, part_count, slices, part_ids, fetch_parts, fetch}

abbrev pub concat : List Text → Text
concat [] = []
concat (t ∷ ts) = t ++ concat ts

take_drop : (n : ℕ) (t : Text) → take n t ++ drop n t ≡ t
take_drop zero t = refl
take_drop (suc n) [] = refl
take_drop (suc n) (c ∷ t) = ap (λ (s : Text). c ∷ s) (take_drop n t)

take-length : (s t : Text) → take (length s) (s ++ t) ≡ s
take-length [] t = refl
take-length (c ∷ s) t = ap (λ (r : Text). c ∷ r) (take-length s t)

drop-length : (s t : Text) → drop (length s) (s ++ t) ≡ t
drop-length [] t = refl
drop-length (c ∷ s) t = drop-length s t

drop-all : (n : ℕ) (t : Text) → length t ≤ n → drop n t ≡ []
drop-all zero [] h = refl
drop-all zero (c ∷ t) h = grind arith
drop-all (suc n) [] h = refl
drop-all (suc n) (c ∷ t) h = drop-all n t (omega arith)

no_length : (t : Text) → length t ≤ 0 → t ≡ []
no_length [] h = refl
no_length (c ∷ t) h = grind arith

pub concat-slices : (n size : ℕ) (t : Text) → length t ≤ n * size → concat (slices n size t) ≡ t
concat-slices zero size t h = sym (no_length t (omega (arith, h)))
concat-slices (suc n) size t h =
    ap (λ (s : Text). take size t ++ s)
      (concat-slices n size (drop size t) (omega (arith, length-drop size t, h)))
    ∙ take_drop size t

pub parts_cover : (n : ℕ) → n ≤ part_count n * part_size
parts_cover n = omega arith

abbrev pub Is64 : Text → Type 0
Is64 id = length id ≡ 64

pub length-concat : (ids : List Text) → All Is64 ids → length (concat ids) ≡ 64 * length ids
length-concat [] h = refl
length-concat (i ∷ ids) (h, hs) = omega (arith, length-append i (concat ids), length-concat ids hs)

slices-concat : (ids : List Text) → All Is64 ids → slices (length ids) 64 (concat ids) ≡ ids
slices-concat [] h = refl
slices-concat (i ∷ ids) (h, hs) =
    let rest = concat ids in
    rw (subst (λ (n : ℕ). take n (i ++ rest) ≡ i) h (take-length i rest)) (
      rw (subst (λ (n : ℕ). drop n (i ++ rest) ≡ rest) h (drop-length i rest))
        (ap (λ (l : List Text). i ∷ l) (slices-concat ids hs)))

part_ids-concat : (ids : List Text) → All Is64 ids → part_ids (concat ids) ≡ ids
part_ids-concat ids h =
    ap (λ (n : ℕ). slices n 64 (concat ids)) (omega (arith, length-concat ids h))
    ∙ slices-concat ids h

module _ (S : Cas) where
  -- The ids give the parts.
  abbrev pub Gets : S.World → List Text → List Text → Type 0
  Gets w [] [] = Unit
  Gets w [] (p ∷ ps) = ⊥
  Gets w (i ∷ is) [] = ⊥
  Gets w (i ∷ is) (p ∷ ps) = (S.get i w ≡ ok p) × Gets w is ps

  -- the result, where the memory shows behind what is written
  abbrev filled : Text → Text → Text
  filled memory all = all ++ drop (length all) memory

  fetch_parts-ok :
      (is ps : List Text) (size : ℕ) (memory done : Text) (w : S.World)
      → Gets w is ps
      → length done + length (concat ps) ≤ size
      → fetch_parts S is size memory done w ≡ ok (filled memory (done ++ concat ps))
  unfolding fetch_parts
  fetch_parts-ok [] [] size memory done w g l =
      ap (λ t. ok (filled memory t)) (sym (append-nil done))
  fetch_parts-ok [] (p ∷ ps) size memory done w g l = absurd g
  fetch_parts-ok (i ∷ is) [] size memory done w g l = absurd g
  fetch_parts-ok (i ∷ is) (p ∷ ps) size memory done w (e, g) l =
      let fits : ltb size (length (done ++ p)) ≡ false =
        grind (arith, tests, length-append done p, length-append p (concat ps)) in
      rw e (
        rw fits (
          fetch_parts-ok is ps size memory (done ++ p) w g
            (omega (arith, length-append done p, length-append p (concat ps)))
          ∙ ap (λ t. ok (filled memory t)) (append_assoc done p (concat ps))))

  filled-all : (memory all : Text) → length memory ≡ length all → filled memory all ≡ all
  filled-all memory all m =
      ap (λ (t : Text). all ++ t) (drop-all (length all) memory (omega (arith, m))) ∙ append-nil all

  pub fetch-list :
      (is ps : List Text) (bytes memory id : Text) (w : S.World)
      → S.get id w ≡ ok (concat is)
      → All Is64 is
      → Gets w is ps
      → concat ps ≡ bytes
      → length memory ≡ length bytes
      → fetch S id true (length bytes) memory w ≡ ok bytes
  unfolding fetch
  fetch-list is ps bytes memory id w e ids64 g whole m = rw e (
      rw (part_ids-concat is ids64) (
        fetch_parts-ok is ps (length bytes) memory [] w g (omega (arith, ap length whole))
        ∙ (ap (λ t. ok (filled memory t)) whole ∙ ap ok (filled-all memory bytes m))))
