-- ===== src/Vault/Whole.antt =====
-- What is put comes back whole, vault/src/dezhan-vault.adb, in one piece or in parts.
use dezhan.Base.{
  ◌++◌, [], ◌∷◌, List, Bool, true, ◌≡◌, ◌≢◌, refl, sym, ap, ◌∙◌, subst, Result, ok, err, Exec,
  length, leb, pure, continue, ◌>>=◌, >>=-ok, All, Bool-cases, inl, inr,
}
use dezhan.Text.{Text}
use dezhan.Vault.State.{Fault}
use dezhan.Vault.Content.{
  Cas, part_size, max_single, part_count, slices, put_parts, store_composite, composite,
  store_object, or_composite, fetch, is_too_large,
}
use dezhan.Vault.Parts.{concat, Is64, concat-slices, parts_cover, Gets, fetch-list}

abbrev stored : Text × Bool → Result Fault (Text × Bool)
stored p = ok p

ok-inj : {p q : Text × Bool} → stored p ≡ stored q → p ≡ q
ok-inj e = cc

err-ne-ok : (f : Fault) (p : Text × Bool) → err f ≢ ok p
err-ne-ok f p e = cc

-- From w to v every id goes on to give its bytes.
abbrev Keeps : (S : Cas) → S.World → S.World → Type 0
Keeps S w v = (id t : Text) → S.get id w ≡ ok t → S.get id v ≡ ok t

-- Ids have 64 characters. What has been put can be got, and stays when more is put.
pub record IsCas (S : Cas) : Type 0 where
  pub put_id : (t : Text) (w : S.World) {id : Text} → (S.put t w).0 ≡ ok id → length id ≡ 64
  pub put_get :
      (t : Text) (w : S.World) {id : Text} → (S.put t w).0 ≡ ok id → S.get id (S.put t w).1 ≡ ok t
  pub put_keeps :
      (t : Text) (w : S.World) (id u : Text) → S.get id w ≡ ok u → S.get id (S.put t w).1 ≡ ok u

module _ (S : Cas) (h : IsCas S) where
  continue-Keeps :
      {A B : Type 0} (w : S.World) (x : Result Fault A × S.World) (f : A → Exec S.World Fault B)
      → Keeps S w x.1
      → ((a : A) (v : S.World) → Keeps S v (f a v).1)
      → Keeps S w (continue x f).1
  continue-Keeps w (ok a, v) f k g = λ id t e. g a v id t (k id t e)
  continue-Keeps w (err e, v) f k g = k

  put_parts-Keeps : (ps : List Text) (w : S.World) → Keeps S w (put_parts S ps w).1
  unfolding put_parts
  put_parts-Keeps [] w = λ id t e. e
  put_parts-Keeps (p ∷ ps) w =
      continue-Keeps w (S.put p w) _ (h.put_keeps p w)
        (λ id v. continue-Keeps v (put_parts S ps v) _ (put_parts-Keeps ps v) (λ ids u i t e. e))

  put_parts-Gets :
      (ps : List Text) (w : S.World) {ids : Text}
      → (put_parts S ps w).0 ≡ ok ids
      → (is : List Text) × (ids ≡ concat is) × All Is64 is × Gets S (put_parts S ps w).1 is ps
  unfolding put_parts
  put_parts-Gets [] w e = ([], cc, tt, tt)
  put_parts-Gets (p ∷ ps) w {ids} e =
      let u = (S.put p w).1 in
      let (id, put, next, all) =
        >>=-ok (S.put p) (λ id. do ids ← put_parts S ps; pure (id ++ ids)) w e in
      let (rest, puts, last, all_rest) = >>=-ok (put_parts S ps) (λ ids. pure (id ++ ids)) u next in
      let (is, joined, ids64, gets) = put_parts-Gets ps u puts in
      (
        id ∷ is,
        cc,
        (h.put_id p w put, ids64),
        subst (λ (v : S.World). Gets S v (id ∷ is) (p ∷ ps))
            (sym (ap (λ (x : Result Fault Text × S.World). x.1) (all ∙ all_rest)))
            (put_parts-Keeps ps u id p (h.put_get p w put), gets),
      )

  Keeps-Gets : (w v : S.World) (is ps : List Text) → Keeps S w v → Gets S w is ps → Gets S v is ps
  Keeps-Gets w v [] [] k g = tt
  Keeps-Gets w v [] (p ∷ ps) k g = absurd g
  Keeps-Gets w v (i ∷ is) [] k g = absurd g
  Keeps-Gets w v (i ∷ is) (p ∷ ps) k (e, g) = (k i p e, Keeps-Gets w v is ps k g)

  -- A list of parts that have been put gives the whole.
  fetch_composite :
      (bytes memory : Text) (w : S.World) {id : Text}
      → (store_composite S bytes w).0 ≡ ok id
      → length memory ≡ length bytes
      → fetch S id true (length bytes) memory (store_composite S bytes w).1 ≡ ok bytes
  unfolding store_composite
  fetch_composite bytes memory w {id} e m =
      let count = part_count (length bytes) in
      let ps = slices count part_size bytes in
      let (ids, puts, last, all) = >>=-ok (put_parts S ps) S.put w e in
      let u = (put_parts S ps w).1 in
      let (is, joined, ids64, gets) = put_parts-Gets ps w puts in
      subst (λ (v : S.World). fetch S id true (length bytes) memory v ≡ ok bytes)
        (sym (ap (λ (x : Result Fault Text × S.World). x.1) all))
        (fetch-list S is ps bytes memory id (S.put ids u).1 (h.put_get ids u last ∙ ap ok joined)
          ids64 (Keeps-Gets u (S.put ids u).1 is ps (h.put_keeps ids u) gets)
          (concat-slices count part_size bytes (parts_cover (length bytes))) m)

  -- Under the id and the flag that came with the world, the bytes are there.
  abbrev Fetches : Text → Text → Result Fault (Text × Bool) × S.World → Type 0
  Fetches bytes memory x =
      (id : Text) (comp : Bool)
      → x.0 ≡ ok (id, comp)
      → fetch S id comp (length bytes) memory x.1 ≡ ok bytes

  composite-Fetches :
      (bytes memory : Text) (w : S.World)
      → length memory ≡ length bytes
      → Fetches bytes memory (composite S bytes w)
  composite-Fetches bytes memory w m id comp e =
      let (i, done, last, all) = >>=-ok (store_composite S bytes) (λ id. pure (id, true)) w e in
      let u = (store_composite S bytes w).1 in
      let same : (i, true) ≡ (id, comp) = ok-inj last in
      subst (λ (v : S.World). fetch S id comp (length bytes) memory v ≡ ok bytes)
        (sym (ap (λ (x : Result Fault (Text × Bool) × S.World). x.1) all))
        (subst (λ (p : Text × Bool). fetch S p.0 p.1 (length bytes) memory u ≡ ok bytes) same
          (fetch_composite bytes memory w done m))

  or_composite-Fetches :
      (bytes memory : Text) (x : Result Fault Text × S.World)
      → ((id : Text) → x.0 ≡ ok id → S.get id x.1 ≡ ok bytes)
      → length memory ≡ length bytes
      → Fetches bytes memory (or_composite S bytes x)
  unfolding fetch
  or_composite-Fetches bytes memory (ok i, w) g m = λ id comp e.
      subst (λ (p : Text × Bool). fetch S p.0 p.1 (length bytes) memory w ≡ ok bytes) (ok-inj e)
        (g i refl)
  or_composite-Fetches bytes memory (err f, w) g m = elim (Bool-cases (is_too_large f)) [
    | inl t ↦ rw t (composite-Fetches bytes memory w m)
    | inr t ↦ rw t (λ id comp e. absurd (err-ne-ok f (id, comp) e))
  ]

  -- Over a storage whose ids have 64 characters and that goes on giving what has been put: what has
  -- been stored is got back byte for byte, in one piece or in parts, whatever the memory of the result
  -- held, where that is as long as the bytes.
  pub store-fetch :
      (bytes memory : Text) (w : S.World) (id : Text) (comp : Bool)
      → length memory ≡ length bytes
      → (store_object S bytes w).0 ≡ ok (id, comp)
      → fetch S id comp (length bytes) memory (store_object S bytes w).1 ≡ ok bytes
  unfolding store_object
  store-fetch bytes memory w id comp m = elim (Bool-cases (leb (length bytes) max_single)) [
    | inl b ↦
        rw b
          (or_composite-Fetches bytes memory (S.put bytes w) (λ i e. h.put_get bytes w e) m id comp)
    | inr b ↦ rw b (composite-Fetches bytes memory w m id comp)
  ]
