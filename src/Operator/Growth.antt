-- ===== src/Operator/Growth.antt =====
-- About the storage of a vault: reconcilePVCExpansion of the operator's reconciler.
use dezhan.Base.{
  ◌≡◌, refl, true, Option, none, some, Result, ok, err, checked, continue, inl, inr, Bool-cases,
}
use dezhan.Text.{is_pos}
use dezhan.Operator.Types.{Platform, Vault}
use dezhan.Operator.Objects.{Claim}
use dezhan.Operator.Reconcile.{
  Api, Key, EventType, Event, normal, emit, current, must_grow, grow, claim_key, reconcile_claim,
  found_or,
}

module _ {P : Platform} (K : Api P) where
  -- An invariant of the world that the API calls of this step keep: reading a claim, recording an
  -- event, and asking for more storage than a claim has.
  pub record IsKept (Inv : P.World → Type 0) : Type 0 where
    pub reads : (k : Key) (w : P.World) → Inv w → Inv (K.get_claim k w).1
    pub events :
        (f : EventType → Event P → P.World → P.World) (t : EventType) (e : Event P) (w : P.World)
        → K.record_event ≡ some f
        → Inv w
        → Inv (f t e w)
    pub grows :
        (k : Key) (claim : Claim P) (size : P.Quantity) (w : P.World)
        → is_pos (P.cmp size (current K claim.storage)) ≡ true
        → Inv w
        → Inv (K.patch_claim k claim (record claim { storage = some size }) w).1

  emit-Inv :
      (Inv : P.World → Type 0) (kept : IsKept Inv) (t : EventType) (e : Event P) (w : P.World)
      → Inv w
      → Inv (emit K K.record_event t e w).1
  emit-Inv Inv kept t e w i = go K.record_event refl
    where
      go :
          (o : Option (EventType → Event P → P.World → P.World))
          → K.record_event ≡ o
          → Inv (emit K o t e w).1
      go none h = i
      go (some f) h = kept.events f t e w h i

  patched-Inv :
      (Inv : P.World → Type 0) (kept : IsKept Inv) (x : Option P.Error × P.World) (e : Event P)
      → Inv x.1
      → Inv (continue (checked x) (λ _. emit K K.record_event normal e)).1
  patched-Inv Inv kept (none, v) e i = emit-Inv Inv kept normal e v i
  patched-Inv Inv kept (some f, v) e i = i

  grow-Inv :
      (Inv : P.World → Type 0) (kept : IsKept Inv) (v : Vault P) (claim : Claim P) (w : P.World)
      → Inv w
      → Inv (grow K v claim w).1
  unfolding grow
  grow-Inv Inv kept v claim w i = elim (Bool-cases (must_grow K v claim)) [
    | inl h ↦
        rw (h, grow)
          (patched-Inv Inv kept
            (K.patch_claim (claim_key K v) claim (record claim { storage = some v.spec.storage }) w)
            _ (kept.grows (claim_key K v) claim v.spec.storage w (unfold must_grow in h) i))
    | inr h ↦ rw (h, grow) i
  ]

  found_or-Inv :
      {A B : Type 0} (Inv : P.World → Type 0) (x : Result P.Error A × P.World) (b : B)
      (f : A → P.World → Result P.Error B × P.World)
      → ((a : A) (w : P.World) → Inv w → Inv (f a w).1)
      → Inv x.1
      → Inv (found_or K x b f).1
  found_or-Inv Inv (ok a, w) b f h i = h a w i
  found_or-Inv Inv (err e, w) b f h i = elim (Bool-cases (P.is_not_found e)) [
    | inl k ↦ rw k i
    | inr k ↦ rw k i
  ]

  -- The step never shrinks a volume, and does nothing else to it: whatever is kept by reading claims,
  -- by recording events and by patches that ask for a larger storage and leave the rest of the claim
  -- as it was read, is kept by the step, on every path, errors included.
  pub reconcile_claim-Inv :
      (Inv : P.World → Type 0)
      → IsKept Inv
      → (v : Vault P) (w : P.World) → Inv w
      → Inv (reconcile_claim K v w).1
  unfolding reconcile_claim
  reconcile_claim-Inv Inv kept v w i =
      found_or-Inv Inv (K.get_claim (claim_key K v) w) tt (grow K v) (grow-Inv Inv kept v)
        (kept.reads (claim_key K v) w i)
