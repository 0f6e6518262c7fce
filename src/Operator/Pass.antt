-- ===== src/Operator/Pass.antt =====
-- About a whole pass: Reconcile of the operator's reconciler.
use dezhan.Base.{
  ◌≡◌, refl, ap, sym, subst, ◌∙◌, [], ◌∷◌, List, Bool, false, true, Option, none, some, ◌⊎◌, inl,
  inr, Bool-cases, checked, nil_or, if◌then◌else◌, Result, ok, err, pure, >>=-ok, continue, arith,
}
use dezhan.Text.{Text, codes, is_pos}
use dezhan.Operator.Types.{Platform, Vault}
use dezhan.Operator.Objects.{apply_defaults, StatefulSet}
use dezhan.Operator.Reconcile.{
  Api, Key, Do, Outcome, done, reconcile_service, reconcile_stateful_set, reconcile_claim,
  reconcile_budget, attempt, finish, converge, reconcile, update_status, fail_with, found_or,
  key_of, status_of,
}

module _ {P : Platform} (K : Api P) where
  -- The steps of a pass, in order, each with the reason of its event.
  abbrev pub steps : Vault P → List (Text × Do P Unit)
  steps v =
      (codes "ServiceError", reconcile_service K v)
      ∷ (codes "StatefulSetError", reconcile_stateful_set K v)
      ∷ (codes "ExpansionError", reconcile_claim K v)
      ∷ (codes "PDBError", reconcile_budget K v)
      ∷ []

  -- Steps that run to the end, from one world to another.
  pub data Runs : List (Text × Do P Unit) → P.World → P.World → Type 0 where
    ended : {w : P.World} → Runs [] w w
    ran :
        {reason : Text} {step : Do P Unit} {rest : List (Text × Do P Unit)} {w u v : P.World}
        → step w ≡ (ok tt, u)
        → Runs rest u v
        → Runs ((reason, step) ∷ rest) w v

  -- Steps of which one fails, the earlier ones having run.
  pub data Fails : List (Text × Do P Unit) → P.World → Text → P.Error → P.World → Type 0 where
    here :
        {reason : Text} {step : Do P Unit} {rest : List (Text × Do P Unit)} {w u : P.World}
        {e : P.Error}
        → step w ≡ (err e, u)
        → Fails ((reason, step) ∷ rest) w reason e u
    later :
        {reason cause : Text} {step : Do P Unit} {rest : List (Text × Do P Unit)} {w u v : P.World}
        {e : P.Error}
        → step w ≡ (ok tt, u)
        → Fails rest u cause e v
        → Fails ((reason, step) ∷ rest) w cause e v

  -- the steps one after the other, and then the rest of the pass
  in_order : Vault P → List (Text × Do P Unit) → Do P Outcome → Do P Outcome
  in_order v [] next w = next w
  in_order v ((reason, step) ∷ rest) next w = attempt K v reason (step w) (in_order v rest next)

  -- How a pass over these steps can go.
  pub data Ends (ss : List (Text × Do P Unit)) (v : Vault P) (key : Key) (w : P.World)
      : Result P.Error Outcome × P.World → Type 0 where
    finished : {u : P.World} → Runs ss w u → Ends ss v key w (finish K key v u)
    stopped :
        {reason : Text} {e : P.Error} {u : P.World}
        → Fails ss w reason e u
        → Ends ss v key w (fail_with K v reason e u)

  after :
      {reason : Text} {step : Do P Unit} {rest : List (Text × Do P Unit)} {v : Vault P} {key : Key}
      {w u : P.World} {x : Result P.Error Outcome × P.World}
      → step w ≡ (ok tt, u)
      → Ends rest v key u x
      → Ends ((reason, step) ∷ rest) v key w x
  after h (finished r) = finished (ran h r)
  after h (stopped f) = stopped (later h f)

  in_order-Ends :
      (ss : List (Text × Do P Unit)) (v : Vault P) (key : Key) (w : P.World)
      → Ends ss v key w (in_order v ss (finish K key v) w)
  unfolding in_order
  in_order-Ends [] v key w = finished ended
  in_order-Ends ((reason, step) ∷ rest) v key w = go (step w) refl (λ u. in_order-Ends rest v key u)
    where
      go :
          (x : Result P.Error (Unit {0}) × P.World)
          → step w ≡ x
          → ((u : P.World) → Ends rest v key u (in_order v rest (finish K key v) u))
          → Ends
              ((reason, step) ∷ rest)
              v
              key
              w
              (attempt K v reason x (in_order v rest (finish K key v)))
      go (ok t, u) h next = after h (next u)
      go (err e, u) h next = stopped (here h)

  converge-in_order :
      (v : Vault P) (key : Key) (w : P.World)
      → converge K key v w ≡ in_order v (steps v) (finish K key v) w
  unfolding converge in_order
  converge-in_order v key w = refl

  reconcile-found :
      (key : Key) (vault : Vault P) (w u : P.World)
      → K.get_vault key w ≡ (ok vault, u)
      → vault.meta.deleted ≡ false
      → reconcile K key w ≡ converge K key (apply_defaults P vault) u
  unfolding reconcile
  reconcile-found key vault w u h d =
      ap
        (λ x. found_or K x done (λ vault.
          if vault.meta.deleted then pure done else converge K key (apply_defaults P vault)))
        h
      ∙ ap (λ b. (if b then pure done else converge K key (apply_defaults P vault)) u) d

  -- A pass on a vault that exists and is not being deleted goes through the Service, the StatefulSet,
  -- the claim and the disruption budget in this order, on the vault with its defaults. Either all four
  -- succeed and the pass goes on to the status, or one fails: then no later one is touched, and the
  -- pass ends with the failure, in the world that this step has left, under this step's reason.
  pub reconcile-Ends :
      (key : Key) (vault : Vault P) (w u : P.World)
      → K.get_vault key w ≡ (ok vault, u)
      → vault.meta.deleted ≡ false
      → Ends (steps (apply_defaults P vault)) (apply_defaults P vault) key u (reconcile K key w)
  reconcile-Ends key vault w u h d =
      subst (Ends (steps (apply_defaults P vault)) (apply_defaults P vault) key u)
        (sym (reconcile-found key vault w u h d ∙ converge-in_order (apply_defaults P vault) key u))
        (in_order-Ends (steps (apply_defaults P vault)) (apply_defaults P vault) key u)

  fail_with-err :
      (v : Vault P) (reason : Text) (e : P.Error) (w : P.World)
      → (fail_with K v reason e w).0 ≡ err e
  unfolding fail_with
  fail_with-err v reason e w = refl

  put_then :
      (x : Result P.Error (Unit {0}) × P.World) (o out : Outcome)
      → (continue x (λ _. pure o)).0 ≡ ok out
      → (x ≡ (ok tt, (continue x (λ _. pure o)).1)) × (out ≡ o)
  put_then (ok tt, u) o out h = (refl, cc)
  put_then (err e, u) o out h = cc

  -- How the status of the vault is settled from `x` on: the vault is read again, and either it is gone,
  -- and nothing is written, or the patch of its status from what was read is accepted.
  abbrev StatusSettled : Vault P → Bool → P.World → P.World → Type 0
  StatusSettled v ready x end =
      ((e : P.Error) × (K.get_vault (key_of K v) x ≡ (err e, end)) × (P.is_not_found e ≡ true))
      ⊎ ((cur : Vault P) × (u : P.World) × (K.get_vault (key_of K v) x ≡ (ok cur, u))
          × (K.patch_status (key_of K v) cur (record cur { status = status_of K v cur ready u }) u
              ≡ (none, end)))

  -- How a pass ends well in `x`, after its steps: the StatefulSet could be read, the status is settled,
  -- ready exactly if there is a ready replica, and another pass is wanted in 20 seconds if there is none.
  abbrev pub Settled : Vault P → Key → P.World → Outcome → P.World → Type 0
  Settled v key x out end =
      (sts : StatefulSet P) × ((K.get_stateful_set key x).0 ≡ ok sts)
      × StatusSettled v (is_pos sts.ready_replicas) (K.get_stateful_set key x).1 end
      × (out.requeue_after ≡ (if is_pos sts.ready_replicas then none else some 20))

  err-ne-ok : (e : P.Error) → ◌≡◌ {A = Result P.Error (Unit {0})} (err e) (ok tt) → ⊥
  err-ne-ok e h = cc

  patched :
      (x : Option P.Error × P.World) (end : P.World) → checked x ≡ (ok tt, end) → x ≡ (none, end)
  patched (none, w) end h = ap (λ (y : Result P.Error (Unit {0}) × P.World). (none, y.1)) h
  patched (some e, w) end h =
      absurd (err-ne-ok e (ap (λ (y : Result P.Error (Unit {0}) × P.World). y.0) h))

  found_or-settled :
      (v : Vault P) (ready : Bool) (x end : P.World) (r : Result P.Error (Vault P) × P.World)
      → K.get_vault (key_of K v) x ≡ r
      → found_or K r tt (λ cur w.
        nil_or
          (K.patch_status (key_of K v) cur (record cur { status = status_of K v cur ready w }))
          w)
        ≡ (ok tt, end)
      → StatusSettled v ready x end
  found_or-settled v ready x end (ok cur, u) e h = inr (cur, u, e, patched _ end h)
  found_or-settled v ready x end (err f, u) e h = elim (Bool-cases (P.is_not_found f)) [
    | inl t ↦
        let same : u ≡ end = ap (λ (y : Result P.Error (Unit {0}) × P.World). y.1) (rw t at h) in
        inl (f, e ∙ ap (λ (z : P.World). (err f, z)) same, t)
    | inr t ↦
        absurd (err-ne-ok f (ap (λ (y : Result P.Error (Unit {0}) × P.World). y.0) (rw t at h)))
  ]

  update_status-settled :
      (v : Vault P) (ready : Bool) (x end : P.World)
      → update_status K v ready x ≡ (ok tt, end)
      → StatusSettled v ready x end
  unfolding update_status
  update_status-settled v ready x end h = found_or-settled v ready x end _ refl h

  finish-ok :
      (v : Vault P) (key : Key) (x : P.World) (out : Outcome)
      → (finish K key v x).0 ≡ ok out
      → Settled v key x out (finish K key v x).1
  unfolding finish
  finish-ok v key x out h =
      let (sts, got, rest, same) = >>=-ok (K.get_stateful_set key) _ x h in
      let (put, o) = put_then _ _ out rest in
      let ready = is_pos sts.ready_replicas in
      (
        sts,
        got,
        update_status-settled v ready (K.get_stateful_set key x).1 _ (rw same put),
        rw o (ground arith),
      )

  -- A pass on a vault that exists and is not being deleted reports success only if the four steps have
  -- succeeded, in their order, where the claim's does nothing without a claim and the budget's takes a
  -- disabled budget away; the StatefulSet could then be read; and the vault was read again, and is
  -- either gone, or its status was patched from what was read: ready exactly if the StatefulSet has a
  -- ready replica. It asks for another pass after 20 seconds exactly if it has none.
  pub reconcile-ok :
      (key : Key) (vault : Vault P) (w u : P.World) (out : Outcome)
      → K.get_vault key w ≡ (ok vault, u)
      → vault.meta.deleted ≡ false
      → (reconcile K key w).0 ≡ ok out
      → (x : P.World) × Runs (steps (apply_defaults P vault)) u x
        × Settled (apply_defaults P vault) key x out (reconcile K key w).1
  reconcile-ok key vault w u out h d s = go _ (reconcile-Ends key vault w u h d) s
    where
      go :
          (r : Result P.Error Outcome × P.World)
          → Ends (steps (apply_defaults P vault)) (apply_defaults P vault) key u r
          → r.0 ≡ ok out
          → (x : P.World) × Runs (steps (apply_defaults P vault)) u x
            × Settled (apply_defaults P vault) key x out r.1
      go r (finished {u = x} runs) k = (x, runs, finish-ok (apply_defaults P vault) key x out k)
      go r (stopped {reason = reason} {e = e} {u = x} f) k =
          let bad = fail_with-err (apply_defaults P vault) reason e x in cc
