-- ===== src/Operator/Reconcile.antt =====
-- The reconciler, operator/internal/controller/dezhanvault_controller.go. Log lines are left out.
use dezhan.Base.{
  ℕ, ◌++◌, Bool, false, Option, none, some, if◌then◌else◌, Result, ok, err, Exec, pure, fail, ◌>>=◌,
  ◌>>◌, nil_or,
}
use dezhan.Text.{Text, codes, ℤ, itoa, is_pos}
use dezhan.Operator.Types.{Platform, Vault, VaultStatus}
use dezhan.Operator.Objects.{
  Service, StatefulSet, Claim, DisruptionBudget, apply_defaults, mutate_service,
  mutate_stateful_set, mutate_budget,
}
use dezhan.Operator.Pod.{data_volume}

pub record Key : Type 0 where
  pub namespace : Text
  pub name : Text

-- controllerutil.OperationResult
pub data Operation : Type 0 where
  unchanged created updated : Operation

pub data EventType : Type 0 where
  normal warning : EventType

-- metav1.Condition without the time that SetStatusCondition fills in
pub record Condition : Type 0 where
  pub kind : Text
  pub observed_generation : ℤ
  pub status : Text
  pub reason : Text
  pub message : Text

-- the operator's events, their texts as data
pub data Event (P : Platform) : Type 0 where
  reconciled : Text → Operation → Event P
  expanded : Text → Text → Event P
  failed : Text → P.Error → Event P

module _ (P : Platform) where
  abbrev pub Do : Type 0 → Type 0
  Do A = Exec P.World P.Error A

-- The API server behind the controller-runtime client. `upsert_…` is CreateOrUpdate on an object of
-- that key; `record_event` is none where the reconciler has no recorder.
pub record Api (P : Platform) : Type 0 where
  pub get_vault : Key → Do P (Vault P)
  pub get_stateful_set : Key → Do P (StatefulSet P)
  pub get_claim : Key → Do P (Claim P)
  pub patch_claim : Key → Claim P → Claim P → P.World → Option P.Error × P.World
  pub patch_status : Key → Vault P → Vault P → P.World → Option P.Error × P.World
  pub delete_budget : Key → P.World → Option P.Error × P.World
  pub upsert_service : Key → (Service P → Result P.Error (Service P)) → Do P Operation
  pub upsert_stateful_set : Key → (StatefulSet P → Result P.Error (StatefulSet P)) → Do P Operation
  pub upsert_budget :
      Key → (DisruptionBudget P → Result P.Error (DisruptionBudget P)) → Do P Operation
  pub set_controller_reference : Vault P → P.Refs → Result P.Error P.Refs
  pub set_status_condition : P.World → P.Conditions → Condition → P.Conditions
  pub record_event : Option (EventType → Event P → P.World → P.World)

-- ctrl.Result: the time to wait before the next pass
pub record Outcome : Type 0 where
  pub requeue_after : Option ℕ

abbrev pub requeue_wait : ℕ
requeue_wait = 20

abbrev pub done : Outcome
done = record { requeue_after = none }

module _ {P : Platform} (K : Api P) where
  abbrev pub key_of : Vault P → Key
  key_of v = record { namespace = v.meta.namespace; name = v.meta.name }

  abbrev pub emit :
      Option (EventType → Event P → P.World → P.World) → EventType → Event P → Do P Unit
  emit none t e w = (ok tt, w)
  emit (some f) t e w = (ok tt, f t e w)

  -- client.IgnoreNotFound
  abbrev pub ignore_not_found : P.Error → Do P Unit
  ignore_not_found e = if P.is_not_found e then pure tt else fail e

  abbrev pub nil_unless_missing : Option P.Error × P.World → Result P.Error (Unit {0}) × P.World
  nil_unless_missing (none, w) = (ok tt, w)
  nil_unless_missing (some e, w) = ignore_not_found e w

  -- `if err := r.Get(…); err != nil { return client.IgnoreNotFound(err) }`, then the rest
  abbrev pub found_or :
      {A B : Type 0} → Result P.Error A × P.World → B → (A → Do P B) → Result P.Error B × P.World
  found_or (ok a, w) b f = f a w
  found_or (err e, w) b f = if P.is_not_found e then (ok b, w) else (err e, w)

  abbrev pub report : Text → Operation → Do P Unit
  report what unchanged = pure tt
  report what op = emit K.record_event normal (reconciled what op)

  unfoldable pub reconcile_service : Vault P → Do P Unit
  reconcile_service v = do
    op ← K.upsert_service (key_of v) (mutate_service P K.set_controller_reference v)
    report (codes "service") op

  unfoldable pub reconcile_stateful_set : Vault P → Do P Unit
  reconcile_stateful_set v = do
    op ← K.upsert_stateful_set (key_of v) (mutate_stateful_set P K.set_controller_reference v)
    report (codes "statefulset") op

  unfoldable pub reconcile_budget : Vault P → Do P Unit
  reconcile_budget v =
      if v.spec.disable_pod_disruption_budget
      then (λ w. nil_unless_missing (K.delete_budget (key_of v) w))
      else (K.upsert_budget (key_of v) (mutate_budget P K.set_controller_reference v) >>= λ op.
          pure tt)

  unfoldable pub claim_key : Vault P → Key
  claim_key v = record {
    namespace = v.meta.namespace;
    name = data_volume ++ (codes "-" ++ (v.meta.name ++ codes "-0"));
  }

  -- the size in the map, the zero quantity where it is missing
  abbrev pub current : Option P.Quantity → P.Quantity
  current none = P.zero_quantity
  current (some q) = q

  -- not v.Spec.Storage.Cmp(cur) <= 0
  unfoldable pub must_grow : Vault P → Claim P → Bool
  must_grow v claim = is_pos (P.cmp v.spec.storage (current claim.storage))

  -- what is done with the claim that was read
  unfoldable pub grow : Vault P → Claim P → Do P Unit
  unfolding must_grow claim_key
  grow v claim =
      if must_grow v claim
      then (nil_or
            (K.patch_claim (claim_key v) claim (record claim { storage = some v.spec.storage }))
          >> emit K.record_event normal
              (expanded (claim_key v).name (P.quantity_text v.spec.storage)))
      else pure tt

  unfoldable pub reconcile_claim : Vault P → Do P Unit
  unfolding grow claim_key
  reconcile_claim v w = found_or (K.get_claim (claim_key v) w) tt (grow v)

  unfoldable pub endpoint_of : Vault P → Text
  unfolding itoa
  endpoint_of v =
      v.meta.name ++ (codes "." ++ (v.meta.namespace ++ (codes ".svc:" ++ itoa v.spec.port)))

  unfoldable pub condition_of : ℤ → Bool → Condition
  condition_of generation ready = record {
    kind = codes "Available";
    observed_generation = generation;
    status = if ready then codes "True" else codes "False";
    reason = if ready then codes "StatefulSetReady" else codes "StatefulSetNotReady";
    message = if ready then codes "vault pod is ready" else codes "vault pod is not ready";
  }

  unfoldable pub status_of : Vault P → Vault P → Bool → P.World → VaultStatus P
  unfolding endpoint_of condition_of
  status_of v cur ready w = record {
    observed_generation = cur.meta.generation;
    ready = ready;
    endpoint = endpoint_of v;
    conditions =
        K.set_status_condition w cur.status.conditions (condition_of cur.meta.generation ready);
  }

  unfoldable pub update_status : Vault P → Bool → Do P Unit
  unfolding status_of
  update_status v ready w = found_or (K.get_vault (key_of v) w) tt (λ cur w.
      nil_or (K.patch_status (key_of v) cur (record cur { status = status_of v cur ready w })) w)

  -- fail: an event, the status, and the error
  unfoldable pub fail_with : Vault P → Text → P.Error → Do P Outcome
  fail_with v reason e w =
      (err e, (update_status v false (emit K.record_event warning (failed reason e) w).1).1)

  -- `if err := …; err != nil { return r.fail(…) }`, then the rest
  abbrev pub attempt :
      Vault P
      → Text
      → Result P.Error (Unit {0}) × P.World
      → Do P Outcome
      → Result P.Error Outcome × P.World
  attempt v reason (ok t, w) next = next w
  attempt v reason (err e, w) next = fail_with v reason e w

  abbrev pub is_ready : StatefulSet P → Bool
  is_ready sts = is_pos sts.ready_replicas

  -- the end of a pass, after the four objects
  unfoldable pub finish : Key → Vault P → Do P Outcome
  finish key v = do
    sts ← K.get_stateful_set key
    update_status v (is_ready sts)
    pure (if is_ready sts then done else record { requeue_after = some requeue_wait })

  -- the work of a pass on a vault that has its defaults
  unfoldable pub converge : Key → Vault P → Do P Outcome
  converge key v w = attempt v (codes "ServiceError") (reconcile_service v w) (λ w.
      attempt v (codes "StatefulSetError") (reconcile_stateful_set v w) (λ w.
        attempt v (codes "ExpansionError") (reconcile_claim v w)
          (λ w. attempt v (codes "PDBError") (reconcile_budget v w) (λ w. finish key v w))))

  unfoldable pub reconcile : Key → Do P Outcome
  reconcile key w =
      found_or (K.get_vault key w) done
        (λ vault. if vault.meta.deleted then pure done else converge key (apply_defaults P vault))
