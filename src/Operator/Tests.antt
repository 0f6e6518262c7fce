-- ===== src/Operator/Tests.antt =====
-- The operator against a small API server: its world is the list of the claim patches it has served,
-- each with the storage that the claim had and the storage asked for.
use dezhan.Base.{
  ℕ, ◌-◌, ◌<◌, ◌≡◌, ◌≢◌, refl, [], ◌∷◌, List, Bool, true, false, Option, none, some, Result, ok,
  err, All, length, arith, ◌==◌,
}
use dezhan.Text.{Text, codes, text_eq, pos, is_pos, itoa}
use dezhan.Operator.Types.{Platform, Meta, Vault}
use dezhan.Operator.Pod.{
  PodSpec, Container, apply_pod_spec, apply_container, apply_containers, blank_container,
}
use dezhan.Operator.Objects.{
  Service, StatefulSet, Claim, DisruptionBudget, apply_defaults, mutate_service,
  mutate_stateful_set, mutate_budget, set_service, set_stateful_set, set_budget,
}
use dezhan.Operator.Reconcile.{
  Api, Key, Condition, EventType, Event, Operation, created, current, must_grow, grow, claim_key,
  reconcile, converge, reconcile_service, reconcile_stateful_set, reconcile_claim, reconcile_budget,
  finish, update_status, status_of, endpoint_of, condition_of, done,
}
use dezhan.Operator.Growth.{IsKept, reconcile_claim-Inv}
use dezhan.Operator.Settle.{IsSettling, stored, mutate_stateful_set_idem, mutate_service-headless}
use dezhan.Operator.Containers.{
  own_container, others, apply_containers-others, apply_pod_spec-ne-defaulted,
}
use dezhan.Operator.Pass.{reconcile-Ends, reconcile-ok, Ends, Runs, Settled, steps}

abbrev platform : Platform
platform = record {
  World = List (ℕ × ℕ);
  Error = Text;
  Quantity = ℕ;
  Resources = Unit;
  Refs = Bool;
  Conditions = List Condition;
  Rest = ℕ;
  is_not_found = λ e. text_eq e (codes "NotFound");
  no_rest = 0;
  zero_quantity = 0;
  is_zero_quantity = λ n. n == 0;
  must_parse = λ t. length t;
  cmp = λ a b. pos (a - b);
  quantity_text = λ n. itoa (pos n);
}

abbrev meta : Bool → Meta platform
meta c = record {
  name = codes "v";
  namespace = codes "ns";
  labels = (codes "team", codes "backup") ∷ [];
  annotations = [];
  owners = false;
  generation = pos 3;
  created = c;
  deleted = false;
  rest = 7;
}

abbrev vault : Vault platform
vault = record {
  meta = meta true;
  spec = record {
    image = [];
    port = pos 0;
    storage = 9;
    storage_class_name = none;
    require_auth = true;
    delete_quorum = pos 2;
    scrub_interval_seconds = pos 0;
    secret_name = codes "keys";
    resources = tt;
    service_type = codes "ClusterIP";
    priority_class_name = [];
    disable_pod_disruption_budget = false;
  };
  status = record { observed_generation = pos 0; ready = false; endpoint = []; conditions = [] };
}

abbrev as_node_port : Vault platform
as_node_port = record vault { spec = record vault.spec { service_type = codes "NodePort" } }

abbrev service : Bool → Service platform
service c = record {
  meta = meta c;
  service_type = [];
  selector = [];
  cluster_ip = codes "10.0.0.1";
  ports = [];
  rest = 1;
}

abbrev sidecar : Container platform
sidecar = record (blank_container platform) { name = codes "proxy" }

abbrev probed : Container platform
probed = record (blank_container platform) {
  readiness_probe = some (record {
    path = codes "/healthz";
    port = pos 8080;
    scheme = codes "HTTP";
    initial_delay_seconds = pos 3;
    period_seconds = pos 10;
    timeout_seconds = pos 3;
    success_threshold = pos 1;
    failure_threshold = pos 3;
  });
}

abbrev pod : PodSpec platform
pod = record {
  security_context = none;
  priority_class_name = [];
  termination_grace_period_seconds = none;
  containers = sidecar ∷ probed ∷ [];
  rest = 5;
}

abbrev stateful_set : Bool → StatefulSet platform
stateful_set c = record {
  meta = meta c;
  replicas = none;
  min_ready_seconds = pos 0;
  retention_policy = none;
  selector = none;
  service_name = codes "old";
  volume_claim_templates = [];
  template_labels = [];
  template_spec = pod;
  ready_replicas = pos 1;
  rest = 2;
}

abbrev budget : DisruptionBudget platform
budget = record { meta = meta true; min_available = none; selector = none; rest = 2 }

abbrev claim : Claim platform
claim = record {
  name = codes "data-v-0";
  access_modes = [];
  storage_class_name = none;
  storage = some 4;
  rest = 0;
}

abbrev own : Vault platform → Bool → Result Text Bool
own v refs = ok true

abbrev upsert :
    {A : Type 0} → A → (A → Result Text A) → platform.World → Result Text Operation × platform.World
upsert a f w = elim (f a) [ ok b ↦ (ok created, w) | err e ↦ (err e, w) ]

abbrev claim_size : Claim platform → ℕ
claim_size c = elim c.storage [ none ↦ 0 | some n ↦ n ]

abbrev api : Api platform
api = record {
  get_vault = λ k w. (ok vault, w);
  get_stateful_set = λ k w. (ok (stateful_set true), w);
  get_claim = λ k w. (ok claim, w);
  patch_claim = λ k old new w. (none, (claim_size old, claim_size new) ∷ w);
  patch_status = λ k old new w. (none, w);
  delete_budget = λ k w. (some (codes "NotFound"), w);
  upsert_service = λ k f w. upsert (service false) f w;
  upsert_stateful_set = λ k f w. upsert (stateful_set true) f w;
  upsert_budget = λ k f w. upsert budget f w;
  set_controller_reference = own;
  set_status_condition = λ w cs c. c ∷ cs;
  record_event = none;
}

abbrev key : Key
key = record { namespace = codes "ns"; name = codes "v" }

abbrev service_set : Service platform
service_set = record (set_service platform vault (service false)) {
  meta = record (set_service platform vault (service false)).meta { owners = true };
}

abbrev stateful_set_set : Bool → StatefulSet platform
stateful_set_set c = record (set_stateful_set platform vault (stateful_set c)) {
  meta = record (set_stateful_set platform vault (stateful_set c)).meta { owners = true };
}

abbrev budget_set : DisruptionBudget platform
budget_set = record (set_budget platform vault budget) {
  meta = record (set_budget platform vault budget).meta { owners = true };
}

service_made :
    (c : Bool)
    → mutate_service platform own vault (service c)
      ≡ ok (record (set_service platform vault (service c)) {
        meta = record (set_service platform vault (service c)).meta { owners = true };
      })
unfolding mutate_service
service_made c = refl

stateful_set_made :
    (c : Bool) → mutate_stateful_set platform own vault (stateful_set c) ≡ ok (stateful_set_set c)
unfolding mutate_stateful_set
stateful_set_made c = refl

budget_made : mutate_budget platform own vault budget ≡ ok budget_set
unfolding mutate_budget
budget_made = refl

settling : IsSettling platform own
settling v r s h = h

-- what the API server has kept of the Service
abbrev service_kept : Service platform
service_kept = record service_set { meta = stored platform service_set.meta 11; rest = 12 }

-- what is kept of the StatefulSet, which has got ready
abbrev stateful_set_kept : StatefulSet platform
stateful_set_kept = record (stateful_set_set false) {
  meta = stored platform (stateful_set_set false).meta 11;
  ready_replicas = pos 1;
  rest = 12;
}

mutate_stateful_set_idem_example :
    mutate_stateful_set platform own vault stateful_set_kept ≡ ok stateful_set_kept
mutate_stateful_set_idem_example =
    mutate_stateful_set_idem platform own settling vault (stateful_set false)
      (stateful_set_set false) 11 12 (pos 1) (stateful_set_made false)

abbrev service_changed : Service platform
service_changed = record (set_service platform as_node_port service_kept) {
  meta = record (set_service platform as_node_port service_kept).meta { owners = true };
}

service_remade : mutate_service platform own as_node_port service_kept ≡ ok service_changed
unfolding mutate_service
service_remade = refl

mutate_service-headless_example :
    (service_changed.service_type ≡ codes "NodePort") × (service_changed.cluster_ip ≡ codes "None")
mutate_service-headless_example =
    mutate_service-headless platform own vault as_node_port (service false) service_set
      service_changed 11 12 refl refl (service_made false) service_remade

apply_containers-others_example :
    (others platform (apply_containers platform vault pod.containers) ≡ sidecar ∷ [])
    × (own_container platform (apply_containers platform vault pod.containers)
        ≡ some (apply_container platform vault probed))
unfolding text_eq
apply_containers-others_example = apply_containers-others platform vault pod.containers

http-ne : codes "HTTP" ≢ []
http-ne e = cc

apply_pod_spec-ne-defaulted_example : apply_pod_spec platform vault pod ≢ pod
unfolding text_eq
apply_pod_spec-ne-defaulted_example =
    apply_pod_spec-ne-defaulted platform vault pod probed _ refl refl http-ne

abbrev Grew : List (ℕ × ℕ) → Type 0
Grew w = All (λ (p : ℕ × ℕ). p.0 < p.1) w

asks-more :
    (o : Option ℕ) (size : ℕ)
    → is_pos (pos (size - current api o)) ≡ true
    → (elim o [ none ↦ 0 | some n ↦ n ]) < size
asks-more none size h = ground arith
asks-more (some n) size h = ground arith

none-ne : {f : EventType → Event platform → List (ℕ × ℕ) → List (ℕ × ℕ)} → none ≢ some f
none-ne h = cc

kept : IsKept api Grew
kept = record {
  reads = λ k w i. i;
  events = λ f t e w h i. absurd (none-ne h);
  grows = λ k claim size w h i. (asks-more claim.storage size h, i);
}

reconcile_claim-Inv_example : Grew (reconcile_claim api vault []).1
reconcile_claim-Inv_example = reconcile_claim-Inv api Grew kept vault [] tt

abbrev with_defaults : Vault platform
with_defaults = apply_defaults platform vault

reconcile-Ends_example :
    Ends api (steps api with_defaults) with_defaults key [] (reconcile api key [])
reconcile-Ends_example = reconcile-Ends api key vault [] [] refl refl

run : (reconcile api key []).0 ≡ ok done
unfolding reconcile converge reconcile_service reconcile_stateful_set reconcile_claim
    reconcile_budget grow must_grow claim_key finish update_status status_of endpoint_of
    condition_of mutate_service mutate_stateful_set mutate_budget apply_defaults
run = refl

reconcile-ok_example :
    (x : List (ℕ × ℕ)) × Runs api (steps api with_defaults) [] x
    × Settled api with_defaults key x done (reconcile api key []).1
reconcile-ok_example = reconcile-ok api key vault [] [] done refl refl run
