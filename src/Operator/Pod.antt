-- ===== src/Operator/Pod.antt =====
-- The pod of a vault: applyPodSpec, vaultEnv, vaultEnvFrom and healthProbe of
-- operator/internal/controller/dezhanvault_controller.go.
use dezhan.Base.{◌++◌, [], ◌∷◌, List, Bool, true, false, Option, none, some, if◌then◌else◌}
use dezhan.Text.{Text, codes, ℤ, pos, itoa, is_pos, text_eq}
use dezhan.Csi.Conn.{is_empty}
use dezhan.Operator.Types.{Platform, Vault}

-- corev1.Probe; 0 and the empty text stand for a field that is not set.
pub record Probe : Type 0 where
  pub path : Text
  pub port : ℤ
  pub scheme : Text
  pub initial_delay_seconds : ℤ
  pub period_seconds : ℤ
  pub timeout_seconds : ℤ
  pub success_threshold : ℤ
  pub failure_threshold : ℤ

-- corev1.SecurityContext
pub record SecurityContext : Type 0 where
  pub allow_privilege_escalation : Option Bool
  pub read_only_root_filesystem : Option Bool
  pub run_as_non_root : Option Bool
  pub drop : List Text
  pub seccomp_profile : Text

-- corev1.PodSecurityContext
pub record PodSecurityContext : Type 0 where
  pub run_as_non_root : Option Bool
  pub run_as_user : Option ℤ
  pub fs_group : Option ℤ

-- corev1.ContainerPort, the fields that are set
pub record Port : Type 0 where
  pub name : Text
  pub container_port : ℤ
  pub protocol : Text

module _ (P : Platform) where
  pub record Container : Type 0 where
    pub name : Text
    pub image : Text
    pub args : List Text
    pub env : List (Text × Text)
    pub env_from : List Text
    pub ports : List Port
    pub volume_mounts : List (Text × Text)
    pub resources : Option P.Resources
    pub readiness_probe : Option Probe
    pub liveness_probe : Option Probe
    pub startup_probe : Option Probe
    pub security_context : Option SecurityContext
    pub rest : P.Rest

  pub record PodSpec : Type 0 where
    pub security_context : Option PodSecurityContext
    pub priority_class_name : Text
    pub termination_grace_period_seconds : Option ℤ
    pub containers : List Container
    pub rest : P.Rest

abbrev pub container_name : Text
container_name = codes "dezhan"

abbrev pub data_volume : Text
data_volume = codes "data"

abbrev pub field_owner_uid : ℤ
field_owner_uid = pos 65532

unfoldable pub health_probe : ℤ → ℤ → Probe
health_probe port initial_delay = record {
  path = codes "/healthz";
  port = port;
  scheme = [];
  initial_delay_seconds = initial_delay;
  period_seconds = pos 10;
  timeout_seconds = pos 3;
  success_threshold = pos 0;
  failure_threshold = pos 3;
}

-- the startup probe of applyPodSpec: up to 60 × 5 seconds
unfoldable pub startup_probe : ℤ → Probe
startup_probe port = record {
  path = codes "/healthz";
  port = port;
  scheme = [];
  initial_delay_seconds = pos 0;
  period_seconds = pos 5;
  timeout_seconds = pos 0;
  success_threshold = pos 0;
  failure_threshold = pos 60;
}

abbrev restricted : SecurityContext
restricted = record {
  allow_privilege_escalation = some false;
  read_only_root_filesystem = some true;
  run_as_non_root = some true;
  drop = codes "ALL" ∷ [];
  seccomp_profile = codes "RuntimeDefault";
}

abbrev pod_security : PodSecurityContext
pod_security = record {
  run_as_non_root = some true;
  run_as_user = some field_owner_uid;
  fs_group = some field_owner_uid;
}

module _ (P : Platform) where
  unfoldable pub vault_env : Vault P → List (Text × Text)
  unfolding itoa
  vault_env v =
      (if v.spec.require_auth then (codes "DEZHAN_REQUIRE_AUTH", codes "1") ∷ [] else [])
      ++ ((if is_pos v.spec.delete_quorum
            then (codes "DEZHAN_DELETE_QUORUM", itoa v.spec.delete_quorum) ∷ []
            else [])
          ++ (if is_pos v.spec.scrub_interval_seconds
              then (codes "DEZHAN_SCRUB_INTERVAL", itoa v.spec.scrub_interval_seconds) ∷ []
              else []))

  -- the names of the secrets whose keys become environment variables
  unfoldable pub vault_env_from : Vault P → List Text
  vault_env_from v = if is_empty v.spec.secret_name then [] else v.spec.secret_name ∷ []

  -- what applyPodSpec sets of the container
  unfoldable pub apply_container : Vault P → Container P → Container P
  unfolding itoa
  apply_container v c = record c {
    image = v.spec.image;
    args = itoa v.spec.port ∷ codes "/data" ∷ [];
    env = vault_env v;
    env_from = vault_env_from v;
    ports = record { name = codes "s3"; container_port = v.spec.port; protocol = codes "TCP" } ∷ [];
    volume_mounts = (data_volume, codes "/data") ∷ [];
    resources = some v.spec.resources;
    readiness_probe = some (health_probe v.spec.port (pos 3));
    liveness_probe = some (health_probe v.spec.port (pos 10));
    startup_probe = some (startup_probe v.spec.port);
    security_context = some restricted;
  }

  -- corev1.Container{Name: containerName}
  abbrev pub blank_container : Container P
  blank_container = record {
    name = container_name;
    image = [];
    args = [];
    env = [];
    env_from = [];
    ports = [];
    volume_mounts = [];
    resources = none;
    readiness_probe = none;
    liveness_probe = none;
    startup_probe = none;
    security_context = none;
    rest = P.no_rest;
  }

  -- The first container of that name is set in place; where there is none, a new one is appended.
  unfoldable pub apply_containers : Vault P → List (Container P) → List (Container P)
  unfolding text_eq
  apply_containers v [] = apply_container v blank_container ∷ []
  apply_containers v (c ∷ cs) =
      let rest = apply_containers v cs in
      if text_eq c.name container_name then apply_container v c ∷ cs else c ∷ rest

  unfoldable pub apply_pod_spec : Vault P → PodSpec P → PodSpec P
  unfolding apply_containers
  apply_pod_spec v spec = record spec {
    security_context = some pod_security;
    priority_class_name = v.spec.priority_class_name;
    termination_grace_period_seconds = some (pos 60);
    containers = apply_containers v spec.containers;
  }
