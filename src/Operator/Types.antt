-- ===== src/Operator/Types.antt =====
-- The custom resource, operator/api/v1alpha1/dezhanvault_types.go, over what it takes from Kubernetes.
use dezhan.Base.{Bool, Option}
use dezhan.Text.{Text, ℤ}
use dezhan.Dict.{Dict}

-- The types and functions of k8s.io/apimachinery and controller-runtime that the operator uses
-- without looking inside. A `Rest` is what an object has beside the fields that the operator names.
pub record Platform : Type 1 where
  pub World : Type 0
  pub Error : Type 0
  pub Quantity : Type 0
  pub Resources : Type 0
  pub Refs : Type 0
  pub Conditions : Type 0
  pub Rest : Type 0
  pub is_not_found : Error → Bool
  pub no_rest : Rest
  pub zero_quantity : Quantity
  pub is_zero_quantity : Quantity → Bool
  pub must_parse : Text → Quantity
  pub cmp : Quantity → Quantity → ℤ
  pub quantity_text : Quantity → Text

-- What the operator reads and writes of metav1.ObjectMeta; `created` says that the creation
-- timestamp is set, `deleted` that the deletion timestamp is. Go's nil map is the empty map here: the
-- operator only reads it.
pub record Meta (P : Platform) : Type 0 where
  pub name : Text
  pub namespace : Text
  pub labels : Dict Text
  pub annotations : Dict Text
  pub owners : P.Refs
  pub generation : ℤ
  pub created : Bool
  pub deleted : Bool
  pub rest : P.Rest

-- DezhanVaultSpec
pub record VaultSpec (P : Platform) : Type 0 where
  pub image : Text
  pub port : ℤ
  pub storage : P.Quantity
  pub storage_class_name : Option Text
  pub require_auth : Bool
  pub delete_quorum : ℤ
  pub scrub_interval_seconds : ℤ
  pub secret_name : Text
  pub resources : P.Resources
  pub service_type : Text
  pub priority_class_name : Text
  pub disable_pod_disruption_budget : Bool

-- DezhanVaultStatus
pub record VaultStatus (P : Platform) : Type 0 where
  pub observed_generation : ℤ
  pub ready : Bool
  pub endpoint : Text
  pub conditions : P.Conditions

-- DezhanVault
pub record Vault (P : Platform) : Type 0 where
  pub meta : Meta P
  pub spec : VaultSpec P
  pub status : VaultStatus P
