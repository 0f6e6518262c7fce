-- ===== src/Operator/Objects.antt =====
-- The objects that the operator owns, and the functions given to CreateOrUpdate in
-- operator/internal/controller/dezhanvault_controller.go.
use dezhan.Base.{[], ◌∷◌, List, not, ◌&&◌, Option, some, if◌then◌else◌, Result, ok, err}
use dezhan.Text.{Text, codes, ℤ, pos, itoa, is_zero, text_eq}
use dezhan.Dict.{Dict, merge}
use dezhan.Csi.Conn.{is_empty}
use dezhan.Operator.Types.{Platform, Meta, Vault}
use dezhan.Operator.Pod.{PodSpec, apply_pod_spec, data_volume}

pub record ServicePort : Type 0 where
  pub name : Text
  pub port : ℤ
  pub target_port : ℤ
  pub node_port : ℤ
  pub protocol : Text

pub record RetentionPolicy : Type 0 where
  pub when_deleted : Text
  pub when_scaled : Text

module _ (P : Platform) where
  pub record Service : Type 0 where
    pub meta : Meta P
    pub service_type : Text
    pub selector : Dict Text
    pub cluster_ip : Text
    pub ports : List ServicePort
    pub rest : P.Rest

  -- a PersistentVolumeClaim: its storage request is none where the map has no such key
  pub record Claim : Type 0 where
    pub name : Text
    pub access_modes : List Text
    pub storage_class_name : Option Text
    pub storage : Option P.Quantity
    pub rest : P.Rest

  pub record StatefulSet : Type 0 where
    pub meta : Meta P
    pub replicas : Option ℤ
    pub min_ready_seconds : ℤ
    pub retention_policy : Option RetentionPolicy
    pub selector : Option (Dict Text)
    pub service_name : Text
    pub volume_claim_templates : List Claim
    pub template_labels : Dict Text
    pub template_spec : PodSpec P
    pub ready_replicas : ℤ
    pub rest : P.Rest

  pub record DisruptionBudget : Type 0 where
    pub meta : Meta P
    pub min_available : Option ℤ
    pub selector : Option (Dict Text)
    pub rest : P.Rest

unfoldable pub labels_for : Text → Dict Text
labels_for name =
    (codes "app.kubernetes.io/name", codes "dezhan")
    ∷ (codes "app.kubernetes.io/instance", name)
    ∷ (codes "app.kubernetes.io/managed-by", codes "dezhan-operator")
    ∷ []

-- the map `src` set over `dst`, which is made where it is nil
unfoldable pub merge_labels : Dict Text → Dict Text → Dict Text
unfolding merge
merge_labels dst src = merge dst src

unfoldable pub scrape_annotations : ℤ → Dict Text
unfolding itoa
scrape_annotations port =
    (codes "prometheus.io/scrape", codes "true")
    ∷ (codes "prometheus.io/port", itoa port)
    ∷ (codes "prometheus.io/path", codes "/metrics")
    ∷ []

abbrev pub cluster_ip_type : Text
cluster_ip_type = codes "ClusterIP"

abbrev pub retain : RetentionPolicy
retain = record { when_deleted = codes "Retain"; when_scaled = codes "Retain" }

module _ (P : Platform) where
  unfoldable pub apply_defaults : Vault P → Vault P
  apply_defaults v = record v {
    spec = record v.spec {
      image =
          if is_empty v.spec.image then codes "ghcr.io/obsernetics/dezhan:latest" else v.spec.image;
      port = if is_zero v.spec.port then pos 8080 else v.spec.port;
      storage =
          if P.is_zero_quantity v.spec.storage then P.must_parse (codes "50Gi") else v.spec.storage;
      service_type = if is_empty v.spec.service_type then cluster_ip_type else v.spec.service_type;
    };
  }

  -- controllerutil.SetControllerReference: the owner references with the vault as the controller, or
  -- an error
  abbrev pub Owning : Type 0
  Owning = Vault P → P.Refs → Result P.Error P.Refs

  -- a function that has set its fields and now sets the owner, where that is allowed
  abbrev pub with_refs : {A : Type 0} → Result P.Error P.Refs → (P.Refs → A) → Result P.Error A
  with_refs (ok refs) f = ok (f refs)
  with_refs (err e) f = err e

  unfoldable pub set_service : Vault P → Service P → Service P
  set_service v svc = record svc {
    meta = record svc.meta {
      labels = merge_labels svc.meta.labels (labels_for v.meta.name);
      annotations = merge_labels svc.meta.annotations (scrape_annotations v.spec.port);
    };
    service_type = v.spec.service_type;
    selector = labels_for v.meta.name;
    cluster_ip =
        if not svc.meta.created && text_eq v.spec.service_type cluster_ip_type
        then codes "None"
        else svc.cluster_ip;
    ports =
        record {
          name = codes "s3";
          port = v.spec.port;
          target_port = v.spec.port;
          node_port = pos 0;
          protocol = codes "TCP";
        }
        ∷ [];
  }

  -- the claim of each replica
  unfoldable pub claim_template : Vault P → Claim P
  claim_template v = record {
    name = data_volume;
    access_modes = codes "ReadWriteOnce" ∷ [];
    storage_class_name = v.spec.storage_class_name;
    storage = some v.spec.storage;
    rest = P.no_rest;
  }

  unfoldable pub set_stateful_set : Vault P → StatefulSet P → StatefulSet P
  set_stateful_set v sts = record sts {
    meta = record sts.meta { labels = merge_labels sts.meta.labels (labels_for v.meta.name) };
    replicas = some (pos 1);
    min_ready_seconds = pos 10;
    retention_policy = some retain;
    selector = if sts.meta.created then sts.selector else some (labels_for v.meta.name);
    service_name = if sts.meta.created then sts.service_name else v.meta.name;
    volume_claim_templates =
        if sts.meta.created then sts.volume_claim_templates else claim_template v ∷ [];
    template_labels = merge_labels sts.template_labels (labels_for v.meta.name);
    template_spec = apply_pod_spec P v sts.template_spec;
  }

  unfoldable pub set_budget : Vault P → DisruptionBudget P → DisruptionBudget P
  set_budget v pdb = record pdb {
    meta = record pdb.meta { labels = merge_labels pdb.meta.labels (labels_for v.meta.name) };
    min_available = some (pos 1);
    selector = some (labels_for v.meta.name);
  }

  -- The three functions given to CreateOrUpdate.
  module _ (own : Owning) (v : Vault P) where
    unfoldable pub mutate_service : Service P → Result P.Error (Service P)
    unfolding set_service
    mutate_service svc = with_refs (own v svc.meta.owners) (λ refs. record (set_service v svc) {
      meta = record (set_service v svc).meta { owners = refs };
    })

    unfoldable pub mutate_stateful_set : StatefulSet P → Result P.Error (StatefulSet P)
    unfolding set_stateful_set
    mutate_stateful_set sts = with_refs (own v sts.meta.owners) (λ refs.
        record (set_stateful_set v sts) {
          meta = record (set_stateful_set v sts).meta { owners = refs };
        })

    unfoldable pub mutate_budget : DisruptionBudget P → Result P.Error (DisruptionBudget P)
    unfolding set_budget
    mutate_budget pdb = with_refs (own v pdb.meta.owners) (λ refs. record (set_budget v pdb) {
      meta = record (set_budget v pdb).meta { owners = refs };
    })
