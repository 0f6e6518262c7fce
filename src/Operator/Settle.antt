-- ===== src/Operator/Settle.antt =====
-- About a second pass over the objects that a first has set: the functions given to CreateOrUpdate.
use dezhan.Base.{◌≡◌, refl, true, false, Result, ok, err}
use dezhan.Text.{Text, codes, ℤ, text_eq_refl}
use dezhan.Dict.{Dict, lookup, NodupKeys, merge_idem}
use dezhan.Operator.Types.{Platform, Meta, Vault}
use dezhan.Operator.Pod.{apply_pod_spec}
use dezhan.Operator.Containers.{apply_pod_spec-settles}
use dezhan.Operator.Objects.{
  Service, StatefulSet, DisruptionBudget, labels_for, merge_labels, scrape_annotations, set_service,
  set_stateful_set, set_budget, Owning, with_refs, mutate_service, mutate_stateful_set,
  mutate_budget, cluster_ip_type,
}

labels-NodupKeys : (name : Text) → NodupKeys (labels_for name)
unfolding labels_for lookup
labels-NodupKeys name = (refl, (refl, (refl, tt)))

annotations-NodupKeys : (port : ℤ) → NodupKeys (scrape_annotations port)
unfolding scrape_annotations lookup
annotations-NodupKeys port = (refl, (refl, (refl, tt)))

merge_labels_idem :
    (src dst : Dict Text)
    → NodupKeys src
    → merge_labels (merge_labels dst src) src ≡ merge_labels dst src
unfolding merge_labels
merge_labels_idem src dst h = merge_idem src dst h

module _ (P : Platform) where
  with_refs-ok :
      {A : Type 0} (r : Result P.Error P.Refs) (f : P.Refs → A) (a : A)
      → with_refs P r f ≡ ok a
      → (refs : P.Refs) × (r ≡ ok refs) × (a ≡ f refs)
  with_refs-ok (ok refs) f a h = (refs, refl, cc)
  with_refs-ok (err e) f a h = cc

  -- Setting the owner is settled once it is set.
  abbrev pub IsSettling : Owning P → Type 0
  IsSettling own = (v : Vault P) (r s : P.Refs) → own v r ≡ ok s → own v s ≡ ok s

  -- An object as the API server keeps it: created, and with whatever it has filled in where the
  -- operator sets nothing.
  abbrev pub stored : Meta P → P.Rest → Meta P
  stored m rest = record m { created = true; rest = rest }

  module _ (own : Owning P) (settling : IsSettling own) (v : Vault P) where
    -- If a pass has set a Service, then setting what the API server has kept of it succeeds and changes
    -- nothing, so that no update is sent, whatever the server has filled in of the fields that the
    -- operator does not name. It is assumed that setting the owner again changes nothing.
    pub mutate_service-settles :
        (svc set : Service P) (m r : P.Rest)
        → mutate_service P own v svc ≡ ok set
        → mutate_service P own v (record set { meta = stored set.meta m; rest = r })
          ≡ ok (record set { meta = stored set.meta m; rest = r })
    unfolding mutate_service set_service
    mutate_service-settles svc set m r h =
        let (refs, owned, e) = with_refs-ok (own v svc.meta.owners) _ set h in
        rw (e, settling v svc.meta.owners refs owned)
          (λ i. ok (record (kept refs) {
            meta = record (kept refs).meta {
              labels =
                  merge_labels_idem (labels_for v.meta.name) svc.meta.labels
                    (labels-NodupKeys v.meta.name) i;
              annotations =
                  merge_labels_idem (scrape_annotations v.spec.port) svc.meta.annotations
                    (annotations-NodupKeys v.spec.port) i;
            };
          }))
      where
        kept : P.Refs → Service P
        kept refs = record (set_service P v svc) {
          meta = record (stored (set_service P v svc).meta m) { owners = refs };
          rest = r;
        }

    -- Setting a StatefulSet twice is setting it once: what the first pass has set, the second leaves as
    -- it is, also where the StatefulSet is created in between, its status moves on and other fields
    -- than those that the operator names are filled in outside the pod. It is assumed that setting
    -- the owner again changes nothing. The pod template is the one that was set, so that nothing is
    -- said of an API server that fills in fields there.
    pub mutate_stateful_set_idem :
        (sts set : StatefulSet P) (m r : P.Rest) (ready : ℤ)
        → mutate_stateful_set P own v sts ≡ ok set
        → mutate_stateful_set P own v
            (record set { meta = stored set.meta m; ready_replicas = ready; rest = r })
          ≡ ok (record set { meta = stored set.meta m; ready_replicas = ready; rest = r })
    unfolding mutate_stateful_set set_stateful_set
    mutate_stateful_set_idem sts set m r ready h =
        let (refs, owned, e) = with_refs-ok (own v sts.meta.owners) _ set h in
        let pod =
          apply_pod_spec-settles P v sts.template_spec (apply_pod_spec P v sts.template_spec)
            (refl, refl, refl, refl) in
        rw (e, settling v sts.meta.owners refs owned)
          (λ i. ok (record (kept refs) {
            meta = record (kept refs).meta {
              labels =
                  merge_labels_idem (labels_for v.meta.name) sts.meta.labels
                    (labels-NodupKeys v.meta.name) i;
            };
            template_labels =
                merge_labels_idem (labels_for v.meta.name) sts.template_labels
                  (labels-NodupKeys v.meta.name) i;
            template_spec = pod i;
          }))
      where
        kept : P.Refs → StatefulSet P
        kept refs = record (set_stateful_set P v sts) {
          meta = record (stored (set_stateful_set P v sts).meta m) { owners = refs };
          ready_replicas = ready;
          rest = r;
        }

    -- If a pass has set a PodDisruptionBudget, then setting what the API server has kept of it succeeds
    -- and changes nothing, whatever the server has filled in of the fields that the operator does not
    -- name. It is assumed that setting the owner again changes nothing.
    pub mutate_budget-settles :
        (pdb set : DisruptionBudget P) (m r : P.Rest)
        → mutate_budget P own v pdb ≡ ok set
        → mutate_budget P own v (record set { meta = stored set.meta m; rest = r })
          ≡ ok (record set { meta = stored set.meta m; rest = r })
    unfolding mutate_budget set_budget
    mutate_budget-settles pdb set m r h =
        let (refs, owned, e) = with_refs-ok (own v pdb.meta.owners) _ set h in
        rw (e, settling v pdb.meta.owners refs owned)
          (λ i. ok (record (kept refs) {
            meta = record (kept refs).meta {
              labels =
                  merge_labels_idem (labels_for v.meta.name) pdb.meta.labels
                    (labels-NodupKeys v.meta.name) i;
            };
          }))
      where
        kept : P.Refs → DisruptionBudget P
        kept refs = record (set_budget P v pdb) {
          meta = record (stored (set_budget P v pdb).meta m) { owners = refs };
          rest = r;
        }

  -- A Service that was made for a vault of type ClusterIP stays headless when the vault changes: if the
  -- next pass sets it, it asks for the new type together with the cluster IP "None", whatever the API
  -- server has filled in meanwhile of the fields that the operator does not name.
  pub mutate_service-headless :
      (own : Owning P) (v v' : Vault P) (svc set put : Service P) (m r : P.Rest)
      → svc.meta.created ≡ false
      → v.spec.service_type ≡ cluster_ip_type
      → mutate_service P own v svc ≡ ok set
      → mutate_service P own v' (record set { meta = stored set.meta m; rest = r }) ≡ ok put
      → (put.service_type ≡ v'.spec.service_type) × (put.cluster_ip ≡ codes "None")
  unfolding mutate_service set_service
  mutate_service-headless own v v' svc set put m r c t h k =
      let (refs, owned, e) = with_refs-ok (own v svc.meta.owners) _ set h in
      let (refs', owned', f) = with_refs-ok (own v' set.meta.owners) _ put k in
      (rw f refl, rw (f, e, c, t, text_eq_refl cluster_ip_type) refl)
