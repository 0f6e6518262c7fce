-- ===== src/Operator/Containers.antt =====
-- About the containers of a pod: applyPodSpec of the operator's reconciler.
use dezhan.Base.{
  ◌≡◌, ◌≢◌, refl, ap, sym, ◌∙◌, [], ◌∷◌, List, true, false, Option, none, some, if◌then◌else◌, inl,
  inr, Bool-cases,
}
use dezhan.Text.{Text, text_eq, text_eq_refl}
use dezhan.Operator.Types.{Platform, Vault}
use dezhan.Operator.Pod.{
  Container, PodSpec, Probe, container_name, health_probe, blank_container, apply_container,
  apply_containers, apply_pod_spec,
}

module _ (P : Platform) where
  -- the containers that are not the vault's
  abbrev pub others : List (Container P) → List (Container P)
  others [] = []
  others (c ∷ cs) = let rest = others cs in if text_eq c.name container_name then rest else c ∷ rest

  -- the first container of the vault's name
  abbrev pub own_container : List (Container P) → Option (Container P)
  own_container [] = none
  own_container (c ∷ cs) =
      let rest = own_container cs in if text_eq c.name container_name then some c else rest

  apply_container_idem :
      (v : Vault P) (c : Container P)
      → apply_container P v (apply_container P v c) ≡ apply_container P v c
  unfolding apply_container
  apply_container_idem v c = refl

  apply_container-name : (v : Vault P) (c : Container P) → (apply_container P v c).name ≡ c.name
  unfolding apply_container
  apply_container-name v c = refl

  apply-own :
      (v : Vault P) (c : Container P) (cs : List (Container P))
      → text_eq c.name container_name ≡ true
      → apply_containers P v (c ∷ cs) ≡ apply_container P v c ∷ cs
  unfolding apply_containers
  apply-own v c cs h = rw h

  apply-other :
      (v : Vault P) (c : Container P) (cs : List (Container P))
      → text_eq c.name container_name ≡ false
      → apply_containers P v (c ∷ cs) ≡ c ∷ apply_containers P v cs
  unfolding apply_containers
  apply-other v c cs h = rw h

  own-own :
      (c : Container P) (cs : List (Container P))
      → text_eq c.name container_name ≡ true
      → (own_container (c ∷ cs) ≡ some c) × (others (c ∷ cs) ≡ others cs)
  own-own c cs h = (rw h, rw h)

  own-other :
      (c : Container P) (cs : List (Container P))
      → text_eq c.name container_name ≡ false
      → (own_container (c ∷ cs) ≡ own_container cs) × (others (c ∷ cs) ≡ c ∷ others cs)
  own-other c cs h = (rw h, rw h)

  -- what the vault's container is made from
  abbrev pub base_of : Option (Container P) → Container P
  base_of (some c) = c
  base_of none = blank_container P

  named :
      (v : Vault P) (c : Container P)
      → text_eq c.name container_name ≡ true
      → text_eq (apply_container P v c).name container_name ≡ true
  named v c h = rw (apply_container-name v c) h

  -- Setting the containers leaves every other container as it is, in its place, and the vault's
  -- container is made from the first of that name, or from a new one.
  pub apply_containers-others :
      (v : Vault P) (cs : List (Container P))
      → (others (apply_containers P v cs) ≡ others cs)
        × (own_container (apply_containers P v cs)
            ≡ some (apply_container P v (base_of (own_container cs))))
  apply_containers-others v [] =
      (unfold apply_containers in rw here, unfold apply_containers in rw here)
    where
      here : text_eq (apply_container P v (blank_container P)).name container_name ≡ true
      here = rw (apply_container-name v (blank_container P)) (text_eq_refl container_name)
  apply_containers-others v (c ∷ cs) = elim (Bool-cases (text_eq c.name container_name)) [
    | inl h ↦ rw (apply-own v c cs h, h, named v c h) (refl, refl)
    | inr h ↦
        rw (apply-other v c cs h, h)
          (rw ((apply_containers-others v cs).0) refl, (apply_containers-others v cs).1)
  ]

  own-settled :
      (v : Vault P) (cs : List (Container P)) (c : Container P)
      → own_container cs ≡ some c
      → apply_container P v c ≡ c
      → apply_containers P v cs ≡ cs
  own-settled v [] c h e = cc
  own-settled v (d ∷ cs) c h e = elim (Bool-cases (text_eq d.name container_name)) [
    | inl k ↦
        let same : some d ≡ some c = sym (own-own d cs k).0 ∙ h in
        let eq : d ≡ c = ap (or d) same in
        rw (apply-own v d cs k) (ap (λ x. x ∷ cs) (ap (apply_container P v) eq ∙ e ∙ sym eq))
    | inr k ↦
        rw (apply-other v d cs k)
          (ap (λ x. d ∷ x) (own-settled v cs c (sym (own-other d cs k).0 ∙ h) e))
  ]
    where
      or : Container P → Option (Container P) → Container P
      or a none = a
      or a (some b) = b

  -- `spec'` has the fields that the operator names, and the vault's container, as they are in `spec`.
  abbrev pub Keeps : PodSpec P → PodSpec P → Type 0
  Keeps spec spec' =
      (spec'.security_context ≡ spec.security_context)
      × (spec'.priority_class_name ≡ spec.priority_class_name)
      × (spec'.termination_grace_period_seconds ≡ spec.termination_grace_period_seconds)
      × (own_container spec'.containers ≡ own_container spec.containers)

  -- Once a pod is set, setting it again changes nothing, whatever else of the pod has changed in
  -- between: the fields that the operator does not name, the other containers and their number. Only
  -- the fields that it names and the vault's container have to be as they were.
  pub apply_pod_spec-settles :
      (v : Vault P) (spec spec' : PodSpec P)
      → Keeps (apply_pod_spec P v spec) spec'
      → apply_pod_spec P v spec' ≡ spec'
  unfolding apply_pod_spec
  apply_pod_spec-settles v spec spec' (a, b, c, d) =
      let own =
        own-settled v spec'.containers
          (apply_container P v (base_of (own_container spec.containers)))
          (d ∙ (apply_containers-others v spec.containers).1)
          (apply_container_idem v (base_of (own_container spec.containers))) in
      λ i. record spec' {
        security_context = sym a i;
        priority_class_name = sym b i;
        termination_grace_period_seconds = sym c i;
        containers = own i;
      }

  abbrev probe_scheme : Option Probe → Text
  probe_scheme none = []
  probe_scheme (some p) = p.scheme

  apply_container-scheme :
      (v : Vault P) (c : Container P) → probe_scheme (apply_container P v c).readiness_probe ≡ []
  unfolding apply_container health_probe
  apply_container-scheme v c = refl

  -- A pod whose vault container has a readiness probe with a scheme, such as the default "HTTP"
  -- that the API server fills in, is changed when the pod is set: the probe is replaced as a whole.
  pub apply_pod_spec-ne-defaulted :
      (v : Vault P) (spec : PodSpec P) (c : Container P) (p : Probe)
      → own_container spec.containers ≡ some c
      → c.readiness_probe ≡ some p
      → p.scheme ≢ []
      → apply_pod_spec P v spec ≢ spec
  unfolding apply_pod_spec
  apply_pod_spec-ne-defaulted v spec c p own has n e =
      let both = (apply_containers-others v spec.containers).1 in
      let kept : own_container (apply_containers P v spec.containers) ≡ some c =
        ap (λ (s : PodSpec P). own_container s.containers) e ∙ own in
      let made : some (apply_container P v c) ≡ some c =
        sym (both ∙ ap (λ o. some (apply_container P v (base_of o))) own) ∙ kept in
      n (sym (ap probe_scheme has) ∙ sym (ap scheme_of made) ∙ apply_container-scheme v c)
    where
      scheme_of : Option (Container P) → Text
      scheme_of none = []
      scheme_of (some d) = probe_scheme d.readiness_probe
