-- ===== src/Operator/Env.antt =====
-- About vaultEnv and applyDefaults of the operator's reconciler.
use dezhan.Base.{
  ◌++◌, ◌≡◌, ◌≢◌, refl, ap, sym, subst, ◌∙◌, [], ◌∷◌, Bool, true, false, Option, none, some,
  if◌then◌else◌, append-nil, arith, inl, inr, Bool-cases,
}
use dezhan.Text.{Text, codes, text_eq, text_eq_refl, text_eq_iff, ℤ, pos, is_pos, is_zero, itoa}
use dezhan.Text.Number.{atoi, atoi-itoa}
use dezhan.Dict.{Dict, lookup}
use dezhan.Csi.Conn.{is_empty}
use dezhan.Operator.Types.{Platform, Vault}
use dezhan.Operator.Objects.{apply_defaults, cluster_ip_type}
use dezhan.Operator.Pod.{vault_env}

-- the value of a variable that is set where the number is positive
abbrev pub NumberOrUnset : ℤ → Option Text → Type 0
NumberOrUnset z none = is_pos z ≡ false
NumberOrUnset z (some s) = (is_pos z ≡ true) × (atoi s ≡ z)

numbered : (z : ℤ) → NumberOrUnset z (if is_pos z then some (itoa z) else none)
numbered z = go (is_pos z) refl
  where
    go : (b : Bool) → is_pos z ≡ b → NumberOrUnset z (if b then some (itoa z) else none)
    go true h = (h, atoi-itoa z)
    go false h = h

-- a pair that stands where the test holds
abbrev pair_if : Bool → Text → Text → Dict Text
pair_if b j v = if b then (j, v) ∷ [] else []

lookup-pair_if :
    (b : Bool) (j v : Text) (m : Dict Text)
    → lookup j (pair_if b j v ++ m) ≡ (if b then some v else lookup j m)
unfolding lookup
lookup-pair_if true j v m = rw (text_eq_refl j) refl
lookup-pair_if false j v m = refl

lookup-other :
    (b : Bool) (k j v : Text) (m : Dict Text) → k ≢ j → lookup k (pair_if b j v ++ m) ≡ lookup k m
unfolding lookup
lookup-other true k j v m n = ground (arith, text_eq_iff j k)
lookup-other false k j v m n = refl

settled :
    {A : Type 0} (t : A → Bool) (d x : A)
    → t d ≡ false
    → ((if t (if t x then d else x) then d else (if t x then d else x)) ≡ (if t x then d else x))
      × (t (if t x then d else x) ≡ false)
settled t d x h = elim (Bool-cases (t x)) [
  | inl k ↦ rw (k, h) (refl, refl)
  | inr k ↦ rw (k, k) (refl, refl)
]

abbrev auth : Text
auth = codes "DEZHAN_REQUIRE_AUTH"

abbrev quorum : Text
quorum = codes "DEZHAN_DELETE_QUORUM"

abbrev scrub : Text
scrub = codes "DEZHAN_SCRUB_INTERVAL"

differ : (a b : Text) → text_eq a b ≡ false → a ≢ b
differ a b h e = let same = (text_eq_iff a b).1 e in cc

-- the three variables, each of which may be missing
pairs : Bool → Bool → Bool → Text → Text → Dict Text
pairs a b c m n = pair_if a auth (codes "1") ++ (pair_if b quorum m ++ (pair_if c scrub n ++ []))

module _ (a b c : Bool) (m n : Text) where
  third : Dict Text
  third = pair_if c scrub n ++ []

  second : Dict Text
  second = pair_if b quorum m ++ third

  pairs-auth : lookup auth (pairs a b c m n) ≡ (if a then some (codes "1") else none)
  unfolding pairs second third lookup text_eq
  pairs-auth =
      lookup-pair_if a auth (codes "1") second
      ∙ ap (λ o. if a then some (codes "1") else o)
          (lookup-other b auth quorum m third (differ auth quorum refl)
            ∙ lookup-other c auth scrub n [] (differ auth scrub refl))

  pairs-quorum : lookup quorum (pairs a b c m n) ≡ (if b then some m else none)
  unfolding pairs second third lookup text_eq
  pairs-quorum =
      lookup-other a quorum auth (codes "1") second (differ quorum auth refl)
      ∙ lookup-pair_if b quorum m third
      ∙ ap (λ o. if b then some m else o)
          (lookup-other c quorum scrub n [] (differ quorum scrub refl))

  pairs-scrub : lookup scrub (pairs a b c m n) ≡ (if c then some n else none)
  unfolding pairs second third lookup text_eq
  pairs-scrub =
      lookup-other a scrub auth (codes "1") second (differ scrub auth refl)
      ∙ lookup-other b scrub quorum m third (differ scrub quorum refl)
      ∙ lookup-pair_if c scrub n []

  pairs-other : (k : Text) → k ≢ auth → k ≢ quorum → k ≢ scrub → lookup k (pairs a b c m n) ≡ none
  unfolding pairs second third lookup
  pairs-other k x y z =
      lookup-other a k auth (codes "1") second x
      ∙ lookup-other b k quorum m third y
      ∙ lookup-other c k scrub n [] z

module _ (P : Platform) where
  vault_env-pairs :
      (v : Vault P)
      → vault_env P v
        ≡ pairs v.spec.require_auth
            (is_pos v.spec.delete_quorum)
            (is_pos v.spec.scrub_interval_seconds)
            (itoa v.spec.delete_quorum)
            (itoa v.spec.scrub_interval_seconds)
  unfolding vault_env pairs
  vault_env-pairs v =
      rw
        (append-nil (
          pair_if (is_pos v.spec.scrub_interval_seconds) scrub
            (itoa v.spec.scrub_interval_seconds)))
        refl

  -- The server's environment says what the specification says: authentication is required exactly
  -- when asked for, the quorum and the scrub interval are set exactly when positive and read back as
  -- the given numbers, and no other variable is set.
  pub vault_env-lookup :
      (v : Vault P)
      → (lookup (codes "DEZHAN_REQUIRE_AUTH") (vault_env P v)
          ≡ (if v.spec.require_auth then some (codes "1") else none))
        × NumberOrUnset v.spec.delete_quorum (lookup (codes "DEZHAN_DELETE_QUORUM") (vault_env P v))
        × NumberOrUnset v.spec.scrub_interval_seconds
            (lookup (codes "DEZHAN_SCRUB_INTERVAL") (vault_env P v))
        × ((k : Text)
            → k ≢ codes "DEZHAN_REQUIRE_AUTH"
            → k ≢ codes "DEZHAN_DELETE_QUORUM"
            → k ≢ codes "DEZHAN_SCRUB_INTERVAL"
            → lookup k (vault_env P v) ≡ none)
  vault_env-lookup v = rw (vault_env-pairs v) (
    pairs-auth a b c m n,
    subst (NumberOrUnset v.spec.delete_quorum) (sym (pairs-quorum a b c m n))
        (numbered v.spec.delete_quorum),
    subst (NumberOrUnset v.spec.scrub_interval_seconds) (sym (pairs-scrub a b c m n))
        (numbered v.spec.scrub_interval_seconds),
    pairs-other a b c m n,
  )
    where
      a : Bool
      a = v.spec.require_auth

      b : Bool
      b = is_pos v.spec.delete_quorum

      c : Bool
      c = is_pos v.spec.scrub_interval_seconds

      m : Text
      m = itoa v.spec.delete_quorum

      n : Text
      n = itoa v.spec.scrub_interval_seconds

  -- Setting the defaults is done once: a second time changes nothing. After it the image and the
  -- service type are not empty and the port and the storage are not zero, if "50Gi" is not.
  pub apply_defaults_idem :
      P.is_zero_quantity (P.must_parse (codes "50Gi")) ≡ false
      → (v : Vault P)
      → (apply_defaults P (apply_defaults P v) ≡ apply_defaults P v)
        × (is_empty (apply_defaults P v).spec.image ≡ false)
        × (is_zero (apply_defaults P v).spec.port ≡ false)
        × (P.is_zero_quantity (apply_defaults P v).spec.storage ≡ false)
        × (is_empty (apply_defaults P v).spec.service_type ≡ false)
  unfolding apply_defaults
  apply_defaults_idem h v =
      let image = settled is_empty (codes "ghcr.io/obsernetics/dezhan:latest") v.spec.image refl in
      let port = settled is_zero (pos 8080) v.spec.port refl in
      let storage = settled P.is_zero_quantity (P.must_parse (codes "50Gi")) v.spec.storage h in
      let service_type = settled is_empty cluster_ip_type v.spec.service_type refl in
      (
        λ i. record v {
          spec = record v.spec {
            image = image.0 i;
            port = port.0 i;
            storage = storage.0 i;
            service_type = service_type.0 i;
          };
        },
        image.1,
        port.1,
        storage.1,
        service_type.1,
      )
