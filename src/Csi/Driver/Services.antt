-- ===== src/Csi/Driver/Services.antt =====
-- About New and the registrations of csi/internal/driver/driver.go.
use dezhan.Base.{
  ◌≡◌, ◌≢◌, ◌⊎◌, ◌↔◌, refl, ◌++◌, [], ◌∷◌, Bool, true, false, not, ◌||◌, ◌&&◌, if◌then◌else◌, ok,
  err, In, inl, inr,
}
use dezhan.Text.{Text, text_eq, text_eq_iff}
use dezhan.Csi.Conn.{is_empty}
use dezhan.Csi.Driver.{
  Options, new_driver, services_of, registered_if, missing_node_id, invalid_mode, identity,
  controller, node, mode_controller, mode_node, mode_all,
}

or_true : (x : Bool) → (x || true) ≡ true
or_true true = refl
or_true false = refl

controller-registered :
    (p q : Bool)
    → In controller (identity ∷ (registered_if p controller ++ registered_if q node)) ↔ (p ≡ true)
controller-registered true q = (λ m. refl, λ e. inr (inl refl))
controller-registered false true = (never, λ e. cc)
  where
    never : In controller (identity ∷ node ∷ []) → false ≡ true
    never (inl e) = cc
    never (inr (inl e)) = cc
    never (inr (inr e)) = absurd e
controller-registered false false = (never, λ e. cc)
  where
    never : In controller (identity ∷ []) → false ≡ true
    never (inl e) = cc
    never (inr e) = absurd e

node-registered :
    (p q : Bool)
    → In node (identity ∷ (registered_if p controller ++ registered_if q node)) ↔ (q ≡ true)
node-registered true true = (λ m. refl, λ e. inr (inr (inl refl)))
node-registered false true = (λ m. refl, λ e. inr (inl refl))
node-registered true false = (never, λ e. cc)
  where
    never : In node (identity ∷ controller ∷ []) → false ≡ true
    never (inl e) = cc
    never (inr (inl e)) = cc
    never (inr (inr e)) = absurd e
node-registered false false = (never, λ e. cc)
  where
    never : In node (identity ∷ []) → false ≡ true
    never (inl e) = cc
    never (inr e) = absurd e

or-eq : (m a b : Text) → ((text_eq m a || text_eq m b) ≡ true) ↔ ((m ≡ a) ⊎ (m ≡ b))
or-eq m a b = (to (text_eq m a) (text_eq m b) (text_eq_iff m a).0 (text_eq_iff m b).0, from)
  where
    to :
        (x y : Bool) → (x ≡ true → m ≡ a) → (y ≡ true → m ≡ b) → (x || y) ≡ true → (m ≡ a) ⊎ (m ≡ b)
    to true y f g h = inl (f refl)
    to false y f g h = inr (g h)

    from : (m ≡ a) ⊎ (m ≡ b) → (text_eq m a || text_eq m b) ≡ true
    from (inl e) = rw ((text_eq_iff m a).1 e) refl
    from (inr e) = rw ((text_eq_iff m b).1 e) (or_true (text_eq m a))

-- what New has checked
made :
    (o d : Options)
    → new_driver o ≡ ok d
    → (d ≡ o)
      × ((o.mode ≡ mode_controller)
          ⊎ ((o.node_id ≢ []) × ((o.mode ≡ mode_node) ⊎ (o.mode ≡ mode_all))))
unfolding new_driver
made o d h =
    let (same, checked) =
      go (text_eq o.mode mode_controller) (text_eq o.mode mode_node || text_eq o.mode mode_all)
        (is_empty o.node_id) h in
    (same, named checked)
  where
    go :
        (a b e : Bool)
        → (if a || b
            then (if not a && e then err missing_node_id else ok o)
            else err (invalid_mode o.mode))
          ≡ ok d
        → (d ≡ o) × ((a ≡ true) ⊎ ((e ≡ false) × (b ≡ true)))
    go true b e k = (cc, inl refl)
    go false true true k = cc
    go false true false k = (cc, inr (refl, refl))
    go false false e k = cc

    not_empty : (t : Text) → is_empty t ≡ false → t ≢ []
    not_empty [] k = cc
    not_empty (c ∷ t) k = λ e. cc

    named :
        ((text_eq o.mode mode_controller ≡ true)
          ⊎ ((is_empty o.node_id ≡ false)
              × ((text_eq o.mode mode_node || text_eq o.mode mode_all) ≡ true)))
        → (o.mode ≡ mode_controller)
          ⊎ ((o.node_id ≢ []) × ((o.mode ≡ mode_node) ⊎ (o.mode ≡ mode_all)))
    named (inl e) = inl ((text_eq_iff o.mode mode_controller).0 e)
    named (inr (e, f)) = inr (not_empty o.node_id e, (or-eq o.mode mode_node mode_all).0 f)

-- A driver is made only in one of the three modes. It registers the identity service always, the
-- controller service exactly in the modes "controller" and "all", and the node service exactly in the
-- modes "node" and "all"; and it has a node id, unless its mode is "controller".
pub new_driver-services :
    (o d : Options)
    → new_driver o ≡ ok d
    → (d ≡ o)
      × In identity (services_of d.mode)
      × (In controller (services_of d.mode) ↔ ((d.mode ≡ mode_controller) ⊎ (d.mode ≡ mode_all)))
      × (In node (services_of d.mode) ↔ ((d.mode ≡ mode_node) ⊎ (d.mode ≡ mode_all)))
      × ((d.mode ≡ mode_controller)
          ⊎ ((d.node_id ≢ []) × ((d.mode ≡ mode_node) ⊎ (d.mode ≡ mode_all))))
unfolding services_of
new_driver-services o d h =
    let (same, checked) = made o d h in
    rw same (
      refl,
      inl refl,
      both
          (controller-registered (text_eq o.mode mode_controller || text_eq o.mode mode_all)
            (text_eq o.mode mode_node || text_eq o.mode mode_all))
          (or-eq o.mode mode_controller mode_all),
      both
          (node-registered (text_eq o.mode mode_controller || text_eq o.mode mode_all)
            (text_eq o.mode mode_node || text_eq o.mode mode_all))
          (or-eq o.mode mode_node mode_all),
      checked,
    )
  where
    both : {A B C : Type 0} → A ↔ B → B ↔ C → A ↔ C
    both f g = (λ a. g.0 (f.0 a), λ c. f.1 (g.1 c))
