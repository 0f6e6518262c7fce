-- ===== src/Core/Audit/Chains.antt =====
-- Chains of audit entries: Append and Verify_Chain of
-- trusted_core/src/dezhan-trusted_core-audit.adb together, and what an altered entry does.
use dezhan.Base.{
  ℕ, ◌+◌, ◌≡◌, ◌≢◌, ◌⊎◌, inl, inr, refl, sym, ap, ◌∙◌, List, [], ◌∷◌, ◌++◌, true, false, length,
  arith, All, In, ◌==◌, Bool-cases,
}
use dezhan.Text.{text_eq, text_eq_iff, text_eq_refl}
use dezhan.Core.Sha256.{sha256}
use dezhan.Core.Audit.{
  AuditEvent, Digest, AuditEntry, hash_of, hashed, compute_hash, self_consistent, is_genesis,
  links_to, append, genesis_entry, links, verify_chain, natural_last,
}
use dezhan.Core.Audit.Serial.{IsInRange, hashed_inj}

-- The newest of e and the entries after it.
abbrev pub newest : AuditEntry → List AuditEntry → AuditEntry
newest e [] = e
newest e (f ∷ fs) = newest f fs

append-links_to :
    (p : AuditEntry) (time : ℕ) (kind : AuditEvent) (subject : Digest) (detail : ℕ)
    → links_to (append p time kind subject detail) p ≡ true
unfolding links_to append self_consistent
append-links_to p time kind subject detail =
    ground (
      arith,
      text_eq_refl p.hash,
      text_eq_refl (hash_of (p.seq + 1) time kind subject detail p.hash),
    )

pub links-snoc :
    (p e : AuditEntry) (es : List AuditEntry)
    → links p es ≡ true
    → ((newest p es).seq == natural_last) ≡ false
    → links_to e (newest p es) ≡ true
    → links p (es ++ e ∷ []) ≡ true
unfolding links
links-snoc p e [] h l k = rw (l, k) refl
links-snoc p e (f ∷ fs) h l k = ground (arith, links-snoc f e fs)

-- A genesis entry followed by an appended entry, and so on, is a chain that verifies.
pub append-verifies :
    (g : AuditEntry) (es : List AuditEntry) (time : ℕ) (kind : AuditEvent) (subject : Digest)
    (detail : ℕ)
    → verify_chain (g ∷ es) ≡ true
    → ((newest g es).seq == natural_last) ≡ false
    → verify_chain (g ∷ es ++ append (newest g es) time kind subject detail ∷ []) ≡ true
unfolding verify_chain
append-verifies g es time kind subject detail h l =
    let linked = append-links_to (newest g es) time kind subject detail in
    ground (arith, links-snoc g (append (newest g es) time kind subject detail) es)

pub genesis_entry-verifies : (time : ℕ) → verify_chain (genesis_entry time ∷ []) ≡ true
unfolding verify_chain genesis_entry is_genesis links self_consistent
genesis_entry-verifies time = ground (arith, text_eq_refl (compute_hash (genesis_entry time)))

abbrev IsConsistent : AuditEntry → Type 0
IsConsistent e = e.hash ≡ compute_hash e

self_consistent_iff : (e : AuditEntry) → self_consistent e ≡ true → IsConsistent e
unfolding self_consistent
self_consistent_iff e h = ground (arith, text_eq_iff e.hash (compute_hash e))

pub links_to-facts :
    (e p : AuditEntry)
    → links_to e p ≡ true
    → (e.seq ≡ p.seq + 1) × (e.prev_hash ≡ p.hash) × IsConsistent e
unfolding links_to
links_to-facts e p h = ground (arith, text_eq_iff e.prev_hash p.hash, self_consistent_iff e)

pub is_genesis-facts : (e : AuditEntry) → is_genesis e ≡ true → (e.seq ≡ 0) × IsConsistent e
unfolding is_genesis
is_genesis-facts e h = ground (arith, self_consistent_iff e)

pub links-cons :
    (p e : AuditEntry) (es : List AuditEntry)
    → links p (e ∷ es) ≡ true
    → (links_to e p ≡ true) × (links e es ≡ true)
unfolding links
links-cons p e es h = ground arith

-- In a linked list the newest entry is consistent, and numbered by its place.
pub newest_facts :
    (p : AuditEntry) (es : List AuditEntry)
    → links p es ≡ true
    → IsConsistent p
    → ((newest p es).seq ≡ p.seq + length es) × IsConsistent (newest p es)
newest_facts p [] h c = (omega arith, c)
newest_facts p (e ∷ es) h c =
    let (l, hs) = links-cons p e es h in
    let (s, q, ce) = links_to-facts e p l in
    let (n, cn) = newest_facts e es hs ce in (omega arith, cn)

-- An entry of xs and one of ys of which something else is hashed, to the same digest.
abbrev pub Collision : List AuditEntry → List AuditEntry → Type 0
Collision xs ys =
    (a : AuditEntry) × (b : AuditEntry) × In a xs
    × In b ys
    × (hashed a ≢ hashed b)
    × (sha256 (hashed a) ≡ sha256 (hashed b))

widen : (x y : AuditEntry) (xs ys : List AuditEntry) → Collision xs ys → Collision (x ∷ xs) (y ∷ ys)
widen x y xs ys (a, b, ia, ib, ne, eq) = (a, b, inr ia, inr ib, ne, eq)

same_or_Collision :
    (p q : AuditEntry) (es fs : List AuditEntry)
    → IsInRange p
    → IsInRange q
    → IsConsistent p
    → IsConsistent q
    → In p es
    → In q fs
    → p.hash ≡ q.hash
    → (p ≡ q) ⊎ Collision es fs
unfolding hash_of
same_or_Collision p q es fs hp hq cp cq ip iq e =
    elim (Bool-cases (text_eq (hashed p) (hashed q))) [
      | inl same ↦ inl (hashed_inj p q hp hq ((text_eq_iff (hashed p) (hashed q)).0 same) e)
      | inr other ↦
          inr (
            p,
            q,
            ip,
            iq,
            λ s. ground (arith, text_eq_iff (hashed p) (hashed q)),
            sym cp ∙ (e ∙ cq),
          )
    ]

cons_or_Collision :
    (p q : AuditEntry) (es fs : List AuditEntry)
    → (p ≡ q) ⊎ Collision (p ∷ es) (q ∷ fs)
    → es ≡ fs
    → (p ∷ es ≡ q ∷ fs) ⊎ Collision (p ∷ es) (q ∷ fs)
cons_or_Collision p q es fs (inl a) b = inl (λ i. a i ∷ b i)
cons_or_Collision p q es fs (inr c) b = inr c

-- Linked lists of the same length that end in the same hash are the same, or two of their entries
-- collide.
links-same :
    (p q : AuditEntry) (es fs : List AuditEntry)
    → All IsInRange (p ∷ es)
    → All IsInRange (q ∷ fs)
    → length es ≡ length fs
    → links p es ≡ true
    → links q fs ≡ true
    → IsConsistent p
    → IsConsistent q
    → (newest p es).hash ≡ (newest q fs).hash
    → (p ∷ es ≡ q ∷ fs) ⊎ Collision (p ∷ es) (q ∷ fs)
links-same p q [] [] rp rq n lp lq cp cq e =
    cons_or_Collision p q [] []
      (same_or_Collision p q (p ∷ []) (q ∷ []) rp.0 rq.0 cp cq (inl refl) (inl refl) e) refl
links-same p q [] (f ∷ fs) rp rq n lp lq cp cq e = absurd (omega arith)
links-same p q (d ∷ es) [] rp rq n lp lq cp cq e = absurd (omega arith)
links-same p q (d ∷ es) (f ∷ fs) rp rq n lp lq cp cq e =
    let (kd, ld) = links-cons p d es lp in
    let (kf, lf) = links-cons q f fs lq in
    let (sd, pd, cd) = links_to-facts d p kd in
    let (sf, pf, cf) = links_to-facts f q kf in
    elim (links-same d f es fs rp.1 rq.1 (omega arith) ld lf cd cf e) [
      | inr c ↦ inr (widen p q (d ∷ es) (f ∷ fs) c)
      | inl same ↦
          cons_or_Collision p q (d ∷ es) (f ∷ fs)
            (same_or_Collision p q (p ∷ d ∷ es) (q ∷ f ∷ fs) rp.0 rq.0 cp cq (inl refl) (inl refl)
              (sym pd ∙ (ap prev_of same ∙ pf)))
            same
    ]
  where
    prev_of : List AuditEntry → Digest
    prev_of [] = []
    prev_of (x ∷ xs) = x.prev_hash

newest-In : (p : AuditEntry) (es : List AuditEntry) → In (newest p es) (p ∷ es)
newest-In p [] = inl refl
newest-In p (e ∷ es) = inr (newest-In e es)

newest-IsInRange :
    (p : AuditEntry) (es : List AuditEntry) → All IsInRange (p ∷ es) → IsInRange (newest p es)
newest-IsInRange p [] h = h.0
newest-IsInRange p (e ∷ es) h = newest-IsInRange e es h.1

pub verify_chain-cons :
    (e : AuditEntry) (es : List AuditEntry)
    → verify_chain (e ∷ es) ≡ true
    → (is_genesis e ≡ true) × (links e es ≡ true)
unfolding verify_chain
verify_chain-cons e es h = ground arith

-- Two chains that verify and whose newest entries have the same hash are equal, entry for entry and
-- whatever their lengths, unless an entry of the one and an entry of the other are different
-- preimages of the same SHA-256 digest. The entries are in the ranges of their types.
pub verify_chain-binds :
    (g h : AuditEntry) (es fs : List AuditEntry)
    → All IsInRange (g ∷ es)
    → All IsInRange (h ∷ fs)
    → verify_chain (g ∷ es) ≡ true
    → verify_chain (h ∷ fs) ≡ true
    → (newest g es).hash ≡ (newest h fs).hash
    → (g ∷ es ≡ h ∷ fs) ⊎ Collision (g ∷ es) (h ∷ fs)
verify_chain-binds g h es fs rg rh vg vh e =
    let (ig, lg) = verify_chain-cons g es vg in
    let (ih, lh) = verify_chain-cons h fs vh in
    let (sg, cg) = is_genesis-facts g ig in
    let (sh, ch) = is_genesis-facts h ih in
    let (ng, cng) = newest_facts g es lg cg in
    let (nh, cnh) = newest_facts h fs lh ch in
    elim (same_or_Collision (newest g es) (newest h fs) (g ∷ es) (h ∷ fs) (newest-IsInRange g es rg)
      (newest-IsInRange h fs rh) cng cnh (newest-In g es) (newest-In h fs) e) [
        | inr c ↦ inr c
        | inl same ↦
            links-same g h es fs rg rh
              (omega (arith, sg, sh, ng, nh, ap (λ (x : AuditEntry). x.seq) same)) lg lh cg ch e
      ]
