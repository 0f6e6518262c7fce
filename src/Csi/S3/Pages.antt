-- ===== src/Csi/S3/Pages.antt =====
-- About listKeys of csi/internal/driver/s3.go.
use dezhan.Base.{
  ℕ, zero, suc, ◌+◌, ◌%◌, ◌^◌, ◌⊎◌, ◌<◌, ◌≡◌, ◌≢◌, refl, ap, sym, ◌∙◌, ◌++◌, [], ◌∷◌, List, map,
  true, false, Result, ok, err, arith, inl, inr, Bool-cases, append-nil, append_assoc,
}
use dezhan.Text.{Text, codes}
use dezhan.Csi.Conn.{Conn}
use dezhan.Csi.Service.{
  Service, ServiceError, Entry, Fault, service, wrapped, diverged, is_kind, is_no_such_bucket,
}
use dezhan.Csi.S3.{Listing, no_keys, add_page, key_of, size_of, add64, list_loop, list_keys}
use dezhan.Csi.S3.Contract.{View, IsLawful}

-- The sum of the sizes, with no bound.
unfoldable pub sum_sizes : List Entry → ℕ
sum_sizes [] = 0
sum_sizes (e ∷ es) = size_of e + sum_sizes es

pub keys-add_page : (es : List Entry) (l : Listing) → (add_page l es).keys ≡ l.keys ++ map key_of es
unfolding add_page
keys-add_page [] l = rw append-nil
keys-add_page (e ∷ es) l = keys-add_page es _ ∙ append_assoc l.keys (key_of e ∷ []) (map key_of es)

add_page-append :
    (es fs : List Entry) (l : Listing) → add_page l (es ++ fs) ≡ add_page (add_page l es) fs
unfolding add_page
add_page-append [] fs l = refl
add_page-append (e ∷ es) fs l = add_page-append es fs _

-- As long as the sum stays below 2^63 the 64-bit total is exact.
pub total-add_page :
    (es : List Entry) (l : Listing)
    → l.total + sum_sizes es < 2 ^ 63
    → (add_page l es).total ≡ l.total + sum_sizes es
unfolding add_page sum_sizes
total-add_page [] l h = omega arith
total-add_page (e ∷ es) l h = omega (
  arith,
  total-add_page es (record { keys = l.keys ++ key_of e ∷ []; total = add64 l.total (size_of e) })
      (omega arith),
)

-- The 64-bit total is the sum modulo 2^64.
total_mod-add_page :
    (es : List Entry) (l : Listing)
    → l.total % 2 ^ 64 ≡ l.total
    → (add_page l es).total ≡ (l.total + sum_sizes es) % 2 ^ 64
unfolding add_page sum_sizes
total_mod-add_page [] l h = omega (arith, h)
total_mod-add_page (e ∷ es) l h =
    let next : Listing = record {
      keys = l.keys ++ key_of e ∷ [];
      total = add64 l.total (size_of e);
    } in
    total_mod-add_page es next (omega arith) ∙ omega arith

module _ (S : Service) (V : View S) where
  -- What a listing returns that starts from `l` with the paginator `p`, in a world that it only
  -- reads: every entry that was still to come, added; and it has not run out of fuel.
  pub record Lists (w : S.World) (p : S.Paginator) (l : Listing)
      (r : Result Fault Listing × S.World) : Type 0 where
    pub reads : r.1 ≡ w
    pub ends : r.0 ≢ err diverged
    pub missing :
        (f : Fault)
        → r.0 ≡ err f
        → is_kind is_no_such_bucket f ≡ true
        → V.exists w (V.source p) ≡ false
    pub adds : (m : Listing) → r.0 ≡ ok m → m ≡ add_page l (V.pending p w)

-- the parts of an answer of NextPage
abbrev first : {A B C : Type 0} → A × B × C → A
first (a, b, c) = a

abbrev second : {A B C : Type 0} → A × B × C → B
second (a, b, c) = b

module _ (S : Service) (V : View S) (L : IsLawful S V) (fuel : ℕ) (c : Conn) where
  Lists-next :
      (p p' : S.Paginator) (l : Listing) (page : List Entry) (w : S.World)
      (r : Result Fault Listing × S.World)
      → V.pending p w ≡ page ++ V.pending p' w
      → V.source p' ≡ V.source p
      → Lists S V w p' (add_page l page) r
      → Lists S V w p l r
  Lists-next p p' l page w r e s h = record {
    missing = λ f k z. rw (← s) (h.missing f k z);
    reads = h.reads;
    ends = h.ends;
    adds =
        λ m k. h.adds m k ∙ sym (add_page-append page (V.pending p' w) l) ∙ ap (add_page l) (sym e);
  }

  list_loop-Lists :
      (f : ℕ) (p : S.Paginator) (l : Listing) (b : Text) (w : S.World)
      → V.remaining p w < f
      → Lists S V w p l (list_loop S fuel c f p l b w)
  unfolding list_loop
  list_loop-Lists zero p l b w h = absurd (omega arith)
  list_loop-Lists (suc f) p l b w h = elim (Bool-cases (S.has_more_pages p)) [
    | inr e ↦
        rw (e, list_loop)
          (record {
            reads = refl;
            ends = ground arith;
            missing = λ f k. cc;
            adds = λ m k. rw (L.list_end p w e) (unfold add_page in ground arith);
          })
    | inl e ↦ rw (e, list_loop) (go (λ q m k. list_loop-Lists f q m b w k) e (S.next_page p w) refl)
  ]
    where
      fewer :
          (p' : S.Paginator)
          → S.has_more_pages p ≡ true
          → (S.next_page p w).1 ≡ p'
          → V.remaining p' w < f
      fewer p' m k =
          let less : V.remaining p' w < V.remaining p w = rw k at (L.list_progress p w m) in
          omega arith

      go :
          ((q : S.Paginator) (m : Listing)
            → V.remaining q w < f
            → Lists S V w q m (list_loop S fuel c f q m b w))
          → S.has_more_pages p ≡ true
          → (x : Result ServiceError (List Entry) × S.Paginator × S.World) → S.next_page p w ≡ x
          → Lists S V w p l (elim x.0 [
            | err e ↦ (err (wrapped (codes "list " ++ b) (service e)), x.2)
            | ok page ↦ list_loop S fuel c f x.1 (add_page l page) b x.2
          ])
      go ih m (err e, p', v) k = record {
        reads = rw k at (L.list_reads p w);
        ends = ground arith;
        missing = λ f q z. L.list_missing p w e (ap first k) (unfold is_kind in ground arith);
        adds = λ m q. cc;
      }
      go ih m (ok page, p', v) k =
          let same : v ≡ w = rw k at (L.list_reads p w) in
          rw same (
            Lists-next p p' l page w _ (rw k at (L.list_page p w page m (ap first k)))
              (rw k at (L.list_source_kept p w))
              (ih p' (add_page l page) (fewer p' m (ap second k))))

  pub list_keys-Lists :
      (b : Text) (w : S.World)
      → V.remaining (S.new_paginator c b) w < fuel
      → Lists S V w (S.new_paginator c b) no_keys (list_keys S fuel c b w)
  unfolding list_keys
  list_keys-Lists b w h = list_loop-Lists fuel (S.new_paginator c b) no_keys b w h

  -- Listing a bucket with more fuel than the paginator has pages comes to an end and only reads. It
  -- returns the keys of all entries, in their order, with the sum of their sizes modulo 2^64, or an
  -- error that is not the one of running out of fuel.
  pub list_keys_complete :
      (b : Text) (w : S.World)
      → V.remaining (S.new_paginator c b) w < fuel
      → let es = V.pending (S.new_paginator c b) w in
        (list_keys S fuel c b w
          ≡ (ok (record { keys = map key_of es; total = sum_sizes es % 2 ^ 64 }), w))
        ⊎ ((f : Fault) × (list_keys S fuel c b w ≡ (err f, w)) × (f ≢ diverged))
  list_keys_complete b w enough = go (list_keys S fuel c b w) (list_keys-Lists b w enough)
    where
      go :
          (r : Result Fault Listing × S.World)
          → Lists S V w (S.new_paginator c b) no_keys r
          → let es = V.pending (S.new_paginator c b) w in
            (r ≡ (ok (record { keys = map key_of es; total = sum_sizes es % 2 ^ 64 }), w))
            ⊎ ((f : Fault) × (r ≡ (err f, w)) × (f ≢ diverged))
      go (ok l, v) h =
          let es : List Entry = V.pending (S.new_paginator c b) w in
          let same = h.adds l refl in
          let sum : (0 + sum_sizes es) % 2 ^ 64 ≡ sum_sizes es % 2 ^ 64 = omega arith in
          inl (λ i. (
            ok (record {
              keys = (ap (λ (m : Listing). m.keys) same ∙ keys-add_page es no_keys) i;
              total =
                  (ap (λ (m : Listing). m.total) same ∙ (total_mod-add_page es no_keys refl ∙ sum))
                    i;
            }),
            h.reads i,
          ))
      go (err f, v) h = inr (f, λ i. (err f, h.reads i), λ e. h.ends (ap err e))

  -- A listing that succeeds has changed nothing and has all the keys of the bucket and the sum of their
  -- sizes, if the fuel is more than the pages and the sizes sum to less than 2^63.
  pub list_keys-ok :
      (b : Text) (w : S.World) (l : Listing)
      → V.remaining (S.new_paginator c b) w < fuel
      → sum_sizes (V.pending (S.new_paginator c b) w) < 2 ^ 63
      → (list_keys S fuel c b w).0 ≡ ok l
      → ((list_keys S fuel c b w).1 ≡ w)
        × (l.keys ≡ map key_of (V.pending (S.new_paginator c b) w))
        × (l.total ≡ sum_sizes (V.pending (S.new_paginator c b) w))
  list_keys-ok b w l f h e =
      let all = list_keys-Lists b w f in
      let es : List Entry = V.pending (S.new_paginator c b) w in
      (
        all.reads,
        ap (λ (m : Listing). m.keys) (all.adds l e) ∙ keys-add_page es no_keys,
        ap (λ (m : Listing). m.total) (all.adds l e)
            ∙ total-add_page es no_keys (omega arith)
            ∙ omega arith,
      )
