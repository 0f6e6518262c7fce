-- ===== src/Csi/S3/Delete.antt =====
-- About deleteBucket and emptyBucket of csi/internal/driver/s3.go.
use dezhan.Base.{
  ℕ, ◌<◌, ◌≡◌, ◌⊎◌, refl, ◌∙◌, [], ◌∷◌, List, true, false, Option, none, some, Result, ok, err,
  arith, inl, inr, >>=-ok,
}
use dezhan.Text.{Text, text_eq}
use dezhan.Csi.Conn.{Conn}
use dezhan.Csi.Service.{Service, ServiceError, Fault, is_no_such_bucket}
use dezhan.Csi.S3.{
  Listing, delete_keys, empty_listed, empty_bucket, drop_bucket, delete_bucket, list_keys,
}
use dezhan.Csi.S3.Contract.{View, IsLawful}
use dezhan.Csi.S3.Pages.{list_keys-Lists}

module _ (S : Service) (V : View S) (L : IsLawful S V) (fuel : ℕ) (c : Conn) where
  abbrev after_delete : Text → Text → S.World → S.World
  after_delete b k w = (S.delete_object c b k w).1

  delete_keys-rest :
      (b k : Text) (ks : List Text) (w : S.World)
      → ((delete_keys S fuel c b (k ∷ ks) w).1 ≡ after_delete b k w)
        ⊎ ((delete_keys S fuel c b (k ∷ ks) w).1
            ≡ (delete_keys S fuel c b ks (after_delete b k w)).1)
  unfolding delete_keys
  delete_keys-rest b k ks w = go (S.delete_object c b k w).0 refl
    where
      go :
          (o : Option ServiceError)
          → (S.delete_object c b k w).0 ≡ o
          → ((delete_keys S fuel c b (k ∷ ks) w).1 ≡ after_delete b k w)
            ⊎ ((delete_keys S fuel c b (k ∷ ks) w).1
                ≡ (delete_keys S fuel c b ks (after_delete b k w)).1)
      go none e = inr (ground arith)
      go (some x) e = inl (ground arith)

  others-delete_keys :
      (b d j : Text) (ks : List Text) (w : S.World)
      → text_eq b d ≡ false
      → V.content (delete_keys S fuel c b ks w).1 d j ≡ V.content w d j
  others-delete_keys b d j [] w n = unfold delete_keys in refl
  others-delete_keys b d j (k ∷ ks) w n =
      let one = L.delete_object_others c b k d j w n in
      elim (delete_keys-rest b k ks w) [
        | inl e ↦ rw e one
        | inr e ↦ rw e (others-delete_keys b d j ks (after_delete b k w) n ∙ one)
      ]

  others-empty_bucket :
      (b d j : Text) (w : S.World)
      → V.remaining (S.new_paginator c b) w < fuel
      → text_eq b d ≡ false
      → V.content (empty_bucket S fuel c b w).1 d j ≡ V.content w d j
  unfolding empty_bucket
  others-empty_bucket b d j w enough n =
      go (list_keys S fuel c b w) (list_keys-Lists S V L fuel c b w enough).reads
    where
      go :
          (x : Result Fault Listing × S.World)
          → x.1 ≡ w
          → V.content (empty_listed S fuel c b x).1 d j ≡ V.content w d j
      go (ok l, v) e = rw e (others-delete_keys b d j l.keys w n)
      go (err f, v) e = rw e (ground arith)

  absent :
      (b : Text) (w : S.World) (x : ServiceError)
      → (drop_bucket S fuel c b w).0 ≡ ok tt
      → (S.delete_bucket c b w).0 ≡ some x
      → is_no_such_bucket x.kind ≡ true
  unfolding drop_bucket
  absent b w x h e = ground arith

  after_drop-eq :
      (b : Text) (w : S.World) → (drop_bucket S fuel c b w).1 ≡ (S.delete_bucket c b w).1
  unfolding drop_bucket
  after_drop-eq b w = ground arith

  drop_bucket-ok :
      (b : Text) (w : S.World)
      → (drop_bucket S fuel c b w).0 ≡ ok tt
      → V.exists (S.delete_bucket c b w).1 b ≡ false
  drop_bucket-ok b w h = go (S.delete_bucket c b w).0 refl
    where
      go :
          (o : Option ServiceError)
          → (S.delete_bucket c b w).0 ≡ o
          → V.exists (S.delete_bucket c b w).1 b ≡ false
      go none e = L.delete_bucket_done c b w e
      go (some x) e = L.delete_bucket_absent c b w x e (absent b w x h e)

  -- After a successful deleteBucket the bucket is not there, and every other bucket holds what it
  -- held. The listing has fewer pages than the fuel.
  pub delete_bucket-ok :
      (b : Text) (w : S.World)
      → V.remaining (S.new_paginator c b) w < fuel
      → (delete_bucket S fuel c b w).0 ≡ ok tt
      → let v = (delete_bucket S fuel c b w).1 in
        (V.exists v b ≡ false)
        × ((d j : Text) → text_eq b d ≡ false → V.content v d j ≡ V.content w d j)
  unfolding delete_bucket
  delete_bucket-ok b w enough h =
      let (_, emptied, dropped, same) = >>=-ok (empty_bucket S fuel c b) _ w h in
      let v = (empty_bucket S fuel c b w).1 in
      rw (same, after_drop-eq b v)
        (
          drop_bucket-ok b v dropped,
          λ d j n. L.delete_bucket_others c b d j v n ∙ others-empty_bucket b d j w enough n,
        )
