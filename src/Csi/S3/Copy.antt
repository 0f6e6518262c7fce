-- ===== src/Csi/S3/Copy.antt =====
-- About copyAll and createBucket of csi/internal/driver/s3.go.
use dezhan.Base.{
  ℕ, ◌<◌, ◌^◌, ◌≡◌, ◌≢◌, refl, ap, ◌∙◌, [], ◌∷◌, List, map, Bool, true, false, ◌&&◌, ◌||◌, Option,
  none, some, if◌then◌else◌, Result, ok, arith, inl, inr, All, In, >>=-ok,
}
use dezhan.Text.{Text, text_eq, text_eq_iff, text_eq_refl}
use dezhan.Text.Escape.{IsSlashFree}
use dezhan.Csi.Conn.{Conn}
use dezhan.Csi.Service.{Service, ServiceError, Fault, is_owned_or_exists}
use dezhan.Csi.S3.{Listing, key_of, copy_source, create_bucket, copy_keys, copy_all, list_keys}
use dezhan.Csi.S3.Contract.{View, SameObjects, IsLawful, IsBytes}
use dezhan.Csi.S3.Pages.{sum_sizes, list_keys-ok}

pub member : Text → List Text → Bool
member k [] = false
member k (j ∷ js) = text_eq j k || member k js

pub In-member : (k : Text) (ks : List Text) → In k ks → member k ks ≡ true
unfolding member
In-member k [] h = absurd h
In-member k (j ∷ js) (inl e) = rw (e, text_eq_refl)
In-member k (j ∷ js) (inr h) = rw (In-member k js h) (ground arith)

module _ (S : Service) (V : View S) (L : IsLawful S V) (fuel : ℕ) (c : Conn) where
  module _ (src dst : Text) (slash_free : IsSlashFree src) (bytes : IsBytes src) where
    abbrev after_copy : Text → S.World → S.World
    after_copy k w = (S.copy_object c dst k (copy_source src k) w).1

    -- the source bucket looks the same after each copy, also where it is the target
    source-after_copy :
        (k j : Text) (w : S.World)
        → IsBytes k
        → (S.copy_object c dst k (copy_source src k) w).0 ≡ none
        → V.content (after_copy k w) src j ≡ V.content w src j
    source-after_copy k j w h done =
        L.copy_object_done c dst k src k w slash_free bytes h done src j
        ∙ ground (arith, text_eq_iff k j)

    copy_keys-step :
        (k : Text) (ks : List Text) (w : S.World)
        → (copy_keys S fuel c src dst (k ∷ ks) w).0 ≡ ok tt
        → ((S.copy_object c dst k (copy_source src k) w).0 ≡ none)
          × (copy_keys S fuel c src dst (k ∷ ks) w ≡ copy_keys S fuel c src dst ks (after_copy k w))
    unfolding copy_keys
    copy_keys-step k ks w h = ground arith

    copy_keys-content :
        (ks : List Text) (w : S.World)
        → All IsBytes ks
        → (copy_keys S fuel c src dst ks w).0 ≡ ok tt
        → (b i : Text)
        → V.content (copy_keys S fuel c src dst ks w).1 b i
          ≡ (if text_eq dst b && member i ks then V.content w src i else V.content w b i)
    unfolding member
    copy_keys-content [] w _ h b i = unfold copy_keys in ground arith
    copy_keys-content (k ∷ ks) w (hk, hks) h b i =
        let (done, same) = copy_keys-step k ks w h in
        rw same (
          copy_keys-content ks (after_copy k w) hks (rw same at h) b i
          ∙ ground (
            arith,
            source-after_copy k i w hk done,
            L.copy_object_done c dst k src k w slash_free bytes hk done b i,
            text_eq_iff k i,
          ))

  -- the world behind the first step of copyAll
  abbrev pub after_create : Text → S.World → S.World
  after_create b w = (create_bucket S fuel c b w).1

  after_create-eq : (b : Text) (w : S.World) → after_create b w ≡ (S.create_bucket c b w).1
  unfolding create_bucket
  after_create-eq b w = ground arith

  pub create_bucket-objects : (b : Text) (w : S.World) → SameObjects S V w (after_create b w)
  create_bucket-objects b w = rw after_create-eq (L.create_bucket_objects c b w)

  recovered :
      (b : Text) (w : S.World) (x : ServiceError)
      → (create_bucket S fuel c b w).0 ≡ ok tt
      → (S.create_bucket c b w).0 ≡ some x
      → is_owned_or_exists x.kind ≡ true
  unfolding create_bucket
  recovered b w x h e = ground arith

  -- A bucket is there when createBucket has succeeded, made or found.
  pub create_bucket-ok :
      (b : Text) (w : S.World)
      → (create_bucket S fuel c b w).0 ≡ ok tt
      → V.exists (after_create b w) b ≡ true
  create_bucket-ok b w h = rw after_create-eq (go (S.create_bucket c b w).0 refl)
    where
      go :
          (o : Option ServiceError)
          → (S.create_bucket c b w).0 ≡ o
          → V.exists (S.create_bucket c b w).1 b ≡ true
      go none e = L.create_bucket_done c b w e
      go (some x) e = L.create_bucket_there c b w x e (recovered b w x h e)

  -- What a successful copyAll has gone through.
  pub copy_all-split :
      (src dst : Text) (w : S.World) (n : ℕ)
      → (copy_all S fuel c src dst w).0 ≡ ok n
      → ((create_bucket S fuel c dst w).0 ≡ ok tt)
        × ((l : Listing) × ((list_keys S fuel c src (after_create dst w)).0 ≡ ok l)
            × (n ≡ l.total)
            × ((copy_keys S fuel c src dst l.keys (list_keys S fuel c src (after_create dst w)).1).0
                ≡ ok tt)
            × ((copy_all S fuel c src dst w).1
                ≡ (copy_keys S fuel c src dst l.keys
                    (list_keys S fuel c src (after_create dst w)).1).1))
  unfolding copy_all
  copy_all-split src dst w n h =
      let (_, created, rest, eq) = >>=-ok (create_bucket S fuel c dst) _ w h in
      let (l, listed, rest', eq') = >>=-ok (list_keys S fuel c src) _ _ rest in
      let (_, copied, done, eq'') = >>=-ok (copy_keys S fuel c src dst l.keys) _ _ rest' in
      (
        created,
        (l, listed, cc done, copied, ap (λ (x : Result Fault ℕ × S.World). x.1) (eq ∙ eq' ∙ eq'')),
      )

  exists-copy_keys :
      (src dst b : Text) (ks : List Text) (w : S.World)
      → V.exists (copy_keys S fuel c src dst ks w).1 b ≡ V.exists w b
  unfolding copy_keys
  exists-copy_keys src dst b [] w = refl
  exists-copy_keys src dst b (k ∷ ks) w = ground (
    arith,
    L.copy_object_exists c dst k (copy_source src k) b w,
    exists-copy_keys src dst b ks (S.copy_object c dst k (copy_source src k) w).1,
  )

  -- If copyAll succeeds, the target bucket is there, holds every object of the source bucket with
  -- its content, and all other buckets hold what they held. The number that it returns is the sum
  -- of the listed sizes. Source bucket and keys are bytes, the bucket
  -- without a slash, the listing has fewer pages
  -- than the fuel, and the sum is below 2^63.
  pub copy_all-ok :
      (src dst : Text) (w : S.World) (n : ℕ)
      → IsSlashFree src
      → IsBytes src
      → All IsBytes (map key_of (V.pending (S.new_paginator c src) (after_create dst w)))
      → V.remaining (S.new_paginator c src) (after_create dst w) < fuel
      → sum_sizes (V.pending (S.new_paginator c src) (after_create dst w)) < 2 ^ 63
      → (copy_all S fuel c src dst w).0 ≡ ok n
      → let v = (copy_all S fuel c src dst w).1 in
        (V.exists v dst ≡ true)
        × ((k : Text) → V.content w src k ≢ none → V.content v dst k ≡ V.content w src k)
        × ((b k : Text) → text_eq dst b ≡ false → V.content v b k ≡ V.content w b k)
        × (n ≡ sum_sizes (V.pending (S.new_paginator c src) (after_create dst w)))
  copy_all-ok src dst w n sf by plain enough small h =
      let (created, (l, listed, total, copied, same)) = copy_all-split src dst w n h in
      let v = after_create dst w in
      let u = (list_keys S fuel c src v).1 in
      let (reads, keys, sum) = list_keys-ok S V L fuel c src v l enough small listed in
      let objects = create_bucket-objects dst w in
      let bytes : All IsBytes l.keys = rw keys plain in
      let moved = copy_keys-content src dst sf by l.keys u bytes copied in
      (
        rw (same, exists-copy_keys, reads) (create_bucket-ok dst w created),
        (λ k there.
            let listed_key : member k l.keys ≡ true =
              rw keys (In-member k _ (L.list_complete c src k v (rw objects.same_content there))) in
            rw same
              (moved dst k ∙ rw (text_eq_refl, listed_key, reads) (objects.same_content src k))),
        (λ b k other. rw same (moved b k ∙ rw (other, reads) (objects.same_content b k))),
        total ∙ sum,
      )
