-- ===== src/Csi/S3.antt =====
-- Bucket operations on the S3 service, csi/internal/driver/s3.go. `fuel` bounds the pages of a
-- listing.
pub mod Contract
pub mod Pages
pub mod Copy
pub mod Delete
pub mod Memory
use dezhan.Base.{
  ℕ, zero, suc, ◌+◌, ◌%◌, ◌^◌, ◌++◌, [], ◌∷◌, List, Bool, true, false, Option, none, some,
  if◌then◌else◌, Result, ok, err, Exec, pure, fail, ◌>>=◌, ◌>>◌, nil_or, or_fail, continue, mapped,
  checked,
}
use dezhan.Text.{Text, codes, path_escape}
use dezhan.Csi.Conn.{Conn}
use dezhan.Csi.Service.{
  Service, ServiceError, Entry, Fault, service, wrapped, diverged, is_kind, is_owned_or_exists,
  is_no_such_bucket,
}

-- aws.ToString, aws.ToInt64
abbrev pub key_of : Entry → Text
key_of e = elim e.key [ none ↦ [] | some k ↦ k ]

abbrev pub size_of : Entry → ℕ
size_of e = elim e.size [ none ↦ 0 | some n ↦ n ]

-- `total += size` on int64, kept as its 64 bits
abbrev pub add64 : ℕ → ℕ → ℕ
add64 a b = (a + b) % 2 ^ 64

-- The keys and the total size that a listing has found so far.
pub record Listing : Type 0 where
  pub keys : List Text
  pub total : ℕ

abbrev pub no_keys : Listing
no_keys = record { keys = []; total = 0 }

-- the loop over page.Contents
unfoldable pub add_page : Listing → List Entry → Listing
add_page l [] = l
add_page l (e ∷ es) =
    add_page (record { keys = l.keys ++ key_of e ∷ []; total = add64 l.total (size_of e) }) es

abbrev pub Outcome : Type 0 → Type 0
Outcome W = Result Fault (Unit {0}) × W

-- recovery from an error, or its wrapping
abbrev pub recover : {W : Type 0} → (Fault → Bool) → (Fault → Fault) → Outcome W → Outcome W
recover test wrap (ok u, w) = (ok u, w)
recover test wrap (err f, w) = if test f then (ok tt, w) else (err (wrap f), w)

unfoldable pub copy_source : Text → Text → Text
unfolding path_escape
copy_source src k = path_escape (src ++ b'/' ∷ k)

module _ (S : Service) (fuel : ℕ) (c : Conn) where
  abbrev Run : Type 0 → Type 0
  Run A = Exec S.World Fault A

  unfoldable pub create_bucket : Text → Run (Unit {0})
  unfolding is_kind is_owned_or_exists
  create_bucket bucket w =
      recover (is_kind is_owned_or_exists) (wrapped (codes "create bucket " ++ bucket))
        (mapped service (checked (S.create_bucket c bucket w)))

  -- `for p.HasMorePages()`
  unfoldable pub list_loop : ℕ → S.Paginator → Listing → Text → Run Listing
  unfolding add_page
  list_loop zero p l bucket w = (err diverged, w)
  list_loop (suc f) p l bucket w = elim (S.has_more_pages p) [
    | false ↦ (ok l, w)
    | true ↦
        let (r, p', w') = S.next_page p w in
        elim r [
          | err e ↦ (err (wrapped (codes "list " ++ bucket) (service e)), w')
          | ok page ↦ list_loop f p' (add_page l page) bucket w'
        ]
  ]

  unfoldable pub list_keys : Text → Run Listing
  unfolding list_loop
  list_keys bucket = list_loop fuel (S.new_paginator c bucket) no_keys bucket

  -- the loop of emptyBucket over the keys
  unfoldable pub delete_keys : Text → List Text → Run (Unit {0})
  delete_keys bucket [] = pure tt
  delete_keys bucket (k ∷ ks) = do
    or_fail (nil_or (S.delete_object c bucket k))
        (λ e. wrapped (codes "delete " ++ (bucket ++ (b'/' ∷ k))) (service e))
    delete_keys bucket ks

  abbrev empty_listed : Text → Result Fault Listing × S.World → Outcome S.World
  empty_listed bucket (ok l, w) = delete_keys bucket l.keys w
  empty_listed bucket (err f, w) = if is_kind is_no_such_bucket f then (ok tt, w) else (err f, w)

  unfoldable pub empty_bucket : Text → Run (Unit {0})
  empty_bucket bucket w = empty_listed bucket (list_keys bucket w)

  -- the second half of deleteBucket
  unfoldable pub drop_bucket : Text → Run (Unit {0})
  unfolding is_kind is_no_such_bucket
  drop_bucket bucket w =
      recover (is_kind is_no_such_bucket) (wrapped (codes "delete bucket " ++ bucket))
        (mapped service (checked (S.delete_bucket c bucket w)))

  unfoldable pub delete_bucket : Text → Run (Unit {0})
  delete_bucket bucket = do empty_bucket bucket; drop_bucket bucket

  -- the loop of copyAll over the keys
  unfoldable pub copy_keys : Text → Text → List Text → Run (Unit {0})
  unfolding copy_source
  copy_keys src dst [] = pure tt
  copy_keys src dst (k ∷ ks) = do
    or_fail (nil_or (S.copy_object c dst k (copy_source src k)))
        (λ e. wrapped (codes "copy " ++ (src ++ (b'/' ∷ (k ++ (codes " -> " ++ dst))))) (service e))
    copy_keys src dst ks

  unfoldable pub copy_all : Text → Text → Run ℕ
  copy_all src dst = do create_bucket dst; l ← list_keys src; copy_keys src dst l.keys; pure l.total
