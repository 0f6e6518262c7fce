-- ===== src/Csi/S3/Memory.antt =====
-- A small S3 service in memory that meets the contract: buckets of objects, of which some may be locked
-- against deletion, and pages of two entries.
pub mod Objects
pub mod Listing
pub mod Lawful
use dezhan.Base.{
  ℕ, zero, suc, ◌+◌, ◌<◌, ◌≤◌, ◌≡◌, ◌≢◌, ◌⊎◌, refl, ap, sym, ◌∙◌, ◌++◌, [], ◌∷◌, List, map, Bool,
  true, false, not, ◌&&◌, ◌||◌, Option, none, some, if◌then◌else◌, Result, ok, err, arith, inl, inr,
  Bool-cases, Option-cases, All, In, All-append, length, take, drop, ◌==◌,
}
use dezhan.Text.{Text, codes, text_eq, text_eq_iff, text_eq_refl, path_escape}
use dezhan.Text.Escape.{unescape, unescape-path_escape, IsSlashFree}
use dezhan.Dict.{Dict, lookup, insert, remove, lookup-insert, lookup-remove}
use dezhan.Csi.Conn.{Conn}
use dezhan.Csi.Service.{
  Service, ServiceError, Entry, already_owned, no_such_bucket, other, is_owned_or_exists,
  is_no_such_bucket,
}
use dezhan.Csi.S3.{key_of, copy_source}
use dezhan.Csi.S3.Contract.{View, SameObjects, IsLawful, IsBytes, is_at}

pub record Stored : Type 0 where
  pub body : Text
  pub locked : Bool

abbrev pub World : Type 0
World = Dict (Dict Stored)

pub record Cursor : Type 0 where
  pub bucket : Text
  pub skip : ℕ
  pub more : Bool

abbrev pub refusal : ServiceError
refusal = record { kind = other; text = codes "refused" }

abbrev pub gone : ServiceError
gone = record { kind = no_such_bucket; text = codes "NoSuchBucket" }

abbrev pub owned : ServiceError
owned = record { kind = already_owned; text = codes "BucketAlreadyOwnedByYou" }

unfoldable pub objects : Option (Dict Stored) → Dict Stored
objects none = []
objects (some d) = d

unfoldable pub find : World → Text → Text → Option Stored
find w b k = lookup k (objects (lookup b w))

unfoldable pub entries : Dict Stored → List Entry
entries [] = []
entries ((k, o) ∷ d) = record { key = some k; size = some (length o.body) } ∷ entries d

unfoldable pub is_nil : {A : Type 0} → List A → Bool
is_nil [] = true
is_nil (x ∷ xs) = false

-- what stands before the first slash, and behind it
unfoldable pub at_slash : Text → Text × Text
at_slash [] = ([], [])
at_slash (c ∷ s) = let rest = at_slash s in if c == b'/' then ([], s) else (c ∷ rest.0, rest.1)

unfoldable pub make : Text → World → Option ServiceError × World
make b w = elim (lookup b w) [ none ↦ (none, insert b [] w) | some d ↦ (some owned, w) ]

unfoldable pub drop_empty : Text → World → Option ServiceError × World
drop_empty b w = elim (lookup b w) [
  | none ↦ (some gone, w)
  | some d ↦ if is_nil d then (none, remove b w) else (some refusal, w)
]

unfoldable pub erase : Text → Text → World → Option ServiceError × World
erase b k w = elim (find w b k) [
  | none ↦ (none, w)
  | some o ↦
      if o.locked then (some refusal, w) else (none, insert b (remove k (objects (lookup b w))) w)
]

unfoldable pub copy : Text → Text → Text → World → Option ServiceError × World
copy dst k source w = elim (find w (at_slash (unescape source)).0 (at_slash (unescape source)).1) [
  | none ↦ (some refusal, w)
  | some o ↦ elim (lookup dst w) [
    | none ↦ (some gone, w)
    | some d ↦ (none, insert dst (insert k (record { body = o.body; locked = false }) d) w)
  ]
]

unfoldable pub page : Cursor → World → Result ServiceError (List Entry) × Cursor × World
page p w = elim (lookup p.bucket w) [
  | none ↦ (err gone, record p { more = false }, w)
  | some d ↦ (
    ok (take 2 (drop p.skip (entries d))),
    record p { skip = p.skip + 2; more = not (is_nil (drop (p.skip + 2) (entries d))) },
    w,
  )
]

abbrev pub memory : Service
memory = record {
  World = World;
  create_bucket = λ c b w. make b w;
  delete_bucket = λ c b w. drop_empty b w;
  delete_object = λ c b k w. erase b k w;
  copy_object = λ c dst k source w. copy dst k source w;
  Paginator = Cursor;
  new_paginator = λ c b. record { bucket = b; skip = 0; more = true };
  has_more_pages = λ p. p.more;
  next_page = page;
}

unfoldable pub has : Option (Dict Stored) → Bool
has none = false
has (some d) = true

unfoldable pub body_of : Option Stored → Option Text
body_of none = none
body_of (some o) = some o.body

unfoldable pub locked_of : Option Stored → Bool
locked_of none = false
locked_of (some o) = o.locked

unfoldable pub rest_of : Cursor → World → List Entry
rest_of p w = drop p.skip (entries (objects (lookup p.bucket w)))

unfoldable pub memory_pending : Cursor → World → List Entry
memory_pending p w = if p.more then rest_of p w else []

unfoldable pub memory_remaining : Cursor → World → ℕ
memory_remaining p w = if p.more then suc (length (rest_of p w)) else 0

abbrev pub memory_view : View memory
memory_view = record {
  exists = λ w b. has (lookup b w);
  content = λ w b k. body_of (find w b k);
  source = λ p. p.bucket;
  pending = memory_pending;
  remaining = memory_remaining;
}
