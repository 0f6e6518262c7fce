-- ===== src/Csi/Service.antt =====
-- The S3 service behind the AWS SDK, which the driver only calls: errors, pages, the paginator.
use dezhan.Base.{ℕ, [], ◌++◌, Bool, true, false, List, Option, Result}
use dezhan.Text.{Text, codes}
use dezhan.Csi.Conn.{Conn}

-- The types of the SDK's errors that the driver tells apart.
pub data Kind : Type 0 where
  already_owned already_exists no_such_bucket other : Kind

pub record ServiceError : Type 0 where
  pub kind : Kind
  pub text : Text

-- One entry of a page of ListObjectsV2: its pointers may be nil.
pub record Entry : Type 0 where
  pub key : Option Text
  pub size : Option ℕ

-- The S3 calls at a connection, and the SDK's paginator over ListObjectsV2.
pub record Service : Type 1 where
  pub World : Type 0
  pub create_bucket : Conn → Text → World → Option ServiceError × World
  pub delete_bucket : Conn → Text → World → Option ServiceError × World
  pub delete_object : Conn → Text → Text → World → Option ServiceError × World
  -- bucket, key and copy source
  pub copy_object : Conn → Text → Text → Text → World → Option ServiceError × World
  pub Paginator : Type 0
  pub new_paginator : Conn → Text → Paginator
  pub has_more_pages : Paginator → Bool
  -- NextPage moves the paginator on, also where it fails
  pub next_page : Paginator → World → Result ServiceError (List Entry) × Paginator × World

-- A Go error of the driver: one of the service, or a text around an error (`%w`). `diverged` stands
-- for a listing whose pages never end.
pub data Fault : Type 0 where
  service : ServiceError → Fault
  wrapped : Text → Fault → Fault
  diverged : Fault

-- the type switch of errors.As, through the wrapping
unfoldable pub is_kind : (Kind → Bool) → Fault → Bool
is_kind test (service e) = test e.kind
is_kind test (wrapped prefix f) = is_kind test f
is_kind test diverged = false

unfoldable pub is_owned_or_exists : Kind → Bool
is_owned_or_exists already_owned = true
is_owned_or_exists already_exists = true
is_owned_or_exists _ = false

unfoldable pub is_no_such_bucket : Kind → Bool
is_no_such_bucket no_such_bucket = true
is_no_such_bucket _ = false

-- err.Error()
pub fault_text : Fault → Text
fault_text (service e) = e.text
fault_text (wrapped prefix f) = prefix ++ (codes ": " ++ fault_text f)
fault_text diverged = []
