-- ===== src/Csi/S3/Contract.antt =====
-- What the driver relies on in S3: an abstract view of the service's world, and how each call
-- changes it. Nobody else writes to the service meanwhile.
use dezhan.Base.{
  ℕ, ◌<◌, ◌≡◌, ◌≢◌, ◌++◌, [], List, map, Bool, true, false, ◌&&◌, Option, none, some, if◌then◌else◌,
  ok, err, All, In,
}
use dezhan.Text.{Text, text_eq}
use dezhan.Text.Escape.{IsSlashFree}
use dezhan.Csi.Conn.{Conn}
use dezhan.Csi.Service.{Service, ServiceError, Entry, is_owned_or_exists, is_no_such_bucket}
use dezhan.Csi.S3.{key_of, copy_source}

-- What can be said of a world of the service, and of a paginator in it.
pub record View (S : Service) : Type 0 where
  pub exists : S.World → Text → Bool
  pub content : S.World → Text → Text → Option Text
  -- the bucket that a paginator reads
  pub source : S.Paginator → Text
  -- the entries that a paginator has still to return, and a bound on its pages
  pub pending : S.Paginator → S.World → List Entry
  pub remaining : S.Paginator → S.World → ℕ

abbrev pub IsBytes : Text → Type 0
IsBytes = All (λ c. c < 256)

-- The pair of a bucket and a key is the given one.
abbrev pub is_at : Text → Text → Text → Text → Bool
is_at b k d j = text_eq b d && text_eq k j

module _ (S : Service) (V : View S) where
  -- The objects are the same in both worlds.
  pub record SameObjects (w v : S.World) : Type 0 where
    pub same_content : (b k : Text) → V.content v b k ≡ V.content w b k

  pub record IsLawful : Type 0 where
    -- CreateBucket, done or refused because the bucket is there
    pub create_bucket_done :
        (c : Conn) (b : Text) (w : S.World)
        → (S.create_bucket c b w).0 ≡ none
        → V.exists (S.create_bucket c b w).1 b ≡ true
    pub create_bucket_there :
        (c : Conn) (b : Text) (w : S.World) (e : ServiceError)
        → (S.create_bucket c b w).0 ≡ some e
        → is_owned_or_exists e.kind ≡ true
        → V.exists (S.create_bucket c b w).1 b ≡ true
    pub create_bucket_objects :
        (c : Conn) (b : Text) (w : S.World) → SameObjects w (S.create_bucket c b w).1
    -- CopyObject, whose source is a bucket and a key, percent-encoded
    pub copy_object_done :
        (c : Conn) (dst k src j : Text) (w : S.World)
        → IsSlashFree src
        → IsBytes src
        → IsBytes j
        → (S.copy_object c dst k (copy_source src j) w).0 ≡ none
        → (b i : Text)
        → V.content (S.copy_object c dst k (copy_source src j) w).1 b i
          ≡ (if is_at dst k b i then V.content w src j else V.content w b i)
    pub copy_object_exists :
        (c : Conn) (dst k source b : Text) (w : S.World)
        → V.exists (S.copy_object c dst k source w).1 b ≡ V.exists w b
    -- ListObjectsV2 and its paginator
    pub list_complete :
        (c : Conn) (b k : Text) (w : S.World)
        → V.content w b k ≢ none
        → In k (map key_of (V.pending (S.new_paginator c b) w))
    pub list_end : (p : S.Paginator) (w : S.World) → S.has_more_pages p ≡ false → V.pending p w ≡ []
    pub list_page :
        (p : S.Paginator) (w : S.World) (page : List Entry)
        → S.has_more_pages p ≡ true
        → (S.next_page p w).0 ≡ ok page
        → V.pending p w ≡ page ++ V.pending (S.next_page p w).1 w
    pub list_progress :
        (p : S.Paginator) (w : S.World)
        → S.has_more_pages p ≡ true
        → V.remaining (S.next_page p w).1 w < V.remaining p w
    pub list_source : (c : Conn) (b : Text) → V.source (S.new_paginator c b) ≡ b
    pub list_source_kept :
        (p : S.Paginator) (w : S.World) → V.source (S.next_page p w).1 ≡ V.source p
    pub list_missing :
        (p : S.Paginator) (w : S.World) (e : ServiceError)
        → (S.next_page p w).0 ≡ err e
        → is_no_such_bucket e.kind ≡ true
        → V.exists w (V.source p) ≡ false
    pub list_reads : (p : S.Paginator) (w : S.World) → (S.next_page p w).2 ≡ w
    -- an object stands in a bucket that exists
    pub content_exists : (w : S.World) (b k : Text) → V.content w b k ≢ none → V.exists w b ≡ true
    -- DeleteObject touches no other bucket
    pub delete_object_others :
        (c : Conn) (b k d j : Text) (w : S.World)
        → text_eq b d ≡ false
        → V.content (S.delete_object c b k w).1 d j ≡ V.content w d j
    -- DeleteBucket, done or refused because the bucket is not there
    pub delete_bucket_done :
        (c : Conn) (b : Text) (w : S.World)
        → (S.delete_bucket c b w).0 ≡ none
        → V.exists (S.delete_bucket c b w).1 b ≡ false
    pub delete_bucket_absent :
        (c : Conn) (b : Text) (w : S.World) (e : ServiceError)
        → (S.delete_bucket c b w).0 ≡ some e
        → is_no_such_bucket e.kind ≡ true
        → V.exists (S.delete_bucket c b w).1 b ≡ false
    pub delete_bucket_others :
        (c : Conn) (b d j : Text) (w : S.World)
        → text_eq b d ≡ false
        → V.content (S.delete_bucket c b w).1 d j ≡ V.content w d j
