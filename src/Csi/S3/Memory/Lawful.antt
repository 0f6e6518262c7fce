-- ===== src/Csi/S3/Memory/Lawful.antt =====
-- About the service in memory: the laws of the contract.
use dezhan.Base.{
  ◌<◌, ◌≡◌, ◌≢◌, refl, ap, ◌∙◌, ◌++◌, List, map, true, false, Option, none, some, Result, ok, err,
  arith, In,
}
use dezhan.Text.{Text}
use dezhan.Text.Escape.{IsSlashFree}
use dezhan.Dict.{Dict, lookup}
use dezhan.Csi.Service.{ServiceError, Entry}
use dezhan.Csi.S3.{key_of, copy_source}
use dezhan.Csi.S3.Contract.{IsLawful, IsBytes}
use dezhan.Csi.S3.Memory.{
  Stored, World, Cursor, objects, find, page, memory, memory_view, has, body_of, rest_of,
  memory_pending, memory_remaining, gone,
}
use dezhan.Csi.S3.Memory.Objects.{
  find-make, has-make, at_slash-append, unescape-copy_source, copy-done, copy-exists, others-erase,
  drop_empty-done, drop_empty-absent, others-drop_empty, content-has, named,
}
use dezhan.Csi.S3.Memory.Listing.{
  In-entries, page-missing, page-found, moved, pending-page, remaining-page,
}

named-copy_source :
    (src k : Text) (w : World)
    → IsSlashFree src
    → IsBytes src
    → IsBytes k
    → named (copy_source src k) w ≡ find w src k
named-copy_source src k w sf hs hk = rw (unescape-copy_source src k hs hk, at_slash-append src k sf)

missing_ok : {es : List Entry} → ◌≡◌ {A = Result ServiceError (List Entry)} (err gone) (ok es) → ⊥
missing_ok h = cc

ok_inj : {es fs : List Entry} → ◌≡◌ {A = Result ServiceError (List Entry)} (ok es) (ok fs) → es ≡ fs
ok_inj h = cc

list_page :
    (p : Cursor) (w : World) (es : List Entry)
    → p.more ≡ true
    → (page p w).0 ≡ ok es
    → memory_pending p w ≡ es ++ memory_pending (page p w).1 w
list_page p w es m h = go (lookup p.bucket w) refl
  where
    go :
        (o : Option (Dict Stored))
        → lookup p.bucket w ≡ o
        → memory_pending p w ≡ es ++ memory_pending (page p w).1 w
    go none e = absurd (missing_ok (rw (page-missing p w e) at h))
    go (some d) e = rw (page-found p w d e) (
        pending-page p w d m e
        ∙ ap (λ (t : List Entry). t ++ memory_pending (moved p d) w)
            (ok_inj (rw (page-found p w d e) at h)))

list_progress :
    (p : Cursor) (w : World)
    → p.more ≡ true
    → memory_remaining (page p w).1 w < memory_remaining p w
list_progress p w m = go (lookup p.bucket w) refl
  where
    go :
        (o : Option (Dict Stored))
        → lookup p.bucket w ≡ o
        → memory_remaining (page p w).1 w < memory_remaining p w
    go none e = rw (page-missing p w e) (unfold memory_remaining in rw m (omega arith))
    go (some d) e = rw (page-found p w d e) (remaining-page p w d m e)

list_complete :
    (b k : Text) (w : World)
    → body_of (find w b k) ≢ none
    → In k (map key_of (memory_pending (record { bucket = b; skip = 0; more = true }) w))
unfolding memory_pending rest_of find
list_complete b k w h = In-entries k (objects (lookup b w)) h

page-bucket : (p : Cursor) (w : World) → (page p w).1.bucket ≡ p.bucket
unfolding page
page-bucket p w = ground arith

page-reads : (p : Cursor) (w : World) → (page p w).2 ≡ w
unfolding page
page-reads p w = ground arith

page-absent :
    (p : Cursor) (w : World) {e : ServiceError}
    → (page p w).0 ≡ err e
    → has (lookup p.bucket w) ≡ false
unfolding page has
page-absent p w h = ground arith

pub memory-IsLawful : IsLawful memory memory_view
unfolding has memory_pending
memory-IsLawful = record {
  create_bucket_done = λ c b w h. has-make b w;
  create_bucket_there = λ c b w e h t. has-make b w;
  create_bucket_objects = λ c b w. record { same_content = λ d k. ap body_of (find-make b d k w) };
  copy_object_done = λ c dst k src j w sf hs hj h b i.
      rw (copy-done dst k (copy_source src j) b i w h) (rw (named-copy_source src j w sf hs hj));
  copy_object_exists = λ c dst k source b w. copy-exists dst k source b w;
  list_complete = λ c b k w h. list_complete b k w h;
  list_end = λ p w h. rw h;
  list_page = λ p w es m h. list_page p w es m h;
  list_progress = λ p w m. list_progress p w m;
  list_source = λ c b. refl;
  list_source_kept = page-bucket;
  list_missing = λ p w e h t. page-absent p w h;
  list_reads = page-reads;
  content_exists = content-has;
  delete_object_others = λ c b k d j w h. ap body_of (others-erase b k d j w h);
  delete_bucket_done = λ c b w h. drop_empty-done b w h;
  delete_bucket_absent = λ c b w e h t. drop_empty-absent b w e h t;
  delete_bucket_others = λ c b d j w h. ap body_of (others-drop_empty b d j w h);
}
