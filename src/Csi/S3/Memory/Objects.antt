-- ===== src/Csi/S3/Memory/Objects.antt =====
-- Buckets and objects of the service in memory, call by call.
use dezhan.Base.{
  ℕ, ◌<◌, ◌≡◌, ◌≢◌, refl, ap, ◌++◌, [], ◌∷◌, true, false, Option, none, some, if◌then◌else◌, arith,
  All-append,
}
use dezhan.Text.{Text, text_eq, text_eq_iff, text_eq_refl}
use dezhan.Text.Escape.{unescape, unescape-path_escape, IsSlashFree}
use dezhan.Dict.{Dict, lookup, insert, remove, lookup-insert, lookup-remove}
use dezhan.Csi.Service.{ServiceError, is_no_such_bucket}
use dezhan.Csi.S3.{copy_source}
use dezhan.Csi.S3.Contract.{IsBytes, is_at}
use dezhan.Csi.S3.Memory.{
  Stored, World, objects, find, at_slash, make, drop_empty, erase, copy, has, body_of,
}

pub find-make : (b d k : Text) (w : World) → find (make b w).1 d k ≡ find w d k
unfolding make find objects
find-make b d k w = ground (arith, lookup-insert b d [] w, text_eq_iff b d)

pub has-make : (b : Text) (w : World) → has (lookup b (make b w).1) ≡ true
unfolding make has
has-make b w = ground (arith, lookup-insert b b [] w, text_eq_refl b)

pub at_slash-append : (a b : Text) → IsSlashFree a → at_slash (a ++ b'/' ∷ b) ≡ (a, b)
unfolding at_slash
at_slash-append [] b h = refl
at_slash-append (c ∷ a) b (e, h) = ground (arith, at_slash-append a b h)

pub unescape-copy_source :
    (src k : Text) → IsBytes src → IsBytes k → unescape (copy_source src k) ≡ src ++ b'/' ∷ k
unfolding copy_source
unescape-copy_source src k hs hk =
    unescape-path_escape (src ++ b'/' ∷ k)
      (All-append (λ (c : ℕ). c < 256) src (b'/' ∷ k) hs (omega arith, hk))

-- `find` behind a write into a bucket that is there
pub find-put :
    (b d k i : Text) (o : Stored) (w : World) (m : Dict Stored)
    → lookup b w ≡ some m
    → find (insert b (insert k o m) w) d i ≡ (if is_at b k d i then some o else find w d i)
unfolding find objects
find-put b d k i o w m h =
    ground (arith, lookup-insert b d (insert k o m) w, lookup-insert k i o m, text_eq_iff b d)

-- the object that a copy source names
abbrev pub named : Text → World → Option Stored
named source w = find w (at_slash (unescape source)).0 (at_slash (unescape source)).1

module _ (dst k source : Text) (w : World) where
  pub copy-refused : (copy dst k source w).0 ≡ none → named source w ≡ none → ⊥
  unfolding copy
  copy-refused h e = ground arith

  pub copy-nowhere :
      {o : Stored}
      → (copy dst k source w).0 ≡ none
      → named source w ≡ some o
      → lookup dst w ≡ none
      → ⊥
  unfolding copy
  copy-nowhere h e f = ground arith

  pub copy-put :
      {o : Stored} {m : Dict Stored}
      → named source w ≡ some o
      → lookup dst w ≡ some m
      → copy dst k source w
        ≡ (none, insert dst (insert k (record { body = o.body; locked = false }) m) w)
  unfolding copy
  copy-put e f = ground arith

  pub copy-kept : (copy dst k source w).0 ≢ none → (copy dst k source w).1 ≡ w
  unfolding copy
  copy-kept h = ground arith

  pub has-copy_put :
      (b : Text) (m n : Dict Stored)
      → lookup dst w ≡ some m
      → has (lookup b (insert dst n w)) ≡ has (lookup b w)
  unfolding has
  has-copy_put b m n h = ground (arith, lookup-insert dst b n w, text_eq_iff dst b)

pub copy-done :
    (dst k source b i : Text) (w : World)
    → (copy dst k source w).0 ≡ none
    → body_of (find (copy dst k source w).1 b i)
      ≡ (if is_at dst k b i then body_of (named source w) else body_of (find w b i))
copy-done dst k source b i w h = go (named source w) (lookup dst w) refl refl
  where
    go :
        (o : Option Stored) (m : Option (Dict Stored))
        → named source w ≡ o
        → lookup dst w ≡ m
        → body_of (find (copy dst k source w).1 b i)
          ≡ (if is_at dst k b i then body_of (named source w) else body_of (find w b i))
    go none m e f = absurd (copy-refused dst k source w h e)
    go (some o) none e f = absurd (copy-nowhere dst k source w h e f)
    go (some o) (some m) e f = rw (copy-put dst k source w e f) (
        rw (e, find-put dst b k i (record { body = o.body; locked = false }) w m f)
          (unfold body_of in ground arith))

pub copy-exists :
    (dst k source b : Text) (w : World) → has (lookup b (copy dst k source w).1) ≡ has (lookup b w)
copy-exists dst k source b w = go (named source w) (lookup dst w) refl refl
  where
    go :
        (o : Option Stored) (m : Option (Dict Stored))
        → named source w ≡ o
        → lookup dst w ≡ m
        → has (lookup b (copy dst k source w).1) ≡ has (lookup b w)
    go none m e f =
        ap (λ v. has (lookup b v)) (copy-kept dst k source w (λ h. copy-refused dst k source w h e))
    go (some o) none e f =
        ap (λ v. has (lookup b v))
          (copy-kept dst k source w (λ h. copy-nowhere dst k source w h e f))
    go (some o) (some m) e f =
        rw (copy-put dst k source w e f) (has-copy_put dst k source w b m _ f)

pub find-erase :
    (b k d j : Text) (w : World)
    → (erase b k w).0 ≡ none
    → find (erase b k w).1 d j ≡ (if is_at b k d j then none else find w d j)
unfolding erase find objects
find-erase b k d j w h = ground (
  arith,
  lookup-insert b d (remove k (objects (lookup b w))) w,
  lookup-remove k j (objects (lookup b w)),
  text_eq_iff b d,
  text_eq_iff k j,
)

pub others-erase :
    (b k d j : Text) (w : World) → text_eq b d ≡ false → find (erase b k w).1 d j ≡ find w d j
unfolding erase find
others-erase b k d j w h = ground (arith, lookup-insert b d (remove k (objects (lookup b w))) w)

pub drop_empty-done :
    (b : Text) (w : World) → (drop_empty b w).0 ≡ none → has (lookup b (drop_empty b w).1) ≡ false
unfolding drop_empty has
drop_empty-done b w h = ground (arith, lookup-remove b b w, text_eq_refl b)

pub drop_empty-absent :
    (b : Text) (w : World) (e : ServiceError)
    → (drop_empty b w).0 ≡ some e
    → is_no_such_bucket e.kind ≡ true
    → has (lookup b (drop_empty b w).1) ≡ false
unfolding drop_empty has is_no_such_bucket
drop_empty-absent b w e h t = ground (arith, lookup-remove b b w, text_eq_refl b)

pub others-drop_empty :
    (b d j : Text) (w : World) → text_eq b d ≡ false → find (drop_empty b w).1 d j ≡ find w d j
unfolding drop_empty find
others-drop_empty b d j w h = ground (arith, lookup-remove b d w)

pub content-has : (w : World) (b k : Text) → body_of (find w b k) ≢ none → has (lookup b w) ≡ true
unfolding find objects body_of has
content-has w b k h = go (lookup b w) refl
  where
    go : (m : Option (Dict Stored)) → lookup b w ≡ m → has m ≡ true
    go none e = absurd (h (unfold lookup in rw e))
    go (some m) e = refl
