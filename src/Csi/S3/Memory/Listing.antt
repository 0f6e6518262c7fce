-- ===== src/Csi/S3/Memory/Listing.antt =====
-- The pages of the service in memory.
use Prim.Native.Nat.add
use dezhan.Base.{
  ℕ, zero, suc, ◌+◌, ◌<◌, ◌≡◌, ◌≢◌, refl, ap, sym, ◌++◌, [], ◌∷◌, List, map, true, false, not, none,
  some, if◌then◌else◌, ok, err, arith, inl, inr, Bool-cases, In, length, take, drop,
}
use dezhan.Text.{Text, text_eq, text_eq_iff}
use dezhan.Dict.{Dict, lookup}
use dezhan.Csi.S3.{key_of}
use dezhan.Csi.S3.Memory.{
  Stored, World, Cursor, objects, entries, is_nil, page, body_of, rest_of, memory_pending,
  memory_remaining, gone,
}

pub In-entries :
    (k : Text) (d : Dict Stored) → body_of (lookup k d) ≢ none → In k (map key_of (entries d))
unfolding entries lookup body_of
In-entries k [] h = ground arith
In-entries k ((j, o) ∷ d) h = elim (Bool-cases (text_eq j k)) [
  | inl e ↦ inl (sym ((text_eq_iff j k).0 e))
  | inr e ↦ inr (In-entries k d (rw e at h))
]

pub drop-drop : {A : Type 0} (n m : ℕ) (xs : List A) → drop (n + m) xs ≡ drop m (drop n xs)
drop-drop zero m xs = rw add.zero
drop-drop (suc n) zero [] = rw add.suc
drop-drop (suc n) (suc m) [] = rw add.suc
drop-drop (suc n) m (x ∷ xs) = rw add.suc (drop-drop n m xs)

pub take-append-drop : {A : Type 0} (n : ℕ) (xs : List A) → take n xs ++ drop n xs ≡ xs
take-append-drop zero xs = refl
take-append-drop (suc n) [] = refl
take-append-drop (suc n) (x ∷ xs) = ap (λ (t : List _). x ∷ t) (take-append-drop n xs)

pub nil_of : {A : Type 0} (xs : List A) → (if not (is_nil xs) then xs else []) ≡ xs
unfolding is_nil
nil_of [] = refl
nil_of (x ∷ xs) = refl

pub length-drop_two :
    {A : Type 0} (xs : List A) → is_nil (drop 2 xs) ≡ false → length (drop 2 xs) < length xs
unfolding is_nil
length-drop_two [] h = cc
length-drop_two (x ∷ []) h = cc
length-drop_two (x ∷ y ∷ xs) h = omega arith

pub page-missing :
    (p : Cursor) (w : World)
    → lookup p.bucket w ≡ none
    → page p w ≡ (err gone, record p { more = false }, w)
unfolding page
page-missing p w h = ground arith

pub page-found :
    (p : Cursor) (w : World) (d : Dict Stored)
    → lookup p.bucket w ≡ some d
    → page p w ≡ (
      ok (take 2 (drop p.skip (entries d))),
      record p { skip = p.skip + 2; more = not (is_nil (drop (p.skip + 2) (entries d))) },
      w,
    )
unfolding page
page-found p w d h = ground arith

-- the cursor behind a page of the bucket's objects `d`
abbrev pub moved : Cursor → Dict Stored → Cursor
moved p d = record p { skip = p.skip + 2; more = not (is_nil (drop (p.skip + 2) (entries d))) }

pub pending-page :
    (p : Cursor) (w : World) (d : Dict Stored)
    → p.more ≡ true
    → lookup p.bucket w ≡ some d
    → memory_pending p w ≡ take 2 (drop p.skip (entries d)) ++ memory_pending (moved p d) w
unfolding memory_pending rest_of objects
pending-page p w d m h =
    rw (m, h, nil_of, drop-drop p.skip 2 (entries d))
      (sym (take-append-drop 2 (drop p.skip (entries d))))

pub remaining-page :
    (p : Cursor) (w : World) (d : Dict Stored)
    → p.more ≡ true
    → lookup p.bucket w ≡ some d
    → memory_remaining (moved p d) w < memory_remaining p w
unfolding memory_remaining rest_of objects
remaining-page p w d m h =
    rw (m, h, drop-drop p.skip 2 (entries d))
      (elim (Bool-cases (is_nil (drop 2 (drop p.skip (entries d))))) [
        | inl e ↦ rw e (omega arith)
        | inr e ↦ rw e (omega (arith, length-drop_two (drop p.skip (entries d)) e))
      ])
