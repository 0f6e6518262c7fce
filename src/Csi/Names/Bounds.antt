-- ===== src/Csi/Names/Bounds.antt =====
-- About the bucket names of csi/internal/driver/controller.go.
use dezhan.Base.{
  ◌≤◌, ◌≡◌, refl, ◌∙◌, ap, sym, true, ◌++◌, ltb, length, take, arith, inl, inr, [], ◌∷◌, ◌≢◌,
  Bool-cases, take-all, length-take,
}
use dezhan.Text.{Text, codes, to_lower, trim_prefix, has_prefix}
use dezhan.Text.Case.{IsLower, to_lower-IsLower, to_lower_of_IsLower, IsLower-take, IsLower-append}
use dezhan.Csi.Names.{truncate, bucket_name, snapshot_bucket}

truncate-eq-take : (b : Text) → truncate b ≡ take 63 b
unfolding truncate
truncate-eq-take b = elim (Bool-cases (ltb 63 (length b))) [
  | inl e ↦ rw e
  | inr e ↦ rw e (sym (take-all 63 b (ground arith)))
]

length-truncate : (b : Text) → length (truncate b) ≤ 63
length-truncate b = rw truncate-eq-take (omega (arith, length-take {0} 63 b))

truncate_short : (b : Text) → length b ≤ 63 → truncate b ≡ b
truncate_short b h = truncate-eq-take b ∙ take-all 63 b h

-- Whatever the request is called, the bucket name has at most 63 bytes and no upper case letter,
-- and deriving a bucket name from it again gives the same name.
pub bucket_name-bounds :
    (r : Text)
    → (length (bucket_name r) ≤ 63)
      × IsLower (bucket_name r)
      × (bucket_name (bucket_name r) ≡ bucket_name r)
unfolding bucket_name
bucket_name-bounds r = (
  length-truncate (to_lower r),
  lowered,
  ap truncate (to_lower_of_IsLower (truncate (to_lower r)) lowered)
      ∙ truncate_short (truncate (to_lower r)) (length-truncate (to_lower r)),
)
  where
    lowered : IsLower (truncate (to_lower r))
    lowered = rw truncate-eq-take (IsLower-take 63 (to_lower r) (to_lower-IsLower r))

-- Requests without upper case letters and of at most 63 bytes keep their name, so that two of them
-- share a bucket only if they are the same.
pub bucket_name-injective :
    (r s : Text)
    → IsLower r
    → IsLower s
    → length r ≤ 63
    → length s ≤ 63
    → bucket_name r ≡ bucket_name s
    → r ≡ s
bucket_name-injective r s lr ls hr hs e =
    sym (bucket_name_short r lr hr) ∙ e ∙ bucket_name_short s ls hs
  where
    bucket_name_short : (t : Text) → IsLower t → length t ≤ 63 → bucket_name t ≡ t
    bucket_name_short t l h =
        unfold bucket_name in ap truncate (to_lower_of_IsLower t l) ∙ truncate_short t h

-- A snapshot's bucket name is "snap-" and then lower case, of at most 63 bytes in all.
pub snapshot_bucket-bounds :
    (r : Text)
    → (length (snapshot_bucket r) ≤ 63)
      × (has_prefix (snapshot_bucket r) (codes "snap-") ≡ true)
      × IsLower (snapshot_bucket r)
unfolding snapshot_bucket
snapshot_bucket-bounds r = (
  length-truncate (codes "snap-" ++ rest),
  rw truncate-eq-take (unfold has_prefix in refl),
  rw truncate-eq-take (
      IsLower-take 63 (codes "snap-" ++ rest) (
        IsLower-append (codes "snap-") rest (unfold to_lower in ground arith)
          (to_lower-IsLower (trim_prefix r (codes "snapshot-"))))),
)
  where
    rest : Text
    rest = to_lower (trim_prefix r (codes "snapshot-"))

-- A name that is not empty gives a bucket name that is not empty.
pub bucket_name-ne : (r : Text) → r ≢ [] → bucket_name r ≢ []
unfolding bucket_name
bucket_name-ne [] h = absurd (h refl)
bucket_name-ne (c ∷ r) h = rw truncate-eq-take (unfold to_lower in ground arith)
