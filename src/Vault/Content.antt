-- ===== src/Vault/Content.antt =====
-- The bytes of objects, vault/src/dezhan-vault.adb: how Put_Object cuts what is large into parts, and
-- Get_Object and Get_Object_Version. The storage below (storage/src) is a record of its two calls.
use dezhan.Base.{
  ℕ, zero, suc, ◌+◌, ◌-◌, ◌/◌, ◌++◌, [], ◌∷◌, List, Bool, true, false, Option, none, some, Result,
  ok, err, Exec, if◌then◌else◌, length, take, drop, ltb, leb, pure, ◌>>=◌,
}
use dezhan.Text.{Text, text_eq}
use dezhan.Dict.{lookup}
use dezhan.Vault.State.{
  Meta, VersionEntry, Vault, Fault, not_found, egress_denied, object_quarantined, object_too_large,
  constraint_error,
}

-- Put gives the bytes an id of 64 characters, and Get the bytes of an id.
pub record Cas : Type 1 where
  pub World : Type 0
  pub put : Text → World → Result Fault Text × World
  pub get : Text → World → Result Fault Text

abbrev pub part_size : ℕ
part_size = 900000

abbrev pub max_single : ℕ
max_single = 2000000

-- (Data'Length + Part_Size - 1) / Part_Size
abbrev pub part_count : ℕ → ℕ
part_count n = (n + part_size - 1) / part_size

-- n slices of that size, the last one as long as there are bytes
abbrev pub slices : ℕ → ℕ → Text → List Text
slices zero size bytes = []
slices (suc n) size bytes = take size bytes ∷ slices n size (drop size bytes)

-- the ids in a list of parts
abbrev pub part_ids : Text → List Text
part_ids ids = slices (length ids / 64) 64 ids

abbrev pub is_too_large : Fault → Bool
is_too_large object_too_large = true
is_too_large e = false

module _ (S : Cas) where
  -- the list of the parts' ids, each part put by itself
  unfoldable pub put_parts : List Text → Exec S.World Fault Text
  put_parts [] = pure []
  put_parts (p ∷ ps) = do id ← S.put p; ids ← put_parts ps; pure (id ++ ids)

  -- Store_Composite
  unfoldable pub store_composite : Text → Exec S.World Fault Text
  unfolding put_parts
  store_composite bytes = do
    ids ← put_parts (slices (part_count (length bytes)) part_size bytes)
    S.put ids

  -- The id, and whether it is one of a list of parts.
  abbrev pub composite : Text → Exec S.World Fault (Text × Bool)
  composite bytes = do id ← store_composite bytes; pure (id, true)

  abbrev pub or_composite :
      Text → Result Fault Text × S.World → Result Fault (Text × Bool) × S.World
  or_composite bytes (ok id, w) = (ok (id, false), w)
  or_composite bytes (err e, w) = if is_too_large e then composite bytes w else (err e, w)

  unfoldable pub store_object : Text → Exec S.World Fault (Text × Bool)
  unfolding store_composite
  store_object bytes w =
      if leb (length bytes) max_single
      then or_composite bytes (S.put bytes w)
      else composite bytes w

  abbrev pub then_get : Result Fault Text → (Text → Result Fault Text) → Result Fault Text
  then_get (ok t) f = f t
  then_get (err e) f = err e

  -- The parts are written into the result one after the other; what they leave of it is what the
  -- memory held.
  unfoldable pub fetch_parts : List Text → ℕ → Text → Text → S.World → Result Fault Text
  fetch_parts [] size memory done w = ok (done ++ drop (length done) memory)
  fetch_parts (id ∷ ids) size memory done w = then_get (S.get id w) (λ part.
      let rest = fetch_parts ids size memory (done ++ part) w in
      if ltb size (length (done ++ part)) then err constraint_error else rest)

  unfoldable pub fetch : Text → Bool → ℕ → Text → S.World → Result Fault Text
  unfolding fetch_parts
  fetch id false size memory w = S.get id w
  fetch id true size memory w =
      then_get (S.get id w) (λ ids. fetch_parts (part_ids ids) size memory [] w)

  abbrev pub get_named : Option Meta → Text → S.World → Result Fault Text
  get_named none memory w = err not_found
  get_named (some m) memory w =
      if m.quarantined then err object_quarantined else fetch m.id m.composite m.size memory w

  unfoldable pub get_object : Vault → Text → Text → S.World → Result Fault Text
  unfolding lookup fetch
  get_object v name memory w =
      if v.ingest_only then err egress_denied else get_named (lookup name v.index) memory w

  abbrev pub get_version_in : Text → List VersionEntry → S.World → Result Fault Text
  get_version_in vid [] w = err not_found
  get_version_in vid (e ∷ es) w =
      let rest = get_version_in vid es w in
      if text_eq e.vid vid then (if e.deleted then err not_found else S.get e.id w) else rest

  abbrev pub get_version_named : Text → Option (List VersionEntry) → S.World → Result Fault Text
  get_version_named vid none w = err not_found
  get_version_named vid (some es) w = get_version_in vid es w

  unfoldable pub get_object_version : Vault → Text → Text → S.World → Result Fault Text
  unfolding lookup text_eq
  get_object_version v name vid w =
      if v.ingest_only then err egress_denied else get_version_named vid (lookup name v.versions) w
