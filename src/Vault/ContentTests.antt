-- ===== src/Vault/ContentTests.antt =====
-- A storage in memory, and objects stored there in one piece and in parts.
use dezhan.Base.{
  ℕ, zero, suc, ◌≡◌, refl, sym, ap, ◌∙◌, ◌++◌, [], ◌∷◌, List, true, false, Result, ok, err, length,
}
use dezhan.Text.{Text, codes, pos, itoa}
use dezhan.Dict.{lookup}
use dezhan.Core.Retention.{compliance}
use dezhan.Core.Clock.{no_anomaly}
use dezhan.Vault.State.{Meta, Vault, Fault, not_found}
use dezhan.Vault.Versions.{record_version}
use dezhan.Vault.Content.{Cas, store_object, fetch, get_object, get_object_version}
use dezhan.Vault.Whole.{IsCas, store-fetch}
use dezhan.Vault.Misread.{get_object_version-lists}

abbrev nth : ℕ → List Text → Result Fault Text
nth n [] = err not_found
nth zero (t ∷ ts) = ok t
nth (suc n) (t ∷ ts) = nth n ts

abbrev zeros : ℕ → Text
zeros zero = []
zeros (suc n) = b'0' ∷ zeros n

-- The first character is the place.
abbrev id_of : ℕ → Text
id_of n = n ∷ zeros 63

abbrev read : Text → List Text → Result Fault Text
read [] w = err not_found
read (n ∷ id) w = nth n w

abbrev shelf : Cas
shelf = record { World = List Text; put = λ t w. (ok (id_of (length w)), w ++ t ∷ []); get = read }

nth-last : (w : List Text) (t : Text) → nth (length w) (w ++ t ∷ []) ≡ ok t
nth-last [] t = refl
nth-last (u ∷ w) t = nth-last w t

nth-append : (n : ℕ) (w : List Text) (t u : Text) → nth n w ≡ ok u → nth n (w ++ t ∷ []) ≡ ok u
nth-append n [] t u h = cc
nth-append zero (x ∷ w) t u h = h
nth-append (suc n) (x ∷ w) t u h = nth-append n w t u h

read-append :
    (id : Text) (w : List Text) (t u : Text) → read id w ≡ ok u → read id (w ++ t ∷ []) ≡ ok u
read-append [] w t u h = cc
read-append (n ∷ id) w t u h = nth-append n w t u h

abbrev given : Text → Result Fault Text
given t = ok t

given-inj : {s t : Text} → given s ≡ given t → s ≡ t
given-inj e = cc

shelf-IsCas : IsCas shelf
shelf-IsCas = record {
  put_id = λ t w e. ap length (sym (given-inj e));
  put_get =
      λ t w {id} e. ap (λ (i : Text). read i (w ++ t ∷ [])) (sym (given-inj e)) ∙ nth-last w t;
  put_keeps = λ t w id u e. read-append id w t u e;
}

abbrev bytes : Text
bytes = codes "backup"

store-fetch_example :
    fetch shelf (id_of 0) false 6 (codes "??????") (store_object shelf bytes []).1 ≡ ok bytes
unfolding store_object
store-fetch_example =
    store-fetch shelf shelf-IsCas bytes (codes "??????") [] (id_of 0) false refl refl

abbrev name : Text
name = codes "b/k"

-- an object in two parts
abbrev object : Meta
object = record {
  id = id_of 2;
  lock = record { mode = compliance; retain_until = 200; created_at = 0; legal_hold = false };
  composite = true;
  quarantined = false;
  size = 6;
  user_meta = [];
}

abbrev stored : List Text
stored = codes "back" ∷ codes "up" ∷ (id_of 0 ++ id_of 1) ∷ []

abbrev vault : Vault
vault = record {
  clock = record {
    floor = 100;
    last_mono = 0;
    last_real = 0;
    anomaly = no_anomaly;
    sealed = false;
  };
  started = true;
  op_sealed = false;
  last_boot = [];
  ingest_only = false;
  sync_shut = false;
  index = (name, object) ∷ [];
  log = [];
  buckets = [];
  versioned = (codes "b", true) ∷ [];
  versions = [];
  ver_seq = 0;
  jrnl_count = 0;
  jrnl_buf = [];
  snapshot = [];
  journal = [];
}

get_object_version-lists_example :
    (get_object shelf (record_version name vault).1 name (codes "??????") stored
      ≡ ok (codes "backup"))
    × (get_object_version shelf (record_version name vault).1 name (itoa (pos 1)) stored
        ≡ ok (id_of 0 ++ (id_of 1 ++ [])))
unfolding lookup
get_object_version-lists_example =
    get_object_version-lists shelf name (codes "??????") object (id_of 0 ∷ id_of 1 ∷ [])
      (codes "back" ∷ codes "up" ∷ []) vault stored refl refl refl refl refl refl refl
      (refl, (refl, tt)) (refl, (refl, tt)) refl refl
