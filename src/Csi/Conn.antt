-- ===== src/Csi/Conn.antt =====
-- Connection parameters from the merged maps of a request, csi/internal/driver/s3.go.
pub mod Laws
use dezhan.Base.{
  ℕ, [], ◌∷◌, Bool, true, false, ◌||◌, Option, none, some, if◌then◌else◌, Result, ok, err,
}
use dezhan.Text.{Text, codes}
use dezhan.Dict.{Dict, lookup, get}

-- s == ""
abbrev pub is_empty : Text → Bool
is_empty [] = true
is_empty (c ∷ s) = false

pub record Conn : Type 0 where
  pub endpoint : Text
  pub region : Text
  pub access_key : Text
  pub secret_key : Text

-- the closure `pick`: a secret that is not empty, and the parameter otherwise
pub pick : Dict Text → Dict Text → Text → Text
unfolding lookup
pick secrets params k = elim (lookup k secrets) [
  | some v ↦ if is_empty v then get k params else v
  | none ↦ get k params
]

abbrev pub default_region : Text
default_region = codes "us-east-1"

-- the two errors of `connFrom`, and their texts
pub data ConnError : Type 0 where
  missing_endpoint missing_keys : ConnError

pub message : ConnError → Text
message missing_endpoint =
    codes "missing dezhan endpoint (set 'endpoint' in the StorageClass parameters or secret)"
message missing_keys = codes "missing accessKeyID/secretAccessKey in the CSI secret"

-- the tests behind the four picks; the callers drop the connection that Go returns with an error
pub check_conn : Text → Text → Text → Text → Result ConnError Conn
check_conn endpoint region access_key secret_key =
    if is_empty endpoint
    then err missing_endpoint
    else if is_empty access_key || is_empty secret_key
    then err missing_keys
    else ok (record {
      endpoint = endpoint;
      region = if is_empty region then default_region else region;
      access_key = access_key;
      secret_key = secret_key;
    })

unfoldable pub conn_from : Dict Text → Dict Text → Result ConnError Conn
unfolding pick check_conn
conn_from secrets params =
    check_conn (pick secrets params (codes "endpoint")) (pick secrets params (codes "region"))
      (pick secrets params (codes "accessKeyID")) (pick secrets params (codes "secretAccessKey"))
