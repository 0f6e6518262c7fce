-- ===== src/Csi/Conn/Laws.antt =====
-- About connFrom of csi/internal/driver/s3.go.
use dezhan.Base.{◌≡◌, ◌≢◌, refl, [], ◌∷◌, false, if◌then◌else◌, ok, err, arith}
use dezhan.Text.{Text, codes}
use dezhan.Dict.{Dict, lookup, get}
use dezhan.Csi.Conn.{Conn, pick, check_conn, conn_from, is_empty, default_region, missing_endpoint}

pub nil_is_empty : (s : Text) → s ≢ [] → is_empty s ≡ false
nil_is_empty [] h = absurd (h refl)
nil_is_empty (c ∷ s) h = refl

not_empty : (s : Text) → is_empty s ≡ false → s ≢ []
not_empty [] h = cc
not_empty (c ∷ s) h = ground arith

-- The region that is used for what was picked.
abbrev pub region_or_default : Text → Text
region_or_default r = if is_empty r then default_region else r

check_conn-ok :
    (e r a s : Text) {c : Conn}
    → check_conn e r a s ≡ ok c
    → (c ≡ record { endpoint = e; region = region_or_default r; access_key = a; secret_key = s })
      × (is_empty e ≡ false)
      × (is_empty a ≡ false)
      × (is_empty s ≡ false)
unfolding check_conn
check_conn-ok e r a s h = ground arith

region_or_default-ne : (r : Text) → region_or_default r ≢ []
region_or_default-ne [] = ground arith
region_or_default-ne (c ∷ r) = ground arith

-- A connection is returned only with endpoint, region and both keys not empty, and each is what
-- `pick` chooses from the secrets and the parameters, "us-east-1" for an empty region.
pub conn_from-ok :
    (secrets params : Dict Text) {c : Conn}
    → conn_from secrets params ≡ ok c
    → (c ≡ record {
      endpoint = pick secrets params (codes "endpoint");
      region = region_or_default (pick secrets params (codes "region"));
      access_key = pick secrets params (codes "accessKeyID");
      secret_key = pick secrets params (codes "secretAccessKey");
    })
      × (c.endpoint ≢ [])
      × (c.region ≢ [])
      × (c.access_key ≢ [])
      × (c.secret_key ≢ [])
unfolding conn_from
conn_from-ok secrets params {c} h =
    let (e, ne, na, ns) = check_conn-ok _ (pick secrets params (codes "region")) _ _ h in
    (
      e,
      rw e (not_empty (pick secrets params (codes "endpoint")) ne),
      rw e (region_or_default-ne (pick secrets params (codes "region"))),
      rw e (not_empty (pick secrets params (codes "accessKeyID")) na),
      rw e (not_empty (pick secrets params (codes "secretAccessKey")) ns),
    )

-- A secret that is not empty wins over the parameter, and an empty or missing one gives way to it.
pub pick_precedence :
    (secrets params : Dict Text) (k : Text)
    → pick secrets params k ≡ (if is_empty (get k secrets) then get k params else get k secrets)
unfolding pick
pick_precedence secrets params k = ground arith

-- Without an endpoint in the secrets there is no connection from the secrets alone.
pub conn_from_no_endpoint :
    (secrets : Dict Text)
    → get (codes "endpoint") secrets ≡ []
    → conn_from secrets [] ≡ err missing_endpoint
unfolding conn_from check_conn lookup
conn_from_no_endpoint secrets h = rw (pick_precedence secrets [] (codes "endpoint"), h)
