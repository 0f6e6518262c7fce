-- ===== src/Csi/Node/Publish.antt =====
-- About NodePublishVolume of csi/internal/driver/node.go.
use dezhan.Base.{
  ℕ, ◌≡◌, ◌≢◌, refl, ap, sym, ◌∙◌, [], Bool, true, not, Option, none, some, if◌then◌else◌, ok,
  arith,
}
use dezhan.Text.{Text, codes}
use dezhan.Dict.{Dict, get, lookup}
use dezhan.Csi.Conn.{Conn, conn_from, pick}
use dezhan.Csi.Conn.Laws.{nil_is_empty, conn_from-ok, pick_precedence}
use dezhan.Csi.Names.{bucket_name}
use dezhan.Csi.Names.Bounds.{bucket_name-ne}
use dezhan.Csi.Controller.{CreateVolumeRequest, Volume, context_of, create_volume}
use dezhan.Csi.Controller.Volumes.{create_volume-Answered}
use dezhan.Csi.Service.{Service}
use dezhan.Csi.Node.{
  Host, MountError, PublishRequest, bucket_of, check_mount, run_mount, node_publish_volume,
}

module _ (H : Host) where
  check_mount-clear :
      (target : Text) (v u : H.World) (not_mounted : Bool) (e : Option MountError)
      → H.is_likely_not_mount_point target v ≡ (not_mounted, e, u)
      → ((x : MountError) → e ≡ some x → x.is_not_exist ≡ true)
      → check_mount H target v ≡ (ok (not not_mounted), u)
  unfolding check_mount
  check_mount-clear target v u nm none k h = ground arith
  check_mount-clear target v u nm (some x) k h = ground (arith, h x refl)

  -- A publish request with a target, a volume and a connection, whose directory could be made and
  -- whose mount point could be checked, or is not there: it is answered at once if the target is
  -- mounted already, and otherwise it is the one run of mount-s3.
  pub node_publish_volume-outcome :
      (req : PublishRequest) (w v u : H.World) (conn : Conn) (not_mounted : Bool)
      (e : Option MountError)
      → req.target_path ≢ []
      → req.volume_id ≢ []
      → conn_from req.secrets req.volume_context ≡ ok conn
      → H.mkdir_all req.target_path w ≡ (none, v)
      → H.is_likely_not_mount_point req.target_path v ≡ (not_mounted, e, u)
      → ((x : MountError) → e ≡ some x → x.is_not_exist ≡ true)
      → node_publish_volume H req w ≡ (if not_mounted then run_mount H req conn u else (ok tt, u))
  unfolding node_publish_volume
  node_publish_volume-outcome req w v u conn nm e t i c m k h =
      rw
        (
          nil_is_empty req.target_path t,
          nil_is_empty req.volume_id i,
          c,
          m,
          check_mount-clear req.target_path v u nm e k h,
        )
        (ground arith)

get-context :
    (conn : Conn) (b : Text)
    → (get (codes "bucket") (context_of conn b) ≡ b)
      × (get (codes "endpoint") (context_of conn b) ≡ conn.endpoint)
      × (get (codes "region") (context_of conn b) ≡ conn.region)
unfolding lookup
get-context conn b = (refl, refl, refl)

-- The connection that a node makes from its own keys and a volume's context.
abbrev pub node_conn : Dict Text → Conn → Conn
node_conn secrets conn = record {
  endpoint = conn.endpoint;
  region = conn.region;
  access_key = get (codes "accessKeyID") secrets;
  secret_key = get (codes "secretAccessKey") secrets;
}

conn_from-context :
    (secrets : Dict Text) (conn : Conn) (b : Text)
    → get (codes "endpoint") secrets ≡ []
    → get (codes "region") secrets ≡ []
    → get (codes "accessKeyID") secrets ≢ []
    → get (codes "secretAccessKey") secrets ≢ []
    → conn.endpoint ≢ []
    → conn.region ≢ []
    → conn_from secrets (context_of conn b) ≡ ok (node_conn secrets conn)
unfolding conn_from
conn_from-context secrets conn b e r a s ne nr =
    let pe = from_context (codes "endpoint") e ∙ (get-context conn b).1 in
    let pr = from_context (codes "region") r ∙ (get-context conn b).2 in
    let pa = from_secret (codes "accessKeyID") a in
    let ps = from_secret (codes "secretAccessKey") s in
    rw (
      pe,
      pr,
      pa,
      ps,
      nil_is_empty conn.endpoint ne,
      nil_is_empty conn.region nr,
      nil_is_empty (get (codes "accessKeyID") secrets) a,
      nil_is_empty (get (codes "secretAccessKey") secrets) s,
    )
  where
    from_context :
        (k : Text)
        → get k secrets ≡ []
        → pick secrets (context_of conn b) k ≡ get k (context_of conn b)
    from_context k h = pick_precedence secrets (context_of conn b) k ∙ rw h

    from_secret :
        (k : Text) → get k secrets ≢ [] → pick secrets (context_of conn b) k ≡ get k secrets
    from_secret k h =
        pick_precedence secrets (context_of conn b) k ∙ rw (nil_is_empty (get k secrets) h)

bucket_of-context :
    (node : PublishRequest) (conn : Conn) (b : Text)
    → node.volume_context ≡ context_of conn b
    → b ≢ []
    → bucket_of node ≡ b
unfolding bucket_of
bucket_of-context node conn b c n = rw (c, (get-context conn b).0, nil_is_empty b n)

-- What an answered CreateVolume hands back is what a node needs. A node that is given this volume
-- context, and whose secret holds the two keys but no endpoint and no region, gets a connection to
-- the same endpoint and region, and finds in the context the bucket that was made.
pub publish-create_volume :
    {Capability : Type 0} (S : Service) (fuel : ℕ) (req : CreateVolumeRequest Capability)
    (w : S.World) (vol : Volume) (node : PublishRequest)
    → (create_volume S fuel req w).0 ≡ ok vol
    → node.volume_context ≡ vol.volume_context
    → get (codes "endpoint") node.secrets ≡ []
    → get (codes "region") node.secrets ≡ []
    → get (codes "accessKeyID") node.secrets ≢ []
    → get (codes "secretAccessKey") node.secrets ≢ []
    → (conn : Conn) × (conn_from req.secrets req.parameters ≡ ok conn)
      × (conn_from node.secrets node.volume_context ≡ ok (node_conn node.secrets conn))
      × (bucket_of node ≡ vol.volume_id)
publish-create_volume S fuel req w vol node h c e r a s =
    let t = create_volume-Answered S fuel req w vol h in
    let (_, ne, nr, na, ns) = conn_from-ok req.secrets req.parameters t.connected in
    let context : node.volume_context ≡ context_of t.conn (bucket_name req.name) =
      c ∙ ap (λ (v : Volume). v.volume_context) t.volume in
    (
      t.conn,
      t.connected,
      rw context (conn_from-context node.secrets t.conn (bucket_name req.name) e r a s ne nr),
      bucket_of-context node t.conn (bucket_name req.name) context (bucket_name-ne req.name t.named)
          ∙ sym (ap (λ (v : Volume). v.volume_id) t.volume),
    )
