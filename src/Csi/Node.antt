-- ===== src/Csi/Node.antt =====
-- The node service, csi/internal/driver/node.go. Log lines are left out.
pub mod Publish
use dezhan.Base.{
  ℕ, ◌++◌, [], ◌∷◌, List, Bool, true, false, not, ◌||◌, ◌&&◌, Option, none, some, if◌then◌else◌,
  Result, ok, err, Exec, pure, fail, ◌>>=◌, ◌>>◌, or_fail, lift, continue, mapped, nil_or, checked,
}
use dezhan.Text.{Text, codes}
use dezhan.Dict.{Dict, get}
use dezhan.Csi.Conn.{Conn, conn_from, is_empty}
use dezhan.Csi.Controller.{bad_conn}
use dezhan.Csi.Status.{Status, errf, invalid_argument, internal}

pub record MountError : Type 0 where
  pub is_not_exist : Bool
  pub text : Text

-- What exec.Command is given.
pub record Command : Type 0 where
  pub program : Text
  pub args : List Text
  pub env : List Text

-- The operating system and the package k8s.io/mount-utils, which the service calls.
pub record Host : Type 1 where
  pub World : Type 0
  pub environ : World → List Text
  pub mkdir_all : Text → World → Option Text × World
  pub is_likely_not_mount_point : Text → World → Bool × Option MountError × World
  pub combined_output : Command → World → Text × Option Text × World
  pub cleanup_mount_point : Text → World → Option Text × World

pub record PublishRequest : Type 0 where
  pub volume_id : Text
  pub target_path : Text
  pub volume_context : Dict Text
  pub secrets : Dict Text
  pub readonly : Bool

abbrev pub mount_cmd : Text
mount_cmd = codes "mount-s3"

abbrev pub required : Text
required = codes "volume id and target path are required"

unfoldable pub mount_args : Text → Text → Conn → Bool → List Text
mount_args bucket target conn readonly =
    bucket
    ∷ target
    ∷ codes "--endpoint-url"
    ∷ conn.endpoint
    ∷ codes "--region"
    ∷ conn.region
    ∷ codes "--allow-other"
    ∷ codes "--force-path-style"
    ∷ (if readonly then codes "--read-only" else codes "--allow-delete")
    ∷ []

unfoldable pub bucket_of : PublishRequest → Text
bucket_of req =
    if is_empty (get (codes "bucket") req.volume_context)
    then req.volume_id
    else get (codes "bucket") req.volume_context

module _ (H : Host) where
  unfoldable pub mount_command : PublishRequest → Conn → H.World → Command
  unfolding mount_args bucket_of
  mount_command req conn w = record {
    program = mount_cmd;
    args = mount_args (bucket_of req) req.target_path conn req.readonly;
    env =
        H.environ w
        ++ (codes "AWS_ACCESS_KEY_ID=" ++ conn.access_key)
          ∷ (codes "AWS_SECRET_ACCESS_KEY=" ++ conn.secret_key)
          ∷ [];
  }

  -- whether the target is mounted already
  unfoldable pub check_mount : Text → Exec H.World Status Bool
  check_mount target w =
      let (not_mounted, e, w') = H.is_likely_not_mount_point target w in
      elim e [
        | none ↦ (ok (not not_mounted), w')
        | some x ↦ if x.is_not_exist then (ok (not not_mounted), w') else (
          err (errf internal (codes "check mount " ++ (target ++ (codes ": " ++ x.text)))),
          w',
        )
      ]

  unfoldable pub run_mount : PublishRequest → Conn → Exec H.World Status (Unit {0})
  unfolding mount_command
  run_mount req conn w =
      let (out, e, w') = H.combined_output (mount_command req conn w) w in
      elim e [
        | none ↦ (ok tt, w')
        | some x ↦ (
          err (errf internal (mount_cmd ++ (codes " failed: " ++ (x ++ (codes ": " ++ out))))),
          w',
        )
      ]

  unfoldable pub node_publish_volume : PublishRequest → Exec H.World Status (Unit {0})
  node_publish_volume req =
      if is_empty req.target_path || is_empty req.volume_id
      then fail (errf invalid_argument required)
      else do
        conn ← or_fail (lift (conn_from req.secrets req.volume_context)) bad_conn
        or_fail (nil_or (H.mkdir_all req.target_path))
            (λ e. errf internal (codes "mkdir " ++ (req.target_path ++ (codes ": " ++ e))))
        mounted ← check_mount req.target_path
        if mounted then pure tt else run_mount req conn

  unfoldable pub node_unpublish_volume : Text → Text → Exec H.World Status (Unit {0})
  node_unpublish_volume volume_id target =
      if is_empty target || is_empty volume_id
      then fail (errf invalid_argument required)
      else or_fail (nil_or (H.cleanup_mount_point target))
          (λ e. errf internal (codes "unmount " ++ (target ++ (codes ": " ++ e))))
