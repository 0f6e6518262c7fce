-- ===== src/Csi/Controller.antt =====
-- The controller service, csi/internal/driver/controller.go. Log lines are left out. The time of
-- a snapshot is an argument.
pub mod Volumes
pub mod Snapshots
use dezhan.Base.{
  ℕ, ◌++◌, [], ◌∷◌, List, Bool, true, false, ◌||◌, Option, none, some, if◌then◌else◌, Result, ok,
  err, Exec, pure, fail, ◌>>=◌, ◌>>◌, or_fail, lift, continue, mapped,
}
use dezhan.Text.{Text, codes}
use dezhan.Dict.{Dict}
use dezhan.Csi.Names.{bucket_name, snapshot_bucket}
use dezhan.Csi.Conn.{Conn, ConnError, conn_from, message, is_empty}
use dezhan.Csi.Service.{Service, Fault, fault_text}
use dezhan.Csi.S3.{create_bucket, copy_all, delete_bucket}
use dezhan.Csi.Status.{Status, errf, invalid_argument, internal}

pub data ContentSource : Type 0 where
  from_snapshot from_volume : Text → ContentSource

-- GetVolumeContentSource().GetSnapshot()
abbrev pub snapshot_of : Option ContentSource → Option Text
snapshot_of (some (from_snapshot id)) = some id
snapshot_of _ = none

-- Requests over the type of the volume capabilities, which the driver only counts and hands back.
pub record CreateVolumeRequest (Capability : Type 0) : Type 0 where
  pub name : Text
  pub capabilities : List Capability
  pub secrets : Dict Text
  pub parameters : Dict Text
  pub source : Option ContentSource
  pub required_bytes : ℕ

pub record Volume : Type 0 where
  pub volume_id : Text
  pub capacity_bytes : ℕ
  pub content_source : Option ContentSource
  pub volume_context : Dict Text

pub record CreateSnapshotRequest : Type 0 where
  pub name : Text
  pub source_volume_id : Text
  pub secrets : Dict Text
  pub parameters : Dict Text

pub record Snapshot : Type 0 where
  pub snapshot_id : Text
  pub source_volume_id : Text
  pub size_bytes : ℕ
  pub creation_time : ℕ
  pub ready_to_use : Bool

-- a request to delete a volume or a snapshot
pub record DeleteRequest : Type 0 where
  pub id : Text
  pub secrets : Dict Text

abbrev pub is_nil : {A : Type 0} → List A → Bool
is_nil [] = true
is_nil (x ∷ xs) = false

abbrev pub bad_conn : ConnError → Status
bad_conn e = errf invalid_argument (message e)

abbrev pub internal_fault : Fault → Status
internal_fault f = errf internal (fault_text f)

abbrev pub context_of : Conn → Text → Dict Text
context_of conn bucket =
    (codes "bucket", bucket)
    ∷ (codes "endpoint", conn.endpoint)
    ∷ (codes "region", conn.region)
    ∷ []

module _ (S : Service) (fuel : ℕ) where
  abbrev Rpc : Type 0 → Type 0
  Rpc A = Exec S.World Status A

  connect : Dict Text → Dict Text → Rpc Conn
  connect secrets params = or_fail (lift (conn_from secrets params)) bad_conn

  -- a restore from a snapshot, or an empty bucket
  unfoldable pub provision : Conn → Text → Option ContentSource → Rpc (Unit {0})
  provision conn bucket source = elim (snapshot_of source) [
    | some id ↦ do
      or_fail (copy_all S fuel conn id bucket) (λ f.
          errf internal (codes "restore from snapshot " ++ (id ++ (codes ": " ++ fault_text f))))
      pure tt
    | none ↦ or_fail (create_bucket S fuel conn bucket) internal_fault
  ]

  unfoldable pub create_volume : {Capability : Type 0} → CreateVolumeRequest Capability → Rpc Volume
  unfolding connect
  create_volume req =
      if is_empty req.name
      then fail (errf invalid_argument (codes "volume name is required"))
      else if is_nil req.capabilities
      then fail (errf invalid_argument (codes "volume capabilities are required"))
      else do
        conn ← connect req.secrets req.parameters
        provision conn (bucket_name req.name) req.source
        pure (record {
          volume_id = bucket_name req.name;
          capacity_bytes = req.required_bytes;
          content_source = req.source;
          volume_context = context_of conn (bucket_name req.name);
        })

  -- DeleteVolume and DeleteSnapshot, which differ in the text of their first error
  delete_by_id : Text → DeleteRequest → Rpc (Unit {0})
  unfolding connect
  delete_by_id required req = if is_empty req.id then fail (errf invalid_argument required) else do
    conn ← connect req.secrets []
    or_fail (delete_bucket S fuel conn req.id) internal_fault

  unfoldable pub delete_volume : DeleteRequest → Rpc (Unit {0})
  unfolding delete_by_id
  delete_volume = delete_by_id (codes "volume id is required")

  unfoldable pub delete_snapshot : DeleteRequest → Rpc (Unit {0})
  unfolding delete_by_id
  delete_snapshot = delete_by_id (codes "snapshot id is required")

  unfoldable pub create_snapshot : ℕ → CreateSnapshotRequest → Rpc Snapshot
  unfolding connect
  create_snapshot now req =
      if is_empty req.name || is_empty req.source_volume_id
      then fail (errf invalid_argument (codes "snapshot name and source volume id are required"))
      else do
        conn ← connect req.secrets req.parameters
        size ←
            or_fail (copy_all S fuel conn req.source_volume_id (snapshot_bucket req.name))
              internal_fault
        pure (record {
          snapshot_id = snapshot_bucket req.name;
          source_volume_id = req.source_volume_id;
          size_bytes = size;
          creation_time = now;
          ready_to_use = true;
        })

-- ValidateVolumeCapabilities confirms what it was asked, and looks at nothing else.
unfoldable pub validate_volume_capabilities :
    {Capability : Type 0} → Text → List Capability → Result Status (List Capability)
validate_volume_capabilities volume_id capabilities =
    if is_empty volume_id || is_nil capabilities
    then err (errf invalid_argument (codes "volume id and capabilities are required"))
    else ok capabilities
