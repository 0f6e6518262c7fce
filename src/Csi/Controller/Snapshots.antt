-- ===== src/Csi/Controller/Snapshots.antt =====
-- About CreateSnapshot and restoring of csi/internal/driver/controller.go.
use dezhan.Base.{
  ℕ, ◌<◌, ◌^◌, ◌≡◌, ◌≢◌, refl, ap, ◌∙◌, sym, true, false, ◌||◌, none, some, Result, ok, err, Exec,
  pure, ◌>>=◌, or_fail, >>=-ok, arith, map, All,
}
use dezhan.Text.{Text, text_eq}
use dezhan.Text.Escape.{IsSlashFree}
use dezhan.Csi.Names.{bucket_name, snapshot_bucket}
use dezhan.Csi.Conn.{Conn, ConnError, conn_from, is_empty}
use dezhan.Csi.Service.{Service}
use dezhan.Csi.S3.{copy_all, key_of}
use dezhan.Csi.S3.Contract.{View, IsLawful, IsBytes}
use dezhan.Csi.S3.Pages.{sum_sizes}
use dezhan.Csi.S3.Copy.{copy_all-ok, after_create}
use dezhan.Csi.Status.{Status}
use dezhan.Csi.Controller.{
  CreateVolumeRequest, Volume, CreateSnapshotRequest, Snapshot, from_snapshot, create_volume,
  create_snapshot, provision, internal_fault,
}
use dezhan.Csi.Controller.Volumes.{create_volume-Answered, provision_restore, mapped-ok}

module _ (S : Service) (fuel : ℕ) where
  -- What stands behind an answered CreateSnapshot.
  pub record Taken (now : ℕ) (req : CreateSnapshotRequest) (w : S.World) (snap : Snapshot)
      : Type 0 where
    pub conn : Conn
    pub connected : conn_from req.secrets req.parameters ≡ ok conn
    pub size : ℕ
    pub copied :
        (copy_all S fuel conn req.source_volume_id (snapshot_bucket req.name) w).0 ≡ ok size
    pub world :
        (create_snapshot S fuel now req w).1
        ≡ (copy_all S fuel conn req.source_volume_id (snapshot_bucket req.name) w).1
    pub snapshot : snap ≡ record {
      snapshot_id = snapshot_bucket req.name;
      source_volume_id = req.source_volume_id;
      size_bytes = size;
      creation_time = now;
      ready_to_use = true;
    }

  unconnected :
      (now : ℕ) (req : CreateSnapshotRequest) (w : S.World) (e : ConnError)
      → conn_from req.secrets req.parameters ≡ err e
      → (snap : Snapshot) → (create_snapshot S fuel now req w).0 ≢ ok snap
  unfolding create_snapshot
  unconnected now req w e k snap h = ground arith

  abbrev copying : ℕ → CreateSnapshotRequest → Conn → Exec S.World Status Snapshot
  copying now req conn = do
    size ←
        or_fail (copy_all S fuel conn req.source_volume_id (snapshot_bucket req.name))
          internal_fault
    pure (record {
      snapshot_id = snapshot_bucket req.name;
      source_volume_id = req.source_volume_id;
      size_bytes = size;
      creation_time = now;
      ready_to_use = true;
    })

  create_snapshot-copying :
      (now : ℕ) (req : CreateSnapshotRequest) (w : S.World) (conn : Conn)
      → conn_from req.secrets req.parameters ≡ ok conn
      → (is_empty req.name || is_empty req.source_volume_id) ≡ false
      → create_snapshot S fuel now req w ≡ copying now req conn w
  unfolding create_snapshot
  create_snapshot-copying now req w conn k n = rw (n, k)

  arguments :
      (now : ℕ) (req : CreateSnapshotRequest) (w : S.World) (snap : Snapshot)
      → (create_snapshot S fuel now req w).0 ≡ ok snap
      → (is_empty req.name || is_empty req.source_volume_id) ≡ false
  unfolding create_snapshot
  arguments now req w snap h = ground arith

  pub create_snapshot-Taken :
      (now : ℕ) (req : CreateSnapshotRequest) (w : S.World) (snap : Snapshot)
      → (create_snapshot S fuel now req w).0 ≡ ok snap
      → Taken now req w snap
  create_snapshot-Taken now req w snap h = go (conn_from req.secrets req.parameters) refl
    where
      go :
          (r : Result ConnError Conn)
          → conn_from req.secrets req.parameters ≡ r
          → Taken now req w snap
      go (err e) k = absurd (unconnected now req w e k snap h)
      go (ok conn) k =
          let same = create_snapshot-copying now req w conn k (arguments now req w snap h) in
          let (size, done, answered, world) =
            >>=-ok
              (or_fail (copy_all S fuel conn req.source_volume_id (snapshot_bucket req.name))
                internal_fault)
              _ w (rw same at h) in
          let (copied, kept) =
            mapped-ok internal_fault
              (copy_all S fuel conn req.source_volume_id (snapshot_bucket req.name) w) done in
          record {
            conn = conn;
            connected = k;
            size = size;
            copied = copied;
            world = ap (λ (x : Result Status Snapshot × S.World). x.1) (same ∙ world) ∙ kept;
            snapshot = cc answered;
          }

module _ (S : Service) (V : View S) (L : IsLawful S V) (fuel : ℕ) where
  -- What a copy out of `src` at the world `w` wants: a bucket name of bytes without a slash, keys of
  -- bytes, fewer pages than the fuel, and sizes that sum to less than 2^63.
  pub record Copyable (conn : Conn) (src dst : Text) (w : S.World) : Type 0 where
    pub slash_free : IsSlashFree src
    pub name_bytes : IsBytes src
    pub key_bytes :
        All IsBytes
          (map key_of (V.pending (S.new_paginator conn src) (after_create S V L fuel conn dst w)))
    pub enough : V.remaining (S.new_paginator conn src) (after_create S V L fuel conn dst w) < fuel
    pub small :
        sum_sizes (V.pending (S.new_paginator conn src) (after_create S V L fuel conn dst w))
        < 2 ^ 63

  -- An answered CreateSnapshot names a bucket that exists and that holds every object of the source
  -- volume with its content, and no object of another bucket has changed. This is for a source bucket
  -- that the fuel is enough to list, whose name has no slash, whose names and keys are bytes, and whose
  -- sizes sum to less than 2^63.
  pub create_snapshot-ok :
      (now : ℕ) (req : CreateSnapshotRequest) (w : S.World) (snap : Snapshot)
      → ((conn : Conn) → Copyable conn req.source_volume_id (snapshot_bucket req.name) w)
      → (create_snapshot S fuel now req w).0 ≡ ok snap
      → let v = (create_snapshot S fuel now req w).1 in
        (V.exists v snap.snapshot_id ≡ true)
        × ((k : Text)
            → V.content w req.source_volume_id k ≢ none
            → V.content v snap.snapshot_id k ≡ V.content w req.source_volume_id k)
        × ((b k : Text) → text_eq snap.snapshot_id b ≡ false → V.content v b k ≡ V.content w b k)
  create_snapshot-ok now req w snap fit h =
      let t = create_snapshot-Taken S fuel now req w snap h in
      let f = fit t.conn in
      let done =
        copy_all-ok S V L fuel t.conn req.source_volume_id (snapshot_bucket req.name) w t.size
          f.slash_free f.name_bytes f.key_bytes f.enough f.small t.copied in
      rw (t.world, t.snapshot) (done.0, done.1, done.2)

  -- A volume that is restored from a snapshot holds every object that the snapshot's source held when
  -- the snapshot was taken, with its content, if both requests are answered and nothing happens in
  -- between. This is for two source buckets that the fuel is enough to list, whose names have no slash,
  -- whose names and keys are bytes, and whose sizes sum to less than 2^63.
  pub restore-snapshot :
      {Capability : Type 0} (now : ℕ) (req : CreateSnapshotRequest)
      (new : CreateVolumeRequest Capability) (w : S.World) (snap : Snapshot) (vol : Volume)
      → ((conn : Conn) → Copyable conn req.source_volume_id (snapshot_bucket req.name) w)
      → (create_snapshot S fuel now req w).0 ≡ ok snap
      → ((conn : Conn)
          → Copyable conn snap.snapshot_id
              (bucket_name new.name)
              (create_snapshot S fuel now req w).1)
      → new.source ≡ some (from_snapshot snap.snapshot_id)
      → (create_volume S fuel new (create_snapshot S fuel now req w).1).0 ≡ ok vol
      → (k : Text) → V.content w req.source_volume_id k ≢ none
      → V.content (create_volume S fuel new (create_snapshot S fuel now req w).1).1 vol.volume_id k
        ≡ V.content w req.source_volume_id k
  restore-snapshot now req new w snap vol fit h fit' from r k there =
      let v = (create_snapshot S fuel now req w).1 in
      let taken = create_snapshot-ok now req w snap fit h in
      let held = taken.1 k there in
      let a = create_volume-Answered S fuel new v vol r in
      let provisioned : (provision S fuel a.conn (bucket_name new.name)
            (some (from_snapshot snap.snapshot_id)) v).0
          ≡ ok tt =
        rw from at a.provisioned in
      let (n, copied, same) =
        provision_restore S fuel a.conn (bucket_name new.name) snap.snapshot_id v provisioned in
      let f = fit' a.conn in
      let done =
        copy_all-ok S V L fuel a.conn snap.snapshot_id (bucket_name new.name) v n f.slash_free
          f.name_bytes f.key_bytes f.enough f.small copied in
      rw (a.world, from, same, a.volume) (done.1 k (λ e. there (sym held ∙ e)) ∙ held)
