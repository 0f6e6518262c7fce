-- ===== src/Csi/Controller/Volumes.antt =====
-- About CreateVolume and DeleteVolume of csi/internal/driver/controller.go.
use dezhan.Base.{
  ℕ, ◌<◌, ◌≡◌, ◌≢◌, refl, ap, ◌∙◌, [], ◌∷◌, List, true, false, Option, none, some, Result, ok, err,
  Exec, pure, ◌>>◌, mapped, >>=-ok, arith,
}
use dezhan.Text.{Text, codes, text_eq}
use dezhan.Dict.{Dict, get}
use dezhan.Csi.Names.{bucket_name}
use dezhan.Csi.Conn.{Conn, ConnError, conn_from, message, pick, is_empty, missing_endpoint}
use dezhan.Csi.Conn.Laws.{conn_from_no_endpoint, conn_from-ok, pick_precedence, nil_is_empty}
use dezhan.Csi.Service.{Service, Fault}
use dezhan.Csi.S3.{create_bucket, copy_all, delete_bucket}
use dezhan.Csi.S3.Contract.{View, IsLawful}
use dezhan.Csi.S3.Copy.{create_bucket-ok, create_bucket-objects}
use dezhan.Csi.S3.Delete.{delete_bucket-ok}
use dezhan.Csi.Status.{Status, errf, invalid_argument}
use dezhan.Csi.Controller.{
  CreateVolumeRequest, Volume, DeleteRequest, ContentSource, from_snapshot, snapshot_of,
  create_volume, delete_volume, provision, context_of, is_nil, internal_fault,
}

err-ne-ok : {E : Type 0} {e : E} → ◌≡◌ {A = Result E (Unit {0})} (err e) (ok tt) → ⊥
err-ne-ok h = cc

mapped-world : {W : Type 0} {E F A : Type 0} (f : E → F) (x : Result E A × W) → (mapped f x).1 ≡ x.1
mapped-world f (ok a, w) = refl
mapped-world f (err e, w) = refl

-- A plain result that is passed on as it is.
pub mapped-ok :
    {W : Type 0} {E F A : Type 0} (f : E → F) (x : Result E A × W) {a : A}
    → (mapped f x).0 ≡ ok a
    → (x.0 ≡ ok a) × ((mapped f x).1 ≡ x.1)
mapped-ok f (ok a, w) h = (cc, refl)
mapped-ok f (err e, w) h = cc

module _ (S : Service) (fuel : ℕ) where
  abbrev pub volume_of : {Capability : Type 0} → CreateVolumeRequest Capability → Conn → Volume
  volume_of req conn = record {
    volume_id = bucket_name req.name;
    capacity_bytes = req.required_bytes;
    content_source = req.source;
    volume_context = context_of conn (bucket_name req.name);
  }

  -- What stands behind an answered request: arguments that are there, a connection, a bucket that
  -- has been provisioned, and a volume with the bucket's name and a context that leads to it.
  pub record Answered {Capability : Type 0} (req : CreateVolumeRequest Capability) (w : S.World)
      (vol : Volume) : Type 0 where
    pub named : req.name ≢ []
    pub asked : req.capabilities ≢ []
    pub conn : Conn
    pub connected : conn_from req.secrets req.parameters ≡ ok conn
    pub provisioned : (provision S fuel conn (bucket_name req.name) req.source w).0 ≡ ok tt
    pub world :
        (create_volume S fuel req w).1
        ≡ (provision S fuel conn (bucket_name req.name) req.source w).1
    pub volume : vol ≡ volume_of req conn

  unconnected :
      {Capability : Type 0} (req : CreateVolumeRequest Capability) (w : S.World) (e : ConnError)
      → conn_from req.secrets req.parameters ≡ err e
      → (vol : Volume) → (create_volume S fuel req w).0 ≢ ok vol
  unfolding create_volume
  unconnected req w e k vol h = ground arith

  arguments :
      {Capability : Type 0} (req : CreateVolumeRequest Capability) (w : S.World) (vol : Volume)
      → (create_volume S fuel req w).0 ≡ ok vol
      → (is_empty req.name ≡ false) × (is_nil req.capabilities ≡ false)
  unfolding create_volume
  arguments req w vol h = ground arith

  abbrev finish :
      {Capability : Type 0} → CreateVolumeRequest Capability → Conn → Exec S.World Status Volume
  finish req conn = do
    provision S fuel conn (bucket_name req.name) req.source
    pure (volume_of req conn)

  create_volume-finish :
      {Capability : Type 0} (req : CreateVolumeRequest Capability) (w : S.World) (conn : Conn)
      → conn_from req.secrets req.parameters ≡ ok conn
      → is_empty req.name ≡ false
      → is_nil req.capabilities ≡ false
      → create_volume S fuel req w ≡ finish req conn w
  unfolding create_volume
  create_volume-finish req w conn k n c = rw (n, c, k)

  is_empty-nil : (s : Text) → is_empty s ≡ false → s ≢ []
  is_empty-nil [] h = cc
  is_empty-nil (c ∷ s) h = ground arith

  is_nil-nil : {A : Type 0} (xs : List A) → is_nil xs ≡ false → xs ≢ []
  is_nil-nil [] h = cc
  is_nil-nil (x ∷ xs) h = ground arith

  pub create_volume-Answered :
      {Capability : Type 0} (req : CreateVolumeRequest Capability) (w : S.World) (vol : Volume)
      → (create_volume S fuel req w).0 ≡ ok vol
      → Answered req w vol
  create_volume-Answered req w vol h = go (conn_from req.secrets req.parameters) refl
    where
      go :
          (r : Result ConnError Conn)
          → conn_from req.secrets req.parameters ≡ r
          → Answered req w vol
      go (err e) k = absurd (unconnected req w e k vol h)
      go (ok conn) k =
          let (n, c) = arguments req w vol h in
          let same = create_volume-finish req w conn k n c in
          let (_, done, answered, world) =
            >>=-ok (provision S fuel conn (bucket_name req.name) req.source) _ w (rw same at h) in
          record {
            named = is_empty-nil req.name n;
            asked = is_nil-nil req.capabilities c;
            conn = conn;
            connected = k;
            provisioned = done;
            world = ap (λ (x : Result Status Volume × S.World). x.1) (same ∙ world);
            volume = cc answered;
          }

module _ (S : Service) (fuel : ℕ) where
  pub provision_plain :
      (conn : Conn) (bucket : Text) (source : Option ContentSource) (w : S.World)
      → snapshot_of source ≡ none
      → (provision S fuel conn bucket source w).0 ≡ ok tt
      → ((create_bucket S fuel conn bucket w).0 ≡ ok tt)
        × ((provision S fuel conn bucket source w).1 ≡ (create_bucket S fuel conn bucket w).1)
  unfolding provision
  provision_plain conn bucket source w p h = ground arith

  pub provision_restore :
      (conn : Conn) (bucket id : Text) (w : S.World)
      → (provision S fuel conn bucket (some (from_snapshot id)) w).0 ≡ ok tt
      → (n : ℕ) × ((copy_all S fuel conn id bucket w).0 ≡ ok n)
        × ((provision S fuel conn bucket (some (from_snapshot id)) w).1
            ≡ (copy_all S fuel conn id bucket w).1)
  unfolding provision
  provision_restore conn bucket id w h = go (copy_all S fuel conn id bucket w) refl
    where
      go :
          (x : Result Fault ℕ × S.World)
          → copy_all S fuel conn id bucket w ≡ x
          → (n : ℕ) × (x.0 ≡ ok n)
            × ((provision S fuel conn bucket (some (from_snapshot id)) w).1 ≡ x.1)
      go (ok n, v) e = (n, refl, rw e)
      go (err f, v) e = absurd (err-ne-ok (rw e at h))

module _ (S : Service) (V : View S) (L : IsLawful S V) (fuel : ℕ) where
  -- CreateVolume without a snapshot as its source: if it is answered, the volume is named by its
  -- bucket, the bucket exists, and no object of any bucket has changed.
  pub create_volume-ok :
      {Capability : Type 0} (req : CreateVolumeRequest Capability) (w : S.World) (vol : Volume)
      → snapshot_of req.source ≡ none
      → (create_volume S fuel req w).0 ≡ ok vol
      → let v = (create_volume S fuel req w).1 in
        (vol.volume_id ≡ bucket_name req.name)
        × (V.exists v vol.volume_id ≡ true)
        × ((b k : Text) → V.content v b k ≡ V.content w b k)
  create_volume-ok req w vol plain h =
      let a = create_volume-Answered S fuel req w vol h in
      let (made, same) =
        provision_plain S fuel a.conn (bucket_name req.name) req.source w plain a.provisioned in
      rw (a.world, a.volume, same)
        (
          refl,
          create_bucket-ok S V L fuel a.conn (bucket_name req.name) w made,
          (create_bucket-objects S V L fuel a.conn (bucket_name req.name) w).same_content,
        )

module _ (S : Service) (fuel : ℕ) where
  endpoint_given :
      (secrets params : Dict Text) (c : Conn)
      → get (codes "endpoint") secrets ≡ []
      → conn_from secrets params ≡ ok c
      → (conn : Conn) × (conn_from secrets params ≡ ok conn)
        × (conn.endpoint ≡ get (codes "endpoint") params)
        × (get (codes "endpoint") params ≢ [])
  endpoint_given secrets params c none_there k =
      let (parts, given, region, access, secret) = conn_from-ok secrets params k in
      let chosen : pick secrets params (codes "endpoint") ≡ get (codes "endpoint") params =
        rw (pick_precedence secrets params (codes "endpoint"), none_there) refl in
      let same = ap (λ (d : Conn). d.endpoint) parts ∙ chosen in (c, k, same, λ e. given (same ∙ e))

  -- A volume that CreateVolume has made with secrets that hold no endpoint has its endpoint from the
  -- parameters, which name one. DeleteVolume with the same secrets, to which Kubernetes passes no
  -- parameters, then fails with InvalidArgument and asks the service for nothing. The volume has a
  -- name.
  pub delete_volume_no_endpoint :
      {Capability : Type 0} (req : CreateVolumeRequest Capability) (w : S.World) (vol : Volume)
      → get (codes "endpoint") req.secrets ≡ []
      → vol.volume_id ≢ []
      → (create_volume S fuel req w).0 ≡ ok vol
      → let v = (create_volume S fuel req w).1 in
        ((conn : Conn) × (conn_from req.secrets req.parameters ≡ ok conn)
          × (conn.endpoint ≡ get (codes "endpoint") req.parameters)
          × (get (codes "endpoint") req.parameters ≢ []))
        × (delete_volume S fuel (record { id = vol.volume_id; secrets = req.secrets }) v
            ≡ (err (errf invalid_argument (message missing_endpoint)), v))
  delete_volume_no_endpoint req w vol none_there named h = (
    endpoint_given req.secrets req.parameters (create_volume-Answered S fuel req w vol h).conn
        none_there (create_volume-Answered S fuel req w vol h).connected,
    unfold delete_volume in
        rw (nil_is_empty vol.volume_id named, conn_from_no_endpoint req.secrets none_there),
  )

  delete_volume-conn :
      (req : DeleteRequest) (conn : Conn) (w : S.World)
      → req.id ≢ []
      → conn_from req.secrets [] ≡ ok conn
      → delete_volume S fuel req w ≡ mapped internal_fault (delete_bucket S fuel conn req.id w)
  unfolding delete_volume
  delete_volume-conn req conn w n k = rw (nil_is_empty req.id n, k)

module _ (S : Service) (V : View S) (L : IsLawful S V) (fuel : ℕ) where
  -- DeleteVolume that is answered has removed the bucket and has changed no object of another bucket,
  -- if the secrets give a connection and the fuel is enough to list the bucket.
  pub delete_volume-ok :
      (req : DeleteRequest) (conn : Conn) (w : S.World)
      → req.id ≢ []
      → conn_from req.secrets [] ≡ ok conn
      → V.remaining (S.new_paginator conn req.id) w < fuel
      → (delete_volume S fuel req w).0 ≡ ok tt
      → let v = (delete_volume S fuel req w).1 in
        (V.exists v req.id ≡ false)
        × ((b k : Text) → text_eq req.id b ≡ false → V.content v b k ≡ V.content w b k)
  delete_volume-ok req conn w n c enough h =
      let same = delete_volume-conn S fuel req conn w n c in
      let (done, kept) =
        mapped-ok internal_fault (delete_bucket S fuel conn req.id w) (rw same at h) in
      rw (same, kept) (delete_bucket-ok S V L fuel conn req.id w enough done)
