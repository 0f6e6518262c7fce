-- ===== src/Csi/Tests.antt =====
-- Runs of the driver over the service in memory, and the theorems at concrete requests.
use dezhan.Base.{
  ℕ, ◌≡◌, ◌≢◌, ◌⊎◌, ◌%◌, ◌^◌, map, refl, [], ◌∷◌, true, false, none, some, Result, ok, err, arith,
  not, ◌+◌,
}
use dezhan.Text.{Text, codes, text_eq}
use dezhan.Text.Case.{lower}
use dezhan.Text.Escape.{unescape}
use dezhan.Dict.{Dict, get, lookup, insert, remove}
use dezhan.Csi.Names.{bucket_name, snapshot_bucket}
use dezhan.Csi.Conn.{Conn, conn_from, message, missing_endpoint}
use dezhan.Csi.S3.{
  copy_all, delete_bucket, create_bucket, empty_bucket, drop_bucket, list_keys, delete_keys,
  copy_keys,
}
use dezhan.Csi.S3.Pages.{sum_sizes, list_keys_complete}
use dezhan.Csi.S3.{key_of}
use dezhan.Csi.Service.{Fault, diverged}
use dezhan.Csi.Node.{
  Host, PublishRequest, check_mount, bucket_of, node_publish_volume, run_mount, mount_command,
}
use dezhan.Csi.Node.Publish.{publish-create_volume, node_conn}
use dezhan.Csi.S3.Memory.{
  Stored, World, memory, memory_view, make, drop_empty, erase, copy, page, find, at_slash, entries,
  is_nil, objects, has, body_of, locked_of, memory_pending, memory_remaining, rest_of,
}
use dezhan.Csi.S3.Memory.Lawful.{memory-IsLawful}
use dezhan.Csi.Status.{Status, errf, invalid_argument}
use dezhan.Csi.Controller.{
  CreateVolumeRequest, Volume, DeleteRequest, CreateSnapshotRequest, Snapshot, from_snapshot,
  create_volume, create_snapshot, delete_volume, provision, context_of,
}
use dezhan.Csi.Controller.Volumes.{create_volume-ok, delete_volume-ok, delete_volume_no_endpoint}
use dezhan.Csi.Controller.Snapshots.{Copyable, create_snapshot-ok, restore-snapshot}

abbrev credentials : Dict Text
credentials = (codes "accessKeyID", codes "ak") ∷ (codes "secretAccessKey", codes "sk") ∷ []

abbrev vault : Dict Text
vault = (codes "endpoint", codes "http://v") ∷ []

abbrev secrets : Dict Text
secrets = (codes "endpoint", codes "http://v") ∷ credentials

abbrev conn : Conn
conn = record {
  endpoint = codes "http://v";
  region = codes "us-east-1";
  access_key = codes "ak";
  secret_key = codes "sk";
}

abbrev open_object : Text → Stored
open_object body = record { body = body; locked = false }

abbrev kept_object : Text → Stored
kept_object body = record { body = body; locked = true }

abbrev world : World
world =
    (
      codes "pvc-1",
      (codes "a", open_object (codes "x"))
          ∷ (codes "b", kept_object (codes "yz"))
          ∷ (codes "c", open_object [])
          ∷ [],
    )
    ∷ (codes "pvc-2", (codes "d", open_object (codes "w")) ∷ [])
    ∷ []

abbrev request : CreateVolumeRequest ℕ
request = record {
  name = codes "PVC-9";
  capabilities = 1 ∷ [];
  secrets = credentials;
  parameters = vault;
  source = none;
  required_bytes = 1024;
}

abbrev volume : Volume
volume = record {
  volume_id = codes "pvc-9";
  capacity_bytes = 1024;
  content_source = none;
  volume_context = context_of conn (codes "pvc-9");
}

-- One request, with all that runs for it.
run : World → Result Status Volume × World
unfolding create_volume create_snapshot delete_volume conn_from bucket_name snapshot_bucket
    provision create_bucket delete_bucket empty_bucket drop_bucket copy_all list_keys delete_keys
    copy_keys make drop_empty erase copy page find at_slash unescape entries is_nil objects has
    body_of locked_of memory_pending memory_remaining rest_of lookup insert remove sum_sizes lower
    check_mount bucket_of node_publish_volume run_mount mount_command
run w = create_volume memory 9 request w

run_creates : run world ≡ (ok volume, insert (codes "pvc-9") [] world)
unfolding run
run_creates = refl

create_volume-ok_example :
    let v = (create_volume memory 9 request world).1 in
    (volume.volume_id ≡ bucket_name request.name)
    × (memory_view.exists v volume.volume_id ≡ true)
    × ((b k : Text) → memory_view.content v b k ≡ memory_view.content world b k)
unfolding run
create_volume-ok_example =
    create_volume-ok memory memory_view memory-IsLawful 9 request world volume refl refl

delete_volume-ok_example :
    let req : DeleteRequest = record { id = codes "pvc-2"; secrets = secrets } in
    let v = (delete_volume memory 9 req world).1 in
    (memory_view.exists v req.id ≡ false)
    × ((b k : Text)
        → text_eq req.id b ≡ false
        → memory_view.content v b k ≡ memory_view.content world b k)
unfolding run
delete_volume-ok_example =
    delete_volume-ok memory memory_view memory-IsLawful 9
      (record { id = codes "pvc-2"; secrets = secrets }) conn world (ground arith) refl
      (omega arith) refl

delete_volume_no_endpoint_example :
    let v = (create_volume memory 9 request world).1 in
    ((c : Conn) × (conn_from request.secrets request.parameters ≡ ok c)
      × (c.endpoint ≡ codes "http://v")
      × (get (codes "endpoint") request.parameters ≢ []))
    × (delete_volume memory 9 (record { id = volume.volume_id; secrets = request.secrets }) v
        ≡ (err (errf invalid_argument (message missing_endpoint)), v))
unfolding run
delete_volume_no_endpoint_example =
    delete_volume_no_endpoint memory 9 request world volume refl (ground arith) refl

abbrev snapshot_request : CreateSnapshotRequest
snapshot_request = record {
  name = codes "snapshot-7";
  source_volume_id = codes "pvc-1";
  secrets = secrets;
  parameters = [];
}

abbrev snapshot : Snapshot
snapshot = record {
  snapshot_id = codes "snap-7";
  source_volume_id = codes "pvc-1";
  size_bytes = 3;
  creation_time = 5;
  ready_to_use = true;
}

snapshot_fits :
    (c : Conn)
    → Copyable memory memory_view memory-IsLawful 9 c (codes "pvc-1") (codes "snap-7") world
unfolding run
snapshot_fits c = record {
  slash_free = ground arith;
  name_bytes = omega arith;
  key_bytes = omega arith;
  enough = omega arith;
  small = omega arith;
}

create_snapshot-ok_example :
    let v = (create_snapshot memory 9 5 snapshot_request world).1 in
    (memory_view.exists v snapshot.snapshot_id ≡ true)
    × ((k : Text)
        → memory_view.content world snapshot_request.source_volume_id k ≢ none
        → memory_view.content v snapshot.snapshot_id k
          ≡ memory_view.content world snapshot_request.source_volume_id k)
    × ((b k : Text)
        → text_eq snapshot.snapshot_id b ≡ false
        → memory_view.content v b k ≡ memory_view.content world b k)
unfolding run
create_snapshot-ok_example =
    create_snapshot-ok memory memory_view memory-IsLawful 9 5 snapshot_request world snapshot
      snapshot_fits refl

abbrev restore_request : CreateVolumeRequest ℕ
restore_request = record {
  name = codes "PVC-8";
  capabilities = 1 ∷ [];
  secrets = secrets;
  parameters = [];
  source = some (from_snapshot (codes "snap-7"));
  required_bytes = 0;
}

abbrev restored : Volume
restored = record {
  volume_id = codes "pvc-8";
  capacity_bytes = 0;
  content_source = some (from_snapshot (codes "snap-7"));
  volume_context = context_of conn (codes "pvc-8");
}

restore_fits :
    (c : Conn)
    → Copyable memory memory_view memory-IsLawful 9 c snapshot.snapshot_id
        (bucket_name restore_request.name)
        (create_snapshot memory 9 5 snapshot_request world).1
unfolding run
restore_fits c = record {
  slash_free = ground arith;
  name_bytes = omega arith;
  key_bytes = omega arith;
  enough = omega arith;
  small = omega arith;
}

restore-snapshot_example :
    memory_view.content
      (create_volume memory 9 restore_request
        (create_snapshot memory 9 5 snapshot_request world).1).1
      restored.volume_id
      (codes "b")
    ≡ memory_view.content world snapshot_request.source_volume_id (codes "b")
unfolding run
restore-snapshot_example =
    restore-snapshot memory memory_view memory-IsLawful 9 5 snapshot_request restore_request world
      snapshot restored snapshot_fits refl restore_fits refl refl (codes "b") (ground arith)

list_keys_complete_example :
    let es = memory_view.pending (memory.new_paginator conn (codes "pvc-1")) world in
    (list_keys memory 9 conn (codes "pvc-1") world
      ≡ (ok (record { keys = map key_of es; total = sum_sizes es % 2 ^ 64 }), world))
    ⊎ ((f : Fault) × (list_keys memory 9 conn (codes "pvc-1") world ≡ (err f, world))
        × (f ≢ diverged))
unfolding run
list_keys_complete_example =
    list_keys_complete memory memory_view memory-IsLawful 9 conn (codes "pvc-1") world (omega arith)

-- A host that has one mount, at "/m", and counts the programs that it has run.
abbrev host : Host
host = record {
  World = ℕ;
  environ = λ w. codes "PATH=/bin" ∷ [];
  mkdir_all = λ t w. (none, w);
  is_likely_not_mount_point = λ t w. (not (text_eq t (codes "/m")), none, w);
  combined_output = λ c w. ([], none, w + 1);
  cleanup_mount_point = λ t w. (none, w);
}

abbrev publish_request : PublishRequest
publish_request = record {
  volume_id = codes "pvc-9";
  target_path = codes "/t";
  volume_context = volume.volume_context;
  secrets = credentials;
  readonly = true;
}

publish-create_volume_example :
    (c : Conn) × (conn_from request.secrets request.parameters ≡ ok c)
    × (conn_from publish_request.secrets publish_request.volume_context
        ≡ ok (node_conn publish_request.secrets c))
    × (bucket_of publish_request ≡ volume.volume_id)
unfolding run
publish-create_volume_example =
    publish-create_volume memory 9 request world volume publish_request refl refl refl refl
      (ground arith) (ground arith)
