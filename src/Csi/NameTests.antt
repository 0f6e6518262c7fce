-- ===== src/Csi/NameTests.antt =====
-- The names at concrete requests.
use dezhan.Base.{◌≢◌}
use dezhan.Text.{codes}
use dezhan.Text.Escape.{IsSlashFree}
use dezhan.Csi.S3.{copy_source}
use dezhan.Csi.CopySource.{server_copy_name, object_name, copy_source-ne-object_name}

copy_source-ne-object_name_example :
    IsSlashFree (server_copy_name (copy_source (codes "pvc-1") (codes "a/b")))
    × (server_copy_name (copy_source (codes "pvc-1") (codes "a/b"))
        ≢ object_name (codes "pvc-1") (codes "a/b"))
copy_source-ne-object_name_example = copy_source-ne-object_name (codes "pvc-1") (codes "a/b")
