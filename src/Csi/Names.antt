-- ===== src/Csi/Names.antt =====
-- Bucket names, csi/internal/driver/controller.go.
pub mod Bounds
use dezhan.Base.{ℕ, ◌++◌, ltb, if◌then◌else◌, length, take}
use dezhan.Text.{Text, codes, to_lower, trim_prefix}

-- b[:63] if len(b) > 63
truncate : Text → Text
truncate b = if ltb 63 (length b) then take 63 b else b

unfoldable pub bucket_name : Text → Text
unfolding truncate to_lower
bucket_name req_name = truncate (to_lower req_name)

unfoldable pub snapshot_bucket : Text → Text
unfolding truncate to_lower trim_prefix
snapshot_bucket req_name =
    truncate (codes "snap-" ++ to_lower (trim_prefix req_name (codes "snapshot-")))
