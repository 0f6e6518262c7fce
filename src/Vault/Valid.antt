-- ===== src/Vault/Valid.antt =====
-- Calls of the vault whose arguments can be written to its files, vault/src/dezhan-vault.adb.
use dezhan.Base.{◌≤◌}
use dezhan.Text.{Text}
use dezhan.Core.Clock.{time_last}
use dezhan.Core.Audit.{natural_last}
use dezhan.Vault.Operations.{
  Operation, put, delete, hold, release, version, mark, drop_version, tick, system_tick, seal_vault,
  open_window, close_window, ingest, make_bucket, versioning, remove_bucket,
}
use dezhan.Vault.Printed.{IsSpaceless, IsBytes}
use dezhan.Vault.Readable.{IsName, IsId}
use dezhan.Vault.Durable.{IsShort}

-- A name that is hashed: not empty, of bytes, at most 8192 of them.
abbrev pub IsKey : Text → Type 0
IsKey name = IsName name × IsShort name

-- Names of this form, sizes and clock readings in the range of their types, and no space in a boot id.
abbrev pub IsValid : Operation → Type 0
IsValid (put name id composite size mode retain_for meta) =
    IsKey name × IsId id × (size ≤ natural_last) × IsBytes meta
IsValid (delete name bypass) = IsKey name
IsValid (hold name) = IsKey name
IsValid (release name) = IsKey name
IsValid (version name) = IsKey name
IsValid (mark name) = IsKey name
IsValid (drop_version name vid) = IsKey name
IsValid (tick sample) = sample.mono ≤ time_last
IsValid (system_tick sample boot) = (sample.mono ≤ time_last) × IsSpaceless boot
IsValid seal_vault = Unit
IsValid open_window = Unit
IsValid close_window = Unit
IsValid (ingest enabled) = Unit
IsValid (make_bucket name lock) = IsName name
IsValid (versioning name on) = IsName name
IsValid (remove_bucket name) = Unit
