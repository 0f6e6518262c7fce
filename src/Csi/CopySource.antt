-- ===== src/Csi/CopySource.antt =====
-- The copy source header, from the driver to the vault server: what
-- server/src/dezhan_server.adb makes of it.
use dezhan.Base.{◌≡◌, ◌≢◌, refl, subst, ◌++◌, [], ◌∷◌, ◌==◌, if◌then◌else◌}
use dezhan.Text.{Text}
use dezhan.Text.Escape.{IsSlashFree, path_escape-IsSlashFree, not_IsSlashFree}
use dezhan.Csi.S3.{copy_source}

-- The name that the server looks up: the header, less a slash in front. It is not decoded.
unfoldable pub server_copy_name : Text → Text
server_copy_name [] = []
server_copy_name (c ∷ s) = if c == b'/' then s else c ∷ s

-- An object's name in the vault.
abbrev pub object_name : Text → Text → Text
object_name bucket key = bucket ++ b'/' ∷ key

server_copy_name-IsSlashFree : (s : Text) → IsSlashFree s → server_copy_name s ≡ s
unfolding server_copy_name
server_copy_name-IsSlashFree [] h = refl
server_copy_name-IsSlashFree (c ∷ s) h = rw h.0

-- For every bucket and key, the name that the server looks up for the CopyObject of the driver is
-- not the name of the object, and has no slash in it.
pub copy_source-ne-object_name :
    (src key : Text)
    → IsSlashFree (server_copy_name (copy_source src key))
      × (server_copy_name (copy_source src key) ≢ object_name src key)
unfolding copy_source
copy_source-ne-object_name src key =
    (named, λ e. not_IsSlashFree src key (subst IsSlashFree e named))
  where
    free : IsSlashFree (copy_source src key)
    free = path_escape-IsSlashFree (src ++ b'/' ∷ key)

    named : IsSlashFree (server_copy_name (copy_source src key))
    named = rw (server_copy_name-IsSlashFree (copy_source src key) free) free
