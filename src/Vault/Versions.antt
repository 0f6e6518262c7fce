-- ===== src/Vault/Versions.antt =====
-- Versions of objects, vault/src/dezhan-vault.adb: Record_Version, Delete_Marker and Delete_Version.
use dezhan.Base.{
  ℕ, zero, suc, ◌+◌, ◌++◌, [], ◌∷◌, List, Bool, true, false, Option, none, some, ok, err,
  if◌then◌else◌, ◌==◌, pure, fail, ◌>>=◌, ◌>>◌,
}
use dezhan.Text.{Text, text_eq, pos, itoa}
use dezhan.Dict.{lookup, insert, remove}
use dezhan.Core.Retention.{governance, create_lock}
use dezhan.Core.Audit.{delete_allowed, natural_last}
use dezhan.Vault.State.{
  Meta, VersionEntry, Vault, not_found, constraint_error, Act, update, name_digest, add_audit,
  del_line, vseq_line, ver_line,
}
use dezhan.Vault.Persist.{save, append_jrnl, commit_jrnl, versions_or_empty}
use dezhan.Vault.Objects.{drop_object, set_object}

-- Ver_Seq + 1, which has to be a Natural
abbrev pub next_version : Act ℕ
next_version v =
    if v.ver_seq == natural_last
    then (err constraint_error, v)
    else (ok (v.ver_seq + 1), record v { ver_seq = v.ver_seq + 1 })

abbrev pub push_version : Text → VersionEntry → Vault → Vault
push_version name e v = record v {
  versions = insert name (versions_or_empty (lookup name v.versions) ++ e ∷ []) v.versions;
}

abbrev pub record_named : Text → Option Meta → Act Text
record_named name none = fail constraint_error
record_named name (some m) = do
  n ← next_version
  let e : VersionEntry = record {
    vid = itoa (pos n);
    id = m.id;
    size = m.size;
    meta = m.user_meta;
    deleted = false;
  }
  update (push_version name e)
  append_jrnl (vseq_line n)
  append_jrnl (ver_line name e)
  commit_jrnl
  pure (itoa (pos n))

-- Element raises where the key is missing.
unfoldable pub record_version : Text → Act Text
unfolding itoa insert
record_version name v = record_named name (lookup name v.index) v

abbrev pub zero_id : ℕ → Text
zero_id zero = []
zero_id (suc n) = b'0' ∷ zero_id n

abbrev pub marker : ℕ → VersionEntry
marker n = record { vid = itoa (pos n); id = zero_id 64; size = 0; meta = []; deleted = true }

-- if Index.Contains (Name)
abbrev pub drop_indexed : Text → Option Meta → Act Unit
drop_indexed name none = pure tt
drop_indexed name (some m) = do update (drop_object name); append_jrnl (del_line name)

abbrev pub mark_named : Text → Option Meta → ℕ → Act Text
mark_named name found now = do
  n ← next_version
  update (push_version name (marker n))
  drop_indexed name found
  add_audit delete_allowed (name_digest name) now
  append_jrnl (vseq_line n)
  append_jrnl (ver_line name (marker n))
  commit_jrnl
  pure (itoa (pos n))

unfoldable pub delete_marker : Text → Act Text
unfolding itoa insert remove add_audit
delete_marker name v = mark_named name (lookup name v.index) v.clock.floor v

abbrev pub has_version : Text → List VersionEntry → Bool
has_version vid [] = false
has_version vid (e ∷ es) = if text_eq e.vid vid then true else has_version vid es

-- without the last entry of that id
abbrev pub without_version : Text → List VersionEntry → List VersionEntry
without_version vid [] = []
without_version vid (e ∷ es) =
    let rest = without_version vid es in
    if has_version vid es then e ∷ rest else if text_eq e.vid vid then es else e ∷ rest

abbrev pub newer : Option VersionEntry → VersionEntry → Option VersionEntry
newer (some f) e = some f
newer none e = if e.deleted then none else some e

-- the newest entry that is no delete marker
abbrev pub newest_real : List VersionEntry → Option VersionEntry
newest_real [] = none
newest_real (e ∷ es) = newer (newest_real es) e

abbrev pub repoint : Text → Option VersionEntry → Vault → Vault
repoint name none v = drop_object name v
repoint name (some e) v =
    set_object name
      (record {
        id = e.id;
        lock = create_lock governance 0 0;
        composite = false;
        quarantined = false;
        size = e.size;
        user_meta = e.meta;
      })
      (drop_object name v)

abbrev pub keep_versions : Text → List VersionEntry → Vault → Vault
keep_versions name [] v = record v { versions = remove name v.versions }
keep_versions name (e ∷ es) v = record v { versions = insert name (e ∷ es) v.versions }

abbrev pub delete_version_in : Text → Text → Option (List VersionEntry) → Act Unit
delete_version_in name vid none = fail not_found
delete_version_in name vid (some es) =
    if has_version vid es
    then (do
      update (repoint name (newest_real (without_version vid es)))
      update (keep_versions name (without_version vid es))
      save)
    else fail not_found

unfoldable pub delete_version : Text → Text → Act Unit
unfolding insert remove text_eq create_lock
delete_version name vid v = delete_version_in name vid (lookup name v.versions) v
