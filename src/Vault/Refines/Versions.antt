-- ===== src/Vault/Refines/Versions.antt =====
-- Versions of the vault, vault/src/dezhan-vault.adb, against its abstract counterpart.
use dezhan.Base.{
  ℕ, ◌+◌, [], ◌∷◌, List, Bool, true, false, Option, none, some, ◌≡◌, refl, ap, ◌∙◌, if◌then◌else◌,
  ◌==◌, Result, ok, err, continue, pure, ◌>>=◌, ◌>>◌,
}
use dezhan.Text.{Text, pos, itoa}
use dezhan.Dict.{lookup}
use dezhan.Core.Audit.{delete_allowed, natural_last}
use dezhan.Vault.State.{
  Meta, VersionEntry, Vault, Act, Fault, constraint_error, add_audit, name_digest, vseq_line,
  ver_line,
}
use dezhan.Vault.Persist.{append_jrnl, commit_jrnl}
use dezhan.Vault.Versions.{
  record_version, record_named, delete_marker, delete_version, delete_version_in, next_version,
  push_version, drop_indexed, marker, has_version, without_version, newest_real, repoint,
  keep_versions,
}
use dezhan.Vault.Operations.{version, mark, drop_version}
use dezhan.Vault.Keeps.{Plain, plain, Keeps, keeps, save-Keeps, continue-plain}
use dezhan.Vault.Spec.{plain_step, version_if, drop_if, drop_version_if, plain_repoint, kept}
use dezhan.Vault.Refines.Objects.{if-plain, choose-plain}

continue-if :
    {A B : Type 0} (b : Bool) (e : Fault) (v w : Vault) (a : A) (f : A → Act B)
    → continue (if b then (err e, v) else (ok a, w)) f ≡ (if b then (err e, v) else f a w)
continue-if true e v w a f = refl
continue-if false e v w a f = refl

-- A call that begins by taking the next version number.
next-plain :
    {A : Type 0} (f : ℕ → Act A) (v : Vault) (q : Plain)
    → plain (f (v.ver_seq + 1) (record v { ver_seq = v.ver_seq + 1 })).1 ≡ q
    → plain ((next_version >>= f) v).1 ≡ (if v.ver_seq == natural_last then plain v else q)
next-plain f v q h =
    ap (λ (x : Result Fault _ × Vault). plain x.1)
      (continue-if (v.ver_seq == natural_last) constraint_error v
        (record v { ver_seq = v.ver_seq + 1 }) (v.ver_seq + 1) f)
    ∙ if-plain (v.ver_seq == natural_last) (v.ver_seq == natural_last) _ _ (plain v) q refl refl h

noted-Keeps :
    (n : ℕ) (name : Text) (e : VersionEntry)
    → Keeps (do
      append_jrnl (vseq_line n)
      append_jrnl (ver_line name e)
      commit_jrnl
      pure (itoa (pos n)))
noted-Keeps n name e = search keeps

record_named-plain :
    (name : Text) (o : Option Meta) (v : Vault)
    → plain (record_named name o v).1 ≡ version_if name o (plain v)
record_named-plain name none v = refl
record_named-plain name (some m) v = next-plain _ v _ (noted-Keeps (v.ver_seq + 1) name _ _)

pub record_version-plain :
    (name : Text) (v : Vault)
    → plain (record_version name v).1 ≡ plain_step (version name) (plain v)
unfolding record_version plain_step
record_version-plain name v = record_named-plain name (lookup name v.index) v

marked-Keeps :
    (name : Text) (now n : ℕ) (e : VersionEntry)
    → Keeps (do
      add_audit delete_allowed (name_digest name) now
      append_jrnl (vseq_line n)
      append_jrnl (ver_line name e)
      commit_jrnl
      pure (itoa (pos n)))
marked-Keeps name now n e = search keeps

drop_indexed-plain :
    (name : Text) (o : Option Meta) (v : Vault)
    → plain (drop_indexed name o v).1 ≡ drop_if name o (plain v)
drop_indexed-plain name none v = refl
drop_indexed-plain name (some m) v = refl

pub delete_marker-plain :
    (name : Text) (v : Vault) → plain (delete_marker name v).1 ≡ plain_step (mark name) (plain v)
unfolding delete_marker plain_step
delete_marker-plain name v = next-plain _ v _ (
    continue-plain
      (drop_indexed name (lookup name v.index)
        (push_version name (marker (v.ver_seq + 1)) (record v { ver_seq = v.ver_seq + 1 })))
      _ (λ u. marked-Keeps name v.clock.floor (v.ver_seq + 1) (marker (v.ver_seq + 1)))
    ∙ drop_indexed-plain name (lookup name v.index) _)

repointed :
    (name : Text) (o : Option VersionEntry) (es : List VersionEntry) (v : Vault)
    → plain (keep_versions name es (repoint name o v)) ≡ record (plain v) {
      index = plain_repoint name o v.index;
      versions = kept name es v.versions;
    }
repointed name none [] v = refl
repointed name none (e ∷ es) v = refl
repointed name (some f) [] v = refl
repointed name (some f) (e ∷ es) v = refl

delete_version_in-plain :
    (name vid : Text) (o : Option (List VersionEntry)) (v : Vault)
    → plain (delete_version_in name vid o v).1 ≡ drop_version_if name vid o (plain v)
delete_version_in-plain name vid none v = refl
delete_version_in-plain name vid (some es) v =
    choose-plain (has_version vid es) (has_version vid es) _ _ v _ (plain v) refl
      (save-Keeps (keep_versions name left (repoint name (newest_real left) v))
        ∙ repointed name (newest_real left) left v)
      refl
  where
    left : List VersionEntry
    left = without_version vid es

pub delete_version-plain :
    (name vid : Text) (v : Vault)
    → plain (delete_version name vid v).1 ≡ plain_step (drop_version name vid) (plain v)
unfolding delete_version plain_step
delete_version-plain name vid v = delete_version_in-plain name vid (lookup name v.versions) v
