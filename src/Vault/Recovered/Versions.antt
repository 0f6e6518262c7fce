-- ===== src/Vault/Recovered/Versions.antt =====
-- The calls about versions, vault/src/dezhan-vault.adb, with what a crash after them leaves.
use dezhan.Base.{
  ℕ, ◌+◌, [], ◌∷◌, List, Option, none, some, ◌≡◌, refl, sym, ap, ◌∙◌, subst, ◌==◌, length, arith,
  Bool-cases, inl, inr, ◌>>◌, pure,
}
use dezhan.Text.{Text}
use dezhan.Dict.{Dict, lookup, remove, insert-NodupKeys, remove-NodupKeys}
use dezhan.Core.Audit.{delete_allowed, natural_last}
use dezhan.Vault.State.{
  add_audit, Meta, VersionEntry, vseq_line, ver_line, del_line, Vault, name_digest,
}
use dezhan.Vault.Persist.{committed, buffered, append_jrnl, commit_jrnl}
use dezhan.Vault.Objects.{drop_object}
use dezhan.Vault.Versions.{
  record_version, record_named, delete_marker, mark_named, delete_version, delete_version_in,
  push_version, marker, has_version, repoint, keep_versions, newest_real, without_version,
}
use dezhan.Vault.Chain.{repoint-log}
use dezhan.Vault.Files.{
  Contents, contents, Agrees, IsSound, pending, IsDurable, del_line-Agrees, vseq_line-Agrees,
  ver_line-Agrees, buffered-Agrees,
}
use dezhan.Core.Sha256.{sha256}
use dezhan.Vault.Durable.{
  IsShort, name_digest-ok, Settled, HasRoom, noted, add_audit-then, same-Settled, Waiting,
  committed-Settled, durable-Waiting, noted-Waiting, beside-Waiting,
}
use dezhan.Vault.Recovered.{Settles, if-Settles, fail-Settles, saved_change-Settles}

-- Two lines about versions behind what waits are committed with it.
two_lines-Settled :
    (n k : ℕ) (name : Text) (e : VersionEntry) (v : Vault)
    → Waiting n v
    → Settled n (committed (buffered (ver_line name e) (buffered (vseq_line k) v)))
two_lines-Settled n k name e v w =
    let u = buffered (vseq_line k) v in
    committed-Settled n (buffered (ver_line name e) u) (
      beside-Waiting (ver_line name e) n u (λ r. ver_line-Agrees name e (contents v) r)
        (beside-Waiting (vseq_line k) n v (λ r. vseq_line-Agrees k (contents v) r) w))

-- The versions lie beside the contents.
versions-Waiting :
    (vs : Dict (List VersionEntry)) (n : ℕ) (v : Vault)
    → IsDurable v
    → Waiting (length v.log) (record v { versions = vs; ver_seq = n })
versions-Waiting vs n v d =
    let w = durable-Waiting v d in
    record { sound = w.sound; stored = w.stored; entries = w.entries }

record_named-Settles : (name : Text) (o : Option Meta) (v : Vault) → Settles (record_named name o) v
record_named-Settles name none v = fail-Settles _ v
record_named-Settles name (some m) v = record {
  settled = λ d room. elim (Bool-cases (v.ver_seq == natural_last)) [
    | inl e ↦ rw e (same-Settled v d)
    | inr e ↦ rw e (two_lines-Settled _ _ _ _ _ (versions-Waiting _ _ v d))
  ];
}

pub record_version-Settles : (name : Text) (v : Vault) → Settles (record_version name) v
unfolding record_version
record_version-Settles name v = record {
  settled = (record_named-Settles name (lookup name v.index) v).settled;
}

-- From what waits, the entry and the lines of a delete marker.
marked-Settled :
    (k now : ℕ) (name t : Text) (e : VersionEntry) (v : Vault)
    → IsShort name
    → IsSound (contents v)
    → Agrees (pending v) (contents v)
    → HasRoom v
    → Settled
        (length v.log)
        ((do
          add_audit delete_allowed (name_digest name) now
          append_jrnl (vseq_line k)
          append_jrnl (ver_line name e)
          commit_jrnl
          pure t)
          v).1
marked-Settled k now name t e v short s a room =
    add_audit-then delete_allowed (name_digest name) (sha256 name) now
      (do append_jrnl (vseq_line k); append_jrnl (ver_line name e); commit_jrnl; pure t) v
      (Settled (length v.log)) (name_digest-ok name short) s.chain room
      (λ x f. two_lines-Settled (length v.log) k name e (noted x v) (noted-Waiting x v s a f))

-- The object of that name leaves the index, with its line.
dropped-Waiting :
    (name : Text) (v : Vault)
    → IsDurable v
    → Waiting (length v.log) (buffered (del_line name) (drop_object name v))
dropped-Waiting name v d = record {
  sound = record {
    chain = d.sound.chain;
    objects = remove-NodupKeys name v.index d.sound.objects;
    names = d.sound.names;
  };
  stored =
      buffered-Agrees (del_line name) v (contents v) (contents (drop_object name v))
        (λ r. del_line-Agrees name (contents v) r) (durable-Waiting v d).stored;
  entries = omega arith;
}

mark_named-Settles :
    (name : Text) (o : Option Meta) (now : ℕ) (v : Vault)
    → IsShort name
    → Settles (mark_named name o now) v
mark_named-Settles name none now v short = record {
  settled = λ d room. elim (Bool-cases (v.ver_seq == natural_last)) [
    | inl e ↦ rw e (same-Settled v d)
    | inr e ↦ rw e (
        marked-Settled _ now name _ _
          (push_version name (marker (v.ver_seq + 1)) (record v { ver_seq = v.ver_seq + 1 })) short
          d.sound (durable-Waiting v d).stored room)
  ];
}
mark_named-Settles name (some m) now v short = record {
  settled = λ d room. elim (Bool-cases (v.ver_seq == natural_last)) [
    | inl e ↦ rw e (same-Settled v d)
    | inr e ↦ rw e (
        let w = dropped-Waiting name v d in
        marked-Settled _ now name _ _
          (buffered (del_line name) (
            drop_object name
              (push_version name (marker (v.ver_seq + 1)) (record v { ver_seq = v.ver_seq + 1 }))))
          short w.sound w.stored room)
  ];
}

pub delete_marker-Settles :
    (name : Text) (v : Vault) → IsShort name → Settles (delete_marker name) v
unfolding delete_marker
delete_marker-Settles name v short = record {
  settled = (mark_named-Settles name (lookup name v.index) v.clock.floor v short).settled;
}

repoint-IsSound :
    (name : Text) (o : Option VersionEntry) (v : Vault)
    → IsSound (contents v)
    → IsSound (contents (repoint name o v)) × ((repoint name o v).log ≡ v.log)
repoint-IsSound name none v s = (
  record { chain = s.chain; objects = remove-NodupKeys name v.index s.objects; names = s.names },
  refl,
)
repoint-IsSound name (some e) v s = (
  record {
    chain = s.chain;
    objects =
        insert-NodupKeys name _ (remove name v.index) (remove-NodupKeys name v.index s.objects);
    names = s.names;
  },
  refl,
)

keep_versions-contents :
    (name : Text) (es : List VersionEntry) (v : Vault)
    → contents (keep_versions name es v) ≡ contents v
keep_versions-contents name [] v = refl
keep_versions-contents name (e ∷ es) v = refl

delete_version_in-Settles :
    (name vid : Text) (o : Option (List VersionEntry)) (v : Vault)
    → Settles (delete_version_in name vid o) v
delete_version_in-Settles name vid none v = fail-Settles _ v
delete_version_in-Settles name vid (some es) v =
    let rest = without_version vid es in
    let f : Vault → Vault = λ w. keep_versions name rest (repoint name (newest_real rest) w) in
    let same = keep_versions-contents name rest (repoint name (newest_real rest) v) in
    if-Settles (has_version vid es) _ _ v
      (record {
        settled =
            (saved_change-Settles f v
              (λ s. subst IsSound (sym same) (repoint-IsSound name (newest_real rest) v s).0)
              (ap (λ (c : Contents). c.log) same ∙ repoint-log name (newest_real rest) v)).settled;
      })
      (fail-Settles _ v)

pub delete_version-Settles : (name vid : Text) (v : Vault) → Settles (delete_version name vid) v
unfolding delete_version
delete_version-Settles name vid v = record {
  settled = (delete_version_in-Settles name vid (lookup name v.versions) v).settled;
}
