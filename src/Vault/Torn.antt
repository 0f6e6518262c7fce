-- ===== src/Vault/Torn.antt =====
-- A crash inside Save, vault/src/dezhan-vault.adb: the snapshot has its name, and the journal is not
-- reset yet.
use dezhan.Base.{
  ℕ, ◌++◌, [], ◌∷◌, List, false, Option, none, some, ◌≡◌, refl, ap, ◌∙◌, ◌==◌, length, Bool-cases,
  inl, inr, fail, ◌>>◌,
}
use dezhan.Text.{Text, text_eq, text_eq_refl}
use dezhan.Dict.{Dict, lookup, insert, lookup-insert, lookup-remove, insert-NodupKeys}
use dezhan.Core.Retention.{set_hold}
use dezhan.Core.Audit.{legal_hold_set}
use dezhan.Vault.State.{
  Meta, Line, header_line, count_line, clock_line, boot_line, modes_line, bkt_line, vsn_line,
  vseq_line, ver_line, obj_line, del_line, a_line, Vault, Act, update, not_found, name_digest,
  add_audit,
}
use dezhan.Vault.Persist.{snapshot_of, saved, apply_line, apply_lines, blank, load}
use dezhan.Vault.Objects.{set_object}
use dezhan.Vault.Restart.{apply_lines-append, reopened-same}
use dezhan.Vault.Files.{Contents, contents, load-contents, IsSound, IsDurable}
use dezhan.Core.Sha256.{sha256}
use dezhan.Vault.Durable.{IsShort, name_digest-ok, HasRoom, noted, add_audit-then, noted-IsSound}

-- Save up to the renaming
abbrev pub renamed : Vault → Vault
renamed v = record v { snapshot = snapshot_of v }

-- The rest of Save resets the journal and the buffer.
renamed-saved :
    (v : Vault) → saved v ≡ record (renamed v) { journal = []; jrnl_count = 0; jrnl_buf = [] }
unfolding saved
renamed-saved v = refl

abbrev hold_cut_named : Text → Option Meta → ℕ → Act Unit
hold_cut_named name none now = fail not_found
hold_cut_named name (some m) now = do
  update (set_object name (record m { lock = set_hold m.lock }))
  add_audit legal_hold_set (name_digest name) now
  update renamed

-- Set_Legal_Hold, cut off where its Save has renamed the snapshot.
unfoldable pub hold_cut : Text → Act Unit
unfolding insert set_hold add_audit
hold_cut name v = hold_cut_named name (lookup name v.index) v.clock.floor v

-- The line is about another object, or about none.
abbrev pub IsBeside : Text → Line → Type 0
IsBeside name (obj_line k m) = text_eq k name ≡ false
IsBeside name (del_line k) = text_eq k name ≡ false
IsBeside name header_line = Unit
IsBeside name (count_line n) = Unit
IsBeside name (clock_line f s o) = Unit
IsBeside name (boot_line b) = Unit
IsBeside name (modes_line a b) = Unit
IsBeside name (bkt_line k b) = Unit
IsBeside name (vsn_line k b) = Unit
IsBeside name (vseq_line n) = Unit
IsBeside name (ver_line k e) = Unit
IsBeside name (a_line e) = Unit

abbrev pub AreBeside : Text → List Line → Type 0
AreBeside name [] = Unit
AreBeside name (l ∷ ls) = IsBeside name l × AreBeside name ls

apply_line-beside :
    (name : Text) (l : Line) (v : Vault)
    → IsBeside name l
    → lookup name (apply_line v l).index ≡ lookup name v.index
unfolding apply_line
apply_line-beside name (obj_line k m) v h = rw (lookup-insert k name m v.index) (rw h refl)
apply_line-beside name (del_line k) v h = rw (lookup-remove k name v.index) (rw h refl)
apply_line-beside name header_line v h = refl
apply_line-beside name (count_line n) v h = refl
apply_line-beside name (clock_line f s o) v h = refl
apply_line-beside name (boot_line b) v h = refl
apply_line-beside name (modes_line a b) v h = refl
apply_line-beside name (bkt_line k b) v h = refl
apply_line-beside name (vsn_line k b) v h = refl
apply_line-beside name (vseq_line n) v h = refl
apply_line-beside name (ver_line k e) v h = refl
apply_line-beside name (a_line e) v h = elim (Bool-cases (e.seq == length v.log)) [
  | inl q ↦ rw q refl
  | inr q ↦ rw q refl
]

apply_lines-beside :
    (name : Text) (ls : List Line) (v : Vault)
    → AreBeside name ls
    → lookup name (apply_lines v ls).index ≡ lookup name v.index
unfolding apply_lines
apply_lines-beside name [] v h = refl
apply_lines-beside name (l ∷ ls) v (h, hs) =
    apply_lines-beside name ls (apply_line v l) hs ∙ apply_line-beside name l v h

-- The last line of the journal about an object decides, whatever the snapshot says.
load-last :
    (name : Text) (m : Meta) (s js ks : List Line)
    → AreBeside name ks
    → lookup name (load s (js ++ obj_line name m ∷ ks)).index ≡ some m
unfolding apply_lines apply_line
load-last name m s js ks h =
    let r = apply_lines (apply_lines (blank s []) s) js in
    ap (λ (c : Contents). lookup name c.index) (load-contents s (js ++ obj_line name m ∷ ks))
    ∙ (ap (λ (v : Vault). lookup name v.index)
          (apply_lines-append (apply_lines (blank s []) s) js (obj_line name m ∷ ks))
        ∙ (apply_lines-beside name ks (apply_line r (obj_line name m)) h
            ∙ (lookup-insert name name m r.index ∙ (rw text_eq_refl refl))))

held-index :
    (name : Text) (m : Meta) (index : Dict Meta) → lookup name (insert name m index) ≡ some m
held-index name m index = lookup-insert name name m index ∙ (rw text_eq_refl refl)

-- What Load makes of the files, with the journal and without it.
record Forgets (name : Text) (m held : Meta) (v : Vault) : Type 0 where
  snapshot_alone : lookup name (load v.snapshot []).index ≡ some held
  with_journal : lookup name (load v.snapshot v.journal).index ≡ some m

renamed-Forgets :
    (name : Text) (m held : Meta) (js ks : List Line) (v : Vault)
    → IsSound (contents v)
    → lookup name v.index ≡ some held
    → v.journal ≡ js ++ obj_line name m ∷ ks
    → AreBeside name ks
    → Forgets name m held (renamed v)
renamed-Forgets name m held js ks v s found written quiet = record {
  snapshot_alone = (reopened-same v s.chain s.objects s.names).0 name ∙ found;
  with_journal =
      ap (λ (j : List Line). lookup name (load (snapshot_of v) j).index) written
      ∙ load-last name m (snapshot_of v) js ks quiet;
}

hold_cut_named-Forgets :
    (name : Text) (m : Meta) (js ks : List Line) (v : Vault)
    → IsDurable v
    → HasRoom v
    → IsShort name
    → v.journal ≡ js ++ obj_line name m ∷ ks
    → AreBeside name ks
    → Forgets name m
        (record m { lock = set_hold m.lock })
        (hold_cut_named name (some m) v.clock.floor v).1
hold_cut_named-Forgets name m js ks v d room short written quiet =
    let held = record m { lock = set_hold m.lock } in
    let u = set_object name held v in
    let s : IsSound (contents u) = record {
      chain = d.sound.chain;
      objects = insert-NodupKeys name held v.index d.sound.objects;
      names = d.sound.names;
    } in
    add_audit-then legal_hold_set (name_digest name) (sha256 name) v.clock.floor (update renamed) u
      (Forgets name m held) (name_digest-ok name short) d.sound.chain room
      (λ e f.
        renamed-Forgets name m held js ks (noted e u) (noted-IsSound e u s f)
          (held-index name held v.index) written quiet)

-- From a durable vault with room in its chain, whose journal has the line of an object with a name of
-- at most 8192 bytes, and no later one about it: where Set_Legal_Hold is cut off between the two files of its Save, the new
-- snapshot alone has the object held, and Load of both files has it as it was before the call.
pub hold_cut-forgets :
    (name : Text) (m : Meta) (js ks : List Line) (v : Vault)
    → IsDurable v
    → HasRoom v
    → IsShort name
    → lookup name v.index ≡ some m
    → v.journal ≡ js ++ obj_line name m ∷ ks
    → AreBeside name ks
    → (lookup name (load (hold_cut name v).1.snapshot []).index
        ≡ some (record m { lock = set_hold m.lock }))
      × (lookup name (load (hold_cut name v).1.snapshot (hold_cut name v).1.journal).index ≡ some m)
unfolding hold_cut
hold_cut-forgets name m js ks v d room short found written quiet =
    let cut = hold_cut_named-Forgets name m js ks v d room short written quiet in
    rw found (cut.snapshot_alone, cut.with_journal)
