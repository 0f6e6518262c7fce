-- ===== src/Vault/Stored.antt =====
-- What Load of vault/src/dezhan-vault.adb makes of the text of the files.
use dezhan.Base.{
  suc, ◌+◌, [], ◌∷◌, List, true, ◌≡◌, refl, ap, ◌∙◌, ok, ◌==◌, length, All, sym, Bool-cases, inl,
  inr,
}
use dezhan.Text.{Text}
use dezhan.Dict.{lookup, NodupKeys}
use dezhan.Core.Audit.{verify_chain}
use dezhan.Vault.State.{
  Line, header_line, count_line, clock_line, boot_line, modes_line, bkt_line, vsn_line, vseq_line,
  ver_line, obj_line, del_line, a_line, Vault,
}
use dezhan.Vault.Persist.{snapshot_of, apply_line, apply_lines, blank, load}
use dezhan.Vault.Restart.{reopened-same}
use dezhan.Vault.Replay.{load_text, texts}
use dezhan.Vault.Readable.{IsReadable, apply_texts-texts}
use dezhan.Vault.Writes.{Writable, snapshot_of-All}

-- The state beside other files.
abbrev pub with_files : List Line → List Line → Vault → Vault
with_files s j v = record v { snapshot = s; journal = j }

apply_line-files :
    (s j : List Line) (v : Vault) (l : Line)
    → apply_line (with_files s j v) l ≡ with_files s j (apply_line v l)
unfolding apply_line
apply_line-files s j v header_line = refl
apply_line-files s j v (count_line n) = refl
apply_line-files s j v (clock_line f a b) = refl
apply_line-files s j v (boot_line b) = refl
apply_line-files s j v (modes_line a b) = refl
apply_line-files s j v (bkt_line k b) = refl
apply_line-files s j v (vsn_line k b) = refl
apply_line-files s j v (vseq_line n) = refl
apply_line-files s j v (ver_line k e) = refl
apply_line-files s j v (obj_line k m) = refl
apply_line-files s j v (del_line k) = refl
apply_line-files s j v (a_line e) = elim (Bool-cases (e.seq == length v.log)) [
  | inl h ↦ simp h refl
  | inr h ↦ simp h refl
]

apply_lines-files :
    (s j ls : List Line) (v : Vault)
    → apply_lines (with_files s j v) ls ≡ with_files s j (apply_lines v ls)
unfolding apply_lines
apply_lines-files s j [] v = refl
apply_lines-files s j (l ∷ ls) v =
    ap (λ (w : Vault). apply_lines w ls) (apply_line-files s j v l)
    ∙ apply_lines-files s j ls (apply_line v l)

length-texts : (ls : List Line) → length (texts ls) ≡ length ls
length-texts [] = refl
length-texts (l ∷ ls) = ap suc (length-texts ls)

-- What is read, from a state that knows no files.
abbrev counted : List Line → Vault → Vault
counted j v = record v { jrnl_count = v.jrnl_count + length j }

abbrev pub loaded : List Line → List Line → Vault
loaded s j = counted j (apply_lines (apply_lines (blank [] []) s) j)

pub load-files : (s j : List Line) → load s j ≡ with_files s j (loaded s j)
unfolding load
load-files s j =
    ap (λ (w : Vault). counted j (apply_lines w j)) (apply_lines-files s j s (blank [] []))
    ∙ ap (counted j) (apply_lines-files s j j (apply_lines (blank [] []) s))

-- The text of lines that can be read is loaded as the lines are.
pub load_text-texts :
    (s j : List Line)
    → All IsReadable s
    → All IsReadable j
    → load_text (texts s) (texts j) ≡ ok (loaded s j)
unfolding load_text
load_text-texts s j hs hj =
    let v = apply_lines (blank [] []) s in
    rw (apply_texts-texts s (blank [] []) hs, apply_texts-texts j v hj, length-texts j) refl

-- The text that Save writes of a vault is loaded without an exception, and what is loaded has the
-- same objects under the same locks, the same buckets with the same lock flags, the same audit chain,
-- trusted time, seals and modes, where names are not empty, ids, numbers and digests have the form and
-- range of their types, the chain verifies and no name stands twice.
pub reopened_text-same :
    (v : Vault)
    → Writable v
    → verify_chain v.log ≡ true
    → NodupKeys v.index
    → NodupKeys v.buckets
    → (r : Vault) × (load_text (texts (snapshot_of v)) [] ≡ ok r)
      × ((name : Text) → lookup name r.index ≡ lookup name v.index)
      × ((name : Text) → lookup name r.buckets ≡ lookup name v.buckets)
      × (r.log ≡ v.log)
      × (r.clock.floor ≡ v.clock.floor)
      × (r.clock.sealed ≡ v.clock.sealed)
      × (r.op_sealed ≡ v.op_sealed)
      × (r.ingest_only ≡ v.ingest_only)
      × (r.sync_shut ≡ v.sync_shut)
reopened_text-same v w h di db =
    let (index, buckets, log, floor, clock_seal, op_sealed, ingest_only, sync_shut) =
      reopened-same v h di db in
    let s = snapshot_of v in
    let e = load-files s [] in
    (
      loaded s [],
      load_text-texts s [] (snapshot_of-All v w) tt,
      λ name. ap (λ (r : Vault). lookup name r.index) (sym e) ∙ index name,
      λ name. ap (λ (r : Vault). lookup name r.buckets) (sym e) ∙ buckets name,
      ap (λ (r : Vault). r.log) (sym e) ∙ log,
      ap (λ (r : Vault). r.clock.floor) (sym e) ∙ floor,
      ap (λ (r : Vault). r.clock.sealed) (sym e) ∙ clock_seal,
      ap (λ (r : Vault). r.op_sealed) (sym e) ∙ op_sealed,
      ap (λ (r : Vault). r.ingest_only) (sym e) ∙ ingest_only,
      ap (λ (r : Vault). r.sync_shut) (sym e) ∙ sync_shut,
    )
