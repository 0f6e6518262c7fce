-- ===== src/Vault/Lost.antt =====
-- Names that Put_Object of vault/src/dezhan-vault.adb takes and the files do not keep: the empty one,
-- and those that are too long to be hashed.
use dezhan.Base.{
  ℕ, ◌<◌, ◌++◌, [], ◌∷◌, List, Bool, false, none, some, ◌≡◌, refl, ap, ◌∙◌, err, ok, if◌then◌else◌,
  leb, length, All, arith,
}
use dezhan.Text.{Text, codes, text_eq, text_eq_refl, decimal}
use dezhan.Dict.{Dict, AllOf, lookup, insert, lookup-insert}
use dezhan.Core.Retention.{LockMode, unlocked, governance, compliance}
use dezhan.Vault.State.{
  Meta, Line, Vault, header_line, clock_line, boot_line, modes_line, vseq_line, obj_line,
  count_line, name_digest, digest_limit, add_audit, constraint_error, assertion_error,
  ingest_refusal,
}
use dezhan.Vault.Persist.{
  snapshot_of, bkt_lines, vsn_lines, ver_lines, obj_lines, a_lines, load, blank,
}
use dezhan.Vault.Objects.{put_object, placed, set_object, lock_refusal}
use dezhan.Vault.Lines.{flag, mode_pos, str_to_hex, print, object_id}
use dezhan.Vault.Replay.{apply_words, apply_text, apply_texts, load_text, texts}
use dezhan.Vault.Printed.{
  IsWord, IsSpaceless, words-spaced, nonempty-words, tail-IsSpaceless, decimal-IsWord, flag-IsWord,
  str_to_hex-IsSpaceless, hex_to_str-str_to_hex,
}
use dezhan.Vault.Readable.{IsName, IsMeta, IsDigest, IsReadable, apply_text-print}
use dezhan.Vault.Writes.{Writable, bkt_lines-All, vsn_lines-All, ver_lines-All}
use dezhan.Vault.Files.{IsDurable}
use dezhan.Core.Sha256.{sha256}

-- Reading the lines raises, whatever has been read before.
abbrev Raises : List Line → Type 0
Raises ls = (v : Vault) → apply_texts v (texts ls) ≡ err constraint_error

cons-Raises : (l : Line) (ls : List Line) → IsReadable l → Raises ls → Raises (l ∷ ls)
unfolding apply_texts
cons-Raises l ls i h v = rw (apply_text-print l v i) (h _)

append-Raises : (xs ys : List Line) → All IsReadable xs → Raises ys → Raises (xs ++ ys)
append-Raises [] ys i h = h
append-Raises (x ∷ xs) ys (i, t) h = cons-Raises x (xs ++ ys) i (append-Raises xs ys t h)

-- Behind an empty name the fields move up by one.
abbrev shifted : Meta → List Text
shifted m =
    m.id
    ∷ decimal (mode_pos m.lock.mode)
    ∷ decimal m.lock.retain_until
    ∷ decimal m.lock.created_at
    ∷ flag m.composite
    ∷ flag m.lock.legal_hold
    ∷ flag m.quarantined
    ∷ decimal m.size
    ∷ []

shifted-IsWord : (m : Meta) → IsWord m.id → All IsWord (shifted m)
shifted-IsWord m i = (
  i,
  (
    decimal-IsWord (mode_pos m.lock.mode),
    (
      decimal-IsWord m.lock.retain_until,
      (
        decimal-IsWord m.lock.created_at,
        (
          flag-IsWord m.composite,
          (flag-IsWord m.lock.legal_hold, (flag-IsWord m.quarantined, (decimal-IsWord m.size, tt))),
        ),
      ),
    ),
  ),
)

mode_object_id : (m : LockMode) → object_id (decimal (mode_pos m)) ≡ err constraint_error
unfolding object_id decimal
mode_object_id unlocked = refl
mode_object_id governance = refl
mode_object_id compliance = refl

apply_text_unnamed :
    (d : Text) (m : Meta) (v : Vault)
    → IsDigest d
    → m.id ≡ str_to_hex d
    → IsMeta m
    → apply_text v (print (obj_line [] m)) ≡ err constraint_error
unfolding apply_text apply_words print text_eq str_to_hex
apply_text_unnamed d m v s e i =
    let meta = str_to_hex m.user_meta in
    let w = shifted-IsWord m i.id.1 in
    let spaceless =
      tail-IsSpaceless (shifted m) meta w (str_to_hex-IsSpaceless m.user_meta i.user_meta) in
    let o : IsSpaceless (codes "OBJ") = (refl, (refl, (refl, tt))) in
    ap (apply_words v) (
      words-spaced (codes "OBJ" ∷ [] ∷ shifted m ++ meta ∷ []) (o, (tt, spaceless))
      ∙ ap (λ (ws : List Text). codes "OBJ" ∷ ws) (nonempty-words (shifted m) (meta ∷ []) w))
    ∙ rw (e, hex_to_str-str_to_hex d s.1, mode_object_id m.lock.mode) refl

index-Raises :
    (d : Text) (m : Meta) (index : Dict Meta) (ls : List Line)
    → IsDigest d
    → m.id ≡ str_to_hex d
    → IsMeta m
    → AllOf IsName IsMeta index
    → Raises (obj_lines (insert [] m index) ++ ls)
unfolding insert apply_texts
index-Raises d m [] ls s e i h = λ v. rw (apply_text_unnamed d m v s e i) refl
index-Raises d m (([], o) ∷ index) ls s e i (((n, b), io), h) = absurd (n refl)
index-Raises d m ((c ∷ k, o) ∷ index) ls s e i ((n, io), h) =
    cons-Raises (obj_line (c ∷ k) o) _ (n, io) (index-Raises d m index ls s e i h)

snapshot-Raises :
    (d : Text) (m : Meta) (v : Vault)
    → IsDigest d
    → m.id ≡ str_to_hex d
    → IsMeta m
    → Writable v
    → Raises (snapshot_of (set_object [] m v))
unfolding snapshot_of
snapshot-Raises d m v s e i w =
    let entries = count_line (length v.log) ∷ a_lines v.log in
    let objects = obj_lines (insert [] m v.index) ++ entries in
    let numbered = vseq_line v.ver_seq ∷ (ver_lines v.versions ++ objects) in
    let named = bkt_lines v.buckets ++ (vsn_lines v.versioned ++ numbered) in
    let modes = modes_line v.ingest_only v.sync_shut in
    let clock = clock_line v.clock.floor v.clock.sealed v.op_sealed in
    cons-Raises header_line (clock ∷ boot_line v.last_boot ∷ modes ∷ named) tt (
      cons-Raises clock (boot_line v.last_boot ∷ modes ∷ named) w.floor (
        cons-Raises (boot_line v.last_boot) (modes ∷ named) w.boot (
          cons-Raises modes named tt (
            append-Raises (bkt_lines v.buckets) (vsn_lines v.versioned ++ numbered)
              (bkt_lines-All v.buckets w.buckets)
              (append-Raises (vsn_lines v.versioned) numbered
                (vsn_lines-All v.versioned w.versioned)
                (cons-Raises (vseq_line v.ver_seq) (ver_lines v.versions ++ objects) w.ver_seq (
                  append-Raises (ver_lines v.versions) objects (ver_lines-All v.versions w.versions)
                    (index-Raises d m v.index entries s e i w.index))))))))

-- A vault that holds an object with the empty name, beside what is of a form that can be written, saves
-- a snapshot that Load does not read: it raises Constraint_Error. The object's id is the hex form of a
-- digest.
pub load_text_unnamed :
    (d : Text) (m : Meta) (v : Vault)
    → IsDigest d
    → m.id ≡ str_to_hex d
    → IsMeta m
    → Writable v
    → load_text (texts (snapshot_of (set_object [] m v))) [] ≡ err constraint_error
unfolding load_text
load_text_unnamed d m v s e i w = rw (snapshot-Raises d m v s e i w (blank [] [])) refl

name_digest_long :
    (name : Text) → digest_limit < length name → name_digest name ≡ err assertion_error
unfolding name_digest
name_digest_long name h =
    let long : leb (length name) digest_limit ≡ false = ground arith in
    ap (λ (b : Bool). if b then ok (sha256 name) else err assertion_error) long

-- Put_Object of a name of more than 8192 bytes, where nothing else is refused, raises and leaves the
-- object in memory, without an entry in the audit log; in a durable vault that had no such object, Load
-- of the files afterwards has none.
pub put_object_long_name :
    (name id : Text) (composite : Bool) (size : ℕ) (mode : LockMode) (retain_for : ℕ) (meta : Text)
    (v : Vault)
    → digest_limit < length name
    → ingest_refusal v ≡ none
    → lock_refusal mode retain_for v ≡ none
    → IsDurable v
    → lookup name v.index ≡ none
    → ((put_object name id composite size mode retain_for meta v).0 ≡ err assertion_error)
      × (lookup name (put_object name id composite size mode retain_for meta v).1.index
          ≡ some (placed id composite size mode retain_for meta v.clock.floor))
      × ((put_object name id composite size mode retain_for meta v).1.log ≡ v.log)
      × (lookup name
            (load
              (put_object name id composite size mode retain_for meta v).1.snapshot
              (put_object name id composite size mode retain_for meta v).1.journal).index
          ≡ none)
unfolding put_object add_audit
put_object_long_name name id composite size mode retain_for meta v h a b d n =
    rw (a, b, name_digest_long name h)
      (
        refl,
        lookup-insert name name _ v.index ∙ rw (text_eq_refl name) refl,
        refl,
        d.stored.index name ∙ n,
      )
