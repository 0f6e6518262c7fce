-- ===== src/Vault/Readable.antt =====
-- Lines whose text is read back as it was written, vault/src/dezhan-vault.adb.
use dezhan.Base.{
  ℕ, ◌≤◌, [], ◌∷◌, List, Bool, false, ◌≡◌, ◌≢◌, refl, ap, ◌∙◌, ok, ◌==◌, length, All, Bool-cases,
  inl, inr, arith, ◌||◌,
}
use dezhan.Text.{Text, codes, text_eq, decimal}
use dezhan.Core.Clock.{time_last}
use dezhan.Core.Audit.{
  AuditEvent, genesis, lock_created, retention_extended, delete_denied, delete_allowed,
  clock_anomaly, seal_engaged, legal_hold_set, legal_hold_released, object_quarantined, event_pos,
  natural_last, Digest, AuditEntry,
}
use dezhan.Core.Retention.{LockMode, unlocked, governance, compliance}
use dezhan.Vault.State.{
  Meta, VersionEntry, Line, header_line, count_line, clock_line, boot_line, modes_line, bkt_line,
  vsn_line, vseq_line, ver_line, obj_line, del_line, a_line, Vault,
}
use dezhan.Vault.Persist.{apply_line, apply_lines}
use dezhan.Vault.Lines.{field, print, line_words, spaced, words, str_to_hex, flag, mode_pos}
use dezhan.Vault.Replay.{read_a, apply_words, apply_text, apply_texts, texts}
use dezhan.Vault.Printed.{
  IsSpaceless, IsWord, IsBytes, nonempty, decimal-IsWord, flag-IsWord, str_to_hex-IsWord,
  str_to_hex-IsSpaceless, value-decimal, hex_to_str-str_to_hex, from_hex-str_to_hex, object_id-ok,
  is_on-flag, is_off-flag, mode_val-mode_pos, event_val-event_pos, size_value-decimal, words_tail,
  words_all, words_clock, tail-IsSpaceless,
}

-- A name that a line can carry: not empty, of bytes.
abbrev pub IsName : Text → Type 0
IsName k = (k ≢ []) × IsBytes k

-- The id of an object: 64 characters and no space.
abbrev pub IsId : Text → Type 0
IsId id = (length id ≡ 64) × IsWord id

abbrev pub IsDigest : Digest → Type 0
IsDigest d = (length d ≡ 32) × IsBytes d

pub record IsMeta (m : Meta) : Type 0 where
  pub id : IsId m.id
  pub until : m.lock.retain_until ≤ time_last
  pub at : m.lock.created_at ≤ time_last
  pub size : m.size ≤ natural_last
  pub user_meta : IsBytes m.user_meta

pub record IsVersion (e : VersionEntry) : Type 0 where
  pub vid : IsWord e.vid
  pub id : IsId e.id
  pub size : e.size ≤ natural_last
  pub meta : IsBytes e.meta

pub record IsEntry (e : AuditEntry) : Type 0 where
  pub seq : e.seq ≤ natural_last
  pub time : e.time ≤ time_last
  pub detail : e.detail ≤ time_last
  pub subject : IsDigest e.subject
  pub prev_hash : IsDigest e.prev_hash
  pub hash : IsDigest e.hash

-- What can be written so that it is read back.
abbrev pub IsReadable : Line → Type 0
IsReadable header_line = Unit
IsReadable (count_line n) = Unit
IsReadable (clock_line floor s o) = floor ≤ time_last
IsReadable (boot_line b) = IsSpaceless b
IsReadable (modes_line a b) = Unit
IsReadable (bkt_line k b) = IsName k
IsReadable (vsn_line k b) = IsName k
IsReadable (vseq_line n) = n ≤ natural_last
IsReadable (ver_line k e) = IsName k × IsVersion e
IsReadable (obj_line k m) = IsName k × IsMeta m
IsReadable (del_line k) = IsName k
IsReadable (a_line e) = IsEntry e

digest-IsWord : (d : Digest) → IsDigest d → IsWord (str_to_hex d)
digest-IsWord d (n, h) = str_to_hex-IsWord d (long d n) h
  where
    long : (d : Digest) → length d ≡ 32 → d ≢ []
    long [] n = grind arith
    long (c ∷ d) n = cc

mode_pos-le : (m : LockMode) → mode_pos m ≤ natural_last
mode_pos-le unlocked = omega arith
mode_pos-le governance = omega arith
mode_pos-le compliance = omega arith

event_pos-le : (k : AuditEvent) → event_pos k ≤ natural_last
event_pos-le genesis = omega arith
event_pos-le lock_created = omega arith
event_pos-le retention_extended = omega arith
event_pos-le delete_denied = omega arith
event_pos-le delete_allowed = omega arith
event_pos-le clock_anomaly = omega arith
event_pos-le seal_engaged = omega arith
event_pos-le legal_hold_set = omega arith
event_pos-le legal_hold_released = omega arith
event_pos-le object_quarantined = omega arith

-- The tags are words.
abbrev has_space : Text → Bool
has_space [] = false
has_space (c ∷ t) = (c == b' ') || has_space t

text-IsSpaceless : (t : Text) → has_space t ≡ false → IsSpaceless t
text-IsSpaceless [] h = tt
text-IsSpaceless (c ∷ t) h =
    let (k, r) = neither (c == b' ') (has_space t) h in (k, text-IsSpaceless t r)
  where
    neither : (b c : Bool) → (b || c) ≡ false → (b ≡ false) × (c ≡ false)
    neither b c h = ground arith

tag : (c : ℕ) (t : Text) → has_space (c ∷ t) ≡ false → IsWord (c ∷ t)
tag c t h = (cc, text-IsSpaceless (c ∷ t) h)

read :
    (v : Vault) (l : Line) {ws : List Text}
    → words (spaced (line_words l)) ≡ ws
    → apply_text v (print l) ≡ apply_words v ws
unfolding apply_text print
read v l e = ap (apply_words v) e

-- The last word may be empty; then the field is missing, which reads as empty.
last_field : (m : Text) → field (nonempty (m ∷ [])) 1 ≡ m
last_field [] = refl
last_field (c ∷ m) = refl

apply_boot :
    (b : Text) (v : Vault)
    → IsSpaceless b
    → apply_text v (print (boot_line b)) ≡ ok (apply_line v (boot_line b))
unfolding apply_words apply_line text_eq
apply_boot b v h =
    let ws = codes "BOOT" ∷ [] in
    let words : All IsWord ws = (tag _ _ refl, tt) in
    read v (boot_line b) (words_tail ws b words (tail-IsSpaceless ws b words h))
    ∙ rw (last_field b) refl

apply_ver :
    (k : Text) (e : VersionEntry) (v : Vault)
    → IsName k
    → IsVersion e
    → apply_text v (print (ver_line k e)) ≡ ok (apply_line v (ver_line k e))
unfolding apply_words apply_line text_eq
apply_ver k e v (n, h) i =
    let ws = codes "VER" ∷ str_to_hex k ∷ e.vid ∷ e.id ∷ decimal e.size ∷ flag e.deleted ∷ [] in
    let words : All IsWord ws = (
      tag _ _ refl,
      (
        str_to_hex-IsWord k n h,
        (i.vid, (i.id.1, (decimal-IsWord e.size, (flag-IsWord e.deleted, tt)))),
      ),
    ) in
    let meta = str_to_hex e.meta in
    read v (ver_line k e) (
      words_tail ws meta words
        (tail-IsSpaceless ws meta words (str_to_hex-IsSpaceless e.meta i.meta)))
    ∙ rw
        (
          hex_to_str-str_to_hex k h,
          object_id-ok e.id i.id.0,
          value-decimal natural_last e.size i.size,
          last_field meta,
          hex_to_str-str_to_hex e.meta i.meta,
          is_on-flag e.deleted,
        )
        refl

apply_obj :
    (k : Text) (m : Meta) (v : Vault)
    → IsName k
    → IsMeta m
    → apply_text v (print (obj_line k m)) ≡ ok (apply_line v (obj_line k m))
unfolding apply_words apply_line text_eq
apply_obj k m v (n, h) i =
    let ws =
      codes "OBJ"
      ∷ str_to_hex k
      ∷ m.id
      ∷ decimal (mode_pos m.lock.mode)
      ∷ decimal m.lock.retain_until
      ∷ decimal m.lock.created_at
      ∷ flag m.composite
      ∷ flag m.lock.legal_hold
      ∷ flag m.quarantined
      ∷ decimal m.size
      ∷ [] in
    let words : All IsWord ws = (
      tag _ _ refl,
      (
        str_to_hex-IsWord k n h,
        (
          i.id.1,
          (
            decimal-IsWord (mode_pos m.lock.mode),
            (
              decimal-IsWord m.lock.retain_until,
              (
                decimal-IsWord m.lock.created_at,
                (
                  flag-IsWord m.composite,
                  (
                    flag-IsWord m.lock.legal_hold,
                    (flag-IsWord m.quarantined, (decimal-IsWord m.size, tt)),
                  ),
                ),
              ),
            ),
          ),
        ),
      ),
    ) in
    let meta = str_to_hex m.user_meta in
    read v (obj_line k m) (
      words_tail ws meta words
        (tail-IsSpaceless ws meta words (str_to_hex-IsSpaceless m.user_meta i.user_meta)))
    ∙ rw
        (
          hex_to_str-str_to_hex k h,
          object_id-ok m.id i.id.0,
          value-decimal natural_last (mode_pos m.lock.mode) (mode_pos-le m.lock.mode),
          mode_val-mode_pos m.lock.mode,
          value-decimal time_last m.lock.retain_until i.until,
          value-decimal time_last m.lock.created_at i.at,
          size_value-decimal m.size i.size,
          last_field meta,
          hex_to_str-str_to_hex m.user_meta i.user_meta,
          is_on-flag m.composite,
          is_on-flag m.lock.legal_hold,
          is_on-flag m.quarantined,
        )
        refl

read_a-print :
    (e : AuditEntry) (v : Vault)
    → IsEntry e
    → read_a v (line_words (a_line e)) ≡ ok (apply_line v (a_line e))
unfolding apply_line
read_a-print e v i = elim (Bool-cases (e.seq == length v.log)) [
  | inl b ↦
      rw (value-decimal natural_last e.seq i.seq, b)
        (rw
          (
            value-decimal time_last e.time i.time,
            value-decimal natural_last (event_pos e.kind) (event_pos-le e.kind),
            event_val-event_pos e.kind,
            from_hex-str_to_hex e.subject i.subject.0 i.subject.1,
            value-decimal time_last e.detail i.detail,
            from_hex-str_to_hex e.prev_hash i.prev_hash.0 i.prev_hash.1,
            from_hex-str_to_hex e.hash i.hash.0 i.hash.1,
          )
          refl)
  | inr b ↦ rw (value-decimal natural_last e.seq i.seq, b) refl
]

apply_a :
    (e : AuditEntry) (v : Vault)
    → IsEntry e
    → apply_text v (print (a_line e)) ≡ ok (apply_line v (a_line e))
unfolding apply_words text_eq
apply_a e v i =
    read v (a_line e) (
      words_all (line_words (a_line e)) (
        tag _ _ refl,
        (
          decimal-IsWord e.seq,
          (
            decimal-IsWord e.time,
            (
              decimal-IsWord (event_pos e.kind),
              (
                digest-IsWord e.subject i.subject,
                (
                  decimal-IsWord e.detail,
                  (digest-IsWord e.prev_hash i.prev_hash, (digest-IsWord e.hash i.hash, tt)),
                ),
              ),
            ),
          ),
        ),
      ))
    ∙ read_a-print e v i

pub apply_text-print :
    (l : Line) (v : Vault) → IsReadable l → apply_text v (print l) ≡ ok (apply_line v l)
unfolding apply_words apply_line text_eq
apply_text-print header_line v h =
    read v header_line (words_all (line_words header_line) (tag _ _ refl, (tag _ _ refl, tt)))
apply_text-print (count_line n) v h =
    read v (count_line n)
      (words_all (line_words (count_line n)) (tag _ _ refl, (decimal-IsWord n, tt)))
apply_text-print (clock_line floor a b) v h =
    read v (clock_line floor a b) (
      words_clock (codes "CLOCK") (decimal floor ∷ flag a ∷ flag b ∷ []) (tag _ _ refl)
        (decimal-IsWord floor, (flag-IsWord a, (flag-IsWord b, tt))))
    ∙ rw (value-decimal time_last floor h, is_on-flag a, is_on-flag b) refl
apply_text-print (boot_line b) v h = apply_boot b v h
apply_text-print (modes_line a b) v h =
    read v (modes_line a b)
      (words_all (line_words (modes_line a b)) (tag _ _ refl, (flag-IsWord a, (flag-IsWord b, tt))))
    ∙ rw (is_on-flag a, is_on-flag b) refl
apply_text-print (bkt_line k b) v (n, h) =
    read v (bkt_line k b) (
      words_all (line_words (bkt_line k b))
        (tag _ _ refl, (str_to_hex-IsWord k n h, (flag-IsWord b, tt))))
    ∙ rw (hex_to_str-str_to_hex k h, is_on-flag b) refl
apply_text-print (vsn_line k b) v (n, h) =
    read v (vsn_line k b) (
      words_all (line_words (vsn_line k b))
        (tag _ _ refl, (str_to_hex-IsWord k n h, (flag-IsWord b, tt))))
    ∙ rw (hex_to_str-str_to_hex k h, is_off-flag b) refl
apply_text-print (vseq_line n) v h =
    read v (vseq_line n)
      (words_all (line_words (vseq_line n)) (tag _ _ refl, (decimal-IsWord n, tt)))
    ∙ rw (value-decimal natural_last n h) refl
apply_text-print (ver_line k e) v (n, h) = apply_ver k e v n h
apply_text-print (obj_line k m) v (n, h) = apply_obj k m v n h
apply_text-print (del_line k) v (n, h) =
    read v (del_line k)
      (words_all (line_words (del_line k)) (tag _ _ refl, (str_to_hex-IsWord k n h, tt)))
    ∙ rw (hex_to_str-str_to_hex k h) refl
apply_text-print (a_line e) v h = apply_a e v h

-- All the lines, one after the other.
pub apply_texts-texts :
    (ls : List Line) (v : Vault)
    → All IsReadable ls
    → apply_texts v (texts ls) ≡ ok (apply_lines v ls)
unfolding apply_texts apply_lines
apply_texts-texts [] v h = refl
apply_texts-texts (l ∷ ls) v (h, t) =
    rw (apply_text-print l v h) (apply_texts-texts ls (apply_line v l) t)
