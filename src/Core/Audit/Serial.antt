-- ===== src/Core/Audit/Serial.antt =====
-- The bytes of an audit entry, as Hash_Of in trusted_core/src/dezhan-trusted_core-audit.adb lays them
-- out, read back.
use dezhan.Base.{
  ℕ, zero, suc, ◌+◌, ◌*◌, ◌^◌, ◌≤◌, ◌<◌, ◌≡◌, refl, sym, ap, ◌∙◌, List, [], ◌∷◌, ◌++◌, length, take,
  drop, arith, if◌then◌else◌, ◌==◌,
}
use dezhan.Core.Sha256.{sha256, put64, nth}
use dezhan.Core.Clock.{time_last}
use dezhan.Core.Audit.{
  AuditEvent, genesis, lock_created, retention_extended, delete_denied, delete_allowed,
  clock_anomaly, seal_engaged, legal_hold_set, legal_hold_released, object_quarantined, event_pos,
  AuditEntry, serial, hashed, natural_last, Digest,
}

-- Audit_Event'Val, where the position is one of 0 .. 9
unfoldable pub event_at : ℕ → AuditEvent
event_at n =
    if n == 0
    then genesis
    else if n == 1
    then lock_created
    else if n == 2
    then retention_extended
    else if n == 3
    then delete_denied
    else if n == 4
    then delete_allowed
    else if n == 5
    then clock_anomaly
    else if n == 6
    then seal_engaged
    else if n == 7
    then legal_hold_set
    else if n == 8
    then legal_hold_released
    else object_quarantined

pub event_at-event_pos : (k : AuditEvent) → event_at (event_pos k) ≡ k
unfolding event_at
event_at-event_pos genesis = refl
event_at-event_pos lock_created = refl
event_at-event_pos retention_extended = refl
event_at-event_pos delete_denied = refl
event_at-event_pos delete_allowed = refl
event_at-event_pos clock_anomaly = refl
event_at-event_pos seal_engaged = refl
event_at-event_pos legal_hold_set = refl
event_at-event_pos legal_hold_released = refl
event_at-event_pos object_quarantined = refl

-- The number that eight bytes stand for.
abbrev get64 : List ℕ → ℕ
get64 (a ∷ b ∷ c ∷ d ∷ e ∷ f ∷ g ∷ h ∷ rest) =
    ((((((a * 256 + b) * 256 + c) * 256 + d) * 256 + e) * 256 + f) * 256 + g) * 256 + h
get64 rest = 0

get64-put64 : (v : ℕ) (rest : List ℕ) → v < 2 ^ 64 → get64 (put64 v ++ rest) ≡ v
unfolding put64
get64-put64 v rest h = omega arith

take-append : (n : ℕ) (xs ys : List ℕ) → length xs ≡ n → take n (xs ++ ys) ≡ xs
take-append zero [] ys h = refl
take-append zero (x ∷ xs) ys h = absurd (omega arith)
take-append (suc n) [] ys h = absurd (omega arith)
take-append (suc n) (x ∷ xs) ys h = ap (λ (t : List ℕ). x ∷ t) (take-append n xs ys (omega arith))

drop-append : (n : ℕ) (xs ys : List ℕ) → length xs ≡ n → drop n (xs ++ ys) ≡ ys
drop-append zero [] ys h = refl
drop-append zero (x ∷ xs) ys h = absurd (omega arith)
drop-append (suc n) [] ys h = absurd (omega arith)
drop-append (suc n) (x ∷ xs) ys h = drop-append n xs ys (omega arith)

-- The fields of the 89 bytes, by their offsets.
abbrev pub seq_at : List ℕ → ℕ
seq_at s = get64 s

abbrev time_at : List ℕ → ℕ
time_at s = get64 (drop 8 s)

abbrev kind_at : List ℕ → AuditEvent
kind_at s = event_at (nth 16 s)

abbrev subject_at : List ℕ → Digest
subject_at s = take 32 (drop 17 s)

abbrev detail_at : List ℕ → ℕ
detail_at s = get64 (drop 32 (drop 17 s))

abbrev prev_hash_at : List ℕ → Digest
prev_hash_at s = drop 8 (drop 32 (drop 17 s))

-- An entry whose fields are in the ranges of their types.
abbrev pub IsInRange : AuditEntry → Type 0
IsInRange e =
    (e.seq ≤ natural_last) × (e.time ≤ time_last) × (e.detail ≤ time_last) × (length e.subject ≡ 32)

pub seq_at-hashed : (e : AuditEntry) → IsInRange e → seq_at (hashed e) ≡ e.seq
unfolding serial
seq_at-hashed e h = get64-put64 e.seq _ (omega arith)

-- The bytes that are hashed of an entry, read back at their offsets, give every field but the hash,
-- where the fields are in range.
pub read-hashed :
    (e : AuditEntry)
    → IsInRange e
    → (seq_at (hashed e) ≡ e.seq)
      × (time_at (hashed e) ≡ e.time)
      × (kind_at (hashed e) ≡ e.kind)
      × (subject_at (hashed e) ≡ e.subject)
      × (detail_at (hashed e) ≡ e.detail)
      × (prev_hash_at (hashed e) ≡ e.prev_hash)
unfolding serial put64
read-hashed e (hs, ht, hd, hl) = (
  get64-put64 e.seq [] (omega arith),
  get64-put64 e.time [] (omega arith),
  event_at-event_pos e.kind,
  take-append 32 e.subject _ hl,
  ap get64 (drop-append 32 e.subject _ hl) ∙ get64-put64 e.detail [] (omega arith),
  ap (drop 8) (drop-append 32 e.subject _ hl),
)

-- Entries that are in range and of which the same is hashed are the same but for the hash.
pub hashed_inj :
    (d e : AuditEntry) → IsInRange d → IsInRange e → hashed d ≡ hashed e → d.hash ≡ e.hash → d ≡ e
hashed_inj d e hd he p q =
    let a = read-hashed d hd in
    let b = read-hashed e he in
    λ i. record {
      seq = (sym a.0 ∙ (ap seq_at p ∙ b.0)) i;
      time = (sym a.1 ∙ (ap time_at p ∙ b.1)) i;
      kind = (sym a.2 ∙ (ap kind_at p ∙ b.2)) i;
      subject = (sym a.3 ∙ (ap subject_at p ∙ b.3)) i;
      detail = (sym a.4 ∙ (ap detail_at p ∙ b.4)) i;
      prev_hash = (sym a.5 ∙ (ap prev_hash_at p ∙ b.5)) i;
      hash = q i;
    }

pub length-sha256 : (msg : List ℕ) → length (sha256 msg) ≡ 32
unfolding sha256
length-sha256 msg = refl
