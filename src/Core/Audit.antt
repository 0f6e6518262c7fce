-- ===== src/Core/Audit.antt =====
-- The audit chain, trusted_core/src/dezhan-trusted_core-audit.adb. A digest is a list of bytes.
pub mod Serial
pub mod Chains
use dezhan.Base.{
  ℕ, zero, suc, ◌+◌, ◌-◌, ◌^◌, ◌++◌, [], ◌∷◌, List, Bool, true, false, ◌&&◌, if◌then◌else◌, ◌==◌,
}
use dezhan.Text.{text_eq}
use dezhan.Core.Sha256.{sha256, put64, zeros}

abbrev pub Digest : Type 0
Digest = List ℕ

pub data AuditEvent : Type 0 where
  genesis lock_created retention_extended delete_denied delete_allowed : AuditEvent
  clock_anomaly seal_engaged legal_hold_set legal_hold_released object_quarantined : AuditEvent

-- Audit_Event'Pos
abbrev pub event_pos : AuditEvent → ℕ
event_pos genesis = 0
event_pos lock_created = 1
event_pos retention_extended = 2
event_pos delete_denied = 3
event_pos delete_allowed = 4
event_pos clock_anomaly = 5
event_pos seal_engaged = 6
event_pos legal_hold_set = 7
event_pos legal_hold_released = 8
event_pos object_quarantined = 9

abbrev pub zero_digest : Digest
zero_digest = zeros 32

-- Natural'Last
abbrev pub natural_last : ℕ
natural_last = 2 ^ 31 - 1

pub record AuditEntry : Type 0 where
  pub seq : ℕ
  pub time : ℕ
  pub kind : AuditEvent
  pub subject : Digest
  pub detail : ℕ
  pub prev_hash : Digest
  pub hash : Digest

-- the 89 bytes that are hashed
unfoldable pub serial : ℕ → ℕ → AuditEvent → Digest → ℕ → Digest → List ℕ
serial seq time kind subject detail prev_hash =
    put64 seq ++ (put64 time ++ event_pos kind ∷ (subject ++ (put64 detail ++ prev_hash)))

unfoldable pub hash_of : ℕ → ℕ → AuditEvent → Digest → ℕ → Digest → Digest
unfolding serial
hash_of seq time kind subject detail prev_hash =
    sha256 (serial seq time kind subject detail prev_hash)

-- what is hashed of an entry: all of it but the hash
abbrev pub hashed : AuditEntry → List ℕ
hashed e = serial e.seq e.time e.kind e.subject e.detail e.prev_hash

abbrev pub compute_hash : AuditEntry → Digest
compute_hash e = hash_of e.seq e.time e.kind e.subject e.detail e.prev_hash

unfoldable pub self_consistent : AuditEntry → Bool
unfolding text_eq
self_consistent e = text_eq e.hash (compute_hash e)

unfoldable pub is_genesis : AuditEntry → Bool
unfolding text_eq self_consistent
is_genesis e =
    (e.seq == 0)
    && ((event_pos e.kind == 0) && (text_eq e.prev_hash zero_digest && self_consistent e))

-- e follows p
unfoldable pub links_to : AuditEntry → AuditEntry → Bool
unfolding text_eq self_consistent
links_to e p = (e.seq == p.seq + 1) && (text_eq e.prev_hash p.hash && self_consistent e)

-- E.Hash := Compute_Hash (E)
abbrev pub with_hash : AuditEntry → AuditEntry
with_hash e = record e { hash = compute_hash e }

unfoldable pub genesis_entry : ℕ → AuditEntry
genesis_entry time = with_hash (record {
  seq = 0;
  time = time;
  kind = genesis;
  subject = zero_digest;
  detail = 0;
  prev_hash = zero_digest;
  hash = zero_digest;
})

-- The entry after `prev`. Its number is one more, as long as `prev.seq` is below Natural'Last.
unfoldable pub append : AuditEntry → ℕ → AuditEvent → Digest → ℕ → AuditEntry
append prev time kind subject detail = with_hash (record {
  seq = prev.seq + 1;
  time = time;
  kind = kind;
  subject = subject;
  detail = detail;
  prev_hash = prev.hash;
  hash = zero_digest;
})

-- the loop over the entries after p
unfoldable pub links : AuditEntry → List AuditEntry → Bool
unfolding links_to
links p [] = true
links p (e ∷ es) =
    if p.seq == natural_last then false else if links_to e p then links e es else false

unfoldable pub verify_chain : List AuditEntry → Bool
unfolding is_genesis links
verify_chain [] = false
verify_chain (e ∷ es) = if is_genesis e then links e es else false
