-- ===== src/Vault/Lines.antt =====
-- The text of persisted lines, vault/src/dezhan-vault.adb: how they are written, and Field, the hex
-- digits and Apply_Line. Of the attribute Value plain decimal numbers are modelled, which is all that
-- is written.
use dezhan.Base.{
  ℕ, zero, suc, ◌+◌, ◌-◌, ◌*◌, ◌/◌, ◌%◌, ◌++◌, [], ◌∷◌, List, Bool, true, false, ◌&&◌, Result, ok,
  err, if◌then◌else◌, ◌==◌, ltb, leb, length, take,
}
use dezhan.Text.{Text, codes, text_eq, decimal, read_decimal, is_digit}
use dezhan.Core.Retention.{LockMode, unlocked, governance, compliance}
use dezhan.Core.Audit.{
  AuditEvent, genesis, lock_created, retention_extended, delete_denied, delete_allowed,
  clock_anomaly, seal_engaged, legal_hold_set, legal_hold_released, object_quarantined, event_pos,
  natural_last,
}
use dezhan.Vault.State.{
  Line, header_line, count_line, clock_line, boot_line, modes_line, bkt_line, vsn_line, vseq_line,
  ver_line, obj_line, del_line, a_line, Fault, constraint_error,
}

-- Hex_Digits
abbrev pub hex_digit : ℕ → ℕ
hex_digit n = if ltb n 10 then 48 + n else 87 + n

-- Str_To_Hex, and To_Hex for the 32 bytes of a digest
unfoldable pub str_to_hex : Text → Text
str_to_hex [] = []
str_to_hex (c ∷ s) = hex_digit (c / 16) ∷ hex_digit (c % 16) ∷ str_to_hex s

abbrev pub flag : Bool → Text
flag b = if b then codes "1" else codes "0"

-- Lock_Mode'Pos
abbrev pub mode_pos : LockMode → ℕ
mode_pos unlocked = 0
mode_pos governance = 1
mode_pos compliance = 2

-- The words with a space between each two. The image of a number starts with a space of its own.
unfoldable pub spaced : List Text → Text
spaced [] = []
spaced (w ∷ []) = w
spaced (w ∷ u ∷ ws) = w ++ b' ' ∷ spaced (u ∷ ws)

abbrev pub line_words : Line → List Text
line_words header_line = codes "DEZHAN_VAULT" ∷ codes "1" ∷ []
line_words (count_line n) = codes "AUDIT" ∷ decimal n ∷ []
line_words (clock_line floor sealed op_sealed) =
    codes "CLOCK" ∷ [] ∷ decimal floor ∷ flag sealed ∷ flag op_sealed ∷ []
line_words (boot_line b) = codes "BOOT" ∷ b ∷ []
line_words (modes_line ingest_only sync_shut) =
    codes "MODES" ∷ flag ingest_only ∷ flag sync_shut ∷ []
line_words (bkt_line k lock) = codes "BKT" ∷ str_to_hex k ∷ flag lock ∷ []
line_words (vsn_line k on) = codes "VSN" ∷ str_to_hex k ∷ flag on ∷ []
line_words (vseq_line n) = codes "VSEQ" ∷ decimal n ∷ []
line_words (ver_line k e) =
    codes "VER"
    ∷ str_to_hex k
    ∷ e.vid
    ∷ e.id
    ∷ decimal e.size
    ∷ flag e.deleted
    ∷ str_to_hex e.meta
    ∷ []
line_words (obj_line k m) =
    codes "OBJ"
    ∷ str_to_hex k
    ∷ m.id
    ∷ decimal (mode_pos m.lock.mode)
    ∷ decimal m.lock.retain_until
    ∷ decimal m.lock.created_at
    ∷ flag m.composite
    ∷ flag m.lock.legal_hold
    ∷ flag m.quarantined
    ∷ decimal m.size
    ∷ str_to_hex m.user_meta
    ∷ []
line_words (del_line k) = codes "DEL" ∷ str_to_hex k ∷ []
line_words (a_line e) =
    codes "A"
    ∷ decimal e.seq
    ∷ decimal e.time
    ∷ decimal (event_pos e.kind)
    ∷ str_to_hex e.subject
    ∷ decimal e.detail
    ∷ str_to_hex e.prev_hash
    ∷ str_to_hex e.hash
    ∷ []

-- Core_Clock, Core_Boot, Core_Modes, Core_Vseq, Bkt_Line, Vsn_Line, Ver_Line, Obj_Line, J_Del, A_Line
unfoldable pub print : Line → Text
unfolding spaced str_to_hex decimal
print l = spaced (line_words l)

-- The maximal runs without a space; c stands in front of t, whose words are the rest.
abbrev pub push : ℕ → List Text → List Text
push c [] = (c ∷ []) ∷ []
push c (w ∷ ws) = (c ∷ w) ∷ ws

abbrev pub glue : ℕ → Text → List Text → List Text
glue c [] rest = (c ∷ []) ∷ rest
glue c (d ∷ t) rest = if d == b' ' then (c ∷ []) ∷ rest else push c rest

unfoldable pub words : Text → List Text
words [] = []
words (c ∷ t) = let rest = words t in if c == b' ' then rest else glue c t rest

-- Field, by the words of the line
abbrev pub field : List Text → ℕ → Text
field [] n = []
field (w ∷ ws) zero = []
field (w ∷ ws) (suc zero) = w
field (w ∷ ws) (suc (suc n)) = field ws (suc n)

abbrev pub all_digits : Text → Bool
all_digits [] = true
all_digits (c ∷ s) = is_digit c && all_digits s

abbrev pub is_numeral : Text → Bool
is_numeral [] = false
is_numeral (c ∷ s) = all_digits (c ∷ s)

-- Natural'Value, Integer'Value and Trusted_Time'Value, by the last number of the type
unfoldable pub value : ℕ → Text → Result Fault ℕ
unfolding read_decimal
value last t =
    if is_numeral t && leb (read_decimal t) last then ok (read_decimal t) else err constraint_error

abbrev pub then_ok : {A B : Type 0} → Result Fault A → (A → Result Fault B) → Result Fault B
then_ok (ok a) f = f a
then_ok (err e) f = err e

-- Nibble is a Natural.
abbrev pub nibble : ℕ → Result Fault ℕ
nibble c =
    if leb 48 c && leb c 57
    then ok (c - 48)
    else if ltb (c + 10) 97
    then err constraint_error
    else ok (c + 10 - 97)

abbrev pub byte_of : ℕ → ℕ → Result Fault ℕ
byte_of c d = then_ok (nibble c) (λ a.
    then_ok (nibble d)
      (λ b. if leb (a * 16 + b) 255 then ok (a * 16 + b) else err constraint_error))

-- Hex_To_Str
unfoldable pub hex_to_str : Text → Result Fault Text
hex_to_str [] = ok []
hex_to_str (c ∷ []) = ok []
hex_to_str (c ∷ d ∷ s) = then_ok (byte_of c d) (λ b. then_ok (hex_to_str s) (λ t. ok (b ∷ t)))

-- From_Hex
unfoldable pub from_hex : Text → Result Fault Text
unfolding hex_to_str
from_hex s = if ltb (length s) 64 then err constraint_error else hex_to_str (take 64 s)

-- Object_Id (…)
unfoldable pub object_id : Text → Result Fault Text
object_id s = if length s == 64 then ok s else err constraint_error

-- Lock_Mode'Val
unfoldable pub mode_val : ℕ → Result Fault LockMode
mode_val zero = ok unlocked
mode_val (suc zero) = ok governance
mode_val (suc (suc zero)) = ok compliance
mode_val (suc (suc (suc n))) = err constraint_error

-- Audit_Event'Val
unfoldable pub event_val : ℕ → Result Fault AuditEvent
event_val n =
    if n == 0
    then ok genesis
    else if n == 1
    then ok lock_created
    else if n == 2
    then ok retention_extended
    else if n == 3
    then ok delete_denied
    else if n == 4
    then ok delete_allowed
    else if n == 5
    then ok clock_anomaly
    else if n == 6
    then ok seal_engaged
    else if n == 7
    then ok legal_hold_set
    else if n == 8
    then ok legal_hold_released
    else if n == 9
    then ok object_quarantined
    else err constraint_error

unfoldable pub is_on : Text → Bool
unfolding text_eq
is_on t = text_eq t (codes "1")

unfoldable pub size_value : Text → Result Fault ℕ
unfolding value
size_value [] = ok 0
size_value (c ∷ s) = value natural_last (c ∷ s)

unfoldable pub is_off : Text → Bool
unfolding text_eq
is_off t = text_eq t (codes "0")
