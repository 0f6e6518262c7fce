-- ===== src/Vault/Replay.antt =====
-- Reading persisted lines, vault/src/dezhan-vault.adb: Apply_Line, Load and Open on the text of
-- the lines.
use dezhan.Base.{
  Option, none, some, ℕ, ◌+◌, ◌++◌, [], ◌∷◌, List, false, not, Result, ok, if◌then◌else◌, ◌==◌,
  length,
}
use dezhan.Text.{Text, codes, text_eq}
use dezhan.Dict.{insert, remove}
use dezhan.Core.Clock.{no_anomaly, time_last}
use dezhan.Core.Audit.{natural_last}
use dezhan.Vault.State.{Line, Vault, Fault}
use dezhan.Vault.Persist.{add_version, blank, new_vault}
use dezhan.Vault.Lines.{
  print, words, field, value, then_ok, hex_to_str, from_hex, object_id, mode_val, event_val, is_on,
  is_off, size_value,
}

abbrev pub read_clock : Vault → List Text → Result Fault Vault
read_clock v ws = then_ok (value time_last (field ws 2)) (λ floor. ok (record v {
  clock = record {
    floor = floor;
    last_mono = 0;
    last_real = 0;
    anomaly = no_anomaly;
    sealed = is_on (field ws 3);
  };
  op_sealed = is_on (field ws 4);
  started = false;
}))

abbrev pub read_bkt : Vault → List Text → Result Fault Vault
read_bkt v ws =
    then_ok (hex_to_str (field ws 2))
      (λ k. ok (record v { buckets = insert k (is_on (field ws 3)) v.buckets }))

-- no flag means enabled
abbrev pub read_vsn : Vault → List Text → Result Fault Vault
read_vsn v ws =
    then_ok (hex_to_str (field ws 2))
      (λ k. ok (record v { versioned = insert k (not (is_off (field ws 3))) v.versioned }))

abbrev pub read_vseq : Vault → List Text → Result Fault Vault
read_vseq v ws = then_ok (value natural_last (field ws 2)) (λ n. ok (record v { ver_seq = n }))

abbrev pub read_ver : Vault → List Text → Result Fault Vault
read_ver v ws = then_ok (hex_to_str (field ws 2)) (λ k. then_ok (object_id (field ws 4)) (λ id.
    then_ok (value natural_last (field ws 5)) (λ size. then_ok (hex_to_str (field ws 7)) (λ meta.
      ok (record v {
        versions =
            add_version k
              (record {
                vid = field ws 3;
                id = id;
                size = size;
                meta = meta;
                deleted = is_on (field ws 6);
              })
              v.versions;
      })))))

abbrev pub read_obj : Vault → List Text → Result Fault Vault
read_obj v ws = then_ok (hex_to_str (field ws 2)) (λ k. then_ok (object_id (field ws 3)) (λ id.
    then_ok (value natural_last (field ws 4)) (λ m. then_ok (mode_val m) (λ mode.
      then_ok (value time_last (field ws 5)) (λ until. then_ok (value time_last (field ws 6)) (λ at.
        then_ok (size_value (field ws 10)) (λ size. then_ok (hex_to_str (field ws 11)) (λ meta.
          ok (record v {
            index =
                insert k
                  (record {
                    id = id;
                    lock = record {
                      mode = mode;
                      retain_until = until;
                      created_at = at;
                      legal_hold = is_on (field ws 8);
                    };
                    composite = is_on (field ws 7);
                    quarantined = is_on (field ws 9);
                    size = size;
                    user_meta = meta;
                  })
                  v.index;
          })))))))))

abbrev pub read_del : Vault → List Text → Result Fault Vault
read_del v ws = then_ok (hex_to_str (field ws 2)) (λ k. ok (record v { index = remove k v.index }))

-- the entry, if it is the next one
abbrev pub read_entry : Vault → List Text → ℕ → Result Fault Vault
read_entry v ws seq = then_ok (value time_last (field ws 3)) (λ time.
    then_ok (value natural_last (field ws 4)) (λ k. then_ok (event_val k) (λ kind.
      then_ok (from_hex (field ws 5)) (λ subject. then_ok (value time_last (field ws 6)) (λ detail.
        then_ok (from_hex (field ws 7)) (λ prev_hash. then_ok (from_hex (field ws 8)) (λ hash.
          ok (record v {
            log =
                v.log
                ++ record {
                  seq = seq;
                  time = time;
                  kind = kind;
                  subject = subject;
                  detail = detail;
                  prev_hash = prev_hash;
                  hash = hash;
                }
                  ∷ [];
          }))))))))

abbrev pub read_a : Vault → List Text → Result Fault Vault
read_a v ws =
    then_ok (value natural_last (field ws 2))
      (λ seq. if seq == length v.log then read_entry v ws seq else ok v)

-- Apply_Line, by the tag of the line. No line with the tag BKD is written.
unfoldable pub apply_words : Vault → List Text → Result Fault Vault
unfolding text_eq insert remove add_version value hex_to_str from_hex object_id mode_val event_val
    is_on is_off size_value
apply_words v ws =
    let tag = field ws 1 in
    if text_eq tag (codes "CLOCK")
    then read_clock v ws
    else if text_eq tag (codes "BOOT")
    then ok (record v { last_boot = field ws 2 })
    else if text_eq tag (codes "MODES")
    then ok (record v { ingest_only = is_on (field ws 2); sync_shut = is_on (field ws 3) })
    else if text_eq tag (codes "BKT")
    then read_bkt v ws
    else if text_eq tag (codes "BKD")
    then then_ok (hex_to_str (field ws 2)) (λ k. ok (record v { buckets = remove k v.buckets }))
    else if text_eq tag (codes "VSN")
    then read_vsn v ws
    else if text_eq tag (codes "VSEQ")
    then read_vseq v ws
    else if text_eq tag (codes "VER")
    then read_ver v ws
    else if text_eq tag (codes "OBJ")
    then read_obj v ws
    else if text_eq tag (codes "DEL")
    then read_del v ws
    else if text_eq tag (codes "A")
    then read_a v ws
    else ok v

unfoldable pub apply_text : Vault → Text → Result Fault Vault
unfolding apply_words words
apply_text v t = apply_words v (words t)

unfoldable pub apply_texts : Vault → List Text → Result Fault Vault
unfolding apply_text
apply_texts v [] = ok v
apply_texts v (t ∷ ts) = then_ok (apply_text v t) (λ w. apply_texts w ts)

-- Load, on the lines of vault.state and of vault.journal
unfoldable pub load_text : List Text → List Text → Result Fault Vault
unfolding apply_texts
load_text snapshot journal = then_ok (apply_texts (blank [] []) snapshot) (λ v.
    then_ok (apply_texts v journal)
      (λ w. ok (record w { jrnl_count = w.jrnl_count + length journal })))

-- Open, on the lines of the files where there is a snapshot. What is read has no lines in the fields
-- that stand for the files: the files are as they were.
unfoldable pub open_vault : Option (List Text × List Text) → Result Fault Vault
unfolding load_text new_vault
open_vault (some (snapshot, journal)) = load_text snapshot journal
open_vault none = ok new_vault

-- The lines of a file.
abbrev pub texts : List Line → List Text
texts [] = []
texts (l ∷ ls) = print l ∷ texts ls
