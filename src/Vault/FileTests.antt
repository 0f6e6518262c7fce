-- ===== src/Vault/FileTests.antt =====
-- The vault with one object, its files and their text, and names that the files do not keep.
use dezhan.Base.{◌≡◌, ◌≢◌, refl, [], ◌∷◌, List, true, false, none, some, arith, All, ok, err}
use dezhan.Text.{Text, codes, text_eq}
use dezhan.Dict.{lookup, insert}
use dezhan.Core.Retention.{compliance, governance, set_hold}
use dezhan.Core.Sha256.{sha256}
use dezhan.Core.Audit.{lock_created, zero_digest, genesis_entry, append}
use dezhan.Core.Audit.Chains.{genesis_entry-verifies}
use dezhan.Vault.State.{
  Meta, Vault, a_line, obj_line, add_audit, name_digest, constraint_error, assertion_error,
}
use dezhan.Vault.Objects.{set_object, placed, put_object}
use dezhan.Vault.Versions.{zero_id}
use dezhan.Vault.Operations.{
  Operation, put, make_bucket, close_window, system_tick, delete, step, run,
}
use dezhan.Vault.Persist.{saved, new_vault, load, committed, snapshot_of}
use dezhan.Vault.Torn.{hold_cut, hold_cut-forgets}
use dezhan.Vault.Durable.{HasRoom}
use dezhan.Vault.Files.{contents, IsSound, IsDurable, saved-IsDurable}
use dezhan.Vault.Recovered.Runs.{run-IsDurable}
use dezhan.Vault.Valid.{IsKey, IsValid}
use dezhan.Vault.Replay.{load_text, texts}
use dezhan.Vault.Printed.{IsSpaceless, str_to_hex-IsWord}
use dezhan.Vault.Readable.{IsName, IsId, IsMeta}
use dezhan.Vault.Writes.{Writable, save-Writes}
use dezhan.Vault.Writes.Versions.{marker-IsVersion}
use dezhan.Vault.Stored.{reopened_text-same}
use dezhan.Vault.Reloaded.{Reloads, run-Reloads, served-Reloads, genesis-IsEntry}
use dezhan.Vault.Lost.{load_text_unnamed, put_object_long_name}
use dezhan.Vault.Lines.{str_to_hex}
use dezhan.Vault.Writes.Admin.{zero_digest-IsDigest}
use dezhan.Vault.Tests.{name, id, object, vault, jump, calls, distinct}

name-IsName : IsName name
name-IsName = (cc, (omega arith, (omega arith, (omega arith, tt))))

id-IsId : IsId id
id-IsId = (marker-IsVersion 1).id

name-IsKey : IsKey name
name-IsKey = (name-IsName, omega arith)

bucket-IsName : IsName (codes "b")
bucket-IsName = (cc, (omega arith, tt))

vault-Writable : Writable vault
vault-Writable = record {
  floor = omega arith;
  boot = tt;
  buckets = ((bucket-IsName, tt), tt);
  versioned = tt;
  ver_seq = omega arith;
  versions = tt;
  index = (
    (
      name-IsName,
      record {
        id = id-IsId;
        until = omega arith;
        at = omega arith;
        size = omega arith;
        user_meta = tt;
      },
    ),
    tt,
  );
  log = (genesis-IsEntry, tt);
  buffer = tt;
  snapshot = tt;
  journal = tt;
}

reopened_text-same_example :
    (r : Vault) × (load_text (texts (snapshot_of vault)) [] ≡ ok r)
    × ((name : Text) → lookup name r.index ≡ lookup name vault.index)
    × ((name : Text) → lookup name r.buckets ≡ lookup name vault.buckets)
    × (r.log ≡ vault.log)
    × (r.clock.floor ≡ vault.clock.floor)
    × (r.clock.sealed ≡ vault.clock.sealed)
    × (r.op_sealed ≡ vault.op_sealed)
    × (r.ingest_only ≡ vault.ingest_only)
    × (r.sync_shut ≡ vault.sync_shut)
reopened_text-same_example =
    reopened_text-same vault vault-Writable (genesis_entry-verifies 0) distinct.0 distinct.1

vault-IsSound : IsSound (contents vault)
vault-IsSound = record {
  chain = genesis_entry-verifies 0;
  objects = distinct.0;
  names = distinct.1;
}

calls-IsValid : All IsValid calls
calls-IsValid = (name-IsKey, (omega arith, (name-IsKey, (name-IsKey, (name-IsKey, tt)))))

run-Reloads_example : Reloads (run calls (saved vault))
unfolding saved
run-Reloads_example =
    run-Reloads calls (saved vault) calls-IsValid (saved-IsDurable vault vault-IsSound)
      (save-Writes.at vault vault-Writable) (omega arith)

-- A put under a lock, and calls that are refused.
abbrev requests : List Operation
requests =
    make_bucket (codes "b") true
    ∷ put name (id) false 3 compliance 100 []
    ∷ delete name true
    ∷ close_window
    ∷ put name id false 3 governance 100 []
    ∷ []

requests-IsValid : All IsValid requests
requests-IsValid = (
  bucket-IsName,
  (
    (name-IsKey, id-IsId, omega arith, tt),
    (name-IsKey, (tt, ((name-IsKey, id-IsId, omega arith, tt), tt))),
  ),
)

boot-IsSpaceless : IsSpaceless (codes "boot")
boot-IsSpaceless = (refl, (refl, (refl, (refl, tt))))

served-Reloads_example : Reloads (run (system_tick jump (codes "boot") ∷ requests) new_vault)
served-Reloads_example =
    served-Reloads jump (codes "boot") requests refl (omega arith, boot-IsSpaceless)
      requests-IsValid (omega arith)

-- One put behind a snapshot: the journal has its entry and its line.
abbrev other : Text
other = codes "b/m"

abbrev put_other : List Operation
put_other = put other (id) false 3 compliance 100 [] ∷ []

other-IsKey : IsKey other
other-IsKey = ((cc, (omega arith, (omega arith, (omega arith, tt)))), omega arith)

put_other-IsValid : All IsValid put_other
put_other-IsValid = ((other-IsKey, id-IsId, omega arith, tt), tt)

abbrev journalled : Vault
journalled = run put_other (saved vault)

journalled-IsDurable : IsDurable journalled
unfolding saved
journalled-IsDurable =
    run-IsDurable put_other (saved vault) put_other-IsValid (saved-IsDurable vault vault-IsSound)
      (omega arith)

abbrev stored : Meta
stored = placed (id) false 3 compliance 100 [] 100

journalled-facts :
    HasRoom journalled
    × (lookup other journalled.index ≡ some stored)
    × (journalled.journal
        ≡ a_line (append (genesis_entry 0) 100 lock_created (sha256 other) 200)
          ∷ obj_line other stored
          ∷ [])
unfolding run step put_object committed saved add_audit insert lookup genesis_entry append
    name_digest
journalled-facts = (omega arith, refl, refl)

hold_cut-forgets_example :
    (lookup other (load (hold_cut other journalled).1.snapshot []).index
      ≡ some (record stored { lock = set_hold stored.lock }))
    × (lookup other
          (load (hold_cut other journalled).1.snapshot (hold_cut other journalled).1.journal).index
        ≡ some stored)
hold_cut-forgets_example =
    hold_cut-forgets other stored
      (a_line (append (genesis_entry 0) 100 lock_created (sha256 other) 200) ∷ []) [] journalled
      journalled-IsDurable journalled-facts.0 other-IsKey.1 journalled-facts.1 journalled-facts.2 tt

zeros_ne : zero_digest ≢ []
zeros_ne h = cc

unnamed-IsMeta : IsMeta (record object { id = str_to_hex zero_digest })
unfolding str_to_hex
unnamed-IsMeta = record {
  id = (refl, str_to_hex-IsWord zero_digest zeros_ne zero_digest-IsDigest.1);
  until = omega arith;
  at = omega arith;
  size = omega arith;
  user_meta = tt;
}

-- an object whose id is the hex form of the digest of zeros
load_text_unnamed_example :
    load_text
      (texts (snapshot_of (set_object [] (record object { id = str_to_hex zero_digest }) vault)))
      []
    ≡ err constraint_error
load_text_unnamed_example =
    load_text_unnamed zero_digest (record object { id = str_to_hex zero_digest }) vault
      zero_digest-IsDigest refl unnamed-IsMeta vault-Writable

abbrev long_name : Text
long_name = zero_id 8193

abbrev durable : Vault
durable = saved vault

put_object_long_name_example :
    ((put_object long_name id false 3 compliance 100 [] durable).0 ≡ err assertion_error)
    × (lookup long_name (put_object long_name id false 3 compliance 100 [] durable).1.index
        ≡ some (placed id false 3 compliance 100 [] durable.clock.floor))
    × ((put_object long_name id false 3 compliance 100 [] durable).1.log ≡ durable.log)
    × (lookup long_name
          (load
            (put_object long_name id false 3 compliance 100 [] durable).1.snapshot
            (put_object long_name id false 3 compliance 100 [] durable).1.journal).index
        ≡ none)
unfolding saved lookup text_eq
put_object_long_name_example =
    put_object_long_name long_name id false 3 compliance 100 [] durable (omega arith) refl refl
      (saved-IsDurable vault vault-IsSound) refl
