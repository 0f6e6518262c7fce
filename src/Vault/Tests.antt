-- ===== src/Vault/Tests.antt =====
-- The vault with one object under a compliance lock, and runs of its calls.
use dezhan.Base.{
  ◌≡◌, ◌⊎◌, refl, ap, inr, [], ◌∷◌, ◌++◌, List, Bool, true, false, none, some, ◌==◌, arith, All,
}
use dezhan.Text.{Text, codes}
use dezhan.Dict.{lookup, insert, NodupKeys}
use dezhan.Core.Retention.{compliance, can_delete, set_hold, release_hold}
use dezhan.Core.Clock.{GuardState, ClockSample, no_anomaly}
use dezhan.Core.Audit.{
  AuditEntry, delete_denied, zero_digest, verify_chain, natural_last, genesis_entry, append,
}
use dezhan.Core.Audit.Chains.{
  Collision, genesis_entry-verifies, append-verifies, verify_chain-binds,
}
use dezhan.Core.Audit.Serial.{IsInRange}
use dezhan.Vault.State.{Meta, Vault}
use dezhan.Vault.Objects.{delete_object}
use dezhan.Vault.Versions.{delete_marker, zero_id}
use dezhan.Vault.Admin.{tick_clock, audit_verifies}
use dezhan.Vault.Operations.{Operation, delete, hold, release, tick, run}
use dezhan.Vault.Keeps.{Plain, plain}
use dezhan.Vault.Spec.{plain_run, plain_tick, may_delete}
use dezhan.Vault.Refines.Runs.{run-plain, with_realtimes, run-with_realtimes}
use dezhan.Vault.Retained.{run-Stands, run-compliance}
use dezhan.Vault.Stands.{Stands, with_hold}
use dezhan.Vault.Unbroken.{run-audit_verifies}
use dezhan.Vault.Restart.{reopened, reopened-tick}
use dezhan.Vault.Marked.{delete_marker-takes}

abbrev pub name : Text
name = codes "b/k"

abbrev pub id : Text
id = zero_id 64

abbrev pub object : Meta
object = record {
  id = id;
  lock = record { mode = compliance; retain_until = 200; created_at = 0; legal_hold = false };
  composite = false;
  quarantined = false;
  size = 3;
  user_meta = [];
}

abbrev clock : GuardState
clock = record {
  floor = 100;
  last_mono = 1000;
  last_real = 5000;
  anomaly = no_anomaly;
  sealed = false;
}

abbrev pub vault : Vault
vault = record {
  clock = clock;
  started = true;
  op_sealed = false;
  last_boot = [];
  ingest_only = false;
  sync_shut = false;
  index = (name, object) ∷ [];
  log = genesis_entry 0 ∷ [];
  buckets = (codes "b", true) ∷ [];
  versioned = [];
  versions = [];
  ver_seq = 0;
  jrnl_count = 0;
  jrnl_buf = [];
  snapshot = [];
  journal = [];
}

-- The system's clock jumps far ahead, while the monotonic one advances by 40.
abbrev pub jump : ClockSample
jump = record { mono = 1040; realtime = 9999999; boot_changed = false }

abbrev pub calls : List Operation
calls = hold name ∷ tick jump ∷ delete name true ∷ release name ∷ delete name true ∷ []

listed : lookup name vault.index ≡ some object
unfolding lookup
listed = refl

pub distinct : NodupKeys vault.index × NodupKeys vault.buckets
unfolding lookup
distinct = ((refl, tt), (refl, tt))

calls_floor : (run calls vault).clock.floor ≡ 140
unfolding plain_run plain_tick lookup insert may_delete can_delete set_hold release_hold
calls_floor = ap (λ (p : Plain). p.floor) (run-plain calls vault)

run-compliance_example :
    (b : Bool) × (lookup name (run calls vault).index ≡ some (with_hold b object))
run-compliance_example =
    run-compliance name object calls vault (tt, (omega arith, (tt, (tt, (tt, tt)))))
      (tt, (tt, (tt, (tt, (tt, tt))))) refl (omega arith) listed refl (omega (arith, calls_floor))

-- Without the release, for run-Stands the hold stays too.
abbrev held_calls : List Operation
held_calls = hold name ∷ tick jump ∷ delete name true ∷ []

held_calls_floor : (run held_calls vault).clock.floor ≡ 140
unfolding plain_run plain_tick lookup insert may_delete can_delete set_hold release_hold
held_calls_floor = ap (λ (p : Plain). p.floor) (run-plain held_calls vault)

denied :
    can_delete object.lock (run held_calls vault).clock.floor (record { bypass_governance = true })
    ≡ false
unfolding can_delete
denied = rw held_calls_floor refl

run-Stands_example : Stands name object (run held_calls vault).index
run-Stands_example =
    run-Stands name object held_calls vault (tt, (omega arith, (tt, tt))) refl (omega arith)
      (tt, (tt, (inr denied, tt))) listed

run-audit_verifies_example :
    (audit_verifies (run calls vault) ≡ true)
    × ((new : List AuditEntry) × ((run calls vault).log ≡ vault.log ++ new))
run-audit_verifies_example =
    run-audit_verifies calls vault (unfold audit_verifies in genesis_entry-verifies 0)

run-plain_example : plain (run calls vault) ≡ plain_run calls (plain vault)
run-plain_example = run-plain calls vault

run-with_realtimes_example :
    plain (run (with_realtimes (1 ∷ 2 ∷ []) calls) vault) ≡ plain (run calls vault)
run-with_realtimes_example = run-with_realtimes (1 ∷ 2 ∷ []) calls vault

reopened-tick_example :
    ((reopened vault).clock.floor ≡ 100)
    × ((reopened vault).clock.sealed ≡ false)
    × ((tick_clock jump (reopened vault)).1.clock.floor ≡ 0)
    × ((tick_clock jump (reopened vault)).1.clock.sealed ≡ false)
reopened-tick_example = reopened-tick vault jump (genesis_entry-verifies 0)

delete_marker-takes_example :
    (lookup name (delete_object name true vault).1.index ≡ some object)
    × (lookup name (delete_marker name vault).1.index ≡ none)
delete_marker-takes_example =
    delete_marker-takes name object true vault listed refl (omega arith) refl

-- a chain of two entries
abbrev first : AuditEntry
first = genesis_entry 0

abbrev second : AuditEntry
second = append first 5 delete_denied zero_digest 7

room : (first.seq == natural_last) ≡ false
unfolding genesis_entry
room = refl

chain_ranged : All IsInRange (first ∷ second ∷ [])
unfolding genesis_entry append
chain_ranged = (
  (omega arith, omega arith, omega arith, refl),
  ((omega arith, omega arith, omega arith, refl), tt),
)

chain_verifies : verify_chain (first ∷ second ∷ []) ≡ true
chain_verifies =
    append-verifies first [] 5 delete_denied zero_digest 7 (genesis_entry-verifies 0) room

verify_chain-binds_example :
    (first ∷ second ∷ [] ≡ first ∷ second ∷ [])
    ⊎ Collision (first ∷ second ∷ []) (first ∷ second ∷ [])
verify_chain-binds_example =
    verify_chain-binds first first (second ∷ []) (second ∷ []) chain_ranged chain_ranged
      chain_verifies chain_verifies refl
