-- ===== src/Vault/Durable.antt =====
-- The steps of a call of the vault, vault/src/dezhan-vault.adb, with the files beside the state.
use dezhan.Base.{
  ℕ, ◌+◌, ◌≤◌, ◌++◌, [], ◌∷◌, List, Bool, true, false, ◌≡◌, ap, if◌then◌else◌, leb, err, refl, sym,
  subst, ◌==◌, ==_iff, length, length-append, arith, tests, Result, ok, continue, ◌>>◌,
}
use dezhan.Text.{Text}
use dezhan.Dict.{Dict, NodupKeys}
use dezhan.Core.Audit.{AuditEvent, Digest, AuditEntry, append, verify_chain, natural_last}
use dezhan.Core.Audit.Chains.{
  newest, newest_facts, append-verifies, is_genesis-facts, verify_chain-cons,
}
use dezhan.Core.Sha256.{sha256}
use dezhan.Vault.State.{
  Meta, Line, a_line, Vault, Fault, Act, add_audit, logged, next_entry, last_element, name_digest,
  digest_limit, assertion_error,
}
use dezhan.Vault.Persist.{save, saved, committed, buffered, apply_line}
use dezhan.Vault.Logged.{last_element-newest, committed-log}
use dezhan.Vault.Files.{
  contents, Agrees, IsSound, pending, IsDurable, saved-IsDurable, committed-IsDurable,
  buffered-Agrees, a_line-Agrees, durable-pending,
}

-- From a vault with n audit entries a call has come to v: durable, with one entry more at most.
pub record Settled (n : ℕ) (v : Vault) : Type 0 where
  pub durable : IsDurable v
  pub entries : length v.log ≤ n + 1

-- There is room for one more entry.
abbrev pub HasRoom : Vault → Type 0
HasRoom v = length v.log ≤ natural_last

abbrev pub noted : AuditEntry → Vault → Vault
noted e v = record v { log = v.log ++ e ∷ []; jrnl_buf = v.jrnl_buf ++ a_line e ∷ [] }

abbrev pub Fits : AuditEntry → List AuditEntry → Type 0
Fits e log = (e.seq ≡ length log) × (verify_chain (log ++ e ∷ []) ≡ true)

append-seq :
    (p : AuditEntry) (time : ℕ) (kind : AuditEvent) (subject : Digest) (detail : ℕ)
    → (append p time kind subject detail).seq ≡ p.seq + 1
unfolding append
append-seq p time kind subject detail = refl

entry-Fits :
    (log : List AuditEntry) (time : ℕ) (kind : AuditEvent) (subject : Digest) (detail : ℕ)
    → verify_chain log ≡ true
    → length log ≤ natural_last
    → (e : AuditEntry) × (next_entry (last_element log) time kind subject detail ≡ ok e)
      × Fits e log
entry-Fits [] time kind subject detail h room = unfold verify_chain in ground arith
entry-Fits (g ∷ es) time kind subject detail h room =
    let (first, linked) = verify_chain-cons g es h in
    let (zeroth, consistent) = is_genesis-facts g first in
    let (seq, c) = newest_facts g es linked consistent in
    let spare : ((newest g es).seq == natural_last) ≡ false = grind (arith, tests, ==_iff) in
    let e = append (newest g es) time kind subject detail in
    (
      e,
      rw (last_element-newest g es) (rw spare refl),
      (
        omega (arith, append-seq (newest g es) time kind subject detail),
        append-verifies g es time kind subject detail h spare,
      ),
    )

-- What holds after any entry that fits holds after add_audit, whose subject is given.
pub add_audit-then :
    {A : Type 0} (kind : AuditEvent) (subject : Result Fault Digest) (d : Digest) (detail : ℕ)
    (m : Act A) (v : Vault) (P : Vault → Type 0)
    → subject ≡ ok d
    → verify_chain v.log ≡ true
    → HasRoom v
    → ((e : AuditEntry) → Fits e v.log → P (m (noted e v)).1)
    → P ((do add_audit kind subject detail; m) v).1
add_audit-then kind subject d detail m v P given h room f =
    subst (λ (r : Result Fault Digest). P ((do add_audit kind r detail; m) v).1) (sym given)
      (unfold add_audit in
        let (e, q, fits) = entry-Fits v.log v.clock.floor kind d detail h room in
        subst (λ (r : Result Fault AuditEntry). P (continue (logged r v) (λ (a : Unit). m)).1)
          (sym q) (f e fits))

-- A name that has a digest.
abbrev pub IsShort : Text → Type 0
IsShort name = length name ≤ digest_limit

pub name_digest-ok : (name : Text) → IsShort name → name_digest name ≡ ok (sha256 name)
unfolding name_digest
name_digest-ok name h =
    let short : leb (length name) digest_limit ≡ true = ground arith in
    ap (λ (b : Bool). if b then ok (sha256 name) else err assertion_error) short

pub noted-IsSound :
    (e : AuditEntry) (v : Vault)
    → IsSound (contents v)
    → Fits e v.log
    → IsSound (contents (noted e v))
noted-IsSound e v s (q, h) = record { chain = h; objects = s.objects; names = s.names }

noted-length : (e : AuditEntry) (v : Vault) → length (v.log ++ e ∷ []) ≤ length v.log + 1
noted-length e v = omega (arith, length-append v.log (e ∷ []))

-- A call that leaves the contents and the files alone.
pub same-Settled : (v : Vault) → IsDurable v → Settled (length v.log) v
same-Settled v d = record { durable = d; entries = omega arith }

pub saved-Settled : (v : Vault) → IsSound (contents v) → Settled (length v.log) (saved v)
unfolding saved
saved-Settled v s = record { durable = saved-IsDurable v s; entries = omega arith }

pub audited-Settled :
    (kind : AuditEvent) (subject : Result Fault Digest) (d : Digest) (detail : ℕ) (v : Vault)
    → subject ≡ ok d
    → IsSound (contents v)
    → HasRoom v
    → Settled (length v.log) ((do add_audit kind subject detail; save) v).1
unfolding saved
audited-Settled kind subject d detail v given s room =
    add_audit-then kind subject d detail save v (Settled (length v.log)) given s.chain room (λ e f.
      record {
        durable = saved-IsDurable (noted e v) (noted-IsSound e v s f);
        entries = noted-length e v;
      })

-- v, whose buffer is not committed yet, has come from a vault with n entries.
pub record Waiting (n : ℕ) (v : Vault) : Type 0 where
  pub sound : IsSound (contents v)
  pub stored : Agrees (pending v) (contents v)
  pub entries : length v.log ≤ n + 1

pub committed-Settled : (n : ℕ) (v : Vault) → Waiting n v → Settled n (committed v)
committed-Settled n v w = record {
  durable = committed-IsDurable v w.sound w.stored;
  entries = rw (committed-log v) w.entries;
}

-- After the entry, the change of the index that its line carries, which is committed.
pub line_after-Settled :
    (l : Line) (i : Dict Meta) (v : Vault) (e : AuditEntry)
    → IsDurable v
    → Fits e v.log
    → NodupKeys i
    → ((log : List AuditEntry) (r : Vault)
        → Agrees (contents r) (record (contents v) { log = log })
        → Agrees (contents (apply_line r l)) (record (contents v) { log = log; index = i }))
    → Settled (length v.log) (committed (buffered l (noted e (record v { index = i }))))
line_after-Settled l i v e d (q, h) keys f =
    let log = v.log ++ e ∷ [] in
    let w = noted e (record v { index = i }) in
    committed-Settled (length v.log) (buffered l w) (record {
      sound = record { chain = h; objects = keys; names = d.sound.names };
      stored =
          buffered-Agrees l w (record (contents v) { log = log })
            (record (contents v) { log = log; index = i }) (f log)
            (buffered-Agrees (a_line e) v (contents v) (record (contents v) { log = log })
              (λ r. a_line-Agrees e (contents v) r q) (durable-pending v d));
      entries = noted-length e v;
    })

pub durable-Waiting : (v : Vault) → IsDurable v → Waiting (length v.log) v
durable-Waiting v d = record {
  sound = d.sound;
  stored = durable-pending v d;
  entries = omega arith;
}

pub noted-Waiting :
    (e : AuditEntry) (v : Vault)
    → IsSound (contents v)
    → Agrees (pending v) (contents v)
    → Fits e v.log
    → Waiting (length v.log) (noted e v)
noted-Waiting e v s a (q, h) = record {
  sound = noted-IsSound e v s (q, h);
  stored =
      buffered-Agrees (a_line e) v (contents v) (contents (noted e v))
        (λ r. a_line-Agrees e (contents v) r q) a;
  entries = noted-length e v;
}

-- A line about versions is buffered.
pub beside-Waiting :
    (l : Line) (n : ℕ) (v : Vault)
    → ((r : Vault)
        → Agrees (contents r) (contents v)
        → Agrees (contents (apply_line r l)) (contents v))
    → Waiting n v
    → Waiting n (buffered l v)
beside-Waiting l n v f w = record {
  sound = w.sound;
  stored = buffered-Agrees l v (contents v) (contents v) f w.stored;
  entries = w.entries;
}
