-- ===== src/Vault/Files.antt =====
-- The files of the vault, vault/src/dezhan-vault.adb, beside its state in memory: what Load makes of
-- vault.state and vault.journal.
use dezhan.Base.{
  ℕ, ◌+◌, ◌++◌, [], ◌∷◌, List, Bool, true, ◌≡◌, refl, sym, ap, ◌∙◌, subst, if◌then◌else◌, ◌==◌,
  ==_iff, leb, length, append-nil, append_assoc, arith, tests, Bool-cases, inl, inr, some, none,
}
use dezhan.Text.{Text, text_eq}
use dezhan.Dict.{Dict, lookup, insert, remove, lookup-insert, lookup-remove, NodupKeys}
use dezhan.Core.Audit.{AuditEntry, verify_chain}
use dezhan.Vault.State.{
  Meta, VersionEntry, Line, header_line, count_line, clock_line, boot_line, modes_line, bkt_line,
  vsn_line, vseq_line, ver_line, obj_line, del_line, a_line, Vault,
}
use dezhan.Vault.Persist.{saved, committed, buffered, apply_line, apply_lines, blank, load}
use dezhan.Vault.Restart.{apply_lines-append, reopened-same}

-- What has to outlive the process.
pub record Contents : Type 0 where
  pub index : Dict Meta
  pub log : List AuditEntry
  pub buckets : Dict Bool
  pub op_sealed : Bool
  pub ingest_only : Bool
  pub sync_shut : Bool

abbrev pub contents : Vault → Contents
contents v = record {
  index = v.index;
  log = v.log;
  buckets = v.buckets;
  op_sealed = v.op_sealed;
  ingest_only = v.ingest_only;
  sync_shut = v.sync_shut;
}

pub record Agrees (r c : Contents) : Type 0 where
  pub index : (name : Text) → lookup name r.index ≡ lookup name c.index
  pub log : r.log ≡ c.log
  pub buckets : (name : Text) → lookup name r.buckets ≡ lookup name c.buckets
  pub op_sealed : r.op_sealed ≡ c.op_sealed
  pub ingest_only : r.ingest_only ≡ c.ingest_only
  pub sync_shut : r.sync_shut ≡ c.sync_shut

-- The chain verifies, and no name stands twice.
pub record IsSound (c : Contents) : Type 0 where
  pub chain : verify_chain c.log ≡ true
  pub objects : NodupKeys c.index
  pub names : NodupKeys c.buckets

-- What the files hold once the lines in the buffer are committed.
abbrev pub pending : Vault → Contents
pending v = contents (load v.snapshot (v.journal ++ v.jrnl_buf))

-- Nothing is left to commit, and the files hold what the vault holds in memory.
pub record IsDurable (v : Vault) : Type 0 where
  pub sound : IsSound (contents v)
  pub flat : v.jrnl_buf ≡ []
  pub stored : Agrees (contents (load v.snapshot v.journal)) (contents v)

apply_line-journal :
    (v : Vault) (j : List Line) (l : Line)
    → apply_line (record v { journal = j }) l ≡ record (apply_line v l) { journal = j }
unfolding apply_line
apply_line-journal v j header_line = refl
apply_line-journal v j (count_line n) = refl
apply_line-journal v j (clock_line f s o) = refl
apply_line-journal v j (boot_line b) = refl
apply_line-journal v j (modes_line a b) = refl
apply_line-journal v j (bkt_line k b) = refl
apply_line-journal v j (vsn_line k b) = refl
apply_line-journal v j (vseq_line n) = refl
apply_line-journal v j (ver_line k e) = refl
apply_line-journal v j (obj_line k m) = refl
apply_line-journal v j (del_line k) = refl
apply_line-journal v j (a_line e) = elim (Bool-cases (e.seq == length v.log)) [
  | inl h ↦ simp h refl
  | inr h ↦ simp h refl
]

apply_lines-journal :
    (v : Vault) (j ls : List Line)
    → apply_lines (record v { journal = j }) ls ≡ record (apply_lines v ls) { journal = j }
unfolding apply_lines
apply_lines-journal v j [] = refl
apply_lines-journal v j (l ∷ ls) =
    ap (λ (w : Vault). apply_lines w ls) (apply_line-journal v j l)
    ∙ apply_lines-journal (apply_line v l) j ls

-- The lines of the journal, read after the snapshot.
abbrev pub replayed : List Line → List Line → Vault
replayed s j = apply_lines (apply_lines (blank s []) s) j

pub load-contents : (s j : List Line) → contents (load s j) ≡ contents (replayed s j)
unfolding load
load-contents s j =
    ap (λ (w : Vault). contents (apply_lines w j)) (apply_lines-journal (blank s []) j s)
    ∙ ap contents (apply_lines-journal (apply_lines (blank s []) s) j j)

-- Lines that are buffered are read after the others.
read-buffered :
    (l : Line) (v : Vault)
    → pending (buffered l v)
      ≡ contents (apply_line (replayed v.snapshot (v.journal ++ v.jrnl_buf)) l)
unfolding apply_lines
read-buffered l v =
    let w = apply_lines (blank v.snapshot []) v.snapshot in
    let j = v.journal ++ v.jrnl_buf in
    load-contents v.snapshot (v.journal ++ (v.jrnl_buf ++ l ∷ []))
    ∙ (ap (λ (ls : List Line). contents (apply_lines w ls))
          (sym (append_assoc v.journal v.jrnl_buf (l ∷ [])))
        ∙ ap contents (apply_lines-append w j (l ∷ [])))

pub buffered-Agrees :
    (l : Line) (v : Vault) (c d : Contents)
    → ((r : Vault) → Agrees (contents r) c → Agrees (contents (apply_line r l)) d)
    → Agrees (pending v) c
    → Agrees (pending (buffered l v)) d
buffered-Agrees l v c d f a =
    let j = v.journal ++ v.jrnl_buf in
    subst (λ (k : Contents). Agrees k d) (sym (read-buffered l v))
      (f (replayed v.snapshot j)
        (subst (λ (k : Contents). Agrees k c) (load-contents v.snapshot j) a))

pub obj_line-Agrees :
    (name : Text) (m : Meta) (c : Contents) (r : Vault)
    → Agrees (contents r) c
    → Agrees
        (contents (apply_line r (obj_line name m)))
        (record c { index = insert name m c.index })
unfolding apply_line
obj_line-Agrees name m c r a = record {
  index = λ k.
      lookup-insert name k m r.index
      ∙ (ap (λ o. if text_eq name k then some m else o) (a.index k)
          ∙ sym (lookup-insert name k m c.index));
  log = a.log;
  buckets = a.buckets;
  op_sealed = a.op_sealed;
  ingest_only = a.ingest_only;
  sync_shut = a.sync_shut;
}

pub del_line-Agrees :
    (name : Text) (c : Contents) (r : Vault)
    → Agrees (contents r) c
    → Agrees (contents (apply_line r (del_line name))) (record c { index = remove name c.index })
unfolding apply_line
del_line-Agrees name c r a = record {
  index = λ k.
      lookup-remove name k r.index
      ∙ (ap (λ o. if text_eq name k then none else o) (a.index k)
          ∙ sym (lookup-remove name k c.index));
  log = a.log;
  buckets = a.buckets;
  op_sealed = a.op_sealed;
  ingest_only = a.ingest_only;
  sync_shut = a.sync_shut;
}

pub a_line-Agrees :
    (e : AuditEntry) (c : Contents) (r : Vault)
    → e.seq ≡ length c.log
    → Agrees (contents r) c
    → Agrees (contents (apply_line r (a_line e))) (record c { log = c.log ++ e ∷ [] })
unfolding apply_line
a_line-Agrees e c r q a = rw ((==_iff e.seq (length r.log)).1 (q ∙ sym (ap length a.log))) (record {
  index = a.index;
  log = ap (λ (l : List AuditEntry). l ++ e ∷ []) a.log;
  buckets = a.buckets;
  op_sealed = a.op_sealed;
  ingest_only = a.ingest_only;
  sync_shut = a.sync_shut;
})

-- Lines about versions leave the rest alone.
pub vseq_line-Agrees :
    (n : ℕ) (c : Contents) (r : Vault)
    → Agrees (contents r) c
    → Agrees (contents (apply_line r (vseq_line n))) c
unfolding apply_line
vseq_line-Agrees n c r a = a

pub ver_line-Agrees :
    (name : Text) (e : VersionEntry) (c : Contents) (r : Vault)
    → Agrees (contents r) c
    → Agrees (contents (apply_line r (ver_line name e))) c
unfolding apply_line
ver_line-Agrees name e c r a = a

pub saved-IsDurable : (v : Vault) → IsSound (contents v) → IsDurable (saved v)
unfolding saved
saved-IsDurable v s =
    let (index, buckets, log, floor, clock_seal, op_sealed, ingest_only, sync_shut) =
      reopened-same v s.chain s.objects s.names in
    record {
      sound = s;
      flat = refl;
      stored = record {
        index = index;
        log = log;
        buckets = buckets;
        op_sealed = op_sealed;
        ingest_only = ingest_only;
        sync_shut = sync_shut;
      };
    }

nil-length : (ls : List Line) → (length ls == 0) ≡ true → ls ≡ []
nil-length [] h = refl
nil-length (l ∷ ls) h = grind (arith, tests)

-- Commit_Jrnl puts the buffer into the files, by whichever way it takes.
pub committed-IsDurable :
    (v : Vault) → IsSound (contents v) → Agrees (pending v) (contents v) → IsDurable (committed v)
unfolding committed
committed-IsDurable v s a = elim (Bool-cases (length v.jrnl_buf == 0)) [
  | inl e ↦ rw e (
      let flat = nil-length v.jrnl_buf e in
      record {
        sound = s;
        flat = flat;
        stored =
            subst (λ (ls : List Line). Agrees (contents (load v.snapshot ls)) (contents v))
              (ap (λ (ls : List Line). v.journal ++ ls) flat ∙ append-nil v.journal) a;
      })
  | inr e ↦ rw e (elim (Bool-cases (leb 20000 (v.jrnl_count + length v.jrnl_buf))) [
    | inl f ↦ rw f (saved-IsDurable v s)
    | inr f ↦ rw f (record { sound = s; flat = refl; stored = a })
  ])
]

pub durable-pending : (v : Vault) → IsDurable v → Agrees (pending v) (contents v)
durable-pending v d =
    subst (λ (ls : List Line). Agrees (contents (load v.snapshot ls)) (contents v))
      (sym (ap (λ (ls : List Line). v.journal ++ ls) d.flat ∙ append-nil v.journal)) d.stored
