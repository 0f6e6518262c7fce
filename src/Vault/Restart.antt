-- ===== src/Vault/Restart.antt =====
-- Save, Load and the first sample after it, of vault/src/dezhan-vault.adb.
use dezhan.Base.{
  ℕ, ◌+◌, ◌++◌, [], ◌∷◌, List, Bool, true, false, Option, none, some, ◌≡◌, refl, sym, ap, ◌∙◌,
  subst, if◌then◌else◌, ==_iff, length, length-append, append-nil, append_assoc, arith,
}
use dezhan.Text.{Text}
use dezhan.Dict.{Dict, lookup, insert, merge, lookup-merge, or_else, NodupKeys}
use dezhan.Core.Clock.{ClockSample, no_anomaly, init}
use dezhan.Core.Audit.{AuditEntry, verify_chain, links}
use dezhan.Core.Audit.Chains.{links-cons, links_to-facts, is_genesis-facts, verify_chain-cons}
use dezhan.Vault.State.{Meta, VersionEntry, Line, vseq_line, count_line, Vault}
use dezhan.Vault.Persist.{
  bkt_lines, vsn_lines, ver_lines, ver_lines_of, obj_lines, a_lines, snapshot_of, add_version,
  apply_line, apply_lines, blank, load,
}
use dezhan.Vault.Admin.{tick_clock}

pub apply_lines-append :
    (v : Vault) (xs ys : List Line) → apply_lines v (xs ++ ys) ≡ apply_lines (apply_lines v xs) ys
unfolding apply_lines
apply_lines-append v [] ys = refl
apply_lines-append v (x ∷ xs) ys = apply_lines-append (apply_line v x) xs ys

bkt_lines-apply :
    (m : Dict Bool) (v : Vault)
    → apply_lines v (bkt_lines m) ≡ record v { buckets = merge v.buckets m }
unfolding apply_lines apply_line merge
bkt_lines-apply [] v = refl
bkt_lines-apply ((k, b) ∷ m) v = bkt_lines-apply m (record v { buckets = insert k b v.buckets })

-- the entries that are on
abbrev enabled : Dict Bool → Dict Bool
enabled [] = []
enabled ((k, b) ∷ m) = let rest = enabled m in if b then (k, true) ∷ rest else rest

vsn_lines-apply :
    (m : Dict Bool) (v : Vault)
    → apply_lines v (vsn_lines m) ≡ record v { versioned = merge v.versioned (enabled m) }
unfolding apply_lines apply_line merge
vsn_lines-apply [] v = refl
vsn_lines-apply ((k, true) ∷ m) v =
    vsn_lines-apply m (record v { versioned = insert k true v.versioned })
vsn_lines-apply ((k, false) ∷ m) v = vsn_lines-apply m v

abbrev add_versions_of :
    Text → List VersionEntry → Dict (List VersionEntry) → Dict (List VersionEntry)
add_versions_of k [] vs = vs
add_versions_of k (e ∷ es) vs = add_versions_of k es (add_version k e vs)

abbrev add_versions : Dict (List VersionEntry) → Dict (List VersionEntry) → Dict (List VersionEntry)
add_versions [] vs = vs
add_versions ((k, es) ∷ m) vs = add_versions m (add_versions_of k es vs)

ver_lines_of-apply :
    (k : Text) (es : List VersionEntry) (v : Vault)
    → apply_lines v (ver_lines_of k es) ≡ record v { versions = add_versions_of k es v.versions }
unfolding apply_lines apply_line
ver_lines_of-apply k [] v = refl
ver_lines_of-apply k (e ∷ es) v =
    ver_lines_of-apply k es (record v { versions = add_version k e v.versions })

ver_lines-apply :
    (m : Dict (List VersionEntry)) (v : Vault)
    → apply_lines v (ver_lines m) ≡ record v { versions = add_versions m v.versions }
unfolding apply_lines
ver_lines-apply [] v = refl
ver_lines-apply ((k, es) ∷ m) v =
    apply_lines-append v (ver_lines_of k es) (ver_lines m)
    ∙ (ap (λ (w : Vault). apply_lines w (ver_lines m)) (ver_lines_of-apply k es v)
        ∙ ver_lines-apply m (record v { versions = add_versions_of k es v.versions }))

obj_lines-apply :
    (m : Dict Meta) (v : Vault) → apply_lines v (obj_lines m) ≡ record v { index = merge v.index m }
unfolding apply_lines apply_line merge
obj_lines-apply [] v = refl
obj_lines-apply ((k, o) ∷ m) v = obj_lines-apply m (record v { index = insert k o v.index })

-- The entries are numbered from n.
abbrev IsNumbered : ℕ → List AuditEntry → Type 0
IsNumbered n [] = Unit
IsNumbered n (e ∷ es) = (e.seq ≡ n) × IsNumbered (n + 1) es

a_lines-apply :
    (es : List AuditEntry) (v : Vault)
    → IsNumbered (length v.log) es
    → apply_lines v (a_lines es) ≡ record v { log = v.log ++ es }
unfolding apply_lines apply_line
a_lines-apply [] v h = ap (λ (l : List AuditEntry). record v { log = l }) (sym (append-nil v.log))
a_lines-apply (e ∷ es) v (q, h) =
    let w = record v { log = v.log ++ e ∷ [] } in
    ap (λ (b : Bool). apply_lines (if b then w else v) (a_lines es))
      ((==_iff e.seq (length v.log)).1 q)
    ∙ (a_lines-apply es w
          (subst (λ (n : ℕ). IsNumbered n es) (omega (arith, length-append v.log (e ∷ []))) h)
        ∙ ap (λ (l : List AuditEntry). record v { log = l }) (append_assoc v.log (e ∷ []) es))

links-IsNumbered :
    (p : AuditEntry) (es : List AuditEntry) → links p es ≡ true → IsNumbered (p.seq + 1) es
links-IsNumbered p [] h = tt
links-IsNumbered p (e ∷ es) h =
    let (k, l) = links-cons p e es h in
    let numbered = (links_to-facts e p k).0 in
    (numbered, subst (λ (n : ℕ). IsNumbered (n + 1) es) numbered (links-IsNumbered e es l))

verify_chain-IsNumbered : (es : List AuditEntry) → verify_chain es ≡ true → IsNumbered 0 es
verify_chain-IsNumbered [] h = tt
verify_chain-IsNumbered (e ∷ es) h =
    let (g, l) = verify_chain-cons e es h in
    let first = (is_genesis-facts e g).0 in
    (first, subst (λ (n : ℕ). IsNumbered (n + 1) es) first (links-IsNumbered e es l))

after-apply :
    (v w : Vault) (xs ys : List Line)
    → apply_lines v xs ≡ w
    → apply_lines v (xs ++ ys) ≡ apply_lines w ys
after-apply v w xs ys e = apply_lines-append v xs ys ∙ ap (λ (u : Vault). apply_lines u ys) e

-- The vault that Load makes of what Save has written.
abbrev pub reopened : Vault → Vault
reopened v = load (snapshot_of v) []

abbrev restored : Vault → Vault
restored v = record (blank (snapshot_of v) []) {
  clock = record {
    floor = v.clock.floor;
    last_mono = 0;
    last_real = 0;
    anomaly = no_anomaly;
    sealed = v.clock.sealed;
  };
  op_sealed = v.op_sealed;
  last_boot = v.last_boot;
  ingest_only = v.ingest_only;
  sync_shut = v.sync_shut;
  buckets = merge [] v.buckets;
  versioned = merge [] (enabled v.versioned);
  ver_seq = v.ver_seq;
  versions = add_versions v.versions [];
  index = merge [] v.index;
  log = v.log;
}

reopened-restored : (v : Vault) → verify_chain v.log ≡ true → reopened v ≡ restored v
unfolding load snapshot_of apply_lines apply_line
reopened-restored v h =
    let v1 = record (blank (snapshot_of v) []) {
      clock = record {
        floor = v.clock.floor;
        last_mono = 0;
        last_real = 0;
        anomaly = no_anomaly;
        sealed = v.clock.sealed;
      };
      op_sealed = v.op_sealed;
      last_boot = v.last_boot;
      ingest_only = v.ingest_only;
      sync_shut = v.sync_shut;
    } in
    let v2 = record v1 { buckets = merge [] v.buckets } in
    let v3 = record v2 { versioned = merge [] (enabled v.versioned) } in
    let v4 = record v3 { ver_seq = v.ver_seq } in
    let v5 = record v4 { versions = add_versions v.versions [] } in
    let v6 = record v5 { index = merge [] v.index } in
    let entries = count_line (length v.log) ∷ a_lines v.log in
    let objects = obj_lines v.index ++ entries in
    let versions = ver_lines v.versions ++ objects in
    let numbered = vseq_line v.ver_seq ∷ versions in
    ap (λ (w : Vault). record w { jrnl_count = w.jrnl_count + 0 })
      (after-apply v1 v2 (bkt_lines v.buckets) (vsn_lines v.versioned ++ numbered)
          (bkt_lines-apply v.buckets v1)
        ∙ (after-apply v2 v3 (vsn_lines v.versioned) numbered (vsn_lines-apply v.versioned v2)
            ∙ (after-apply v4 v5 (ver_lines v.versions) objects (ver_lines-apply v.versions v4)
                ∙ (after-apply v5 v6 (obj_lines v.index) entries (obj_lines-apply v.index v5)
                    ∙ a_lines-apply v.log v6 (verify_chain-IsNumbered v.log h)))))

or_else-none : {A : Type 0} (o : Option A) → or_else o none ≡ o
or_else-none none = refl
or_else-none (some a) = refl

merge-same :
    {V : Type 0} (m : Dict V) (name : Text) → NodupKeys m → lookup name (merge [] m) ≡ lookup name m
unfolding lookup
merge-same m name h = lookup-merge m [] name h ∙ or_else-none (lookup name m)

-- A vault that is saved and loaded again has the same objects under the same locks, the same buckets
-- with the same lock flags, the same audit chain, trusted time, seals and modes, where its chain
-- verifies and no name stands twice.
pub reopened-same :
    (v : Vault)
    → verify_chain v.log ≡ true
    → NodupKeys v.index
    → NodupKeys v.buckets
    → ((name : Text) → lookup name (reopened v).index ≡ lookup name v.index)
      × ((name : Text) → lookup name (reopened v).buckets ≡ lookup name v.buckets)
      × ((reopened v).log ≡ v.log)
      × ((reopened v).clock.floor ≡ v.clock.floor)
      × ((reopened v).clock.sealed ≡ v.clock.sealed)
      × ((reopened v).op_sealed ≡ v.op_sealed)
      × ((reopened v).ingest_only ≡ v.ingest_only)
      × ((reopened v).sync_shut ≡ v.sync_shut)
reopened-same v h di db =
    let e = reopened-restored v h in
    (
      λ name. ap (λ (w : Vault). lookup name w.index) e ∙ merge-same v.index name di,
      λ name. ap (λ (w : Vault). lookup name w.buckets) e ∙ merge-same v.buckets name db,
      ap (λ (w : Vault). w.log) e,
      ap (λ (w : Vault). w.clock.floor) e,
      ap (λ (w : Vault). w.clock.sealed) e,
      ap (λ (w : Vault). w.op_sealed) e,
      ap (λ (w : Vault). w.ingest_only) e,
      ap (λ (w : Vault). w.sync_shut) e,
    )

-- The first clock sample after a restart puts trusted time back to 0 and takes the seal of the clock
-- guard off, whatever was saved and loaded, where the saved chain verifies.
pub reopened-tick :
    (v : Vault) (sample : ClockSample)
    → verify_chain v.log ≡ true
    → ((reopened v).clock.floor ≡ v.clock.floor)
      × ((reopened v).clock.sealed ≡ v.clock.sealed)
      × ((tick_clock sample (reopened v)).1.clock.floor ≡ 0)
      × ((tick_clock sample (reopened v)).1.clock.sealed ≡ false)
unfolding tick_clock init
reopened-tick v sample h =
    let e = reopened-restored v h in
    (
      ap (λ (w : Vault). w.clock.floor) e,
      ap (λ (w : Vault). w.clock.sealed) e,
      ap (λ (w : Vault). (tick_clock sample w).1.clock.floor) e,
      ap (λ (w : Vault). (tick_clock sample w).1.clock.sealed) e,
    )
