-- ===== src/Vault/Logged.antt =====
-- The audit chain over the calls of the vault, vault/src/dezhan-vault.adb.
use dezhan.Base.{
  ℕ, ◌+◌, ◌++◌, [], ◌∷◌, List, Bool, true, false, Option, none, some, ◌≡◌, refl, sym, ap, ◌∙◌,
  if◌then◌else◌, ◌==◌, leb, length, Result, ok, err, continue, ◌>>=◌, append-nil, append_assoc,
  Bool-cases, inl, inr,
}
use dezhan.Core.Audit.{AuditEvent, Digest, AuditEntry, append, verify_chain, natural_last}
use dezhan.Core.Audit.Chains.{newest, append-verifies}
use dezhan.Vault.State.{
  Vault, Line, Fault, Act, update, unless, add_audit, logged, next_entry, last_element,
}
use dezhan.Vault.Persist.{save, saved, append_jrnl, commit_jrnl, committed}

-- From xs to ys the chain has only grown at its end, and if it verified, it still does.
pub record Grows (xs ys : List AuditEntry) : Type 0 where
  pub new : List AuditEntry
  pub grown : ys ≡ xs ++ new
  pub sound : verify_chain xs ≡ true → verify_chain ys ≡ true

pub same-Grows : (xs ys : List AuditEntry) → ys ≡ xs → Grows xs ys
same-Grows xs ys e = record {
  new = [];
  grown = e ∙ sym (append-nil xs);
  sound = λ h. ap verify_chain e ∙ h;
}

pub Grows-trans : {xs ys zs : List AuditEntry} → Grows xs ys → Grows ys zs → Grows xs zs
Grows-trans {xs} f g = record {
  new = f.new ++ g.new;
  grown =
      g.grown ∙ (ap (λ (l : List AuditEntry). l ++ g.new) f.grown ∙ append_assoc xs f.new g.new);
  sound = λ h. g.sound (f.sound h);
}

-- The action leaves a chain that has only grown, whether it fails or not.
pub record GrowsBy {A : Type 0} (m : Act A) : Type 0 where
  pub at : (v : Vault) → Grows v.log (m v).1.log

continue-Grows :
    {A B : Type 0} (xs : List AuditEntry) (x : Result Fault A × Vault) (f : A → Act B)
    → Grows xs x.1.log
    → ((a : A) → GrowsBy (f a))
    → Grows xs (continue x f).1.log
continue-Grows xs (ok a, w) f g h = Grows-trans g ((h a).at w)
continue-Grows xs (err e, w) f g h = g

pub then-Grows :
    {A B : Type 0} (m : Act A) (f : A → Act B)
    → GrowsBy m
    → ((a : A) → GrowsBy (f a))
    → GrowsBy (m >>= f)
then-Grows m f g h = record { at = λ v. continue-Grows v.log (m v) f (g.at v) h }

pub update-Grows : (f : Vault → Vault) → ((v : Vault) → (f v).log ≡ v.log) → GrowsBy (update f)
update-Grows f h = record { at = λ v. same-Grows v.log (f v).log (h v) }

pub fails-Grows : {A : Type 0} (r : Result Fault A) → GrowsBy (λ (v : Vault). (r, v))
fails-Grows r = record { at = λ v. same-Grows v.log v.log refl }

pub save-Grows : GrowsBy save
unfolding saved
save-Grows = record { at = λ v. same-Grows v.log v.log refl }

pub append_jrnl-Grows : (l : Line) → GrowsBy (append_jrnl l)
append_jrnl-Grows l = record { at = λ v. same-Grows v.log v.log refl }

pub committed-log : (v : Vault) → (committed v).log ≡ v.log
unfolding committed saved
committed-log v = elim (Bool-cases (length v.jrnl_buf == 0)) [
  | inl e ↦ simp e refl
  | inr e ↦ elim (Bool-cases (leb 20000 (v.jrnl_count + length v.jrnl_buf))) [
    | inl f ↦ simp (e, f) refl
    | inr f ↦ simp (e, f) refl
  ]
]

pub commit_jrnl-Grows : GrowsBy commit_jrnl
commit_jrnl-Grows = update-Grows committed committed-log

pub last_element-newest :
    (g : AuditEntry) (es : List AuditEntry) → last_element (g ∷ es) ≡ some (newest g es)
last_element-newest g [] = refl
last_element-newest g (e ∷ es) = last_element-newest e es

entry-Grows :
    (log : List AuditEntry) (time : ℕ) (kind : AuditEvent) (subject : Digest) (detail : ℕ)
    (v : Vault)
    → v.log ≡ log
    → Grows log (logged (next_entry (last_element log) time kind subject detail) v).1.log
entry-Grows [] time kind subject detail v e = same-Grows [] v.log e
entry-Grows (g ∷ es) time kind subject detail v e =
    let next = append (newest g es) time kind subject detail in
    rw (last_element-newest g es) (elim (Bool-cases ((newest g es).seq == natural_last)) [
      | inl full ↦ rw full (same-Grows (g ∷ es) v.log e)
      | inr room ↦ rw room (record {
        new = next ∷ [];
        grown = ap (λ (l : List AuditEntry). l ++ next ∷ []) e;
        sound = λ h.
            ap (λ (l : List AuditEntry). verify_chain (l ++ next ∷ [])) e
            ∙ append-verifies g es time kind subject detail h room;
      })
    ])

pub add_audit-Grows :
    (kind : AuditEvent) (subject : Result Fault Digest) (detail : ℕ)
    → GrowsBy (add_audit kind subject detail)
unfolding add_audit
add_audit-Grows kind (ok subject) detail = record {
  at = λ v. entry-Grows v.log v.clock.floor kind subject detail v refl;
}
add_audit-Grows kind (err e) detail = record { at = λ v. same-Grows v.log v.log refl }

pub ruleset grows =
    (then-Grows, fails-Grows, save-Grows, append_jrnl-Grows, commit_jrnl-Grows, add_audit-Grows)

pub unless-Grows : {A : Type 0} (r : Option Fault) (m : Act A) → GrowsBy m → GrowsBy (unless r m)
unless-Grows none m h = h
unless-Grows (some e) m h = record { at = λ v. same-Grows v.log v.log refl }

pub if-Grows :
    {A : Type 0} (b : Bool) (x y : Act A) → GrowsBy x → GrowsBy y → GrowsBy (if b then x else y)
if-Grows true x y hx hy = hx
if-Grows false x y hx hy = hy
