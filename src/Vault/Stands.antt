-- ===== src/Vault/Stands.antt =====
-- What one call of the vault, vault/src/dezhan-vault.adb, leaves of an object that is retained.
use dezhan.Base.{
  ℕ, ◌≤◌, List, Bool, true, false, not, ◌&&◌, Option, none, some, ◌≡◌, ◌⊎◌, inl, inr, refl, sym, ap,
  ◌∙◌, subst, if◌then◌else◌, ◌==◌, arith, Bool-cases,
}
use dezhan.Text.{Text, text_eq, text_eq_iff}
use dezhan.Dict.{Dict, lookup, insert, remove, lookup-insert, lookup-remove}
use dezhan.Core.Retention.{
  LockMode, unlocked, governance, compliance, RetentionLock, Authorization, can_delete, mode_allows,
  set_hold, release_hold,
}
use dezhan.Core.Audit.{natural_last}
use dezhan.Vault.State.{Meta, VersionEntry}
use dezhan.Vault.Versions.{has_version}
use dezhan.Vault.Operations.{
  Operation, put, delete, hold, release, version, mark, drop_version, tick, system_tick, seal_vault,
  open_window, close_window, ingest, make_bucket, versioning, remove_bucket,
}
use dezhan.Vault.Keeps.{Plain}
use dezhan.Vault.Spec.{
  plain_step, plain_tick, accepts, may_delete, delete_if, hold_if, release_if, version_if, drop_if,
  plain_mark, drop_version_if, plain_repoint,
}

-- The call does not put, mark, drop or release the object, and deletes it at most with what the lock
-- does not permit at the time `until`.
abbrev pub Respects : Text → Meta → ℕ → Operation → Type 0
Respects name m until (put n id composite size mode retain_for meta) = text_eq n name ≡ false
Respects name m until (mark n) = text_eq n name ≡ false
Respects name m until (drop_version n vid) = text_eq n name ≡ false
Respects name m until (release n) = (text_eq n name ≡ false) ⊎ (m.lock.legal_hold ≡ false)
Respects name m until (delete n bypass) =
    (text_eq n name ≡ false)
    ⊎ (can_delete m.lock until (record { bypass_governance = bypass }) ≡ false)
Respects name m until op = Unit

abbrev pub with_hold : Bool → Meta → Meta
with_hold b m = record m { lock = record (m.lock) { legal_hold = b } }

-- The object stands in the index as it was, and is held at least as much.
abbrev pub Stands : Text → Meta → Dict Meta → Type 0
Stands name m index =
    (b : Bool) × (lookup name index ≡ some (with_hold b m)) × (m.lock.legal_hold ≡ true → b ≡ true)

mode_allows_mono :
    (mode : LockMode) (r now until : ℕ) (auth : Authorization)
    → now ≤ until
    → mode_allows mode r until auth ≡ false
    → mode_allows mode r now auth ≡ false
mode_allows_mono unlocked r now until auth le d = cc
mode_allows_mono compliance r now until auth le d = ground arith
mode_allows_mono governance r now until auth le d = ground arith

pub can_delete_mono :
    (l : RetentionLock) (b : Bool) (now until : ℕ) (auth : Authorization)
    → (l.legal_hold ≡ true → b ≡ true)
    → now ≤ until
    → can_delete l until auth ≡ false
    → can_delete (record l { legal_hold = b }) now auth ≡ false
unfolding can_delete
can_delete_mono l b now until auth h le d =
    ground (arith, mode_allows_mono l.mode l.retain_until now until auth le)

insert-Stands :
    (name n : Text) (k m : Meta) (index : Dict Meta)
    → text_eq n name ≡ false
    → Stands name m index
    → Stands name m (insert n k index)
insert-Stands name n k m index ne (b, f, h) = (b, lookup-insert n name k index ∙ rw ne f, h)

remove-Stands :
    (name n : Text) (m : Meta) (index : Dict Meta)
    → text_eq n name ≡ false
    → Stands name m index
    → Stands name m (remove n index)
remove-Stands name n m index ne (b, f, h) = (b, lookup-remove n name index ∙ rw ne f, h)

repoint-Stands :
    (name n : Text) (o : Option VersionEntry) (m : Meta) (index : Dict Meta)
    → text_eq n name ≡ false
    → Stands name m index
    → Stands name m (plain_repoint n o index)
repoint-Stands name n none m index ne s = remove-Stands name n m index ne s
repoint-Stands name n (some e) m index ne s =
    insert-Stands name n _ m _ ne (remove-Stands name n m index ne s)

same_object :
    (name n : Text) (k m : Meta) (index : Dict Meta)
    → text_eq n name ≡ true
    → lookup n index ≡ some k
    → lookup name index ≡ some m
    → k ≡ m
same_object name n k m index eq f g =
    let here : some k ≡ some m =
      sym f ∙ (ap (λ (t : Text). lookup t index) ((text_eq_iff n name).0 eq) ∙ g) in
    cc

not-may_delete :
    (name n : Text) (bypass : Bool) (k m : Meta) (until : ℕ) (p : Plain)
    → text_eq n name ≡ true
    → lookup n p.index ≡ some k
    → p.floor ≤ until
    → can_delete m.lock until (record { bypass_governance = bypass }) ≡ false
    → Stands name m p.index
    → may_delete p bypass k ≡ false
unfolding may_delete
not-may_delete name n bypass k m until p eq f le d (b, g, h) =
    let same = same_object name n k (with_hold b m) p.index eq f g in
    let denied =
      can_delete_mono m.lock b p.floor until (record { bypass_governance = bypass }) h le d in
    ap
      (λ (x : Meta).
        not p.op_sealed && can_delete x.lock p.floor (record { bypass_governance = bypass }))
      same
    ∙ ground (arith, denied)

delete_if-Stands :
    (name n : Text) (bypass : Bool) (o : Option Meta) (m : Meta) (until : ℕ) (p : Plain)
    → lookup n p.index ≡ o
    → p.floor ≤ until
    → (text_eq n name ≡ false)
      ⊎ (can_delete m.lock until (record { bypass_governance = bypass }) ≡ false)
    → Stands name m p.index
    → Stands name m (delete_if n bypass o p).index
unfolding may_delete
delete_if-Stands name n bypass none m until p f le r s = s
delete_if-Stands name n bypass (some k) m until p f le r s =
    elim (Bool-cases (may_delete p bypass k)) [
      | inr stays ↦ rw stays s
      | inl may ↦ rw may (elim (Bool-cases (text_eq n name)) [
        | inr ne ↦ remove-Stands name n m p.index ne s
        | inl eq ↦ elim r [
          | inl ne ↦ cc
          | inr d ↦ let may_not = not-may_delete name n bypass k m until p eq f le d s in cc
        ]
      ])
    ]

hold_if-Stands :
    (name n : Text) (o : Option Meta) (m : Meta) (p : Plain)
    → lookup n p.index ≡ o
    → Stands name m p.index
    → Stands name m (hold_if n o p).index
unfolding set_hold
hold_if-Stands name n none m p f s = s
hold_if-Stands name n (some k) m p f s = elim (Bool-cases (text_eq n name)) [
  | inr ne ↦ insert-Stands name n _ m p.index ne s
  | inl eq ↦ (
    true,
    lookup-insert n name _ p.index
        ∙ rw eq (
            ap (λ (x : Meta). some (record x { lock = set_hold x.lock }))
              (same_object name n k (with_hold s.0 m) p.index eq f s.1)),
    λ h. refl,
  )
]

release_if-Stands :
    (name n : Text) (o : Option Meta) (m : Meta) (p : Plain)
    → lookup n p.index ≡ o
    → (text_eq n name ≡ false) ⊎ (m.lock.legal_hold ≡ false)
    → Stands name m p.index
    → Stands name m (release_if n o p).index
unfolding release_hold
release_if-Stands name n none m p f r s = s
release_if-Stands name n (some k) m p f (inl ne) s = insert-Stands name n _ m p.index ne s
release_if-Stands name n (some k) m p f (inr free) s = elim (Bool-cases (text_eq n name)) [
  | inr ne ↦ insert-Stands name n _ m p.index ne s
  | inl eq ↦ (
    false,
    lookup-insert n name _ p.index
        ∙ rw eq (
            ap (λ (x : Meta). some (record x { lock = release_hold x.lock }))
              (same_object name n k (with_hold s.0 m) p.index eq f s.1)),
    λ h. cc,
  )
]

version_if-index : (n : Text) (o : Option Meta) (p : Plain) → (version_if n o p).index ≡ p.index
version_if-index n none p = refl
version_if-index n (some m) p = elim (Bool-cases (p.ver_seq == natural_last)) [
  | inl e ↦ rw e refl
  | inr e ↦ rw e refl
]

drop_if-Stands :
    (name n : Text) (o : Option Meta) (m : Meta) (p : Plain)
    → text_eq n name ≡ false
    → Stands name m p.index
    → Stands name m (drop_if n o p).index
drop_if-Stands name n none m p ne s = s
drop_if-Stands name n (some k) m p ne s = remove-Stands name n m p.index ne s

plain_mark-Stands :
    (name n : Text) (m : Meta) (p : Plain)
    → text_eq n name ≡ false
    → Stands name m p.index
    → Stands name m (plain_mark n p).index
plain_mark-Stands name n m p ne s = elim (Bool-cases (p.ver_seq == natural_last)) [
  | inl e ↦ rw e s
  | inr e ↦ rw e (drop_if-Stands name n (lookup n p.index) m _ ne s)
]

drop_version_if-Stands :
    (name n vid : Text) (o : Option (List VersionEntry)) (m : Meta) (p : Plain)
    → text_eq n name ≡ false
    → Stands name m p.index
    → Stands name m (drop_version_if n vid o p).index
drop_version_if-Stands name n vid none m p ne s = s
drop_version_if-Stands name n vid (some es) m p ne s = elim (Bool-cases (has_version vid es)) [
  | inl e ↦ rw e (repoint-Stands name n _ m p.index ne s)
  | inr e ↦ rw e s
]

put-Stands :
    (name n : Text) (b : Bool) (k m : Meta) (p : Plain)
    → text_eq n name ≡ false
    → Stands name m p.index
    → Stands name m (if b then record p { index = insert n k p.index } else p).index
put-Stands name n true k m p ne s = insert-Stands name n k m p.index ne s
put-Stands name n false k m p ne s = s

pub plain_step-Stands :
    (name : Text) (m : Meta) (until : ℕ) (op : Operation) (p : Plain)
    → Respects name m until op
    → p.floor ≤ until
    → Stands name m p.index
    → Stands name m (plain_step op p).index
unfolding plain_step plain_tick
plain_step-Stands name m until (put n id composite size mode retain_for meta) p r le s =
    put-Stands name n (accepts p mode retain_for) _ m p r s
plain_step-Stands name m until (delete n bypass) p r le s =
    delete_if-Stands name n bypass (lookup n p.index) m until p refl le r s
plain_step-Stands name m until (hold n) p r le s =
    hold_if-Stands name n (lookup n p.index) m p refl s
plain_step-Stands name m until (release n) p r le s =
    release_if-Stands name n (lookup n p.index) m p refl r s
plain_step-Stands name m until (version n) p r le s =
    subst (Stands name m) (sym (version_if-index n (lookup n p.index) p)) s
plain_step-Stands name m until (mark n) p r le s = plain_mark-Stands name n m p r s
plain_step-Stands name m until (drop_version n vid) p r le s =
    drop_version_if-Stands name n vid (lookup n p.versions) m p r s
plain_step-Stands name m until (tick sample) p r le s = s
plain_step-Stands name m until (system_tick sample boot) p r le s = s
plain_step-Stands name m until seal_vault p r le s = s
plain_step-Stands name m until open_window p r le s = s
plain_step-Stands name m until close_window p r le s = s
plain_step-Stands name m until (ingest enabled) p r le s = s
plain_step-Stands name m until (make_bucket n lock) p r le s = s
plain_step-Stands name m until (versioning n on) p r le s = s
plain_step-Stands name m until (remove_bucket n) p r le s = s
