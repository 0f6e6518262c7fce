-- ===== src/Vault/Marked.antt =====
-- Delete_Marker beside Delete_Object, of vault/src/dezhan-vault.adb, on an object under a lock.
use dezhan.Base.{
  ◌<◌, Bool, false, Option, none, some, ◌≡◌, refl, ap, ◌∙◌, ◌==◌, if◌then◌else◌, arith,
}
use dezhan.Text.{Text, text_eq_refl}
use dezhan.Dict.{lookup, remove, lookup-remove}
use dezhan.Core.Retention.{compliance, can_delete}
use dezhan.Core.Audit.{natural_last}
use dezhan.Vault.State.{Meta, Vault}
use dezhan.Vault.Objects.{delete_object}
use dezhan.Vault.Versions.{delete_marker}
use dezhan.Vault.Operations.{delete, mark, step}
use dezhan.Vault.Keeps.{Plain, plain}
use dezhan.Vault.Spec.{plain_step, plain_mark, delete_if, may_delete}
use dezhan.Vault.Refines.Runs.{step-plain}

plain_mark-takes :
    (name : Text) (m : Meta) (p : Plain)
    → lookup name p.index ≡ some m
    → (p.ver_seq == natural_last) ≡ false
    → lookup name (plain_mark name p).index ≡ none
plain_mark-takes name m p f room =
    rw (room, f) (lookup-remove name name p.index ∙ rw (text_eq_refl name) refl)

not-may_delete :
    (m : Meta) (bypass : Bool) (p : Plain)
    → m.lock.mode ≡ compliance
    → p.floor < m.lock.retain_until
    → may_delete p bypass m ≡ false
unfolding may_delete can_delete
not-may_delete m bypass p c lt = simp c (ground arith)

delete_if-leaves :
    (name : Text) (m : Meta) (bypass : Bool) (p : Plain)
    → lookup name p.index ≡ some m
    → m.lock.mode ≡ compliance
    → p.floor < m.lock.retain_until
    → lookup name (plain_step (delete name bypass) p).index ≡ some m
unfolding plain_step
delete_if-leaves name m bypass p f c lt =
    ap (λ (o : Option Meta). lookup name (delete_if name bypass o p).index) f
    ∙ (ap
          (λ (b : Bool).
            lookup name (if b then record p { index = remove name p.index } else p).index)
          (not-may_delete m bypass p c lt)
        ∙ f)

-- On an object under a compliance lock that has not run out, Delete_Object leaves the object in the
-- index, with the bypass and without it; Delete_Marker takes it out, whether the vault is sealed or
-- not, where a version number is left.
pub delete_marker-takes :
    (name : Text) (m : Meta) (bypass : Bool) (v : Vault)
    → lookup name v.index ≡ some m
    → m.lock.mode ≡ compliance
    → v.clock.floor < m.lock.retain_until
    → (v.ver_seq == natural_last) ≡ false
    → (lookup name (delete_object name bypass v).1.index ≡ some m)
      × (lookup name (delete_marker name v).1.index ≡ none)
unfolding step
delete_marker-takes name m bypass v f c lt room = (
  ap (λ (p : Plain). lookup name p.index) (step-plain (delete name bypass) v)
      ∙ delete_if-leaves name m bypass (plain v) f c lt,
  ap (λ (p : Plain). lookup name p.index) (step-plain (mark name) v)
      ∙ unfold plain_step in plain_mark-takes name m (plain v) f room,
)
