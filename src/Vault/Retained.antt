-- ===== src/Vault/Retained.antt =====
-- Retention over sequences of calls: the locks of trusted_core/src/dezhan-trusted_core-retention.adb
-- under the trusted time of trusted_core/src/dezhan-trusted_core-clock_guard.adb, in the vault of
-- vault/src/dezhan-vault.adb.
use dezhan.Base.{
  ℕ, ◌≤◌, ◌<◌, [], ◌∷◌, List, Bool, true, false, ◌≡◌, inr, refl, sym, subst, arith, All, some,
}
use dezhan.Text.{Text, text_eq}
use dezhan.Dict.{lookup}
use dezhan.Core.Retention.{compliance, can_delete}
use dezhan.Core.Clock.{time_last}
use dezhan.Vault.State.{Meta, Vault}
use dezhan.Vault.Operations.{
  Operation, put, delete, hold, release, version, mark, drop_version, tick, system_tick, seal_vault,
  open_window, close_window, ingest, make_bucket, versioning, remove_bucket, run,
}
use dezhan.Vault.Keeps.{Plain, plain}
use dezhan.Vault.Spec.{plain_step, plain_run}
use dezhan.Vault.Refines.Runs.{run-plain}
use dezhan.Vault.Stands.{Respects, Stands, with_hold, plain_step-Stands}
use dezhan.Vault.Time.{IsTimed, plain_step-Advances, plain_run-Advances}

plain_run-Stands :
    (name : Text) (m : Meta) (until : ℕ) (ops : List Operation) (p : Plain)
    → All IsTimed ops
    → p.started ≡ true
    → p.floor ≤ time_last
    → All (Respects name m until) ops
    → (plain_run ops p).floor ≤ until
    → Stands name m p.index
    → Stands name m (plain_run ops p).index
unfolding plain_run
plain_run-Stands name m until [] p t s le r u h = h
plain_run-Stands name m until (op ∷ ops) p t s le r u h =
    let one = plain_step-Advances op p t.0 s le in
    let more = plain_run-Advances ops (plain_step op p) t.1 one.running one.in_range in
    plain_run-Stands name m until ops (plain_step op p) t.1 one.running one.in_range r.1 u
      (plain_step-Stands name m until op p r.0 (omega (arith, one.forward, more.forward)) h)

-- An object is still in the index after a sequence of calls, as it was but for a hold that was added,
-- as long as the calls do not put it anew, mark it, drop a version of it or, if it is held, release it,
-- and as long as its lock forbids each of the deletions of it at the time that is reached in the end.
-- Trusted time is running.
pub run-Stands :
    (name : Text) (m : Meta) (ops : List Operation) (v : Vault)
    → All IsTimed ops
    → v.started ≡ true
    → v.clock.floor ≤ time_last
    → All (Respects name m (run ops v).clock.floor) ops
    → lookup name v.index ≡ some m
    → Stands name m (run ops v).index
run-Stands name m ops v t s le r f =
    let same = run-plain ops v in
    subst (λ (p : Plain). Stands name m p.index) (sym same)
      (plain_run-Stands name m (run ops v).clock.floor ops (plain v) t s le r
        (subst (λ (p : Plain). p.floor ≤ (run ops v).clock.floor) same (omega arith))
        (m.lock.legal_hold, f, λ h. h))

-- The call does not put the object, mark it or drop a version of it.
abbrev pub Spares : Text → Operation → Type 0
Spares name (put n id composite size mode retain_for meta) = text_eq n name ≡ false
Spares name (mark n) = text_eq n name ≡ false
Spares name (drop_version n vid) = text_eq n name ≡ false
Spares name op = Unit

Spares-Respects :
    (name : Text) (m : Meta) (until : ℕ)
    → m.lock.mode ≡ compliance
    → until < m.lock.retain_until
    → m.lock.legal_hold ≡ false
    → (op : Operation) → Spares name op
    → Respects name m until op
unfolding can_delete
Spares-Respects name m until c lt free (put n id composite size mode retain_for meta) h = h
Spares-Respects name m until c lt free (delete n bypass) h = inr (simp (free, c) (ground arith))
Spares-Respects name m until c lt free (hold n) h = tt
Spares-Respects name m until c lt free (release n) h = inr free
Spares-Respects name m until c lt free (version n) h = tt
Spares-Respects name m until c lt free (mark n) h = h
Spares-Respects name m until c lt free (drop_version n vid) h = h
Spares-Respects name m until c lt free (tick sample) h = tt
Spares-Respects name m until c lt free (system_tick sample boot) h = tt
Spares-Respects name m until c lt free seal_vault h = tt
Spares-Respects name m until c lt free open_window h = tt
Spares-Respects name m until c lt free close_window h = tt
Spares-Respects name m until c lt free (ingest enabled) h = tt
Spares-Respects name m until c lt free (make_bucket n lock) h = tt
Spares-Respects name m until c lt free (versioning n on) h = tt
Spares-Respects name m until c lt free (remove_bucket n) h = tt

All-Respects :
    (name : Text) (m : Meta) (until : ℕ) (ops : List Operation)
    → ((op : Operation) → Spares name op → Respects name m until op)
    → All (Spares name) ops
    → All (Respects name m until) ops
All-Respects name m until [] f h = tt
All-Respects name m until (op ∷ ops) f h = (f op h.0, All-Respects name m until ops f h.1)

-- An object under a compliance lock is still in the index, with its id and its retention, after any
-- sequence of calls at whose end trusted time is before the end of the retention: deletions with and
-- without the bypass, holds set and released, clock samples of any reading, seals and the rest. Trusted
-- time is running, and the calls do not put the object anew, mark it or drop a version of it.
pub run-compliance :
    (name : Text) (m : Meta) (ops : List Operation) (v : Vault)
    → All IsTimed ops
    → All (Spares name) ops
    → v.started ≡ true
    → v.clock.floor ≤ time_last
    → lookup name v.index ≡ some m
    → m.lock.mode ≡ compliance
    → (run ops v).clock.floor < m.lock.retain_until
    → (b : Bool) × (lookup name (run ops v).index ≡ some (with_hold b m))
run-compliance name m ops v t sp s le f c lt =
    let same = run-plain ops v in
    let free = with_hold false m in
    let stands =
      subst (λ (p : Plain). Stands name free p.index) (sym same)
        (plain_run-Stands name free (run ops v).clock.floor ops (plain v) t s le
          (All-Respects name free (run ops v).clock.floor ops
            (Spares-Respects name free (run ops v).clock.floor c lt refl) sp)
          (subst (λ (p : Plain). p.floor ≤ (run ops v).clock.floor) same (omega arith))
          (m.lock.legal_hold, f, λ h. cc)) in
    (stands.0, stands.1)
