-- ===== src/Base/Results.antt =====
-- Go's `(value, error)` results, and code that acts on a world and may fail. What was done to the
-- world before an error stays done, so the world comes back beside the error too.
use mathlib.Core.Path.{◌≡◌, refl, ap}
use mathlib.Core.Option.{Option, none, some}

pub data Result {ℓ κ} (E : Type ℓ) (A : Type κ) : Type (ℓ ⊔ κ) where
  ok : A → Result E A
  err : E → Result E A

abbrev pub Exec {ℓ} : Type ℓ → Type ℓ → Type ℓ → Type ℓ
Exec W E A = W → Result E A × W

module _ {ℓ} {W E A : Type ℓ} where
  abbrev pub pure : A → Exec W E A
  pure a w = (ok a, w)

  abbrev pub fail : E → Exec W E A
  fail e w = (err e, w)

module _ {ℓ} {W E A B : Type ℓ} where
  abbrev pub continue : Result E A × W → (A → Exec W E B) → Result E B × W
  continue (ok a, w) f = f a w
  continue (err e, w) f = (err e, w)

  infixl 10 ◌>>=◌ ◌>>◌
  abbrev pub ◌>>=◌ : Exec W E A → (A → Exec W E B) → Exec W E B
  ◌>>=◌ m f w = continue (m w) f

  abbrev pub ◌>>◌ : Exec W E A → Exec W E B → Exec W E B
  m >> k = m >>= λ _. k

module _ {ℓ} {W E F A : Type ℓ} where
  abbrev pub mapped : (E → F) → Result E A × W → Result F A × W
  mapped f (ok a, w) = (ok a, w)
  mapped f (err e, w) = (err (f e), w)

  -- `if err != nil { return f(err) }` around a call
  abbrev pub or_fail : Exec W E A → (E → F) → Exec W F A
  or_fail m f w = mapped f (m w)

module _ {ℓ} {W E A : Type ℓ} where
  -- a plain result as an action
  abbrev pub lift : Result E A → Exec W E A
  lift r w = (r, w)

-- A call that answers with an error value alone, `nil` for success.
module _ {ℓ} {W E : Type ℓ} where
  abbrev pub checked : Option E × W → Result E (Unit {ℓ}) × W
  checked (none, w) = (ok tt, w)
  checked (some e, w) = (err e, w)

  abbrev pub nil_or : (W → Option E × W) → Exec W E (Unit {ℓ})
  nil_or m w = checked (m w)

module _ {ℓ} {W E A B : Type ℓ} where
  continue-ok :
      (x : Result E A × W) (f : A → Exec W E B) {b : B}
      → (continue x f).0 ≡ ok b
      → (a : A) × (x.0 ≡ ok a) × ((f a x.1).0 ≡ ok b) × (continue x f ≡ f a x.1)
  continue-ok (ok a, w) f h = (a, refl, h, refl)
  continue-ok (err e, w) f h = cc

  -- Inversion of a chain that has succeeded.
  pub >>=-ok :
      (m : Exec W E A) (f : A → Exec W E B) (w : W) {b : B}
      → ((m >>= f) w).0 ≡ ok b
      → (a : A) × ((m w).0 ≡ ok a) × ((f a (m w).1).0 ≡ ok b) × ((m >>= f) w ≡ f a (m w).1)
  >>=-ok m f w h = continue-ok (m w) f h

  -- A chain stops at its first error, in the world that the failing step left.
  pub >>=-err :
      (m : Exec W E A) (f : A → Exec W E B) (w v : W) {e : E}
      → m w ≡ (err e, v)
      → (m >>= f) w ≡ (err e, v)
  >>=-err m f w v h = ap (λ (x : Result E A × W). continue x f) h
