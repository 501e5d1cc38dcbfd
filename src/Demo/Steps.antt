-- ===== src/Demo/Steps.antt =====
-- A command that succeeds has succeeded in each of its parts.
use cc_vrf.Common.{◌≡◌, refl, ap, Bool, true, false, Result, ok, err, ok_injective}
use cc_vrf.Demo.Host.{DemoError, bind, require}

pub err_not_ok {ℓ} :
    {A : Type ℓ} {e : DemoError} {a : A} → ¬ Path (Result DemoError A) (err e) (ok a)
err_not_ok h = cc

module _ {W : Type 0} where
  pub bind-eq-ok {ℓ κ} :
      {A : Type ℓ} {B : Type κ} (first : Result DemoError A × W)
      (next : A → W → Result DemoError B × W) {b : B} {w : W}
      → bind first next ≡ (ok b, w)
      → (a : A) × (v : W) × (first ≡ (ok a, v)) × (next a v ≡ (ok b, w))
  bind-eq-ok (ok a, v) next e = (a, v, refl, e)
  bind-eq-ok (err x, v) next e = absurd (err_not_ok (ap (λ p. p.0) e))

  pub ok_and_world {ℓ} :
      {A : Type ℓ} {a b : A} {v w : W}
      → Path (Result DemoError A × W) (ok a, v) (ok b, w)
      → (a ≡ b) × (v ≡ w)
  ok_and_world e = (ok_injective (ap (λ p. p.0) e), ap (λ p. p.1) e)

  pub require-eq-ok :
      (test : Bool) (e : DemoError) (v : W) {u : Unit {0}} {w : W}
      → require test e v ≡ (ok u, w)
      → (test ≡ true) × (v ≡ w)
  require-eq-ok true e v h = (refl, ap (λ p. p.1) h)
  require-eq-ok false e v h = absurd (err_not_ok (ap (λ p. p.0) h))

  -- A step that leaves the world as it is.
  pub lift-eq-ok {ℓ κ} :
      {A : Type ℓ} {B : Type κ} (r : Result DemoError A) (v : W)
      (next : A → W → Result DemoError B × W) {b : B} {w : W}
      → bind (r, v) next ≡ (ok b, w)
      → (a : A) × (r ≡ ok a) × (next a v ≡ (ok b, w))
  lift-eq-ok (ok a) v next e = (a, refl, e)
  lift-eq-ok (err x) v next e = absurd (err_not_ok (ap (λ p. p.0) e))
