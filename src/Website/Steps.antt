-- ===== src/Website/Steps.antt =====
-- What a step of a page's `try` block says when it succeeds.
use cc_vrf.Common.{◌≡◌, ap, Option, none, some, Result, ok, err, ok_injective}
use cc_vrf.Client.Platform.{ClientError}
use cc_vrf.Website.Verify.{PageError, or_absent, called, or_error}

pub or_absent-eq-ok {ℓ} :
    {A : Type ℓ} (e : PageError) (o : Option A) {a : A} → or_absent e o ≡ ok a → o ≡ some a
or_absent-eq-ok e (some a) same = ap some (ok_injective same)
or_absent-eq-ok e none same = absurd cc

pub called-eq-ok {ℓ} : {A : Type ℓ} (r : Result ClientError A) {a : A} → called r ≡ ok a → r ≡ ok a
called-eq-ok (ok a) same = ap ok (ok_injective same)
called-eq-ok (err e) same = absurd cc

pub or_error-eq-ok {ℓ κ} :
    {A : Type ℓ} {E : Type κ} (e : PageError) (r : Result E A) {a : A}
    → or_error e r ≡ ok a
    → r ≡ ok a
or_error-eq-ok e (ok a) same = ap ok (ok_injective same)
or_error-eq-ok e (err x) same = absurd cc
