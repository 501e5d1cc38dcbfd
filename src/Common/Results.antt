-- ===== src/Common/Results.antt =====
-- A computation that returns a value or throws, with `do`.
use mathlib.Core.Path.{◌≡◌, refl, ap}
use mathlib.Core.Logic.{◌⊎◌, inl, inr}
use mathlib.Core.Bool.{Bool, true, false}
use mathlib.Core.Option.{some}

pub data Result {ℓ κ} (E : Type ℓ) (A : Type κ) : Type (ℓ ⊔ κ) where
  ok : A → Result E A
  err : E → Result E A

-- `if (!test) throw e`
abbrev pub guard {ℓ} : {E : Type ℓ} → Bool → E → Result E (Unit {0})
guard false e = err e
guard true e = ok tt

infixl 5 ◌>>=◌ ◌>>◌
abbrev pub ◌>>=◌ {ℓ κ μ} :
    {E : Type ℓ} {A : Type κ} {B : Type μ} → Result E A → (A → Result E B) → Result E B
err e >>= next = err e
ok a >>= next = next a

abbrev pub ◌>>◌ {ℓ κ} : {E : Type ℓ} {B : Type κ} → Result E (Unit {0}) → Result E B → Result E B
first >> next = first >>= λ _. next

pub Result-cases {ℓ κ} :
    {E : Type ℓ} {A : Type κ} (r : Result E A) → ((a : A) × (r ≡ ok a)) ⊎ ((e : E) × (r ≡ err e))
Result-cases (ok a) = inl (a, refl)
Result-cases (err e) = inr (e, refl)

-- A bind that succeeds has succeeded in both of its parts.
pub >>=-eq-ok {ℓ κ μ} :
    {E : Type ℓ} {A : Type κ} {B : Type μ} (first : Result E A) (next : A → Result E B) {result : B}
    → (first >>= next) ≡ ok result
    → (a : A) × (first ≡ ok a) × (next a ≡ ok result)
>>=-eq-ok (err e) next h = cc
>>=-eq-ok (ok a) next h = (a, refl, h)

pub guard-eq-ok {ℓ κ} :
    {E : Type ℓ} {A : Type κ} (test : Bool) (e : E) (m : Result E A) {a : A}
    → (guard test e >> m) ≡ ok a
    → (test ≡ true) × (m ≡ ok a)
guard-eq-ok true e m h = (refl, h)
guard-eq-ok false e m h = cc

pub guard_passed {ℓ} :
    {E : Type ℓ} (test : Bool) (e : E) {u : Unit {0}} → guard test e ≡ ok u → test ≡ true
guard_passed true e h = refl
guard_passed false e h = cc

pub some_injective {ℓ} : {A : Type ℓ} {a b : A} → some a ≡ some b → a ≡ b
some_injective e = cc

pub ok_injective {ℓ κ} :
    {E : Type ℓ} {A : Type κ} {a b : A} → Path (Result E A) (ok a) (ok b) → a ≡ b
ok_injective e = cc

-- The value of a bind whose first part is known.
pub >>=-ok {ℓ κ μ} :
    {E : Type ℓ} {A : Type κ} {B : Type μ} (first : Result E A) (next : A → Result E B) {a : A}
    → first ≡ ok a
    → (first >>= next) ≡ next a
>>=-ok (ok b) next h = ap next (ok_injective h)
>>=-ok (err e) next h = absurd cc

pub guard-true {ℓ κ} :
    {E : Type ℓ} {A : Type κ} (test : Bool) (e : E) (m : Result E A)
    → test ≡ true
    → (guard test e >> m) ≡ m
guard-true true e m h = refl
guard-true false e m h = absurd cc
