-- ===== src/Common/Lists.antt =====
-- Lists measured and cut by native numbers, under the library's names; bytes.
use Prim.Native.Nat.{ℕ, zero, suc, ◌+◌, ◌-◌, ◌≤◌, ◌<◌, min}
use mathlib.Core.Path.{◌≡◌, refl, ap}
use mathlib.Core.List.{List, [], ◌∷◌, ◌++◌}
use mathlib.Core.Option.{Option, none, some}
use native.Mathlib.Omega.{arith}

module _ {ℓ} {A : Type ℓ} where
  abbrev pub length : List A → ℕ
  length [] = 0
  length (x ∷ xs) = suc (length xs)

  abbrev pub get_elem? : List A → ℕ → Option A
  get_elem? [] i = none
  get_elem? (x ∷ xs) zero = some x
  get_elem? (x ∷ xs) (suc i) = get_elem? xs i

  abbrev pub get_or : List A → ℕ → A → A
  get_or [] i d = d
  get_or (x ∷ xs) zero d = x
  get_or (x ∷ xs) (suc i) d = get_or xs i d

  -- A write out of bounds changes nothing.
  abbrev pub set : List A → ℕ → A → List A
  set [] i v = []
  set (x ∷ xs) zero v = v ∷ xs
  set (x ∷ xs) (suc i) v = x ∷ set xs i v

  abbrev pub take : ℕ → List A → List A
  take zero xs = []
  take (suc n) [] = []
  take (suc n) (x ∷ xs) = x ∷ take n xs

  abbrev pub drop : ℕ → List A → List A
  drop zero xs = xs
  drop (suc n) [] = []
  drop (suc n) (x ∷ xs) = drop n xs

  abbrev pub replicate : ℕ → A → List A
  replicate zero a = []
  replicate (suc n) a = a ∷ replicate n a

  abbrev pub All {κ} : (A → Type κ) → List A → Type κ
  All P [] = Unit {κ}
  All P (x ∷ xs) = P x × All P xs

-- `Uint8Array.prototype.slice(first, end)`, for `first ≤ end`.
abbrev pub slice {ℓ} : {A : Type ℓ} → List A → ℕ → ℕ → List A
slice xs first end = take (end - first) (drop first xs)

module _ {ℓ} {A : Type ℓ} where
  pub length-append : (xs ys : List A) → length (xs ++ ys) ≡ length xs + length ys
  length-append [] ys = omega arith
  length-append (x ∷ xs) ys = omega (arith, length-append xs ys)

  pub length-take : (n : ℕ) (xs : List A) → length (take n xs) ≡ min n (length xs)
  length-take zero xs = omega arith
  length-take (suc n) [] = omega arith
  length-take (suc n) (x ∷ xs) = omega (arith, length-take n xs)

  pub length-drop : (n : ℕ) (xs : List A) → length (drop n xs) ≡ length xs - n
  length-drop zero xs = omega arith
  length-drop (suc n) [] = omega arith
  length-drop (suc n) (x ∷ xs) = omega (arith, length-drop n xs)

  pub length-replicate : (n : ℕ) (a : A) → length (replicate n a) ≡ n
  length-replicate zero a = refl
  length-replicate (suc n) a = ap suc (length-replicate n a)

  pub length-set : (xs : List A) (i : ℕ) (v : A) → length (set xs i v) ≡ length xs
  length-set [] i v = refl
  length-set (x ∷ xs) zero v = refl
  length-set (x ∷ xs) (suc i) v = ap suc (length-set xs i v)

  pub take-append-drop : (n : ℕ) (xs : List A) → take n xs ++ drop n xs ≡ xs
  take-append-drop zero xs = refl
  take-append-drop (suc n) [] = refl
  take-append-drop (suc n) (x ∷ xs) = rw (take-append-drop n xs)

  pub take-append_self : (xs ys : List A) {n : ℕ} → n ≡ length xs → take n (xs ++ ys) ≡ xs
  take-append_self [] ys {n = zero} e = refl
  take-append_self [] ys {n = suc n} e = absurd (omega arith)
  take-append_self (x ∷ xs) ys {n = zero} e = absurd (omega arith)
  take-append_self (x ∷ xs) ys {n = suc n} e =
      ap (λ t. x ∷ t) (take-append_self xs ys (omega arith))

  pub drop-append_self : (xs ys : List A) {n : ℕ} → n ≡ length xs → drop n (xs ++ ys) ≡ ys
  drop-append_self [] ys {n = zero} e = refl
  drop-append_self [] ys {n = suc n} e = absurd (omega arith)
  drop-append_self (x ∷ xs) ys {n = zero} e = absurd (omega arith)
  drop-append_self (x ∷ xs) ys {n = suc n} e = drop-append_self xs ys (omega arith)

  pub take_all : (n : ℕ) (xs : List A) → length xs ≤ n → take n xs ≡ xs
  take_all zero [] h = refl
  take_all zero (x ∷ xs) h = absurd (omega arith)
  take_all (suc n) [] h = refl
  take_all (suc n) (x ∷ xs) h = ap (λ t. x ∷ t) (take_all n xs (omega arith))

  pub drop-drop : (n m k : ℕ) (xs : List A) → m + n ≡ k → drop n (drop m xs) ≡ drop k xs
  drop-drop n zero k xs e = ap (λ (j : ℕ). drop j xs) (omega arith)
  drop-drop n (suc m) zero xs e = absurd (omega arith)
  drop-drop zero (suc m) (suc k) [] e = refl
  drop-drop (suc n) (suc m) (suc k) [] e = refl
  drop-drop n (suc m) (suc k) (x ∷ xs) e = drop-drop n m k xs (omega arith)

  pub append-eq_parts :
      (xs us ys vs : List A) → length xs ≡ length us → xs ++ ys ≡ us ++ vs → (xs ≡ us) × (ys ≡ vs)
  append-eq_parts [] [] ys vs e h = (refl, h)
  append-eq_parts [] (u ∷ us) ys vs e h = absurd (omega arith)
  append-eq_parts (x ∷ xs) [] ys vs e h = absurd (omega arith)
  append-eq_parts (x ∷ xs) (u ∷ us) ys vs e h = ground (arith, append-eq_parts xs us ys vs)

  pub All-append {κ} : (P : A → Type κ) (xs ys : List A) → All P xs → All P ys → All P (xs ++ ys)
  All-append P [] ys hx hy = hy
  All-append P (x ∷ xs) ys hx hy = (hx.0, All-append P xs ys hx.1 hy)

  pub All_mono {κ μ} :
      {P : A → Type κ} {Q : A → Type μ} (xs : List A) → ((x : A) → P x → Q x) → All P xs → All Q xs
  All_mono [] f h = tt
  All_mono (x ∷ xs) f h = (f x h.0, All_mono xs f h.1)

  pub All-take {κ} : (P : A → Type κ) (n : ℕ) (xs : List A) → All P xs → All P (take n xs)
  All-take P zero xs h = tt
  All-take P (suc n) [] h = tt
  All-take P (suc n) (x ∷ xs) h = (h.0, All-take P n xs h.1)

  pub All-drop {κ} : (P : A → Type κ) (n : ℕ) (xs : List A) → All P xs → All P (drop n xs)
  All-drop P zero xs h = h
  All-drop P (suc n) [] h = tt
  All-drop P (suc n) (x ∷ xs) h = All-drop P n xs h.1

-- The elements of a `Uint8Array`.
abbrev pub IsByte : ℕ → Type 0
IsByte b = b < 256

abbrev pub Bytes : Type 0
Bytes = List ℕ
