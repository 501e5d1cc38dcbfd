-- ===== src/Ecvrf/Keypair/Clamp.antt =====
-- The clamped scalar of RFC 8032: a multiple of 8 between 2 ^ 254 and 2 ^ 255.
use native.Mathlib.Nat.{pow-suc}
use cc_vrf.Common.{
  ℕ, zero, suc, ◌+◌, ◌*◌, ◌%◌, ◌^◌, ◌≤◌, ◌<◌, ◌≡◌, refl, ap, Bytes, IsByte, All, [], ◌∷◌, Bool,
  true, arith, length, set, get_or, length-set, bit_and, bit_or, ◌&&◌, ltb, leb, ◌==◌, &&-eq-true,
  leb→le, ltb→lt, ==_iff,
}
use cc_vrf.Ecvrf.Encoding.{bytes_to_big_int_le}
use cc_vrf.Ecvrf.Encoding.Integers.{push_byte}
use cc_vrf.Ecvrf.Keypair.{clamp}

-- Every value of a byte, by evaluation.
holds_below : ℕ → (ℕ → Bool) → Bool
holds_below zero p = true
holds_below (suc n) p = p n && holds_below n p

holds_below_sound : (n : ℕ) (p : ℕ → Bool) (b : ℕ) → holds_below n p ≡ true → b < n → p b ≡ true
unfolding holds_below
holds_below_sound zero p b e h = absurd (omega arith)
holds_below_sound (suc n) p b e h = ground (arith, holds_below_sound n p b)

abbrev low_test : ℕ → Bool
low_test b = (bit_and b 248 % 8 == 0) && ltb (bit_and b 248) 256

abbrev high_test : ℕ → Bool
high_test b = leb 64 (bit_or (bit_and b 127) 64) && ltb (bit_or (bit_and b 127) 64) 128

low_table : holds_below 256 low_test ≡ true
unfolding holds_below
low_table = refl

high_table : holds_below 256 high_test ≡ true
unfolding holds_below
high_table = refl

low_bits_cleared : (b : ℕ) → IsByte b → (bit_and b 248 % 8 ≡ 0) × IsByte (bit_and b 248)
low_bits_cleared b h =
    let (p, q) = &&-eq-true _ _ (holds_below_sound 256 low_test b low_table h) in
    ((==_iff _ _).0 p, ltb→lt _ _ q)

high_bits_set :
    (b : ℕ) → IsByte b → (64 ≤ bit_or (bit_and b 127) 64) × (bit_or (bit_and b 127) 64 < 128)
high_bits_set b h =
    let (p, q) = &&-eq-true _ _ (holds_below_sound 256 high_test b high_table h) in
    (leb→le _ _ p, ltb→lt _ _ q)

get_or-IsByte : (xs : Bytes) (i : ℕ) → All IsByte xs → IsByte (get_or xs i 0)
get_or-IsByte [] i h = omega arith
get_or-IsByte (x ∷ xs) zero h = h.0
get_or-IsByte (x ∷ xs) (suc i) h = get_or-IsByte xs i h.1

set-IsByte : (xs : Bytes) (i v : ℕ) → All IsByte xs → IsByte v → All IsByte (set xs i v)
set-IsByte [] i v h hv = tt
set-IsByte (x ∷ xs) zero v h hv = (hv, h.1)
set-IsByte (x ∷ xs) (suc i) v h hv = (h.0, set-IsByte xs i v h.1 hv)

-- The last byte carries the value, up to what the bytes below it add.
top_byte :
    (n : ℕ) (xs : Bytes) (v : ℕ)
    → length xs ≡ suc n
    → All IsByte xs
    → IsByte v
    → (v * 256 ^ n ≤ bytes_to_big_int_le (set xs n v))
      × (bytes_to_big_int_le (set xs n v) < (v + 1) * 256 ^ n)
unfolding bytes_to_big_int_le
top_byte n [] v e h hv = absurd (omega arith)
top_byte zero (x ∷ []) v e h hv = omega (arith, push_byte 0 v hv)
top_byte zero (x ∷ y ∷ xs) v e h hv = absurd (omega arith)
top_byte (suc n) (x ∷ xs) v e (hx, h) hv =
    let (lo, hi) = top_byte n xs v (omega arith) h hv in
    let p = push_byte (bytes_to_big_int_le (set xs n v)) x hx in
    let q = ap (λ (t : ℕ). v * t) (pow-suc 256 n) in
    (omega (arith, lo, hi, p, q), omega (arith, lo, hi, p, q, pow-suc 256 n))

-- The first byte decides divisibility by 8.
first_byte :
    (xs : Bytes) (v n w : ℕ)
    → All IsByte xs
    → IsByte v
    → v % 8 ≡ 0
    → bytes_to_big_int_le (set (set xs 0 v) (suc n) w) % 8 ≡ 0
unfolding bytes_to_big_int_le
first_byte [] v n w h hv e = refl
first_byte (x ∷ xs) v n w h hv e = omega (arith, push_byte (bytes_to_big_int_le (set xs n w)) v hv)

get_or-set_other : (xs : Bytes) (v n : ℕ) → get_or (set xs 0 v) (suc n) 0 ≡ get_or xs (suc n) 0
get_or-set_other [] v n = refl
get_or-set_other (x ∷ xs) v n = refl

set-set : (xs : Bytes) (i v w : ℕ) → set (set xs i v) i w ≡ set xs i w
set-set [] i v w = refl
set-set (x ∷ xs) zero v w = refl
set-set (x ∷ xs) (suc i) v w = ap (λ t. x ∷ t) (set-set xs i v w)

get_or-set_self : (xs : Bytes) (i v : ℕ) → i < length xs → get_or (set xs i v) i 0 ≡ v
get_or-set_self [] i v h = absurd (omega arith)
get_or-set_self (x ∷ xs) zero v h = refl
get_or-set_self (x ∷ xs) (suc i) v h = get_or-set_self xs i v (omega arith)

abbrev low_byte_of : Bytes → ℕ
low_byte_of xs = bit_and (get_or xs 0 0) 248

abbrev high_byte_of : Bytes → ℕ
high_byte_of xs = bit_or (bit_and (get_or xs 31 0) 127) 64

-- The three assignments write two bytes.
clamp-set :
    (xs : Bytes) → length xs ≡ 32 → clamp xs ≡ set (set xs 0 (low_byte_of xs)) 31 (high_byte_of xs)
unfolding clamp
clamp-set xs e =
    let x0 = set xs 0 (low_byte_of xs) in
    rw (
      set-set x0 31 (bit_and (get_or x0 31 0) 127),
      get_or-set_self x0 31 (bit_and (get_or x0 31 0) 127)
          (omega (arith, length-set xs 0 (low_byte_of xs))),
      get_or-set_other xs (low_byte_of xs) 30,
    )

-- The clamped bytes of a 32-byte string stand for a multiple of 8 from 2 ^ 254 up to, but not
-- including, 2 ^ 255, and they are still 32 bytes.
pub clamp_lem :
    (xs : Bytes)
    → length xs ≡ 32
    → All IsByte xs
    → (length (clamp xs) ≡ 32)
      × All IsByte (clamp xs)
      × (bytes_to_big_int_le (clamp xs) % 8 ≡ 0)
      × (2 ^ 254 ≤ bytes_to_big_int_le (clamp xs))
      × (bytes_to_big_int_le (clamp xs) < 2 ^ 255)
clamp_lem xs e h =
    let (eighth, lb) = low_bits_cleared (get_or xs 0 0) (get_or-IsByte xs 0 h) in
    let (lo, hi) = high_bits_set (get_or xs 31 0) (get_or-IsByte xs 31 h) in
    let hb : IsByte (high_byte_of xs) = omega arith in
    let x0 = set xs 0 (low_byte_of xs) in
    let b0 = set-IsByte xs 0 (low_byte_of xs) h lb in
    let (low, high) =
      top_byte 31 x0 (high_byte_of xs) (omega (arith, length-set xs 0 (low_byte_of xs))) b0 hb in
    rw (clamp-set xs e) (
      omega (arith, length-set x0 31 (high_byte_of xs), length-set xs 0 (low_byte_of xs)),
      set-IsByte x0 31 (high_byte_of xs) b0 hb,
      first_byte xs (low_byte_of xs) 30 (high_byte_of xs) h lb eighth,
      omega arith,
      omega arith,
    )
