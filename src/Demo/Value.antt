-- ===== src/Demo/Value.antt =====
-- The value of a roll: the first eight bytes of its beta.
use cc_vrf.Common.{
  ℕ, zero, suc, ◌+◌, ◌*◌, ◌/◌, ◌%◌, ◌≤◌, ◌<◌, ◌≡◌, refl, sym, ap, ◌∙◌, [], ◌∷◌, take, Bytes, IsByte,
  All, ok, arith, ok_injective, All-take,
}
use cc_vrf.Demo.Draw.{roll_value, hex_value}
use cc_vrf.Ecvrf.Encoding.{bytes_to_hex, byte_to_hex, hex_digit, bytes_to_big_int_be, be_loop}
use cc_vrf.Ecvrf.Encoding.Hex.{digit_value-hex_digit}
use cc_vrf.Ecvrf.Encoding.Integers.{push_byte}

-- The number of digits of `n` bytes.
abbrev digits_of : ℕ → ℕ
digits_of zero = zero
digits_of (suc n) = suc (suc (digits_of n))

take-bytes_to_hex :
    (n : ℕ) (bytes : Bytes) → take (digits_of n) (bytes_to_hex bytes) ≡ bytes_to_hex (take n bytes)
unfolding bytes_to_hex byte_to_hex
take-bytes_to_hex zero bytes = refl
take-bytes_to_hex (suc n) [] = refl
take-bytes_to_hex (suc n) (b ∷ bytes) =
    ap (λ rest. hex_digit (b / 16) ∷ hex_digit (b % 16) ∷ rest) (take-bytes_to_hex n bytes)

hex_value-bytes_to_hex :
    (bytes : Bytes) (n : ℕ) → All IsByte bytes → hex_value n (bytes_to_hex bytes) ≡ be_loop n bytes
unfolding bytes_to_hex byte_to_hex be_loop
hex_value-bytes_to_hex [] n h = refl
hex_value-bytes_to_hex (b ∷ bytes) n (hb, h) =
    rw (digit_value-hex_digit (b / 16) (omega arith), digit_value-hex_digit (b % 16) (omega arith))
      (hex_value-bytes_to_hex bytes ((n * 16 + b / 16) * 16 + b % 16) h
        ∙ ap (λ m. be_loop m bytes) (sum n b (omega arith) ∙ sym (push_byte n b hb)))
  where
    sum : (n b : ℕ) → b < 256 → (n * 16 + b / 16) * 16 + b % 16 ≡ n * 256 + b
    sum n b h = omega arith

-- The value of a roll on a beta of at least one byte is the number that its first eight bytes write
-- in base 256, most significant first, taken modulo 100 and increased by one; whatever is computed
-- as the value of a roll is between 1 and 100.
pub roll_value_lem :
    (b : ℕ) (beta : Bytes)
    → All IsByte (b ∷ beta)
    → (roll_value (b ∷ beta) ≡ ok (bytes_to_big_int_be (take 8 (b ∷ beta)) % 100 + 1))
      × ((v : ℕ) → roll_value (b ∷ beta) ≡ ok v → (1 ≤ v) × (v ≤ 100))
unfolding roll_value bytes_to_big_int_be bytes_to_hex byte_to_hex
roll_value_lem b beta h = (value, bounded)
  where
    front : hex_value 0 (take 16 (bytes_to_hex (b ∷ beta))) ≡ be_loop 0 (take 8 (b ∷ beta))
    front =
        ap (hex_value 0) (take-bytes_to_hex 8 (b ∷ beta))
        ∙ hex_value-bytes_to_hex (take 8 (b ∷ beta)) 0 (All-take IsByte 8 (b ∷ beta) h)

    value : roll_value (b ∷ beta) ≡ ok (be_loop 0 (take 8 (b ∷ beta)) % 100 + 1)
    value = ap (λ n. ok (n % 100 + 1)) front

    bounded : (v : ℕ) → roll_value (b ∷ beta) ≡ ok v → (1 ≤ v) × (v ≤ 100)
    bounded v e = omega (arith, ok_injective (sym e ∙ value))
