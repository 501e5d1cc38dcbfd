-- ===== src/Examples/Codec.antt =====
-- The encodings at concrete bytes and numbers.
use cc_vrf.Common.{
  ℕ, zero, suc, ◌%◌, ◌^◌, ◌≤◌, ◌<◌, ◌≡◌, refl, Bytes, List, [], ◌∷◌, IsByte, All, arith, length,
  replicate, ok, err, pos,
}
use cc_vrf.Ecvrf.Encoding.{
  bytes_to_big_int_le, big_int_to_bytes_le, integer_overflow, hex_to_bytes, bytes_to_hex,
  strip_prefix, all_hex, parse_pairs, is_hex_digit, digit_value,
}
use cc_vrf.Ecvrf.Encoding.Integers.{big_int_to_bytes_le_overflow}
use cc_vrf.Ecvrf.Encoding.Hex.{hex_to_bytes-bytes_to_hex}
use cc_vrf.Ecvrf.Keypair.{clamp}
use cc_vrf.Ecvrf.Keypair.Clamp.{clamp_lem}

abbrev two_bytes : Bytes
two_bytes = 0xab ∷ 0x01 ∷ []

two_bytes-IsByte : All IsByte two_bytes
two_bytes-IsByte = (omega arith, (omega arith, tt))

big_int_to_bytes_le_overflow_example : big_int_to_bytes_le (pos 427) 1 ≡ err (integer_overflow 1)
big_int_to_bytes_le_overflow_example = big_int_to_bytes_le_overflow 427 1 (omega arith)

hex_to_bytes-bytes_to_hex_example : hex_to_bytes (bytes_to_hex two_bytes) ≡ ok two_bytes
hex_to_bytes-bytes_to_hex_example = hex_to_bytes-bytes_to_hex two_bytes two_bytes-IsByte

-- "0xaB01"
abbrev hex_text : List ℕ
hex_text = b'0' ∷ b'x' ∷ b'a' ∷ b'B' ∷ b'0' ∷ b'1' ∷ []

hex_text_parses : hex_to_bytes hex_text ≡ ok two_bytes
unfolding hex_to_bytes strip_prefix all_hex parse_pairs is_hex_digit digit_value
hex_text_parses = refl

abbrev parts : List Bytes
parts = two_bytes ∷ [] ∷ (7 ∷ []) ∷ []

abbrev hash_half : Bytes
hash_half = replicate 32 0xff

hash_half-IsByte : (n : ℕ) → All IsByte (replicate n 0xff)
hash_half-IsByte zero = tt
hash_half-IsByte (suc n) = (omega arith, hash_half-IsByte n)

clamp_lem_example :
    (length (clamp hash_half) ≡ 32)
    × All IsByte (clamp hash_half)
    × (bytes_to_big_int_le (clamp hash_half) % 8 ≡ 0)
    × (2 ^ 254 ≤ bytes_to_big_int_le (clamp hash_half))
    × (bytes_to_big_int_le (clamp hash_half) < 2 ^ 255)
clamp_lem_example = clamp_lem hash_half refl (hash_half-IsByte 32)
