-- ===== src/Ecvrf/Encoding/Hex.antt =====
-- `hexToBytes` reads back what `bytesToHex` prints.
use cc_vrf.Common.{
  ℕ, ◌*◌, ◌/◌, ◌%◌, ◌<◌, ◌≡◌, refl, ap₂, List, [], ◌∷◌, Bytes, IsByte, All, true, false, arith,
  length, ◌==◌, ok, Bool-cases, inl, inr, &&-eq-true, ==_iff,
}
use cc_vrf.Ecvrf.Encoding.Defs.{
  strip_prefix, is_hex_digit, all_hex, digit_value, parse_pairs, hex_to_bytes, hex_digit,
  bytes_to_hex,
}

hex_digit-is_hex_digit : (d : ℕ) → d < 16 → is_hex_digit (hex_digit d) ≡ true
unfolding is_hex_digit hex_digit
hex_digit-is_hex_digit d h = ground arith

pub digit_value-hex_digit : (d : ℕ) → d < 16 → digit_value (hex_digit d) ≡ d
unfolding digit_value hex_digit
digit_value-hex_digit d h = ground arith

hex_digit-ne-x : (d : ℕ) → d < 16 → (hex_digit d == b'x') ≡ false
unfolding hex_digit
hex_digit-ne-x d h = ground arith

strip_prefix-bytes_to_hex :
    (bytes : Bytes) → All IsByte bytes → strip_prefix (bytes_to_hex bytes) ≡ bytes_to_hex bytes
unfolding strip_prefix bytes_to_hex
strip_prefix-bytes_to_hex [] h = refl
strip_prefix-bytes_to_hex (b ∷ bytes) (hb, h) =
    ground (arith, hex_digit-ne-x (b % 16) (omega arith))

even_length : (bytes : Bytes) → length (bytes_to_hex bytes) ≡ 2 * length bytes
unfolding bytes_to_hex
even_length [] = refl
even_length (b ∷ bytes) = omega (arith, even_length bytes)

all_hex-bytes_to_hex : (bytes : Bytes) → All IsByte bytes → all_hex (bytes_to_hex bytes) ≡ true
unfolding all_hex bytes_to_hex
all_hex-bytes_to_hex [] h = refl
all_hex-bytes_to_hex (b ∷ bytes) (hb, h) = rw (
  hex_digit-is_hex_digit (b / 16) (omega arith),
  hex_digit-is_hex_digit (b % 16) (omega arith),
  all_hex-bytes_to_hex bytes h,
)

parse_pairs-bytes_to_hex :
    (bytes : Bytes) → All IsByte bytes → parse_pairs (bytes_to_hex bytes) ≡ bytes
unfolding parse_pairs bytes_to_hex
parse_pairs-bytes_to_hex [] h = refl
parse_pairs-bytes_to_hex (b ∷ bytes) (hb, h) =
    ap₂ ◌∷◌
      (omega (
        arith,
        digit_value-hex_digit (b / 16) (omega arith),
        digit_value-hex_digit (b % 16) (omega arith),
      ))
      (parse_pairs-bytes_to_hex bytes h)

-- hex_to_bytes reads every byte string back from its hexadecimal text.
pub hex_to_bytes-bytes_to_hex :
    (bytes : Bytes) → All IsByte bytes → hex_to_bytes (bytes_to_hex bytes) ≡ ok bytes
unfolding hex_to_bytes
hex_to_bytes-bytes_to_hex bytes h = rw (
  strip_prefix-bytes_to_hex bytes h,
  even bytes,
  all_hex-bytes_to_hex bytes h,
  parse_pairs-bytes_to_hex bytes h,
)
  where
    even : (bytes : Bytes) → (length (bytes_to_hex bytes) % 2 == 0) ≡ true
    even bytes = ground (arith, even_length bytes)

digit_value-lt : (c : ℕ) → is_hex_digit c ≡ true → digit_value c < 16
unfolding is_hex_digit digit_value
digit_value-lt c h = ground arith

-- Pairs of hexadecimal digits parse to bytes, half as many.
parse_pairs-IsByte :
    (cs : List ℕ)
    → all_hex cs ≡ true
    → length cs % 2 ≡ 0
    → All IsByte (parse_pairs cs) × (2 * length (parse_pairs cs) ≡ length cs)
unfolding parse_pairs all_hex
parse_pairs-IsByte [] h e = (tt, refl)
parse_pairs-IsByte (c ∷ []) h e = absurd (omega arith)
parse_pairs-IsByte (c ∷ d ∷ cs) h e =
    let (hc, rest) = &&-eq-true (is_hex_digit c) _ h in
    let (hd, more) = &&-eq-true (is_hex_digit d) _ rest in
    let (bytes, len) = parse_pairs-IsByte cs more (omega arith) in
    ((omega (arith, digit_value-lt c hc, digit_value-lt d hd), bytes), omega arith)

-- Whatever hex_to_bytes accepts has an even number of hexadecimal digits behind the optional prefix,
-- and it returns half as many bytes.
pub hex_to_bytes_accepts :
    (hex : List ℕ) (out : Bytes)
    → hex_to_bytes hex ≡ ok out
    → All IsByte out
      × (2 * length out ≡ length (strip_prefix hex))
      × (all_hex (strip_prefix hex) ≡ true)
unfolding hex_to_bytes
hex_to_bytes_accepts hex out h = elim (Bool-cases (length (strip_prefix hex) % 2 == 0)) [
  | inr odd ↦ absurd (ground arith)
  | inl even ↦ elim (Bool-cases (all_hex (strip_prefix hex))) [
    | inr bad ↦ absurd (ground arith)
    | inl digits ↦
        ground (arith, parse_pairs-IsByte (strip_prefix hex) digits ((==_iff _ _).0 even))
  ]
]
