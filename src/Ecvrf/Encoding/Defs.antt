-- ===== src/Ecvrf/Encoding/Defs.antt =====
-- The functions of encoding.ts.
use cc_vrf.Common.{
  ℤ, pos, negsuc, ℕ, zero, suc, ◌+◌, ◌-◌, ◌*◌, ◌/◌, ◌%◌, ◌^◌, List, [], ◌∷◌, ◌++◌, Bytes, Bool,
  true, false, ◌&&◌, ◌||◌, length, take, drop, replicate, ltb, leb, ◌==◌, if◌then◌else◌, bit_and,
  bit_or, bit_xor, Result, ok, err, guard, ◌>>◌,
}

-- What the functions of the package throw.
pub data Error : Type 0 where
  negative_integer : Error
  integer_overflow : ℕ → Error
  odd_hex_length : Error
  non_hex_characters : Error
  bad_seed_length : Error
  bad_proof_length : Error
  bad_gamma : Error
  invalid_point : Error
  invalid_scalar : Error
  counter_exceeded : Error
  bad_hash_length : Error

-- `out.set(p, offset)` of a typed array, for a write that does not pass the end.
abbrev pub set_at : Bytes → ℕ → Bytes → Bytes
set_at out offset p = take offset out ++ (p ++ drop (offset + length p) out)

-- `for (const p of parts) total += p.length`
abbrev pub total_length : ℕ → List Bytes → ℕ
total_length total [] = total
total_length total (p ∷ parts) = total_length (total + length p) parts

unfoldable pub concat_from : Bytes → ℕ → List Bytes → Bytes
concat_from out offset [] = out
concat_from out offset (p ∷ parts) = concat_from (set_at out offset p) (offset + length p) parts

unfoldable pub concat_bytes : List Bytes → Bytes
unfolding concat_from
concat_bytes parts = concat_from (replicate (total_length 0 parts) 0) 0 parts

-- `for (const b of bytes) n = (n << 8n) | BigInt(b)`
unfoldable pub be_loop : ℕ → Bytes → ℕ
be_loop n [] = n
be_loop n (b ∷ bytes) = be_loop (bit_or (n * 2 ^ 8) b) bytes

unfoldable pub bytes_to_big_int_be : Bytes → ℕ
unfolding be_loop
bytes_to_big_int_be bytes = be_loop 0 bytes

-- The loop from the last byte to the first: the later bytes are taken in before `b`.
unfoldable pub bytes_to_big_int_le : Bytes → ℕ
bytes_to_big_int_le [] = 0
bytes_to_big_int_le (b ∷ bytes) = bit_or (bytes_to_big_int_le bytes * 2 ^ 8) b

-- `for (let i = 0; i < length; i++) { out[i] = Number(v & 0xffn); v >>= 8n; }`, with the last `v`.
unfoldable pub le_digits : ℕ → ℕ → Bytes × ℕ
le_digits zero v = ([], v)
le_digits (suc i) v = let (out, rest) = le_digits i (v / 2 ^ 8) in (bit_and v 0xff ∷ out, rest)

-- The same from the last index down: each byte goes in front of those written before.
unfoldable pub be_digits : ℕ → ℕ → Bytes → Bytes × ℕ
be_digits zero v out = (out, v)
be_digits (suc i) v out = be_digits i (v / 2 ^ 8) (bit_and v 0xff ∷ out)

-- `if (v !== 0n) throw …; return out;`
abbrev pub finish : ℕ → Bytes × ℕ → Result Error Bytes
finish width (out, v) = if v == 0 then ok out else err (integer_overflow width)

unfoldable pub big_int_to_bytes_be : ℤ → ℕ → Result Error Bytes
unfolding be_digits
big_int_to_bytes_be (negsuc n) width = err negative_integer
big_int_to_bytes_be (pos n) width = finish width (be_digits width n [])

unfoldable pub big_int_to_bytes_le : ℤ → ℕ → Result Error Bytes
unfolding le_digits
big_int_to_bytes_le (negsuc n) width = err negative_integer
big_int_to_bytes_le (pos n) width = finish width (le_digits width n)

-- `hex.startsWith("0x") ? hex.slice(2) : hex`
unfoldable pub strip_prefix : List ℕ → List ℕ
strip_prefix (c ∷ d ∷ rest) = if (c == b'0') && (d == b'x') then rest else c ∷ d ∷ rest
strip_prefix hex = hex

-- The class `[0-9a-fA-F]`.
unfoldable pub is_hex_digit : ℕ → Bool
is_hex_digit c =
    (leb b'0' c && leb c b'9') || ((leb b'a' c && leb c b'f') || (leb b'A' c && leb c b'F'))

unfoldable pub all_hex : List ℕ → Bool
unfolding is_hex_digit
all_hex [] = true
all_hex (c ∷ cs) = is_hex_digit c && all_hex cs

-- The value of a hexadecimal digit, as `parseInt(…, 16)` reads it.
unfoldable pub digit_value : ℕ → ℕ
digit_value c = if leb c b'9' then c - b'0' else if leb b'a' c then c - 87 else c - 55

-- `out[i] = parseInt(clean.substr(i * 2, 2), 16)` for each `i`.
unfoldable pub parse_pairs : List ℕ → Bytes
unfolding digit_value
parse_pairs (c ∷ d ∷ rest) = (digit_value c * 16 + digit_value d) ∷ parse_pairs rest
parse_pairs rest = []

unfoldable pub hex_to_bytes : List ℕ → Result Error Bytes
unfolding strip_prefix all_hex parse_pairs
hex_to_bytes hex = do
  let clean = strip_prefix hex
  guard (length clean % 2 == 0) odd_hex_length
  guard (all_hex clean) non_hex_characters
  ok (parse_pairs clean)

-- A digit of `toString(16)`.
unfoldable pub hex_digit : ℕ → ℕ
hex_digit d = if ltb d 10 then d + b'0' else d + 87

-- `b.toString(16).padStart(2, "0")` of a byte
unfoldable pub byte_to_hex : ℕ → List ℕ
unfolding hex_digit
byte_to_hex b = hex_digit (b / 16) ∷ hex_digit (b % 16) ∷ []

unfoldable pub bytes_to_hex : Bytes → List ℕ
unfolding byte_to_hex
bytes_to_hex [] = []
bytes_to_hex (b ∷ bytes) = byte_to_hex b ++ bytes_to_hex bytes

-- `diff |= a[i] ^ b[i]`, for arrays of one length
unfoldable pub diff_loop : ℕ → Bytes → Bytes → ℕ
diff_loop diff (x ∷ a) (y ∷ b) = diff_loop (bit_or diff (bit_xor x y)) a b
diff_loop diff _ _ = diff

unfoldable pub bytes_equal : Bytes → Bytes → Bool
unfolding diff_loop
bytes_equal a b = if length a == length b then diff_loop 0 a b == 0 else false
