-- ===== src/Ecvrf/Encoding/Integers.antt =====
-- `bytesToBigInt…` and `bigIntToBytes…` are inverse to one another, and big endian is little
-- endian reversed.
use mathlib.Core.List.{reverse, reverse-cons, reverse_aux}
use native.Mathlib.Nat.{pow-suc}
use cc_vrf.Common.{
  pos, ℕ, zero, suc, ◌+◌, ◌*◌, ◌/◌, ◌%◌, ◌^◌, ◌≤◌, ◌<◌, ◌≡◌, ◌≢◌, refl, ap, ap₂, ◌∙◌, [], ◌∷◌, ◌++◌,
  Bytes, IsByte, All, arith, length, bit_and, bit_or, bit_and_mask, bit_or_shift, ok, err,
}
use cc_vrf.Ecvrf.Encoding.Defs.{
  integer_overflow, be_loop, bytes_to_big_int_be, bytes_to_big_int_le, le_digits, be_digits,
  big_int_to_bytes_be, big_int_to_bytes_le,
}

pub low_byte : (v : ℕ) → bit_and v 0xff ≡ v % 256
low_byte v = bit_and_mask 8 v

pub push_byte : (n b : ℕ) → IsByte b → bit_or (n * 2 ^ 8) b ≡ n * 256 + b
push_byte n b h = bit_or_shift 8 n b h

-- The bytes that the loop writes are the digits of `v`, and `rest` is what they leave over.
pub le_digits_lem :
    (w v : ℕ)
    → let (out, rest) = le_digits w v in
      (length out ≡ w) × All IsByte out × (bytes_to_big_int_le out + rest * 256 ^ w ≡ v)
unfolding le_digits bytes_to_big_int_le
le_digits_lem zero v = (refl, tt, omega arith)
le_digits_lem (suc w) v =
    let (out, rest) = le_digits w (v / 256) in
    let (len, bytes, sum) = le_digits_lem w (v / 256) in
    let byte : IsByte (bit_and v 0xff) = omega (arith, low_byte v) in
    (
      ap suc len,
      (byte, bytes),
      omega (
        arith,
        low_byte v,
        push_byte (bytes_to_big_int_le out) (bit_and v 0xff) byte,
        sum,
        ap (λ (t : ℕ). rest * t) (pow-suc 256 w),
      ),
    )

pub bytes_to_big_int_le-lt :
    (bytes : Bytes) → All IsByte bytes → bytes_to_big_int_le bytes < 256 ^ length bytes
unfolding bytes_to_big_int_le
bytes_to_big_int_le-lt [] h = omega arith
bytes_to_big_int_le-lt (b ∷ bytes) (hb, h) = omega (
  arith,
  push_byte (bytes_to_big_int_le bytes) b hb,
  bytes_to_big_int_le-lt bytes h,
  pow-suc 256 (length bytes),
)

no_carry : (lo r k n : ℕ) → lo + r * k ≡ n → n < k → r ≡ 0
no_carry lo zero k n e h = refl
no_carry lo (suc r) k n e h = absurd (omega arith)

carry : (lo r k n : ℕ) → lo + r * k ≡ n → lo < k → k ≤ n → r ≢ 0
carry lo zero k n e hl h z = absurd (omega arith)
carry lo (suc r) k n e hl h z = absurd (omega arith)

-- A number below 256 ^ w is encoded in w bytes, which decode to it.
pub big_int_to_bytes_le_lem :
    (n w : ℕ)
    → n < 256 ^ w
    → (out : Bytes) × (big_int_to_bytes_le (pos n) w ≡ ok out)
      × (length out ≡ w)
      × All IsByte out
      × (bytes_to_big_int_le out ≡ n)
unfolding big_int_to_bytes_le
big_int_to_bytes_le_lem n w h =
    let (out, rest) = le_digits w n in
    let (len, bytes, sum) = le_digits_lem w n in
    let done : rest ≡ 0 = no_carry (bytes_to_big_int_le out) rest (256 ^ w) n sum h in
    (out, ground arith, len, bytes, omega (arith, sum, ap (λ (t : ℕ). t * 256 ^ w) done))

-- A number that needs more than w bytes is refused.
pub big_int_to_bytes_le_overflow :
    (n w : ℕ) → 256 ^ w ≤ n → big_int_to_bytes_le (pos n) w ≡ err (integer_overflow w)
unfolding big_int_to_bytes_le
big_int_to_bytes_le_overflow n w h =
    let (out, rest) = le_digits w n in
    let (len, bytes, sum) = le_digits_lem w n in
    let below : bytes_to_big_int_le out < 256 ^ w = rw len at (bytes_to_big_int_le-lt out bytes) in
    let more : rest ≢ 0 = carry (bytes_to_big_int_le out) rest (256 ^ w) n sum below h in
    ground arith

-- Decoding is injective on byte strings of one length.
pub bytes_to_big_int_le_injective :
    (a b : Bytes)
    → length a ≡ length b
    → All IsByte a
    → All IsByte b
    → bytes_to_big_int_le a ≡ bytes_to_big_int_le b
    → a ≡ b
unfolding bytes_to_big_int_le
bytes_to_big_int_le_injective [] [] e ha hb h = refl
bytes_to_big_int_le_injective [] (y ∷ b) e ha hb h = absurd (omega arith)
bytes_to_big_int_le_injective (x ∷ a) [] e ha hb h = absurd (omega arith)
bytes_to_big_int_le_injective (x ∷ a) (y ∷ b) e (hx, ha) (hy, hb) h =
    let px = push_byte (bytes_to_big_int_le a) x hx in
    let py = push_byte (bytes_to_big_int_le b) y hy in
    let same : x ≡ y = omega (arith, px, py, h) in
    ap₂ ◌∷◌ same
      (bytes_to_big_int_le_injective a b (omega arith) ha hb (omega (arith, px, py, h, same)))

-- Encoding a decoded byte string at its own length gives the string back.
pub big_int_to_bytes_le-bytes_to_big_int_le :
    (bytes : Bytes)
    → All IsByte bytes
    → big_int_to_bytes_le (pos (bytes_to_big_int_le bytes)) (length bytes) ≡ ok bytes
big_int_to_bytes_le-bytes_to_big_int_le bytes h =
    let (out, e, len, ho, back) =
      big_int_to_bytes_le_lem (bytes_to_big_int_le bytes) (length bytes)
        (bytes_to_big_int_le-lt bytes h) in
    e ∙ ap ok (bytes_to_big_int_le_injective out bytes len ho h back)

-- Big endian is little endian reversed, both ways.
be_digits-le_digits :
    (w v : ℕ) (acc : Bytes)
    → be_digits w v acc ≡ (reverse_aux (le_digits w v).0 acc, (le_digits w v).1)
unfolding be_digits le_digits
be_digits-le_digits zero v acc = refl
be_digits-le_digits (suc w) v acc = be_digits-le_digits w (v / 2 ^ 8) (bit_and v 0xff ∷ acc)

be_loop-append :
    (n : ℕ) (xs : Bytes) (b : ℕ) → be_loop n (xs ++ b ∷ []) ≡ bit_or (be_loop n xs * 2 ^ 8) b
unfolding be_loop
be_loop-append n [] b = refl
be_loop-append n (x ∷ xs) b = be_loop-append (bit_or (n * 2 ^ 8) x) xs b

pub bytes_to_big_int_be-reverse :
    (bytes : Bytes) → bytes_to_big_int_be (reverse bytes) ≡ bytes_to_big_int_le bytes
unfolding bytes_to_big_int_be bytes_to_big_int_le
bytes_to_big_int_be-reverse [] = unfold be_loop in refl
bytes_to_big_int_be-reverse (b ∷ bytes) =
    rw (reverse-cons b bytes, be_loop-append 0 (reverse bytes) b)
      (ap (λ (n : ℕ). bit_or (n * 2 ^ 8) b) (bytes_to_big_int_be-reverse bytes))

-- What big_int_to_bytes_be writes is what big_int_to_bytes_le writes, reversed, and it decodes to
-- the number.
pub big_int_to_bytes_be_lem :
    (n w : ℕ)
    → n < 256 ^ w
    → (out : Bytes) × (big_int_to_bytes_le (pos n) w ≡ ok out)
      × (big_int_to_bytes_be (pos n) w ≡ ok (reverse out))
      × (bytes_to_big_int_be (reverse out) ≡ n)
      × (length out ≡ w)
unfolding big_int_to_bytes_le big_int_to_bytes_be
big_int_to_bytes_be_lem n w h =
    let (out, rest) = le_digits w n in
    let (len, bytes, sum) = le_digits_lem w n in
    let done : rest ≡ 0 = no_carry (bytes_to_big_int_le out) rest (256 ^ w) n sum h in
    let back : bytes_to_big_int_le out ≡ n = omega (arith, sum, ap (λ (t : ℕ). t * 256 ^ w) done) in
    (
      out,
      ground arith,
      rw (be_digits-le_digits w n []) (ground arith),
      bytes_to_big_int_be-reverse out ∙ back,
      len,
    )
