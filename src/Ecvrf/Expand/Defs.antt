-- ===== src/Ecvrf/Expand/Defs.antt =====
-- The functions of expand.ts. The closure variables of `vrfStream` are the record `Stream`; an
-- operation returns the stream that it leaves behind. `sha512` and `TextEncoder` are the host's.
use cc_vrf.Common.{
  ℕ, zero, suc, ◌+◌, ◌-◌, ◌*◌, ◌/◌, ◌%◌, ◌^◌, min, List, [], ◌∷◌, ◌++◌, Bytes, Option, length,
  slice, get_or, ltb, leb, ◌==◌, if◌then◌else◌, bit_and, bit_or, ℤ, pos, negsuc, pos_part, ◌-ℤ◌,
  ltb_ℤ, leb_ℤ, Result, ok, err, guard, ◌>>=◌, ◌>>◌,
}
use cc_vrf.Ecvrf.Encoding.{concat_bytes, be_digits}
use cc_vrf.Ecvrf.Suite.{hash_len}
use cc_vrf.Ecvrf.Expand.Numbers.{add_double}
use cc_vrf.Ecvrf.Expand.Slots.{Slots, element_at, slots_of, swap}

pub record Host : Type 0 where
  pub sha512 : Bytes → Bytes
  pub utf8 : List ℕ → Bytes  -- TextEncoder.encode of a string's code units

-- `stuck` is no error of the program: the fuel of the rejection loop ran out.
pub data StreamError : Type 0 where
  bad_beta_length bad_count not_integers empty_range range_too_large empty_array stuck : StreamError

-- A JavaScript number, told apart by `Number.isInteger`.
pub data Number : Type 0 where
  int : ℤ → Number
  fractional : Number

-- "ecvrf-expand-v1"
abbrev pub expand_tag : Bytes
expand_tag =
    b'e' ∷ b'c' ∷ b'v' ∷ b'r' ∷ b'f' ∷ b'-' ∷ b'e' ∷ b'x' ∷ b'p' ∷ b'a' ∷ b'n' ∷ b'd' ∷ b'-' ∷ b'v'
    ∷ b'1' ∷ []

-- `n >>> k`, and `& 0xff`
unfoldable pub u32be : ℕ → Bytes
u32be n =
    let w = n % 2 ^ 32 in
    bit_and (w / 2 ^ 24) 0xff
    ∷ bit_and (w / 2 ^ 16) 0xff
    ∷ bit_and (w / 2 ^ 8) 0xff
    ∷ bit_and w 0xff
    ∷ []

-- The loop is that of `bigIntToBytesBE` over 8 bytes; what is left of `v` is dropped.
unfoldable pub u64be : ℕ → Bytes
unfolding be_digits
u64be n = (be_digits 8 n []).0

pub record Stream : Type 0 where
  pub beta : Bytes
  pub path : List (List ℕ)
  pub encoded_path : Bytes
  pub block_index : ℕ
  pub buf : Bytes
  pub buf_offset : ℕ

-- `((b[0] << 24) | (b[1] << 16) | (b[2] << 8) | b[3]) >>> 0`
abbrev pub be_word : Bytes → ℕ
be_word b =
    bit_or (bit_or (bit_or (get_or b 0 0 * 2 ^ 24) (get_or b 1 0 * 2 ^ 16)) (get_or b 2 0 * 2 ^ 8))
      (get_or b 3 0)
    % 2 ^ 32

-- `for (let i = 0; i < 8; i++) v = (v << 8n) | BigInt(b[i]);`
abbrev pub shift_in : ℕ → ℕ → Bytes → ℕ → ℕ
shift_in zero i b v = v
shift_in (suc n) i b v = shift_in n (i + 1) b (bit_or (v * 2 ^ 8) (get_or b i 0))

-- The bits of the mask, of the 32-bit word `range - 1`: `mask |= mask >>> k` for k = 1, 2, 4, 8, 16.
abbrev pub smear : ℕ → ℕ → ℕ
smear k m = bit_or m (m / 2 ^ k)

unfoldable pub range_mask : ℕ → ℕ
range_mask range = smear 16 (smear 8 (smear 4 (smear 2 (smear 1 (range - 1)))))

-- The result of `&` is a signed 32-bit integer.
unfoldable pub to_int32 : ℕ → ℤ
to_int32 w = if ltb w (2 ^ 31) then pos w else negsuc (2 ^ 32 - w - 1)

module _ (host : Host) where
  unfoldable pub path_parts : List (List ℕ) → List Bytes
  unfolding u32be
  path_parts [] = []
  path_parts (p ∷ path) = let b = host.utf8 p in u32be (length b) ∷ b ∷ path_parts path

  unfoldable pub encode_path : List (List ℕ) → Bytes
  unfolding path_parts
  encode_path path = concat_bytes (u32be (length path) ∷ path_parts path)

  unfoldable pub vrf_stream : Bytes → List (List ℕ) → Result StreamError Stream
  vrf_stream beta path = do
    guard (length beta == hash_len) bad_beta_length
    ok (record {
      beta = beta;
      path = path;
      encoded_path = encode_path path;
      block_index = 0;
      buf = [];
      buf_offset = 0;
    })

  -- Block `i` of the stream.
  unfoldable pub block : Bytes → Bytes → ℕ → Bytes
  block beta encoded i = host.sha512 (concat_bytes (expand_tag ∷ beta ∷ encoded ∷ u64be i ∷ []))

  unfoldable pub refill : Stream → Stream
  refill st = record st {
    buf = block st.beta st.encoded_path st.block_index;
    buf_offset = 0;
    block_index = st.block_index + 1;
  }

  -- `if (bufOffset >= buf.length) refill();`
  unfoldable pub ensure : Stream → Stream
  unfolding refill
  ensure st = if leb (length st.buf) st.buf_offset then refill st else st

  -- The `while` of `nextBytes`; `out` is the part of the array that is written. A round writes a
  -- byte at least, so `n` rounds are enough.
  unfoldable pub fill : ℕ → ℕ → Bytes → Stream → Bytes × Stream
  fill zero n out st = (out, st)
  fill (suc fuel) n out st =
      let st' = ensure st in
      let count = min (n - length out) (length st'.buf - st'.buf_offset) in
      let more =
        fill fuel n (out ++ slice st'.buf st'.buf_offset (st'.buf_offset + count))
          (record st' { buf_offset = st'.buf_offset + count }) in
      if ltb (length out) n then more else (out, st)

  unfoldable pub take_bytes : ℕ → Stream → Bytes × Stream
  take_bytes n st = fill n n [] st

  unfoldable pub next_bytes : Number → Stream → Result StreamError (Bytes × Stream)
  unfolding take_bytes
  next_bytes fractional st = err bad_count
  next_bytes (int (negsuc n)) st = err bad_count
  next_bytes (int (pos n)) st = ok (take_bytes n st)

  unfoldable pub next_u32 : Stream → ℕ × Stream
  next_u32 st = let (b, st') = take_bytes 4 st in (be_word b, st')

  unfoldable pub next_u64 : Stream → ℕ × Stream
  next_u64 st = let (b, st') = take_bytes 8 st in (shift_in 8 0 b 0, st')

  -- The numerator of the result over 2 ^ 53, a fraction that a double holds exactly.
  unfoldable pub next_float : Stream → ℕ × Stream
  unfolding next_u64
  next_float st = let (v, st') = next_u64 st in (v / 2 ^ 11, st')

  -- The loop `for (;;)` on fuel.
  unfoldable pub draw : ℕ → ℕ → ℕ → ℤ → Stream → Result StreamError (ℤ × Stream)
  unfolding to_int32
  draw zero range mask low st = err stuck
  draw (suc fuel) range mask low st =
      let (w, st') = next_u32 st in
      let v = to_int32 (bit_and w mask) in
      let again = draw fuel range mask low st' in
      if ltb_ℤ v (pos range) then ok (add_double low v, st') else again

  -- The exact difference of the bounds passes the test against 2 ^ 32 when the rounded one does, and
  -- is then equal to it.
  unfoldable pub next_range : ℕ → Number → Number → Stream → Result StreamError (ℤ × Stream)
  unfolding draw range_mask
  next_range fuel (int low) (int high) st =
      if leb_ℤ high low
      then err empty_range
      else let range = pos_part (high -ℤ low) in
        if ltb (2 ^ 32) range
        then err range_too_large
        else draw fuel range (range_mask range) low st
  next_range fuel _ _ st = err not_integers

  module _ {ℓ} {A : Type ℓ} where
    -- `none` is undefined.
    unfoldable pub pick : ℕ → List A → Stream → Result StreamError (Option A × Stream)
    pick fuel arr st = if length arr == 0 then err empty_array else do
      (k, st') ← next_range fuel (int (pos 0)) (int (pos (length arr))) st
      ok (element_at arr k, st')

    -- The rounds from `i` down to 1.
    unfoldable pub shuffle_from : ℕ → ℕ → Slots A → Stream → Result StreamError (Slots A × Stream)
    unfolding swap
    shuffle_from fuel zero out st = ok (out, st)
    shuffle_from fuel (suc i) out st = do
      (j, st') ← next_range fuel (int (pos 0)) (int (pos (suc i + 1))) st
      shuffle_from fuel i (swap out (pos (suc i)) j) st'

    unfoldable pub shuffle : ℕ → List A → Stream → Result StreamError (Slots A × Stream)
    unfolding shuffle_from
    shuffle fuel arr st = shuffle_from fuel (length arr - 1) (slots_of arr) st

  unfoldable pub fork : List (List ℕ) → Stream → Result StreamError Stream
  unfolding vrf_stream
  fork label st = vrf_stream st.beta (st.path ++ label)
