-- ===== src/Examples/Streams.antt =====
-- Streams over a hash whose bytes are all the same.
use cc_vrf.Common.{
  ◌+◌, ℕ, ◌^◌, ◌≤◌, ◌≡◌, refl, Bytes, List, [], ◌∷◌, ◌++◌, arith, length, replicate, ok, ℤ, pos,
  ◌≤ℤ◌, ◌-ℤ◌, ◌+ℤ◌, ◌<ℤ◌, bit_and,
}
use cc_vrf.Ecvrf.Expand.Shuffle.{shuffle-Perm}
use mathlib.Core.List.{Perm}
use cc_vrf.Ecvrf.Expand.{
  shuffle, shuffle_from, Host, Stream, int, vrf_stream, encode_path, path_parts, u32be, take_bytes,
  next_u32, next_range, range_mask, to_int32, draw, fill, ensure, refill, block,
}
use cc_vrf.Ecvrf.Expand.Numbers.{
  IsSafe, add_double, round_double, round_magnitude, unit_of, round_to,
}
use cc_vrf.Ecvrf.Expand.Slots.{slots_of, read_slot, write_slot, swap}
use cc_vrf.Ecvrf.Expand.Position.{IsAt}
use cc_vrf.Ecvrf.Expand.Draws.{vrf_stream-IsAt, take_bytes-append}
use cc_vrf.Ecvrf.Expand.Range.{
  next_range_bounds, next_range_below_low, next_range_returns, width, draw_value, skip_words,
}

abbrev host : ℕ → Host
host b = record { sha512 = λ m. replicate 64 b; utf8 = λ s. s }

abbrev beta : Bytes
beta = replicate 64 9

abbrev label : List (List ℕ)
label = (b'a' ∷ b'b' ∷ []) ∷ []

abbrev stream : ℕ → Stream
stream b = record {
  beta = beta;
  path = label;
  encoded_path = encode_path (host b) label;
  block_index = 0;
  buf = [];
  buf_offset = 0;
}

stream_made : (b : ℕ) → vrf_stream (host b) beta label ≡ ok (stream b)
unfolding vrf_stream
stream_made b = refl

take_bytes-append_example :
    let (front, st') = take_bytes (host 1) 60 (stream 1) in
    let (back, st'') = take_bytes (host 1) 10 st' in
    let (whole, st''') = take_bytes (host 1) 70 (stream 1) in
    (front ++ back ≡ whole)
    × (length whole ≡ 70)
    × IsAt (host 1) beta (encode_path (host 1) label) 70 st''
    × IsAt (host 1) beta (encode_path (host 1) label) 70 st'''
take_bytes-append_example =
    take_bytes-append (host 1) (λ m. refl) beta label 0 60 10 (stream 1)
      (vrf_stream-IsAt (host 1) (λ m. refl) beta label (stream_made 1))

-- A roll of a die, on a stream of bytes 1.
die :
    next_range (host 1) 3 (int (pos 1)) (int (pos 7)) (stream 1)
    ≡ ok (pos 2, (next_u32 (host 1) (stream 1)).1)
unfolding next_range draw next_u32 take_bytes fill ensure refill block range_mask to_int32
    encode_path path_parts u32be add_double round_double round_magnitude unit_of round_to ◌-ℤ◌ ◌+ℤ◌
die = refl

die_width : width (pos 1) (pos 7) ≡ 6
unfolding ◌-ℤ◌
die_width = refl

full_width : width (pos 0) (pos (2 ^ 32)) ≡ 2 ^ 32
unfolding ◌-ℤ◌
full_width = refl

die_value : draw_value (host 1) (width (pos 1) (pos 7)) (skip_words (host 1) 0 (stream 1)) ≡ pos 1
unfolding skip_words next_u32 take_bytes fill ensure refill block range_mask to_int32 encode_path
    path_parts u32be ◌-ℤ◌
die_value = refl

sign_bit :
    2 ^ 31
    ≤ bit_and (next_u32 (host 255) (stream 255)).0 (range_mask (width (pos 0) (pos (2 ^ 32))))
unfolding next_u32 take_bytes fill ensure refill block range_mask to_int32 encode_path path_parts
    u32be ◌-ℤ◌
sign_bit = omega arith

next_range_bounds_example : (pos 1 ≤ℤ pos 2) × (pos 2 <ℤ pos 7)
next_range_bounds_example =
    next_range_bounds (host 1) 3 (pos 1) (pos 7) (stream 1) (omega arith, omega arith)
      (omega arith, omega arith) (omega (arith, die_width)) die

next_range_returns_example :
    (r : ℤ) × (st' : Stream) × (next_range (host 1) 1 (int (pos 1)) (int (pos 7)) (stream 1)
      ≡ ok (r, st'))
next_range_returns_example =
    next_range_returns (host 1) 0 1 (pos 1) (pos 7) (stream 1) (omega arith)
      (omega (arith, die_width)) (omega arith) accepted
  where
    accepted :
        draw_value (host 1) (width (pos 1) (pos 7)) (skip_words (host 1) 0 (stream 1))
        <ℤ pos (width (pos 1) (pos 7))
    accepted = rw (die_value, die_width) (omega arith)

less-IsSafe : IsSafe (pos 0 -ℤ pos (2 ^ 31))
unfolding ◌-ℤ◌
less-IsSafe = (omega arith, omega arith)

next_range_below_low_example :
    (r : ℤ) × (next_range (host 255) 1 (int (pos 0)) (int (pos (2 ^ 32))) (stream 255)
      ≡ ok (r, (next_u32 (host 255) (stream 255)).1))
    × (r <ℤ pos 0)
next_range_below_low_example =
    next_range_below_low (host 255) 0 (pos 0) (pos (2 ^ 32)) (stream 255) (omega arith, omega arith)
      less-IsSafe (omega arith) (omega (arith, full_width)) sign_bit

-- Two values in the order that a stream of bytes 1 gives them.
abbrev two : List ℕ
two = 10 ∷ 20 ∷ []

shuffled : shuffle (host 1) 3 two (stream 1) ≡ ok (slots_of two, (next_u32 (host 1) (stream 1)).1)
unfolding shuffle shuffle_from swap read_slot write_slot next_range draw next_u32 take_bytes fill
    ensure refill block range_mask to_int32 encode_path path_parts u32be add_double round_double
    round_magnitude unit_of round_to ◌-ℤ◌ ◌+ℤ◌
shuffled = refl

shuffle-Perm_example : (xs : List ℕ) × (slots_of two ≡ slots_of xs) × Perm two xs
shuffle-Perm_example = shuffle-Perm (host 1) 3 two (stream 1) (omega arith) shuffled

-- Beyond the safe integers a sum is rounded, here from 2^53 + 3 to the upper bound of a range of two.
rounded : add_double (pos (2 ^ 53 + 2)) (pos 1) ≡ pos (2 ^ 53 + 4)
unfolding add_double round_double round_magnitude unit_of round_to ◌+ℤ◌
rounded = refl
