-- ===== src/Ecvrf/Expand/Range.antt =====
-- nextRange of expand.ts: where its result lies, and when the rejection loop ends.
use cc_vrf.Common.{
  ℕ, zero, suc, ◌-◌, ◌/◌, ◌^◌, ◌≤◌, ◌<◌, ◌≡◌, ◌≢◌, sym, ap, subst, ◌∙◌, arith, ok, true, false, inl,
  inr, Bool-cases, ltb, ltb→lt, lt→ltb, lt→leb_false, bit_and, bit_or_lt, bit_and_le, ℤ, pos,
  negsuc, pos_part, neg_part, ◌+ℤ◌, ◌-ℤ◌, ◌≤ℤ◌, ◌<ℤ◌, ltb_ℤ, leb_ℤ, +ℤ_parts, -ℤ_parts, ℤ_one_part,
}
use cc_vrf.Ecvrf.Expand.Numbers.{add_double, IsSafe, add_double-safe}
use cc_vrf.Ecvrf.Expand.Defs.{
  Host, Stream, int, next_u32, smear, range_mask, to_int32, draw, next_range,
}

smear_lt : (j k m : ℕ) → m < 2 ^ j → smear k m < 2 ^ j
smear_lt j k m h = bit_or_lt j m (m / 2 ^ k) h (omega arith)

range_mask_lt : (range j : ℕ) → range ≤ 2 ^ j → 0 < range → range_mask range < 2 ^ j
unfolding range_mask
range_mask_lt range j h p =
    smear_lt j 16 _
      (smear_lt j 8 _ (smear_lt j 4 _ (smear_lt j 2 _ (smear_lt j 1 _ (omega arith)))))

to_int32_small : (w : ℕ) → w < 2 ^ 31 → to_int32 w ≡ pos w
unfolding to_int32
to_int32_small w h = ground arith

to_int32_large : (w : ℕ) → 2 ^ 31 ≤ w → to_int32 w ≡ negsuc (2 ^ 32 - w - 1)
unfolding to_int32
to_int32_large w h = ground arith

accepted_small :
    (w range : ℕ) → ltb_ℤ (to_int32 w) (pos range) ≡ true → to_int32 w ≡ pos w → w < range
accepted_small w range e small =
    let lt = ltb→lt _ _ e in
    let p : pos_part (to_int32 w) ≡ w = ap pos_part small in
    let n : neg_part (to_int32 w) ≡ 0 = ap neg_part small in omega arith

-- What lies between safe integers is safe.
IsSafe-between : (a b c : ℤ) → IsSafe a → IsSafe c → a ≤ℤ b → b <ℤ c → IsSafe b
IsSafe-between a b c (pa, na) (pc, nc) h k =
    let one = ℤ_one_part b in (omega (arith, one, h, k, pc, na), omega (arith, one, h, k, pc, na))

-- The number of values from `low` up to but not including `high`.
abbrev pub width : ℤ → ℤ → ℕ
width low high = pos_part (high -ℤ low)

module _ (host : Host) where
  -- The stream after `k` words.
  unfoldable pub skip_words : ℕ → Stream → Stream
  skip_words zero st = st
  skip_words (suc k) st = skip_words k (next_u32 host st).1

  -- The value of a draw, before the test.
  abbrev pub draw_value : ℕ → Stream → ℤ
  draw_value range st = to_int32 (bit_and (next_u32 host st).0 (range_mask range))

  draw_accepts :
      (fuel range mask : ℕ) (low : ℤ) (st : Stream)
      → ltb_ℤ (to_int32 (bit_and (next_u32 host st).0 mask)) (pos range) ≡ true
      → draw host (suc fuel) range mask low st
        ≡ ok (add_double low (to_int32 (bit_and (next_u32 host st).0 mask)), (next_u32 host st).1)
  unfolding draw
  draw_accepts fuel range mask low st e = ground arith

  draw_rejects :
      (fuel range mask : ℕ) (low : ℤ) (st : Stream)
      → ltb_ℤ (to_int32 (bit_and (next_u32 host st).0 mask)) (pos range) ≡ false
      → draw host (suc fuel) range mask low st ≡ draw host fuel range mask low (next_u32 host st).1
  unfolding draw
  draw_rejects fuel range mask low st e = ground arith

  -- A result of the loop comes from a word below the range, when the mask has no sign bit.
  draw_bounds :
      (fuel range mask : ℕ) (low : ℤ) (st : Stream) {r : ℤ} {st' : Stream}
      → mask < 2 ^ 31
      → draw host fuel range mask low st ≡ ok (r, st')
      → (v : ℕ) × (v < range) × (r ≡ add_double low (pos v))
  draw_bounds zero range mask low st h e = unfold draw in cc
  draw_bounds (suc fuel) range mask low st {r} {st'} h e =
      let w = bit_and (next_u32 host st).0 mask in
      elim (Bool-cases (ltb_ℤ (to_int32 w) (pos range))) [
        | inr again ↦
            draw_bounds fuel range mask low (next_u32 host st).1 h
              (sym (draw_rejects fuel range mask low st again) ∙ e)
        | inl accepted ↦
            let small : to_int32 w ≡ pos w =
              to_int32_small w (omega (arith, bit_and_le (next_u32 host st).0 mask)) in
            let is = sym (draw_accepts fuel range mask low st accepted) ∙ e in
            let eq : add_double low (to_int32 w) ≡ r = cc in
            let lt : w < range = accepted_small w range accepted small in
            (w, lt, sym eq ∙ ap (add_double low) small)
      ]

  next_range_draws :
      (fuel : ℕ) (low high : ℤ) (st : Stream)
      → low <ℤ high
      → width low high ≤ 2 ^ 32
      → next_range host fuel (int low) (int high) st
        ≡ draw host fuel (width low high) (range_mask (width low high)) low st
  unfolding next_range
  next_range_draws fuel low high st lt h =
      let a : leb_ℤ high low ≡ false = lt→leb_false _ _ lt in
      let b : ltb (2 ^ 32) (width low high) ≡ false = ground arith in ground arith

  next_range_empty :
      (fuel : ℕ) (low high : ℤ) (st : Stream) {r : ℤ} {st' : Stream}
      → leb_ℤ high low ≡ true
      → next_range host fuel (int low) (int high) st ≢ ok (r, st')
  unfolding next_range
  next_range_empty fuel low high st empty e = ground arith

  -- Between two bounds that are safe integers, with at most 2^31 values from the lower one up to but
  -- not including the upper one: what next_range returns is one of these values.
  pub next_range_bounds :
      (fuel : ℕ) (low high : ℤ) (st : Stream) {r : ℤ} {st' : Stream}
      → IsSafe low
      → IsSafe high
      → width low high ≤ 2 ^ 31
      → next_range host fuel (int low) (int high) st ≡ ok (r, st')
      → (low ≤ℤ r) × (r <ℤ high)
  next_range_bounds fuel low high st {r} {st'} safe_low safe_high h e =
      elim (Bool-cases (leb_ℤ high low)) [
        | inl empty ↦ absurd (next_range_empty fuel low high st empty e)
        | inr lt ↦
            let order : low <ℤ high = ground arith in
            let drawn = sym (next_range_draws fuel low high st order (omega arith)) ∙ e in
            let positive : 0 < width low high = omega (arith, -ℤ_parts high low) in
            let (v, below, is) =
              draw_bounds fuel (width low high) (range_mask (width low high)) low st
                (range_mask_lt (width low high) 31 h positive) drawn in
            within v below is
      ]
    where
      in_range : (v : ℕ) → v < width low high → (low ≤ℤ low +ℤ pos v) × (low +ℤ pos v <ℤ high)
      in_range v below =
          let sum = +ℤ_parts low (pos v) in
          let difference = -ℤ_parts high low in
          let one = ℤ_one_part (high -ℤ low) in
          (omega (arith, sum, difference, one), omega (arith, sum, difference, one))

      within : (v : ℕ) → v < width low high → r ≡ add_double low (pos v) → (low ≤ℤ r) × (r <ℤ high)
      within v below is =
          let (above, under) = in_range v below in
          let safe = IsSafe-between low (low +ℤ pos v) high safe_low safe_high above under in
          let exact : r ≡ low +ℤ pos v = is ∙ add_double-safe low (pos v) safe in
          subst (λ (x : ℤ). (low ≤ℤ x) × (x <ℤ high)) (sym exact) (above, under)

  -- A range of more than 2^31 values, whose lower bound is a safe integer and stays one when 2^31 is
  -- taken from it: a first word whose masked value has bit 31 set is accepted as a negative number,
  -- so that next_range returns a value below its lower bound.
  pub next_range_below_low :
      (fuel : ℕ) (low high : ℤ) (st : Stream)
      → IsSafe low
      → IsSafe (low -ℤ pos (2 ^ 31))
      → low <ℤ high
      → width low high ≤ 2 ^ 32
      → 2 ^ 31 ≤ bit_and (next_u32 host st).0 (range_mask (width low high))
      → (r : ℤ) × (next_range host (suc fuel) (int low) (int high) st
          ≡ ok (r, (next_u32 host st).1))
        × (r <ℤ low)
  next_range_below_low fuel low high st safe_low safe_less order h sign =
      let range = width low high in
      let w = bit_and (next_u32 host st).0 (range_mask range) in
      let negative = to_int32_large w sign in
      let positive : 0 < range = omega (arith, -ℤ_parts high low) in
      let small : w < 2 ^ 32 = omega (
        arith,
        bit_and_le (next_u32 host st).0 (range_mask range),
        range_mask_lt range 32 h positive,
      ) in
      let p = ap pos_part negative in
      let n = ap neg_part negative in
      let accepted : ltb_ℤ (to_int32 w) (pos range) ≡ true = lt→ltb _ _ (omega arith) in
      let sum = low +ℤ to_int32 w in
      let less : sum <ℤ low = omega (arith, p, n, +ℤ_parts low (to_int32 w)) in
      let above : low -ℤ pos (2 ^ 31) ≤ℤ sum =
        omega (arith, sign, p, n, +ℤ_parts low (to_int32 w), -ℤ_parts low (pos (2 ^ 31))) in
      let safe = IsSafe-between (low -ℤ pos (2 ^ 31)) sum low safe_less safe_low above less in
      (
        add_double low (to_int32 w),
        next_range_draws (suc fuel) low high st order h
            ∙ draw_accepts fuel range (range_mask range) low st accepted,
        subst (λ (x : ℤ). x <ℤ low) (sym (add_double-safe low (to_int32 w) safe)) less,
      )

  draw_returns :
      (k fuel range mask : ℕ) (low : ℤ) (st : Stream)
      → k < fuel
      → ltb_ℤ (to_int32 (bit_and (next_u32 host (skip_words k st)).0 mask)) (pos range) ≡ true
      → (r : ℤ) × (st' : Stream) × (draw host fuel range mask low st ≡ ok (r, st'))
  unfolding skip_words
  draw_returns k zero range mask low st h e = absurd (omega arith)
  draw_returns zero (suc fuel) range mask low st h e = (_, _, draw_accepts fuel range mask low st e)
  draw_returns (suc k) (suc fuel) range mask low st h e =
      elim (Bool-cases (ltb_ℤ (to_int32 (bit_and (next_u32 host st).0 mask)) (pos range))) [
        | inl accepted ↦ (_, _, draw_accepts fuel range mask low st accepted)
        | inr again ↦
            let (r, st', is) =
              draw_returns k fuel range mask low (next_u32 host st).1 (omega arith) e in
            (r, st', draw_rejects fuel range mask low st again ∙ is)
      ]

  -- The rejection loop ends: for a non-empty range of at most 2^32 values, when the word number k of
  -- the stream passes the test, next_range returns a value by its round k.
  pub next_range_returns :
      (k fuel : ℕ) (low high : ℤ) (st : Stream)
      → low <ℤ high
      → width low high ≤ 2 ^ 32
      → k < fuel
      → draw_value (width low high) (skip_words k st) <ℤ pos (width low high)
      → (r : ℤ) × (st' : Stream) × (next_range host fuel (int low) (int high) st ≡ ok (r, st'))
  next_range_returns k fuel low high st order h enough lt =
      let (r, st', is) =
        draw_returns k fuel (width low high) (range_mask (width low high)) low st enough
          (lt→ltb _ _ lt) in
      (r, st', next_range_draws fuel low high st order h ∙ is)
