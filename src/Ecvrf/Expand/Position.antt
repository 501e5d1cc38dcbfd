-- ===== src/Ecvrf/Expand/Position.antt =====
-- A stream is a position in the endless sequence of the bytes of its blocks.
use cc_vrf.Common.{
  ℕ, zero, suc, ◌+◌, ◌-◌, ◌*◌, ◌/◌, ◌%◌, ◌≤◌, ◌<◌, min, ◌≡◌, refl, sym, ap, ap₂, ◌∙◌, [], ◌∷◌, ◌++◌,
  Bytes, arith, length, get_or, take, drop, slice, true, false, leb, ltb, leb→le, ltb→lt, inl, inr,
  Bool-cases, length-append, length-drop, drop-drop,
}
use cc_vrf.Ecvrf.Expand.Defs.{Host, Stream, block, refill, ensure, fill}

module _ (host : Host) (beta encoded : Bytes) where
  -- Byte `p` of the sequence: byte `p % 64` of block `p / 64`.
  abbrev pub byte_at : ℕ → ℕ
  byte_at p = get_or (block host beta encoded (p / 64)) (p % 64) 0

  -- The `n` bytes from position `p` on.
  unfoldable pub read : ℕ → ℕ → Bytes
  read p zero = []
  read p (suc n) = byte_at p ∷ read (p + 1) n

  pub length-read : (p n : ℕ) → length (read p n) ≡ n
  unfolding read
  length-read p zero = refl
  length-read p (suc n) = ap suc (length-read (p + 1) n)

  pub read-append : (p a b q : ℕ) → p + a ≡ q → read p a ++ read q b ≡ read p (a + b)
  unfolding read
  read-append p zero b q e = ap₂ (λ (i j : ℕ). read i j) (omega arith) (omega arith)
  read-append p (suc a) b q e =
      ap (λ t. byte_at p ∷ t) (read-append (p + 1) a b q (omega arith)) ∙ next
    where
      next : byte_at p ∷ read (p + 1) (a + b) ≡ read p (suc a + b)
      next = let e : suc a + b ≡ suc (a + b) = omega arith in rw e

  take-read : (p t m : ℕ) → t ≤ m → take t (read p m) ≡ read p t
  unfolding read
  take-read p zero m h = refl
  take-read p (suc t) zero h = absurd (omega arith)
  take-read p (suc t) (suc m) h = ap (λ r. byte_at p ∷ r) (take-read (p + 1) t m (omega arith))

  drop-read : (p t m q k : ℕ) → p + t ≡ q → t + k ≡ m → drop t (read p m) ≡ read q k
  unfolding read
  drop-read p zero m q k e f = ap₂ (λ (i j : ℕ). read i j) (omega arith) (omega arith)
  drop-read p (suc t) zero q k e f = absurd (omega arith)
  drop-read p (suc t) (suc m) q k e f = drop-read (p + 1) t m q k (omega arith) (omega arith)

  -- Any 64 bytes with the entries of block `b` are its 64 positions.
  entries :
      (xs : Bytes) (b i n : ℕ)
      → length xs ≡ n
      → i + n ≡ 64
      → ((j : ℕ) → j < n → get_or xs j 0 ≡ get_or (block host beta encoded b) (i + j) 0)
      → xs ≡ read (64 * b + i) n
  unfolding read
  entries [] b i zero e f h = refl
  entries [] b i (suc n) e f h = absurd (omega arith)
  entries (x ∷ xs) b i zero e f h = absurd (omega arith)
  entries (x ∷ xs) b i (suc n) e f h =
      let at = λ (q r : ℕ). get_or (block host beta encoded q) r 0 in
      ap₂ ◌∷◌ (h 0 (omega arith) ∙ ap₂ at (omega arith) (omega arith)) (
        entries xs b (i + 1) n (omega arith) (omega arith)
          (λ j lt. h (suc j) (omega arith) ∙ ap (λ (k : ℕ). at b k) (omega arith))
        ∙ ap (λ (p : ℕ). read p n) (omega arith))

  block-read :
      (b : ℕ)
      → length (block host beta encoded b) ≡ 64
      → block host beta encoded b ≡ read (64 * b) 64
  block-read b e =
      entries (block host beta encoded b) b 0 64 e refl
        (λ j lt. ap (λ (k : ℕ). get_or (block host beta encoded b) k 0) (omega arith))
      ∙ ap (λ (p : ℕ). read p 64) (omega arith)

  -- The bytes still in the buffer.
  abbrev pub buffered : Stream → Bytes
  buffered st = drop st.buf_offset st.buf

  -- The stream has given out `p` bytes: its buffer holds the next ones, up to the end of a block.
  pub record IsAt (p : ℕ) (st : Stream) : Type 0 where
    pub same_beta : st.beta ≡ beta
    pub same_path : st.encoded_path ≡ encoded
    pub offset_in_buf : st.buf_offset ≤ length st.buf
    pub buffer_bytes : buffered st ≡ read p (length (buffered st))
    pub buffer_end : p + length (buffered st) ≡ 64 * st.block_index

  module _ (sized : (m : Bytes) → length (host.sha512 m) ≡ 64) where
    length-block : (b e : Bytes) (i : ℕ) → length (block host b e i) ≡ 64
    unfolding block
    length-block b e i = sized _

    length-buffered : (st : Stream) → length (buffered st) ≡ length st.buf - st.buf_offset
    length-buffered st = length-drop st.buf_offset st.buf

    ensure_full : (st : Stream) → leb (length st.buf) st.buf_offset ≡ false → ensure host st ≡ st
    unfolding ensure
    ensure_full st e = ground arith

    ensure_empty :
        (st : Stream) → leb (length st.buf) st.buf_offset ≡ true → ensure host st ≡ refill host st
    unfolding ensure
    ensure_empty st e = ground arith

    refill-IsAt :
        (p : ℕ) (st : Stream)
        → IsAt p st
        → length st.buf ≤ st.buf_offset
        → IsAt p (refill host st) × ((refill host st).buf_offset < length (refill host st).buf)
    unfolding refill
    refill-IsAt p st at empty =
        let here : block host st.beta st.encoded_path st.block_index
            ≡ block host beta encoded st.block_index =
          ap₂ (λ (b e : Bytes). block host b e st.block_index) at.same_beta at.same_path in
        let full : length (block host st.beta st.encoded_path st.block_index) ≡ 64 =
          length-block st.beta st.encoded_path st.block_index in
        let start : 64 * st.block_index ≡ p = omega (arith, at.buffer_end, length-buffered st) in
        (
          record {
            same_beta = at.same_beta;
            same_path = at.same_path;
            offset_in_buf = omega arith;
            buffer_bytes =
                here
                ∙ block-read st.block_index (length-block beta encoded st.block_index)
                ∙ ap₂ (λ (i n : ℕ). read i n) start (sym full);
            buffer_end = omega (arith, full, start);
          },
          omega (arith, full),
        )

    -- After `if (bufOffset >= buf.length) refill();` a byte is at hand.
    ensure-IsAt :
        (p : ℕ) (st : Stream)
        → IsAt p st
        → IsAt p (ensure host st) × ((ensure host st).buf_offset < length (ensure host st).buf)
    ensure-IsAt p st at = elim (Bool-cases (leb (length st.buf) st.buf_offset)) [
      | inr more ↦ rw (ensure_full st more) (at, ground arith)
      | inl empty ↦ rw (ensure_empty st empty) (refill-IsAt p st at (leb→le _ _ empty))
    ]

    -- A round of `nextBytes` moves `count` bytes from the buffer.
    advance-IsAt :
        (p q count : ℕ) (st : Stream)
        → IsAt p st
        → count ≤ length st.buf - st.buf_offset
        → p + count ≡ q
        → IsAt q (record st { buf_offset = st.buf_offset + count })
          × (slice st.buf st.buf_offset (st.buf_offset + count) ≡ read p count)
    advance-IsAt p q count st at h e =
        let left : ℕ = length st.buf - st.buf_offset - count in
        let rest : drop (st.buf_offset + count) st.buf
            ≡ drop count (read p (length (buffered st))) =
          sym (drop-drop count st.buf_offset _ st.buf refl)
          ∙ ap (λ (t : Bytes). drop count t) at.buffer_bytes in
        let size : length (drop (st.buf_offset + count) st.buf) ≡ left =
          omega (arith, length-drop (st.buf_offset + count) st.buf) in
        (
          record {
            same_beta = at.same_beta;
            same_path = at.same_path;
            offset_in_buf = omega (arith, at.offset_in_buf);
            buffer_bytes =
                rest
                ∙ drop-read p count _ q left e (omega (arith, length-buffered st))
                ∙ ap (λ (n : ℕ). read q n) (sym size);
            buffer_end = omega (arith, size, at.buffer_end, length-buffered st);
          },
          ap (λ (n : ℕ). take n (buffered st)) (omega arith)
              ∙ ap (λ (t : Bytes). take count t) at.buffer_bytes
              ∙ take-read p count _ (omega (arith, length-buffered st)),
        )

    moved : (p q : ℕ) (st : Stream) → p ≡ q → IsAt p st → IsAt q st
    moved p q st e at = rw (← e) at

    abbrev pub round_count : ℕ → Bytes → Stream → ℕ
    round_count n out st = min (n - length out) (length st.buf - st.buf_offset)

    abbrev pub round_bytes : ℕ → Bytes → Stream → Bytes
    round_bytes n out st = slice st.buf st.buf_offset (st.buf_offset + round_count n out st)

    abbrev pub round_stream : ℕ → Bytes → Stream → Stream
    round_stream n out st = record st { buf_offset = st.buf_offset + round_count n out st }

    fill_done :
        (fuel n : ℕ) (out : Bytes) (st : Stream)
        → ltb (length out) n ≡ false
        → fill host (suc fuel) n out st ≡ (out, st)
    unfolding fill
    fill_done fuel n out st e = ground arith

    pub fill_more :
        (fuel n : ℕ) (out : Bytes) (st : Stream)
        → ltb (length out) n ≡ true
        → let st' = ensure host st in
          fill host (suc fuel) n out st
          ≡ fill host fuel n (out ++ round_bytes n out st') (round_stream n out st')
    unfolding fill
    fill_more fuel n out st e = ground arith

    -- The loop: the bytes written so far are those from `p` on, and it completes them up to `n`.
    pub fill-read :
        (fuel n p q : ℕ) (out : Bytes) (st : Stream)
        → p + length out ≡ q
        → out ≡ read p (length out)
        → length out ≤ n
        → n ≤ length out + fuel
        → IsAt q st
        → ((fill host fuel n out st).0 ≡ read p n) × IsAt (p + n) (fill host fuel n out st).1
    fill-read zero n p q out st e bytes h f at =
        unfold fill in
        let full : length out ≡ n = omega arith in
        (bytes ∙ ap (λ (k : ℕ). read p k) full, moved q (p + n) st (omega arith) at)
    fill-read (suc fuel) n p q out st e bytes h f at = elim (Bool-cases (ltb (length out) n)) [
      | inr done ↦
          let full : length out ≡ n = ground arith in
          rw (fill_done fuel n out st done)
            (bytes ∙ ap (λ (k : ℕ). read p k) full, moved q (p + n) st (omega arith) at)
      | inl more ↦
          let st' = ensure host st in
          let count = round_count n out st' in
          let (at', room) = ensure-IsAt q st at in
          let lt = ltb→lt _ _ more in
          let (next, chunk) = advance-IsAt q (q + count) count st' at' (omega arith) refl in
          let grown : length (out ++ round_bytes n out st') ≡ length out + count =
            length-append out (round_bytes n out st')
            ∙ ap (λ (k : ℕ). length out + k) (ap length chunk ∙ length-read q count) in
          let joined : out ++ round_bytes n out st' ≡ read p (length out + count) =
            ap₂ ◌++◌ bytes chunk ∙ read-append p (length out) count q e in
          rw (fill_more fuel n out st more) (
            fill-read fuel n p (q + count) (out ++ round_bytes n out st') (round_stream n out st')
              (omega (arith, grown)) (joined ∙ ap (λ (k : ℕ). read p k) (sym grown))
              (omega (arith, grown)) (omega (arith, grown)) next)
    ]
