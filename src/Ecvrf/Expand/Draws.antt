-- ===== src/Ecvrf/Expand/Draws.antt =====
-- Reading from a stream: bytes, words and forks.
use cc_vrf.Common.{
  ℕ, zero, suc, ◌+◌, ◌≡◌, refl, sym, ap, ap₂, ◌∙◌, List, [], ◌++◌, Bytes, arith, length, ok, subst,
  inl, inr, Bool-cases, leb, ltb, append_assoc, ◌==◌,
}
use cc_vrf.Ecvrf.Expand.Defs.{Host, Stream, ensure, fill, take_bytes, vrf_stream, encode_path, fork}
use cc_vrf.Ecvrf.Expand.Position.{
  IsAt, read, length-read, read-append, fill-read, fill_more, round_bytes, round_stream,
}

module _ (host : Host) (sized : (m : Bytes) → length (host.sha512 m) ≡ 64) where
  -- From position `p`, take_bytes returns the next n bytes of the sequence and moves by n.
  pub take_bytes_lem :
      (beta encoded : Bytes) (n p : ℕ) (st : Stream)
      → IsAt host beta encoded p st
      → ((take_bytes host n st).0 ≡ read host beta encoded p n)
        × IsAt host beta encoded (p + n) (take_bytes host n st).1
  unfolding take_bytes
  take_bytes_lem beta encoded n p st at =
      fill-read host beta encoded sized n n p p [] st (omega arith) (unfold read in refl)
        (omega arith) (omega arith) at

  abbrev first_stream : Bytes → List (List ℕ) → Stream
  first_stream beta path = record {
    beta = beta;
    path = path;
    encoded_path = encode_path host path;
    block_index = 0;
    buf = [];
    buf_offset = 0;
  }

  -- A new stream stands at position 0.
  pub vrf_stream-IsAt :
      (beta : Bytes) (path : List (List ℕ)) {st : Stream}
      → vrf_stream host beta path ≡ ok st
      → IsAt host beta (encode_path host path) 0 st
  unfolding vrf_stream
  vrf_stream-IsAt beta path {st} e = elim (Bool-cases (length beta == 64)) [
    | inr bad ↦ absurd (ground arith)
    | inl good ↦
        let e' : vrf_stream host beta path ≡ ok (first_stream beta path) = ground arith in
        let is : first_stream beta path ≡ st = cc in
        subst (IsAt host beta (encode_path host path) 0) is (record {
          same_beta = refl;
          same_path = refl;
          offset_in_buf = omega arith;
          buffer_bytes = unfold read in refl;
          buffer_end = refl;
        })
  ]

  vrf_stream-path :
      (beta : Bytes) (path : List (List ℕ)) {st : Stream}
      → vrf_stream host beta path ≡ ok st
      → st.path ≡ path
  unfolding vrf_stream
  vrf_stream-path beta path {st} e = ground arith

  -- Over a hash of 64 bytes: reading n bytes and then m more gives the bytes that one call for n +
  -- m gives, however the calls fall on the blocks, and the two ways leave the stream at the same
  -- position.
  pub take_bytes-append :
      (beta : Bytes) (path : List (List ℕ)) (p n m : ℕ) (st : Stream)
      → IsAt host beta (encode_path host path) p st
      → let (front, st') = take_bytes host n st in
        let (back, st'') = take_bytes host m st' in
        let (whole, st''') = take_bytes host (n + m) st in
        (front ++ back ≡ whole)
        × (length whole ≡ n + m)
        × IsAt host beta (encode_path host path) (p + n + m) st''
        × IsAt host beta (encode_path host path) (p + n + m) st'''
  take_bytes-append beta path p n m st at =
      let encoded = encode_path host path in
      let (e1, at1) = take_bytes_lem beta encoded n p st at in
      let (e2, at2) = take_bytes_lem beta encoded m (p + n) (take_bytes host n st).1 at1 in
      let (e3, at3) = take_bytes_lem beta encoded (n + m) p st at in
      (
        ap₂ ◌++◌ e1 e2 ∙ read-append host beta encoded p n m (p + n) refl ∙ sym e3,
        ap length e3 ∙ length-read host beta encoded p (n + m),
        at2,
        (let e : p + n + m ≡ p + (n + m) = omega arith in rw e at3),
      )

  ensure_keeps :
      (st : Stream) → ((ensure host st).beta ≡ st.beta) × ((ensure host st).path ≡ st.path)
  unfolding ensure
  ensure_keeps st = elim (Bool-cases (leb (length st.buf) st.buf_offset)) [
    | inl e ↦ (ground arith, ground arith)
    | inr e ↦ (ground arith, ground arith)
  ]

  fill_keeps :
      (fuel n : ℕ) (out : Bytes) (st : Stream)
      → ((fill host fuel n out st).1.beta ≡ st.beta) × ((fill host fuel n out st).1.path ≡ st.path)
  unfolding fill
  fill_keeps zero n out st = (refl, refl)
  fill_keeps (suc fuel) n out st = elim (Bool-cases (ltb (length out) n)) [
    | inr e ↦ (ground arith, ground arith)
    | inl e ↦
        let st' = ensure host st in
        let (b, p) = ensure_keeps st in
        let (b', p') =
          fill_keeps fuel n (out ++ round_bytes host st.beta [] sized n out st')
            (round_stream host st.beta [] sized n out st') in
        rw (fill_more host st.beta [] sized fuel n out st e) (b' ∙ b, p' ∙ p)
  ]

  -- Over a hash of 64 bytes, fork starts a stream for the longer path at block 0, whatever was
  -- read before it: the label alone tells the new stream from its parent.
  pub fork-take_bytes :
      (label : List (List ℕ)) (n : ℕ) (st : Stream)
      → fork host label (take_bytes host n st).1 ≡ fork host label st
  unfolding fork take_bytes
  fork-take_bytes label n st =
      let (b, p) = fill_keeps n n [] st in
      ap₂ (λ (beta : Bytes) (path : List (List ℕ)). vrf_stream host beta (path ++ label)) b p

  -- Over a hash of 64 bytes: where fork with label a succeeds, a fork of the child with label b is
  -- the fork with a ++ b.
  pub fork-fork :
      (a b : List (List ℕ)) (st : Stream) {child : Stream}
      → fork host a st ≡ ok child
      → fork host b child ≡ fork host (a ++ b) st
  unfolding fork
  fork-fork a b st {child} e =
      let at = vrf_stream-IsAt st.beta (st.path ++ a) e in
      ap₂ (λ (beta : Bytes) (path : List (List ℕ)). vrf_stream host beta (path ++ b)) at.same_beta
        (vrf_stream-path st.beta (st.path ++ a) e)
      ∙ ap (λ (path : List (List ℕ)). vrf_stream host st.beta path) (append_assoc st.path a b)
