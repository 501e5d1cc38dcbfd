-- ===== src/Ecvrf/Encoding/Concat.antt =====
-- `concatBytes` concatenates, and `bytesEqual` decides equality.
use cc_vrf.Common.{
  ℕ, zero, suc, ◌+◌, ◌≤◌, ◌≡◌, refl, sym, ap, ap₂, List, [], ◌∷◌, ◌++◌, Bytes, true, false, ◌↔◌,
  arith, length, drop, replicate, take-append_self, drop-append_self, drop-drop, append_assoc,
  flatten, bit_or, bit_xor, zeros_of_bit_or, eq_of_bit_xor, bit_xor_self, bit_or-zero,
  length-append, ◌==◌, ==_iff, inl, inr, Bool-cases, if◌then◌else◌,
}
use cc_vrf.Ecvrf.Encoding.Defs.{
  set_at, total_length, concat_from, concat_bytes, diff_loop, bytes_equal,
}

drop-replicate : (n m : ℕ) → drop {A = ℕ} n (replicate (n + m) 0) ≡ replicate m 0
drop-replicate zero m = ap (λ (k : ℕ). replicate {A = ℕ} k 0) (omega arith)
drop-replicate (suc n) m = rw (shift n m) (drop-replicate n m)
  where
    shift : (n m : ℕ) → suc n + m ≡ suc (n + m)
    shift n m = omega arith

total_length-flatten :
    (total : ℕ) (parts : List Bytes) → total_length total parts ≡ total + length (flatten parts)
unfolding flatten
total_length-flatten total [] = omega arith
total_length-flatten total (p ∷ parts) =
    omega (arith, total_length-flatten (total + length p) parts, length-append p (flatten parts))

-- The write of one part behind those that are in place.
set_at-append :
    (done p : Bytes) (m : ℕ)
    → set_at (done ++ replicate (length p + m) 0) (length done) p ≡ (done ++ p) ++ replicate m 0
set_at-append done p m = rw (
  take-append_self done (replicate (length p + m) 0) refl,
  ← drop-drop (length p) (length done) _ (done ++ replicate (length p + m) 0) refl,
  drop-append_self done (replicate (length p + m) 0) refl,
  drop-replicate (length p) m,
  append_assoc,
)

concat_from-flatten :
    (parts : List Bytes) (done : Bytes) (offset m : ℕ)
    → offset ≡ length done
    → m ≡ length (flatten parts)
    → concat_from (done ++ replicate m 0) offset parts ≡ done ++ flatten parts
unfolding concat_from flatten
concat_from-flatten [] done offset m e h = rw h
concat_from-flatten (p ∷ parts) done offset m e h = rw (
  h,
  e,
  length-append p (flatten parts),
  set_at-append done p (length (flatten parts)),
  concat_from-flatten parts (done ++ p) (length done + length p) _ (sym (length-append done p))
      refl,
  append_assoc,
)

-- Every write of the loop lies inside an array of `total` bytes.
abbrev pub Fits : ℕ → ℕ → List Bytes → Type 0
Fits total offset [] = Unit
Fits total offset (p ∷ parts) = (offset + length p ≤ total) × Fits total (offset + length p) parts

Fits-flatten :
    (parts : List Bytes) (total offset : ℕ)
    → offset + length (flatten parts) ≡ total
    → Fits total offset parts
unfolding flatten
Fits-flatten [] total offset e = tt
Fits-flatten (p ∷ parts) total offset e =
    let h = length-append p (flatten parts) in
    (omega (arith, h), Fits-flatten parts total (offset + length p) (omega (arith, h)))

-- concat_bytes puts its parts one behind the other, and none of its writes passes the end of the
-- array that it allocated.
pub concat_bytes-flatten :
    (parts : List Bytes)
    → (concat_bytes parts ≡ flatten parts) × Fits (total_length 0 parts) 0 parts
unfolding concat_bytes
concat_bytes-flatten parts = (
  concat_from-flatten parts [] 0 (total_length 0 parts) refl (omega (arith, sums)),
  Fits-flatten parts _ 0 (omega (arith, sums)),
)
  where
    sums : total_length 0 parts ≡ 0 + length (flatten parts)
    sums = total_length-flatten 0 parts

diff_loop-eq-zero :
    (diff : ℕ) (a b : Bytes) → length a ≡ length b → diff_loop diff a b ≡ 0 → (diff ≡ 0) × (a ≡ b)
unfolding diff_loop
diff_loop-eq-zero diff [] [] e h = (h, refl)
diff_loop-eq-zero diff [] (y ∷ b) e h = absurd (omega arith)
diff_loop-eq-zero diff (x ∷ a) [] e h = absurd (omega arith)
diff_loop-eq-zero diff (x ∷ a) (y ∷ b) e h =
    let (d, same) = diff_loop-eq-zero (bit_or diff (bit_xor x y)) a b (omega arith) h in
    let (d', z) = zeros_of_bit_or diff (bit_xor x y) d in (d', ap₂ ◌∷◌ (eq_of_bit_xor x y z) same)

diff_loop_self : (a : Bytes) → diff_loop 0 a a ≡ 0
unfolding diff_loop
diff_loop_self [] = refl
diff_loop_self (x ∷ a) = rw (bit_xor_self x, bit_or-zero 0) (diff_loop_self a)

-- bytes_equal answers true exactly on equal byte strings.
pub bytes_equal_iff : (a b : Bytes) → (bytes_equal a b ≡ true) ↔ (a ≡ b)
unfolding bytes_equal
bytes_equal_iff a b = (sound, λ e. rw e complete)
  where
    complete : (if length b == length b then diff_loop 0 b b == 0 else false) ≡ true
    complete = rw ((==_iff (length b) (length b)).1 refl, diff_loop_self b)

    sound : (if length a == length b then diff_loop 0 a b == 0 else false) ≡ true → a ≡ b
    sound h = elim (Bool-cases (length a == length b)) [
      | inl e ↦ (diff_loop-eq-zero 0 a b ((==_iff _ _).0 e) ((==_iff _ _).0 (rw e at h))).1
      | inr e ↦ absurd (ground arith)
    ]
