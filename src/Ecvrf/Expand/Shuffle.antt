-- ===== src/Ecvrf/Expand/Shuffle.antt =====
-- shuffle of expand.ts permutes, and pick returns an element.
use cc_vrf.Common.{
  ℕ, zero, suc, ◌+◌, ◌-◌, ◌≤◌, ◌<◌, ◌^◌, ◌≡◌, refl, sym, ap, subst, ◌∙◌, List, [], ◌∷◌, ◌++◌, map,
  Option, none, some, length, replicate, get_elem?, set, Bool, true, false, ltb, lt→ltb,
  if◌then◌else◌, Bool-cases, inl, inr, Result, ok, ok_injective, ◌>>=◌, >>=-eq-ok, ◌==◌, ℤ, pos,
  negsuc, ◌-ℤ◌, ◌≤ℤ◌, ◌<ℤ◌, -ℤ_parts, ℤ_one_part, arith,
}
use cc_vrf.Ecvrf.Expand.Defs.{
  Host, Stream, StreamError, int, next_range, pick, shuffle_from, shuffle,
}
use cc_vrf.Ecvrf.Expand.Range.{width, next_range_bounds}
use cc_vrf.Ecvrf.Expand.Slots.{Slots, element_at, slots_of, read_slot, write_slot, swap}
use mathlib.Core.List.{Perm}
use mathlib.Core.List.Perm

-- An index that is drawn lies in the array.
drawn_index :
    (host : Host) (fuel n : ℕ) (st : Stream) {j : ℤ} {st' : Stream}
    → n ≤ 2 ^ 31
    → next_range host fuel (int (pos 0)) (int (pos n)) st ≡ ok (j, st')
    → (k : ℕ) × (j ≡ pos k) × (k < n)
drawn_index host fuel n st {j} h e =
    let small : width (pos 0) (pos n) ≤ 2 ^ 31 =
      omega (arith, -ℤ_parts (pos n) (pos 0), ℤ_one_part (pos n -ℤ pos 0)) in
    let (low, high) =
      next_range_bounds host fuel (pos 0) (pos n) st (omega arith, omega arith)
        (omega arith, omega arith) small e in
    natural j low high
  where
    natural : (j : ℤ) → pos 0 ≤ℤ j → j <ℤ pos n → (k : ℕ) × (j ≡ pos k) × (k < n)
    natural (pos k) low high = (k, refl, omega (arith, high))
    natural (negsuc k) low high = absurd (omega (arith, low))

module _ {ℓ} {A : Type ℓ} where
  -- A write exchanges an element of the list for the one written.
  set-Perm :
      (xs : List A) (i : ℕ) (v x : A) → get_elem? xs i ≡ some x → Perm (v ∷ xs) (x ∷ set xs i v)
  set-Perm [] i v x e = absurd cc
  set-Perm (y ∷ xs) zero v x e =
      let is : y ≡ x = cc in subst (λ z. Perm (v ∷ y ∷ xs) (z ∷ v ∷ xs)) is (Perm.swap y v xs)
  set-Perm (y ∷ xs) (suc i) v x e =
      Perm.trans (Perm.swap y v xs)
        (Perm.trans (Perm.cons y (set-Perm xs i v x e)) (Perm.swap x y (set xs i v)))

  get_elem?-set :
      (xs : List A) (i j : ℕ) (x b : A)
      → get_elem? xs i ≡ some x
      → get_elem? xs j ≡ some b
      → get_elem? (set xs i b) j ≡ some b
  get_elem?-set [] i j x b ei ej = absurd cc
  get_elem?-set (y ∷ xs) zero zero x b ei ej = refl
  get_elem?-set (y ∷ xs) zero (suc j) x b ei ej = ej
  get_elem?-set (y ∷ xs) (suc i) zero x b ei ej = ej
  get_elem?-set (y ∷ xs) (suc i) (suc j) x b ei ej = get_elem?-set xs i j x b ei ej

  length-set : (xs : List A) (i : ℕ) (v : A) → length (set xs i v) ≡ length xs
  length-set [] i v = refl
  length-set (x ∷ xs) zero v = refl
  length-set (x ∷ xs) (suc i) v = omega (arith, length-set xs i v)

  length-map : (xs : List A) → length (map some xs) ≡ length xs
  length-map [] = refl
  length-map (x ∷ xs) = omega (arith, length-map xs)

  set-map : (xs : List A) (i : ℕ) (v : A) → set (map some xs) i (some v) ≡ map some (set xs i v)
  set-map [] i v = refl
  set-map (x ∷ xs) zero v = refl
  set-map (x ∷ xs) (suc i) v = ap (λ t. some x ∷ t) (set-map xs i v)

  get_elem?-some : (xs : List A) (i : ℕ) → i < length xs → (a : A) × (get_elem? xs i ≡ some a)
  get_elem?-some [] i h = absurd (omega arith)
  get_elem?-some (x ∷ xs) zero h = (x, refl)
  get_elem?-some (x ∷ xs) (suc i) h = get_elem?-some xs i (omega arith)

  read_slot-slots_of : (xs : List A) (i : ℕ) → read_slot (slots_of xs) (pos i) ≡ get_elem? xs i
  unfolding read_slot
  read_slot-slots_of [] i = refl
  read_slot-slots_of (x ∷ xs) zero = refl
  read_slot-slots_of (x ∷ xs) (suc i) = read_slot-slots_of xs i

  write_slot-slots_of :
      (xs : List A) (i : ℕ) (v : A)
      → i < length xs
      → write_slot (slots_of xs) (pos i) (some v) ≡ slots_of (set xs i v)
  unfolding write_slot
  write_slot-slots_of xs i v h =
      let inside : ltb i (length (map some xs)) ≡ true =
        lt→ltb _ _ (omega (arith, h, length-map xs)) in
      written (ltb i (length (map some xs))) inside
    where
      written :
          (b : Bool)
          → b ≡ true
          → (if b
              then record (slots_of xs) { elements = set (map some xs) i (some v) }
              else record (slots_of xs) {
                elements = map some xs ++ replicate (i - length (map some xs)) none ++ some v ∷ [];
              })
            ≡ slots_of (set xs i v)
      written true e = ap (λ t. record { elements = t; stray = [] }) (set-map xs i v)
      written false e = absurd cc

  -- Two elements of an array change places.
  swap-slots_of :
      (xs : List A) (i j : ℕ)
      → i < length xs
      → j < length xs
      → (ys : List A) × (swap (slots_of xs) (pos i) (pos j) ≡ slots_of ys)
        × (length ys ≡ length xs)
        × Perm xs ys
  unfolding swap
  swap-slots_of xs i j hi hj =
      let (tmp, ei) = get_elem?-some xs i hi in
      let (b, ej) = get_elem?-some xs j hj in
      let first = set xs i b in
      let lengths : length first ≡ length xs = length-set xs i b in
      (
        set first j tmp,
        ap
              (λ v.
                write_slot (write_slot (slots_of xs) (pos i) v) (pos j)
                  (read_slot (slots_of xs) (pos i)))
              (read_slot-slots_of xs j ∙ ej)
            ∙ ap (λ v. write_slot (write_slot (slots_of xs) (pos i) (some b)) (pos j) v)
                (read_slot-slots_of xs i ∙ ei)
            ∙ ap (λ out. write_slot out (pos j) (some tmp)) (write_slot-slots_of xs i b hi)
            ∙ write_slot-slots_of first j tmp (omega (arith, lengths)),
        length-set first j tmp ∙ lengths,
        Perm.cons_inv (
            Perm.trans (set-Perm xs i b tmp ei)
              (set-Perm first j tmp b (get_elem?-set xs i j tmp b ei ej))),
      )

  module _ (host : Host) where
    shuffle_from-Perm :
        (fuel i : ℕ) (arr : List A) (st : Stream) {out : Slots A} {st' : Stream}
        → i ≤ length arr - 1
        → length arr ≤ 2 ^ 31
        → shuffle_from host fuel i (slots_of arr) st ≡ ok (out, st')
        → (xs : List A) × (out ≡ slots_of xs) × Perm arr xs
    unfolding shuffle_from
    shuffle_from-Perm fuel zero arr st {out} {st'} lt h e =
        let is : slots_of arr ≡ out = ap (λ p. p.0) (ok_injective e) in (arr, sym is, Perm.refl arr)
    shuffle_from-Perm fuel (suc i) arr st {out} {st'} lt h e =
        let ((j, u), ep, rest) =
          >>=-eq-ok (next_range host fuel (int (pos 0)) (int (pos (suc i + 1))) st) _ e in
        let (k, is, below) = drawn_index host fuel (suc i + 1) st (omega (arith, lt, h)) ep in
        let (ys, swapped, len, perm) =
          swap-slots_of arr (suc i) k (omega (arith, lt)) (omega (arith, lt, below)) in
        let rest' =
          subst (λ s. shuffle_from host fuel i s u ≡ ok (out, st'))
            (ap (λ (x : ℤ). swap (slots_of arr) (pos (suc i)) x) is ∙ swapped) rest in
        let (xs, out_is, perm') =
          shuffle_from-Perm fuel i ys u (omega (arith, lt, len)) (omega (arith, h, len)) rest' in
        (xs, out_is, Perm.trans {l₂ = ys} {l₃ = xs} perm perm')

    -- On an array of at most 2^31 elements, what shuffle returns is an array without undefined
    -- elements or stray properties, and a permutation of the one it was given.
    pub shuffle-Perm :
        (fuel : ℕ) (arr : List A) (st : Stream) {out : Slots A} {st' : Stream}
        → length arr ≤ 2 ^ 31
        → shuffle host fuel arr st ≡ ok (out, st')
        → (xs : List A) × (out ≡ slots_of xs) × Perm arr xs
    unfolding shuffle
    shuffle-Perm fuel arr st h e = shuffle_from-Perm fuel (length arr - 1) arr st (omega arith) h e

    -- On an array of at most 2^31 elements whatever pick returns is an element of the array, never
    -- undefined.
    pub pick_defined :
        (fuel : ℕ) (arr : List A) (st : Stream) {picked : Option A} {st' : Stream}
        → length arr ≤ 2 ^ 31
        → pick host fuel arr st ≡ ok (picked, st')
        → (i : ℕ) × (a : A) × (i < length arr) × (get_elem? arr i ≡ some a) × (picked ≡ some a)
    unfolding pick
    pick_defined fuel arr st {picked} {st'} h e = elim (Bool-cases (length arr == 0)) [
      | inl empty ↦ absurd (ground arith)
      | inr full ↦
          let n : ℕ = length arr in
          let range = next_range host fuel (int (pos 0)) (int (pos n)) st in
          let answer : ℤ × Stream → Result StreamError (Option A × Stream) =
            λ p. ok (element_at arr p.0, p.1) in
          let e' : (range >>= answer) ≡ ok (picked, st') = ground arith in
          let ((j, u), ep, is) = >>=-eq-ok range answer e' in
          let (k, j_is, below) = drawn_index host fuel n st h ep in
          let (a, ea) = get_elem?-some arr k below in
          let at : element_at arr j ≡ picked = ap (λ p. p.0) (ok_injective is) in
          (k, a, below, ea, sym at ∙ ap (element_at arr) j_is ∙ ea)
    ]
