-- ===== src/Ecvrf/HashToCurve/Search.antt =====
-- `encodeToCurveTAI` returns the point of the first counter that has one.
use cc_vrf.Common.{
  ℕ, zero, suc, ◌+◌, ◌<◌, ◌≡◌, refl, Bytes, false, ◌⊎◌, inl, inr, none, some, arith, ok, err,
  Option-cases, Bool-cases,
}
use cc_vrf.Ecvrf.Encoding.{counter_exceeded}
use cc_vrf.Ecvrf.Curve.{Curve, IsNoble}
use cc_vrf.Ecvrf.HashToCurve.{max_ctr, candidate, try_counters, encode_to_curve_tai}
use mathlib.Core.Bool.{true}

module _ (ed : Curve) (noble : IsNoble ed) where
  -- The counter's candidate decodes to a point of which 8 times is `p`, not the identity.
  abbrev pub Accepts : Bytes → Bytes → ℕ → ed.Point → Type 0
  Accepts salt alpha ctr p =
      (q : ed.Point) × (ed.from_bytes (candidate ed salt alpha ctr) ≡ some q)
      × (noble.scalar_multiple 8 q ≡ p)
      × (ed.equals p ed.zero_point ≡ false)

  -- The counter's candidate is no point, or 8 times it is the identity.
  abbrev pub Skips : Bytes → Bytes → ℕ → Type 0
  Skips salt alpha ctr =
      (ed.from_bytes (candidate ed salt alpha ctr) ≡ none)
      ⊎ ((q : ed.Point) × (ed.from_bytes (candidate ed salt alpha ctr) ≡ some q)
          × (ed.equals (noble.scalar_multiple 8 q) ed.zero_point ≡ true))

  cofactor_in_range : 8 < ed.order
  cofactor_in_range = omega (arith, noble.order_lower)

  module _ (salt alpha : Bytes) where
    abbrev Found : ℕ → ℕ → Type 0
    Found rounds ctr =
        (p : ed.Point) × (i : ℕ) × (i < rounds)
        × (try_counters ed rounds salt alpha ctr ≡ ok p)
        × Accepts salt alpha (ctr + i) p
        × ((j : ℕ) → j < i → Skips salt alpha (ctr + j))

    abbrev Exhausted : ℕ → ℕ → Type 0
    Exhausted rounds ctr =
        (try_counters ed rounds salt alpha ctr ≡ err counter_exceeded)
        × ((j : ℕ) → j < rounds → Skips salt alpha (ctr + j))

    moved : (i j : ℕ) (p : ed.Point) → j ≡ i → Accepts salt alpha i p → Accepts salt alpha j p
    moved i j p e a = rw e a

    here : (ctr : ℕ) → Skips salt alpha ctr → Skips salt alpha (ctr + 0)
    here ctr h = let e : ctr + 0 ≡ ctr = omega arith in rw e h

    there : (ctr j : ℕ) → Skips salt alpha (ctr + 1 + j) → Skips salt alpha (ctr + suc j)
    there ctr j h = let e : ctr + suc j ≡ ctr + 1 + j = omega arith in rw e h

    extend :
        (ctr n : ℕ)
        → Skips salt alpha ctr
        → ((j : ℕ) → j < n → Skips salt alpha (ctr + 1 + j))
        → (j : ℕ) → j < suc n
        → Skips salt alpha (ctr + j)
    extend ctr n s all zero h = here ctr s
    extend ctr n s all (suc j) h = there ctr j (all j (omega arith))

    -- A skipped counter leaves the rest of the search.
    skip :
        (rounds ctr : ℕ)
        → Skips salt alpha ctr
        → try_counters ed (suc rounds) salt alpha ctr ≡ try_counters ed rounds salt alpha (ctr + 1)
    unfolding try_counters
    skip rounds ctr (inl e) = ground arith
    skip rounds ctr (inr (q, e, z)) =
        ground (arith, noble.multiply-eq-some q 8 (omega arith) cofactor_in_range)

    accept :
        (rounds ctr : ℕ) (p : ed.Point)
        → Accepts salt alpha ctr p
        → try_counters ed (suc rounds) salt alpha ctr ≡ ok p
    unfolding try_counters
    accept rounds ctr p (q, e, m, z) =
        ground (arith, noble.multiply-eq-some q 8 (omega arith) cofactor_in_range)

    judge : (ctr : ℕ) → ((p : ed.Point) × Accepts salt alpha ctr p) ⊎ Skips salt alpha ctr
    judge ctr = elim (Option-cases (ed.from_bytes (candidate ed salt alpha ctr))) [
      | inl e ↦ inr (inl e)
      | inr (q, e) ↦ elim (Bool-cases (ed.equals (noble.scalar_multiple 8 q) ed.zero_point)) [
        | inl z ↦ inr (inr (q, e, z))
        | inr z ↦ inl (noble.scalar_multiple 8 q, (q, e, refl, z))
      ]
    ]

    search_cases : (rounds ctr : ℕ) → Found rounds ctr ⊎ Exhausted rounds ctr
    search_cases zero ctr = inr (unfold try_counters in refl, λ j h. absurd (omega arith))
    search_cases (suc rounds) ctr = elim (judge ctr) [
      | inl (p, a) ↦ inl (
        p,
        0,
        omega arith,
        accept rounds ctr p a,
        moved ctr (ctr + 0) p (omega arith) a,
        λ j h. absurd (omega arith),
      )
      | inr s ↦ elim (search_cases rounds (ctr + 1)) [
        | inl (p, i, lt, e, a, before) ↦ inl (
          p,
          suc i,
          omega arith,
          rw (skip rounds ctr s) e,
          moved _ _ p (omega arith) a,
          extend ctr i s before,
        )
        | inr (e, all) ↦ inr (rw (skip rounds ctr s) e, extend ctr rounds s all)
      ]
    ]

-- Over a curve library with its documented behaviour, within 256 counters encode_to_curve_tai
-- returns the cleared point of the first counter whose candidate decodes and is not cleared to the
-- identity; it throws exactly when all 256 are skipped.
pub encode_to_curve_tai_cases :
    (ed : Curve) (noble : IsNoble ed) (salt alpha : Bytes)
    → ((p : ed.Point) × (i : ℕ) × (i < max_ctr)
        × (encode_to_curve_tai ed salt alpha ≡ ok p)
        × Accepts ed noble salt alpha i p
        × ((j : ℕ) → j < i → Skips ed noble salt alpha j))
      ⊎ ((encode_to_curve_tai ed salt alpha ≡ err counter_exceeded)
          × ((j : ℕ) → j < max_ctr → Skips ed noble salt alpha j))
unfolding encode_to_curve_tai
encode_to_curve_tai_cases ed noble salt alpha = elim (search_cases ed noble salt alpha max_ctr 0) [
  | inl (p, i, lt, e, a, before) ↦ inl (
    p,
    i,
    lt,
    e,
    moved ed noble salt alpha (0 + i) i p (omega arith) a,
    λ j h. from_zero j (before j h),
  )
  | inr (e, all) ↦ inr (e, λ j h. from_zero j (all j h))
]
  where
    from_zero : (j : ℕ) → Skips ed noble salt alpha (0 + j) → Skips ed noble salt alpha j
    from_zero j s = let e : j ≡ 0 + j = omega arith in rw e s
