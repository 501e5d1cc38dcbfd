-- ===== src/Ecvrf/HashToCurve.antt =====
-- packages/ecvrf/src/hashToCurve.ts: try-and-increment.
pub mod Search
use cc_vrf.Common.{
  ℕ, zero, suc, ◌+◌, List, [], ◌∷◌, Bytes, none, some, slice, Result, ok, err, if◌then◌else◌, ◌>>=◌,
}
use cc_vrf.Ecvrf.Encoding.{Error, counter_exceeded, concat_bytes}
use cc_vrf.Ecvrf.Curve.{Curve, multiply_checked}
use cc_vrf.Ecvrf.Suite.{
  suite_string, encode_to_curve_dst_front, encode_to_curve_dst_back, pt_len, cofactor,
}

abbrev pub max_ctr : ℕ
max_ctr = 256

module _ (ed : Curve) where
  -- The first 32 bytes of the hash for one counter.
  unfoldable pub candidate : Bytes → Bytes → ℕ → Bytes
  candidate salt alpha ctr =
      slice
        (ed.sha512 (
          concat_bytes (
            (suite_string ∷ [])
            ∷ (encode_to_curve_dst_front ∷ [])
            ∷ salt
            ∷ alpha
            ∷ (ctr ∷ [])
            ∷ (encode_to_curve_dst_back ∷ [])
            ∷ [])))
        0 pt_len

  -- The loop from `ctr` on, for as many rounds as `MAX_CTR` leaves.
  unfoldable pub try_counters : ℕ → Bytes → Bytes → ℕ → Result Error ed.Point
  try_counters zero salt alpha ctr = err counter_exceeded
  try_counters (suc rounds) salt alpha ctr =
      let next = try_counters rounds salt alpha (ctr + 1) in
      elim (ed.from_bytes (candidate salt alpha ctr)) [
        | none ↦ next
        | some point ↦ do
          cleared ← multiply_checked ed point cofactor
          if ed.equals cleared ed.zero_point then next else ok cleared
      ]

  unfoldable pub encode_to_curve_tai : Bytes → Bytes → Result Error ed.Point
  encode_to_curve_tai salt alpha = try_counters max_ctr salt alpha 0
