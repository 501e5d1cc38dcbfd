-- ===== src/Ecvrf/Prove/Challenge.antt =====
-- packages/ecvrf/src/challenge.ts.
use cc_vrf.Common.{ℕ, [], ◌∷◌, slice}
use cc_vrf.Ecvrf.Encoding.{concat_bytes, bytes_to_big_int_le}
use cc_vrf.Ecvrf.Curve.{Curve}
use cc_vrf.Ecvrf.Suite.{suite_string, challenge_dst_front, challenge_dst_back, c_len}

unfoldable pub challenge_generation :
    (ed : Curve) → ed.Point → ed.Point → ed.Point → ed.Point → ed.Point → ℕ
challenge_generation ed y h gamma u v = bytes_to_big_int_le (
    slice
      (ed.sha512 (
        concat_bytes (
          (suite_string ∷ [])
          ∷ (challenge_dst_front ∷ [])
          ∷ ed.to_bytes y
          ∷ ed.to_bytes h
          ∷ ed.to_bytes gamma
          ∷ ed.to_bytes u
          ∷ ed.to_bytes v
          ∷ (challenge_dst_back ∷ [])
          ∷ [])))
      0 c_len)
