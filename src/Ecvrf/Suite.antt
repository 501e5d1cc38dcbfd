-- ===== src/Ecvrf/Suite.antt =====
-- packages/ecvrf/src/suite.ts: the constants of the ciphersuite. (`CURVE_ORDER` is `Curve.order`.)
use cc_vrf.Common.{ℕ, ◌+◌}

abbrev pub suite_string : ℕ
suite_string = 0x03

abbrev pub pt_len : ℕ
pt_len = 32

abbrev pub q_len : ℕ
q_len = 32

abbrev pub c_len : ℕ
c_len = 16

abbrev pub proof_len : ℕ
proof_len = pt_len + c_len + q_len

abbrev pub hash_len : ℕ
hash_len = 64

abbrev pub cofactor : ℕ
cofactor = 8

abbrev pub encode_to_curve_dst_front : ℕ
encode_to_curve_dst_front = 0x01

abbrev pub encode_to_curve_dst_back : ℕ
encode_to_curve_dst_back = 0x00

abbrev pub challenge_dst_front : ℕ
challenge_dst_front = 0x02

abbrev pub challenge_dst_back : ℕ
challenge_dst_back = 0x00

abbrev pub proof_to_hash_dst_front : ℕ
proof_to_hash_dst_front = 0x03

abbrev pub proof_to_hash_dst_back : ℕ
proof_to_hash_dst_back = 0x00
