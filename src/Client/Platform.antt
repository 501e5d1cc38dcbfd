-- ===== src/Client/Platform.antt =====
-- What packages/vrf-client takes from @solana/web3.js, @lightprotocol/stateless.js and @noble/hashes,
-- and the errors that its functions throw.
use cc_vrf.Common.{ℕ, ◌≡◌, ◌↔◌, Bool, true, List, Bytes, length, Result, ok, err}
use cc_vrf.Ecvrf.Encoding.{Error}

pub record Platform : Type 1 where
  pub PublicKey : Type 0
  pub equals : PublicKey → PublicKey → Bool
  pub to_bytes : PublicKey → Bytes
  pub derive_address_seed_v2 : List Bytes → Bytes
  pub derive_address_v2 : Bytes → PublicKey → PublicKey → PublicKey
  pub batch_address_tree : PublicKey
  pub cc_vrf_program_id : PublicKey  -- the key that constants.ts writes in base 58
  pub sha256 : Bytes → Bytes
  pub utf8 : List ℕ → Bytes  -- TextEncoder.encode of a string's code units

-- Documented behaviour: `equals` compares keys, and SHA-256 returns 32 bytes.
pub record IsPlatform (sol : Platform) : Type 0 where
  pub equals_iff : (a b : sol.PublicKey) → (sol.equals a b ≡ true) ↔ (a ≡ b)
  pub length-sha256 : (m : Bytes) → length (sol.sha256 m) ≡ 32

-- `string | Uint8Array`
pub data Text : Type 0 where
  string : List ℕ → Text
  raw : Bytes → Text

-- `ecvrf` passes on what the VRF functions throw.
pub data ClientError : Type 0 where
  bad_label bad_memo_hash label_too_long bad_pk bad_suite label_not_32 bad_proof bad_beta :
      ClientError
  authority_not_found suite_not_supported not_frozen is_revoked proof_mismatch beta_mismatch :
      ClientError
  ecvrf : Error → ClientError
  rpc_failed : ClientError

abbrev pub from_ecvrf {ℓ} : {A : Type ℓ} → Result Error A → Result ClientError A
from_ecvrf (ok a) = ok a
from_ecvrf (err e) = err (ecvrf e)

pub from_ecvrf-eq-ok {ℓ} :
    {A : Type ℓ} (r : Result Error A) {a : A} → from_ecvrf r ≡ ok a → r ≡ ok a
from_ecvrf-eq-ok (ok b) e = cc
from_ecvrf-eq-ok (err x) e = cc
