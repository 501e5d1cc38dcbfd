-- ===== src/Client/Addresses.antt =====
-- packages/vrf-client/src/addresses.ts and constants.ts.
pub mod Labels
use cc_vrf.Common.{
  ℕ, ◌+◌, ◌-◌, List, [], ◌∷◌, ◌++◌, Bytes, Bool, not, leb, length, replicate, ◌==◌, Result, ok,
  guard, ◌>>=◌, ◌>>◌,
}
use cc_vrf.Client.Platform.{
  Platform, Text, string, raw, ClientError, bad_label, bad_memo_hash, label_too_long,
}

-- "vrf_authority"
abbrev pub authority_seed : List ℕ
authority_seed =
    b'v' ∷ b'r' ∷ b'f' ∷ b'_' ∷ b'a' ∷ b'u' ∷ b't' ∷ b'h' ∷ b'o' ∷ b'r' ∷ b'i' ∷ b't' ∷ b'y' ∷ []

-- "vrf_proof"
abbrev pub proof_commit_seed : List ℕ
proof_commit_seed = b'v' ∷ b'r' ∷ b'f' ∷ b'_' ∷ b'p' ∷ b'r' ∷ b'o' ∷ b'o' ∷ b'f' ∷ []

abbrev pub proof_commit_with_beta_seed : List ℕ
proof_commit_with_beta_seed = proof_commit_seed

abbrev pub suite_edwards25519_sha512_tai : ℕ
suite_edwards25519_sha512_tai = 0x03

module _ (sol : Platform) where
  unfoldable pub derive_authority_address :
      sol.PublicKey → Bytes → sol.PublicKey → Result ClientError sol.PublicKey
  derive_authority_address owner label program_id = do
    guard (length label == 32) bad_label
    let seed =
        sol.derive_address_seed_v2 (sol.utf8 authority_seed ∷ sol.to_bytes owner ∷ label ∷ [])
    ok (sol.derive_address_v2 seed sol.batch_address_tree program_id)

  unfoldable pub derive_proof_commit_address :
      sol.PublicKey → Bytes → sol.PublicKey → Result ClientError sol.PublicKey
  derive_proof_commit_address authority memo_hash program_id = do
    guard (length memo_hash == 32) bad_memo_hash
    let seed =
        sol.derive_address_seed_v2
          (sol.utf8 proof_commit_seed ∷ sol.to_bytes authority ∷ memo_hash ∷ [])
    ok (sol.derive_address_v2 seed sol.batch_address_tree program_id)

  unfoldable pub derive_proof_commit_with_beta_address :
      sol.PublicKey → Bytes → sol.PublicKey → Result ClientError sol.PublicKey
  derive_proof_commit_with_beta_address authority memo_hash program_id = do
    guard (length memo_hash == 32) bad_memo_hash
    let seed =
        sol.derive_address_seed_v2
          (sol.utf8 proof_commit_with_beta_seed ∷ sol.to_bytes authority ∷ memo_hash ∷ [])
    ok (sol.derive_address_v2 seed sol.batch_address_tree program_id)

  -- `typeof t === "string" ? new TextEncoder().encode(t) : t`
  abbrev pub text_bytes : Text → Bytes
  text_bytes (string s) = sol.utf8 s
  text_bytes (raw b) = b

  unfoldable pub memo_hash : Text → Bytes
  memo_hash memo = sol.sha256 (text_bytes memo)

  unfoldable pub alpha_hash : Bytes → Bytes
  alpha_hash alpha = sol.sha256 alpha

  unfoldable pub proof_hash : Bytes → Bytes
  proof_hash proof = sol.sha256 proof

  -- `padded.set(bytes, 0)` on 32 zeros
  unfoldable pub encode_label : List ℕ → Result ClientError Bytes
  encode_label label = do
    let bytes = sol.utf8 label
    guard (leb (length bytes) 32) label_too_long
    ok (bytes ++ replicate (32 - length bytes) 0)

  -- `typeof label === "string" ? encodeLabel(label) : label`
  unfoldable pub label_bytes : Text → Result ClientError Bytes
  unfolding encode_label
  label_bytes (string label) = encode_label label
  label_bytes (raw label) = ok label
