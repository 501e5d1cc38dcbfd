-- ===== src/Website/WalletDemo/Check.antt =====
-- apps/website/src/sections/WalletDemo.tsx: how `rollOnce` checks the commit that it reads back.
use cc_vrf.Common.{ℕ, List, Bytes, Bool, false, Option, none, some, Result, ok, ◌>>=◌}
use cc_vrf.Client.Addresses.{encode_label}
use cc_vrf.Client.Light.{Rpc}
use cc_vrf.Client.Operations.{
  Program, FetchedAuthority, FetchedCommit, fetch_authority, fetch_proof_commit,
}
use cc_vrf.Client.Platform.{Platform, string}
use cc_vrf.Client.Verify.{VerifyAuthorityCommitEndToEndInput, verify_authority_commit_end_to_end}
use cc_vrf.Demo.Draw.{Draw}
use cc_vrf.Demo.Host.{DemoError, from_client}
use cc_vrf.Ecvrf.Curve.{Curve}

module _ (sol : Platform) (ed : Curve) (rpc : Rpc sol) (program : Program sol) where
  abbrev pub wallet_input :
      sol.PublicKey
      → Bytes
      → Draw
      → FetchedAuthority sol
      → FetchedCommit sol
      → VerifyAuthorityCommitEndToEndInput sol
  wallet_input owner label_bytes d auth commit = record {
    alpha = d.alpha;
    proof = d.proof;
    on_chain_commit = commit.on_chain_commit;
    memo = string d.memo;
    authority = auth.on_chain_authority;
    expected_owner = some owner;
    expected_label = some label_bytes;
    expected_authority_address = some auth.authority_address;
    program_id = none;
    on_chain_beta = none;
  }

  unfoldable pub check_commit :
      sol.PublicKey
      → List ℕ
      → Draw
      → FetchedAuthority sol
      → FetchedCommit sol
      → Result DemoError Bool
  check_commit owner label d auth commit = do
    label_bytes ← from_client (encode_label sol label)
    result ←
        from_client
          (verify_authority_commit_end_to_end sol ed (wallet_input owner label_bytes d auth commit))
    ok result.valid

  -- `commit ? verifyAuthorityCommitEndToEnd(..) : null`, and `!!result?.valid`
  unfoldable pub check_found :
      sol.PublicKey
      → List ℕ
      → Draw
      → FetchedAuthority sol
      → Option (FetchedCommit sol)
      → Result DemoError Bool
  check_found owner label d auth none = ok false
  check_found owner label d auth (some commit) = check_commit owner label d auth commit

  -- `auth ? await fetchProofCommit(..) : null`, and what follows
  unfoldable pub check_fetched :
      sol.PublicKey → List ℕ → Draw → Option (FetchedAuthority sol) → Result DemoError Bool
  check_fetched owner label d none = ok false
  check_fetched owner label d (some auth) = do
    found ← from_client (fetch_proof_commit sol rpc program auth.authority_address (string d.memo))
    check_found owner label d auth found

  unfoldable pub read_and_check : sol.PublicKey → List ℕ → Draw → Result DemoError Bool
  read_and_check owner label d = do
    fetched ← from_client (fetch_authority sol rpc program owner (string label))
    check_fetched owner label d fetched
