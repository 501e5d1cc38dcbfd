-- ===== src/Examples/Scenario.antt =====
-- A life of an authority on the toy state tree: created, frozen, used for a commit and revoked.
use cc_vrf.Common.{◌≡◌, refl, [], ◌∷◌, Bytes, replicate, true, false, none, some, ok}
use cc_vrf.Client.Light.{PackedAddressTreeInfo}
use cc_vrf.Client.Operations.{DecodedAuthority}
use cc_vrf.Examples.Ledger.{sdk, Rows, submit_toy, accepts, accepts_one, Row-discrete, key_discrete}
use cc_vrf.Examples.Network.{sol, decoded, label}
use cc_vrf.Examples.Proofs.{pk}
use cc_vrf.Program.{
  Call, Chain, Context, dispatch, init_authority, freeze_authority, revoke_authority, commit_proof,
  init_authority_handler, freeze_authority_handler, revoke_authority_handler, commit_proof_handler,
  commit_row_handler, commit_proof_row, submit, require_committer, check_address_tree,
  commit_address,
}
use cc_vrf.Program.Light.{Row, vrf_authority, created, replaced, read_only, write_accounts}
use cc_vrf.Program.Registry.{Reach, here, next, called}
use native.Mathlib.Decide.{ℕ_discrete}

abbrev pub ctx : Context sol sdk
ctx = record { owner = 1; remaining_accounts = tt; clock = ok 8 }

abbrev pub info : PackedAddressTreeInfo sol
info = record {
  root_index = some 4;
  address_merkle_tree_pubkey_index = 2;
  address_queue_pubkey_index = 2;
}

abbrev pub mh : Bytes
mh = replicate 32 1

abbrev pub ph : Bytes
ph = replicate 32 80

abbrev pub ah : Bytes
ah = replicate 32 2

-- The record as it is created; frozen, it is the one of the toy network.
abbrev pub young : DecodedAuthority sol
young = record decoded { frozen = false }

abbrev pub old : DecodedAuthority sol
old = record decoded { revoked = true }

abbrev pub chain_of : Rows → Chain sol sdk
chain_of rows = record { tree = rows; events = [] }

abbrev pub empty_rows : Rows
empty_rows a = none

abbrev pub young_rows : Rows
young_rows = write_accounts sol (created 100 (vrf_authority young) ∷ []) empty_rows

abbrev pub frozen_rows : Rows
frozen_rows =
    write_accounts sol (replaced 100 (vrf_authority young) (vrf_authority decoded) ∷ []) young_rows

abbrev pub committed_row : Row sol
committed_row = commit_proof_row sol sdk 100 mh ph ah 8

abbrev pub committed_rows : Rows
committed_rows =
    write_accounts sol (read_only 100 (vrf_authority decoded) ∷ created 96 committed_row ∷ [])
      frozen_rows

abbrev pub revoked_rows : Rows
revoked_rows =
    write_accounts sol (replaced 100 (vrf_authority decoded) (vrf_authority old) ∷ [])
      committed_rows

abbrev pub commit_call : Call sol
commit_call = commit_proof [] 100 decoded info 3 mh ph ah

pub initialises :
    dispatch sol sdk (chain_of empty_rows) ctx (init_authority [] info 3 pk 3 label)
    ≡ ok (chain_of young_rows)
unfolding dispatch init_authority_handler check_address_tree submit submit_toy accepts accepts_one
    Row-discrete key_discrete ℕ_discrete
initialises = refl

pub freezes :
    dispatch sol sdk (chain_of young_rows) ctx (freeze_authority [] young 100)
    ≡ ok (chain_of frozen_rows)
unfolding dispatch freeze_authority_handler submit submit_toy accepts accepts_one Row-discrete
    key_discrete ℕ_discrete
freezes = refl

pub commits_once :
    dispatch sol sdk (chain_of frozen_rows) ctx commit_call ≡ ok (chain_of committed_rows)
unfolding dispatch commit_proof_handler commit_row_handler require_committer check_address_tree
    commit_address submit submit_toy accepts accepts_one Row-discrete key_discrete ℕ_discrete
commits_once = refl

pub revokes :
    dispatch sol sdk (chain_of committed_rows) ctx (revoke_authority [] decoded 100)
    ≡ ok (chain_of revoked_rows)
unfolding dispatch revoke_authority_handler submit submit_toy accepts accepts_one Row-discrete
    key_discrete ℕ_discrete
revokes = refl

pub committed-Reach : Reach sol sdk (chain_of empty_rows) (chain_of committed_rows)
committed-Reach =
    next (next (next here (called ctx _ initialises)) (called ctx _ freezes))
      (called ctx _ commits_once)

pub revoked-Reach : Reach sol sdk (chain_of committed_rows) (chain_of revoked_rows)
revoked-Reach = next here (called ctx _ revokes)
