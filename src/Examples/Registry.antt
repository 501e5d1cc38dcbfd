-- ===== src/Examples/Registry.antt =====
-- The theorems on the on-chain program, on the life of an authority.
use cc_vrf.Common.{ℕ, ◌≡◌, refl, List, [], Bytes, All, true, none, some, Result, ok, err}
use cc_vrf.Client.Operations.{DecodedAuthority}
use cc_vrf.Client.Operations.Agreement.{row_check}
use cc_vrf.Client.Verify.{VerifyAuthorityCommitEndToEndResult, verify_authority_commit_end_to_end}
use cc_vrf.Examples.Ledger.{sdk, is_light, Rows, submit_toy, accepts}
use cc_vrf.Examples.Network.{
  sol, is_platform, decoded, rpc, program, input, auth, found, honest, built,
}
use cc_vrf.Examples.Proofs.{proof-IsByte}
use cc_vrf.Examples.Scenario.{
  ctx, info, mh, ph, ah, young, old, chain_of, empty_rows, young_rows, frozen_rows, committed_rows,
  revoked_rows, committed_row, commit_call, freezes, commits_once, revokes, committed-Reach,
  revoked-Reach,
}
use cc_vrf.Examples.Toy.{toy, toy_noble, toy_edwards}
use cc_vrf.Program.{Chain, dispatch, freeze_authority, commit_proof, commit_address}
use cc_vrf.Program.Delivery.{commit_proof-verifies, stored_commit}
use cc_vrf.Program.Light.{
  LightAccount, IsAccepted, write_accounts, vrf_authority, vrf_proof_commit, Row, VrfError, light,
}
use cc_vrf.Program.Registry.{Reach, here, next, called}
use cc_vrf.Program.Registry.Guards.{dispatch-CanCommit, revoked_refused, commit_once}
use cc_vrf.Program.Registry.Permanence.{Evolves, Reach-authority}
use cc_vrf.Program.Registry.Progress.{IsAvailable, freeze_then_commit}
use cc_vrf.Program.Registry.Soundness.{IsEmpty, IsSound, Reach-IsSound}
use cc_vrf.Program.Transition.{Transition, CanCommit, row_at, commit_place, commit_key}
use cc_vrf.Program.Transition.Handlers.{dispatch-Transition}

dispatch-Transition_example : Transition sol sdk 1 (chain_of frozen_rows) (chain_of committed_rows)
dispatch-Transition_example =
    dispatch-Transition sol sdk is_platform is_light (chain_of frozen_rows) ctx commit_call
      commits_once

young-Reach : Reach sol sdk (chain_of young_rows) (chain_of revoked_rows)
young-Reach =
    next (next (next here (called ctx _ freezes)) (called ctx _ commits_once))
      (called ctx _ revokes)

Reach-authority_example :
    (new : DecodedAuthority sol) × (row_at sol sdk (chain_of revoked_rows) 100
      ≡ some (vrf_authority new))
    × Evolves young new
Reach-authority_example = Reach-authority sol sdk is_platform is_light 100 young refl young-Reach

empty : IsEmpty sol sdk (chain_of empty_rows)
empty = record { no_rows = λ x. refl; no_events = refl }

Reach-IsSound_example : IsSound sol sdk (chain_of committed_rows)
Reach-IsSound_example = Reach-IsSound sol sdk is_platform is_light empty committed-Reach

dispatch-CanCommit_example :
    (r : DecodedAuthority sol) × (row_at sol sdk (chain_of frozen_rows) 100
      ≡ some (vrf_authority r))
    × CanCommit sol sdk 1 r
dispatch-CanCommit_example =
    dispatch-CanCommit sol sdk is_platform is_light (chain_of frozen_rows) ctx commit_call 100 refl
      commits_once

revoked_refused_example :
    ¬ (dispatch sol sdk (chain_of revoked_rows) ctx commit_call ≡ ok (chain_of committed_rows))
revoked_refused_example =
    revoked_refused sol sdk is_platform is_light (chain_of revoked_rows) (chain_of revoked_rows) ctx
      commit_call 100 old refl refl here refl

commit_once_example :
    (row : Row sol) × (commit_key sol row ≡ some (100, mh))
    × (row_at sol sdk (chain_of frozen_rows) (commit_place sol sdk 100 mh) ≡ none)
    × (row_at sol sdk (chain_of committed_rows) (commit_place sol sdk 100 mh) ≡ some row)
    × (row_at sol sdk (chain_of revoked_rows) (commit_place sol sdk 100 mh) ≡ some row)
    × ((e : Chain sol sdk) → ¬ (dispatch sol sdk (chain_of revoked_rows) ctx commit_call ≡ ok e))
commit_once_example =
    commit_once sol sdk is_platform is_light (chain_of frozen_rows) (chain_of committed_rows)
      (chain_of revoked_rows) ctx ctx commit_call commit_call 100 mh refl commits_once revoked-Reach
      refl

submit_toy-accepted :
    (t : Rows) (hs : List (LightAccount sol))
    → All (IsAccepted sol t) hs
    → submit_toy t hs ≡ ok (write_accounts sol hs t)
unfolding submit_toy
submit_toy-accepted t hs h = decided (accepts t hs)
  where
    decided :
        (d : Dec (All (IsAccepted sol t) hs))
        → Path
            (Result VrfError Rows)
            (elim d [ yes a ↦ ok (write_accounts sol hs t) | no n ↦ err (light 6001) ])
            (ok (write_accounts sol hs t))
    decided (yes a) = refl
    decided (no n) = absurd (n h)

available : IsAvailable sol sdk ctx info
available = record {
  slot = 8;
  clock = refl;
  keys = [];
  tree_pubkeys = refl;
  address_tree = refl;
  opens = λ a r. refl;
  reads = λ a r. refl;
  updates = λ t a old_row new_row e. ([], _, submit_toy-accepted t _ (e, tt));
  creates = λ t a old_row row seeds e free. ([], _, submit_toy-accepted t _ (e, (free, tt)));
}

freeze_then_commit_example :
    (proof proof' : Bytes) × (c' d : Chain sol sdk) × (dispatch sol sdk
        (chain_of young_rows)
        ctx
        (freeze_authority proof young 100)
      ≡ ok c')
    × (dispatch sol sdk c' ctx (commit_proof proof' 100 decoded info 3 mh ph ah) ≡ ok d)
    × (row_at sol sdk d (commit_place sol sdk 100 mh) ≡ some committed_row)
unfolding available
freeze_then_commit_example =
    freeze_then_commit sol sdk is_platform is_light (chain_of young_rows) ctx info 3 100 young mh ph
      ah available refl refl refl refl (unfold commit_address in refl)

commit_proof-verifies_example :
    (slot : ℕ) × (r : VerifyAuthorityCommitEndToEndResult) × (row_at sol sdk
        (chain_of frozen_rows)
        96
      ≡ none)
    × (row_at sol sdk (chain_of revoked_rows) 96
        ≡ some (vrf_proof_commit (stored_commit sol auth input slot)))
    × (verify_authority_commit_end_to_end sol toy (row_check sol rpc program toy auth input slot)
        ≡ ok r)
    × (r.valid ≡ true)
    × (r.reasons ≡ [])
commit_proof-verifies_example =
    commit_proof-verifies sol sdk is_platform is_light rpc program toy (λ s h. refl) toy_noble
      toy_edwards input auth (chain_of frozen_rows) (chain_of committed_rows)
      (chain_of revoked_rows) ctx refl proof-IsByte honest found built commits_once revoked-Reach
