-- ===== src/Examples/Network.antt =====
-- A toy platform with one authority, and a commit under it.
use cc_vrf.Common.{
  ℕ, ◌≡◌, refl, sym, ap, true, false, none, some, Bytes, List, [], ◌∷◌, ◌++◌, length, replicate,
  ◌+◌, ◌%◌, length-replicate, Result, ok, err, ◌==◌, ==_iff,
}
use cc_vrf.Client.Platform.{Platform, IsPlatform, raw, string, ClientError, authority_not_found}
use cc_vrf.Client.Addresses.{
  derive_authority_address, derive_proof_commit_address, label_bytes, memo_hash, proof_hash,
  alpha_hash,
}
use cc_vrf.Client.Verify.{
  VerifyEndToEndInput, VerifyEndToEndResult, VerifyAuthorityCommitEndToEndInput,
  VerifyAuthorityCommitEndToEndResult, verify_end_to_end, verify_authority_commit_end_to_end,
}
use cc_vrf.Client.Verify.Checks.{HashesMatch, Checked, verify_end_to_end_accepts}
use cc_vrf.Client.Verify.Authority.{base_input, authority_made}
use cc_vrf.Client.Light.{Rpc, CompressedAccount, build_commit_proof_context}
use cc_vrf.Client.Operations.{
  Program, Instruction, commit_proof, CommitProofInput, FetchedAuthority, DecodedAuthority,
  fetch_authority, authority_of_account, authority_row, assert_authority_can_commit,
  assert_proof_matches_authority, build_commit_proof_ix,
}
use cc_vrf.Client.Operations.Agreement.{row_check, IsHonest}
use cc_vrf.Examples.Toy.{toy, toy_noble, toy_edwards}
use cc_vrf.Examples.Proofs.{proof, proof-IsByte, pk, alpha, verified}

abbrev join : List Bytes → Bytes
join [] = []
join (part ∷ parts) = part ++ join parts

abbrev pub sol : Platform
sol = record {
  PublicKey = ℕ;
  equals = λ a b. a == b;
  to_bytes = λ a. a ∷ [];
  derive_address_seed_v2 = join;
  derive_address_v2 = λ seed tree program. 54 + length seed;
  batch_address_tree = 50;
  cc_vrf_program_id = 9;
  sha256 = λ m. replicate 32 (length m % 256);
  utf8 = λ s. s;
}

pub is_platform : IsPlatform sol
is_platform = record {
  equals_iff = λ a b. ==_iff a b;
  length-sha256 = λ m. length-replicate {A = ℕ} 32 (length m % 256);
}

abbrev pub label : Bytes
label = replicate 32 5

abbrev pub account : CompressedAccount sol
account = record {
  hash = [];
  tree = 51;
  queue = 52;
  leaf_index = 3;
  address = none;
  account_data = [];
}

abbrev pub rpc : Rpc sol
rpc = record {
  get_compressed_account = λ a. ok (some account);
  get_validity_proof_v0 = λ inputs addresses.
      ok (record { compressed_proof = []; root_indices = 4 ∷ []; prove_by_indices = true ∷ [] });
  state_tree_queue = ok 53;
  PackedAccounts = List ℕ;
  AccountMeta = ℕ;
  new_with_system_accounts_v2 = λ p. [];
  insert_or_get = λ k p. (length p, p ++ k ∷ []);
  to_account_metas = λ p. p;
}

abbrev pub decoded : DecodedAuthority sol
decoded = record {
  owner = 1;
  pk = pk;
  suite = 3;
  frozen = true;
  revoked = false;
  label = label;
  created_slot = 8;
}

abbrev pub program : Program sol
program = record {
  program_id = 9;
  decode_authority = λ bytes. ok decoded;
  decode_proof_commit = λ bytes. err authority_not_found;
  decode_proof_commit_with_beta = λ bytes. err authority_not_found;
}

abbrev pub input : CommitProofInput sol
input = record {
  owner = 1;
  label = raw label;
  memo = string (b'm' ∷ []);
  alpha = alpha;
  proof = proof;
}

abbrev pub auth : FetchedAuthority sol
auth = record {
  authority_address = 100;
  account = account;
  decoded = decoded;
  on_chain_authority = authority_row sol 100 decoded;
}

pub found : fetch_authority sol rpc program 1 (raw label) ≡ ok (some auth)
unfolding fetch_authority authority_of_account label_bytes derive_authority_address
found = refl

pub honest : IsHonest sol rpc program toy input
honest a e = (sym (ap owner_of same), is_label)
  where
    same : decoded ≡ a.decoded
    same = cc (found, e)

    owner_of : DecodedAuthority sol → ℕ
    owner_of d = d.owner

    label_of : DecodedAuthority sol → Result ClientError Bytes
    label_of d = ok d.label

    is_label : label_bytes sol (raw label) ≡ ok a.decoded.label
    is_label = unfold label_bytes in ap label_of same

-- The tree's and the queue's keys, the address tree's and the output queue's have the indices 0 to 3.
abbrev pub ix : Instruction sol rpc
ix = record {
  method =
      commit_proof []
        (record {
          tree_info = record {
            root_index = some 4;
            prove_by_index = some true;
            merkle_tree_pubkey_index = 0;
            queue_pubkey_index = 1;
            leaf_index = 3;
          };
          address = none;
        })
        decoded
        (record {
          root_index = some 4;
          address_merkle_tree_pubkey_index = 2;
          address_queue_pubkey_index = 2;
        })
        3 (replicate 32 1) (replicate 32 80) (replicate 32 2);
  owner = 1;
  remaining_accounts = 51 ∷ 52 ∷ 50 ∷ 53 ∷ [];
}

pub commits : assert_authority_can_commit sol (some auth) ≡ ok auth
unfolding assert_authority_can_commit
commits = refl

pub matches : assert_proof_matches_authority sol rpc program toy auth input ≡ ok tt
unfolding assert_proof_matches_authority
matches = rw verified refl

pub built : build_commit_proof_ix sol rpc program toy input ≡ ok (ix, 96)
unfolding build_commit_proof_ix build_commit_proof_context derive_proof_commit_address memo_hash
    proof_hash alpha_hash
built = rw (found, commits, matches) refl

abbrev pub check : VerifyAuthorityCommitEndToEndInput sol
check = row_check sol rpc program toy auth input 77

abbrev pub base_check : VerifyEndToEndInput sol
base_check = base_input sol toy check

pub checked : Checked sol toy base_check
checked = (refl, verified, hashes)
  where
    hashes : HashesMatch sol toy base_check
    hashes = unfold memo_hash proof_hash alpha_hash in (refl, refl, refl)

pub accepted : (r : VerifyEndToEndResult) × (verify_end_to_end sol toy base_check ≡ ok r)
accepted =
    let (r, gamma, e, valid, reasons, decodes, beta) =
      verify_end_to_end_accepts sol toy toy_noble toy_edwards base_check proof-IsByte checked in
    (r, e)

pub bound :
    (r : VerifyAuthorityCommitEndToEndResult) × (verify_authority_commit_end_to_end sol toy check
      ≡ ok r)
bound = authority_returns accepted.0 accepted.1
  where
    authority_returns :
        (base : VerifyEndToEndResult)
        → verify_end_to_end sol toy base_check ≡ ok base
        → (r : VerifyAuthorityCommitEndToEndResult) × (verify_authority_commit_end_to_end sol toy
              check
            ≡ ok r)
    authority_returns base e = (
      _,
      authority_made sol toy check {base = base} {derived = 100} e
          (unfold derive_authority_address in refl),
    )
