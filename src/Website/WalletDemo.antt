-- ===== src/Website/WalletDemo.antt =====
-- apps/website/src/sections/WalletDemo.tsx: the demo with a wallet. The wallet, the cluster, the
-- clock and the random source are those of the demo's host; `owner` is the key of the wallet, none
-- while no wallet is connected.
pub mod Check
pub mod Sound
use cc_vrf.Common.{
  ℕ, List, [], ◌∷◌, ◌++◌, take, Bytes, Bool, true, false, Option, none, some, Result, ok, err,
}
use cc_vrf.Client.Addresses.{suite_edwards25519_sha512_tai}
use cc_vrf.Client.Operations.{
  build_init_authority_ix, build_freeze_authority_ix, build_commit_proof_ix,
}
use cc_vrf.Client.Platform.{Platform, string}
use cc_vrf.Demo.Commands.{Command, lift, build_and_send, alone}
use cc_vrf.Demo.Draw.{commit_input, make_draw}
use cc_vrf.Demo.Host.{DemoError, Host, bind, ◌>>=◌, return, reading, drawing}
use cc_vrf.Ecvrf.Curve.{Curve}
use cc_vrf.Ecvrf.Encoding.{Error}
use cc_vrf.Ecvrf.Keypair.{generate_key_pair}
use Check.{read_and_check}

-- `RecordedRoll`
pub record WalletRoll : Type 0 where
  pub memo : List ℕ
  pub roll_value : ℕ
  pub tx_sig : List ℕ
  pub commit_addr : List ℕ
  pub verify_valid : Bool

-- The variables of the section; `busy` holds while a text says what runs.
pub record WalletPage : Type 0 where
  pub sk : Bytes
  pub pk : Bytes
  pub label : List ℕ
  pub authority_exists : Option Bool
  pub busy : Bool
  pub error : Option DemoError
  pub rolls : List WalletRoll

-- "[init+freeze] authority ready at ", and the ellipsis behind the address
abbrev pub ready_at : List ℕ
ready_at =
    b'[' ∷ b'i' ∷ b'n' ∷ b'i' ∷ b't' ∷ b'+' ∷ b'f' ∷ b'r' ∷ b'e' ∷ b'e' ∷ b'z' ∷ b'e' ∷ b']' ∷ b' '
    ∷ b'a' ∷ b'u' ∷ b't' ∷ b'h' ∷ b'o' ∷ b'r' ∷ b'i' ∷ b't' ∷ b'y' ∷ b' ' ∷ b'r' ∷ b'e' ∷ b'a'
    ∷ b'd' ∷ b'y' ∷ b' ' ∷ b'a' ∷ b't' ∷ b' ' ∷ []

abbrev pub web : List ℕ
web = b'w' ∷ b'e' ∷ b'b' ∷ b'-' ∷ []

-- `freezeSig || sig`
abbrev pub or_else : List ℕ → List ℕ → List ℕ
or_else [] sig = sig
or_else (c ∷ cs) sig = c ∷ cs

module _ (sol : Platform) (ed : Curve) (h : Host sol) where
  -- The `try` block of `initAuthority`, up to the states that it sets.
  unfoldable pub init_and_freeze : sol.PublicKey → Bytes → List ℕ → Command sol ed h WalletRoll
  init_and_freeze owner pk label = do
    (sig, authority_address) ← build_and_send sol ed h (λ w.
        build_init_authority_ix sol (h.rpc w) h.program (record {
          owner = owner;
          pk = pk;
          suite = suite_edwards25519_sha512_tai;
          label = string label;
        }))
    (freeze_sig, u) ← build_and_send sol ed h (λ w. alone sol ed h (
        build_freeze_authority_ix sol (h.rpc w) h.program
          (record { owner = owner; label = string label })))
    return (record {
      memo = ready_at ++ take 8 (h.to_base58 authority_address) ++ 0x2026 ∷ [];
      roll_value = 0;
      tx_sig = or_else freeze_sig sig;
      commit_addr = h.to_base58 authority_address;
      verify_valid = true;
    })

  -- The same of `rollOnce`.
  unfoldable pub roll_and_check : sol.PublicKey → Bytes → List ℕ → Command sol ed h WalletRoll
  roll_and_check owner sk label = do
    memo ← drawing (h.fresh_memo web)
    d ← lift sol ed h (make_draw sol ed sk memo)
    (sig, commit_address) ←
        build_and_send sol ed h
          (λ w. build_commit_proof_ix sol (h.rpc w) h.program ed (commit_input sol owner label d))
    valid ← reading (λ w. read_and_check sol ed (h.rpc w) h.program owner label d)
    return (record {
      memo = memo;
      roll_value = d.value;
      tx_sig = sig;
      commit_addr = h.to_base58 commit_address;
      verify_valid = valid;
    })

  unfoldable pub set_ready : Result DemoError WalletRoll → WalletPage → WalletPage
  set_ready (ok r) page = record page {
    authority_exists = some true;
    busy = false;
    error = none;
    rolls = r ∷ page.rolls;
  }
  set_ready (err e) page = record page { busy = false; error = some e }

  unfoldable pub init_authority : Option sol.PublicKey → WalletPage → h.World → WalletPage × h.World
  init_authority none page w = (page, w)
  init_authority (some owner) page w =
      let (answer, w') = init_and_freeze owner page.pk page.label w in (set_ready answer page, w')

  unfoldable pub set_rolled : Result DemoError WalletRoll → WalletPage → WalletPage
  set_rolled (ok r) page = record page { busy = false; error = none; rolls = r ∷ page.rolls }
  set_rolled (err e) page = record page { busy = false; error = some e }

  unfoldable pub roll_once : Option sol.PublicKey → WalletPage → h.World → WalletPage × h.World
  roll_once none page w = (page, w)
  roll_once (some owner) page w =
      let (answer, w') = roll_and_check owner page.sk page.label w in (set_rolled answer page, w')

  -- `regenerateKeypair`, with the label made of a random suffix; where `generateKeyPair` throws,
  -- nothing is set.
  unfoldable pub set_new_keypair : Result Error (Bytes × Bytes) → List ℕ → WalletPage → WalletPage
  set_new_keypair (ok (sk, pk)) fresh_label page = record page {
    sk = sk;
    pk = pk;
    label = fresh_label;
    authority_exists = none;
    rolls = [];
  }
  set_new_keypair (err e) fresh_label page = page

  unfoldable pub new_keypair : Bytes → List ℕ → WalletPage → WalletPage
  new_keypair seed fresh_label page = set_new_keypair (generate_key_pair ed seed) fresh_label page
