-- ===== src/Website/ClientDemo.antt =====
-- apps/website/src/sections/ClientDemo.tsx: the demo that stays in the browser. The random seed of
-- `generateKeyPair` and the memo made of the time and a random suffix are arguments.
pub mod Fair
pub mod Life
use cc_vrf.Common.{
  ℕ, List, [], ◌∷◌, Bytes, Bool, true, false, Option, none, some, take, Result, ok, err, ◌>>=◌,
}
use cc_vrf.Client.Platform.{Platform}
use cc_vrf.Demo.Draw.{roll_value}
use cc_vrf.Demo.Host.{DemoError, from_vrf}
use cc_vrf.Ecvrf.Curve.{Curve}
use cc_vrf.Ecvrf.Encoding.{Error, bytes_to_hex}
use cc_vrf.Ecvrf.Keypair.{generate_key_pair}
use cc_vrf.Ecvrf.Prove.{prove_vrf}
use cc_vrf.Ecvrf.Verify.{verify_vrf, vrf_proof_to_hash}

-- `Roll`
pub record ShownRoll : Type 0 where
  pub pk_hex : List ℕ
  pub alpha_hex : List ℕ
  pub proof_hex : List ℕ
  pub beta_hex : List ℕ
  pub ecvrf_valid : Bool
  pub roll_value : ℕ
  pub memo : List ℕ

-- The variables of the section.
pub record DemoPage : Type 0 where
  pub sk : Bytes
  pub pk : Bytes
  pub memo : List ℕ
  pub latest : Option ShownRoll
  pub history : List ShownRoll
  pub running : Bool

module _ (sol : Platform) (ed : Curve) where
  -- The first rendering.
  unfoldable pub open_page : Bytes → List ℕ → Result Error DemoPage
  open_page seed memo = do
    (sk, pk) ← generate_key_pair ed seed
    ok (record { sk = sk; pk = pk; memo = memo; latest = none; history = []; running = false })

  -- `regenerateKeypair`; where `generateKeyPair` throws, nothing is set.
  unfoldable pub set_keypair : Result Error (Bytes × Bytes) → DemoPage → DemoPage
  set_keypair (ok (sk, pk)) page = record page { sk = sk; pk = pk; latest = none; history = [] }
  set_keypair (err e) page = page

  unfoldable pub regenerate_keypair : Bytes → DemoPage → DemoPage
  regenerate_keypair seed page = set_keypair (generate_key_pair ed seed) page

  -- The roll that `doRoll` makes.
  unfoldable pub next_roll : DemoPage → Result DemoError ShownRoll
  next_roll page = do
    let alpha = sol.sha256 (sol.utf8 page.memo)
    (proof, gamma) ← from_vrf (prove_vrf ed page.sk alpha)
    beta ← from_vrf (vrf_proof_to_hash ed proof)
    valid ← from_vrf (verify_vrf ed page.pk alpha proof)
    value ← roll_value beta
    ok (record {
      pk_hex = bytes_to_hex page.pk;
      alpha_hex = bytes_to_hex alpha;
      proof_hex = bytes_to_hex proof;
      beta_hex = bytes_to_hex beta;
      ecvrf_valid = valid;
      roll_value = value;
      memo = page.memo;
    })

  -- `doRoll`, with its `finally`; where the body throws, no more is set.
  unfoldable pub set_roll : List ℕ → Result DemoError ShownRoll → DemoPage → DemoPage
  set_roll fresh_memo (ok next) page = record page {
    latest = some next;
    history = take 5 (next ∷ page.history);
    memo = fresh_memo;
    running = false;
  }
  set_roll fresh_memo (err e) page = record page { running = false }

  unfoldable pub do_roll : List ℕ → DemoPage → DemoPage
  do_roll fresh_memo page = set_roll fresh_memo (next_roll page) page
