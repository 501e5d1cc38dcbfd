-- ===== src/Demo/Host.antt =====
-- apps/dice-demo/src/state.ts, and what the demo takes from the process that it runs in. A command
-- changes the world, also where it throws.
use cc_vrf.Common.{
  ℕ, List, [], ◌∷◌, Bytes, Bool, Option, none, some, Result, ok, err, if◌then◌else◌,
}
use cc_vrf.Client.Events.{Connection}
use cc_vrf.Client.Light.{Rpc}
use cc_vrf.Client.Operations.{Program, Instruction}
use cc_vrf.Client.Platform.{Platform, ClientError}
use cc_vrf.Ecvrf.Encoding.{Error}

-- `exited` is `process.exit(1)`, which no `catch` sees; `host` is what the process or the cluster throws.
pub data DemoError : Type 0 where
  already_initialised not_initialised no_memo unknown_memo : DemoError
  authority_missing commit_missing no_events bad_count bad_price : DemoError
  bad_hex_number : DemoError
  exited : DemoError
  client : ClientError → DemoError
  ecvrf : Error → DemoError
  host : ℕ → DemoError

pub data Mode : Type 0 where
  pda pda_beta event : Mode

-- An element of `rolls`.
pub record Roll : Type 0 where
  pub memo : List ℕ
  pub alpha : List ℕ
  pub proof : List ℕ
  pub beta : List ℕ
  pub roll_value : ℕ
  pub commit_address_base58 : List ℕ
  pub committed_at_iso : List ℕ
  pub mode : Option Mode
  pub tx_signature : Option (List ℕ)

pub record DemoState : Type 0 where
  pub vrf_sk : Option (List ℕ)
  pub vrf_pk : Option (List ℕ)
  pub label : List ℕ
  pub program_id_base58 : Option (List ℕ)
  pub owner_pubkey_base58 : Option (List ℕ)
  pub rolls : List Roll

-- The parsed file: its label may be missing, and its rolls may be no array.
pub record ParsedState : Type 0 where
  pub vrf_sk : Option (List ℕ)
  pub vrf_pk : Option (List ℕ)
  pub label : Option (List ℕ)
  pub program_id_base58 : Option (List ℕ)
  pub owner_pubkey_base58 : Option (List ℕ)
  pub rolls : Option (List Roll)

-- The process, the files and the cluster. `read_state` is `JSON.parse` of the file, and none where
-- either throws; a memo of the demo's own is made of a prefix, the time and a random text.
pub record Host (sol : Platform) : Type 1 where
  pub World : Type 0
  pub read_state : World → Option ParsedState
  pub write_state : DemoState → World → Result DemoError (Unit {0}) × World
  pub load_payer : World → Result DemoError sol.PublicKey
  pub program : Program sol
  pub rpc : World → Rpc sol
  pub connection : World → Connection sol
  pub send_and_confirm : (w : World) → Instruction sol (rpc w) → Result DemoError (List ℕ) × World
  pub get_balance : World → sol.PublicKey → Result DemoError ℕ
  pub to_base58 : sol.PublicKey → List ℕ
  pub random_seed : World → Bytes × World
  pub fresh_memo : List ℕ → World → List ℕ × World
  pub numbered_memo : List ℕ → ℕ → World → List ℕ × World
  pub iso_time : World → List ℕ × World

module _ {W : Type 0} where
  abbrev pub bind {ℓ κ} :
      {A : Type ℓ} {B : Type κ}
      → Result DemoError A × W
      → (A → W → Result DemoError B × W)
      → Result DemoError B × W
  bind (ok a, w) next = next a w
  bind (err e, w) next = (err e, w)

  infixl 5 ◌>>=◌ ◌>>◌
  abbrev pub ◌>>=◌ {ℓ κ} :
      {A : Type ℓ} {B : Type κ}
      → (W → Result DemoError A × W)
      → (A → W → Result DemoError B × W)
      → W
      → Result DemoError B × W
  ◌>>=◌ command next w = bind (command w) next

  abbrev pub ◌>>◌ {ℓ} :
      {B : Type ℓ}
      → (W → Result DemoError (Unit {0}) × W)
      → (W → Result DemoError B × W)
      → W
      → Result DemoError B × W
  ◌>>◌ command next = command >>= λ u. next

  abbrev pub return {ℓ} : {A : Type ℓ} → A → W → Result DemoError A × W
  return a w = (ok a, w)

  abbrev pub throw {ℓ} : {A : Type ℓ} → DemoError → W → Result DemoError A × W
  throw e w = (err e, w)

  -- `if (!test) throw e`
  abbrev pub require : Bool → DemoError → W → Result DemoError (Unit {0}) × W
  require test e w = if test then (ok tt, w) else (err e, w)

  -- A computation that reads the world.
  abbrev pub reading {ℓ} : {A : Type ℓ} → (W → Result DemoError A) → W → Result DemoError A × W
  reading f w = (f w, w)

  abbrev pub drawing {ℓ} : {A : Type ℓ} → (W → A × W) → W → Result DemoError A × W
  drawing f w = (ok (f w).0, (f w).1)

abbrev pub from_client {ℓ} : {A : Type ℓ} → Result ClientError A → Result DemoError A
from_client (ok a) = ok a
from_client (err e) = err (client e)

abbrev pub from_vrf {ℓ} : {A : Type ℓ} → Result Error A → Result DemoError A
from_vrf (ok a) = ok a
from_vrf (err e) = err (ecvrf e)

-- A string that is missing or empty counts as none.
abbrev pub given : Option (List ℕ) → Option (List ℕ)
given none = none
given (some []) = none
given (some (c ∷ cs)) = some (c ∷ cs)

-- "dice-demo"
abbrev pub default_label : List ℕ
default_label = b'd' ∷ b'i' ∷ b'c' ∷ b'e' ∷ b'-' ∷ b'd' ∷ b'e' ∷ b'm' ∷ b'o' ∷ []

abbrev pub label_or_default : Option (List ℕ) → List ℕ
label_or_default none = default_label
label_or_default (some label) = label

abbrev rolls_or_empty : Option (List Roll) → List Roll
rolls_or_empty none = []
rolls_or_empty (some rolls) = rolls

unfoldable pub restore : Option ParsedState → DemoState
restore none = record {
  vrf_sk = none;
  vrf_pk = none;
  label = default_label;
  program_id_base58 = none;
  owner_pubkey_base58 = none;
  rolls = [];
}
restore (some parsed) = record {
  vrf_sk = parsed.vrf_sk;
  vrf_pk = parsed.vrf_pk;
  label = label_or_default (given parsed.label);
  program_id_base58 = parsed.program_id_base58;
  owner_pubkey_base58 = parsed.owner_pubkey_base58;
  rolls = rolls_or_empty parsed.rolls;
}

module _ {sol : Platform} (h : Host sol) where
  unfoldable pub load_state : h.World → DemoState
  load_state w = restore (h.read_state w)

  unfoldable pub save_state : DemoState → h.World → Result DemoError (Unit {0}) × h.World
  save_state state w = h.write_state state w
