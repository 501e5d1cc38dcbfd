-- ===== src/Examples/Ledger.antt =====
-- A toy state tree: a function from addresses to rows, which the system program checks by decision.
use cc_vrf.Common.{
  ℕ, ◌≡◌, refl, sym, ap, List, [], ◌∷◌, All, Option, none, some, Result, ok, err, ok_injective,
}
use native.Mathlib.Decide.{ℕ_discrete}
use cc_vrf.Examples.Network.{sol}
use cc_vrf.Program.Light.{
  VrfError, light, LightSdk, IsLight, LightAccount, Row, vrf_authority, created, replaced,
  read_only, IsAccepted, write_accounts,
}

abbrev pub Rows : Type 0
Rows = ℕ → Option (Row sol)

unfoldable pub key_discrete : Discrete sol.PublicKey
unfolding ℕ_discrete
key_discrete = ℕ_discrete

unfoldable pub Row-discrete : Discrete (Option (Row sol))
unfolding key_discrete
Row-discrete = hlevel (key_discrete)

unfoldable pub accepts_one : (t : Rows) (h : LightAccount sol) → Dec (IsAccepted sol t h)
unfolding Row-discrete
accepts_one t (created a row) = Row-discrete (t a) none
accepts_one t (replaced a old row) = Row-discrete (t a) (some old)
accepts_one t (read_only a row) = Row-discrete (t a) (some row)

unfoldable pub accepts : (t : Rows) (hs : List (LightAccount sol)) → Dec (All (IsAccepted sol t) hs)
unfolding accepts_one
accepts t [] = yes tt
accepts t (h ∷ hs) = elim (accepts_one t h) [
  | yes a ↦ elim (accepts t hs) [ yes b ↦ yes (a, b) | no n ↦ no (λ both. n both.1) ]
  | no n ↦ no (λ both. n both.0)
]

unfoldable pub submit_toy : Rows → List (LightAccount sol) → Result VrfError Rows
unfolding accepts
submit_toy t hs = elim (accepts t hs) [
  | yes a ↦ ok (write_accounts sol hs t)
  | no n ↦ err (light 6001)
]

abbrev pub sdk : LightSdk sol
sdk = record {
  Tree = Rows;
  Accounts = Unit {0};
  NewAddress = Unit {0};
  lookup = λ t a. t a;
  address_tree_v2 = 50;
  derive_address = λ seeds tree program.
      (sol.derive_address_v2 (sol.derive_address_seed_v2 seeds) tree program, []);
  get_tree_pubkey = λ info accounts. some 50;
  tree_pubkeys = λ accounts. some [];
  new_address_params_assigned = λ info seed index. tt;
  new_mut = λ a r. ok (replaced a (vrf_authority r) (vrf_authority r));
  new_read_only = λ a r keys. ok (read_only a (vrf_authority r));
  invoke = λ t proof handles fresh accounts. submit_toy t handles;
}

submit_toy-eq-ok :
    (t : Rows) (hs : List (LightAccount sol)) {t' : Rows}
    → submit_toy t hs ≡ ok t'
    → All (IsAccepted sol t) hs × (write_accounts sol hs t ≡ t')
unfolding submit_toy
submit_toy-eq-ok t hs {t'} e = decided (accepts t hs) e
  where
    decided :
        (d : Dec (All (IsAccepted sol t) hs))
        → Path
            (Result VrfError Rows)
            (elim d [ yes a ↦ ok (write_accounts sol hs t) | no n ↦ err (light 6001) ])
            (ok t')
        → All (IsAccepted sol t) hs × (write_accounts sol hs t ≡ t')
    decided (yes a) h = (a, ok_injective h)
    decided (no n) h = cc

pub is_light : IsLight sol sdk
is_light = record {
  new_mut-eq-ok = λ a r e. sym (ok_injective e);
  new_read_only-eq-ok = λ a r keys e. sym (ok_injective e);
  invoke_accepts = λ t proof handles fresh accounts e. (submit_toy-eq-ok t handles e).0;
  invoke_writes = λ t proof handles fresh accounts a e.
      ap (λ rows. rows a) (sym (submit_toy-eq-ok t handles e).1);
  derive_address_v2 = λ seeds tree program. refl;
  same_tree = refl;
}
