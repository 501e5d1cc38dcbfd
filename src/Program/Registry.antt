-- ===== src/Program/Registry.antt =====
-- The registry that the on-chain program keeps, over every sequence of calls and of changes that
-- other programs make to the state tree.
pub mod Permanence
pub mod Guards
pub mod Soundness
pub mod Progress
use cc_vrf.Common.{
  ℕ, ◌≡◌, refl, sym, subst, ◌∙◌, ◌⊎◌, inl, inr, Bytes, Bool, true, false, Option, none, some,
  Result, ok, Bool-cases, if◌then◌else◌,
}
use cc_vrf.Client.Platform.{Platform, IsPlatform}
use cc_vrf.Client.Operations.{DecodedAuthority}
use cc_vrf.Program.{Call, Chain, Context, dispatch, set_frozen, set_revoked}
use cc_vrf.Program.Light.{LightSdk, IsLight, Row, vrf_authority}
use cc_vrf.Program.Transition.{
  commit_key, row_at, Writes, Update, Transition, initialised, updated, committed, logged,
}
use cc_vrf.Program.Transition.Handlers.{dispatch-Transition}

module _ (sol : Platform) (sdk : LightSdk sol) where
  pub data Step (c c' : Chain sol sdk) : Type 0 where
    called :
        (ctx : Context sol sdk) (call : Call sol) → dispatch sol sdk c ctx call ≡ ok c' → Step c c'
    elsewhere :
        ((x : sol.PublicKey) → row_at sol sdk c' x ≡ row_at sol sdk c x)
        → c'.events ≡ c.events
        → Step c c'

  pub data Reach (c : Chain sol sdk) : Chain sol sdk → Type 0 where
    here : Reach c c
    next : {d e : Chain sol sdk} → Reach c d → Step d e → Reach c e

  -- A row is kept, or is that of an authority and its owner updates it.
  pub data Kept (owner : sol.PublicKey) (c' : Chain sol sdk) (x : sol.PublicKey) (row : Row sol)
      : Type 0 where
    same : row_at sol sdk c' x ≡ some row → Kept owner c' x row
    changed :
        (old new : DecodedAuthority sol)
        → row ≡ vrf_authority old
        → row_at sol sdk c' x ≡ some (vrf_authority new)
        → Update sol owner old new
        → Kept owner c' x row

  module _ (is_platform : IsPlatform sol) where
    pub Writes-cases :
        (c c' : Chain sol sdk) (a : sol.PublicKey) (row : Row sol)
        → Writes sol sdk c c' a row
        → (x : sol.PublicKey)
        → ((a ≡ x) × (row_at sol sdk c' x ≡ some row)) ⊎ (row_at sol sdk c' x ≡ row_at sol sdk c x)
    Writes-cases c c' a row w x = elim (Bool-cases (sol.equals a x)) [
      | inl e ↦ inl ((is_platform.equals_iff a x).0 e, w x ∙ rw e refl)
      | inr e ↦ inr (w x ∙ rw e refl)
    ]

    pub Writes-self :
        (c c' : Chain sol sdk) (a : sol.PublicKey) (row : Row sol)
        → Writes sol sdk c c' a row
        → row_at sol sdk c' a ≡ some row
    Writes-self c c' a row w = w a ∙ rw ((is_platform.equals_iff a a).1 refl) refl

    Writes-Kept :
        (owner : sol.PublicKey) (c c' : Chain sol sdk) (a : sol.PublicKey) (new : Row sol)
        → row_at sol sdk c a ≡ none
        → Writes sol sdk c c' a new
        → (x : sol.PublicKey) (row : Row sol) → row_at sol sdk c x ≡ some row
        → Kept owner c' x row
    Writes-Kept owner c c' a new free w x row e = elim (Writes-cases c c' a new w x) [
      | inl (is, now) ↦ absurd (cc (free, e, is))
      | inr unchanged ↦ same (unchanged ∙ e)
    ]

    pub Transition-Kept :
        (owner : sol.PublicKey) (c c' : Chain sol sdk)
        → Transition sol sdk owner c c'
        → (x : sol.PublicKey) (row : Row sol) → row_at sol sdk c x ≡ some row
        → Kept owner c' x row
    Transition-Kept owner c c' (initialised pk label slot free w events) x row e =
        Writes-Kept owner c c' _ _ free w x row e
    Transition-Kept owner c c' (updated a old new stored how w events) x row e =
        elim (Writes-cases c c' a (vrf_authority new) w x) [
          | inl (is, now) ↦ changed old new (cc (stored, e, is)) now how
          | inr unchanged ↦ same (unchanged ∙ e)
        ]
    Transition-Kept owner c c' (committed a r mh new stored can key free w events) x row e =
        Writes-Kept owner c c' _ _ free w x row e
    Transition-Kept owner c c' (logged r event by stored can label unchanged events) x row e =
        same (unchanged x ∙ e)
