-- ===== src/Program/Registry/Permanence.antt =====
-- What no call can take back: commits, keys, freezing and revoking.
use cc_vrf.Common.{◌≡◌, refl, sym, ap, subst, ◌∙◌, Bytes, true, Option, none, some}
use cc_vrf.Client.Platform.{Platform, IsPlatform}
use cc_vrf.Client.Operations.{DecodedAuthority}
use cc_vrf.Program.{Chain}
use cc_vrf.Program.Light.{LightSdk, IsLight, Row, vrf_authority}
use cc_vrf.Program.Registry.{
  Step, called, elsewhere, Reach, here, next, Kept, same, changed, Transition-Kept,
}
use cc_vrf.Program.Transition.{commit_key, row_at, Update, freeze, revoke}
use cc_vrf.Program.Transition.Handlers.{dispatch-Transition}

-- What stays of an authority's record: only its two flags can be raised.
pub record Evolves {sol : Platform} (old new : DecodedAuthority sol) : Type 0 where
  pub owner : new.owner ≡ old.owner
  pub pk : new.pk ≡ old.pk
  pub suite : new.suite ≡ old.suite
  pub label : new.label ≡ old.label
  pub created_slot : new.created_slot ≡ old.created_slot
  pub frozen : old.frozen ≡ true → new.frozen ≡ true
  pub revoked : old.revoked ≡ true → new.revoked ≡ true

Evolves-refl : {sol : Platform} (r : DecodedAuthority sol) → Evolves r r
Evolves-refl r = record {
  owner = refl;
  pk = refl;
  suite = refl;
  label = refl;
  created_slot = refl;
  frozen = λ e. e;
  revoked = λ e. e;
}

Evolves-trans :
    {sol : Platform} (r s t : DecodedAuthority sol) → Evolves r s → Evolves s t → Evolves r t
Evolves-trans r s t f g = record {
  owner = g.owner ∙ f.owner;
  pk = g.pk ∙ f.pk;
  suite = g.suite ∙ f.suite;
  label = g.label ∙ f.label;
  created_slot = g.created_slot ∙ f.created_slot;
  frozen = λ e. g.frozen (f.frozen e);
  revoked = λ e. g.revoked (f.revoked e);
}

Update-Evolves :
    {sol : Platform} (owner : sol.PublicKey) (old new : DecodedAuthority sol)
    → Update sol owner old new
    → Evolves old new
Update-Evolves owner old new (freeze owned open_ is) =
    subst (λ r. Evolves old r) (sym is)
      (record {
        owner = refl;
        pk = refl;
        suite = refl;
        label = refl;
        created_slot = refl;
        frozen = λ e. refl;
        revoked = λ e. e;
      })
Update-Evolves owner old new (revoke owned is) =
    subst (λ r. Evolves old r) (sym is)
      (record {
        owner = refl;
        pk = refl;
        suite = refl;
        label = refl;
        created_slot = refl;
        frozen = λ e. e;
        revoked = λ e. refl;
      })

module _ (sol : Platform) (sdk : LightSdk sol) (is_platform : IsPlatform sol)
    (is_light : IsLight sol sdk) where
  Kept-authority :
      (owner : sol.PublicKey) (c' : Chain sol sdk) (x : sol.PublicKey) (r : DecodedAuthority sol)
      → Kept sol sdk owner c' x (vrf_authority r)
      → (new : DecodedAuthority sol) × (row_at sol sdk c' x ≡ some (vrf_authority new))
        × Evolves r new
  Kept-authority owner c' x r (same e) = (r, e, Evolves-refl r)
  Kept-authority owner c' x r (changed old new is e how) = (
    new,
    e,
    subst (λ o. Evolves o new) (authority_injective is) (Update-Evolves owner old new how),
  )
    where
      authority_injective :
          {a b : DecodedAuthority sol} → Path (Row sol) (vrf_authority a) (vrf_authority b) → b ≡ a
      authority_injective e = cc

  Kept-commit :
      (owner : sol.PublicKey) (c' : Chain sol sdk) (x : sol.PublicKey) (row : Row sol)
      {key : sol.PublicKey × Bytes}
      → commit_key sol row ≡ some key
      → Kept sol sdk owner c' x row
      → row_at sol sdk c' x ≡ some row
  Kept-commit owner c' x row key (same e) = e
  Kept-commit owner c' x row {key} k (changed old new is e how) =
      absurd (no_key (sym (ap (commit_key sol) is) ∙ k))
    where
      no_key : ¬ Path (Option (sol.PublicKey × Bytes)) none (some key)
      no_key e = cc

  pub Step-authority :
      {c c' : Chain sol sdk} (x : sol.PublicKey) (r : DecodedAuthority sol)
      → Step sol sdk c c'
      → row_at sol sdk c x ≡ some (vrf_authority r)
      → (new : DecodedAuthority sol) × (row_at sol sdk c' x ≡ some (vrf_authority new))
        × Evolves r new
  Step-authority {c} {c'} x r (called ctx call e) at = Kept-authority ctx.owner c' x r (
      Transition-Kept sol sdk is_platform ctx.owner c c'
        (dispatch-Transition sol sdk is_platform is_light c ctx call e) x _ at)
  Step-authority x r (elsewhere unchanged events) at = (r, unchanged x ∙ at, Evolves-refl r)

  Step-commit :
      {c c' : Chain sol sdk} (x : sol.PublicKey) (row : Row sol) {key : sol.PublicKey × Bytes}
      → commit_key sol row ≡ some key
      → Step sol sdk c c'
      → row_at sol sdk c x ≡ some row
      → row_at sol sdk c' x ≡ some row
  Step-commit {c} {c'} x row k (called ctx call e) at = Kept-commit ctx.owner c' x row k (
      Transition-Kept sol sdk is_platform ctx.owner c c'
        (dispatch-Transition sol sdk is_platform is_light c ctx call e) x _ at)
  Step-commit x row k (elsewhere unchanged events) at = unchanged x ∙ at

  -- Over a platform and a Light SDK with their documented behaviour: an authority that is stored
  -- stays stored at its address, whatever calls follow, with its owner, key, suite, label and slot
  -- of creation; once frozen it stays frozen, and once revoked it stays revoked.
  pub Reach-authority :
      {c c' : Chain sol sdk} (x : sol.PublicKey) (r : DecodedAuthority sol)
      → row_at sol sdk c x ≡ some (vrf_authority r)
      → Reach sol sdk c c'
      → (new : DecodedAuthority sol) × (row_at sol sdk c' x ≡ some (vrf_authority new))
        × Evolves r new
  Reach-authority x r at here = (r, at, Evolves-refl r)
  Reach-authority x r at (next before step) =
      let (mid, at_mid, f) = Reach-authority x r at before in
      let (new, at_new, g) = Step-authority x mid step at_mid in
      (new, at_new, Evolves-trans r mid new f g)

  pub Reach-commit :
      {c c' : Chain sol sdk} (x : sol.PublicKey) (row : Row sol) {key : sol.PublicKey × Bytes}
      → commit_key sol row ≡ some key
      → row_at sol sdk c x ≡ some row
      → Reach sol sdk c c'
      → row_at sol sdk c' x ≡ some row
  Reach-commit x row k at here = at
  Reach-commit x row k at (next before step) =
      Step-commit x row k step (Reach-commit x row k at before)
