-- ===== src/Program/Registry/Soundness.antt =====
-- The invariant of the registry: where its rows stand and what they rest on.
use cc_vrf.Common.{
  ◌≡◌, refl, sym, subst, ◌∙◌, inl, inr, List, [], ◌∷◌, ◌++◌, All, Bytes, true, none, some,
  some_injective,
}
use cc_vrf.Client.Platform.{Platform, IsPlatform}
use cc_vrf.Client.Operations.{DecodedAuthority}
use cc_vrf.Program.{Chain, VrfProofCommitted, supported_suite}
use cc_vrf.Program.Light.{
  LightSdk, IsLight, Row, vrf_authority, vrf_proof_commit, vrf_proof_commit_with_beta,
}
use cc_vrf.Program.Registry.{Step, called, elsewhere, Reach, here, next, Writes-cases}
use cc_vrf.Program.Registry.Permanence.{Step-authority}
use cc_vrf.Program.Transition.{
  commit_key, row_at, authority_place, commit_place, Update, freeze, revoke, Writes, Transition,
  initialised, updated, committed, logged,
}
use cc_vrf.Program.Transition.Handlers.{dispatch-Transition}

All-map {ℓ κ μ} :
    {A : Type ℓ} (P : A → Type κ) (Q : A → Type μ) (xs : List A)
    → ((x : A) → P x → Q x)
    → All P xs
    → All Q xs
All-map P Q [] f h = tt
All-map P Q (x ∷ xs) f h = (f x h.0, All-map P Q xs f h.1)

All-snoc {ℓ κ} :
    {A : Type ℓ} (P : A → Type κ) (xs : List A) (x : A) → All P xs → P x → All P (xs ++ x ∷ [])
All-snoc P [] x h p = (p, tt)
All-snoc P (y ∷ xs) x h p = (h.0, All-snoc P xs x h.1 p)

module _ (sol : Platform) (sdk : LightSdk sol) where
  -- A frozen authority with this property stands at `a`.
  abbrev FrozenAt : (DecodedAuthority sol → Type 0) → Chain sol sdk → sol.PublicKey → Type 0
  FrozenAt P c a =
      (r : DecodedAuthority sol) × (row_at sol sdk c a ≡ some (vrf_authority r))
      × (r.frozen ≡ true)
      × P r

  abbrev Anything : DecodedAuthority sol → Type 0
  Anything r = Unit

  abbrev CommitSound : Chain sol sdk → sol.PublicKey → sol.PublicKey × Bytes → Type 0
  CommitSound c x key = (x ≡ commit_place sol sdk key.0 key.1) × FrozenAt Anything c key.0

  abbrev RowSound : Chain sol sdk → sol.PublicKey → Row sol → Type 0
  RowSound c x (vrf_authority r) =
      (x ≡ authority_place sol sdk r.owner r.label) × (r.suite ≡ supported_suite)
  RowSound c x (vrf_proof_commit r) = CommitSound c x (r.authority, r.memo_hash)
  RowSound c x (vrf_proof_commit_with_beta r) = CommitSound c x (r.authority, r.memo_hash)

  abbrev Emitter : VrfProofCommitted sol → DecodedAuthority sol → Type 0
  Emitter event r = (r.owner ≡ event.owner) × (r.label ≡ event.label)

  abbrev EventSound : Chain sol sdk → VrfProofCommitted sol → Type 0
  EventSound c event = FrozenAt (Emitter event) c (authority_place sol sdk event.owner event.label)

  pub record IsSound (c : Chain sol sdk) : Type 0 where
    pub rows :
        (x : sol.PublicKey) (row : Row sol) → row_at sol sdk c x ≡ some row → RowSound c x row
    pub events : All (EventSound c) c.events

  pub record IsEmpty (c : Chain sol sdk) : Type 0 where
    pub no_rows : (x : sol.PublicKey) → row_at sol sdk c x ≡ none
    pub no_events : c.events ≡ []

  CommitSound-RowSound :
      (c : Chain sol sdk) (x : sol.PublicKey) (row : Row sol) (key : sol.PublicKey × Bytes)
      → commit_key sol row ≡ some key
      → CommitSound c x key
      → RowSound c x row
  CommitSound-RowSound c x (vrf_authority r) key is h = absurd cc
  CommitSound-RowSound c x (vrf_proof_commit r) key is h =
      subst (CommitSound c x) (sym (some_injective is)) h
  CommitSound-RowSound c x (vrf_proof_commit_with_beta r) key is h =
      subst (CommitSound c x) (sym (some_injective is)) h

  module _ (is_platform : IsPlatform sol) (is_light : IsLight sol sdk) where
    Step-FrozenAt :
        {c c' : Chain sol sdk} (a : sol.PublicKey)
        → Step sol sdk c c'
        → FrozenAt Anything c a
        → FrozenAt Anything c' a
    Step-FrozenAt a step (r, at, frozen, u) =
        let (new, at_new, evolves) = Step-authority sol sdk is_platform is_light a r step at in
        (new, at_new, evolves.frozen frozen, u)

    Step-EventSound :
        {c c' : Chain sol sdk}
        → Step sol sdk c c'
        → (event : VrfProofCommitted sol) → EventSound c event
        → EventSound c' event
    Step-EventSound step event (r, at, frozen, (owner, label)) =
        let (new, at_new, evolves) = Step-authority sol sdk is_platform is_light _ r step at in
        (new, at_new, evolves.frozen frozen, (evolves.owner ∙ owner, evolves.label ∙ label))

    Step-RowSound :
        {c c' : Chain sol sdk}
        → Step sol sdk c c'
        → (x : sol.PublicKey) (row : Row sol) → RowSound c x row
        → RowSound c' x row
    Step-RowSound step x (vrf_authority r) h = h
    Step-RowSound step x (vrf_proof_commit r) h = (h.0, Step-FrozenAt r.authority step h.1)
    Step-RowSound step x (vrf_proof_commit_with_beta r) h =
        (h.0, Step-FrozenAt r.authority step h.1)

    -- The row that is written is sound, and so are those that are kept.
    Writes-rows :
        {c c' : Chain sol sdk} (a : sol.PublicKey) (new : Row sol)
        → Step sol sdk c c'
        → IsSound c
        → Writes sol sdk c c' a new
        → RowSound c' a new
        → (x : sol.PublicKey) (row : Row sol) → row_at sol sdk c' x ≡ some row
        → RowSound c' x row
    Writes-rows {c} {c'} a new step sound w h x row e =
        elim (Writes-cases sol sdk is_platform c c' a new w x) [
          | inl (is, now) ↦
              subst (RowSound c' x) (some_injective (sym now ∙ e))
                (subst (λ y. RowSound c' y new) is h)
          | inr unchanged ↦ Step-RowSound step x row (sound.rows x row (sym unchanged ∙ e))
        ]

    Update-RowSound :
        (owner : sol.PublicKey) (c c' : Chain sol sdk) (a : sol.PublicKey)
        (old new : DecodedAuthority sol)
        → Update sol owner old new
        → RowSound c a (vrf_authority old)
        → RowSound c' a (vrf_authority new)
    Update-RowSound owner c c' a old new (freeze owned open_ is) h =
        subst (λ r. RowSound c' a (vrf_authority r)) (sym is) h
    Update-RowSound owner c c' a old new (revoke owned is) h =
        subst (λ r. RowSound c' a (vrf_authority r)) (sym is) h

    Transition-rows :
        {owner : sol.PublicKey} {c c' : Chain sol sdk}
        → Step sol sdk c c'
        → Transition sol sdk owner c c'
        → IsSound c
        → (x : sol.PublicKey) (row : Row sol) → row_at sol sdk c' x ≡ some row
        → RowSound c' x row
    Transition-rows step (initialised pk label slot free w events) sound x row e =
        Writes-rows _ _ step sound w (refl, refl) x row e
    Transition-rows {owner} {c} {c'} step (updated a old new stored how w events) sound x row e =
        Writes-rows a _ step sound w
          (Update-RowSound owner c c' a old new how (sound.rows a _ stored)) x row e
    Transition-rows {owner} {c} {c'} step (committed a r mh made stored can key free w events) sound
          x row e =
        Writes-rows _ made step sound w
          (CommitSound-RowSound c' _ made (a, mh) key
            (refl, Step-FrozenAt a step (r, stored, can.frozen, tt)))
          x row e
    Transition-rows step (logged r event by stored can label unchanged events) sound x row e =
        Step-RowSound step x row (sound.rows x row (sym (unchanged x) ∙ e))

    kept_events :
        {c c' : Chain sol sdk} → Step sol sdk c c' → IsSound c → All (EventSound c') c.events
    kept_events {c} {c'} step sound =
        All-map (EventSound c) (EventSound c') c.events (Step-EventSound step) sound.events

    Transition-events :
        {owner : sol.PublicKey} {c c' : Chain sol sdk}
        → Step sol sdk c c'
        → Transition sol sdk owner c c'
        → IsSound c
        → All (EventSound c') c'.events
    Transition-events {owner} {c} {c'} step (initialised pk label slot free w events) sound =
        subst (All (EventSound c')) (sym events) (kept_events step sound)
    Transition-events {owner} {c} {c'} step (updated a old new stored how w events) sound =
        subst (All (EventSound c')) (sym events) (kept_events step sound)
    Transition-events {owner} {c} {c'} step (committed a r mh row stored can key free w events)
          sound =
        subst (All (EventSound c')) (sym events) (kept_events step sound)
    Transition-events {owner} {c} {c'} step (logged r event by stored can label unchanged events)
          sound =
        let at : row_at sol sdk c (authority_place sol sdk event.owner event.label)
            ≡ some (vrf_authority r) =
          subst
            (λ k. row_at sol sdk c (authority_place sol sdk k event.label) ≡ some (vrf_authority r))
            (sym by) stored in
        subst (All (EventSound c')) (sym events) (
          All-snoc (EventSound c') c.events event (kept_events step sound)
            (Step-EventSound step event (r, at, can.frozen, (can.owned ∙ sym by, label))))

    Step-IsSound : {c c' : Chain sol sdk} → Step sol sdk c c' → IsSound c → IsSound c'
    Step-IsSound {c} {c'} (called ctx call e) sound =
        let t = dispatch-Transition sol sdk is_platform is_light c ctx call e in
        record {
          rows = Transition-rows (called ctx call e) t sound;
          events = Transition-events (called ctx call e) t sound;
        }
    Step-IsSound {c} {c'} (elsewhere unchanged events) sound = record {
      rows = λ x row e.
          Step-RowSound (elsewhere unchanged events) x row
            (sound.rows x row (sym (unchanged x) ∙ e));
      events =
          subst (All (EventSound c')) (sym events) (kept_events (elsewhere unchanged events) sound);
    }

    -- Over a platform and a Light SDK with their documented behaviour: in every chain that calls of
    -- the program reach from one without rows and events, every authority stands at the address of
    -- its owner and label and has the supported suite, every commit row stands at the address of its
    -- authority and memo and its authority is stored and frozen, and so is the authority of every
    -- event, which has the event's owner and label.
    pub Reach-IsSound : {c c' : Chain sol sdk} → IsEmpty c → Reach sol sdk c c' → IsSound c'
    Reach-IsSound {c} empty here = record {
      rows = λ x row e. absurd (cc (empty.no_rows x, e));
      events = subst (All (EventSound c)) (sym empty.no_events) tt;
    }
    Reach-IsSound empty (next before step) = Step-IsSound step (Reach-IsSound empty before)
