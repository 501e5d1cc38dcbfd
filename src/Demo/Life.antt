-- ===== src/Demo/Life.antt =====
-- The demo's state over every sequence of its commands.
use cc_vrf.Common.{
  ℕ, ◌≡◌, refl, sym, ap, ap₂, subst, ◌∙◌, List, [], ◌∷◌, ◌++◌, Bytes, IsByte, All, true, Option,
  none, some, Result, ok, err, All_mono, append-nil, append_assoc, All-append,
}
use cc_vrf.Client.Operations.{Instruction}
use cc_vrf.Client.Platform.{Platform, ClientError}
use cc_vrf.Demo.Commands.{build_and_send, cmd_init, cmd_freeze, cmd_revoke}
use cc_vrf.Demo.Draw.{is_none, is_some, secret_key}
use cc_vrf.Demo.Host.{
  DemoError, DemoState, Roll, Host, already_initialised, not_initialised, bind, from_vrf, given,
  restore, load_state, save_state, require,
}
use cc_vrf.Demo.History.{
  from_vrf-eq-ok, IsHost, HoldsKey, IsRecorded, Rolls, Rolls-IsRecorded, restore-written,
  build_and_send_keeps,
}
use cc_vrf.Demo.Steps.{bind-eq-ok, lift-eq-ok, ok_and_world, require-eq-ok}
use cc_vrf.Ecvrf.Curve.{Curve, IsNoble}
use cc_vrf.Ecvrf.Encoding.{bytes_to_hex}
use cc_vrf.Ecvrf.Keypair.{generate_key_pair}

module _ (sol : Platform) (ed : Curve) (noble : IsNoble ed)
    (sha256-IsByte : (m : Bytes) → All IsByte (sol.sha256 m)) (h : Host sol)
    (is_host : IsHost h) where
  -- A command that succeeds.
  pub data Step (w w' : h.World) : Type 0 where
    init : {address : sol.PublicKey} → cmd_init sol ed h w ≡ (ok address, w') → Step w w'
    freeze : {signature : List ℕ} → cmd_freeze sol ed h w ≡ (ok signature, w') → Step w w'
    revoke : {signature : List ℕ} → cmd_revoke sol ed h w ≡ (ok signature, w') → Step w w'
    roll : (r : Roll) → Rolls sol ed noble sha256-IsByte h is_host w w' r → Step w w'

  pub data Reach (w : h.World) : h.World → Type 0 where
    here : Reach w w
    next : {u v : h.World} → Reach w u → Step u v → Reach w v

  abbrev initialised : DemoState → Bytes → Bytes → List ℕ → DemoState
  initialised state sk pk owner = record state {
    vrf_sk = some (bytes_to_hex sk);
    vrf_pk = some (bytes_to_hex pk);
    owner_pubkey_base58 = some owner;
    program_id_base58 = some (h.to_base58 sol.cc_vrf_program_id);
  }

  -- What an `init` that succeeds leaves.
  cmd_init-eq-ok :
      (w : h.World) {address : sol.PublicKey} {w' : h.World}
      → cmd_init sol ed h w ≡ (ok address, w')
      → (seed sk pk : Bytes) × (owner : List ℕ) × (given (load_state h w).vrf_sk ≡ none)
        × (generate_key_pair ed seed ≡ ok (sk, pk))
        × (load_state h w' ≡ initialised (load_state h w) sk pk owner)
  unfolding cmd_init save_state load_state
  cmd_init-eq-ok w {address} {w'} e =
      let (u, v, e1, r1) =
        bind-eq-ok (require (is_none (given (load_state h w).vrf_sk)) already_initialised w) _ e in
      let (fresh, at1) = require-eq-ok _ _ w e1 in
      let (seed, v1) = h.random_seed v in
      let ((sk, pk), e2, r2) = lift-eq-ok (from_vrf (generate_key_pair ed seed)) v1 _ r1 in
      let (payer, e3, r3) = lift-eq-ok (h.load_payer v1) v1 _ r2 in
      let ((sig, made), v2, e4, r4) = bind-eq-ok (build_and_send sol ed h _ v1) _ r3 in
      let state = initialised (load_state h w) sk pk (h.to_base58 payer) in
      let (u', v3, e5, r5) = bind-eq-ok (h.write_state state v2) _ r4 in
      let (is, at) = ok_and_world r5 in
      (
        seed,
        sk,
        pk,
        h.to_base58 payer,
        none_of (given (load_state h w).vrf_sk) fresh,
        from_vrf-eq-ok _ e2,
        ap restore (sym (ap h.read_state at) ∙ is_host.write_stores state v2 e5)
            ∙ restore-written (h.read_state w) state refl,
      )
    where
      none_of : (o : Option (List ℕ)) → is_none o ≡ true → o ≡ none
      none_of none e = refl
      none_of (some x) e = cc

  sent_keeps :
      {A B : Type 0} (build : (w : h.World) → Result ClientError (Instruction sol (h.rpc w) × A))
      (w w1 : h.World) (f : List ℕ × A → B) {b : B} {w' : h.World}
      → h.read_state w1 ≡ h.read_state w
      → bind (build_and_send sol ed h build w1) (λ p v. (ok (f p), v)) ≡ (ok b, w')
      → h.read_state w' ≡ h.read_state w
  sent_keeps build w w1 f same e =
      let (p, v, e1, r1) = bind-eq-ok (build_and_send sol ed h build w1) _ e in
      let (is, at) = ok_and_world r1 in
      sym (ap h.read_state at)
      ∙ sym (ap (λ q. h.read_state q.1) e1)
      ∙ build_and_send_keeps sol ed noble sha256-IsByte h is_host build w1
      ∙ same

  cmd_freeze_keeps :
      (w : h.World) {signature : List ℕ} {w' : h.World}
      → cmd_freeze sol ed h w ≡ (ok signature, w')
      → h.read_state w' ≡ h.read_state w
  unfolding cmd_freeze
  cmd_freeze_keeps w e =
      let (u, v, e1, r1) =
        bind-eq-ok (require (is_some (given (load_state h w).vrf_sk)) not_initialised w) _ e in
      let (inited, at1) = require-eq-ok _ _ w e1 in
      let (payer, e2, r2) = lift-eq-ok (h.load_payer v) v _ r1 in
      sent_keeps _ w v (λ p. p.0) (ap h.read_state (sym at1)) r2

  cmd_revoke_keeps :
      (w : h.World) {signature : List ℕ} {w' : h.World}
      → cmd_revoke sol ed h w ≡ (ok signature, w')
      → h.read_state w' ≡ h.read_state w
  unfolding cmd_revoke
  cmd_revoke_keeps w e =
      let (u, v, e1, r1) =
        bind-eq-ok (require (is_some (given (load_state h w).vrf_sk)) not_initialised w) _ e in
      let (inited, at1) = require-eq-ok _ _ w e1 in
      let (payer, e2, r2) = lift-eq-ok (h.load_payer v) v _ r1 in
      sent_keeps _ w v (λ p. p.0) (ap h.read_state (sym at1)) r2

  -- A record of a roll under the secret key of the state.
  abbrev pub IsRollOf : DemoState → Roll → Type 0
  IsRollOf s r = (sk : Bytes) × HoldsKey sol ed s sk × IsRecorded sol ed sk r

  -- What stays of the state: a key pair that is there, and the rolls, to which more may be added.
  pub record Keeps (s s' : DemoState) : Type 0 where
    pub key : (c : ℕ) (cs : List ℕ) → s.vrf_sk ≡ some (c ∷ cs) → s'.vrf_sk ≡ s.vrf_sk
    pub public_key : (c : ℕ) (cs : List ℕ) → s.vrf_sk ≡ some (c ∷ cs) → s'.vrf_pk ≡ s.vrf_pk
    pub label : s'.label ≡ s.label
    pub more : List Roll
    pub rolls : s'.rolls ≡ s.rolls ++ more
    pub recorded : All (IsRollOf s') more

  Keeps-same : {s s' : DemoState} → s' ≡ s → Keeps s s'
  Keeps-same {s} e = subst (Keeps s) (sym e) (record {
    key = λ c cs k. refl;
    public_key = λ c cs k. refl;
    label = refl;
    more = [];
    rolls = sym (append-nil s.rolls);
    recorded = tt;
  })

  Step-Keeps : (w w' : h.World) → Step w w' → Keeps (load_state h w) (load_state h w')
  unfolding load_state restore secret_key
  Step-Keeps w w' (init e) =
      let (seed, sk, pk, owner, fresh, made, is) = cmd_init-eq-ok w e in
      subst (Keeps (load_state h w)) (sym is) (record {
        key = λ c cs k. absurd (no_key _ k fresh);
        public_key = λ c cs k. absurd (no_key _ k fresh);
        label = refl;
        more = [];
        rolls = sym (append-nil (load_state h w).rolls);
        recorded = tt;
      })
    where
      no_key : (o : Option (List ℕ)) {c : ℕ} {cs : List ℕ} → o ≡ some (c ∷ cs) → given o ≡ none → ⊥
      no_key none k f = cc
      no_key (some []) k f = cc
      no_key (some (x ∷ xs)) k f = cc
  Step-Keeps w w' (freeze e) = Keeps-same (ap restore (cmd_freeze_keeps w e))
  Step-Keeps w w' (revoke e) = Keeps-same (ap restore (cmd_revoke_keeps w e))
  Step-Keeps w w' (roll r e) =
      let (is, sk, held, recorded) =
        Rolls-IsRecorded sol ed noble sha256-IsByte h is_host w w' r e in
      subst (Keeps (load_state h w)) (sym is) (record {
        key = λ c cs k. refl;
        public_key = λ c cs k. refl;
        label = refl;
        more = r ∷ [];
        rolls = refl;
        recorded = ((sk, held, recorded), tt);
      })

  abbrev key_of : Option (List ℕ) → Option (List ℕ) → Result DemoError (List ℕ)
  key_of sk pk = elim (given sk) [
    | none ↦ err not_initialised
    | some key ↦ elim (given pk) [ none ↦ err not_initialised | some p ↦ ok key ]
  ]

  key_of-eq-ok :
      (sk pk : Option (List ℕ)) {key : List ℕ}
      → key_of sk pk ≡ ok key
      → (c : ℕ) × (cs : List ℕ) × (sk ≡ some (c ∷ cs))
  key_of-eq-ok none pk e = absurd cc
  key_of-eq-ok (some []) pk e = absurd cc
  key_of-eq-ok (some (c ∷ cs)) pk e = (c, cs, refl)

  -- A key that is there stays, and with it the records made under it.
  IsRollOf-Keeps : (s s' : DemoState) → Keeps s s' → (r : Roll) → IsRollOf s r → IsRollOf s' r
  unfolding secret_key
  IsRollOf-Keeps s s' keeps r (sk, (key, held, reads), recorded) =
      let (c, cs, is) = key_of-eq-ok s.vrf_sk s.vrf_pk held in
      let same : key_of s'.vrf_sk s'.vrf_pk ≡ key_of s.vrf_sk s.vrf_pk =
        ap₂ key_of (keeps.key c cs is) (keeps.public_key c cs is) in
      (sk, (key, same ∙ held, reads), recorded)

  -- Over a host, a hash and a curve library with their documented behaviour: whatever calls of
  -- cmd_init, cmd_freeze, cmd_revoke and the three roll commands succeed one after another, the VRF
  -- key pair, once there is one, and the label stay as they are, and the history only grows, by
  -- records whose texts read back as the alpha of their memo, the proof of this alpha under the
  -- secret key on disk and the proof's beta.
  pub Reach-Keeps : (w w' : h.World) → Reach w w' → Keeps (load_state h w) (load_state h w')
  Reach-Keeps w w' here = Keeps-same refl
  Reach-Keeps w w' (next before step) =
      let f = Reach-Keeps w _ before in
      let g = Step-Keeps _ w' step in
      record {
        key = λ c cs k. g.key c cs (f.key c cs k ∙ k) ∙ f.key c cs k;
        public_key = λ c cs k. g.public_key c cs (f.key c cs k ∙ k) ∙ f.public_key c cs k;
        label = g.label ∙ f.label;
        more = f.more ++ g.more;
        rolls = g.rolls ∙ ap (λ rs. rs ++ g.more) f.rolls ∙ append_assoc _ f.more g.more;
        recorded =
            All-append (IsRollOf (load_state h w')) f.more g.more
              (All_mono f.more (IsRollOf-Keeps _ _ g) f.recorded) g.recorded;
      }
