-- ===== src/Demo/History.antt =====
-- The history of rolls that the demo keeps on disk.
use cc_vrf.Common.{
  ℕ, ◌+◌, ◌%◌, ◌≤◌, ◌≡◌, refl, sym, ap, subst, ◌∙◌, inl, inr, List, [], ◌∷◌, take, length, Bytes,
  IsByte, All, Option, none, some, Result, Result-cases, ok, err, arith, >>=-eq-ok, ok_injective,
}
use cc_vrf.Client.Operations.{Instruction}
use cc_vrf.Client.Platform.{Platform, ClientError}
use cc_vrf.Demo.Commands.{
  build_and_send, draw_memo, prepare_roll, record_roll, cmd_roll, cmd_roll_with_beta,
  cmd_roll_event, dice, dice_beta, dice_evt,
}
use cc_vrf.Demo.Draw.{Draw, secret_key, make_draw, roll_record, push_roll, roll_value}
use cc_vrf.Demo.Host.{
  DemoError, Mode, Roll, DemoState, ParsedState, Host, bind, return, from_vrf, given,
  label_or_default, restore, load_state, save_state,
}
use cc_vrf.Demo.Steps.{bind-eq-ok, lift-eq-ok, ok_and_world}
use cc_vrf.Demo.Value.{roll_value_lem}
use cc_vrf.Ecvrf.Curve.{Curve, IsNoble}
use cc_vrf.Ecvrf.Encoding.{Error, hex_to_bytes, bytes_to_big_int_be}
use cc_vrf.Ecvrf.Encoding.Hex.{hex_to_bytes-bytes_to_hex}
use cc_vrf.Ecvrf.Prove.{prove_vrf}
use cc_vrf.Ecvrf.Prove.Shape.{prove_vrf-IsByte, vrf_proof_to_hash_shape}
use cc_vrf.Ecvrf.Verify.{vrf_proof_to_hash}

-- What `JSON.parse` makes of the text that `JSON.stringify` made of the state.
abbrev pub written : DemoState → ParsedState
written s = record {
  vrf_sk = s.vrf_sk;
  vrf_pk = s.vrf_pk;
  label = some s.label;
  program_id_base58 = s.program_id_base58;
  owner_pubkey_base58 = s.owner_pubkey_base58;
  rolls = some s.rolls;
}

-- Documented behaviour of the process: a file that was written is read back, and nothing else that
-- the demo calls touches it.
pub record IsHost {sol : Platform} (h : Host sol) : Type 0 where
  pub write_stores :
      (s : DemoState) (w : h.World) {u : Unit {0}} {w' : h.World}
      → h.write_state s w ≡ (ok u, w')
      → h.read_state w' ≡ some (written s)
  pub send_keeps :
      (w : h.World) (ix : Instruction sol (h.rpc w))
      → h.read_state (h.send_and_confirm w ix).1 ≡ h.read_state w
  pub random_seed_keeps : (w : h.World) → h.read_state (h.random_seed w).1 ≡ h.read_state w
  pub fresh_memo_keeps :
      (prefix : List ℕ) (w : h.World) → h.read_state (h.fresh_memo prefix w).1 ≡ h.read_state w
  pub iso_time_keeps : (w : h.World) → h.read_state (h.iso_time w).1 ≡ h.read_state w

-- A label is never empty.
HasLabel : List ℕ → Type 0
HasLabel label = (c : ℕ) × (cs : List ℕ) × (label ≡ c ∷ cs)

restore-HasLabel : (p : Option ParsedState) → HasLabel (restore p).label
unfolding restore HasLabel
restore-HasLabel none = (_, _, refl)
restore-HasLabel (some p) = of_label p.label
  where
    of_label : (l : Option (List ℕ)) → HasLabel (label_or_default (given l))
    of_label none = (_, _, refl)
    of_label (some []) = (_, _, refl)
    of_label (some (c ∷ cs)) = (c, cs, refl)

pub restore-written :
    (p : Option ParsedState) (s : DemoState)
    → s.label ≡ (restore p).label
    → restore (some (written s)) ≡ s
unfolding restore HasLabel
restore-written p s e =
    let (c, cs, is) = restore-HasLabel p in
    ap (λ l. record s { label = l }) (kept s.label c cs (e ∙ is))
  where
    kept : (l : List ℕ) (c : ℕ) (cs : List ℕ) → l ≡ c ∷ cs → label_or_default (given (some l)) ≡ l
    kept [] c cs e = cc
    kept (x ∷ l) c cs e = refl

pub from_vrf-eq-ok {ℓ} : {A : Type ℓ} (r : Result Error A) {a : A} → from_vrf r ≡ ok a → r ≡ ok a
from_vrf-eq-ok (ok b) e = cc
from_vrf-eq-ok (err x) e = cc

module _ (sol : Platform) (ed : Curve) where
  -- A draw holds the alpha, the proof, the beta and the value of its memo under a secret key.
  pub record IsDraw (sk : Bytes) (d : Draw) : Type 0 where
    pub gamma : Bytes
    pub alpha_is : d.alpha ≡ sol.sha256 (sol.utf8 d.memo)
    pub proves : prove_vrf ed sk d.alpha ≡ ok (d.proof, gamma)
    pub hashes : vrf_proof_to_hash ed d.proof ≡ ok d.beta
    pub value_is : roll_value d.beta ≡ ok d.value

  make_draw-IsDraw :
      (sk : Bytes) (memo : List ℕ) {d : Draw}
      → make_draw sol ed sk memo ≡ ok d
      → (d.memo ≡ memo) × IsDraw sk d
  unfolding make_draw
  make_draw-IsDraw sk memo {d} e =
      let ((proof, gamma), e1, r1) =
        >>=-eq-ok (from_vrf (prove_vrf ed sk (sol.sha256 (sol.utf8 memo)))) _ e in
      let (beta, e2, r2) = >>=-eq-ok (from_vrf (vrf_proof_to_hash ed proof)) _ r1 in
      let (value, e3, r3) = >>=-eq-ok (roll_value beta) _ r2 in
      subst (λ x. (x.memo ≡ memo) × IsDraw sk x) (ok_injective r3)
        (
          refl,
          record {
            gamma = gamma;
            alpha_is = refl;
            proves = from_vrf-eq-ok _ e1;
            hashes = from_vrf-eq-ok _ e2;
            value_is = e3;
          },
        )

  -- The secret key that a state holds, as bytes.
  abbrev pub HoldsKey : DemoState → Bytes → Type 0
  HoldsKey state sk = (key : List ℕ) × (secret_key state ≡ ok key) × (hex_to_bytes key ≡ ok sk)

  -- What a record of the history says: its fields are those of a draw, in hexadecimal.
  pub record IsRecorded (sk : Bytes) (r : Roll) : Type 0 where
    pub proof : Bytes
    pub gamma : Bytes
    pub beta : Bytes
    pub alpha_reads : hex_to_bytes r.alpha ≡ ok (sol.sha256 (sol.utf8 r.memo))
    pub proof_reads : hex_to_bytes r.proof ≡ ok proof
    pub beta_reads : hex_to_bytes r.beta ≡ ok beta
    pub proves : prove_vrf ed sk (sol.sha256 (sol.utf8 r.memo)) ≡ ok (proof, gamma)
    pub beta_is : vrf_proof_to_hash ed proof ≡ ok beta
    pub value_is : r.roll_value ≡ bytes_to_big_int_be (take 8 beta) % 100 + 1
    pub value_low : 1 ≤ r.roll_value
    pub value_high : r.roll_value ≤ 100

  module _ (noble : IsNoble ed) (sha256-IsByte : (m : Bytes) → All IsByte (sol.sha256 m)) where
    roll_record-IsRecorded :
        (sk : Bytes) (d : Draw) (address time : List ℕ) (mode : Option Mode)
        (signature : Option (List ℕ))
        → IsDraw sk d
        → IsRecorded sk (roll_record d address time mode signature)
    roll_record-IsRecorded sk d address time mode signature draw =
        let (len, bytes) = vrf_proof_to_hash_shape ed noble d.proof draw.hashes in
        let (value, low, high) = value_of d.beta d.value len bytes draw.value_is in
        record {
          proof = d.proof;
          gamma = draw.gamma;
          beta = d.beta;
          alpha_reads =
              hex_to_bytes-bytes_to_hex d.alpha
                (subst (All IsByte) (sym draw.alpha_is) (sha256-IsByte _))
              ∙ ap ok draw.alpha_is;
          proof_reads =
              hex_to_bytes-bytes_to_hex d.proof (prove_vrf-IsByte ed noble sk d.alpha draw.proves);
          beta_reads = hex_to_bytes-bytes_to_hex d.beta bytes;
          proves =
              subst (λ a. prove_vrf ed sk a ≡ ok (d.proof, draw.gamma)) draw.alpha_is draw.proves;
          beta_is = draw.hashes;
          value_is = value;
          value_low = low;
          value_high = high;
        }
      where
        value_of :
            (beta : Bytes) (v : ℕ)
            → length beta ≡ 64
            → All IsByte beta
            → roll_value beta ≡ ok v
            → (v ≡ bytes_to_big_int_be (take 8 beta) % 100 + 1) × (1 ≤ v) × (v ≤ 100)
        value_of [] v len bytes e = absurd (omega arith)
        value_of (b ∷ beta) v len bytes e =
            let (is, bounded) = roll_value_lem b beta bytes in
            let (low, high) = bounded v e in (ok_injective (sym e ∙ is), low, high)

    module _ (h : Host sol) (is_host : IsHost h) where
      draw_memo_keeps :
          (prefix : List ℕ) (memo : Option (List ℕ)) (w : h.World)
          → h.read_state (draw_memo sol ed h prefix memo w).1 ≡ h.read_state w
      unfolding draw_memo
      draw_memo_keeps prefix none w = is_host.fresh_memo_keeps prefix w
      draw_memo_keeps prefix (some []) w = is_host.fresh_memo_keeps prefix w
      draw_memo_keeps prefix (some (c ∷ cs)) w = refl

      prepare_roll-eq-ok :
          (prefix : List ℕ) (memo : Option (List ℕ)) (w : h.World) {state : DemoState}
          {payer : sol.PublicKey} {d : Draw} {w' : h.World}
          → prepare_roll sol ed h prefix memo w ≡ (ok (state, payer, d), w')
          → (state ≡ load_state h w)
            × (h.read_state w' ≡ h.read_state w)
            × (sk : Bytes) × HoldsKey (load_state h w) sk
            × IsDraw sk d
      unfolding prepare_roll
      prepare_roll-eq-ok prefix memo w {state} {payer} {d} {w'} e =
          let (key, e1, r1) = lift-eq-ok (secret_key (load_state h w)) w _ e in
          let (sk, e2, r2) = lift-eq-ok (from_vrf (hex_to_bytes key)) w _ r1 in
          let (payer', e3, r3) = lift-eq-ok (h.load_payer w) w _ r2 in
          let (memo_str, v, e4, r4) = bind-eq-ok (draw_memo sol ed h prefix memo w) _ r3 in
          let (d', e5, r5) = lift-eq-ok (make_draw sol ed sk memo_str) v _ r4 in
          let (is, at) = ok_and_world r5 in
          let (named, draw) = make_draw-IsDraw sk memo_str e5 in
          (
            sym (ap (λ t. t.0) is),
            sym (ap h.read_state at)
                ∙ sym (ap (λ p. h.read_state p.1) e4)
                ∙ draw_memo_keeps prefix memo w,
            sk,
            (key, e1, from_vrf-eq-ok _ e2),
            subst (IsDraw sk) (ap (λ t. t.2) is) draw,
          )

      bind-return_world :
          {A : Type 0} (a : A) (p : Result DemoError (List ℕ) × h.World)
          → (bind {B = List ℕ × A} p (λ s. return (s, a))).1 ≡ p.1
      bind-return_world a (ok s, v) = refl
      bind-return_world a (err x, v) = refl

      pub build_and_send_keeps :
          {A : Type 0} (build : (w : h.World) → Result ClientError (Instruction sol (h.rpc w) × A))
          (w : h.World)
          → h.read_state (build_and_send sol ed h build w).1 ≡ h.read_state w
      unfolding build_and_send
      build_and_send_keeps build w = elim (Result-cases (build w)) [
        | inl ((ix, a), e) ↦
            rw (e, build_and_send)
              (ap h.read_state (bind-return_world a (h.send_and_confirm w ix))
                ∙ is_host.send_keeps w ix)
        | inr (x, e) ↦ rw (e, build_and_send) refl
      ]

      record_roll-eq-ok :
          (state : DemoState) (d : Draw) (address : List ℕ) (mode : Option Mode)
          (signature : Option (List ℕ)) (w : h.World) {r : Roll} {w' : h.World}
          → record_roll sol ed h state d address mode signature w ≡ (ok r, w')
          → (time : List ℕ) × (r ≡ roll_record d address time mode signature)
            × (h.read_state w' ≡ some (written (push_roll state r)))
      unfolding record_roll save_state
      record_roll-eq-ok state d address mode signature w {r} {w'} e =
          let (time, v) = h.iso_time w in
          let made = roll_record d address time mode signature in
          let (u, v', e1, r1) = bind-eq-ok (h.write_state (push_roll state made) v) _ e in
          let (is, at) = ok_and_world r1 in
          (
            time,
            sym is,
            sym (ap h.read_state at)
                ∙ is_host.write_stores (push_roll state made) v e1
                ∙ ap (λ x. some (written (push_roll state x))) is,
          )

      -- The three roll commands differ in the instruction only.
      abbrev Recorded : h.World → h.World → Roll → Type 0
      Recorded w w' r =
          (load_state h w' ≡ push_roll (load_state h w) r)
          × (sk : Bytes) × HoldsKey (load_state h w) sk
          × IsRecorded sk r

      roll-Recorded :
          (w v : h.World) (state : DemoState) (d : Draw) (address : List ℕ) (mode : Option Mode)
          (signature : Option (List ℕ)) (sk : Bytes) {r : Roll} {w' : h.World}
          → state ≡ load_state h w
          → h.read_state v ≡ h.read_state w
          → HoldsKey (load_state h w) sk
          → IsDraw sk d
          → record_roll sol ed h state d address mode signature v ≡ (ok r, w')
          → Recorded w w' r
      unfolding load_state
      roll-Recorded w v state d address mode signature sk {r} {w'} is at held draw e =
          let (time, made, stored) = record_roll-eq-ok state d address mode signature v e in
          (
            ap restore stored
                ∙ restore-written (h.read_state w) (push_roll state r) (ap (λ s. s.label) is)
                ∙ ap (λ s. push_roll s r) is,
            sk,
            held,
            subst (IsRecorded sk) (sym made)
                (roll_record-IsRecorded sk d address time mode signature draw),
          )

      -- One of the three commands that roll, each with the memo that it is called with.
      pub data Rolls (w w' : h.World) (r : Roll) : Type 0 where
        plain : (memo : Option (List ℕ)) → cmd_roll sol ed h memo w ≡ (ok r, w') → Rolls w w' r
        with_beta :
            (memo : Option (List ℕ))
            → cmd_roll_with_beta sol ed h memo w ≡ (ok r, w')
            → Rolls w w' r
        logged :
            (memo : Option (List ℕ)) → cmd_roll_event sol ed h memo w ≡ (ok r, w') → Rolls w w' r

      -- Over a host, a hash and a curve library with their documented behaviour: a roll that
      -- succeeds, in any of the three modes, appends one record to the state on disk and changes
      -- nothing else of it; the record's texts read back as the alpha of its memo, the proof of this
      -- alpha under the secret key on disk and the proof's beta, and its value is that of the beta,
      -- between 1 and 100.
      pub Rolls-IsRecorded :
          (w w' : h.World) (r : Roll)
          → Rolls w w' r
          → (load_state h w' ≡ push_roll (load_state h w) r)
            × (sk : Bytes) × HoldsKey (load_state h w) sk
            × IsRecorded sk r
      unfolding cmd_roll cmd_roll_with_beta cmd_roll_event
      Rolls-IsRecorded w w' r (plain memo e) =
          let ((state, payer, d), v, e1, r1) = bind-eq-ok (prepare_roll sol ed h dice memo w) _ e in
          let ((sig, address), v', e2, r2) = bind-eq-ok (build_and_send sol ed h _ v) _ r1 in
          let (is, at, sk, held, draw) = prepare_roll-eq-ok dice memo w e1 in
          roll-Recorded w v' state d _ _ _ sk is
            (sym (ap (λ p. h.read_state p.1) e2) ∙ build_and_send_keeps _ v ∙ at) held draw r2
      Rolls-IsRecorded w w' r (with_beta memo e) =
          let ((state, payer, d), v, e1, r1) =
            bind-eq-ok (prepare_roll sol ed h dice_beta memo w) _ e in
          let ((sig, address), v', e2, r2) = bind-eq-ok (build_and_send sol ed h _ v) _ r1 in
          let (is, at, sk, held, draw) = prepare_roll-eq-ok dice_beta memo w e1 in
          roll-Recorded w v' state d _ _ _ sk is
            (sym (ap (λ p. h.read_state p.1) e2) ∙ build_and_send_keeps _ v ∙ at) held draw r2
      Rolls-IsRecorded w w' r (logged memo e) =
          let ((state, payer, d), v, e1, r1) =
            bind-eq-ok (prepare_roll sol ed h dice_evt memo w) _ e in
          let ((sig, u), v', e2, r2) = bind-eq-ok (build_and_send sol ed h _ v) _ r1 in
          let (is, at, sk, held, draw) = prepare_roll-eq-ok dice_evt memo w e1 in
          roll-Recorded w v' state d _ _ _ sk is
            (sym (ap (λ p. h.read_state p.1) e2) ∙ build_and_send_keeps _ v ∙ at) held draw r2
