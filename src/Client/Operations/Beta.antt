-- ===== src/Client/Operations/Beta.antt =====
-- The two halves of a beta on chain.
use cc_vrf.Common.{
  ◌+◌, ◌≡◌, refl, sym, ap, ap₂, ◌∙◌, [], ◌∷◌, ◌++◌, Bytes, length, slice, take, drop, replicate,
  arith, length-take, length-drop, take_all, take-append_self, take-append-drop, append-nil,
  length-append,
}
use cc_vrf.Client.Operations.{join_beta}

join_halves : (lo hi : Bytes) → length lo ≡ 32 → length hi ≡ 32 → join_beta lo hi ≡ lo ++ hi
join_halves lo hi el eh =
    let zeros : Bytes = replicate 64 0 in
    let rest : Bytes = drop (0 + length lo) zeros in
    let size : length rest ≡ 32 = omega (arith, length-drop (0 + length lo) zeros) in
    let front : take 32 (lo ++ rest) ≡ lo = take-append_self lo rest (sym el) in
    let past : drop (32 + length hi) (lo ++ rest) ≡ [] =
      empty _ (omega (arith, length-drop (32 + length hi) (lo ++ rest), length-append lo rest)) in
    ap₂ (λ (a b : Bytes). a ++ (hi ++ b)) front past ∙ ap (λ (t : Bytes). lo ++ t) (append-nil hi)
  where
    empty : (xs : Bytes) → length xs ≡ 0 → xs ≡ []
    empty [] e = refl
    empty (x ∷ xs) e = absurd (omega arith)

-- The halves that build_commit_proof_with_beta_ix cuts a beta of 64 bytes into have 32 bytes each,
-- and fetch_proof_commit_with_beta joins them to the same beta.
pub join_beta-slice :
    (beta : Bytes)
    → length beta ≡ 64
    → (join_beta (slice beta 0 32) (slice beta 32 64) ≡ beta)
      × (length (slice beta 0 32) ≡ 32)
      × (length (slice beta 32 64) ≡ 32)
join_beta-slice beta e =
    let lo : length (slice beta 0 32) ≡ 32 = omega (arith, length-take 32 beta) in
    let back : length (drop 32 beta) ≡ 32 = omega (arith, length-drop 32 beta) in
    let all : take 32 (drop 32 beta) ≡ drop 32 beta = take_all 32 (drop 32 beta) (omega arith) in
    let hi : length (slice beta 32 64) ≡ 32 = ap length all ∙ back in
    (
      join_halves (slice beta 0 32) (slice beta 32 64) lo hi
          ∙ ap (λ (t : Bytes). take 32 beta ++ t) all
          ∙ take-append-drop 32 beta,
      lo,
      hi,
    )
