-- ===== src/RlTrainer/Response/Picked.antt =====
-- lumenrl/trainer/rl_trainer.py: the mask of `_build_response_mask` picks the tokens of
-- `_response_token_ids`.
use lumen_rl.Base.{
  zero_add, drop-zero, take-zero, keep_where-nil, zero_add, ℕ, suc, ◌+◌, ◌-◌, ◌≤◌, ◌<◌, ◌≡◌, refl,
  sym, subst, ap, ap₂, ◌∙◌, Bool, true, false, List, [], ◌∷◌, ◌++◌, map, min, take, drop, drop-drop,
  slice, replicate, range_from, keep_where, ok, ◌>>=◌, arith, All, ◌⊎◌, inl, inr,
}
use lumen_rl.RlTrainer.Response.{
  real_positions, response_between, response_token_ids, clear, clear_from, clear_prompts,
  build_response_mask,
}
use lumen_rl.RlTrainer.Response.Cleared.{
  real_positions-pad, real_positions-real, last_of-range, clear-pad, clear-first, keep_where-pad,
  keep_where-clear,
}

-- A rollout row: padding, the prompt, the response, and padding.
pub record Rollout (A : Type 0) : Type 0 where
  pub left : ℕ
  pub real : ℕ
  pub right : ℕ
  pub prompt_length : ℕ
  pub sequence : List A

abbrev pub mask_of : {A : Type 0} → Rollout A → List Bool
mask_of r = replicate r.left false ++ (replicate (suc r.real) true ++ replicate r.right false)

module _ {A : Type 0} where
  between_range :
      (p n plen : ℕ) (xs : List A)
      → response_between xs plen (range_from p (suc n))
        ≡ take (suc n - plen) (drop plen (drop p xs))
  unfolding response_between slice
  between_range p n plen xs = rw (last_of-range p n) (elim (cases_le plen (suc n)) [
    | inl within ↦
        ap₂ (λ m d. take m d) (kept within)
          (ap (λ a. drop a xs) (start within) ∙ sym (drop-drop p plen xs))
    | inr beyond ↦
        ap (λ m. take m (drop (min (p + plen) (suc (p + n))) xs)) (nothing beyond)
        ∙ take-zero (drop (min (p + plen) (suc (p + n))) xs)
        ∙ sym (
            ap (λ m. take m (drop plen (drop p xs))) (less beyond)
            ∙ take-zero (drop plen (drop p xs)))
  ])
    where
      cases_le : (a b : ℕ) → (a ≤ b) ⊎ (b < a)
      cases_le a b = ground arith

      kept : plen ≤ suc n → suc (p + n) - min (p + plen) (suc (p + n)) ≡ suc n - plen
      kept h = omega arith

      start : plen ≤ suc n → min (p + plen) (suc (p + n)) ≡ p + plen
      start h = omega arith

      nothing : suc n < plen → suc (p + n) - min (p + plen) (suc (p + n)) ≡ 0
      nothing h = omega arith

      less : suc n < plen → suc n - plen ≡ 0
      less h = omega arith

  positions_of :
      (r : Rollout A) → real_positions 0 (mask_of r) ≡ range_from (0 + r.left) (suc r.real)
  positions_of r =
      real_positions-pad 0 r.left (replicate (suc r.real) true ++ replicate r.right false)
      ∙ real_positions-real (0 + r.left) (suc r.real) r.right

  -- The two ways to find the response of a row.
  row-picked :
      (r : Rollout A)
      → keep_where (clear r.left r.prompt_length (mask_of r)) r.sequence
        ≡ response_token_ids r.sequence (mask_of r) r.prompt_length
  unfolding response_token_ids
  row-picked r =
      ap (λ m. keep_where m r.sequence)
        (clear-pad r.left r.prompt_length (replicate (suc r.real) true ++ replicate r.right false))
      ∙ keep_where-pad r.left _ r.sequence
      ∙ keep_where-clear r.prompt_length (suc r.real) r.right (drop r.left r.sequence)
      ∙ sym (
          ap (response_between r.sequence r.prompt_length) (positions_of r)
          ∙ between_range (0 + r.left) r.real r.prompt_length r.sequence
          ∙ ap (λ a. take (suc r.real - r.prompt_length) (drop r.prompt_length (drop a r.sequence)))
              (zero_add r.left))

  -- The mask after the prompt is cleared.
  abbrev cleared : Rollout A → List Bool
  cleared r = clear r.left r.prompt_length (mask_of r)

  keep_where-tail :
      (mask : List Bool) (xs : List A) (rest : List Bool)
      → mask ≡ false ∷ rest
      → keep_where (drop 1 mask) (drop 1 xs) ≡ keep_where mask xs
  keep_where-tail mask xs rest e =
      subst (λ m. keep_where (drop 1 m) (drop 1 xs) ≡ keep_where m xs) (sym e) (tail rest xs)
    where
      tail :
          (rest : List Bool) (xs : List A)
          → keep_where (drop 1 (false ∷ rest)) (drop 1 xs) ≡ keep_where (false ∷ rest) xs
      tail rest [] = ap (λ m. keep_where m []) (drop-zero rest) ∙ keep_where-nil rest
      tail rest (x ∷ xs) = ap₂ keep_where (drop-zero rest) (drop-zero xs)

  clear_prompts-rows :
      (rs : List (Rollout A))
      → clear_prompts (map mask_of rs) (map (λ r. r.prompt_length) rs) ≡ ok (map cleared rs)
  unfolding clear_prompts clear_from
  clear_prompts-rows [] = refl
  clear_prompts-rows (r ∷ rs) =
      rw (positions_of r, clear_prompts-rows rs)
        (ap (λ a. ok (clear a r.prompt_length (mask_of r) ∷ map cleared rs)) (omega arith))

  -- The tokens that the rows of a mask pick from sequences without their first token.
  unfoldable pub picked : List (List Bool) → List (Rollout A) → List (List A)
  picked (mask ∷ masks) (r ∷ rs) = keep_where mask (drop 1 r.sequence) ∷ picked masks rs
  picked _ _ = []

  -- For rollout rows with padding at either end and a prompt of at least one token each, the
  -- response mask is built; and from the sequences shifted by one it picks, row by row, exactly the
  -- tokens that `_response_token_ids` gives, also where the prompt fills the row.
  pub response_mask-token_ids :
      (rs : List (Rollout A))
      → All (λ r. 0 < r.prompt_length) rs
      → (masks : List (List Bool)) × (build_response_mask
            (map mask_of rs)
            (map (λ r. r.prompt_length) rs)
          ≡ ok masks)
        × (picked masks rs
            ≡ map (λ r. response_token_ids r.sequence (mask_of r) r.prompt_length) rs)
  unfolding build_response_mask picked
  response_mask-token_ids rs a = (
    map (drop 1) (map cleared rs),
    ap (λ r. r >>= λ ms. ok (map (drop 1) ms)) (clear_prompts-rows rs),
    all_picked rs a,
  )
    where
      all_picked :
          (rs : List (Rollout A))
          → All (λ r. 0 < r.prompt_length) rs
          → picked (map (drop 1) (map cleared rs)) rs
            ≡ map (λ r. response_token_ids r.sequence (mask_of r) r.prompt_length) rs
      all_picked [] a = refl
      all_picked (r ∷ rs) (h, a) =
          let (rest, e) = clear-first r.left r.prompt_length r.real r.right h in
          ap₂ ◌∷◌ (keep_where-tail (cleared r) r.sequence rest e ∙ row-picked r) (all_picked rs a)
