-- ===== src/RlTrainer/Response.antt =====
-- lumenrl/trainer/rl_trainer.py: the tokens of a rollout row's response (`_response_token_ids`), and
-- the mask that picks them for the loss (`_build_response_mask`). Attention masks are Boolean.
pub mod Cleared
pub mod Picked
use lumen_rl.Base.{
  ℕ, zero, suc, ◌+◌, Bool, true, false, List, [], ◌∷◌, map, if◌then◌else◌, min, drop, slice, Result,
  ok, err, ◌>>=◌, index_error,
}

-- `mask.nonzero(as_tuple=True)[0]`, from position `i` on.
unfoldable pub real_positions : ℕ → List Bool → List ℕ
real_positions i [] = []
real_positions i (b ∷ mask) = let rest = real_positions (suc i) mask in if b then i ∷ rest else rest

unfoldable pub last_of : ℕ → List ℕ → ℕ
last_of p [] = p
last_of p (q ∷ ps) = last_of q ps

module _ {A : Type 0} where
  unfoldable pub response_between : List A → ℕ → List ℕ → List A
  unfolding last_of
  response_between sequence prompt_length [] = []
  response_between sequence prompt_length (p ∷ ps) =
      let real_end = suc (last_of p ps) in
      slice (min (p + prompt_length) real_end) real_end sequence

  -- `_response_token_ids`.
  unfoldable pub response_token_ids : List A → List Bool → ℕ → List A
  unfolding response_between real_positions
  response_token_ids sequence attention_mask prompt_length =
      response_between sequence prompt_length (real_positions 0 attention_mask)

-- `mask[i, start:start + plen] = 0`.
unfoldable pub clear : ℕ → ℕ → List Bool → List Bool
clear start plen [] = []
clear zero zero (b ∷ mask) = b ∷ mask
clear zero (suc plen) (b ∷ mask) = false ∷ clear zero plen mask
clear (suc start) plen (b ∷ mask) = b ∷ clear start plen mask

unfoldable pub clear_from : List ℕ → ℕ → List Bool → Result (List Bool)
unfolding clear
clear_from [] plen mask = err index_error
clear_from (actual_start ∷ ps) plen mask = ok (clear actual_start plen mask)

unfoldable pub clear_prompts : List (List Bool) → List ℕ → Result (List (List Bool))
unfolding clear_from real_positions
clear_prompts masks [] = ok masks
clear_prompts [] (plen ∷ plens) = err index_error
clear_prompts (mask ∷ masks) (plen ∷ plens) = do
  row ← clear_from (real_positions 0 mask) plen mask
  rest ← clear_prompts masks plens
  ok (row ∷ rest)

-- `_build_response_mask`.
unfoldable pub build_response_mask : List (List Bool) → List ℕ → Result (List (List Bool))
unfolding clear_prompts
build_response_mask attention_mask prompt_lengths =
    clear_prompts attention_mask prompt_lengths >>= λ masks. ok (map (drop 1) masks)
