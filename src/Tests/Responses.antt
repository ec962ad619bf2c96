-- ===== src/Tests/Responses.antt =====
-- Two rows: padding at the left, and padding at either end.
use lumen_rl.Base.{ℕ, ◌≡◌, refl, Bool, List, [], ◌∷◌, map, slice, ok, arith}
use lumen_rl.RlTrainer.Response.{build_response_mask, response_token_ids}
use lumen_rl.RlTrainer.Response.Picked.{Rollout, mask_of, picked, response_mask-token_ids}

abbrev rows : List (Rollout ℕ)
rows =
    record {
      left = 2;
      real = 3;
      right = 0;
      prompt_length = 2;
      sequence = 0 ∷ 0 ∷ 5 ∷ 6 ∷ 7 ∷ 8 ∷ [];
    }
    ∷ record {
      left = 0;
      real = 2;
      right = 3;
      prompt_length = 1;
      sequence = 3 ∷ 4 ∷ 9 ∷ 0 ∷ 0 ∷ 0 ∷ [];
    }
    ∷ []

responses :
    map (λ r. response_token_ids r.sequence (mask_of r) r.prompt_length) rows
    ≡ (7 ∷ 8 ∷ []) ∷ (4 ∷ 9 ∷ []) ∷ []
unfolding response_token_ids slice
responses = refl

response_mask-token_ids_example :
    (masks : List (List Bool)) × (build_response_mask
        (map mask_of rows)
        (map (λ r. r.prompt_length) rows)
      ≡ ok masks)
    × (picked masks rows
        ≡ map (λ r. response_token_ids r.sequence (mask_of r) r.prompt_length) rows)
response_mask-token_ids_example = response_mask-token_ids rows (omega arith, (omega arith, tt))
