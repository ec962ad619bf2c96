-- ===== src/Tests/Rollouts.antt =====
-- Two prompts of two samples in each round; the samples of the second differ and are kept.
use lumen_rl.Base.{
  ℕ, zero, suc, ◌+◌, ◌≡◌, refl, Bool, true, false, not, List, [], ◌∷◌, ◌==◌, String, none, Result,
  ok, dict_set, dict_get, map_values,
}
use Prim.Native.String.{◌++◌}
use lumen_rl.Dapo.{filter_groups_keep_mask}
use lumen_rl.RlTrainer.Rollout.{Rollouts}
use lumen_rl.RlTrainer.Rollout.Sampling.{Config, collect_rollout_batch}
use lumen_rl.RlTrainer.Rollout.Played.{Played}

-- An int as a text of that many characters.
abbrev key : ℕ → String
key zero = ""
key (suc n) = "1" ++ key n

abbrev spread : List ℕ → Bool
spread (a ∷ b ∷ rest) = not (a == b)
spread _ = false

abbrev dataset : List (ℕ × ℕ)
dataset = (10, 100) ∷ (20, 200) ∷ (30, 300) ∷ []

-- The last token depends on the round.
abbrev sampled : ℕ → Rollouts ℕ ℕ
sampled c = record {
  seqs = record {
    width = 2;
    rows = (1 ∷ 2 ∷ []) ∷ (3 ∷ 4 ∷ []) ∷ (5 ∷ 6 ∷ []) ∷ (7 ∷ (7 + c) ∷ []) ∷ [];
  };
  mask = record {
    width = 2;
    rows = (1 ∷ 1 ∷ []) ∷ (1 ∷ 1 ∷ []) ∷ (0 ∷ 1 ∷ []) ∷ (1 ∷ 1 ∷ []) ∷ [];
  };
  plen = 1 ∷ 1 ∷ 1 ∷ 1 ∷ [];
  lp = none;
  rag = [];
}

abbrev one_round : ℕ → List ℕ → Result (Rollouts ℕ ℕ)
one_round c prompts = ok (sampled c)

abbrev compute_rewards : Rollouts ℕ ℕ → List ℕ → Result (List ℕ × List ℕ)
compute_rewards r gts = ok (9 ∷ 8 ∷ 7 ∷ 6 ∷ [], 1 ∷ 1 ∷ 0 ∷ 1 ∷ [])

abbrev config : Config
config = record {
  train_global_batch_size = 2;
  gen_batch_size = 2;
  use_filter = true;
  max_num_gen_batches = 3;
  want_lp = false;
}

-- The second prompt's samples come back, and the cursor is after one round.
collected :
    collect_rollout_batch key spread dataset none one_round compute_rewards config 0 0 2 1
    ≡ ok (
      record {
        sequences = record { width = 2; rows = (5 ∷ 6 ∷ []) ∷ (7 ∷ 8 ∷ []) ∷ [] };
        seq_mask = record { width = 2; rows = (0 ∷ 1 ∷ []) ∷ (1 ∷ 1 ∷ []) ∷ [] };
        prompt_lengths = 1 ∷ 1 ∷ [];
        rewards = 7 ∷ 6 ∷ [];
        gts_expanded = 300 ∷ 300 ∷ [];
        rollout_log_probs = none;
        ragged = [];
      },
      3,
    )
unfolding collect_rollout_batch filter_groups_keep_mask dict_set dict_get map_values
collected = refl
