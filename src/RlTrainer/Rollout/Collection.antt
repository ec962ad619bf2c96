-- ===== src/RlTrainer/Rollout/Collection.antt =====
-- lumenrl/trainer/rl_trainer.py: what `_collect_rollout_batch` returns with dynamic sampling.
use lumen_rl.Base.{
  ℕ, ◌+◌, ◌*◌, ◌<◌, ◌≡◌, Bool, List, ◌⊎◌, length, min, Result, ok, err, runtime_error,
}
use lumen_rl.RlTrainer.Rollout.{Round, Batch, Plan}
use lumen_rl.RlTrainer.Rollout.Rounds.{prompts_kept, IsBatch}
use lumen_rl.RlTrainer.Rollout.Played.{Played}

-- The batch that is returned, or the error.
abbrev pub Outcome :
    {F R G W A : Type 0}
    → Plan
    → (List A → Bool)
    → ℕ
    → ℕ
    → List (Round F R G W A)
    → Result (Batch F R G W × ℕ)
    → Type 0
Outcome {F} {R} {G} {W} plan spread pad_id cursor rs result =
    ((prompts_kept plan spread rs ≡ 0) × (result ≡ err runtime_error))
    ⊎ ((0 < prompts_kept plan spread rs)
        × (b : Batch F R G W) × (result ≡ ok (b, cursor + length rs * plan.gen_prompts))
        × IsBatch plan spread pad_id rs b
        × (length b.rewards ≡ min plan.train_prompts (prompts_kept plan spread rs) * plan.g))
