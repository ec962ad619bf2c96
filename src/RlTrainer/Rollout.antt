-- ===== src/RlTrainer/Rollout.antt =====
-- lumenrl/trainer/rl_trainer.py: the prompts of a step (`_get_prompts_range`) and the collection of a
-- rollout batch with dynamic sampling (`_collect_rollout_batch`). The generation of sequences and the
-- rewards are parameters; the dataset is the prompts and ground truths that
-- `_extract_prompt_gt` reads from it. The texts of the responses are left out.
pub mod Sampling
pub mod Groups
pub mod Filtered
pub mod Columns
pub mod Selected
pub mod Kept
pub mod Added
pub mod Rounds
pub mod Prompts
pub mod Played
pub mod Collection
use lumen_rl.Base.{
  ℕ, zero, suc, ◌+◌, ◌-◌, ◌*◌, ◌/◌, ◌%◌, Bool, true, false, ◌&&◌, List, [], ◌∷◌, ◌++◌, map,
  if◌then◌else◌, ltb, leb, length, take, drop, max, range, range_from, replicate, flat_map, gather,
  map_values, traverse, traverse_values, dict_get, dict_set, String, Option, some, none, Result, ok,
  err, ◌>>=◌, ◌>>◌, guard, zero_division_error, runtime_error,
}
use lumen_rl.Base.Int.{ℤ, pos}
use lumen_rl.Dapo.{filter_groups_keep_mask}
use lumen_rl.RlTrainer.Response.{real_positions}

-- A 2-D tensor: `shape[1]` and its rows.
pub record Grid (V : Type 0) : Type 0 where
  pub width : ℕ
  pub rows : List (List V)

-- `_lpad`.
unfoldable pub lpad : {V : Type 0} → ℕ → V → Grid V → Grid V
lpad width value t =
    if leb width t.width
    then record { width = width; rows = map (drop (t.width - width)) t.rows }
    else record {
      width = width;
      rows = map (λ row. replicate (width - t.width) value ++ row) t.rows;
    }

-- `max(t.shape[1] for t in ts)`, and 0 without tensors.
unfoldable pub widest : {V : Type 0} → List (Grid V) → ℕ
widest [] = 0
widest (t ∷ ts) = max t.width (widest ts)

module _ {A : Type 0} where
  -- `[xs[i] for i in kept_idx]`.
  unfoldable pub pick : List A → List ℕ → Result (List A)
  pick xs kept_idx = gather xs (map pos kept_idx)

  -- `[x for x in xs for _ in range(g)]`.
  unfoldable pub expand : ℕ → List A → List A
  expand g xs = flat_map (replicate g) xs

-- `t[kept_idx]`.
unfoldable pub pick_rows : {V : Type 0} → Grid V → List ℕ → Result (Grid V)
unfolding pick
pick_rows t kept_idx = pick t.rows kept_idx >>= λ rows. ok (record { width = t.width; rows = rows })

unfoldable pub permuted : Option (List ℕ) → List ℕ → Result (List ℕ)
unfolding pick
permuted none indices = ok indices
permuted (some perm) indices = pick perm indices

module _ {P G : Type 0} (dataset : List (P × G)) where
  unfoldable pub window : ℕ → ℕ → Result (List ℕ)
  window start zero = ok []
  window start (suc count) =
      guard (ltb 0 (length dataset)) zero_division_error
      >> ok (map (λ i. (start + i) % length dataset) (range (suc count)))

module _ {P G : Type 0} (dataset : List (P × G)) (prompt_perm : Option (List ℕ)) where
  -- `_get_prompts_range`, with a dataset.
  unfoldable pub get_prompts_range : ℕ → ℕ → Result (List P × List G)
  unfolding window permuted pick
  get_prompts_range start count = do
    indices ← window dataset start count
    chosen ← permuted prompt_perm indices
    samples ← pick dataset chosen
    ok (map (λ s. s.0) samples, map (λ s. s.1) samples)

-- What a round of generation gives: sequences, masks, prompt lengths, log probabilities, and ragged
-- columns.
pub record Rollouts (F R : Type 0) : Type 0 where
  pub seqs : Grid ℕ
  pub mask : Grid ℕ
  pub plen : List ℕ
  pub lp : Option (Grid F)
  pub rag : List (String × List R)

-- A round with its ground truths, rewards and accuracies.
pub record Round (F R G W A : Type 0) : Type 0 where
  pub rollouts : Rollouts F R
  pub gts : List G
  pub rewards : List W
  pub accs : List A

-- What `_collect_rollout_batch` returns.
pub record Batch (F R G W : Type 0) : Type 0 where
  pub sequences : Grid ℕ
  pub seq_mask : Grid ℕ
  pub prompt_lengths : List ℕ
  pub rewards : List W
  pub gts_expanded : List G
  pub rollout_log_probs : Option (Grid F)
  pub ragged : List (String × List R)

-- The variables of the loop.
pub record Collected (F R G W : Type 0) : Type 0 where
  pub prompt_cursor : ℕ
  pub acc_rows : List (Grid ℕ)
  pub acc_mask : List (Grid ℕ)
  pub acc_lp : List (Grid F)
  pub acc_plen : List ℕ
  pub acc_rewards : List (List W)
  pub acc_gts : List G
  pub acc_ragged : List (String × List R)
  pub kept_prompts : ℕ

-- The configuration: generations of a prompt, prompts of a round, prompts to collect, and whether
-- log probabilities are wanted.
pub record Plan : Type 0 where
  pub g : ℕ
  pub gen_prompts : ℕ
  pub train_prompts : ℕ
  pub want_lp : Bool

module _ {P F R G W A : Type 0} (plan : Plan) (dataset : List (P × G))
    (prompt_perm : Option (List ℕ)) (one_round : ℕ → List P → Result (Rollouts F R))
    (compute_rewards : Rollouts F R → List G → Result (List W × List A)) where
  -- A round from a cursor: prompts, sequences, rewards. Generation is sampled, so what it gives
  -- depends on the round; the rounds of a collection have different cursors.
  unfoldable pub round_at : ℕ → Result (Round F R G W A)
  unfolding get_prompts_range expand
  round_at cursor = do
    (prompts, gts) ← get_prompts_range dataset prompt_perm cursor plan.gen_prompts
    rollouts ← one_round cursor prompts
    let gts_exp = expand plan.g gts
    (rewards, accs) ← compute_rewards rollouts gts_exp
    ok (record { rollouts = rollouts; gts = gts_exp; rewards = rewards; accs = accs })

  -- The path without dynamic sampling.
  unfoldable pub collect_simple : ℕ → Result (Batch F R G W × ℕ)
  unfolding round_at
  collect_simple cursor = do
    r ← round_at cursor
    ok (
      record {
        sequences = r.rollouts.seqs;
        seq_mask = r.rollouts.mask;
        prompt_lengths = r.rollouts.plen;
        rewards = r.rewards;
        gts_expanded = r.gts;
        rollout_log_probs = r.rollouts.lp;
        ragged = r.rollouts.rag;
      },
      cursor + plan.gen_prompts,
    )
