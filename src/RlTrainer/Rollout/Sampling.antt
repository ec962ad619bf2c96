-- ===== src/RlTrainer/Rollout/Sampling.antt =====
-- lumenrl/trainer/rl_trainer.py: the rounds of `_collect_rollout_batch` with dynamic sampling. An int
-- used as a dictionary key is the text that `key` gives it. `torch.cat` joins grids of one width.
use lumen_rl.Base.{
  ℕ, zero, suc, ◌+◌, ◌-◌, ◌*◌, ◌/◌, Bool, true, not, ◌&&◌, List, [], ◌∷◌, ◌++◌, map, if◌then◌else◌,
  ltb, length, take, max, range, flat_map, map_values, dict_get, dict_set, String, Option, some,
  none, Result, ok, ◌>>=◌, ◌>>◌, guard, zero_division_error, runtime_error,
}
use lumen_rl.Dapo.{filter_groups_keep_mask}
use lumen_rl.RlTrainer.Response.{real_positions}
use lumen_rl.RlTrainer.Rollout.{
  Grid, lpad, widest, pick, pick_rows, Rollouts, Round, Batch, Collected, Plan, round_at,
  collect_simple,
}

-- `torch.cat(ts, dim=0)` for grids with this width.
unfoldable pub cat_rows : {V : Type 0} → ℕ → List (Grid V) → Grid V
cat_rows width ts = record { width = width; rows = flat_map (λ t. t.rows) ts }

unfoldable pub lpad_all : {V : Type 0} → ℕ → V → List (Grid V) → Grid V
unfolding cat_rows lpad
lpad_all width value ts = cat_rows width (map (lpad width value) ts)

unfoldable pub take_grid : {V : Type 0} → ℕ → Grid V → Grid V
take_grid n t = record { width = t.width; rows = take n t.rows }

module _ {R : Type 0} where
  -- `acc_ragged.setdefault(key, [])`.
  unfoldable pub rows_or_nil : Option (List R) → List R
  rows_or_nil none = []
  rows_or_nil (some rows) = rows

  unfoldable pub extend_ragged :
      List ℕ → List (String × List R) → List (String × List R) → Result (List (String × List R))
  unfolding pick rows_or_nil
  extend_ragged kept_idx [] acc = ok acc
  extend_ragged kept_idx ((key, rows) ∷ rag) acc = pick rows kept_idx >>= λ kept.
      extend_ragged kept_idx rag (dict_set key (rows_or_nil (dict_get key acc) ++ kept) acc)

-- `if want_lp and lp is not None: acc_lp.append(lp[kept_idx])`.
unfoldable pub append_lp :
    {F : Type 0} → Bool → List ℕ → Option (Grid F) → List (Grid F) → Result (List (Grid F))
unfolding pick_rows
append_lp true kept_idx (some lp) acc = pick_rows lp kept_idx >>= λ kept. ok (acc ++ kept ∷ [])
append_lp _ kept_idx lp acc = ok acc

module _ {F R G W A : Type 0} (plan : Plan) where
  -- The rows of a round that are kept, of `kept` prompts.
  unfoldable pub append_kept :
      List ℕ → ℕ → Round F R G W A → Collected F R G W → Result (Collected F R G W)
  unfolding pick pick_rows append_lp extend_ragged
  append_kept [] kept r s = ok s
  append_kept (i ∷ is) kept r s = do
    rows ← pick_rows r.rollouts.seqs (i ∷ is)
    mask ← pick_rows r.rollouts.mask (i ∷ is)
    rewards ← pick r.rewards (i ∷ is)
    lps ← append_lp plan.want_lp (i ∷ is) r.rollouts.lp s.acc_lp
    plens ← pick r.rollouts.plen (i ∷ is)
    gts ← pick r.gts (i ∷ is)
    ragged ← extend_ragged (i ∷ is) r.rollouts.rag s.acc_ragged
    ok (record s {
      acc_rows = s.acc_rows ++ rows ∷ [];
      acc_mask = s.acc_mask ++ mask ∷ [];
      acc_rewards = s.acc_rewards ++ rewards ∷ [];
      acc_lp = lps;
      acc_plen = s.acc_plen ++ plens;
      acc_gts = s.acc_gts ++ gts;
      acc_ragged = ragged;
      kept_prompts = s.kept_prompts + kept;
    })

module _ {F R G W : Type 0} (plan : Plan) where
  -- What is returned after the loop.
  unfoldable pub join_rounds : ℕ → F → Collected F R G W → Batch F R G W
  unfolding widest lpad_all take_grid
  join_rounds pad_id no_lp s =
      let s_max = widest s.acc_rows in
      let keep_rows = plan.train_prompts * plan.g in
      record {
        sequences = take_grid keep_rows (lpad_all s_max pad_id s.acc_rows);
        seq_mask = take_grid keep_rows (lpad_all s_max 0 s.acc_mask);
        prompt_lengths = take keep_rows s.acc_plen;
        rewards = take keep_rows (flat_map (λ rewards. rewards) s.acc_rewards);
        gts_expanded = take keep_rows s.acc_gts;
        rollout_log_probs = elim s.acc_lp [
          | [] ↦ none
          | lp ∷ lps ↦ some (take_grid keep_rows (lpad_all (s_max - 1) no_lp (lp ∷ lps)))
        ];
        ragged = map_values (take keep_rows) s.acc_ragged;
      }

  unfoldable pub finish : ℕ → F → Collected F R G W → Result (Batch F R G W × ℕ)
  unfolding join_rounds
  finish pad_id no_lp s =
      guard (ltb 0 (length s.acc_rows)) runtime_error
      >> ok (join_rounds pad_id no_lp s, s.prompt_cursor)

module _ {F R G W A : Type 0} (plan : Plan) where
  module _ (key : ℕ → String) (spread : List A → Bool) where
    unfoldable pub filter_round : Round F R G W A → Collected F R G W → Result (Collected F R G W)
    unfolding append_kept real_positions
    filter_round r s = do
      let uids = map (λ i. key (i / plan.g)) (range (length r.rollouts.seqs.rows))
      (keep_mask, kept_uids) ← filter_groups_keep_mask spread r.accs uids
      append_kept plan (real_positions 0 keep_mask) (length kept_uids) r s

    module _ {P : Type 0} (dataset : List (P × G)) (prompt_perm : Option (List ℕ))
        (one_round : ℕ → List P → Result (Rollouts F R))
        (compute_rewards : Rollouts F R → List G → Result (List W × List A)) where
      unfoldable pub collect_round : Collected F R G W → Result (Collected F R G W)
      unfolding round_at filter_round
      collect_round s =
          round_at plan dataset prompt_perm one_round compute_rewards s.prompt_cursor >>= λ r.
          filter_round r (record s { prompt_cursor = s.prompt_cursor + plan.gen_prompts })

      -- The loop, for as many rounds as are left.
      unfoldable pub collect_rounds : ℕ → Collected F R G W → Result (Collected F R G W)
      unfolding collect_round
      collect_rounds zero s = ok s
      collect_rounds (suc rounds_left) s =
          if ltb s.kept_prompts plan.train_prompts
          then collect_round s >>= collect_rounds rounds_left
          else ok s

unfoldable pub empty : {F R G W : Type 0} → ℕ → Collected F R G W
empty cursor = record {
  prompt_cursor = cursor;
  acc_rows = [];
  acc_mask = [];
  acc_lp = [];
  acc_plen = [];
  acc_rewards = [];
  acc_gts = [];
  acc_ragged = [];
  kept_prompts = 0;
}

-- The part of the configuration that is read.
pub record Config : Type 0 where
  pub train_global_batch_size : ℕ
  pub gen_batch_size : ℕ
  pub use_filter : Bool
  pub max_num_gen_batches : ℕ
  pub want_lp : Bool

unfoldable pub plan_of : Config → ℕ → Plan
plan_of c g =
    let train_prompts = max 1 (c.train_global_batch_size / g) in
    record {
      g = g;
      gen_prompts =
          if c.use_filter && ltb 0 c.gen_batch_size then c.gen_batch_size else train_prompts;
      train_prompts = train_prompts;
      want_lp = c.want_lp;
    }

unfoldable pub max_rounds : Config → ℕ
max_rounds c = if ltb 0 c.max_num_gen_batches then c.max_num_gen_batches else 10000

module _ {P F R G W A : Type 0} (key : ℕ → String) (spread : List A → Bool) (dataset : List (P × G))
    (prompt_perm : Option (List ℕ)) (one_round : ℕ → List P → Result (Rollouts F R))
    (compute_rewards : Rollouts F R → List G → Result (List W × List A)) where
  -- `_collect_rollout_batch`: the batch and the cursor after it.
  unfoldable pub collect_rollout_batch : Config → ℕ → F → ℕ → ℕ → Result (Batch F R G W × ℕ)
  unfolding collect_rounds collect_simple plan_of max_rounds empty finish
  collect_rollout_batch c pad_id no_lp g cursor = do
    guard (ltb 0 g) zero_division_error
    let plan = plan_of c g
    if not c.use_filter
        then collect_simple plan dataset prompt_perm one_round compute_rewards cursor
        else (collect_rounds plan key spread dataset prompt_perm one_round compute_rewards
              (max_rounds c) (empty cursor)
            >>= finish plan pad_id no_lp)
