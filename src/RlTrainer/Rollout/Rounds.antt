-- ===== src/RlTrainer/Rollout/Rounds.antt =====
-- lumenrl/trainer/rl_trainer.py: the kept samples of the rounds of `_collect_rollout_batch`,
-- prompt by prompt.
use lumen_rl.Base.{
  ℕ, ◌*◌, ◌≡◌, refl, sym, subst, ap, ap₂, ◌∙◌, Bool, List, [], ◌∷◌, ◌++◌, length, length-map, take,
  flat_map, flat_map-append, sum_by, All, All-append, keep_where,
}
use lumen_rl.Packing.{count_true}
use lumen_rl.Dapo.Groups.{chosen}
use lumen_rl.RlTrainer.Rollout.{lpad, Round, Batch, Plan}
use lumen_rl.RlTrainer.Rollout.Groups.{groups}
use lumen_rl.RlTrainer.Rollout.Columns.{
  joined, Grouped, keep_where-expand, groups-Grouped, take-joined,
}
use lumen_rl.RlTrainer.Rollout.Selected.{length-groups}
use lumen_rl.RlTrainer.Rollout.Kept.{flags, marks, kept_column, kept_width}

joined-append : {X : Type 0} (xs ys : List (List X)) → joined (xs ++ ys) ≡ joined xs ++ joined ys
joined-append xs ys = flat_map-append (λ x. x) xs ys

module _ {F R G W A : Type 0} (plan : Plan) (spread : List A → Bool) where
  -- The groups of a column that are kept over the rounds, one for each kept prompt.
  abbrev pub chosen_groups :
      {X : Type 0} → (Round F R G W A → List X) → List (Round F R G W A) → List (List X)
  chosen_groups col rs =
      flat_map (λ r. keep_where (flags plan spread r) (groups plan.gen_prompts plan.g (col r))) rs

  abbrev pub prompts_kept : List (Round F R G W A) → ℕ
  prompts_kept rs = sum_by (λ r. count_true (flags plan spread r)) rs

  -- The samples of the first prompts that were kept, in every column, padded at the left where the
  -- column is a grid, to the width of the widest round of which a prompt was kept.
  pub record IsBatch (pad_id : ℕ) (rs : List (Round F R G W A)) (b : Batch F R G W) : Type 0 where
    pub width : b.sequences.width ≡ kept_width plan spread rs
    pub mask_width : b.seq_mask.width ≡ kept_width plan spread rs
    pub sequences :
        b.sequences.rows
        ≡ joined (
            take plan.train_prompts
              (chosen_groups (λ r. (lpad b.sequences.width pad_id r.rollouts.seqs).rows) rs))
    pub seq_mask :
        b.seq_mask.rows
        ≡ joined (
            take plan.train_prompts
              (chosen_groups (λ r. (lpad b.sequences.width 0 r.rollouts.mask).rows) rs))
    pub prompt_lengths :
        b.prompt_lengths
        ≡ joined (take plan.train_prompts (chosen_groups (λ r. r.rollouts.plen) rs))
    pub rewards : b.rewards ≡ joined (take plan.train_prompts (chosen_groups (λ r. r.rewards) rs))
    pub gts_expanded :
        b.gts_expanded ≡ joined (take plan.train_prompts (chosen_groups (λ r. r.gts) rs))

  pub length-flags : (r : Round F R G W A) → length (flags plan spread r) ≡ plan.gen_prompts
  length-flags r =
      length-map (groups plan.gen_prompts plan.g r.accs) (chosen spread)
      ∙ length-groups plan.gen_prompts plan.g r.accs

  module _ {X : Type 0} (col : Round F R G W A → List X) where
    abbrev pub AllLong : List (Round F R G W A) → Type 0
    AllLong rs = All (λ r. length (col r) ≡ plan.gen_prompts * plan.g) rs

    round-groups :
        (r : Round F R G W A)
        → length (col r) ≡ plan.gen_prompts * plan.g
        → (keep_where (marks plan spread r) (col r)
            ≡ joined (keep_where (flags plan spread r) (groups plan.gen_prompts plan.g (col r))))
          × Grouped plan.g
              (keep_where (flags plan spread r) (groups plan.gen_prompts plan.g (col r)))
    round-groups r l =
        let e = length-flags r in
        let l' : length (col r) ≡ length (flags plan spread r) * plan.g =
          l ∙ ap (λ n. n * plan.g) (sym e) in
        (
          keep_where-expand plan.g (flags plan spread r) (col r) l'
              ∙ ap (λ n. joined (keep_where (flags plan spread r) (groups n plan.g (col r)))) e,
          subst (λ n. Grouped plan.g (keep_where (flags plan spread r) (groups n plan.g (col r)))) e
              (groups-Grouped (flags plan spread r) plan.g (col r) l'),
        )

    pub kept_column-groups :
        (rs : List (Round F R G W A))
        → AllLong rs
        → (kept_column plan spread col rs ≡ joined (chosen_groups col rs))
          × Grouped plan.g (chosen_groups col rs)
    kept_column-groups [] a = (refl, tt)
    kept_column-groups (r ∷ rs) (l, a) =
        let (e, d) = round-groups r l in
        let (f, ds) = kept_column-groups rs a in
        (
          ap₂ ◌++◌ e f
              ∙ sym (
                  joined-append
                    (keep_where (flags plan spread r) (groups plan.gen_prompts plan.g (col r)))
                    (chosen_groups col rs)),
          All-append (λ xs. length xs ≡ plan.g) _ _ d ds,
        )

    -- What is left of a column when it is cut to the rows of the prompts wanted.
    pub taken-groups :
        (rs : List (Round F R G W A)) (xs : List X)
        → AllLong rs
        → xs ≡ kept_column plan spread col rs
        → take (plan.train_prompts * plan.g) xs
          ≡ joined (take plan.train_prompts (chosen_groups col rs))
    taken-groups rs xs a e =
        let (f, d) = kept_column-groups rs a in
        ap (take (plan.train_prompts * plan.g)) (e ∙ f) ∙ take-joined plan.train_prompts plan.g _ d
