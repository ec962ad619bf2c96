-- ===== src/RlTrainer/Rollout/Kept.antt =====
-- lumenrl/trainer/rl_trainer.py: what the variables of the collection hold after some rounds, and
-- after a round of which nothing is kept.
use lumen_rl.Base.{
  ℕ, zero, suc, max, if◌then◌else◌, ◌==◌, ==_iff, ◌+◌, ◌*◌, ◌<◌, ◌≡◌, refl, sym, ap, ◌∙◌, Bool,
  List, [], ◌∷◌, ◌++◌, append-nil, map, ltb, length, length-append, flat_map, sum_by, length-map,
  arith, All, keep_where, ok-inj,
}
use lumen_rl.Packing.{count_true}
use lumen_rl.Dapo.Groups.{chosen}
use lumen_rl.RlTrainer.Response.{real_positions}
use lumen_rl.RlTrainer.Rollout.{lpad, widest, expand, pick, Round, Collected, Plan}
use lumen_rl.RlTrainer.Rollout.Sampling.{lpad_all}
use lumen_rl.RlTrainer.Rollout.Groups.{groups}
use lumen_rl.RlTrainer.Rollout.Filtered.{length-expand}
use lumen_rl.RlTrainer.Rollout.Columns.{pick-kept, length-real_positions, count_true-expand}
use lumen_rl.RlTrainer.Rollout.Selected.{
  flat_map-snoc, sum_by-snoc, length-lpad, IsLpSized, length-groups,
}

max_swap : (a b : ℕ) → max a b ≡ max b a
max_swap a b = omega arith

max_assoc : (a b c : ℕ) → max a (max b c) ≡ max (max a b) c
max_assoc a b c = omega arith

max_none : (a : ℕ) → a ≡ max a 0
max_none a = omega arith

module _ {F R G W A : Type 0} (plan : Plan) (spread : List A → Bool) where
  -- Which prompts of a round are kept, and which samples.
  abbrev pub flags : Round F R G W A → List Bool
  flags r = map (chosen spread) (groups plan.gen_prompts plan.g r.accs)

  abbrev pub marks : Round F R G W A → List Bool
  marks r = expand plan.g (flags r)

  -- Every column of a round has an entry for each sample.
  pub record IsSized (r : Round F R G W A) : Type 0 where
    pub seqs : length r.rollouts.seqs.rows ≡ plan.gen_prompts * plan.g
    pub mask : length r.rollouts.mask.rows ≡ plan.gen_prompts * plan.g
    pub plen : length r.rollouts.plen ≡ plan.gen_prompts * plan.g
    pub lp : IsLpSized (plan.gen_prompts * plan.g) r.rollouts.lp
    pub rag : All (λ e. plan.gen_prompts * plan.g ≡ length e.1) r.rollouts.rag
    pub gts : length r.gts ≡ plan.gen_prompts * plan.g
    pub rewards : length r.rewards ≡ plan.gen_prompts * plan.g
    pub accs : length r.accs ≡ plan.gen_prompts * plan.g

  -- The marked entries of a column, over the rounds.
  abbrev pub kept_column :
      {X : Type 0} → (Round F R G W A → List X) → List (Round F R G W A) → List X
  kept_column col rs = flat_map (λ r. keep_where (marks r) (col r)) rs

  -- The width of the widest round of which a prompt is kept.
  abbrev pub share : Round F R G W A → ℕ
  share r = if count_true (flags r) == 0 then 0 else r.rollouts.seqs.width

  abbrev pub kept_width : List (Round F R G W A) → ℕ
  kept_width [] = 0
  kept_width (r ∷ rs) = max (share r) (kept_width rs)

  pub kept_width-snoc :
      (rs : List (Round F R G W A)) (r : Round F R G W A)
      → kept_width (rs ++ r ∷ []) ≡ max (kept_width rs) (share r)
  kept_width-snoc [] r = max_swap (share r) 0
  kept_width-snoc (q ∷ rs) r =
      ap (max (share q)) (kept_width-snoc rs r) ∙ max_assoc (share q) (kept_width rs) (share r)

  -- What the variables hold after the rounds `rs` that began at the cursor `start`.
  pub record Holds (start : ℕ) (rs : List (Round F R G W A)) (s : Collected F R G W) : Type 0 where
    pub rows :
        (width v : ℕ)
        → (lpad_all width v s.acc_rows).rows
          ≡ kept_column (λ r. (lpad width v r.rollouts.seqs).rows) rs
    pub masks :
        (width v : ℕ)
        → (lpad_all width v s.acc_mask).rows
          ≡ kept_column (λ r. (lpad width v r.rollouts.mask).rows) rs
    pub wide : widest s.acc_rows ≡ kept_width rs
    pub plens : s.acc_plen ≡ kept_column (λ r. r.rollouts.plen) rs
    pub gts : s.acc_gts ≡ kept_column (λ r. r.gts) rs
    pub rewards : flat_map (λ ws. ws) s.acc_rewards ≡ kept_column (λ r. r.rewards) rs
    pub kept : s.kept_prompts ≡ sum_by (λ r. count_true (flags r)) rs
    pub cursor : s.prompt_cursor ≡ start + length rs * plan.gen_prompts
    pub non_empty : ltb 0 (length s.acc_rows) ≡ ltb 0 s.kept_prompts

  pub length-marks : (r : Round F R G W A) → length (marks r) ≡ plan.gen_prompts * plan.g
  length-marks r =
      length-expand plan.g (flags r)
      ∙ ap (λ n. n * plan.g)
          (length-map (groups plan.gen_prompts plan.g r.accs) (chosen spread)
            ∙ length-groups plan.gen_prompts plan.g r.accs)

  -- A round of which no sample is marked adds nothing.
  unmarked :
      {X : Type 0} (r : Round F R G W A) (xs : List X)
      → length xs ≡ plan.gen_prompts * plan.g
      → real_positions 0 (marks r) ≡ []
      → keep_where (marks r) xs ≡ []
  unfolding pick
  unmarked r xs l e =
      ok-inj _ _ (sym (pick-kept xs (marks r) (length-marks r ∙ sym l)) ∙ ap (pick xs) e)

  count-unmarked :
      (r : Round F R G W A)
      → 0 < plan.g
      → real_positions 0 (marks r) ≡ []
      → count_true (flags r) ≡ 0
  count-unmarked r h e = no_multiple (count_true (flags r)) plan.g h (
      sym (count_true-expand plan.g (flags r))
      ∙ sym (length-real_positions 0 (marks r))
      ∙ ap length e)
    where
      no_multiple : (a b : ℕ) → 0 < b → a * b ≡ 0 → a ≡ 0
      no_multiple zero b h e = refl
      no_multiple (suc a) b h e = absurd (omega arith)

  module _ (start : ℕ) (rs : List (Round F R G W A)) (r : Round F R G W A) (h : 0 < plan.g)
      (sized : IsSized r) where
    -- The column after a round that adds nothing.
    same_column :
        {X : Type 0} (xs : List X) (col : Round F R G W A → List X)
        → length (col r) ≡ plan.gen_prompts * plan.g
        → real_positions 0 (marks r) ≡ []
        → xs ≡ kept_column col rs
        → xs ≡ kept_column col (rs ++ r ∷ [])
    same_column xs col l e c =
        c
        ∙ sym (
            flat_map-snoc (λ r. keep_where (marks r) (col r)) rs r
            ∙ ap (λ ys. kept_column col rs ++ ys) (unmarked r (col r) l e)
            ∙ append-nil (kept_column col rs))

    pub next_cursor :
        (s : Collected F R G W)
        → Holds start rs s
        → s.prompt_cursor + plan.gen_prompts ≡ start + length (rs ++ r ∷ []) * plan.gen_prompts
    next_cursor s k =
        let size : suc (length rs) ≡ length (rs ++ r ∷ []) =
          omega (arith, length-append rs (r ∷ [])) in
        let moved : s.prompt_cursor + plan.gen_prompts
            ≡ start + suc (length rs) * plan.gen_prompts =
          omega (arith, k.cursor) in
        moved ∙ ap (λ n. start + n * plan.gen_prompts) size

    pub skipped-Holds :
        (s : Collected F R G W)
        → Holds start rs s
        → real_positions 0 (marks r) ≡ []
        → Holds start
            (rs ++ r ∷ [])
            (record s { prompt_cursor = s.prompt_cursor + plan.gen_prompts })
    skipped-Holds s k e = record {
      rows = λ width v.
          same_column _ (λ r. (lpad width v r.rollouts.seqs).rows)
            (length-lpad width v r.rollouts.seqs ∙ sized.seqs) e (k.rows width v);
      masks = λ width v.
          same_column _ (λ r. (lpad width v r.rollouts.mask).rows)
            (length-lpad width v r.rollouts.mask ∙ sized.mask) e (k.masks width v);
      wide =
          k.wide
          ∙ max_none (kept_width rs)
          ∙ ap (λ b. max (kept_width rs) (if b then 0 else r.rollouts.seqs.width))
              (sym ((==_iff (count_true (flags r)) 0).1 (count-unmarked r h e)))
          ∙ sym (kept_width-snoc rs r);
      plens = same_column _ (λ r. r.rollouts.plen) sized.plen e k.plens;
      gts = same_column _ (λ r. r.gts) sized.gts e k.gts;
      rewards = same_column _ (λ r. r.rewards) sized.rewards e k.rewards;
      kept =
          omega (arith, k.kept, sum_by-snoc (λ r. count_true (flags r)) rs r, count-unmarked r h e);
      cursor = next_cursor s k;
      non_empty = k.non_empty;
    }
