-- ===== src/RlTrainer/Rollout/Played.antt =====
-- lumenrl/trainer/rl_trainer.py: the rounds that `_collect_rollout_batch` plays, and the batch that it
-- makes of them.
use lumen_rl.Base.{
  not_ltb→le, ltb→lt, ℕ, zero, suc, ◌+◌, ◌*◌, ◌≤◌, ◌<◌, ◌≡◌, refl, sym, subst, ap, ◌∙◌, Bool, false,
  List, [], ◌∷◌, ◌++◌, append-nil, append_assoc, ltb, Bool-cases, inl, inr, length, length-append,
  String, str_eq, Option, Result, ok, ◌>>=◌, arith, All,
}
use lumen_rl.Packing.{count_true}
use lumen_rl.RlTrainer.Rollout.{
  lpad, widest, expand, get_prompts_range, Rollouts, Round, Collected, Plan, round_at,
}
use lumen_rl.RlTrainer.Rollout.Sampling.{
  lpad_all, cat_rows, take_grid, join_rounds, filter_round, collect_round, collect_rounds,
}
use lumen_rl.RlTrainer.Rollout.Filtered.{length-expand}
use lumen_rl.RlTrainer.Rollout.Selected.{sum_by-snoc, length-lpad}
use lumen_rl.RlTrainer.Rollout.Kept.{flags, IsSized, Holds}
use lumen_rl.RlTrainer.Rollout.Added.{filter_round-Holds}
use lumen_rl.RlTrainer.Rollout.Rounds.{IsBatch, AllLong, taken-groups}
use lumen_rl.RlTrainer.Rollout.Prompts.{IsPermutation, prompts-ok}

module _ {P F R G W A : Type 0} (plan : Plan) (spread : List A → Bool) (dataset : List (P × G))
    (perm : Option (List ℕ)) (one_round : ℕ → List P → Result (Rollouts F R))
    (compute_rewards : Rollouts F R → List G → Result (List W × List A)) where
  -- For the prompts at a cursor generation and rewards succeed, and give each column an entry for
  -- each sample.
  pub record Generates : Type 0 where
    pub rollouts_at : ℕ → Rollouts F R
    pub rewards_at : ℕ → List W
    pub accs_at : ℕ → List A
    pub succeeds :
        (c : ℕ) (ps : List P) (gts : List G)
        → get_prompts_range dataset perm c plan.gen_prompts ≡ ok (ps, gts)
        → length (expand plan.g gts) ≡ plan.gen_prompts * plan.g
        → (one_round c ps ≡ ok (rollouts_at c))
          × (compute_rewards (rollouts_at c) (expand plan.g gts) ≡ ok (rewards_at c, accs_at c))
          × IsSized plan spread (record {
            rollouts = rollouts_at c;
            gts = expand plan.g gts;
            rewards = rewards_at c;
            accs = accs_at c;
          })

module _ {P F R G W A : Type 0} (plan : Plan) (spread : List A → Bool) (dataset : List (P × G))
    (perm : Option (List ℕ)) (one_round : ℕ → List P → Result (Rollouts F R))
    (compute_rewards : Rollouts F R → List G → Result (List W × List A)) where
  -- The rounds that are played from a cursor on, with `kept` prompts kept and as many rounds left:
  -- a round is played exactly as long as there are too few prompts and a round is left.
  abbrev pub Played : ℕ → ℕ → ℕ → List (Round F R G W A) → Type 0
  Played zero c kept [] = Unit
  Played zero c kept (r ∷ rs) = ⊥
  Played (suc n) c kept [] = plan.train_prompts ≤ kept
  Played (suc n) c kept (r ∷ rs) =
      (kept < plan.train_prompts)
      × (round_at plan dataset perm one_round compute_rewards c ≡ ok r)
      × IsSized plan spread r
      × Played n (c + plan.gen_prompts) (kept + count_true (flags plan spread r)) rs

module _ {P F R G W A : Type 0} (plan : Plan) (h : 0 < plan.g) (key : ℕ → String)
    (differ : (i j : ℕ) → i < j → str_eq (key i) (key j) ≡ false) (spread : List A → Bool)
    (dataset : List (P × G)) (perm : Option (List ℕ))
    (one_round : ℕ → List P → Result (Rollouts F R))
    (compute_rewards : Rollouts F R → List G → Result (List W × List A))
    (gen : Generates plan spread dataset perm one_round compute_rewards)
    (some_data : 0 < length dataset) (is_perm : IsPermutation dataset perm) where
  round_at-ok :
      (c : ℕ)
      → (r : Round F R G W A) × (round_at plan dataset perm one_round compute_rewards c ≡ ok r)
        × IsSized plan spread r
  unfolding round_at
  round_at-ok c =
      let (ps, gts, e, l, l') = prompts-ok dataset perm c plan.gen_prompts some_data is_perm in
      let (made, rewarded, sized) =
        gen.succeeds c ps gts e (length-expand plan.g gts ∙ ap (λ n. n * plan.g) l') in
      (_, rw (e, made, rewarded) refl, sized)

  collect_round-Holds :
      (start : ℕ) (rs : List (Round F R G W A)) (s : Collected F R G W)
      → Holds plan spread start rs s
      → (r : Round F R G W A) × (round_at plan dataset perm one_round compute_rewards
            s.prompt_cursor
          ≡ ok r)
        × IsSized plan spread r
        × (s' : Collected F R G W) × (collect_round plan key spread dataset perm one_round
              compute_rewards s
            ≡ ok s')
        × Holds plan spread start (rs ++ r ∷ []) s'
  unfolding collect_round
  collect_round-Holds start rs s k =
      let (r, e, sized) = round_at-ok s.prompt_cursor in
      let (s', f, k') = filter_round-Holds plan spread start rs r h sized key differ s k in
      (
        r,
        e,
        sized,
        s',
        ap
              (λ o. o >>= λ r.
                filter_round plan key spread r
                  (record s { prompt_cursor = s.prompt_cursor + plan.gen_prompts }))
              e
            ∙ f,
        k',
      )

  pub collect_rounds-Holds :
      (n start : ℕ) (rs : List (Round F R G W A)) (s : Collected F R G W)
      → Holds plan spread start rs s
      → (later : List (Round F R G W A)) × (s' : Collected F R G W) × (collect_rounds plan key
            spread dataset perm one_round compute_rewards n s
          ≡ ok s')
        × Played plan spread dataset perm one_round compute_rewards n s.prompt_cursor s.kept_prompts
            later
        × Holds plan spread start (rs ++ later) s'
  unfolding collect_rounds
  collect_rounds-Holds zero start rs s k =
      ([], s, refl, tt, subst (λ l. Holds plan spread start l s) (sym (append-nil rs)) k)
  collect_rounds-Holds (suc n) start rs s k =
      elim (Bool-cases (ltb s.kept_prompts plan.train_prompts)) [
        | inl more ↦
            let (r, e, sized, s₁, f, k₁) = collect_round-Holds start rs s k in
            let (later, s', f', p, k') = collect_rounds-Holds n start (rs ++ r ∷ []) s₁ k₁ in
            (
              r ∷ later,
              s',
              rw more (
                  ap
                    (λ o.
                      o >>= collect_rounds plan key spread dataset perm one_round compute_rewards n)
                    f
                  ∙ f'),
              (
                ltb→lt s.kept_prompts plan.train_prompts more,
                e,
                sized,
                subst
                    (λ c.
                      Played plan spread dataset perm one_round compute_rewards n c
                        (s.kept_prompts + count_true (flags plan spread r)) later)
                    (moved start rs r s s₁ k k₁)
                    (subst
                      (λ m.
                        Played plan spread dataset perm one_round compute_rewards n s₁.prompt_cursor
                          m later)
                      (omega (
                        arith,
                        k.kept,
                        k₁.kept,
                        sum_by-snoc (λ r. count_true (flags plan spread r)) rs r,
                      ))
                      p),
              ),
              subst (λ l. Holds plan spread start l s') (append_assoc rs (r ∷ []) later) k',
            )
        | inr enough ↦ (
          [],
          s,
          rw enough refl,
          not_ltb→le s.kept_prompts plan.train_prompts enough,
          subst (λ l. Holds plan spread start l s) (sym (append-nil rs)) k,
        )
      ]
    where
      moved :
          (start : ℕ) (rs : List (Round F R G W A)) (r : Round F R G W A) (s s₁ : Collected F R G W)
          → Holds plan spread start rs s
          → Holds plan spread start (rs ++ r ∷ []) s₁
          → s₁.prompt_cursor ≡ s.prompt_cursor + plan.gen_prompts
      moved start rs r s s₁ k k₁ =
          let size : length (rs ++ r ∷ []) ≡ suc (length rs) =
            omega (arith, length-append rs (r ∷ [])) in
          let at : start + length (rs ++ r ∷ []) * plan.gen_prompts
              ≡ start + suc (length rs) * plan.gen_prompts =
            ap (λ m. start + m * plan.gen_prompts) size in
          omega (arith, k.cursor, k₁.cursor, at)

module _ {P F R G W A : Type 0} (plan : Plan) (spread : List A → Bool) (dataset : List (P × G))
    (perm : Option (List ℕ)) (one_round : ℕ → List P → Result (Rollouts F R))
    (compute_rewards : Rollouts F R → List G → Result (List W × List A)) where
  pub columns_long :
      (n c kept : ℕ) (rs : List (Round F R G W A))
      → Played plan spread dataset perm one_round compute_rewards n c kept rs
      → All (IsSized plan spread) rs
  columns_long zero c kept [] p = tt
  columns_long zero c kept (r ∷ rs) p = absurd p
  columns_long (suc n) c kept [] p = tt
  columns_long (suc n) c kept (r ∷ rs) (lt, e, sized, p) = (sized, columns_long n _ _ rs p)

module _ {F R G W A : Type 0} (plan : Plan) (spread : List A → Bool) where
  pub long :
      {X : Type 0} (col : Round F R G W A → List X)
      → ((r : Round F R G W A) → IsSized plan spread r → length (col r) ≡ plan.gen_prompts * plan.g)
      → (rs : List (Round F R G W A)) → All (IsSized plan spread) rs
      → AllLong plan spread col rs
  long col each [] a = tt
  long col each (r ∷ rs) (sized, a) = (each r sized, long col each rs a)

  pub join_rounds-IsBatch :
      (pad_id start : ℕ) (no_lp : F) (rs : List (Round F R G W A)) (s : Collected F R G W)
      → All (IsSized plan spread) rs
      → Holds plan spread start rs s
      → IsBatch plan spread pad_id rs (join_rounds plan pad_id no_lp s)
  unfolding join_rounds take_grid lpad_all cat_rows
  join_rounds-IsBatch pad_id start no_lp rs s a k = record {
    width = k.wide;
    mask_width = k.wide;
    sequences =
        taken-groups plan spread (λ r. (lpad (widest s.acc_rows) pad_id r.rollouts.seqs).rows) rs _
          (long _ (λ r sized. length-lpad (widest s.acc_rows) pad_id r.rollouts.seqs ∙ sized.seqs)
            rs a)
          (k.rows (widest s.acc_rows) pad_id);
    seq_mask =
        taken-groups plan spread (λ r. (lpad (widest s.acc_rows) 0 r.rollouts.mask).rows) rs _
          (long _ (λ r sized. length-lpad (widest s.acc_rows) 0 r.rollouts.mask ∙ sized.mask) rs a)
          (k.masks (widest s.acc_rows) 0);
    prompt_lengths =
        taken-groups plan spread (λ r. r.rollouts.plen) rs _ (long _ (λ r sized. sized.plen) rs a)
          k.plens;
    rewards =
        taken-groups plan spread (λ r. r.rewards) rs _ (long _ (λ r sized. sized.rewards) rs a)
          k.rewards;
    gts_expanded =
        taken-groups plan spread (λ r. r.gts) rs _ (long _ (λ r sized. sized.gts) rs a) k.gts;
  }
