-- ===== src/RlTrainer/Rollout/Added.antt =====
-- lumenrl/trainer/rl_trainer.py: a round of the collection adds, column by column, the samples that
-- the filter marks.
use lumen_rl.Base.{
  ℕ, zero, suc, max, if◌then◌else◌, ◌==◌, ◌+◌, ◌*◌, ◌/◌, ◌<◌, ◌≡◌, refl, sym, subst, ap, ap₂, ◌∙◌,
  Bool, false, List, [], ◌∷◌, ◌++◌, map, ltb, length, length-append, range, String, str_eq, ok,
  ◌>>=◌, arith, All, keep_where,
}
use lumen_rl.Packing.{count_true}
use lumen_rl.Dapo.{filter_groups_keep_mask}
use lumen_rl.RlTrainer.Response.{real_positions}
use lumen_rl.RlTrainer.Rollout.{Grid, lpad, widest, pick, pick_rows, Round, Collected, Plan}
use lumen_rl.RlTrainer.Rollout.Sampling.{extend_ragged, append_lp, append_kept, filter_round}
use lumen_rl.RlTrainer.Rollout.Filtered.{filter-round}
use lumen_rl.RlTrainer.Rollout.Columns.{pick-kept, length-real_positions, count_true-expand}
use lumen_rl.RlTrainer.Rollout.Selected.{
  flat_map-snoc, sum_by-snoc, lpad-kept, lpad_all-snoc, pick_rows-kept, extend_ragged-ok, IsLpSized,
  append_lp-ok,
}
use lumen_rl.RlTrainer.Rollout.Kept.{
  length-marks, next_cursor, skipped-Holds, flags, marks, IsSized, kept_column, Holds, kept_width,
  kept_width-snoc,
}

widest-snoc : (ts : List (Grid ℕ)) (t : Grid ℕ) → widest (ts ++ t ∷ []) ≡ max (widest ts) t.width
unfolding widest
widest-snoc [] t = omega arith
widest-snoc (u ∷ ts) t = omega (arith, widest-snoc ts t)

not_zero : (n : ℕ) → 0 < n → (n == 0) ≡ false
not_zero n h = ground arith

module _ {F R G W A : Type 0} (plan : Plan) (spread : List A → Bool) where
  module _ (start : ℕ) (rs : List (Round F R G W A)) (r : Round F R G W A) (h : 0 < plan.g)
      (sized : IsSized plan spread r) where
    -- The column after a round whose marked entries are added.
    more_column :
        {X : Type 0} (xs ys : List X) (col : Round F R G W A → List X)
        → xs ≡ kept_column plan spread col rs
        → ys ≡ keep_where (marks plan spread r) (col r)
        → xs ++ ys ≡ kept_column plan spread col (rs ++ r ∷ [])
    more_column xs ys col c e =
        ap₂ ◌++◌ c e ∙ sym (flat_map-snoc (λ r. keep_where (marks plan spread r) (col r)) rs r)

    abbrev marked : Grid ℕ → Grid ℕ
    marked t = record { width = t.width; rows = keep_where (marks plan spread r) t.rows }

    -- The variables after a round whose marked entries are added.
    abbrev added :
        Collected F R G W → ℕ → List (Grid F) → List (String × List R) → Collected F R G W
    added s kept lps ragged = record s {
      prompt_cursor = s.prompt_cursor + plan.gen_prompts;
      acc_rows = s.acc_rows ++ marked r.rollouts.seqs ∷ [];
      acc_mask = s.acc_mask ++ marked r.rollouts.mask ∷ [];
      acc_rewards = s.acc_rewards ++ keep_where (marks plan spread r) r.rewards ∷ [];
      acc_lp = lps;
      acc_plen = s.acc_plen ++ keep_where (marks plan spread r) r.rollouts.plen;
      acc_gts = s.acc_gts ++ keep_where (marks plan spread r) r.gts;
      acc_ragged = ragged;
      kept_prompts = s.kept_prompts + kept;
    }

    append_kept-ok :
        (i : ℕ) (is : List ℕ) (kept : ℕ) (s : Collected F R G W)
        → real_positions 0 (marks plan spread r) ≡ i ∷ is
        → (lps : List (Grid F)) × (ragged : List (String × List R)) × (append_kept plan
              (i ∷ is)
              kept
              r
              (record s { prompt_cursor = s.prompt_cursor + plan.gen_prompts })
            ≡ ok (added s kept lps ragged))
    unfolding append_kept
    append_kept-ok i is kept s e =
        let size = length-marks plan spread r in
        let (lps, e_lp) =
          append_lp-ok plan.want_lp (marks plan spread r) r.rollouts.lp s.acc_lp
            (subst (λ n. IsLpSized n r.rollouts.lp) (sym size) sized.lp) in
        let (ragged, e_rag) =
          extend_ragged-ok (marks plan spread r) r.rollouts.rag s.acc_ragged
            (subst (λ n. All (λ e. n ≡ length e.1) r.rollouts.rag) (sym size) sized.rag) in
        (
          lps,
          ragged,
          rw
              (
                ap (pick_rows r.rollouts.seqs) (sym e)
                    ∙ pick_rows-kept r.rollouts.seqs (marks plan spread r) (size ∙ sym sized.seqs),
                ap (pick_rows r.rollouts.mask) (sym e)
                    ∙ pick_rows-kept r.rollouts.mask (marks plan spread r) (size ∙ sym sized.mask),
                ap (pick r.rewards) (sym e)
                    ∙ pick-kept r.rewards (marks plan spread r) (size ∙ sym sized.rewards),
                ap (λ is. append_lp plan.want_lp is r.rollouts.lp s.acc_lp) (sym e) ∙ e_lp,
                ap (pick r.rollouts.plen) (sym e)
                    ∙ pick-kept r.rollouts.plen (marks plan spread r) (size ∙ sym sized.plen),
                ap (pick r.gts) (sym e)
                    ∙ pick-kept r.gts (marks plan spread r) (size ∙ sym sized.gts),
                ap (λ is. extend_ragged is r.rollouts.rag s.acc_ragged) (sym e) ∙ e_rag,
              )
              refl,
        )

    marked_some :
        (i : ℕ) (is : List ℕ)
        → real_positions 0 (marks plan spread r) ≡ i ∷ is
        → 0 < count_true (flags plan spread r)
    marked_some i is e = some_factor (count_true (flags plan spread r)) plan.g (
        subst (λ n. 0 < n)
          (ap length (sym e)
            ∙ length-real_positions 0 (marks plan spread r)
            ∙ count_true-expand plan.g (flags plan spread r))
          (omega arith))
      where
        some_factor : (a b : ℕ) → 0 < a * b → 0 < a
        some_factor zero b h = absurd (omega arith)
        some_factor (suc a) b h = omega arith

    added-Holds :
        (i : ℕ) (is : List ℕ) (kept : ℕ) (s : Collected F R G W)
        → (lps : List (Grid F)) (ragged : List (String × List R))
        → real_positions 0 (marks plan spread r) ≡ i ∷ is
        → kept ≡ count_true (flags plan spread r)
        → Holds plan spread start rs s
        → Holds plan spread start (rs ++ r ∷ []) (added s kept lps ragged)
    added-Holds i is kept s lps ragged e n k = record {
      rows = λ width v.
          lpad_all-snoc width v s.acc_rows (marked r.rollouts.seqs)
          ∙ more_column _ _ (λ r. (lpad width v r.rollouts.seqs).rows) (k.rows width v)
              (lpad-kept width v r.rollouts.seqs (marks plan spread r));
      masks = λ width v.
          lpad_all-snoc width v s.acc_mask (marked r.rollouts.mask)
          ∙ more_column _ _ (λ r. (lpad width v r.rollouts.mask).rows) (k.masks width v)
              (lpad-kept width v r.rollouts.mask (marks plan spread r));
      wide =
          widest-snoc s.acc_rows (marked r.rollouts.seqs)
          ∙ ap (λ n. max n r.rollouts.seqs.width) k.wide
          ∙ ap (λ b. max (kept_width plan spread rs) (if b then 0 else r.rollouts.seqs.width))
              (sym (not_zero (count_true (flags plan spread r)) (marked_some i is e)))
          ∙ sym (kept_width-snoc plan spread rs r);
      plens = more_column _ _ (λ r. r.rollouts.plen) k.plens refl;
      gts = more_column _ _ (λ r. r.gts) k.gts refl;
      rewards =
          flat_map-snoc (λ ws. ws) s.acc_rewards (keep_where (marks plan spread r) r.rewards)
          ∙ more_column _ _ (λ r. r.rewards) k.rewards refl;
      kept = omega (arith, k.kept, n, sum_by-snoc (λ r. count_true (flags plan spread r)) rs r);
      cursor = next_cursor plan spread start rs r h sized s k;
      non_empty =
          both_true (length (s.acc_rows ++ marked r.rollouts.seqs ∷ [])) (s.kept_prompts + kept)
            (omega (arith, length-append s.acc_rows (marked r.rollouts.seqs ∷ [])))
            (omega (arith, n, marked_some i is e));
    }
      where
        both_true : (a b : ℕ) → 0 < a → 0 < b → ltb 0 a ≡ ltb 0 b
        both_true a b h h' = ground arith

    append_kept-Holds :
        (idx : List ℕ) (kept : ℕ) (s : Collected F R G W)
        → real_positions 0 (marks plan spread r) ≡ idx
        → kept ≡ count_true (flags plan spread r)
        → Holds plan spread start rs s
        → (s' : Collected F R G W) × (append_kept plan idx kept r
              (record s { prompt_cursor = s.prompt_cursor + plan.gen_prompts })
            ≡ ok s')
          × Holds plan spread start (rs ++ r ∷ []) s'
    unfolding append_kept
    append_kept-Holds [] kept s e n k =
        (_, refl, skipped-Holds plan spread start rs r h sized s k e)
    append_kept-Holds (i ∷ is) kept s e n k =
        let (lps, ragged, f) = append_kept-ok i is kept s e in
        (added s kept lps ragged, f, added-Holds i is kept s lps ragged e n k)

    -- One round after its generation.
    pub filter_round-Holds :
        (key : ℕ → String)
        → ((i j : ℕ) → i < j → str_eq (key i) (key j) ≡ false)
        → (s : Collected F R G W) → Holds plan spread start rs s
        → (s' : Collected F R G W) × (filter_round plan key spread r
              (record s { prompt_cursor = s.prompt_cursor + plan.gen_prompts })
            ≡ ok s')
          × Holds plan spread start (rs ++ r ∷ []) s'
    unfolding filter_round
    filter_round-Holds key differ s k =
        let (kept, e, n) =
          filter-round key plan.g h differ spread plan.gen_prompts r.accs sized.accs in
        let (s', f, k') = append_kept-Holds _ (length kept) s refl n k in
        (
          s',
          ap
                (λ m.
                  filter_groups_keep_mask spread r.accs (map (λ i. key (i / plan.g)) (range m))
                  >>= λ p.
                      append_kept plan (real_positions 0 p.0) (length p.1) r
                        (record s { prompt_cursor = s.prompt_cursor + plan.gen_prompts }))
                sized.seqs
              ∙ ap
                  (λ p. p >>= λ p.
                    append_kept plan (real_positions 0 p.0) (length p.1) r
                      (record s { prompt_cursor = s.prompt_cursor + plan.gen_prompts }))
                  e
              ∙ f,
          k',
        )
