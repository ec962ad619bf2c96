-- ===== src/RlTrainer/Shards/Bins.antt =====
-- lumenrl/trainer/rl_trainer.py, `_balance_rows_across_workers`: what adding a row does to the bins.
use lumen_rl.Base.{
  ℕ, zero, suc, ◌+◌, ◌≤◌, ◌<◌, ◌≡◌, refl, ap, List, [], ◌∷◌, ◌++◌, map, if◌then◌else◌, ◌==◌, length,
  length-append, flat_map, sum_by, sum_by-append, arith, All,
}
use lumen_rl.Balance.Partition.{count_index}
use lumen_rl.RlTrainer.Shards.{Bin, add_row}

-- The bin `j` is there and has room.
abbrev pub HasRoom : ℕ → ℕ → List Bin → Type 0
HasRoom per j [] = ⊥
HasRoom per zero (b ∷ bins) = length b.rows < per
HasRoom per (suc j) (b ∷ bins) = HasRoom per j bins

abbrev pub rows_of : List Bin → List (List ℕ)
rows_of bins = map (λ b. b.rows) bins

abbrev pub placed : List Bin → ℕ
placed bins = sum_by (λ b. length b.rows) bins

abbrev pub Within : ℕ → List Bin → Type 0
Within per bins = All (λ b. length b.rows ≤ per) bins

module _ (per : ℕ) where
  pub add_row-count :
      (j idx len i : ℕ) (bins : List Bin)
      → HasRoom per j bins
      → count_index i (flat_map (λ p. p) (rows_of (add_row j idx len bins)))
        ≡ (if idx == i then 1 else 0) + count_index i (flat_map (λ p. p) (rows_of bins))
  unfolding add_row
  add_row-count j idx len i [] r = absurd r
  add_row-count zero idx len i (b ∷ bins) r =
      let f : ℕ → ℕ = λ k. if k == i then 1 else 0 in
      let rest = flat_map (λ p. p) (rows_of bins) in
      omega (
        arith,
        sum_by-append f (b.rows ++ idx ∷ []) rest,
        sum_by-append f b.rows (idx ∷ []),
        sum_by-append f b.rows rest,
      )
  add_row-count (suc j) idx len i (b ∷ bins) r =
      let f : ℕ → ℕ = λ k. if k == i then 1 else 0 in
      omega (
        arith,
        sum_by-append f b.rows (flat_map (λ p. p) (rows_of (add_row j idx len bins))),
        sum_by-append f b.rows (flat_map (λ p. p) (rows_of bins)),
        add_row-count j idx len i bins r,
      )

  pub add_row-Within :
      (j idx len : ℕ) (bins : List Bin)
      → HasRoom per j bins
      → Within per bins
      → Within per (add_row j idx len bins)
  unfolding add_row
  add_row-Within j idx len [] r w = absurd r
  add_row-Within zero idx len (b ∷ bins) r (h, w) =
      (omega (arith, length-append b.rows (idx ∷ [])), w)
  add_row-Within (suc j) idx len (b ∷ bins) r (h, w) = (h, add_row-Within j idx len bins r w)

  pub add_row-placed :
      (j idx len : ℕ) (bins : List Bin)
      → HasRoom per j bins
      → placed (add_row j idx len bins) ≡ suc (placed bins)
  unfolding add_row
  add_row-placed j idx len [] r = absurd r
  add_row-placed zero idx len (b ∷ bins) r = omega (arith, length-append b.rows (idx ∷ []))
  add_row-placed (suc j) idx len (b ∷ bins) r = omega (arith, add_row-placed j idx len bins r)

  pub length-add_row :
      (j idx len : ℕ) (bins : List Bin) → length (add_row j idx len bins) ≡ length bins
  unfolding add_row
  length-add_row j idx len [] = refl
  length-add_row zero idx len (b ∷ bins) = refl
  length-add_row (suc j) idx len (b ∷ bins) = ap suc (length-add_row j idx len bins)
