-- ===== src/RlTrainer/Shards/Loads.antt =====
-- lumenrl/trainer/rl_trainer.py, `_balance_rows_across_workers`: how far apart the loads of two bins can
-- be while the rows are placed.
use lumen_rl.Base.{
  ℕ, zero, suc, ◌+◌, ◌-◌, ◌*◌, ◌≤◌, ◌<◌, ◌≡◌, refl, sym, ap, ◌∙◌, List, [], ◌∷◌, ◌++◌, ltb, ltb→lt,
  not_ltb→le, Bool-cases, ◌⊎◌, inl, inr, length, length-append, arith,
}
use lumen_rl.RlTrainer.Shards.{Bin, add_row}
use lumen_rl.RlTrainer.Shards.Lightest.{At}

abbrev pub grown : ℕ → ℕ → Bin → Bin
grown idx len b = record { rows = b.rows ++ idx ∷ []; load = b.load + len }

-- A bin after a row is added is one of the old ones, or the one that has the row now.
pub add_row-At :
    (i j idx len : ℕ) (a : Bin) (bins : List Bin)
    → At i a (add_row j idx len bins)
    → At i a bins ⊎ ((b : Bin) × At j b bins × (a ≡ grown idx len b))
unfolding add_row
add_row-At i j idx len a [] at = absurd at
add_row-At zero zero idx len a (b ∷ bins) at = inr (b, refl, at)
add_row-At (suc i) zero idx len a (b ∷ bins) at = inl at
add_row-At zero (suc j) idx len a (b ∷ bins) at = inl at
add_row-At (suc i) (suc j) idx len a (b ∷ bins) at = add_row-At i j idx len a bins at

pub At-unique : (j : ℕ) (b c : Bin) (bins : List Bin) → At j b bins → At j c bins → b ≡ c
At-unique j b c [] at at' = absurd at
At-unique zero b c (d ∷ bins) at at' = at ∙ sym at'
At-unique (suc j) b c (d ∷ bins) at at' = At-unique j b c bins at at'

times_le : (a b c : ℕ) → a ≤ b → a * c ≤ b * c
times_le a b c h = grind arith

split_times : (c d x : ℕ) → c ≤ d → d * x ≡ c * x + x * (d - c)
split_times c d x h = grind arith

module _ (per limit : ℕ) where
  -- `x` is the length of the row that is placed next.
  pub record Near (x : ℕ) (a b : Bin) : Type 0 where
    pub open_bin : length b.rows < per → a.load ≤ b.load + limit
    pub filled : a.load + length b.rows * x ≤ b.load + length a.rows * x + limit

  pub Near-lower : (x y : ℕ) (a b : Bin) → y ≤ x → length a.rows ≤ per → Near x a b → Near y a b
  Near-lower x y a b h k n = record {
    open_bin = n.open_bin;
    filled = lower (length a.rows) (length b.rows) a.load b.load k n.open_bin n.filled;
  }
    where
      lower :
          (c d u v : ℕ)
          → c ≤ per
          → (d < per → u ≤ v + limit)
          → u + d * x ≤ v + c * x + limit
          → u + d * y ≤ v + c * y + limit
      lower c d u v k room f = elim (Bool-cases (ltb d c)) [
        | inl fewer ↦
            let more = ltb→lt d c fewer in
            omega (arith, room (omega arith), times_le d c y (omega arith))
        | inr others ↦
            let le = not_ltb→le d c others in
            omega (arith, times_le y x (d - c) h, split_times c d x le, split_times c d y le)
      ]

  pub Near-from : (idx len : ℕ) (a b : Bin) → Near len a b → Near len a (grown idx len b)
  Near-from idx len a b n = record {
    open_bin = λ h. omega (arith, n.open_bin (omega (arith, length-append b.rows (idx ∷ []))));
    filled = omega (arith, n.filled, ap (λ m. m * len) (length-append b.rows (idx ∷ [])));
  }

  pub Near-to :
      (idx len : ℕ) (a b : Bin)
      → len ≤ limit
      → (length b.rows < per → a.load ≤ b.load)
      → Near len a b
      → Near len (grown idx len a) b
  Near-to idx len a b h least n = record {
    open_bin = λ k. omega (arith, least k);
    filled = omega (arith, n.filled, ap (λ m. m * len) (length-append a.rows (idx ∷ [])));
  }

  pub Near-self : (x : ℕ) (a : Bin) → Near x a a
  Near-self x a = record { open_bin = λ h. omega arith; filled = omega arith }
