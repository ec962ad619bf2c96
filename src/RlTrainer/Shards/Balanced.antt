-- ===== src/RlTrainer/Shards/Balanced.antt =====
-- lumenrl/trainer/rl_trainer.py, `_balance_rows_across_workers`: the bins after the loop.
use lumen_rl.Base.{
  ℕ, suc, ◌+◌, ◌/◌, ◌%◌, ◌≤◌, ◌<◌, ◌≡◌, refl, sym, ap, ◌∙◌, Bool, true, false, List, [], ◌∷◌, ltb,
  ltb→lt, not_ltb→le, length, get_elem?, sum_by, sort_by, insert_by, All-sort_by, some, none, ok,
  arith, All,
}
use lumen_rl.Balance.{enumerate_from}
use lumen_rl.Balance.Partition.{IsPartition}
use lumen_rl.RlTrainer.Shards.{Bin, longer_row, bins_of}
use lumen_rl.RlTrainer.Shards.Bins.{rows_of}
use lumen_rl.RlTrainer.Shards.Placed.{empty_bins, by_length, bins_of-IsPartition, bins_of-place_all}
use lumen_rl.RlTrainer.Shards.Lightest.{At, At-All, All-At}
use lumen_rl.RlTrainer.Shards.Evenly.{Falling, place_all-Evenly, full-IsEven, empty_bins-IsEven}

either-Falling :
    (x : ℕ) (b : Bool) (ys zs : List (ℕ × ℕ))
    → (b ≡ true → Falling x ys)
    → (b ≡ false → Falling x zs)
    → Falling x (elim b [ true ↦ ys | false ↦ zs ])
either-Falling x true ys zs f g = f refl
either-Falling x false ys zs f g = g refl

insert_by-Falling :
    (x : ℕ) (y : ℕ × ℕ) (ys : List (ℕ × ℕ))
    → y.0 ≤ x
    → Falling x ys
    → Falling x (insert_by longer_row y ys)
insert_by-Falling x y [] h f = (h, tt)
insert_by-Falling x y (z ∷ zs) h (k, f) =
    either-Falling x (ltb y.0 z.0) _ _
      (λ less. let lt = ltb→lt y.0 z.0 less in (k, insert_by-Falling z.0 y zs (omega arith) f))
      (λ more. (h, (not_ltb→le y.0 z.0 more, f)))

sort_by-Falling :
    (x : ℕ) (ys : List (ℕ × ℕ)) → All (λ y. y.0 ≤ x) ys → Falling x (sort_by longer_row ys)
sort_by-Falling x [] h = tt
sort_by-Falling x (y ∷ ys) (k, h) =
    insert_by-Falling x y (sort_by longer_row ys) k (sort_by-Falling x ys h)

-- The length of a row.
abbrev pub len_at : List ℕ → ℕ → ℕ
len_at lens i = elim (get_elem? lens i) [ none ↦ 0 | some l ↦ l ]

enumerate-named :
    (f : ℕ → ℕ) (j : ℕ) (lens : List ℕ)
    → ((i l : ℕ) → get_elem? lens i ≡ some l → f (j + i) ≡ l)
    → All (λ y. y.0 ≡ f y.1) (enumerate_from j lens)
unfolding enumerate_from
enumerate-named f j [] h = tt
enumerate-named f j (l ∷ lens) h =
    let here : j ≡ j + 0 = omega arith in
    (
      sym (ap f here ∙ h 0 l refl),
      enumerate-named f (suc j) lens
          λ i v e. let next : suc j + i ≡ j + suc i = omega arith in ap f next ∙ h (suc i) v e,
    )

enumerate-within :
    (limit j : ℕ) (lens : List ℕ)
    → All (λ l. l ≤ limit) lens
    → All (λ y. y.0 ≤ limit) (enumerate_from j lens)
unfolding enumerate_from
enumerate-within limit j [] h = tt
enumerate-within limit j (l ∷ lens) (m, h) = (m, enumerate-within limit (suc j) lens h)

len_at-named : (lens : List ℕ) (i l : ℕ) → get_elem? lens i ≡ some l → len_at lens (0 + i) ≡ l
len_at-named lens i l e =
    let here : 0 + i ≡ i = omega arith in
    ap (len_at lens) here ∙ ap (λ o. elim o as (λ x. ℕ) [ none ↦ 0 | some m ↦ m ]) e

-- The tokens of any two lists of rows differ by `limit` at most.
abbrev pub IsBalanced : (ℕ → ℕ) → ℕ → List (List ℕ) → Type 0
IsBalanced len limit parts = All (λ p. All (λ q. sum_by len p ≤ sum_by len q + limit) parts) parts

All-rows_of :
    (P : List ℕ → Type 0) (bins : List Bin) → All (λ b. P b.rows) bins → All P (rows_of bins)
All-rows_of P [] h = tt
All-rows_of P (b ∷ bins) (p, h) = (p, All-rows_of P bins h)

loads-IsBalanced :
    (len : ℕ → ℕ) (limit : ℕ) (bins : List Bin)
    → ((i : ℕ) (a : Bin) → At i a bins → a.load ≡ sum_by len a.rows)
    → All (λ a. All (λ b. a.load ≤ b.load + limit) bins) bins
    → IsBalanced len limit (rows_of bins)
loads-IsBalanced len limit bins loads close =
    All-rows_of (λ p. All (λ q. sum_by len p ≤ sum_by len q + limit) (rows_of bins)) bins
      (All-At _ bins λ i a at.
        All-rows_of (λ q. sum_by len a.rows ≤ sum_by len q + limit) bins
          (All-At _ bins λ j b at'. omega (
            arith,
            loads i a at,
            loads j b at',
            At-All (λ c. a.load ≤ c.load + limit) j b bins
                (At-All (λ d. All (λ c. d.load ≤ c.load + limit) bins) i a bins close at) at',
          )))

-- For a number of workers that is positive and divides the number of rows, where no row has more
-- than `limit` tokens, every row gets a place: the bins are a partition of the row numbers, one for
-- each worker, of equal sizes, and the numbers of tokens of any two differ by `limit` at most.
pub bins_of-IsBalanced :
    (lens : List ℕ) (num_workers limit : ℕ)
    → 0 < num_workers
    → length lens % num_workers ≡ 0
    → All (λ l. l ≤ limit) lens
    → (bins : List Bin) × (bins_of lens (length lens) num_workers ≡ ok bins)
      × IsBalanced (len_at lens) limit (rows_of bins)
      × IsPartition (length lens) num_workers true (rows_of bins)
bins_of-IsBalanced lens num_workers limit h divides short =
    let per = length lens / num_workers in
    let (bins, made, parted) = bins_of-IsPartition lens num_workers h divides in
    let (y, e) =
      place_all-Evenly per limit (len_at lens) (by_length lens) limit (empty_bins num_workers) bins
        (omega arith)
        (sort_by-Falling limit (enumerate_from 0 lens) (enumerate-within limit 0 lens short))
        (All-sort_by (λ y. y.0 ≡ len_at lens y.1) longer_row (enumerate_from 0 lens)
          (enumerate-named (len_at lens) 0 lens (len_at-named lens)))
        (empty_bins-IsEven per limit (len_at lens) limit num_workers)
        (sym (bins_of-place_all lens num_workers) ∙ made) in
    (
      bins,
      made,
      loads-IsBalanced (len_at lens) limit bins e.loads
          (full-IsEven per limit (len_at lens) y bins e parted.equal_sizes),
      parted,
    )
