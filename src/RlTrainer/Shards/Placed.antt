-- ===== src/RlTrainer/Shards/Placed.antt =====
-- lumenrl/trainer/rl_trainer.py, `_balance_rows_across_workers`: every row is placed, and the bins are
-- filled evenly.
use lumen_rl.Base.{
  ℕ, zero, suc, ◌+◌, ◌*◌, ◌/◌, ◌%◌, ◌≤◌, ◌<◌, ◌≡◌, refl, ap, ap₂, ◌∙◌, Bool, true, List, [], ◌∷◌,
  if◌then◌else◌, ltb, le→leb, ◌==◌, inl, inr, length, length-replicate, length-sort_by, length-map,
  take-all, replicate, flat_map, sum_by, sum_by-sort_by, sort_by, ok, ◌>>=◌, ◌>>◌, guard, or_raise,
  value_error, index_error, arith, All,
}
use native.Mathlib.Nat.{div-add-mod}
use lumen_rl.Balance.{enumerate_from}
use lumen_rl.Balance.Partition.{count_index, IsPartition, count-enumerate, length-enumerate}
use lumen_rl.RlTrainer.Shards.Bins.{
  rows_of, placed, Within, add_row-count, add_row-Within, add_row-placed, length-add_row,
}
use lumen_rl.RlTrainer.Shards.Lightest.{lightest-Lightest}
use lumen_rl.RlTrainer.Shards.{Bin, add_row, place_all, longer_row, bins_of}

module _ (per : ℕ) where
  -- What placing the rows `xs` makes of the bins.
  record Placed (xs : List (ℕ × ℕ)) (bins bins' : List Bin) : Type 0 where
    size : length bins' ≡ length bins
    within : Within per bins'
    total : placed bins' ≡ length xs + placed bins
    once :
        (i : ℕ)
        → count_index i (flat_map (λ p. p) (rows_of bins'))
          ≡ sum_by (λ x. if x.1 == i then 1 else 0) xs
            + count_index i (flat_map (λ p. p) (rows_of bins))

  -- The rows `xs` can be placed in any bins with room for them.
  CanPlace : List (ℕ × ℕ) → Type 0
  CanPlace xs =
      (bins : List Bin)
      → Within per bins
      → length xs + placed bins ≤ length bins * per
      → (bins' : List Bin) × (place_all per xs bins ≡ ok bins') × Placed xs bins bins'

  place_all-cons : (len idx : ℕ) (xs : List (ℕ × ℕ)) → CanPlace xs → CanPlace ((len, idx) ∷ xs)
  unfolding place_all CanPlace
  place_all-cons len idx xs rest bins w h = elim (lightest-Lightest per bins) [
    | inl (j, least, e, room) ↦
        let bins₁ = add_row j idx len bins in
        let one = add_row-placed per j idx len bins room in
        let same = length-add_row per j idx len bins in
        let bound : length xs + placed bins₁ ≤ length bins₁ * per =
          omega (arith, ap (λ n. n * per) same) in
        let (bins', f, p) = rest bins₁ (add_row-Within per j idx len bins room w) bound in
        (
          bins',
          ap (λ o. or_raise o value_error >>= λ b. place_all per xs (add_row b.0 idx len bins)) e
              ∙ f,
          record {
            size = p.size ∙ same;
            within = p.within;
            total = omega (arith, p.total, one);
            once = λ i. omega (arith, p.once i, add_row-count per j idx len i bins room);
          },
        )
    | inr (e, full) ↦ absurd (omega arith)
  ]

  place_all-Placed : (xs : List (ℕ × ℕ)) → CanPlace xs
  unfolding place_all CanPlace
  place_all-Placed [] bins w h =
      (bins, refl, record { size = refl; within = w; total = omega arith; once = λ i. omega arith })
  place_all-Placed ((len, idx) ∷ xs) bins w h =
      place_all-cons len idx xs (place_all-Placed xs) bins w h

  placed-Within : (bins : List Bin) → Within per bins → placed bins ≤ length bins * per
  placed-Within [] w = omega arith
  placed-Within (b ∷ bins) (h, w) = omega (arith, placed-Within bins w)

  -- Bins that hold as many rows as they may are all full.
  all_full :
      (bins : List Bin)
      → Within per bins
      → length bins * per ≤ placed bins
      → All (λ p. length p ≡ per) (rows_of bins)
  all_full [] w h = tt
  all_full (b ∷ bins) (h, w) full =
      let most = placed-Within bins w in (omega arith, all_full bins w (omega arith))

-- The bins before the loop.
abbrev pub empty_bins : ℕ → List Bin
empty_bins k = replicate k (record { rows = []; load = 0 })

pub empty_bins-Within : (per k : ℕ) → Within per (empty_bins k)
empty_bins-Within per zero = tt
empty_bins-Within per (suc k) = (omega arith, empty_bins-Within per k)

placed-empty_bins : (k : ℕ) → placed (empty_bins k) ≡ 0
placed-empty_bins zero = refl
placed-empty_bins (suc k) = omega (arith, placed-empty_bins k)

count-empty_bins : (k i : ℕ) → count_index i (flat_map (λ p. p) (rows_of (empty_bins k))) ≡ 0
count-empty_bins zero i = refl
count-empty_bins (suc k) i = count-empty_bins k i

-- The rows of a batch in the order in which they are placed: each once.
abbrev pub by_length : List ℕ → List (ℕ × ℕ)
by_length lens = sort_by longer_row (enumerate_from 0 lens)

length-by_length : (lens : List ℕ) → length (by_length lens) ≡ length lens
length-by_length lens = length-sort_by longer_row (enumerate_from 0 lens) ∙ length-enumerate lens 0

count-by_length :
    (lens : List ℕ) (i : ℕ)
    → sum_by (λ x. if x.1 == i then 1 else 0) (by_length lens)
      ≡ (if ltb i (length lens) then 1 else 0)
count-by_length lens i = ground (
  arith,
  sum_by-sort_by (λ x. if x.1 == i then 1 else 0) longer_row (enumerate_from 0 lens),
  count-enumerate lens 0 i,
)

pub bins_of-place_all :
    (lens : List ℕ) (num_workers : ℕ)
    → bins_of lens (length lens) num_workers
      ≡ place_all (length lens / num_workers) (by_length lens) (empty_bins num_workers)
unfolding bins_of
bins_of-place_all lens num_workers =
    let n = length lens in
    ap₂
      (λ (b : Bool) ls.
        guard b index_error >> place_all (n / num_workers) (by_length ls) (empty_bins num_workers))
      (le→leb n n (omega arith)) (take-all n lens (omega arith))

-- For a number of workers that is positive and divides the number of rows, every row gets a place:
-- the bins are a partition of the row numbers, one for each worker, of equal sizes.
pub bins_of-IsPartition :
    (lens : List ℕ) (num_workers : ℕ)
    → 0 < num_workers
    → length lens % num_workers ≡ 0
    → (bins : List Bin) × (bins_of lens (length lens) num_workers ≡ ok bins)
      × IsPartition (length lens) num_workers true (rows_of bins)
unfolding bins_of CanPlace
bins_of-IsPartition lens zero h divides = absurd (omega arith)
bins_of-IsPartition lens (suc k) h divides =
    let n = length lens in
    let per = n / suc k in
    let start = empty_bins (suc k) in
    let whole : suc k * per ≡ n = omega (arith, div-add-mod n (suc k)) in
    let sized : length start ≡ suc k = length-replicate (suc k) _ in
    let exact : length start * per ≡ n = ap (λ m. m * per) sized ∙ whole in
    let none_placed : placed start ≡ 0 = placed-empty_bins (suc k) in
    let ordered : length (by_length lens) ≡ n = length-by_length lens in
    let (bins, f, p) =
      place_all-Placed per (by_length lens) start (empty_bins-Within per (suc k)) (omega arith) in
    let same : length bins * per ≡ n = ap (λ m. m * per) p.size ∙ exact in
    (
      bins,
      bins_of-place_all lens (suc k) ∙ f,
      record {
        count = length-map bins (λ b. b.rows) ∙ p.size ∙ sized;
        once = λ i. omega (arith, p.once i, count-empty_bins (suc k) i, count-by_length lens i);
        equal_sizes = all_full per bins p.within (omega (arith, p.total));
      },
    )
