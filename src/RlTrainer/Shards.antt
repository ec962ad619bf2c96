-- ===== src/RlTrainer/Shards.antt =====
-- lumenrl/trainer/rl_trainer.py: `_balance_rows_across_workers`, which reorders the rows of a batch so
-- that the workers' shards have similar numbers of tokens. `mask.sum(dim=1)` is a parameter, and so is
-- which meta values are lists.
pub mod Balanced
pub mod Bins
pub mod Blocks
pub mod Evenly
pub mod Lightest
pub mod Loads
pub mod Placed
pub mod Reordered
pub mod Sharded
use lumen_rl.Base.{
  ℕ, zero, suc, ◌+◌, ◌/◌, ◌%◌, Bool, true, false, not, ◌&&◌, ◌||◌, List, [], ◌∷◌, ◌++◌, map,
  if◌then◌else◌, ltb, leb, ◌==◌, length, take, range, replicate, flat_map, sort_by, traverse_values,
  dict_get, String, Option, some, none, Result, ok, ◌>>=◌, ◌>>◌, guard, or_raise, value_error,
  index_error,
}
use lumen_rl.Base.Int.{pos}
use lumen_rl.Torch.{Torch}
use lumen_rl.Proto.{DataProto, batch_size}
use lumen_rl.Proto.Select.{ints, reorder}
use lumen_rl.Balance.{enumerate_from}
use lumen_rl.RlTrainer.Rollout.{pick}

-- `bins[j]` and `loads[j]`.
pub record Bin : Type 0 where
  pub rows : List ℕ
  pub load : ℕ

-- The first of the least loads: a bin's own, if it has room, or that of a later bin.
unfoldable pub first_least : Bool → ℕ → Option (ℕ × ℕ) → Option (ℕ × ℕ)
first_least false load none = none
first_least false load (some (j, least)) = some (suc j, least)
first_least true load none = some (0, load)
first_least true load (some (j, least)) =
    if leb load least then some (0, load) else some (suc j, least)

-- `min((j for j in ... if len(bins[j]) < per_worker), key=...)`, with its load.
unfoldable pub lightest : ℕ → List Bin → Option (ℕ × ℕ)
unfolding first_least
lightest per_worker [] = none
lightest per_worker (b ∷ bins) =
    first_least (ltb (length b.rows) per_worker) b.load (lightest per_worker bins)

-- `bins[b].append(idx)` and `loads[b] += lens[idx]`.
unfoldable pub add_row : ℕ → ℕ → ℕ → List Bin → List Bin
add_row j idx len [] = []
add_row zero idx len (b ∷ bins) = record { rows = b.rows ++ idx ∷ []; load = b.load + len } ∷ bins
add_row (suc j) idx len (b ∷ bins) = b ∷ add_row j idx len bins

-- The loop over the rows, each with its length.
unfoldable pub place_all : ℕ → List (ℕ × ℕ) → List Bin → Result (List Bin)
unfolding lightest add_row
place_all per_worker [] bins = ok bins
place_all per_worker ((len, idx) ∷ rest) bins = do
  b ← or_raise (lightest per_worker bins) value_error
  place_all per_worker rest (add_row b.0 idx len bins)

-- `sorted(range(n), key=lambda i: -lens[i])`: of two rows, the longer one stands first.
abbrev pub longer_row : ℕ × ℕ → ℕ × ℕ → Bool
longer_row x y = ltb y.0 x.0

-- The bins of `n` rows for the workers.
unfoldable pub bins_of : List ℕ → ℕ → ℕ → Result (List Bin)
unfolding place_all enumerate_from
bins_of lens n num_workers =
    guard (leb n (length lens)) index_error
    >> place_all (n / num_workers) (sort_by longer_row (enumerate_from 0 (take n lens)))
        (replicate num_workers (record { rows = []; load = 0 }))

unfoldable pub same_list : List ℕ → List ℕ → Bool
same_list [] [] = true
same_list (i ∷ is) (j ∷ js) = i == j && same_list is js
same_list _ _ = false

unfoldable pub is_uneven : ℕ → ℕ → Bool
is_uneven n num_workers = leb num_workers 1 || ltb n num_workers || not (n % num_workers == 0)

module _ {V U : Type 0} (as_list : V → Option (List U)) (of_list : List U → V) where
  -- `[val[i] for i in perm]` for a list with a value for each row.
  unfoldable pub permute_value : ℕ → List ℕ → V → Result V
  unfolding pick
  permute_value n perm val = elim (as_list val) [
    | none ↦ ok val
    | some vals ↦
        if length vals == n then (pick vals perm >>= λ vals'. ok (of_list vals')) else ok val
  ]

module _ {T : Torch} {V U : Type 0} (as_list : V → Option (List U)) (of_list : List U → V) where
  unfoldable pub permute_rows : DataProto T V → List ℕ → Result (DataProto T V)
  unfolding reorder permute_value same_list
  permute_rows p perm =
      if same_list perm (range (batch_size p))
      then ok p
      else (reorder p (ints (map pos perm)) >>= λ q.
          traverse_values (permute_value as_list of_list (batch_size p) perm) q.meta >>= λ meta.
          ok (record q { meta = meta }))

  module _ (lengths : T.Tensor → List ℕ) where
    -- `_balance_rows_across_workers`: the batch as it is after the call.
    unfoldable pub balance_rows_across_workers : DataProto T V → ℕ → Result (DataProto T V)
    unfolding bins_of permute_rows is_uneven
    balance_rows_across_workers p num_workers = elim (dict_get "attention_mask" p.tensors) [
      | none ↦ ok p
      | some am ↦
          if is_uneven (batch_size p) num_workers
          then ok p
          else (bins_of (lengths am) (batch_size p) num_workers >>= λ bins.
              permute_rows p (flat_map (λ b. b.rows) bins))
    ]
