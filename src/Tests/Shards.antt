-- ===== src/Tests/Shards.antt =====
-- Four rows of lengths 3, 1, 2 and 4 for two workers, with a name for each row in `meta`.
use lumen_rl.Base.{
  ℕ, ◌≡◌, refl, List, [], ◌∷◌, map, some, ok, dict_get, arith, gather, traverse, traverse_values,
  true,
}
use lumen_rl.Base.Int.{pos}
use lumen_rl.Torch.Listed.{listed, listed-Laws}
use lumen_rl.Proto.{DataProto, batch_size}
use lumen_rl.Proto.View.{column}
use lumen_rl.Proto.Join.{rows_or_nil}
use lumen_rl.Proto.Split.{split}
use lumen_rl.Balance.Partition.{IsPartition}
use lumen_rl.RlTrainer.MiniBatches.Sorted.{lengths}
use lumen_rl.RlTrainer.Shards.{balance_rows_across_workers}
use lumen_rl.Tests.MiniBatches.{row_sum, attention, rewards}
use lumen_rl.RlTrainer.Shards.Balanced.{IsBalanced, len_at}
use lumen_rl.RlTrainer.Shards.Sharded.{balance_rows-Sharded}

abbrev batch : DataProto listed (List ℕ)
batch = record {
  tensors = ("attention_mask", attention) ∷ ("rewards", rewards) ∷ [];
  meta = ("names", 10 ∷ 20 ∷ 30 ∷ 40 ∷ []) ∷ ("seeds", 1 ∷ []) ∷ [];
  ragged = [];
}

abbrev balanced : DataProto listed (List ℕ)
balanced = record {
  tensors =
      (
        "attention_mask",
        record {
          tail = 4 ∷ [];
          rows =
              (1 ∷ 1 ∷ 1 ∷ 1 ∷ [])
              ∷ (1 ∷ 0 ∷ 0 ∷ 0 ∷ [])
              ∷ (1 ∷ 1 ∷ 1 ∷ 0 ∷ [])
              ∷ (1 ∷ 1 ∷ 0 ∷ 0 ∷ [])
              ∷ [];
        },
      )
      ∷ ("rewards", record { tail = []; rows = (8 ∷ []) ∷ (6 ∷ []) ∷ (5 ∷ []) ∷ (7 ∷ []) ∷ [] })
      ∷ [];
  meta = ("names", 40 ∷ 20 ∷ 10 ∷ 30 ∷ []) ∷ ("seeds", 1 ∷ []) ∷ [];
  ragged = [];
}

rows_balanced :
    balance_rows_across_workers {T = listed} {V = List ℕ} some
      (λ vals. vals)
      (lengths listed row_sum)
      batch
      2
    ≡ ok balanced
unfolding balance_rows_across_workers dict_get batch_size traverse_values
rows_balanced = refl

balance_rows-Sharded_example :
    (q : DataProto listed (List ℕ)) × (parts : List (List ℕ)) × (balance_rows_across_workers
        {T = listed} {V = List ℕ} some
        (λ vals. vals)
        (lengths listed row_sum)
        batch
        2
      ≡ ok q)
    × (traverse (λ b. gather rewards.rows (map pos b)) parts
        ≡ ok (map (λ c. rows_or_nil (column {T = listed} c "rewards")) (split {T = listed} q 2)))
    × IsBalanced (len_at (lengths listed row_sum attention)) 4 parts
    × IsPartition 4 2 true parts
unfolding batch_size dict_get
balance_rows-Sharded_example =
    balance_rows-Sharded some (λ vals. vals) row_sum listed-Laws batch 2 4 attention rewards
      "rewards" (omega arith) (omega arith) refl refl
      (omega arith, (omega arith, (omega arith, (omega arith, tt))))
      (record { tensors_rows = (refl, (refl, tt)); ragged_rows = tt }) refl
