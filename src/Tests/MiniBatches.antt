-- ===== src/Tests/MiniBatches.antt =====
-- Four rows of lengths 3, 1, 2 and 4, cut with a limit of four tokens.
use lumen_rl.Base.{
  range_from-below, ℕ, ◌+◌, ◌<◌, ◌≡◌, refl, ◌∙◌, List, [], ◌∷◌, map, some, none, ok, ltb, get_elem?,
  range, length, sort_by, length-sort_by, All-sort_by, length-range_from, All, arith, gather,
  flat_map, dict_get, traverse_values,
}
use lumen_rl.Base.Int.{pos}
use lumen_rl.Torch.Listed.{listed, listed-Laws, Tensor}
use lumen_rl.Proto.{DataProto, batch_size}
use lumen_rl.RlTrainer.MiniBatches.{
  dynamic_mini_batches, cut_sorted, segments, segments_from, take_run, sorted_chunk,
}
use lumen_rl.RlTrainer.MiniBatches.Segments.{Tiles, InLimit, segments-Tiles}
use lumen_rl.RlTrainer.MiniBatches.Sorted.{IsArgsort, lengths}
use lumen_rl.RlTrainer.MiniBatches.Rows.{IsMiniBatch, rows_at, dynamic_mini_batches-rows}

abbrev value_at : List ℕ → ℕ → ℕ
value_at ls i = elim (get_elem? ls i) [ none ↦ 0 | some v ↦ v ]

abbrev argsort : List ℕ → List ℕ
argsort ls = sort_by (λ i j. ltb (value_at ls i) (value_at ls j)) (range (length ls))

argsort-IsArgsort : IsArgsort argsort
argsort-IsArgsort = record {
  total = λ ls.
      length-sort_by (λ i j. ltb (value_at ls i) (value_at ls j)) (range (length ls))
      ∙ length-range_from 0 (length ls);
  below = λ ls.
      All-sort_by (λ i. i < length ls) (λ i j. ltb (value_at ls i) (value_at ls j))
        (range (length ls)) (range_from-below 0 (length ls) (length ls) (omega arith));
}

abbrev pub row_sum : List ℕ → ℕ
row_sum [] = 0
row_sum (x ∷ xs) = x + row_sum xs

abbrev pub attention : Tensor
attention = record {
  tail = 4 ∷ [];
  rows =
      (1 ∷ 1 ∷ 1 ∷ 0 ∷ [])
      ∷ (1 ∷ 0 ∷ 0 ∷ 0 ∷ [])
      ∷ (1 ∷ 1 ∷ 0 ∷ 0 ∷ [])
      ∷ (1 ∷ 1 ∷ 1 ∷ 1 ∷ [])
      ∷ [];
}

abbrev pub rewards : Tensor
rewards = record { tail = []; rows = (5 ∷ []) ∷ (6 ∷ []) ∷ (7 ∷ []) ∷ (8 ∷ []) ∷ [] }

abbrev batch : DataProto listed ℕ
batch = record {
  tensors = ("attention_mask", attention) ∷ ("rewards", rewards) ∷ [];
  meta = [];
  ragged = [];
}

mini_batches_cut :
    dynamic_mini_batches {T = listed} (lengths listed row_sum) argsort batch 4 2
    ≡ ok (
        map
          (sorted_chunk {T = listed} {V = ℕ}
            ((
              "attention_mask",
              record {
                tail = 4 ∷ [];
                rows =
                    (1 ∷ 0 ∷ 0 ∷ 0 ∷ [])
                    ∷ (1 ∷ 1 ∷ 0 ∷ 0 ∷ [])
                    ∷ (1 ∷ 1 ∷ 1 ∷ 0 ∷ [])
                    ∷ (1 ∷ 1 ∷ 1 ∷ 1 ∷ [])
                    ∷ [];
              },
            )
              ∷ (
                "rewards",
                record { tail = []; rows = (6 ∷ []) ∷ (7 ∷ []) ∷ (5 ∷ []) ∷ (8 ∷ []) ∷ [] },
              )
              ∷ [])
            [])
          ((0, 2) ∷ (2, 3) ∷ (3, 4) ∷ []))
unfolding dynamic_mini_batches cut_sorted segments segments_from take_run sorted_chunk batch_size
    dict_get traverse_values
mini_batches_cut = refl

dynamic_mini_batches-rows_example :
    (bs : List (DataProto listed ℕ)) × (dynamic_mini_batches
        (lengths listed row_sum)
        argsort
        batch
        4
        2
      ≡ ok bs)
    × (gather rewards.rows (map pos (argsort (lengths listed row_sum attention)))
        ≡ ok (flat_map (rows_at {T = listed} "rewards") bs))
    × All (IsMiniBatch {T = listed} row_sum 4) bs
unfolding batch_size dict_get
dynamic_mini_batches-rows_example =
    dynamic_mini_batches-rows listed-Laws row_sum argsort argsort-IsArgsort batch 4 2 attention
      rewards "rewards" (omega arith) refl (refl, (refl, tt)) refl

segments-Tiles_example :
    Tiles 0 4 (segments 4 (1 ∷ 2 ∷ 3 ∷ 4 ∷ []))
    × All (InLimit 4 (1 ∷ 2 ∷ 3 ∷ 4 ∷ [])) (segments 4 (1 ∷ 2 ∷ 3 ∷ 4 ∷ []))
segments-Tiles_example = segments-Tiles 4 (1 ∷ 2 ∷ 3 ∷ 4 ∷ [])
