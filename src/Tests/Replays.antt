-- ===== src/Tests/Replays.antt =====
-- A micro-batch of two ragged rows with two layers, of which the second is local.
use lumen_rl.Base.{inl, inr, ◌<◌, ℕ, ◌≡◌, refl, List, [], ◌∷◌, arith, false, ok, some, map, length}
use lumen_rl.Base.Int.{pos, pos_part}
use lumen_rl.MegatronReplay.{
  cp_local_indices, Routes, RowRoutes, PackedRow, ContextParallel, TensorParallel, TokenRoutes,
  ragged, pack_microbatch_routes, at_layer, extract_row_routes, filler, route_meta, layers_exist,
  tokens_in_range, select_layers, zigzag_indices, contiguous_indices, ceil_div,
}
use lumen_rl.MegatronReplay.Ranks.{Member, Zigzag, cp_local_indices-apart, cp_local_indices-covers}
use lumen_rl.MegatronReplay.Packed.{laid_out, pack_microbatch_routes-laid_out}

abbrev token : ℕ → ℕ → TokenRoutes
token a b = (pos a ∷ []) ∷ (pos b ∷ []) ∷ []

abbrev long_row : RowRoutes
long_row = record { tokens = token 1 2 ∷ token 3 0 ∷ []; num_layers = 2; topk = 1 }

abbrev short_row : RowRoutes
short_row = record { tokens = token 2 3 ∷ []; num_layers = 2; topk = 1 }

abbrev routes : Routes
routes = ragged (long_row ∷ short_row ∷ [])

abbrev packed_rows : List PackedRow
packed_rows = record { row = 0; start = 0; size = 3 } ∷ record { row = 1; start = 3; size = 2 } ∷ []

abbrev one_rank : ContextParallel
one_rank = record { cp_size = 1; cp_rank = 0; contiguous = false; align = 1 }

abbrev no_shards : TensorParallel
no_shards = record { tp_size = 2; tp_rank = 0; sequence_parallel = false }

zigzag_example : zigzag_indices 7 2 1 ≡ 2 ∷ 3 ∷ 4 ∷ 5 ∷ []
unfolding zigzag_indices
zigzag_example = refl

contiguous_example : contiguous_indices 7 2 1 3 ≡ ok (6 ∷ 7 ∷ 8 ∷ 9 ∷ 10 ∷ 11 ∷ [])
unfolding contiguous_indices ceil_div
contiguous_example = refl

pack_microbatch_routes-laid_out_example :
    (pack_microbatch_routes (some routes) packed_rows 6 4 (pos 1 ∷ []) one_rank no_shards
      ≡ ok (
          map
            (λ j. at_layer (laid_out 6 2 1 (long_row ∷ short_row ∷ [])) (pos_part j))
            (pos 1 ∷ [])))
    × (length (laid_out 6 2 1 (long_row ∷ short_row ∷ [])) ≡ 6)
unfolding extract_row_routes route_meta layers_exist tokens_in_range select_layers filler
pack_microbatch_routes-laid_out_example =
    pack_microbatch_routes-laid_out routes packed_rows (long_row ∷ short_row ∷ []) 6 4 2 1
      (pos 1 ∷ []) one_rank no_shards (omega arith) (omega arith) refl refl
      (refl, refl, refl, (refl, refl, refl, tt)) (omega arith) refl refl

cp_local_indices-covers_example :
    (r : ℕ) × (idx : List ℕ) × (r < 2) × (cp_local_indices 7 (Zigzag 2 r 1) ≡ ok idx) × Member 6 idx
cp_local_indices-covers_example = cp_local_indices-covers 7 2 1 6 (omega arith) (omega arith)

cp_local_indices-apart_example : ¬ Member 5 (0 ∷ 1 ∷ 6 ∷ 7 ∷ [])
unfolding cp_local_indices zigzag_indices
cp_local_indices-apart_example =
    cp_local_indices-apart 7 2 1 5 1 0 (2 ∷ 3 ∷ 4 ∷ 5 ∷ []) (0 ∷ 1 ∷ 6 ∷ 7 ∷ []) (omega arith)
      (omega arith) (omega arith) (λ e. omega (arith, e)) refl refl (inr (inr (inr (inl refl))))
