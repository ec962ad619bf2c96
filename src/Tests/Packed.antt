-- ===== src/Tests/Packed.antt =====
-- Two rows packed with an alignment of four, their values put back, and their routing replayed.
use lumen_rl.Base.{ℕ, ◌-◌, ◌^◌, ◌≡◌, refl, List, [], ◌∷◌, arith, true, false, ok, replicate, slice}
use lumen_rl.Base.Int.{negsuc, pos}
use lumen_rl.Base.Ranges.{lay_out, overwrite}
use lumen_rl.Packing.{
  PackedBatch, Row, int32, pack_from_nested, pack_sequences, unpack_log_probs, total_of, count_true,
}
use lumen_rl.Packing.Layout.{IsLeftPadded, IsPacked, pack_sequences-IsPacked}
use lumen_rl.Packing.Nested.{pack_from_nested-pack_sequences}
use lumen_rl.Packing.Unpacked.{unpack-right_end}
use lumen_rl.Routing.{RouteArray}

abbrev batch : List Row
batch =
    (0 ∷ 0 ∷ 5 ∷ 6 ∷ [], false ∷ false ∷ true ∷ true ∷ [])
    ∷ (0 ∷ 7 ∷ 8 ∷ 9 ∷ [], false ∷ true ∷ true ∷ true ∷ [])
    ∷ []

left_padded : IsLeftPadded 4 (0 ∷ 0 ∷ 5 ∷ 6 ∷ [], false ∷ false ∷ true ∷ true ∷ [])
left_padded = record { width = refl; pads = 2; reals = 2; mask = refl; size = refl }

longer : IsLeftPadded 4 (0 ∷ 7 ∷ 8 ∷ 9 ∷ [], false ∷ true ∷ true ∷ true ∷ [])
longer = record { width = refl; pads = 1; reals = 3; mask = refl; size = refl }

pack-batch :
    pack_sequences 4 batch 4
    ≡ ok (record {
      input_ids = 5 ∷ 6 ∷ 7 ∷ 8 ∷ 9 ∷ 0 ∷ 0 ∷ 0 ∷ [];
      position_ids = 0 ∷ 1 ∷ 0 ∷ 1 ∷ 2 ∷ 0 ∷ 0 ∷ 0 ∷ [];
      cu_seqlens = pos 0 ∷ pos 2 ∷ pos 5 ∷ [];
      seq_lens = 2 ∷ 3 ∷ [];
      max_seqlen = 3;
    })
unfolding pack_sequences lay_out overwrite slice
pack-batch = refl

-- From 2 ^ 31 on a bound is negative.
int32-wraps : (int32 (2 ^ 31 - 1) ≡ pos (2 ^ 31 - 1)) × (int32 (2 ^ 31) ≡ negsuc (2 ^ 31 - 1))
unfolding int32
int32-wraps = (refl, refl)

pack_sequences-IsPacked_example :
    (p : PackedBatch) × (pack_sequences 4 batch 4 ≡ ok p) × IsPacked batch 4 p
unfolding total_of count_true
pack_sequences-IsPacked_example =
    pack_sequences-IsPacked 4 batch 4 (left_padded, (longer, tt)) (omega arith) (omega arith)
      (omega arith)

pack_from_nested-pack_sequences_example :
    (p : PackedBatch) × (pack_sequences 4 batch 1 ≡ ok p)
    × (pack_from_nested p.input_ids p.cu_seqlens p.seq_lens (replicate 5 9) ≡ ok p)
unfolding total_of count_true
pack_from_nested-pack_sequences_example =
    pack_from_nested-pack_sequences 4 batch (replicate 5 9) (left_padded, (longer, tt))
      (omega arith) (omega arith) refl

abbrev values : List (List ℕ)
values = (15 ∷ []) ∷ (17 ∷ 18 ∷ []) ∷ []

unpack-right_end_example :
    unpack_log_probs {A = ℕ} 0 (15 ∷ 17 ∷ 18 ∷ []) (2 ∷ 3 ∷ []) 4
    ≡ ok ((0 ∷ 0 ∷ 15 ∷ []) ∷ (0 ∷ 17 ∷ 18 ∷ []) ∷ [])
unpack-right_end_example = unpack-right_end values 3 0 (omega arith)

-- One layer and one expert for each token; the rollout has no routing for the second sequence.
abbrev routes : RouteArray
routes = record { entries = ((3 ∷ []) ∷ []) ∷ []; n_layers = 1; top_k = 1 }

abbrev own_choices : List (List (List ℕ))
own_choices = ((0 ∷ []) ∷ (1 ∷ []) ∷ []) ∷ ((0 ∷ []) ∷ (0 ∷ []) ∷ (2 ∷ []) ∷ []) ∷ []

-- Four experts, with the same weights for every token.
abbrev probs : List (List ℕ)
probs = replicate 5 (40 ∷ 30 ∷ 20 ∷ 10 ∷ [])
