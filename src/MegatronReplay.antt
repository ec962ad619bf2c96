-- ===== src/MegatronReplay.antt =====
-- lumenrl/engine/training/megatron_r3_replay.py: the rollout's routes as the tensors that Megatron's
-- RouterReplay takes.
-- Arrays of routes have three dimensions for a row, and four for a batch, by their types; row
-- numbers, starts, lengths and sizes are not negative, and a rank is below its size. Megatron's
-- replay objects are a state with what the code asks of them.
pub mod Gathered
pub mod Packed
pub mod Ranks
use lumen_rl.Base.{
  ℕ, zero, suc, ◌+◌, ◌-◌, ◌*◌, ◌/◌, ◌%◌, ◌≤◌, min, max, Bool, true, false, not, ◌&&◌, List, [], ◌∷◌,
  ◌++◌, map, if◌then◌else◌, ltb, leb, ◌==◌, length, replicate, take, drop, range, range_from,
  flat_map, get_or, get_elem?, traverse, Option, some, none, Result, ok, err, ◌>>=◌, ◌>>◌, guard,
  runtime_error, value_error, index_error, zero_division_error, or_raise,
}
use lumen_rl.Base.Int.{ℤ, pos, negsuc, pos_part}

-- The routes of one token: for each layer the ids of its experts.
abbrev pub TokenRoutes : Type 0
TokenRoutes = List (List ℤ)

pub record RowRoutes : Type 0 where
  pub tokens : List TokenRoutes
  pub num_layers : ℕ
  pub topk : ℕ

-- A dense tensor, by its rows and the last two sizes, or a ragged list.
pub data Routes : Type 0 where
  dense : List (List TokenRoutes) → ℕ → ℕ → Routes
  ragged : List RowRoutes → Routes

-- A row of the batch in the packed sequence: its number, start and length.
pub record PackedRow : Type 0 where
  pub row : ℕ
  pub start : ℕ
  pub size : ℕ

unfoldable pub row_of : Routes → PackedRow → ℕ → Result RowRoutes
row_of (dense rows num_layers topk) p expected = do
  row ← or_raise (get_elem? rows p.row) index_error
  ok (record { tokens = take expected (drop p.start row); num_layers = num_layers; topk = topk })
row_of (ragged rows) p expected = or_raise (get_elem? rows p.row) index_error

-- `extract_row_routes`; without tokens the expected number is -1, which no length equals.
unfoldable pub expect : ℕ → ℕ → RowRoutes → Result RowRoutes
expect zero expected extracted = err value_error
expect (suc n) expected extracted =
    guard (length extracted.tokens == expected) value_error >> ok extracted

unfoldable pub extract_row_routes : Routes → PackedRow → Result RowRoutes
unfolding row_of expect
extract_row_routes routes p = row_of routes p (p.size - 1) >>= λ r. expect p.size (p.size - 1) r

-- `_route_meta`, less the type of the numbers.
unfoldable pub route_meta : Routes → Result (ℕ × ℕ)
route_meta (dense rows num_layers topk) = ok (num_layers, topk)
route_meta (ragged []) = err index_error
route_meta (ragged (r ∷ rows)) = ok (r.num_layers, r.topk)

unfoldable pub ceil_div : ℕ → ℕ → ℕ
ceil_div a b = (a + (b - 1)) / b

-- `_cp_local_indices`.
unfoldable pub contiguous_indices : ℕ → ℕ → ℕ → ℕ → Result (List ℕ)
unfolding ceil_div
contiguous_indices size cp_size cp_rank zero = err zero_division_error
contiguous_indices size cp_size cp_rank (suc a) =
    let chunk = ceil_div (ceil_div size cp_size) (suc a) * suc a in
    ok (map (min (cp_size * chunk - 1)) (range_from (cp_rank * chunk) chunk))

unfoldable pub zigzag_indices : ℕ → ℕ → ℕ → List ℕ
zigzag_indices size cp_size cp_rank =
    let chunk = (size + 2 * cp_size - 1) / (2 * cp_size) in
    range_from (cp_rank * chunk) chunk ++ range_from ((2 * cp_size - cp_rank - 1) * chunk) chunk

pub record ContextParallel : Type 0 where
  pub cp_size : ℕ
  pub cp_rank : ℕ
  pub contiguous : Bool
  pub align : ℕ

unfoldable pub cp_local_indices : ℕ → ContextParallel → Result (List ℕ)
unfolding contiguous_indices zigzag_indices
cp_local_indices size cp =
    if leb cp.cp_size 1
    then ok (range size)
    else if cp.contiguous
    then contiguous_indices size cp.cp_size cp.cp_rank cp.align
    else ok (zigzag_indices size cp.cp_size cp.cp_rank)

-- One more than the largest index, `max_i + 1`.
unfoldable pub index_end : List ℕ → ℕ
index_end [] = 0
index_end (i ∷ is) = max (suc i) (index_end is)

unfoldable pub repeat_last : List TokenRoutes → ℕ → Result (List TokenRoutes)
repeat_last [] n = err runtime_error
repeat_last (t ∷ []) n = ok (replicate n t)
repeat_last (t ∷ u ∷ ts) n = repeat_last (u ∷ ts) n

unfoldable pub select_tokens : List TokenRoutes → List ℕ → Result (List TokenRoutes)
select_tokens full idx = traverse (λ i. or_raise (get_elem? full i) index_error) idx

-- `_gather_token_routes`.
unfoldable pub gather_token_routes : List TokenRoutes → List ℕ → Result (List TokenRoutes)
unfolding index_end repeat_last select_tokens
gather_token_routes full idx =
    if ltb (length full) (index_end idx)
    then repeat_last full (index_end idx - length full) >>= (λ pad. select_tokens (full ++ pad) idx)
    else select_tokens full idx

unfoldable pub filler : ℕ → ℕ → TokenRoutes
filler num_layers topk = replicate num_layers (map pos (range topk))

-- One round of the loop of `pack_microbatch_routes`.
unfoldable pub piece : Routes → ℕ → ℕ → ContextParallel → PackedRow → Result (List TokenRoutes)
unfolding extract_row_routes filler cp_local_indices gather_token_routes
piece routes num_layers topk cp p = do
  real ← extract_row_routes routes p
  guard (real.num_layers == num_layers && real.topk == topk) runtime_error
  idx ← cp_local_indices p.size cp
  gather_token_routes (real.tokens ++ filler num_layers topk ∷ []) idx

-- The routes of all tokens of the micro-batch.
unfoldable pub replay_of :
    Routes → List PackedRow → ℕ → ℕ → ℕ → ContextParallel → Result (List TokenRoutes)
unfolding filler piece
replay_of routes [] packed_len num_layers topk cp =
    ok (replicate packed_len (filler num_layers topk))
replay_of routes (p ∷ ps) packed_len num_layers topk cp = do
  pieces ← traverse (piece routes num_layers topk cp) (p ∷ ps)
  let tokens = flat_map (λ t. t) pieces
  let replay = tokens ++ replicate (packed_len - length tokens) (filler num_layers topk)
  guard (length replay == packed_len) value_error
  ok replay

pub record TensorParallel : Type 0 where
  pub tp_size : ℕ
  pub tp_rank : ℕ
  pub sequence_parallel : Bool

unfoldable pub sharded : TensorParallel → List TokenRoutes → Result (List TokenRoutes)
sharded tp replay =
    if tp.sequence_parallel && ltb 1 tp.tp_size
    then guard (length replay % tp.tp_size == 0) value_error
      >> ok (
          take (length replay / tp.tp_size)
            (drop (tp.tp_rank * (length replay / tp.tp_size)) replay))
    else ok replay

unfoldable pub layers_exist : ℕ → List ℤ → Bool
layers_exist total_layers [] = true
layers_exist total_layers (pos i ∷ is) = ltb i total_layers && layers_exist total_layers is
layers_exist total_layers (negsuc i ∷ is) = false

unfoldable pub in_range : ℕ → List ℤ → Bool
in_range num_experts [] = true
in_range num_experts (pos i ∷ is) = ltb i num_experts && in_range num_experts is
in_range num_experts (negsuc i ∷ is) = false

unfoldable pub tokens_in_range : ℕ → List TokenRoutes → Bool
unfolding in_range
tokens_in_range num_experts [] = true
tokens_in_range num_experts (t ∷ ts) =
    in_range num_experts (flat_map (λ ids. ids) t) && tokens_in_range num_experts ts

-- `replay[:, layer, :]`.
unfoldable pub at_layer : List TokenRoutes → ℕ → List (List ℤ)
at_layer replay layer = map (λ t. get_or t layer []) replay

-- `replay.index_select(1, layer_indices)`, for one token.
unfoldable pub select_layers : List ℤ → TokenRoutes → TokenRoutes
select_layers layer_indices t = map (λ i. get_or t (pos_part i) []) layer_indices

-- The end of `pack_microbatch_routes`, from `total_layers` on.
unfoldable pub layer_tensors : ℕ → ℕ → List ℤ → List TokenRoutes → Result (List (List (List ℤ)))
unfolding layers_exist tokens_in_range at_layer select_layers
layer_tensors num_layers num_experts layer_indices replay = do
  guard (layers_exist num_layers layer_indices) value_error
  let selected = map (select_layers layer_indices) replay
  guard (tokens_in_range num_experts selected) value_error
  ok (map (at_layer selected) (range (length layer_indices)))

-- `pack_microbatch_routes`.
unfoldable pub pack_microbatch_routes :
    Option Routes
    → List PackedRow
    → ℕ
    → ℕ
    → List ℤ
    → ContextParallel
    → TensorParallel
    → Result (List (List (List ℤ)))
unfolding route_meta replay_of sharded layer_tensors
pack_microbatch_routes routes rows zero num_experts layer_indices cp tp = err value_error
pack_microbatch_routes none rows (suc n) num_experts layer_indices cp tp = err value_error
pack_microbatch_routes (some routes) rows (suc n) num_experts layer_indices cp tp = do
  (num_layers, topk) ← route_meta routes
  replay ← replay_of routes rows (suc n) num_layers topk cp
  shard ← sharded tp replay
  layer_tensors num_layers num_experts layer_indices shard

-- Megatron's replay objects: what is asked of them, in order.
pub data ReplayCall : Type 0 where
  clear_indices clear_action set_forward : ReplayCall
  set_data : List (List (List ℤ)) → ReplayCall

unfoldable pub clear_replay : List ReplayCall
clear_replay = clear_action ∷ clear_indices ∷ []

-- `install_replay`, for the number of replay objects.
unfoldable pub install_replay : ℕ → List (List (List ℤ)) → Bool → Result (List ReplayCall)
install_replay zero tensors append = err runtime_error
install_replay (suc n) tensors append = do
  guard (length tensors == suc n) value_error
  ok ((if append then [] else clear_indices ∷ []) ++ set_data tensors ∷ set_forward ∷ [])
