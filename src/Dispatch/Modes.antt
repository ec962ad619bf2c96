-- ===== src/Dispatch/Modes.antt =====
-- lumenrl/controller/dispatch.py: how a batch is handed to workers and their results are collected.
-- Group ids and ranks are not negative; `num_workers` is cut off at 0.

use lumen_rl.Base.{
  ℕ, zero, suc, ◌+◌, ◌%◌, List, [], ◌∷◌, map, ◌==◌, if◌then◌else◌, Option, some, none, Result, ok,
  err, ◌>>◌, guard, or_raise, traverse, value_error, index_error, runtime_error, String, str_eq,
  length, get_elem?, range, dict_get, dict_set,
}
use lumen_rl.Torch.{Torch}
use lumen_rl.Proto.{DataProto, bare}
use lumen_rl.Proto.Split.{split}
use lumen_rl.Proto.Merge.{max_of}

pub data DispatchMode : Type 0 where
  rank_zero dp_compute_proto dp_compute dp_compute_proto_with_func dp_compute_metric : DispatchMode
  one_to_all all_to_all direct_rollout_method : DispatchMode

-- The argument `mode`: nothing, a member of the enumeration, or a string.
pub data Mode : Type 0 where
  unset : Mode
  member : DispatchMode → Mode
  named : String → Mode

-- `DispatchMode(value)`.
unfoldable pub mode_values : List (String × DispatchMode)
mode_values =
    ("rank_zero", rank_zero)
    ∷ ("dp_compute_proto", dp_compute_proto)
    ∷ ("dp_compute", dp_compute)
    ∷ ("dp_compute_proto_with_func", dp_compute_proto_with_func)
    ∷ ("dp_compute_metric", dp_compute_metric)
    ∷ ("one_to_all", one_to_all)
    ∷ ("all_to_all", all_to_all)
    ∷ ("direct_rollout_method", direct_rollout_method)
    ∷ []

unfoldable pub normalize_mode : Mode → Result DispatchMode
unfolding mode_values
normalize_mode unset = ok dp_compute_proto
normalize_mode (member mode) = ok mode
normalize_mode (named s) =
    if str_eq s "broadcast" then ok one_to_all else or_raise (dict_get s mode_values) value_error

-- What a cache holds under a key: a list, or something else, which is not used.
pub data Cached : Type 0 where
  mapping : List ℕ → Cached
  other : Cached

abbrev pub Cache : Type 0
Cache = List (String × Cached)

-- The keyword arguments of a dispatch function.
pub record Options : Type 0 where
  pub mesh_mapping : Option (List ℕ)
  pub lazy_state : Option Cache
  pub lazy_key : Option String

module _ {T : Torch} {V : Type 0} where
  -- `_round_robin_chunks`.
  unfoldable pub round_robin_from : List (DataProto T V) → List ℕ → Result (List (DataProto T V))
  round_robin_from chunks is =
      traverse (λ i. or_raise (get_elem? chunks (i % length chunks)) index_error) is

  unfoldable pub round_robin_chunks : List (DataProto T V) → ℕ → Result (List (DataProto T V))
  unfolding round_robin_from
  round_robin_chunks [] n = ok (map (λ _. bare []) (range n))
  round_robin_chunks (c ∷ cs) n =
      if length (c ∷ cs) == n then ok (c ∷ cs) else round_robin_from (c ∷ cs) (range n)

  -- `[grouped[group_id] for group_id in mesh_mapping]`.
  unfoldable pub route : List (DataProto T V) → List ℕ → Result (List (DataProto T V))
  route grouped ids = traverse (λ i. or_raise (get_elem? grouped i) index_error) ids

  nd_groups : DataProto T V → List ℕ → Result (List (DataProto T V))
  unfolding route max_of
  nd_groups p [] = ok []
  nd_groups p (g ∷ gs) = route (split p (max_of (g ∷ gs) + 1)) (g ∷ gs)

  -- `_build_nd_dispatch`.
  unfoldable pub build_nd_dispatch :
      DataProto T V → ℕ → Option (List ℕ) → Result (List (DataProto T V))
  unfolding nd_groups
  build_nd_dispatch p n none = ok (split p n)
  build_nd_dispatch p n (some ids) = guard (length ids == n) value_error >> nd_groups p ids

-- The mapping that is used, and the cache after the call.
unfoldable pub resolve_cached :
    String → Option (List ℕ) → Cache → Option Cached → Option (List ℕ) × Cache
resolve_cached key mesh cache (some (mapping ids)) = (some ids, cache)
resolve_cached key none cache _ = (none, cache)
resolve_cached key (some ids) cache _ = (some ids, dict_set key (mapping ids) cache)

unfoldable pub resolve_mapping :
    Option (List ℕ) → Option Cache → Option String → Option (List ℕ) × Option Cache
unfolding resolve_cached
resolve_mapping mesh none key = (mesh, none)
resolve_mapping mesh (some cache) none = (mesh, some cache)
resolve_mapping mesh (some cache) (some key) =
    let (used, after) = resolve_cached key mesh cache (dict_get key cache) in (used, some after)

-- What a dispatch function leaves behind: the inputs for the workers, and the cache.
pub record Dispatched (T : Torch) (V : Type 0) : Type 0 where
  pub inputs : Result (List (DataProto T V))
  pub cache : Option Cache

module _ {T : Torch} {V : Type 0} where
  unfoldable pub dispatch_rank_zero : DataProto T V → ℕ → Options → Dispatched T V
  dispatch_rank_zero p zero o = record { inputs = ok []; cache = o.lazy_state }
  dispatch_rank_zero p (suc n) o = record { inputs = ok (p ∷ []); cache = o.lazy_state }

  unfoldable pub dispatch_one_to_all : DataProto T V → ℕ → Options → Dispatched T V
  dispatch_one_to_all p n o = record { inputs = ok (map (λ _. p) (range n)); cache = o.lazy_state }

  unfoldable pub dispatch_all_to_all : DataProto T V → ℕ → Options → Dispatched T V
  dispatch_all_to_all p n o = record {
    inputs = round_robin_chunks (split p n) n;
    cache = o.lazy_state;
  }

  -- `dispatch_dp_compute`, `…_with_func` and `…_metric` are calls of this one.
  unfoldable pub dispatch_dp_compute_data_proto : DataProto T V → ℕ → Options → Dispatched T V
  dispatch_dp_compute_data_proto p n o =
      let (used, after) = resolve_mapping o.mesh_mapping o.lazy_state o.lazy_key in
      record { inputs = build_nd_dispatch p n used; cache = after }

  unfoldable pub dispatch_direct_rollout_forbidden : DataProto T V → ℕ → Options → Dispatched T V
  dispatch_direct_rollout_forbidden p n o = record {
    inputs = err runtime_error;
    cache = o.lazy_state;
  }

  -- `DISPATCH_MODE_FN_REGISTRY[mode]["dispatch_fn"]`.
  unfoldable pub dispatch_fn : DispatchMode → DataProto T V → ℕ → Options → Dispatched T V
  dispatch_fn rank_zero = dispatch_rank_zero
  dispatch_fn one_to_all = dispatch_one_to_all
  dispatch_fn all_to_all = dispatch_all_to_all
  dispatch_fn direct_rollout_method = dispatch_direct_rollout_forbidden
  dispatch_fn dp_compute = dispatch_dp_compute_data_proto
  dispatch_fn dp_compute_proto = dispatch_dp_compute_data_proto
  dispatch_fn dp_compute_proto_with_func = dispatch_dp_compute_data_proto
  dispatch_fn dp_compute_metric = dispatch_dp_compute_data_proto

  unfoldable pub dispatch_mode : DispatchMode → DataProto T V → ℕ → Options → Dispatched T V
  dispatch_mode mode p zero o = record { inputs = ok []; cache = o.lazy_state }
  dispatch_mode mode p (suc n) o = dispatch_fn mode p (suc n) o

  unfoldable pub dispatch_proto : DataProto T V → ℕ → Mode → Options → Dispatched T V
  dispatch_proto p n mode o = elim (normalize_mode mode) [
    | err e ↦ record { inputs = err e; cache = o.lazy_state }
    | ok m ↦ dispatch_mode m p n o
  ]
