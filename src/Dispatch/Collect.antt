-- ===== src/Dispatch/Collect.antt =====
-- lumenrl/controller/dispatch.py: the collect functions, and the dispatch by ranks.
use lumen_rl.Base.{
  ℕ, suc, Bool, true, false, ◌||◌, List, [], ◌∷◌, map, ◌==◌, if◌then◌else◌, Result, ok, err, ◌>>=◌,
  ◌>>◌, guard, value_error, runtime_error, String, length, keep_where,
}
use lumen_rl.Torch.{Torch}
use lumen_rl.Proto.{DataProto, bare}
use lumen_rl.Proto.Split.{split}
use lumen_rl.Proto.Merge.{merge}
use lumen_rl.Dispatch.Modes.{
  DispatchMode, Mode, rank_zero, one_to_all, all_to_all, direct_rollout_method, dp_compute,
  dp_compute_proto, dp_compute_proto_with_func, dp_compute_metric, normalize_mode, route,
}

-- `n in seen`.
unfoldable pub seen_before : ℕ → List ℕ → Bool
seen_before n [] = false
seen_before n (m ∷ seen) = (m == n) || seen_before n seen

-- `len(set(ns))`, counting each number at its last place.
unfoldable pub count_distinct : List ℕ → ℕ
unfolding seen_before
count_distinct [] = 0
count_distinct (n ∷ ns) = if seen_before n ns then count_distinct ns else suc (count_distinct ns)

-- A result with the identity of its object, `id(result)`.
abbrev pub Object : Torch → Type 0 → Type 0
Object T V = ℕ × DataProto T V

module _ {T : Torch} {V : Type 0} where
  -- The results whose object has not come before.
  unfoldable pub unique_by_id : List ℕ → List (Object T V) → List (DataProto T V)
  unfolding seen_before
  unique_by_id seen [] = []
  unique_by_id seen ((i, p) ∷ rs) = elim (seen_before i seen) [
    | true ↦ unique_by_id seen rs
    | false ↦ p ∷ unique_by_id (i ∷ seen) rs
  ]

  abbrev pub values : List (Object T V) → List (DataProto T V)
  values rs = map (λ r. r.1) rs

module _ {T : Torch} {V : Type 0} (order : List String → List String) where
  unfoldable pub collect_all_to_all : Bool → List (Object T V) → Result (DataProto T V)
  unfolding unique_by_id
  collect_all_to_all true rs = merge order (unique_by_id [] rs)
  collect_all_to_all false rs = merge order (values rs)

  -- `collect_dp_compute` has the same body.
  unfoldable pub collect_dp_compute_data_proto : List (Object T V) → Result (DataProto T V)
  collect_dp_compute_data_proto rs = merge order (values rs)

  unfoldable pub collect_rank_zero : List (Object T V) → Result (DataProto T V)
  collect_rank_zero [] = ok (bare [])
  collect_rank_zero ((i, p) ∷ rs) = ok p

  -- `DISPATCH_MODE_FN_REGISTRY[mode]["collect_fn"]`.
  unfoldable pub collect_fn : DispatchMode → Bool → List (Object T V) → Result (DataProto T V)
  collect_fn rank_zero dedup rs = collect_rank_zero rs
  collect_fn one_to_all dedup rs = collect_all_to_all dedup rs
  collect_fn all_to_all dedup rs = collect_all_to_all dedup rs
  collect_fn direct_rollout_method dedup rs = err runtime_error
  collect_fn dp_compute dedup rs = collect_dp_compute_data_proto rs
  collect_fn dp_compute_proto dedup rs = collect_dp_compute_data_proto rs
  collect_fn dp_compute_proto_with_func dedup rs = collect_dp_compute_data_proto rs
  collect_fn dp_compute_metric dedup rs = collect_dp_compute_data_proto rs

  unfoldable pub collect_mode : DispatchMode → Bool → List (Object T V) → Result (DataProto T V)
  collect_mode mode dedup [] = ok (bare [])
  collect_mode mode dedup (r ∷ rs) = collect_fn mode dedup (r ∷ rs)

  unfoldable pub collect_proto : List (Object T V) → Mode → Bool → Result (DataProto T V)
  collect_proto rs mode dedup = do m ← normalize_mode mode; collect_mode m dedup rs

  unfoldable pub collect_with_mask : List (DataProto T V) → List Bool → Result (DataProto T V)
  collect_with_mask rs mask =
      guard (length mask == length rs) value_error >> merge order (keep_where mask rs)

module _ {T : Torch} {V : Type 0} where
  unfoldable pub dispatch_with_dp_ranks : DataProto T V → ℕ → List ℕ → Result (List (DataProto T V))
  unfolding count_distinct
  dispatch_with_dp_ranks p n ranks =
      guard (length ranks == n) value_error >> route (split p (count_distinct ranks)) ranks
