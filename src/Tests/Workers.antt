-- ===== src/Tests/Workers.antt =====
-- Dispatch and collect.
use lumen_rl.Base.{
  ℕ, ◌≡◌, refl, Bool, true, false, List, [], ◌∷◌, map, some, none, ok, length, get_elem?, range,
  arith, dict_get,
}
use lumen_rl.Torch.Listed.{listed, listed-Laws}
use lumen_rl.Proto.{DataProto, batch_size}
use lumen_rl.Proto.Merge.{merge}
use lumen_rl.Proto.View.{SameRows}
use lumen_rl.Dispatch.Modes.{
  dp_compute_proto, one_to_all, unset, member, Options, Cache, dispatch_proto, normalize_mode,
  resolve_mapping,
}
use lumen_rl.Dispatch.Collect.{
  Object, values, collect_proto, collect_with_mask, dispatch_with_dp_ranks, count_distinct,
}
use lumen_rl.Dispatch.Laws.{dispatch-collect, collect_shared, resolve_mapping_again}
use lumen_rl.Dispatch.Ranks.{dp_ranks-collect}
use lumen_rl.Tests.Samples.{sample, sample-IsConsistent, plain_order}

abbrev no_options : Options
no_options = record { mesh_mapping = none; lazy_state = none; lazy_key = none }

dispatch-collect_example :
    (inputs : List (DataProto listed ℕ)) × ((dispatch_proto sample 2 unset no_options).inputs
      ≡ ok inputs)
    × (length inputs ≡ 2)
    × ((rs : List (Object listed ℕ))
        → values rs ≡ inputs
        → (q : DataProto listed ℕ) × (collect_proto plain_order rs unset false ≡ ok q)
          × SameRows q sample)
unfolding batch_size normalize_mode
dispatch-collect_example =
    dispatch-collect listed-Laws plain_order (λ k ks. refl) sample 2 unset dp_compute_proto
      no_options sample-IsConsistent (omega arith) (omega arith) refl tt
      (record { no_mesh = refl; no_cache = refl })

collect_shared_example :
    collect_proto plain_order (map (λ _. (7, sample)) (range 3)) (member one_to_all) true
    ≡ merge plain_order (sample ∷ [])
collect_shared_example = collect_shared plain_order 7 sample 3 (omega arith)

resolve_mapping_again_example :
    (after : Cache) × (resolve_mapping (some (0 ∷ 1 ∷ [])) (some []) (some "mesh")
      ≡ (some (0 ∷ 1 ∷ []), some after))
    × (resolve_mapping (some (1 ∷ 1 ∷ [])) (some after) (some "mesh")
        ≡ (some (0 ∷ 1 ∷ []), some after))
unfolding dict_get
resolve_mapping_again_example =
    resolve_mapping_again "mesh" (0 ∷ 1 ∷ []) (some (1 ∷ 1 ∷ [])) [] refl

-- Four workers in two pairs of peers; the second of each pair is the source.
abbrev pair_ranks : List ℕ
pair_ranks = 0 ∷ 0 ∷ 1 ∷ 1 ∷ []

abbrev sources : List Bool
sources = false ∷ true ∷ false ∷ true ∷ []

dp_ranks-collect_example :
    (inputs : List (DataProto listed ℕ)) × (dispatch_with_dp_ranks sample 4 pair_ranks ≡ ok inputs)
    × ((v w r : ℕ)
        → get_elem? pair_ranks v ≡ some r
        → get_elem? pair_ranks w ≡ some r
        → get_elem? inputs v ≡ get_elem? inputs w)
    × ((q : DataProto listed ℕ) × (collect_with_mask plain_order inputs sources ≡ ok q)
        × SameRows q sample)
unfolding batch_size count_distinct
dp_ranks-collect_example =
    dp_ranks-collect listed-Laws plain_order (λ k ks. refl) sample 4 pair_ranks sources
      sample-IsConsistent (omega arith) refl refl (omega arith) (omega arith) refl
