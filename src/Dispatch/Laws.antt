-- ===== src/Dispatch/Laws.antt =====
-- What dispatch and collect guarantee together, by mode.
use lumen_rl.Base.{
  ℕ, zero, suc, ◌<◌, ◌≡◌, refl, ap, ◌∙◌, true, false, List, [], ◌∷◌, map, ◌==◌, Option, some, none,
  ok, String, length, range, range_from, dict_get, dict_set, dict_get-set, arith,
}
use text.Mathlib.TextPositions.{eq_refl}
use lumen_rl.Torch.{Torch, Laws}
use lumen_rl.Proto.{DataProto, batch_size}
use lumen_rl.Proto.Split.{split}
use lumen_rl.Proto.Merge.{merge}
use lumen_rl.Proto.View.{IsConsistent, SameRows}
use lumen_rl.Proto.RoundTrip.{IsOrder, merge-split}
use lumen_rl.Proto.Sizes.{split-fair}
use lumen_rl.Dispatch.Modes.{
  DispatchMode, Mode, rank_zero, one_to_all, all_to_all, direct_rollout_method, normalize_mode,
  Options, mapping, Cache, member, round_robin_chunks, resolve_mapping, resolve_cached,
  build_nd_dispatch, dispatch_mode, dispatch_proto, dispatch_fn, dispatch_all_to_all,
  dispatch_dp_compute_data_proto,
}
use lumen_rl.Dispatch.Collect.{
  Object, values, unique_by_id, seen_before, collect_fn, collect_mode, collect_proto,
  collect_all_to_all, collect_dp_compute_data_proto,
}

-- The modes that give each worker a share of the batch.
abbrev pub IsSharded : DispatchMode → Type 0
IsSharded rank_zero = ⊥
IsSharded one_to_all = ⊥
IsSharded direct_rollout_method = ⊥
IsSharded _ = Unit

-- No mapping is given or cached.
pub record IsPlain (o : Options) : Type 0 where
  pub no_mesh : o.mesh_mapping ≡ none
  pub no_cache : o.lazy_state ≡ none

resolve_plain :
    (mesh : Option (List ℕ)) (cache : Option Cache) (key : Option String)
    → mesh ≡ none
    → cache ≡ none
    → resolve_mapping mesh cache key ≡ (none, none)
unfolding resolve_mapping
resolve_plain mesh none key e f = rw e
resolve_plain mesh (some cache) key e f = absurd (cc)

module _ {T : Torch} {V : Type 0} (L : Laws T) (p : DataProto T V) (n : ℕ) (whole : IsConsistent p)
    (some_workers : 0 < n) (o : Options) (plain : IsPlain o) where
  round_robin_same :
      (cs : List (DataProto T V)) → length cs ≡ n → 0 < n → round_robin_chunks cs n ≡ ok cs
  unfolding round_robin_chunks
  round_robin_same [] e h = absurd (omega arith)
  round_robin_same (c ∷ cs) e h = let same : (length (c ∷ cs) == n) ≡ true = ground arith in rw same

  plain_inputs : (dispatch_dp_compute_data_proto p n o).inputs ≡ ok (split p n)
  unfolding dispatch_dp_compute_data_proto build_nd_dispatch
  plain_inputs =
      rw (resolve_plain o.mesh_mapping o.lazy_state o.lazy_key plain.no_mesh plain.no_cache)

  sharded_inputs : (m : DispatchMode) → IsSharded m → (dispatch_fn m p n o).inputs ≡ ok (split p n)
  unfolding dispatch_fn dispatch_all_to_all
  sharded_inputs rank_zero h = absurd h
  sharded_inputs one_to_all h = absurd h
  sharded_inputs direct_rollout_method h = absurd h
  sharded_inputs all_to_all h =
      round_robin_same (split p n) (split-fair L p n whole some_workers).0 some_workers
  sharded_inputs _ h = plain_inputs

module _ {T : Torch} {V : Type 0} where
  dispatch_mode_positive :
      (m : DispatchMode) (p : DataProto T V) (n : ℕ) (o : Options)
      → 0 < n
      → dispatch_mode m p n o ≡ dispatch_fn m p n o
  unfolding dispatch_mode
  dispatch_mode_positive m p zero o h = absurd (omega arith)
  dispatch_mode_positive m p (suc n) o h = refl

  dispatch_known :
      (p : DataProto T V) (n : ℕ) (mode : Mode) (m : DispatchMode) (o : Options)
      → normalize_mode mode ≡ ok m
      → 0 < n
      → dispatch_proto p n mode o ≡ dispatch_fn m p n o
  unfolding dispatch_proto
  dispatch_known p n mode m o e h = rw (e, dispatch_proto) (dispatch_mode_positive m p n o h)

  sharded_collect :
      (order : List String → List String) (m : DispatchMode) (rs : List (Object T V))
      → IsSharded m
      → collect_mode order m false rs ≡ merge order (values rs)
  unfolding collect_mode merge collect_fn collect_all_to_all collect_dp_compute_data_proto
  sharded_collect order m [] h = refl
  sharded_collect order rank_zero (r ∷ rs) h = absurd h
  sharded_collect order one_to_all (r ∷ rs) h = absurd h
  sharded_collect order direct_rollout_method (r ∷ rs) h = absurd h
  sharded_collect order _ (r ∷ rs) h = refl

  collect_known :
      (order : List String → List String) (rs : List (Object T V)) (mode : Mode) (m : DispatchMode)
      → normalize_mode mode ≡ ok m
      → IsSharded m
      → collect_proto order rs mode false ≡ merge order (values rs)
  unfolding collect_proto
  collect_known order rs mode m e h = rw e (sharded_collect order m rs h)

-- A batch that is dispatched in shares and collected again.
module _ {T : Torch} {V : Type 0} (L : Laws T) (order : List String → List String)
    (is_order : IsOrder order) (p : DataProto T V) (n : ℕ) (mode : Mode) (m : DispatchMode)
    (o : Options) where
  -- Let the tensor laws hold and the key order be one of a set. In each sharded mode (the data-
  -- parallel modes and all_to_all), with no mesh mapping and no cache, a consistent batch that is
  -- not empty is dispatched to n > 0 workers as n inputs; and when the workers return these,
  -- collecting them without deduplication succeeds and gives the rows of every tensor and ragged
  -- column and the meta entries back.
  pub dispatch-collect :
      IsConsistent p
      → 0 < batch_size p
      → 0 < n
      → normalize_mode mode ≡ ok m
      → IsSharded m
      → IsPlain o
      → (inputs : List (DataProto T V)) × ((dispatch_proto p n mode o).inputs ≡ ok inputs)
        × (length inputs ≡ n)
        × ((rs : List (Object T V))
            → values rs ≡ inputs
            → (q : DataProto T V) × (collect_proto order rs mode false ≡ ok q) × SameRows q p)
  dispatch-collect whole positive some_workers known sharded plain =
      let (q, merged, same) = merge-split L p n whole positive some_workers order is_order in
      (
        split p n,
        ap (λ d. d.inputs) (dispatch_known p n mode m o known some_workers)
            ∙ sharded_inputs L p n whole some_workers o plain m sharded,
        (split-fair L p n whole some_workers).0,
        λ rs returned. (
          q,
          collect_known order rs mode m known sharded ∙ ap (merge order) returned ∙ merged,
          same,
        ),
      )

-- One object that every worker returns is collected once.
module _ {T : Torch} {V : Type 0} where
  unique_seen :
      (i : ℕ) (p : DataProto T V) (seen : List ℕ) (ks : List ℕ)
      → seen_before i seen ≡ true
      → unique_by_id seen (map (λ _. (i, p)) ks) ≡ []
  unfolding unique_by_id
  unique_seen i p seen [] h = refl
  unique_seen i p seen (k ∷ ks) h = rw (h, unique_by_id) (unique_seen i p seen ks h)

  -- Where n > 0 workers all return the same object in the mode one_to_all, collecting with
  -- deduplication by identity is merging that object alone.
  pub collect_shared :
      (order : List String → List String) (i : ℕ) (p : DataProto T V) (n : ℕ)
      → 0 < n
      → collect_proto order (map (λ _. (i, p)) (range n)) (member one_to_all) true
        ≡ merge order (p ∷ [])
  unfolding collect_proto normalize_mode collect_mode collect_fn collect_all_to_all unique_by_id
      seen_before
  collect_shared order i p zero h = absurd (omega arith)
  collect_shared order i p (suc n) h =
      ap (λ ps. merge order (p ∷ ps)) (unique_seen i p (i ∷ []) (range_from 1 n) (ground arith))

-- A mesh mapping that is given with a key which the cache does not hold is used and cached, and a
-- later call with that cache and key uses it again, whatever mapping that call is given, and
-- leaves the cache as it is.
pub resolve_mapping_again :
    (key : String) (ids : List ℕ) (later : Option (List ℕ)) (cache : Cache)
    → dict_get key cache ≡ none
    → (after : Cache) × (resolve_mapping (some ids) (some cache) (some key)
        ≡ (some ids, some after))
      × (resolve_mapping later (some after) (some key) ≡ (some ids, some after))
unfolding resolve_mapping resolve_cached
resolve_mapping_again key ids later cache fresh = (
  dict_set key (mapping ids) cache,
  rw fresh,
  rw (dict_get-set key key (mapping ids) cache, eq_refl key),
)
