-- ===== src/Tests/Pools.antt =====
-- A pool of ten workers on three nodes, split by two and by uneven sizes.
use lumen_rl.Base.{
  dict_get, dict_has, ℕ, ◌≡◌, refl, List, [], ◌∷◌, arith, true, false, ok, err, none, String,
  value_error, ◌⊎◌, dict_set,
}
use lumen_rl.Cluster.{
  map_topology, ResourcePool, RayCluster, split, create_pool, get_pool, each, sizes, layout_sum,
  world_size, post_init, layout_of, split_list, all_positive, explicit_layout,
}
use lumen_rl.Cluster.Pools.{merge_all, part_sizes, split-merge_all}
use lumen_rl.Cluster.Topology.{pool_of, map_topology-pool_of, get_pool-create_pool}

abbrev pool : ResourcePool
pool = record {
  name = "rollout";
  num_gpus = 10;
  num_cpus = 10;
  node_indices = [];
  colocate_with = none;
  process_on_nodes = 4 ∷ 4 ∷ 2 ∷ [];
  max_colocate_count = 1;
  detached = false;
  topology_tags = [];
  use_placement_groups = true;
}

-- Naming of the parts, for the tests only.
abbrev digits : ℕ → String
digits n = "n"

abbrev first : List String → String
first [] = ""
first (s ∷ ss) = s

uneven : split digits first pool (sizes (3 ∷ 8 ∷ [])) none ≡ err value_error
unfolding split split_list all_positive layout_sum world_size
uneven = refl

split-merge_all_example :
    (q : ResourcePool) × (qs : List ResourcePool) × (r : ResourcePool) × (split digits first pool
        (each 5)
        none
      ≡ ok (q ∷ qs))
    × (merge_all digits first q qs ≡ ok r)
    × (r.process_on_nodes ≡ part_sizes (each 5) (world_size pool))
    × (world_size r ≡ world_size pool)
    × (r.num_gpus ≡ world_size pool)
unfolding world_size layout_sum
split-merge_all_example =
    split-merge_all digits first pool (each 5) none (omega arith, refl) (omega arith)

abbrev empty : RayCluster
empty = record {
  config = record { num_nodes = 1; gpus_per_node = 8; ray_address = none };
  pools = [];
  initialized = true;
}

abbrev actor : ResourcePool
actor = record {
  name = "actor";
  num_gpus = 8;
  num_cpus = 8;
  node_indices = [];
  colocate_with = none;
  process_on_nodes = 8 ∷ [];
  max_colocate_count = 1;
  detached = false;
  topology_tags = [];
  use_placement_groups = false;
}

abbrev with_actor : RayCluster
with_actor = record empty { pools = ("actor", actor) ∷ [] }

get_pool-create_pool_example :
    (get_pool "actor" with_actor ≡ ok actor)
    × ((◌≡◌ {A = String} "actor" "critic")
        ⊎ (get_pool "critic" with_actor ≡ get_pool "critic" empty))
unfolding create_pool explicit_layout post_init layout_of dict_set
get_pool-create_pool_example =
    get_pool-create_pool "actor" "critic" 8 none none 1 false [] empty with_actor actor refl

map_topology-pool_of_example :
    (r : List (String × ResourcePool)) × (map_topology
        (("trainer", "actor") ∷ ("rollout", "actor") ∷ [])
        with_actor
      ≡ ok r)
    × (dict_get "rollout" r
        ≡ pool_of
            (dict_get "rollout" (("trainer", "actor") ∷ ("rollout", "actor") ∷ []))
            with_actor
            none)
unfolding dict_get dict_has
map_topology-pool_of_example =
    map_topology-pool_of (("trainer", "actor") ∷ ("rollout", "actor") ∷ []) with_actor "rollout"
      ((actor, refl), ((actor, refl), tt)) (refl, (refl, tt))
