-- ===== src/Cluster.antt =====
-- lumenrl/controller/ray_cluster.py: resource pools and the cluster that holds them.
-- Counts are not negative. Python's `str` of a number is a parameter, `str`, and so is joining texts
-- by `_`, `joined`, both used only to name pools. Calls of ray are recorded as values.
pub mod Pools
pub mod Topology
use lumen_rl.Base.{
  ℕ, zero, suc, ◌+◌, ◌*◌, ◌/◌, ◌%◌, Bool, true, false, not, ◌&&◌, List, [], ◌∷◌, ◌++◌, Option, some,
  none, String, if◌then◌else◌, ltb, ◌==◌, replicate, str_eq, dict_get, dict_set, dict_update,
  Result, ok, err, ◌>>=◌, ◌>>◌, guard, value_error, key_error, or_raise,
}

pub record ResourcePool : Type 0 where
  pub name : String
  pub num_gpus : ℕ
  pub num_cpus : ℕ
  pub node_indices : List ℕ
  pub colocate_with : Option String
  pub process_on_nodes : List ℕ
  pub max_colocate_count : ℕ
  pub detached : Bool
  pub topology_tags : List (String × String)
  pub use_placement_groups : Bool

-- `__post_init__`, on the layout.
unfoldable pub layout_of : List ℕ → ℕ → List ℕ
layout_of [] num_gpus = num_gpus ∷ []
layout_of (n ∷ ns) num_gpus = n ∷ ns

unfoldable pub post_init : ResourcePool → ResourcePool
unfolding layout_of
post_init p = record p { process_on_nodes = layout_of p.process_on_nodes p.num_gpus }

unfoldable pub layout_sum : List ℕ → ℕ
layout_sum [] = 0
layout_sum (n ∷ ns) = n + layout_sum ns

-- `world_size`.
unfoldable pub world_size : ResourcePool → ℕ
unfolding layout_sum
world_size p = layout_sum p.process_on_nodes

pub data SplitSize : Type 0 where
  each : ℕ → SplitSize
  sizes : List ℕ → SplitSize

unfoldable pub all_positive : List ℕ → Bool
all_positive [] = true
all_positive (n ∷ ns) = ltb 0 n && all_positive ns

-- `split_list`.
unfoldable pub split_list : SplitSize → ℕ → Result (List ℕ)
unfolding all_positive layout_sum
split_list (each zero) total = err value_error
split_list (each (suc n)) total =
    guard (total % suc n == 0) value_error >> ok (replicate (total / suc n) (suc n))
split_list (sizes ns) total = guard (all_positive ns && layout_sum ns == total) value_error >> ok ns

-- `a or b` on optional texts: an empty text counts as missing.
unfoldable pub or_else : Option String → Option String → Option String
or_else none b = b
or_else (some a) b = if str_eq a "" then b else some a

module _ (str : ℕ → String) (joined : List String → String) where
  unfoldable pub part_name : String → Option String → ℕ → String
  part_name name none idx = joined (name ∷ "split" ∷ str idx ∷ [])
  part_name name (some suffix) idx = joined (name ∷ suffix ∷ str idx ∷ [])

  -- The loop of `split`.
  unfoldable pub parts_from : ResourcePool → Option String → ℕ → List ℕ → List ResourcePool
  unfolding part_name post_init
  parts_from p suffix idx [] = []
  parts_from p suffix idx (sz ∷ szs) =
      post_init (record {
        name = part_name p.name suffix idx;
        num_gpus = sz;
        num_cpus = sz;
        node_indices = p.node_indices;
        colocate_with = p.colocate_with;
        process_on_nodes = sz ∷ [];
        max_colocate_count = p.max_colocate_count;
        detached = p.detached;
        topology_tags = p.topology_tags;
        use_placement_groups = false;
      })
      ∷ parts_from p suffix (suc idx) szs

  -- `ResourcePool.split`.
  unfoldable pub split : ResourcePool → SplitSize → Option String → Result (List ResourcePool)
  unfolding split_list parts_from world_size
  split p split_size suffix = do
    szs ← split_list split_size (world_size p)
    ok (parts_from p suffix 0 szs)

  unfoldable pub merged_name : Option String → String → String → String
  merged_name none a b = joined (a ∷ b ∷ [])
  merged_name (some name) a b = if str_eq name "" then joined (a ∷ b ∷ []) else name

  -- `ResourcePool.merge_with`.
  unfoldable pub merge_with : ResourcePool → ResourcePool → Option String → Result ResourcePool
  unfolding merged_name or_else post_init
  merge_with p o name =
      guard (p.max_colocate_count == o.max_colocate_count) value_error
      >> ok (
          post_init (record {
            name = merged_name name p.name o.name;
            num_gpus = p.num_gpus + o.num_gpus;
            num_cpus = p.num_cpus + o.num_cpus;
            node_indices = p.node_indices ++ o.node_indices;
            colocate_with = or_else p.colocate_with o.colocate_with;
            process_on_nodes = p.process_on_nodes ++ o.process_on_nodes;
            max_colocate_count = p.max_colocate_count;
            detached = p.detached && o.detached;
            topology_tags = dict_update p.topology_tags o.topology_tags;
            use_placement_groups = false;
          }))

-- `ClusterConfig`, as far as it is read here.
pub record ClusterConfig : Type 0 where
  pub num_nodes : ℕ
  pub gpus_per_node : ℕ
  pub ray_address : Option String

pub record RayCluster : Type 0 where
  pub config : ClusterConfig
  pub pools : List (String × ResourcePool)
  pub initialized : Bool

-- What is asked of ray.
pub data RayCall : Type 0 where
  connect : String → RayCall
  start_local : ℕ → RayCall
  shut_down : RayCall

unfoldable pub total_gpus : RayCluster → ℕ
total_gpus c = c.config.num_nodes * c.config.gpus_per_node

unfoldable pub init_call : Option String → ℕ → RayCall
init_call none gpus = start_local gpus
init_call (some address) gpus = if str_eq address "" then start_local gpus else connect address

-- `init` and `shutdown`, with the calls that they make.
unfoldable pub init : RayCluster → RayCluster × List RayCall
unfolding init_call total_gpus
init c =
    if c.initialized
    then (c, [])
    else (record c { initialized = true }, init_call c.config.ray_address (total_gpus c) ∷ [])

unfoldable pub shutdown : RayCluster → RayCluster × List RayCall
shutdown c = if c.initialized then (record c { initialized = false }, shut_down ∷ []) else (c, [])

unfoldable pub explicit_layout : Option (List ℕ) → ℕ → List ℕ × Bool
explicit_layout none num_gpus = (num_gpus ∷ [], false)
explicit_layout (some layout) num_gpus = (layout, true)

-- `create_pool`.
unfoldable pub create_pool :
    String
    → ℕ
    → Option String
    → Option (List ℕ)
    → ℕ
    → Bool
    → List (String × String)
    → RayCluster
    → RayCluster × ResourcePool
unfolding explicit_layout post_init
create_pool name num_gpus colocate_with process_on_nodes max_colocate_count detached tags c =
    let (layout, explicit_pg) = explicit_layout process_on_nodes num_gpus in
    let pool : ResourcePool = post_init (record {
      name = name;
      num_gpus = num_gpus;
      num_cpus = num_gpus;
      node_indices = [];
      colocate_with = colocate_with;
      process_on_nodes = layout;
      max_colocate_count = max_colocate_count;
      detached = detached;
      topology_tags = tags;
      use_placement_groups = explicit_pg;
    }) in
    (record c { pools = dict_set name pool c.pools }, pool)

-- `get_pool`.
unfoldable pub get_pool : String → RayCluster → Result ResourcePool
get_pool name c = or_raise (dict_get name c.pools) key_error

-- The loop of `map_topology`, over the items of the mapping.
unfoldable pub map_from :
    List (String × String)
    → RayCluster
    → List (String × ResourcePool)
    → Result (List (String × ResourcePool))
unfolding get_pool
map_from [] c resolved = ok resolved
map_from ((role, pool_name) ∷ mapping) c resolved = do
  pool ← get_pool pool_name c
  map_from mapping c (dict_set role pool resolved)

unfoldable pub map_topology :
    List (String × String) → RayCluster → Result (List (String × ResourcePool))
unfolding map_from
map_topology mapping c = map_from mapping c []
