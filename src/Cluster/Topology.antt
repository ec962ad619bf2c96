-- ===== src/Cluster/Topology.antt =====
-- Pools by their names.
use lumen_rl.Base.{
  ℕ, ◌≡◌, refl, sym, ap, ◌∙◌, subst, Bool, false, List, [], ◌∷◌, Option, none, some, String, ok,
  or_raise, key_error, dict_get, dict_set, dict_get-set, dict_has, dict_has_iff, str_eq,
  if◌then◌else◌, Bool-cases, ◌⊎◌, inl, inr, ◌>>=◌,
}
use text.Mathlib.TextEquality.{eq_iff}
use lumen_rl.Cluster.{RayCluster, ResourcePool, create_pool, get_pool, map_from, map_topology}

get_pool-dict_set :
    (name other : String) (pool : ResourcePool) (c c' : RayCluster)
    → c'.pools ≡ dict_set name pool c.pools
    → get_pool other c'
      ≡ or_raise (if str_eq name other then some pool else dict_get other c.pools) key_error
unfolding get_pool
get_pool-dict_set name other pool c c' e =
    ap (λ d. or_raise (dict_get other d) key_error) e
    ∙ ap (λ t. or_raise t key_error) (dict_get-set name other pool c.pools)

-- A pool was added to those of `c` under the name `name`.
abbrev Added : String → RayCluster → RayCluster × ResourcePool → Type 0
Added name c (c', pool) = c'.pools ≡ dict_set name pool c.pools

-- After a pool is created, its name gives that pool, and every other name gives what it gave.
pub get_pool-create_pool :
    (name other : String) (num_gpus : ℕ) (colocate_with : Option String) (layout : Option (List ℕ))
    (count : ℕ) (detached : Bool) (tags : List (String × String)) (c c' : RayCluster)
    (pool : ResourcePool)
    → create_pool name num_gpus colocate_with layout count detached tags c ≡ (c', pool)
    → (get_pool name c' ≡ ok pool) × ((name ≡ other) ⊎ (get_pool other c' ≡ get_pool other c))
unfolding get_pool create_pool
get_pool-create_pool name other num_gpus colocate_with layout count detached tags c c' pool e =
    let pools : c'.pools ≡ dict_set name pool c.pools = subst (Added name c) e refl in
    (
      get_pool-dict_set name name pool c c' pools
          ∙ ap (λ b. or_raise (if b then some pool else dict_get name c.pools) key_error)
              ((eq_iff name name).1 refl),
      elim (Bool-cases (str_eq name other)) [
        | inl same ↦ inl ((eq_iff name other).0 same)
        | inr apart ↦ inr (
            get_pool-dict_set name other pool c c' pools
            ∙ ap (λ b. or_raise (if b then some pool else dict_get other c.pools) key_error) apart)
      ],
    )

-- Every pool that the mapping names is there.
abbrev pub Known : List (String × String) → RayCluster → Type 0
Known [] c = Unit
Known ((role, name) ∷ mapping) c =
    ((pool : ResourcePool) × (dict_get name c.pools ≡ some pool)) × Known mapping c

-- No role is named twice, as in a dictionary.
abbrev pub Unique : List (String × String) → Type 0
Unique [] = Unit
Unique ((role, name) ∷ mapping) = (dict_has role mapping ≡ false) × Unique mapping

-- The pool of a name, if there is a name.
abbrev pub pool_of : Option String → RayCluster → Option ResourcePool → Option ResourcePool
pool_of none c before = before
pool_of (some name) c before = dict_get name c.pools

map_from-pool_of :
    (mapping : List (String × String)) (c : RayCluster) (acc : List (String × ResourcePool))
    (role : String)
    → Known mapping c
    → Unique mapping
    → (r : List (String × ResourcePool)) × (map_from mapping c acc ≡ ok r)
      × (dict_get role r ≡ pool_of (dict_get role mapping) c (dict_get role acc))
unfolding map_from get_pool dict_get
map_from-pool_of [] c acc role known unique = (acc, refl, refl)
map_from-pool_of ((k, name) ∷ mapping) c acc role ((pool, e), known) (h, unique) =
    let (r, f, g) = map_from-pool_of mapping c (dict_set k pool acc) role known unique in
    (
      r,
      ap (λ o. or_raise o key_error >>= λ p. map_from mapping c (dict_set k p acc)) e ∙ f,
      g
          ∙ ap (pool_of (dict_get role mapping) c) (dict_get-set k role pool acc)
          ∙ elim (Bool-cases (str_eq k role)) [
            | inl same ↦ rw same (
                ap (λ o. pool_of o c (some pool))
                  (dict_has_iff role mapping
                    (subst (λ j. dict_has j mapping ≡ false) ((eq_iff k role).0 same) h))
                ∙ sym e)
            | inr apart ↦ rw apart refl
          ],
    )

-- If a topology names each role once and every pool that it names is there, resolving it succeeds,
-- and gives each role the pool of the name that the topology gives it, and no other role a pool.
pub map_topology-pool_of :
    (mapping : List (String × String)) (c : RayCluster) (role : String)
    → Known mapping c
    → Unique mapping
    → (r : List (String × ResourcePool)) × (map_topology mapping c ≡ ok r)
      × (dict_get role r ≡ pool_of (dict_get role mapping) c none)
unfolding map_topology dict_get
map_topology-pool_of mapping c role known unique = map_from-pool_of mapping c [] role known unique
