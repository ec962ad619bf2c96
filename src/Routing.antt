-- ===== src/Routing.antt =====
-- lumenrl/moe/rollout_routing.py: the experts that the rollout chose, packed in the order of
-- `pack_sequences` and replayed in the training pass.
-- An entry is the choice at one position: for each layer the ids of its experts. Probabilities are
-- rows of values of any type. Layer names (`layer_index_of`) are left out.
pub mod Blocks
pub mod Choices
pub mod Replay
use lumen_rl.Base.{
  ℕ, zero, suc, ◌+◌, ◌-◌, min, Bool, true, false, ◌&&◌, List, [], ◌∷◌, map, if◌then◌else◌, ltb,
  ◌==◌, length, replicate, take, get_or, Option, some, none, Result, ok, err, ◌>>=◌, ◌>>◌, guard,
  runtime_error, or_raise, get_elem?,
}
use lumen_rl.Base.Ranges.{overwrite}
use lumen_rl.Packing.{total_of}

abbrev pub Entry : Type 0
Entry = List (List ℕ)

-- The engine's array for one sequence: its entries and the rest of its shape.
pub record RouteArray : Type 0 where
  pub entries : List Entry
  pub n_layers : ℕ
  pub top_k : ℕ

-- `_Routing`; `n_layers` is `indices.shape[1]`.
pub record Routing : Type 0 where
  pub indices : List Entry
  pub n_layers : ℕ
  pub valid : List Bool

-- `indices[:, layer_idx]` at one position.
abbrev pub at_layer : ℕ → Entry → List ℕ
at_layer layer entry = get_or entry layer []

-- `_Routing.for_layer`.
unfoldable pub for_layer : Routing → Option ℕ → ℕ → Result (Option (List (List ℕ) × List Bool))
for_layer r none n_tokens = ok none
for_layer r (some layer) n_tokens =
    if ltb layer r.n_layers
    then (if length r.indices == n_tokens
        then ok (some (map (at_layer layer) r.indices, r.valid))
        else err runtime_error)
    else ok none

-- Broadcasting: a dimension of size 1 is spread, and any other must agree.
abbrev pub wide : ℕ → ℕ → ℕ
wide m n = if m == 1 then n else m

unfoldable pub spread {ℓ} : {A : Type ℓ} → ℕ → List A → Result (List A)
spread n [] = if n == 0 then ok [] else err runtime_error
spread n (x ∷ []) = ok (replicate n x)
spread n (x ∷ y ∷ xs) = if length (x ∷ y ∷ xs) == n then ok (x ∷ y ∷ xs) else err runtime_error

-- One row of `torch.where(valid.unsqueeze(1), injected, indices)`.
unfoldable pub where_row : Bool → List ℕ → List ℕ → Result (List ℕ)
unfolding spread
where_row v xs ys = do
  xs' ← spread (wide (length xs) (length ys)) xs
  ys' ← spread (wide (length xs) (length ys)) ys
  ok (if v then xs' else ys')

unfoldable pub where_rows : List Bool → List (List ℕ) → List (List ℕ) → Result (List (List ℕ))
unfolding where_row
where_rows (v ∷ vs) (x ∷ xs) (y ∷ ys) = do
  row ← where_row v x y
  rest ← where_rows vs xs ys
  ok (row ∷ rest)
where_rows _ _ _ = ok []

-- `torch.where(valid.unsqueeze(1), injected, indices)`.
unfoldable pub where_valid : List Bool → List (List ℕ) → List (List ℕ) → Result (List (List ℕ))
unfolding spread where_rows
where_valid valid injected indices = do
  let n = wide (length valid) (wide (length injected) (length indices))
  vs ← spread n valid
  xs ← spread n injected
  ys ← spread n indices
  where_rows vs xs ys

-- `router_probs.gather(1, merged)`: each id must be below the number of experts, and the ids may
-- have fewer rows than the probabilities, but not more.
module _ {W : Type 0} where
  unfoldable pub gather_row : List W → List ℕ → Result (List W)
  gather_row probs [] = ok []
  gather_row probs (i ∷ ids) = do
    w ← or_raise (get_elem? probs i) runtime_error
    ws ← gather_row probs ids
    ok (w ∷ ws)

  unfoldable pub gather_rows : List (List W) → List (List ℕ) → Result (List (List W))
  unfolding gather_row
  gather_rows probs [] = ok []
  gather_rows [] (ids ∷ rest) = err runtime_error
  gather_rows (p ∷ probs) (ids ∷ rest) = do
    row ← gather_row p ids
    rows ← gather_rows probs rest
    ok (row ∷ rows)

  unfoldable pub merged :
      List (List W)
      → List (List ℕ)
      → Option (List (List ℕ) × List Bool)
      → Result (Option (List (List W) × List (List ℕ)))
  unfolding where_valid gather_rows
  merged router_probs indices none = ok none
  merged router_probs indices (some (injected, valid)) = do
    ids ← where_valid valid injected indices
    top_value ← gather_rows router_probs ids
    ok (some (top_value, ids))

  -- `apply_replay`, with the module's global as its first argument.
  unfoldable pub apply_replay :
      Option Routing
      → List (List W)
      → List (List ℕ)
      → Option ℕ
      → Result (Option (List (List W) × List (List ℕ)))
  unfolding for_layer merged
  apply_replay none router_probs indices layer_idx = ok none
  apply_replay (some cur) router_probs indices layer_idx = do
    found ← for_layer cur layer_idx (length router_probs)
    merged router_probs indices found

-- `RoutingReplayContext`: `new` is what it installs, `prev` what it has found.
pub record ReplayContext : Type 0 where
  pub new : Option Routing
  pub prev : Option Routing

-- `__init__`.
unfoldable pub make_context : Option (List Entry × List Bool) → ℕ → ReplayContext
make_context none n_layers = record { new = none; prev = none }
make_context (some (indices, valid)) n_layers = record {
  new = some (record { indices = indices; n_layers = n_layers; valid = valid });
  prev = none;
}

-- `__enter__` and `__exit__`, with the module's global.
unfoldable pub enter : ReplayContext → Option Routing → ReplayContext × Option Routing
enter c routing = (record c { prev = routing }, c.new)

unfoldable pub exit : ReplayContext → Option Routing → Option Routing
exit c routing = c.prev

-- How many entries a sequence of `sl` tokens takes.
unfoldable pub covered : Option RouteArray → ℕ → ℕ
covered none sl = 0
covered (some r) sl = if ltb 1 sl then min (length r.entries) (sl - 1) else 0

-- `rows[i]` and what is left of the rows; missing rows count as None.
abbrev pub first_row : List (Option RouteArray) → Option RouteArray
first_row [] = none
first_row (r ∷ rows) = r

abbrev pub other_rows : List (Option RouteArray) → List (Option RouteArray)
other_rows [] = []
other_rows (r ∷ rows) = rows

unfoldable pub block_of : ℕ → ℕ → Option RouteArray → ℕ → Result (List Entry)
unfolding covered
block_of n_layers top_k none sl = ok []
block_of n_layers top_k (some r) sl =
    if ltb 0 (covered (some r) sl)
    then guard (r.n_layers == n_layers && r.top_k == top_k) runtime_error
      >> ok (take (covered (some r) sl) r.entries)
    else ok []

-- The loop of `pack_rollout_routing`.
unfoldable pub pack_routes :
    ℕ
    → ℕ
    → List (Option RouteArray)
    → List ℕ
    → ℕ
    → List Entry
    → List Bool
    → Result (List Entry × List Bool)
unfolding block_of
pack_routes n_layers top_k rows [] off indices valid = ok (indices, valid)
pack_routes n_layers top_k rows (sl ∷ lens) off indices valid = do
  block ← block_of n_layers top_k (first_row rows) sl
  pack_routes n_layers top_k (other_rows rows) lens (off + sl) (overwrite off block indices)
      (overwrite off (replicate (length block) true) valid)

abbrev pub zero_entry : ℕ → ℕ → Entry
zero_entry n_layers top_k = replicate n_layers (replicate top_k 0)

-- `pack_rollout_routing`; for `(None, None)` the result is none.
unfoldable pub pack_rollout_routing :
    List (Option RouteArray) → List ℕ → ℕ → ℕ → Result (Option (List Entry × List Bool))
unfolding total_of pack_routes
pack_rollout_routing [] lens n_layers top_k = ok none
pack_rollout_routing (r ∷ rows) lens n_layers top_k = if total_of lens == 0 then ok none else (do
  out ←
      pack_routes n_layers top_k (r ∷ rows) lens 0
        (replicate (total_of lens) (zero_entry n_layers top_k)) (replicate (total_of lens) false)
  ok (some out))
