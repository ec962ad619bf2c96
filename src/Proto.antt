-- ===== src/Proto.antt =====
-- lumenrl/core/protocol.py: the class DataProto, its size, its consistency check, and the methods
-- that treat the columns one by one. The children model the methods that move rows.
-- `V` stands for Python's `Any`: the values of `meta` and the entries of the ragged columns.
pub mod Select
pub mod View
pub mod Join
pub mod Joined
pub mod Chunks
pub mod NonEmpty
pub mod Pieces
pub mod RoundTrip
pub mod Sizes
pub mod Split
pub mod Merge
pub mod Repeat
pub mod Repeated
pub mod Taken
pub mod Extended
pub mod Padded
pub mod Batched
pub mod Pad
use lumen_rl.Base.{
  ℕ, ◌≡◌, ◌<◌, Bool, true, false, ◌&&◌, List, [], ◌∷◌, ◌==◌, if◌then◌else◌, Result, ok, err,
  value_error, String, length, dict_get, dict_has, dict_set, dict_update, dict_keys, map_values,
  Option, some, none, All, guard, ◌>>◌,
}
use lumen_rl.Torch.{Torch}

pub record DataProto (T : Torch) (V : Type 0) : Type 0 where
  pub tensors : List (String × T.Tensor)
  pub meta : List (String × V)
  pub ragged : List (String × List V)

unfoldable pub all_sizes {ℓ} : {W : Type ℓ} → (W → ℕ) → ℕ → List (String × W) → Bool
all_sizes size n [] = true
all_sizes size n ((k, w) ∷ d) = (size w == n) && all_sizes size n d

-- `{k: d[k] for k in keys if k in d}`.
unfoldable pub restrict {ℓ} : {W : Type ℓ} → List String → List (String × W) → List (String × W)
restrict [] d = []
restrict (k ∷ ks) d = elim (dict_get k d) [ none ↦ restrict ks d | some w ↦ (k, w) ∷ restrict ks d ]

module _ (T : Torch) (V : Type 0) where
  -- `t.shape[0]`.
  abbrev pub shape0 : T.Tensor → ℕ
  shape0 t = length (T.rows t)

  unfoldable pub size_of : List (String × T.Tensor) → List (String × List V) → ℕ
  size_of ((k, t) ∷ ts) ragged = shape0 t
  size_of [] ((k, v) ∷ ragged) = length v
  size_of [] [] = 0

  unfoldable pub check_columns :
      List (String × T.Tensor) → List (String × List V) → Result (Unit {0})
  check_columns [] ragged = ok tt
  check_columns ((k, t) ∷ ts) ragged =
      guard (all_sizes shape0 (shape0 t) ((k, t) ∷ ts)) value_error
      >> guard (all_sizes length (shape0 t) ragged) value_error

module _ {T : Torch} {V : Type 0} where
  -- `DataProto()` and `DataProto(meta=meta)`.
  abbrev pub bare : List (String × V) → DataProto T V
  bare meta = record { tensors = []; meta = meta; ragged = [] }

  -- `__len__` and `batch_size`.
  unfoldable pub batch_size : DataProto T V → ℕ
  unfolding size_of
  batch_size p = size_of T V p.tensors p.ragged

  unfoldable pub check_consistency : DataProto T V → Result (Unit {0})
  unfolding check_columns
  check_consistency p = check_columns T V p.tensors p.ragged

  -- `select` keeps the listed tensors that are there, and all ragged columns.
  unfoldable pub select : List String → DataProto T V → DataProto T V
  unfolding restrict
  select keys p = record p { tensors = restrict keys p.tensors }

  -- `update`: the columns and the meta entries of `other` are set in `p`.
  unfoldable pub update : DataProto T V → DataProto T V → DataProto T V
  update p other = record {
    tensors = dict_update p.tensors other.tensors;
    meta = dict_update p.meta other.meta;
    ragged = dict_update p.ragged other.ragged;
  }

-- Every column, tensor or ragged, has `n` rows.
pub record HasRows {T : Torch} {V : Type 0} (n : ℕ) (p : DataProto T V) : Type 0 where
  pub tensors_rows : All (λ (c : String × T.Tensor). length (T.rows c.1) ≡ n) p.tensors
  pub ragged_rows : All (λ (c : String × List V). length c.1 ≡ n) p.ragged
