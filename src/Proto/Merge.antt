-- ===== src/Proto/Merge.antt =====
-- lumenrl/core/protocol.py: `merge`, `concat` and `_ragged_concat`.
use lumen_rl.Base.{
  ℕ, ◌-◌, Bool, true, false, ◌&&◌, List, [], ◌∷◌, map, ◌==◌, ltb, if◌then◌else◌, some, none, Result,
  ok, err, ◌>>=◌, ◌>>◌, guard, or_raise, traverse, traverse_keys, value_error, key_error,
  index_error, String, str_eq, max, dict_get, dict_keys, flat_map,
}
use lumen_rl.Torch.{Torch}
use lumen_rl.Proto.{DataProto, bare, batch_size}

-- `k in keys`.
unfoldable pub key_in : String → List String → Bool
key_in k [] = false
key_in k (j ∷ js) = if str_eq j k then true else key_in k js

-- Every key of the first set is in the second.
unfoldable pub keys_within : List String → List String → Bool
unfolding key_in
keys_within [] js = true
keys_within (k ∷ ks) js = key_in k js && keys_within ks js

-- `set(ks) == set(js)`.
unfoldable pub same_keys : List String → List String → Bool
unfolding keys_within
same_keys ks js = keys_within ks js && keys_within js ks

-- `p.ragged.get(k, [])`.
unfoldable pub ragged_or_nil : {V : Type 0} → String → List (String × List V) → List V
ragged_or_nil k ragged = elim (dict_get k ragged) [ none ↦ [] | some v ↦ v ]

-- The keys of a dictionary that is not empty, or else the others.
unfoldable pub first_keys : {V : Type 0} → List (String × List V) → List String → List String
first_keys [] others = others
first_keys (c ∷ cs) others = dict_keys (c ∷ cs)

unfoldable pub max_of : List ℕ → ℕ
max_of [] = 0
max_of (n ∷ ns) = max n (max_of ns)

unfoldable pub all_equal : ℕ → List ℕ → Bool
all_equal m [] = true
all_equal m (n ∷ ns) = (n == m) && all_equal m ns

module _ (T : Torch) where
  -- `t.shape[1]`.
  unfoldable pub shape1 : T.Tensor → Result ℕ
  shape1 t = elim (T.tail_shape t) [ [] ↦ err index_error | w ∷ ws ↦ ok w ]

  unfoldable pub pad_to : ℕ → T.Tensor → Result T.Tensor
  pad_to m t = do w ← shape1 t; ok (if ltb 0 (m - w) then T.pad_right t (m - w) else t)

  unfoldable pub pad_parts : List ℕ → List T.Tensor → Result (List T.Tensor)
  pad_parts ws parts =
      let m = max_of ws in if all_equal m ws then ok parts else traverse (pad_to m) parts

  -- Tensors of two or more dimensions are padded to the longest dim 1.
  unfoldable pub align_by : List ℕ → List T.Tensor → Result (List T.Tensor)
  align_by [] parts = ok parts
  align_by (w ∷ ws) parts = do widths ← traverse shape1 parts; pad_parts widths parts

  unfoldable pub align : List T.Tensor → Result (List T.Tensor)
  align [] = ok []
  align (t ∷ ts) = align_by (T.tail_shape t) (t ∷ ts)

module _ {T : Torch} {V : Type 0} where
  -- `[p for p in protos if p.batch_size > 0]`.
  unfoldable pub non_empty : List (DataProto T V) → List (DataProto T V)
  non_empty [] = []
  non_empty (p ∷ ps) = if ltb 0 (batch_size p) then p ∷ non_empty ps else non_empty ps

  -- The keys of the first proto that has ragged columns.
  unfoldable pub ragged_keys : List (DataProto T V) → List String
  ragged_keys [] = []
  ragged_keys (p ∷ ps) = first_keys p.ragged (ragged_keys ps)

  unfoldable pub ragged_column : List (DataProto T V) → String → String × List V
  unfolding ragged_or_nil
  ragged_column ps k = (k, flat_map (λ p. ragged_or_nil k p.ragged) ps)

  unfoldable pub ragged_concat : List (DataProto T V) → List (String × List V)
  unfolding ragged_keys ragged_column
  ragged_concat ps = map (ragged_column ps) (ragged_keys ps)

  -- `p.tensors[key]` of every proto.
  unfoldable pub parts_of : List (DataProto T V) → String → Result (List T.Tensor)
  parts_of ps k = traverse (λ p. or_raise (dict_get k p.tensors) key_error) ps

  -- Every later chunk has the keys of the first.
  unfoldable pub keys_agree : List String → List (DataProto T V) → Bool
  unfolding same_keys
  keys_agree ks [] = true
  keys_agree ks (p ∷ ps) = same_keys (dict_keys p.tensors) ks && keys_agree ks ps

  unfoldable pub merge_column : List (DataProto T V) → String → Result T.Tensor
  merge_column ps k = do parts ← parts_of ps k; aligned ← align T parts; T.cat aligned

  unfoldable pub concat_column : List (DataProto T V) → String → Result T.Tensor
  concat_column ps k = do parts ← parts_of ps k; T.cat parts

  unfoldable pub merge_chunks :
      (List String → List String)
      → List (String × V)
      → List (DataProto T V)
      → Result (DataProto T V)
  merge_chunks order meta [] = ok (bare meta)
  merge_chunks order meta (p ∷ ps) = do
    guard (keys_agree (dict_keys p.tensors) ps) value_error
    tensors ← traverse_keys (merge_column (p ∷ ps)) (order (dict_keys p.tensors))
    ok (record { tensors = tensors; meta = p.meta; ragged = ragged_concat (p ∷ ps) })

  -- `merge`. Its columns come in the iteration order of a set of keys, which is unspecified: `order`.
  unfoldable pub merge : (List String → List String) → List (DataProto T V) → Result (DataProto T V)
  merge order [] = ok (bare [])
  merge order (p ∷ ps) = merge_chunks order p.meta (non_empty (p ∷ ps))

  unfoldable pub concat_chunks : List (String × V) → List (DataProto T V) → Result (DataProto T V)
  concat_chunks meta [] = ok (bare meta)
  concat_chunks meta (p ∷ ps) = do
    tensors ← traverse_keys (concat_column (p ∷ ps)) (dict_keys p.tensors)
    ok (record { tensors = tensors; meta = p.meta; ragged = ragged_concat (p ∷ ps) })

  unfoldable pub concat : List (DataProto T V) → Result (DataProto T V)
  concat [] = ok (bare [])
  concat (p ∷ ps) = concat_chunks p.meta (non_empty (p ∷ ps))
