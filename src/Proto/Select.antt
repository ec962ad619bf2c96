-- ===== src/Proto/Select.antt =====
-- lumenrl/core/protocol.py: indices (`_normalize_indices`), `select_idxs`, `reorder`, `_ragged_at`.
-- An index tensor is 1-D; a slice has no step.
use lumen_rl.Base.{
  ℕ, zero, suc, ◌<◌, ◌≡◌, refl, arith, ◌-◌, Bool, List, [], ◌∷◌, map, ◌==◌, if◌then◌else◌, Option,
  some, none, Result, ok, ◌>>=◌, ◌>>◌, guard, value_error, String, length, slice, range, min,
  gather, traverse_values,
}
use lumen_rl.Base.Int.{ℤ, pos, negsuc, ◌+ℤ◌}
use lumen_rl.Torch.{Torch}
use lumen_rl.Proto.{DataProto, bare, batch_size}

-- What a caller may pass as `idxs`.
pub data Index : Type 0 where
  at : ℤ → Index
  span : Option ℤ → Option ℤ → Index
  ints : List ℤ → Index
  bools : List Bool → Index

-- The 1-D tensor that it becomes.
pub data Norm : Type 0 where
  long : List ℤ → Norm
  mask : List Bool → Norm

-- A slice bound over `n` entries, counted from the end where negative, and clamped.
unfoldable pub slice_bound : ℕ → ℤ → ℕ
slice_bound n (pos i) = min i n
slice_bound n (negsuc i) = n - suc i

unfoldable pub slice_start : ℕ → Option ℤ → ℕ
unfolding slice_bound
slice_start n none = 0
slice_start n (some i) = slice_bound n i

unfoldable pub slice_stop : ℕ → Option ℤ → ℕ
unfolding slice_bound
slice_stop n none = n
slice_stop n (some i) = slice_bound n i

-- `torch.where(i < 0, i + n, i)`.
unfoldable pub wrap : ℕ → ℤ → ℤ
unfolding ◌+ℤ◌
wrap n (pos i) = pos i
wrap n (negsuc i) = negsuc i +ℤ pos n

unfoldable pub normalize_indices : ℕ → Index → Result Norm
unfolding wrap slice_start slice_stop
normalize_indices n (at i) = ok (long (map (wrap n) (wrap n i ∷ [])))
normalize_indices n (span a b) =
    ok (long (map (wrap n) (map pos (slice (slice_start n a) (slice_stop n b) (range n)))))
normalize_indices n (ints is) = ok (long (map (wrap n) is))
normalize_indices n (bools bs) = guard (length bs == n) value_error >> ok (mask bs)

-- The positions at which a mask is true, from `i` on: `norm.nonzero(as_tuple=True)[0]`.
unfoldable pub nonzero : ℕ → List Bool → List ℤ
nonzero i [] = []
nonzero i (b ∷ bs) = if b then pos i ∷ nonzero (suc i) bs else nonzero (suc i) bs

unfoldable pub positions : Norm → List ℤ
unfolding nonzero
positions (long is) = is
positions (mask bs) = nonzero 0 bs

-- `tensor[index]`.
unfoldable pub index_by : (T : Torch) → Norm → T.Tensor → Result T.Tensor
index_by T (long is) t = T.index t is
index_by T (mask bs) t = T.mask t bs

-- `_ragged_at`: every ragged column at the same positions.
unfoldable pub ragged_at :
    {V : Type 0} → List (String × List V) → List ℤ → Result (List (String × List V))
ragged_at ragged is = traverse_values (λ v. gather v is) ragged

module _ {T : Torch} {V : Type 0} where
  -- The columns at the normalized index; `select_idxs` and `reorder` share it.
  unfoldable pub take_rows : DataProto T V → Norm → Result (DataProto T V)
  unfolding index_by positions ragged_at
  take_rows p norm = do
    out ← traverse_values (index_by T norm) p.tensors
    ragged ← ragged_at p.ragged (positions norm)
    ok (record { tensors = out; meta = p.meta; ragged = ragged })

  select_by : ℕ → DataProto T V → Index → Result (DataProto T V)
  unfolding take_rows normalize_indices
  select_by zero p idxs = ok (bare p.meta)
  select_by (suc n) p idxs = normalize_indices (suc n) idxs >>= take_rows p

  unfoldable pub select_idxs : DataProto T V → Index → Result (DataProto T V)
  unfolding select_by
  select_idxs p idxs = select_by (batch_size p) p idxs

  reorder_by : ℕ → DataProto T V → Index → Result (DataProto T V)
  unfolding take_rows normalize_indices
  reorder_by zero p idxs = ok p
  reorder_by (suc n) p idxs = normalize_indices (suc n) idxs >>= take_rows p

  -- `reorder` returns the object as it is after the call.
  unfoldable pub reorder : DataProto T V → Index → Result (DataProto T V)
  unfolding reorder_by
  reorder p idxs = reorder_by (batch_size p) p idxs

  reorder_by-rows :
      (n : ℕ) (p : DataProto T V) (idxs : Index)
      → 0 < n
      → reorder_by n p idxs ≡ (normalize_indices n idxs >>= take_rows p)
  unfolding reorder_by
  reorder_by-rows zero p idxs h = absurd (omega arith)
  reorder_by-rows (suc n) p idxs h = refl

  -- A batch with rows is reordered by its columns.
  pub reorder-rows :
      (p : DataProto T V) (idxs : Index)
      → 0 < batch_size p
      → reorder p idxs ≡ (normalize_indices (batch_size p) idxs >>= take_rows p)
  unfolding reorder
  reorder-rows p idxs h = reorder_by-rows (batch_size p) p idxs h

  select_by-rows :
      (n : ℕ) (p : DataProto T V) (idxs : Index)
      → 0 < n
      → select_by n p idxs ≡ (normalize_indices n idxs >>= take_rows p)
  unfolding select_by
  select_by-rows zero p idxs h = absurd (omega arith)
  select_by-rows (suc n) p idxs h = refl

  -- Rows of a batch with rows are selected from its columns.
  pub select_idxs-rows :
      (p : DataProto T V) (idxs : Index)
      → 0 < batch_size p
      → select_idxs p idxs ≡ (normalize_indices (batch_size p) idxs >>= take_rows p)
  unfolding select_idxs
  select_idxs-rows p idxs h = select_by-rows (batch_size p) p idxs h
