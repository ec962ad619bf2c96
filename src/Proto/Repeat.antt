-- ===== src/Proto/Repeat.antt =====
-- lumenrl/core/protocol.py: `repeat` and `sample_level_repeat`.
use lumen_rl.Base.{
  ℕ, zero, suc, Bool, true, false, List, [], ◌∷◌, ◌++◌, map, ◌==◌, Result, ok, err, ◌>>=◌, ◌>>◌,
  guard, value_error, length, range, flat_map, map_values, traverse_values,
}
use lumen_rl.Base.Int.{pos}
use lumen_rl.Torch.{Torch}
use lumen_rl.Proto.{DataProto, batch_size}
use lumen_rl.Proto.Select.{ragged_at}

-- `[i for i in range(n) for _ in range(r)]` and `[i for _ in range(r) for i in range(n)]`.
unfoldable pub repeat_order : Bool → ℕ → ℕ → List ℕ
repeat_order true n r = flat_map (λ i. flat_map (λ _. i ∷ []) (range r)) (range n)
repeat_order false n r = flat_map (λ _. range n) (range r)

-- `[i for i, r in enumerate(repeats) for _ in range(r)]`.
unfoldable pub each_order : ℕ → List ℕ → List ℕ
each_order i [] = []
each_order i (r ∷ rs) = flat_map (λ _. i ∷ []) (range r) ++ each_order (suc i) rs

-- Repeating one tensor: the reshape raises where a later dimension has size 0.
unfoldable pub repeat_tensor : (T : Torch) → Bool → ℕ → T.Tensor → Result T.Tensor
repeat_tensor T true r t = ok (T.repeat_interleave t r)
repeat_tensor T false r t = T.tile t r

module _ {T : Torch} {V : Type 0} where
  unfoldable pub repeat : DataProto T V → ℕ → Bool → Result (DataProto T V)
  unfolding repeat_tensor repeat_order ragged_at
  repeat p zero interleave = err value_error
  repeat p (suc r) interleave = do
    tensors ← traverse_values (repeat_tensor T interleave (suc r)) p.tensors
    ragged ← ragged_at p.ragged (map pos (repeat_order interleave (batch_size p) (suc r)))
    ok (record { tensors = tensors; meta = p.meta; ragged = ragged })

  -- `repeat_times` is a list of numbers that are not negative.
  unfoldable pub sample_level_repeat : DataProto T V → List ℕ → Result (DataProto T V)
  unfolding each_order ragged_at
  sample_level_repeat p rs = do
    guard (length rs == batch_size p) value_error
    ragged ← ragged_at p.ragged (map pos (each_order 0 rs))
    ok (record {
      tensors = map_values (λ t. T.repeat_interleave_each t rs) p.tensors;
      meta = p.meta;
      ragged = ragged;
    })
