-- ===== src/Proto/Split.antt =====
-- lumenrl/core/protocol.py: `split` and `mini_batches`.
use lumen_rl.Base.{
  ℕ, zero, suc, ◌+◌, ◌*◌, ◌/◌, List, [], ◌∷◌, map, slice, range, min, map_values, Result, ok, err,
  value_error,
}
use lumen_rl.Torch.{Torch}
use lumen_rl.Proto.{DataProto, bare, batch_size}

module _ {T : Torch} {V : Type 0} where
  -- Rows `a` to `b` of every column.
  unfoldable pub chunk : DataProto T V → ℕ → ℕ → DataProto T V
  chunk p a b = record {
    tensors = map_values (λ t. T.span t a b) p.tensors;
    meta = p.meta;
    ragged = map_values (slice a b) p.ragged;
  }

-- `i * batch_size // num_chunks`.
unfoldable pub bound : ℕ → ℕ → ℕ → ℕ
bound size n i = i * size / n

module _ {T : Torch} {V : Type 0} where
  unfoldable pub split_by : ℕ → DataProto T V → ℕ → List (DataProto T V)
  unfolding chunk bound
  split_by zero p n = map (λ _. bare p.meta) (range n)
  split_by (suc size) p n =
      map (λ i. chunk p (bound (suc size) n i) (bound (suc size) n (suc i))) (range n)

  unfoldable pub split : DataProto T V → ℕ → List (DataProto T V)
  unfolding split_by
  split p n = split_by (batch_size p) p n

  -- The batches from row `start` on: `range(0, self.batch_size, batch_size)` has `rounds` starts.
  unfoldable pub batches_from : ℕ → ℕ → ℕ → ℕ → DataProto T V → List (DataProto T V)
  unfolding chunk
  batches_from zero start size total p = []
  batches_from (suc rounds) start size total p =
      chunk p start (min (start + size) total) ∷ batches_from rounds (start + size) size total p

  -- `mini_batches`; `range` refuses the step 0, and makes ⌈total / size⌉ starts otherwise.
  unfoldable pub mini_batches : DataProto T V → ℕ → Result (List (DataProto T V))
  unfolding batches_from
  mini_batches p zero = err value_error
  mini_batches p (suc size) =
      ok (batches_from ((batch_size p + size) / suc size) 0 (suc size) (batch_size p) p)
