-- ===== src/Proto/Pad.antt =====
-- lumenrl/core/protocol.py: `pad_to_divisor` and `unpad`. A clone has the values of the original.
use lumen_rl.Base.{
  ℕ, zero, suc, ◌-◌, ◌%◌, [], ◌∷◌, map, some, Result, ok, err, ◌>>=◌, value_error, range,
}
use lumen_rl.Base.Int.{pos}
use lumen_rl.Torch.{Torch}
use lumen_rl.Proto.{DataProto, bare, batch_size}
use lumen_rl.Proto.Select.{Index, ints, span, select_idxs}
use lumen_rl.Proto.Merge.{concat}

-- The first `pad` rows, round and round: `torch.arange(pad) % size`.
unfoldable pub padding_rows : ℕ → ℕ → Index
padding_rows pad size = ints (map (λ i. pos (i % size)) (range pad))

module _ {T : Torch} {V : Type 0} where
  unfoldable pub pad_by : ℕ → ℕ → DataProto T V → ℕ → Result (DataProto T V × ℕ)
  unfolding padding_rows
  pad_by size divisor p zero = ok (p, 0)
  pad_by size divisor p (suc remainder) = do
    let pad = divisor - suc remainder
    padding ← select_idxs p (padding_rows pad size)
    q ← concat (p ∷ padding ∷ [])
    ok (q, pad)

  unfoldable pub pad_rows : ℕ → ℕ → DataProto T V → Result (DataProto T V × ℕ)
  unfolding pad_by
  pad_rows zero divisor p = ok (bare p.meta, 0)
  pad_rows (suc size) divisor p = pad_by (suc size) divisor p (suc size % divisor)

  unfoldable pub pad_to_divisor : DataProto T V → ℕ → Result (DataProto T V × ℕ)
  unfolding pad_rows
  pad_to_divisor p zero = err value_error
  pad_to_divisor p (suc divisor) = pad_rows (batch_size p) (suc divisor) p

  unfoldable pub drop_rows : ℕ → DataProto T V → ℕ → Result (DataProto T V)
  drop_rows size p zero = ok p
  drop_rows zero p (suc pad) = ok p
  drop_rows (suc size) p (suc pad) =
      select_idxs p (span (some (pos 0)) (some (pos (suc size - suc pad))))

  -- `unpad`; a negative `pad_size` is refused by the code and not given here.
  unfoldable pub unpad : DataProto T V → ℕ → Result (DataProto T V)
  unfolding drop_rows
  unpad p pad = drop_rows (batch_size p) p pad
