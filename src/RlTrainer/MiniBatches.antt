-- ===== src/RlTrainer/MiniBatches.antt =====
-- lumenrl/trainer/rl_trainer.py: `_dynamic_mini_batches`, which cuts a batch, sorted by length, into
-- mini-batches of a bounded number of tokens. `mask.sum(dim=1)` and `torch.argsort` are parameters.
pub mod Segments
pub mod Sorted
pub mod Rows
use lumen_rl.Base.{
  ℕ, zero, suc, ◌+◌, Bool, ◌&&◌, List, [], ◌∷◌, map, if◌then◌else◌, ltb, leb, length, take, drop,
  gather, map_values, traverse_values, dict_get, String, Result, ok, ◌>>=◌, ◌>>◌, guard, or_raise,
  key_error, index_error,
}
use lumen_rl.Base.Int.{ℤ, pos}
use lumen_rl.Torch.{Torch}
use lumen_rl.Proto.{DataProto, batch_size}
use lumen_rl.Proto.Split.{mini_batches}

-- The inner loop: how many more rows the mini-batch takes, which has `taken` rows and `tok_count`
-- tokens, of the rows with these lengths.
unfoldable pub take_run : ℕ → ℕ → ℕ → List ℕ → ℕ
take_run max_token_len tok_count taken [] = 0
take_run max_token_len tok_count taken (sl ∷ lens) =
    let more = take_run max_token_len (tok_count + sl) (suc taken) lens in
    if ltb max_token_len (tok_count + sl) && ltb 0 taken then 0 else suc more

-- The outer loop, from row `start` on: the bounds of the mini-batches. A round takes a row at least,
-- so as many rounds as rows are enough.
unfoldable pub segments_from : ℕ → ℕ → ℕ → List ℕ → List (ℕ × ℕ)
unfolding take_run
segments_from zero max_token_len start lens = []
segments_from (suc rounds) max_token_len start [] = []
segments_from (suc rounds) max_token_len start (sl ∷ lens) =
    let n = take_run max_token_len 0 0 (sl ∷ lens) in
    (start, start + n) ∷ segments_from rounds max_token_len (start + n) (drop n (sl ∷ lens))

unfoldable pub segments : ℕ → List ℕ → List (ℕ × ℕ)
unfolding segments_from
segments max_token_len lens = segments_from (length lens) max_token_len 0 lens

module _ {T : Torch} {V : Type 0} where
  -- `DataProto(tensors=chunk, meta=...)`.
  unfoldable pub sorted_chunk : List (String × T.Tensor) → List (String × V) → ℕ × ℕ → DataProto T V
  sorted_chunk sorted_tensors meta (start, end) = record {
    tensors = map_values (λ t. T.span t start end) sorted_tensors;
    meta = meta;
    ragged = [];
  }

module _ {T : Torch} {V : Type 0} (lengths : T.Tensor → List ℕ) (argsort : List ℕ → List ℕ) where
  unfoldable pub cut_sorted : ℕ → DataProto T V → Result (List (DataProto T V))
  unfolding segments sorted_chunk
  cut_sorted max_token_len p = do
    mask ← or_raise (dict_get "attention_mask" p.tensors) key_error
    let seq_lens = lengths mask
    let sorted_idx = map pos (argsort seq_lens)
    sorted_lens ← gather seq_lens sorted_idx
    sorted_tensors ← traverse_values (λ t. T.index t sorted_idx) p.tensors
    guard (leb (batch_size p) (length sorted_lens)) index_error
    ok (
        map (sorted_chunk sorted_tensors p.meta)
          (segments max_token_len (take (batch_size p) sorted_lens)))

  -- `_dynamic_mini_batches`.
  unfoldable pub dynamic_mini_batches : DataProto T V → ℕ → ℕ → Result (List (DataProto T V))
  unfolding cut_sorted
  dynamic_mini_batches p zero fallback_bs = mini_batches p fallback_bs
  dynamic_mini_batches p (suc n) fallback_bs = cut_sorted (suc n) p
