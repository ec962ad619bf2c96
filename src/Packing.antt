-- ===== src/Packing.antt =====
-- lumenrl/engine/training/packing.py: the tokens of left-padded rows packed into one row, positions
-- and bounds of the sequences, and per-token values put back in place.
-- A batch is a list of rows with their masks, of zeros and ones. The bounds are int32 and wrap.
pub mod Layout
pub mod Unpacked
pub mod Nested
use lumen_rl.Base.{
  ℕ, zero, suc, ◌+◌, ◌-◌, ◌%◌, ◌^◌, max, Bool, true, false, List, [], ◌∷◌, ◌++◌, map, if◌then◌else◌,
  ltb, leb, ◌==◌, length, replicate, range, slice, Result, ok, err, ◌>>=◌, ◌>>◌, guard,
  runtime_error, zero_division_error, index_error, or_raise, get_elem?, Option, some, none,
}
use lumen_rl.Base.Int.{ℤ, pos, negsuc, ◌+ℤ◌, ◌-ℤ◌}
use lumen_rl.Base.Ranges.{lay_out, overwrite}
use lumen_rl.Proto.Select.{slice_bound}

-- The module's globals: cu_seqlens and max_seqlen of the packed pass that is running.
pub record PackingState : Type 0 where
  pub cu_seqlens : Option (List ℤ)
  pub max_seqlen : ℕ

unfoldable pub set_packing_context : List ℤ → ℕ → PackingState → PackingState
set_packing_context cu_seqlens max_seqlen s = record {
  cu_seqlens = some cu_seqlens;
  max_seqlen = max_seqlen;
}

unfoldable pub context_of : Option (List ℤ) → ℕ → Option (List ℤ × ℕ)
context_of none max_seqlen = none
context_of (some cu_seqlens) max_seqlen = some (cu_seqlens, max_seqlen)

unfoldable pub get_packing_context : PackingState → Option (List ℤ × ℕ)
unfolding context_of
get_packing_context s = context_of s.cu_seqlens s.max_seqlen

unfoldable pub clear_packing_context : PackingState → PackingState
clear_packing_context s = record { cu_seqlens = none; max_seqlen = 0 }

pub record PackedBatch : Type 0 where
  pub input_ids : List ℕ
  pub position_ids : List ℕ
  pub cu_seqlens : List ℤ
  pub seq_lens : List ℕ
  pub max_seqlen : ℕ

-- A row of token ids with its mask.
abbrev pub Row : Type 0
Row = List ℕ × List Bool

-- `attention_mask.sum(dim=1)`.
unfoldable pub count_true : List Bool → ℕ
count_true [] = 0
count_true (b ∷ bs) = (if b then 1 else 0) + count_true bs

unfoldable pub total_of : List ℕ → ℕ
total_of [] = 0
total_of (n ∷ ns) = n + total_of ns

-- `torch.cumsum`, from a first value on.
unfoldable pub cumsum_from : ℕ → List ℕ → List ℕ
cumsum_from acc [] = []
cumsum_from acc (n ∷ ns) = (acc + n) ∷ cumsum_from (acc + n) ns

-- `.int()`: a number as two's complement of 32 bits.
unfoldable pub int32 : ℕ → ℤ
int32 n =
    let word = n % 2 ^ 32 in if ltb word (2 ^ 31) then pos word else negsuc (2 ^ 32 - 1 - word)

-- `seq_lens.max()`, which raises on an empty tensor.
unfoldable pub max_from : ℕ → List ℕ → ℕ
max_from m [] = m
max_from m (n ∷ ns) = max_from (max m n) ns

unfoldable pub max_of : List ℕ → Result ℕ
unfolding max_from
max_of [] = err runtime_error
max_of (n ∷ ns) = ok (max_from n ns)

-- The part of a row that is copied: `input_ids[i, S - sl : S]`.
unfoldable pub row_tokens : ℕ → Row → List ℕ × ℕ
unfolding count_true
row_tokens S (row, mask) = (slice (S - count_true mask) S row, count_true mask)

unfoldable pub row_positions : Row → List ℕ × ℕ
row_positions (row, mask) = (range (count_true mask), count_true mask)

unfoldable pub padding : ℕ → ℕ → Result ℕ
padding zero total = err zero_division_error
padding (suc n) total = ok ((suc n - total % suc n) % suc n)

-- `pack_sequences`. The lengths are cast to int32, summed in int64, and cast again when they are
-- stored: that is the sum's own int32.
unfoldable pub pack_sequences : ℕ → List Row → ℕ → Result PackedBatch
unfolding total_of cumsum_from int32 max_of padding row_tokens row_positions
pack_sequences S batch tp_align = do
  let seq_lens = map (λ row. count_true row.1) batch
  let total_tokens = total_of seq_lens
  max_seqlen ← max_of seq_lens
  pad_len ← padding tp_align total_tokens
  ok (record {
    input_ids = lay_out 0 (map (row_tokens S) batch) (replicate (total_tokens + pad_len) 0);
    position_ids = lay_out 0 (map row_positions batch) (replicate (total_tokens + pad_len) 0);
    cu_seqlens = pos 0 ∷ map int32 (cumsum_from 0 seq_lens);
    seq_lens = seq_lens;
    max_seqlen = max_seqlen;
  })

module _ {ℓ} {A : Type ℓ} where
  -- `row[start:stop] = source`, where one value is spread over the whole slice.
  unfoldable pub assign_slice : ℤ → ℤ → List A → List A → Result (List A)
  unfolding slice_bound
  assign_slice start stop [] row =
      if slice_bound (length row) stop - slice_bound (length row) start == 0
      then ok row
      else err runtime_error
  assign_slice start stop (x ∷ source) row =
      let first = slice_bound (length row) start in
      let size = slice_bound (length row) stop - first in
      if length (x ∷ source) == size
      then ok (overwrite first (x ∷ source) row)
      else if length (x ∷ source) == 1
      then ok (overwrite first (replicate size x) row)
      else err runtime_error

-- The loop of `pack_from_nested`: sequence i starts at `cu_seqlens[i]`.
unfoldable pub write_positions : List ℤ → List ℕ → List ℕ → Result (List ℕ)
unfolding assign_slice ◌+ℤ◌
write_positions cu_seqlens [] position_ids = ok position_ids
write_positions [] (sl ∷ seq_lens) position_ids = err index_error
write_positions (start ∷ cu_seqlens) (sl ∷ seq_lens) position_ids =
    assign_slice start (start +ℤ pos sl) (range sl) position_ids >>= λ ids.
    write_positions cu_seqlens seq_lens ids

-- `pack_from_nested`; `memory` is what `torch.empty` finds, as long as the tokens.
unfoldable pub pack_from_nested : List ℕ → List ℤ → List ℕ → List ℕ → Result PackedBatch
unfolding write_positions max_of
pack_from_nested input_ids cu_seqlens seq_lens memory = do
  max_seqlen ← max_of seq_lens
  position_ids ← write_positions cu_seqlens seq_lens memory
  ok (record {
    input_ids = input_ids;
    position_ids = position_ids;
    cu_seqlens = cu_seqlens;
    seq_lens = seq_lens;
    max_seqlen = max_seqlen;
  })

module _ {ℓ} {A : Type ℓ} where
  -- The loop of `unpack_log_probs` from a position of `shifted_cu` on.
  unfoldable pub unpack_rows : A → List A → ℤ → List ℕ → ℕ → Result (List (List A))
  unfolding assign_slice ◌+ℤ◌ ◌-ℤ◌
  unpack_rows z flat_lp src_start [] width = ok []
  unpack_rows z flat_lp src_start (sl ∷ seq_lens) width = do
    let src_end = src_start +ℤ (pos sl -ℤ pos 1)
    let dst_start = pos width -ℤ (pos sl -ℤ pos 1)
    let n = length flat_lp
    row ←
        if leb sl 1
        then ok (replicate width z)
        else assign_slice dst_start (dst_start +ℤ (pos sl -ℤ pos 1))
            (slice (slice_bound n src_start) (slice_bound n src_end) flat_lp) (replicate width z)
    rows ← unpack_rows z flat_lp src_end seq_lens width
    ok (row ∷ rows)

  -- `unpack_log_probs`; a width below 0 is refused by `new_zeros`.
  unfoldable pub unpack_log_probs : A → List A → List ℕ → ℕ → Result (List (List A))
  unfolding unpack_rows
  unpack_log_probs z flat_lp seq_lens zero = err runtime_error
  unpack_log_probs z flat_lp seq_lens (suc width) = unpack_rows z flat_lp (pos 0) seq_lens width
