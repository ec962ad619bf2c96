-- ===== src/Rdma/Sender.antt =====
-- lumenrl/engine/inference/rdma_weight_transfer.py:
-- `send_weight_stream` and what it broadcasts.
use lumen_rl.Base.{
  ℕ, suc, ◌+◌, ◌&&◌, List, [], ◌∷◌, ◌++◌, if◌then◌else◌, ltb, leb, length, Result, ok, err, ◌>>=◌,
  ◌>>◌, guard, value_error, runtime_error, not, ◌==◌,
}
use lumen_rl.Base.Ranges.{overwrite}
use lumen_rl.WeightTransfer.State.{Tensor}
use lumen_rl.Rdma.{Entry, Wire, Weight, Broadcast, header, metadata, payload, cmd_end, cmd_bucket}

module _ (wire : Wire) where
  open wire use {Shape, Dtype, Text, text_bytes, itemsize, is_scalar, fresh, encode, decode}

  unfoldable pub entries_from : ℕ → List (Weight wire) → List (Entry Shape Dtype)
  entries_from offset [] = []
  entries_from offset ((name, t) ∷ ws) =
      record {
        name = name;
        shape = t.shape;
        dtype = t.dtype;
        offset = offset;
        nbytes = length t.bytes;
      }
      ∷ entries_from (offset + length t.bytes) ws

  abbrev pub size_of : List (Weight wire) → ℕ
  size_of [] = 0
  size_of ((name, t) ∷ ws) = length t.bytes + size_of ws

  -- `value.view(torch.uint8)`: a tensor without dimensions has no view of another element size.
  unfoldable pub byte_view : Tensor Shape Dtype → Result (List ℕ)
  byte_view t =
      guard (not (is_scalar t.shape && not (itemsize t.dtype == 1))) runtime_error >> ok t.bytes

  -- `payload[start:end].copy_(value)` for each entry and its tensor.
  unfoldable pub fill : List (Entry Shape Dtype) → List (Weight wire) → List ℕ → Result (List ℕ)
  unfolding byte_view
  fill (e ∷ es) ((name, t) ∷ ws) contents =
      byte_view t >>= λ bytes. fill es ws (overwrite e.offset bytes contents)
  fill _ _ contents = ok contents

  -- `_encode_bucket`: the metadata and the payload.
  unfoldable pub encode_bucket : List (Weight wire) → Result (Text × List ℕ)
  unfolding entries_from fill
  encode_bucket [] = err value_error
  encode_bucket (w ∷ ws) =
      let entries = entries_from 0 (w ∷ ws) in
      fill entries (w ∷ ws) (fresh (size_of (w ∷ ws))) >>= λ contents. ok (encode entries, contents)

  -- The variables of `send_weight_stream`, and what was broadcast.
  pub record Sender : Type 0 where
    pub bucket : List (Weight wire)
    pub bucket_bytes : ℕ
    pub total_bytes : ℕ
    pub total_weights : ℕ
    pub total_buckets : ℕ
    pub sent : List (Broadcast Text)

  unfoldable pub flush_in : ℕ → List (Weight wire) → Sender → Result Sender
  unfolding encode_bucket
  flush_in version [] s = ok s
  flush_in version (w ∷ ws) s = do
    (text, contents) ← encode_bucket (w ∷ ws)
    ok (record s {
      bucket = [];
      bucket_bytes = 0;
      total_bytes = s.total_bytes + length contents;
      total_weights = s.total_weights + length (w ∷ ws);
      total_buckets = suc s.total_buckets;
      sent =
          s.sent
          ++ header cmd_bucket (text_bytes text) (length contents) version
            ∷ metadata text
            ∷ payload contents
            ∷ [];
    })

  -- `flush`.
  unfoldable pub flush : ℕ → Sender → Result Sender
  unfolding flush_in
  flush version s = flush_in version s.bucket s

  unfoldable pub append_weight : Weight wire → Sender → Sender
  append_weight w s = record s {
    bucket = s.bucket ++ w ∷ [];
    bucket_bytes = s.bucket_bytes + length w.1.bytes;
  }

  -- One round of the loop.
  unfoldable pub send_weight : ℕ → ℕ → Weight wire → Sender → Result Sender
  unfolding flush append_weight
  send_weight bucket_size version w s = do
    s' ←
        if ltb 0 (length s.bucket) && ltb bucket_size (s.bucket_bytes + length w.1.bytes)
        then flush version s
        else ok s
    let s'' = append_weight w s'
    if leb bucket_size s''.bucket_bytes then flush version s'' else ok s''

  unfoldable pub send_weights : ℕ → ℕ → List (Weight wire) → Sender → Result Sender
  send_weights bucket_size version [] s = ok s
  send_weights bucket_size version (w ∷ ws) s =
      send_weight bucket_size version w s >>= λ s'. send_weights bucket_size version ws s'

  unfoldable pub idle : Sender
  idle = record {
    bucket = [];
    bucket_bytes = 0;
    total_bytes = 0;
    total_weights = 0;
    total_buckets = 0;
    sent = [];
  }

  -- `send_weight_stream`.
  unfoldable pub send_weight_stream : List (Weight wire) → ℕ → ℕ → Result Sender
  unfolding send_weight send_weights flush idle
  send_weight_stream weights bucket_size version = do
    guard (ltb 0 bucket_size) value_error
    s ← send_weights bucket_size version weights idle
    s' ← flush version s
    ok (record s' { sent = s'.sent ++ header cmd_end 0 0 version ∷ [] })
