-- ===== src/Rdma.antt =====
-- lumenrl/engine/inference/rdma_weight_transfer.py: weights broadcast in buckets over a process group.
-- A broadcast is a value that the receiver takes in the order in which the sender made it. JSON, the
-- viewing of bytes as a tensor, fresh memory and the model are parameters. Times and fingerprints are
-- left out. Sizes are not negative.
pub mod Sender
pub mod Receiver
pub mod Buckets
pub mod Flushes
pub mod Sending
pub mod Delivered
use lumen_rl.Base.{ℕ, Bool, List, String, Result}
use lumen_rl.WeightTransfer.State.{Tensor}

-- An entry of a bucket's metadata.
pub record Entry (Shape Dtype : Type 0) : Type 0 where
  pub name : String
  pub shape : Shape
  pub dtype : Dtype
  pub offset : ℕ
  pub nbytes : ℕ

-- What torch and json give: the bytes of a tensor and of an element, the shapes that have no
-- dimension, fresh memory, and the encoding of
-- metadata as bytes.
pub record Wire : Type 1 where
  pub Shape : Type 0
  pub Dtype : Type 0
  pub nbytes : Shape → Dtype → ℕ
  pub itemsize : Dtype → ℕ
  pub is_scalar : Shape → Bool
  pub fresh : ℕ → List ℕ
  pub Text : Type 0
  pub text_bytes : Text → ℕ
  pub encode : List (Entry Shape Dtype) → Text
  pub decode : Text → Result (List (Entry Shape Dtype))

-- A header has the command, the bytes of the metadata and of the payload, and the version.
pub data Broadcast (Text : Type 0) : Type 0 where
  header : ℕ → ℕ → ℕ → ℕ → Broadcast Text
  metadata : Text → Broadcast Text
  payload : List ℕ → Broadcast Text

abbrev pub cmd_end : ℕ
cmd_end = 0

abbrev pub cmd_bucket : ℕ
cmd_bucket = 1

module _ (wire : Wire) where
  open wire use {Shape, Dtype}

  abbrev pub Weight : Type 0
  Weight = String × Tensor Shape Dtype
