-- ===== src/WeightTransfer/State.antt =====
-- What the two sides keep, and how they start.
use lumen_rl.Base.{
  ℕ, ◌*◌, ◌/◌, ◌^◌, max, Bool, true, false, List, [], Option, some, none, String, if◌then◌else◌,
  ltb, ◌==◌, length, set, Result, ok, err, index_error,
}

-- A tensor: its shape, its element type and its memory as bytes.
pub record Tensor (Shape Dtype : Type 0) : Type 0 where
  pub shape : Shape
  pub dtype : Dtype
  pub bytes : List ℕ

-- What torch gives: element counts and sizes, and the handle of a tensor for another process, a
-- function with its list of arguments.
pub record Ipc : Type 1 where
  pub Shape : Type 0
  pub Dtype : Type 0
  pub Arg : Type 0
  pub numel : Shape → ℕ
  pub itemsize : Dtype → ℕ
  pub device_arg : ℕ → Arg
  pub reduce_tensor : Tensor Shape Dtype → (List Arg → Tensor Shape Dtype) × List Arg

-- What the sender is doing: it goes on, or waits for the acknowledgement of a bucket, of the last
-- bucket or of a tensor sent directly.
pub data SenderPhase : Type 0 where
  running await_flush await_last await_direct sent assertion_failed : SenderPhase

pub data ReceiverPhase : Type 0 where
  receiving loading received rejected : ReceiverPhase

-- Whose turn it is.
pub data Turn : Type 0 where
  sends receives : Turn

-- `check_bucket_version`: does the bucket pass?
unfoldable pub version_ok : Option ℕ → Option ℕ → Bool
version_ok none version = true
version_ok (some expected) none = false
version_ok (some expected) (some version) = version == expected

module _ (ipc : Ipc) where
  open ipc use {Shape, Dtype, Arg, numel, itemsize, device_arg, reduce_tensor}

  abbrev pub Weight : Type 0
  Weight = String × Tensor Shape Dtype

  abbrev pub Handle : Type 0
  Handle = (List Arg → Tensor Shape Dtype) × List Arg

  -- `rebuild_ipc`.
  unfoldable pub rebuild_ipc : Handle → Option ℕ → Result (Tensor Shape Dtype)
  rebuild_ipc (func, args) none = ok (func args)
  rebuild_ipc (func, args) (some device_id) =
      if ltb 6 (length args) then ok (func (set args 6 (device_arg device_id))) else err index_error

  -- `TensorMetadata`, without the name, which is the key that it stands under.
  pub record TensorMetadata : Type 0 where
    pub shape : Shape
    pub dtype : Dtype
    pub offset : ℕ
    pub handle : Option Handle

  pub record Message : Type 0 where
    pub bucket_meta : List (String × TensorMetadata)
    pub is_last : Bool
    pub version : Option ℕ
    pub ack_early : Bool

  pub record Sender : Type 0 where
    pub bucket_size : ℕ
    pub num_slots : ℕ
    pub use_shm : Bool
    pub version : Option ℕ
    pub double_buffer : Bool
    pub slot : ℕ
    pub offset : ℕ
    pub bucket_meta : List (String × TensorMetadata)
    pub weights : List Weight
    pub phase : SenderPhase

  -- A received tensor: a view of the buffer, or one with memory of its own.
  pub data View : Type 0 where
    in_buffer : Shape → Dtype → ℕ → View
    owned : Tensor Shape Dtype → View

  -- `loaded` is what the callback has been given so far and has read.
  pub record Receiver : Type 0 where
    pub device : ℕ
    pub use_shm : Bool
    pub expected_version : Option ℕ
    pub phase : ReceiverPhase
    pub ack_early : Bool
    pub is_last : Bool
    pub pending : List (String × View)
    pub loaded : List Weight

  pub record System : Type 0 where
    pub buffer : List ℕ
    pub message : Option Message
    pub ack : Bool
    pub sender : Sender
    pub receiver : Receiver

  -- `BucketedWeightSender.__init__`; sizes are not negative.
  unfoldable pub make_sender : ℕ → Bool → Option ℕ → ℕ → Bool → List Weight → Sender
  make_sender bucket_size_mb use_shm version min_bucket_bytes double_buffer weights =
      let num_slots : ℕ = if double_buffer then 2 else 1 in
      record {
        bucket_size = max (bucket_size_mb * 2 ^ 20) min_bucket_bytes / num_slots;
        num_slots = num_slots;
        use_shm = use_shm;
        version = version;
        double_buffer = double_buffer;
        slot = 0;
        offset = 0;
        bucket_meta = [];
        weights = weights;
        phase = SenderPhase.running;
      }

  unfoldable pub make_receiver : ℕ → Bool → Option ℕ → Receiver
  make_receiver device use_shm expected_version = record {
    device = device;
    use_shm = use_shm;
    expected_version = expected_version;
    phase = ReceiverPhase.receiving;
    ack_early = false;
    is_last = false;
    pending = [];
    loaded = [];
  }

  -- `_init_buffer` on both sides: the buffer has been shared, its content is whatever was there.
  unfoldable pub init : Sender → Receiver → List ℕ → System
  init s r memory = record {
    buffer = memory;
    message = none;
    ack = false;
    sender = s;
    receiver = r;
  }
