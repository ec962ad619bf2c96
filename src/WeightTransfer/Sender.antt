-- ===== src/WeightTransfer/Sender.antt =====
-- The sender's loop: BucketedWeightSender.
use lumen_rl.Base.{
  ℕ, ◌+◌, ◌*◌, ◌%◌, Bool, true, false, not, ◌&&◌, List, [], ◌∷◌, some, none, String, if◌then◌else◌,
  ltb, length, dict_set,
}
use lumen_rl.Base.Ranges.{overwrite}
use lumen_rl.WeightTransfer.State.{
  Ipc, Weight, TensorMetadata, Message, SenderPhase, Sender, System,
}

module _ (ipc : Ipc) where
  open ipc use {Shape, Dtype, Arg, numel, itemsize, device_arg, reduce_tensor}

  unfoldable pub nbytes : Weight ipc → ℕ
  nbytes w = length w.1.bytes

  -- `_control`.
  unfoldable pub control :
      Sender ipc → List (String × TensorMetadata ipc) → Bool → Bool → Message ipc
  control s bucket_meta is_last ack_early = record {
    bucket_meta = bucket_meta;
    is_last = is_last;
    version = s.version;
    ack_early = ack_early;
  }

  -- `_flush`, up to the wait.
  unfoldable pub flush : Bool → System ipc → System ipc
  unfolding control
  flush is_last y =
      let s = y.sender in
      record y {
        message = some (control s s.bucket_meta is_last (s.double_buffer && not is_last));
        sender = record s {
          phase = if is_last then SenderPhase.await_last else SenderPhase.await_flush;
        };
      }

  -- `_direct_send_large_weight`, up to the wait.
  unfoldable pub direct_send_large_weight : Weight ipc → List (Weight ipc) → System ipc → System ipc
  unfolding control
  direct_send_large_weight w rest y =
      let s = y.sender in
      let meta : TensorMetadata ipc = record {
        shape = w.1.shape;
        dtype = w.1.dtype;
        offset = 0;
        handle = some (reduce_tensor w.1);
      } in
      record y {
        message = some (control s ((w.0, meta) ∷ []) false false);
        sender = record s { weights = rest; phase = SenderPhase.await_direct };
      }

  -- The copy into the current slot.
  unfoldable pub copy_weight : Weight ipc → List (Weight ipc) → System ipc → System ipc
  unfolding nbytes
  copy_weight w rest y =
      let s = y.sender in
      let start = s.slot * s.bucket_size + s.offset in
      let meta : TensorMetadata ipc = record {
        shape = w.1.shape;
        dtype = w.1.dtype;
        offset = start;
        handle = none;
      } in
      record y {
        buffer = overwrite start w.1.bytes y.buffer;
        sender = record s {
          bucket_meta = dict_set w.0 meta s.bucket_meta;
          offset = s.offset + nbytes w;
          weights = rest;
        };
      }

  -- One round of the sender's loop, or the part of it up to the first wait.
  unfoldable pub send_weight : List (Weight ipc) → System ipc → System ipc
  unfolding flush copy_weight direct_send_large_weight nbytes
  send_weight [] y = flush true y
  send_weight (w ∷ rest) y =
      let s = y.sender in
      if ltb s.bucket_size (s.offset + nbytes w)
      then if ltb 0 (length s.bucket_meta)
        then flush false y
        else if s.use_shm
        then record y { sender = record s { phase = SenderPhase.assertion_failed } }
        else direct_send_large_weight w rest y
      else copy_weight w rest y

  -- What follows `self.socket.recv()`, by what the sender was waiting for.
  unfoldable pub after_ack : SenderPhase → Sender ipc → Sender ipc
  after_ack SenderPhase.await_flush s = record s {
    slot = (s.slot + 1) % s.num_slots;
    bucket_meta = [];
    offset = 0;
    phase = SenderPhase.running;
  }
  after_ack SenderPhase.await_last s = record s {
    slot = (s.slot + 1) % s.num_slots;
    phase = SenderPhase.sent;
  }
  after_ack SenderPhase.await_direct s = record s { phase = SenderPhase.running }
  after_ack _ s = s
