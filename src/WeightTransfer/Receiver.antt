-- ===== src/WeightTransfer/Receiver.antt =====
-- The receiver's loop: BucketedWeightReceiver.
use lumen_rl.Base.{
  ℕ, ◌*◌, ◌%◌, ◌==◌, true, List, [], ◌∷◌, ◌++◌, Option, some, none, String, if◌then◌else◌, Result,
  ok, err, ◌>>=◌, ◌>>◌, guard, runtime_error, map_ok,
}
use lumen_rl.Base.Ranges.{read}
use lumen_rl.WeightTransfer.State.{
  Ipc, Tensor, Handle, TensorMetadata, Message, View, ReceiverPhase, Receiver, System, version_ok,
  rebuild_ipc,
}

module _ (ipc : Ipc) where
  open ipc use {Shape, Dtype, Arg, numel, itemsize, device_arg, reduce_tensor}

  -- The tensors of a bucket, as the receiver takes them from its metadata. The range of the buffer
  -- starts at the entry's offset, and `view` takes it in another type only if the offset is a
  -- multiple of the size of an element.
  unfoldable pub view_of :
      Receiver ipc → List ℕ → TensorMetadata ipc → Option (Handle ipc) → Result (View ipc)
  unfolding rebuild_ipc
  view_of r buffer meta (some handle) = map_ok View.owned (rebuild_ipc ipc handle (some r.device))
  view_of r buffer meta none = do
    guard (meta.offset % itemsize meta.dtype == 0) runtime_error
    ok (
        if r.use_shm
        then View.owned (record {
          shape = meta.shape;
          dtype = meta.dtype;
          bytes = read meta.offset (itemsize meta.dtype * numel meta.shape) buffer;
        })
        else View.in_buffer meta.shape meta.dtype meta.offset)

  unfoldable pub views :
      Receiver ipc → List ℕ → List (String × TensorMetadata ipc) → Result (List (String × View ipc))
  views r buffer [] = ok []
  views r buffer ((name, meta) ∷ metas) = do
    v ← view_of r buffer meta meta.handle
    rest ← views r buffer metas
    ok ((name, v) ∷ rest)

  unfoldable pub reject : System ipc → System ipc
  reject y = record y {
    message = none;
    receiver = record y.receiver { phase = ReceiverPhase.rejected };
  }

  -- The views are there: the early acknowledgement, and the callback is called.
  unfoldable pub begin_loading :
      Message ipc → System ipc → Result (List (String × View ipc)) → System ipc
  unfolding reject
  begin_loading m y (err raised) = reject y
  begin_loading m y (ok vs) = record y {
    message = none;
    ack = m.ack_early;
    receiver = record y.receiver {
      phase = ReceiverPhase.loading;
      ack_early = m.ack_early;
      is_last = m.is_last;
      pending = vs;
    };
  }

  -- `recv_pyobj` with a message in the socket, up to the callback.
  unfoldable pub take_message : Message ipc → System ipc → System ipc
  unfolding reject begin_loading
  take_message m y =
      if version_ok y.receiver.expected_version m.version
      then begin_loading m y (views y.receiver y.buffer m.bucket_meta)
      else reject y

  -- A tensor as the callback finds it.
  unfoldable pub tensor_of : List ℕ → View ipc → Tensor Shape Dtype
  tensor_of buffer (View.owned t) = t
  tensor_of buffer (View.in_buffer shape dtype offset) = record {
    shape = shape;
    dtype = dtype;
    bytes = read offset (itemsize dtype * numel shape) buffer;
  }

  -- The callback loads the next tensor, or has none left and returns.
  unfoldable pub load_next : List (String × View ipc) → System ipc → System ipc
  unfolding tensor_of
  load_next ((name, v) ∷ rest) y = record y {
    receiver = record y.receiver {
      pending = rest;
      loaded = y.receiver.loaded ++ (name, tensor_of y.buffer v) ∷ [];
    };
  }
  load_next [] y =
      let r = y.receiver in
      record y {
        ack = if r.ack_early then y.ack else true;
        receiver = record r {
          phase = if r.is_last then ReceiverPhase.received else ReceiverPhase.receiving;
        };
      }
