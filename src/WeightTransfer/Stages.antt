-- ===== src/WeightTransfer/Stages.antt =====
-- The stages of a transfer: what holds of the two threads, the socket and the buffer between steps.
use lumen_rl.Base.{
  ℕ, Option, ◌*◌, ◌%◌, ◌≤◌, ◌<◌, ◌≡◌, Bool, true, false, List, [], ◌++◌, some, none, if◌then◌else◌,
  All, length,
}
use lumen_rl.WeightTransfer.State.{
  Ipc, Message, ReceiverPhase, Sender, SenderPhase, System, Weight, version_ok,
}
use lumen_rl.WeightTransfer.Contents.{
  DistinctNames, Fits, InUnits, MetaIn, Sendable, ViewApart, ViewIn, meta_weights, view_weights,
}
use lumen_rl.WeightTransfer.Writes.{NewNames}

module _ (ipc : Ipc) (all : List (Weight ipc)) where
  -- What never changes in the sender, and the buffer that fits it.
  pub record IsSound (s : Sender ipc) (buffer : List ℕ) (expected : Option ℕ) : Type 0 where
    pub slots : s.num_slots ≡ (if s.double_buffer then 2 else 1)
    pub slot : s.slot < s.num_slots
    pub size : length buffer ≡ s.num_slots * s.bucket_size
    pub fits : All (Fits ipc) s.weights
    pub distinct : DistinctNames ipc s.weights
    pub version : version_ok expected s.version ≡ true
    pub unit : ℕ
    pub in_units : All (InUnits ipc unit) s.weights
    pub slot_in_units : s.bucket_size % unit ≡ 0
    pub offset_in_units : s.offset % unit ≡ 0

  -- Where the current slot starts.
  abbrev pub slot_start : Sender ipc → ℕ
  slot_start s = s.slot * s.bucket_size

  -- The receiver waits for a message, or still loads a bucket that it has acknowledged.
  pub data Between (y : System ipc) : Type 0 where
    waits : y.receiver.phase ≡ ReceiverPhase.receiving → y.receiver.pending ≡ [] → Between y
    still_loads :
        y.receiver.phase ≡ ReceiverPhase.loading
        → y.receiver.ack_early ≡ true
        → y.receiver.is_last ≡ false
        → Between y

  abbrev pub PendingApart : System ipc → Type 0
  PendingApart y =
      All (λ p. ViewApart ipc (slot_start y.sender) y.sender.bucket_size p.1) y.receiver.pending

  -- The sender goes on: what the receiver still loads is not in the sender's slot.
  pub record Going (y : System ipc) : Type 0 where
    pub sound : IsSound y.sender y.buffer y.receiver.expected_version
    pub phase : y.sender.phase ≡ SenderPhase.running
    pub message : y.message ≡ none
    pub ack : y.ack ≡ false
    pub reader : Between y
    pub apart : PendingApart y
    pub offset : y.sender.offset ≤ y.sender.bucket_size
    pub held : All (λ p. MetaIn ipc (slot_start y.sender) y.sender.offset p.1) y.sender.bucket_meta
    pub new_names : NewNames y.sender.weights y.sender.bucket_meta
    pub content :
        y.receiver.loaded
          ++ (view_weights ipc y.buffer y.receiver.pending
              ++ (meta_weights ipc y.receiver.device y.buffer y.sender.bucket_meta
                  ++ y.sender.weights))
        ≡ all

  -- What the sender waits for, with the flags of the message that it posted.
  pub data Waits (s : Sender ipc) (ack_early is_last : Bool) : Type 0 where
    for_flush :
        s.phase ≡ SenderPhase.await_flush
        → is_last ≡ false
        → ack_early ≡ s.double_buffer
        → Waits s ack_early is_last
    for_last :
        s.phase ≡ SenderPhase.await_last
        → is_last ≡ true
        → ack_early ≡ false
        → s.weights ≡ []
        → Waits s ack_early is_last
    for_direct :
        s.phase ≡ SenderPhase.await_direct
        → is_last ≡ false
        → ack_early ≡ false
        → s.bucket_meta ≡ []
        → s.offset ≤ s.bucket_size
        → Waits s ack_early is_last

  -- A message is in the socket.
  pub record Posted (m : Message ipc) (y : System ipc) : Type 0 where
    pub sound : IsSound y.sender y.buffer y.receiver.expected_version
    pub message : y.message ≡ some m
    pub ack : y.ack ≡ false
    pub reader : Between y
    pub awaits : Waits y.sender m.ack_early m.is_last
    pub version : m.version ≡ y.sender.version
    pub sendable : All (Sendable ipc (slot_start y.sender) y.sender.bucket_size) m.bucket_meta
    pub content :
        y.receiver.loaded
          ++ (view_weights ipc y.buffer y.receiver.pending
              ++ (meta_weights ipc y.receiver.device y.buffer m.bucket_meta ++ y.sender.weights))
        ≡ all

  -- The receiver loads a bucket that it has not acknowledged.
  pub record Busy (y : System ipc) : Type 0 where
    pub sound : IsSound y.sender y.buffer y.receiver.expected_version
    pub message : y.message ≡ none
    pub ack : y.ack ≡ false
    pub phase : y.receiver.phase ≡ ReceiverPhase.loading
    pub late : y.receiver.ack_early ≡ false
    pub awaits : Waits y.sender false y.receiver.is_last
    pub content :
        y.receiver.loaded ++ (view_weights ipc y.buffer y.receiver.pending ++ y.sender.weights)
        ≡ all

  -- The receiver beside an acknowledgement: it is through with the bucket, or it loads it while two
  -- slots are in use.
  pub data Reader (y : System ipc) (is_last : Bool) : Type 0 where
    through :
        y.receiver.phase ≡ ReceiverPhase.receiving
        → y.receiver.pending ≡ []
        → is_last ≡ false
        → Reader y is_last
    ended :
        y.receiver.phase ≡ ReceiverPhase.received
        → y.receiver.pending ≡ []
        → is_last ≡ true
        → Reader y is_last
    loads :
        y.receiver.phase ≡ ReceiverPhase.loading
        → y.receiver.ack_early ≡ true
        → y.receiver.is_last ≡ false
        → y.sender.double_buffer ≡ true
        → y.sender.phase ≡ SenderPhase.await_flush
        → All (λ p. ViewIn ipc (slot_start y.sender) y.sender.bucket_size p.1) y.receiver.pending
        → Reader y is_last

  -- An acknowledgement is in the socket.
  pub record Acked (ack_early is_last : Bool) (y : System ipc) : Type 0 where
    pub sound : IsSound y.sender y.buffer y.receiver.expected_version
    pub message : y.message ≡ none
    pub ack : y.ack ≡ true
    pub reader : Reader y is_last
    pub awaits : Waits y.sender ack_early is_last
    pub content :
        y.receiver.loaded ++ (view_weights ipc y.buffer y.receiver.pending ++ y.sender.weights)
        ≡ all

  pub record Ended (y : System ipc) : Type 0 where
    pub message : y.message ≡ none
    pub sender_phase : y.sender.phase ≡ SenderPhase.sent
    pub ack : y.ack ≡ false
    pub receiver_phase : y.receiver.phase ≡ ReceiverPhase.received
    pub content : y.receiver.loaded ≡ all

  -- The sender has given up on a weight that does not fit the bucket in shared memory.
  pub record Failed (y : System ipc) : Type 0 where
    pub message : y.message ≡ none
    pub sender_phase : y.sender.phase ≡ SenderPhase.assertion_failed
    pub ack : y.ack ≡ false
    pub shared_memory : y.sender.use_shm ≡ true
    pub reader : Between y
    pub rest : List (Weight ipc)
    pub content : y.receiver.loaded ++ (view_weights ipc y.buffer y.receiver.pending ++ rest) ≡ all

  pub data Stage (y : System ipc) : Type 0 where
    going : Going y → Stage y
    posted : (m : Message ipc) → Posted m y → Stage y
    busy : Busy y → Stage y
    acked : (ack_early is_last : Bool) → Acked ack_early is_last y → Stage y
    finished : Ended y → Stage y
    failed : Failed y → Stage y
