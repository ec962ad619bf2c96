-- ===== src/WeightTransfer/Versions.antt =====
-- A receiver that expects another version loads nothing.
use lumen_rl.Base.{
  ℕ, ◌+◌, ◌≡◌, refl, sym, subst, ap, ◌∙◌, Bool, true, false, List, [], ◌∷◌, ◌⊎◌, inl, inr, Option,
  some, none, ltb, length,
}
use lumen_rl.WeightTransfer.State.{
  Ipc, Message, ReceiverPhase, SenderPhase, System, Turn, Weight, init, make_receiver, make_sender,
  version_ok,
}
use lumen_rl.WeightTransfer.Sender.{
  after_ack, control, copy_weight, direct_send_large_weight, flush, send_weight,
}
use lumen_rl.WeightTransfer.Receiver.{reject, take_message}
use lumen_rl.WeightTransfer.Threads.{receive_in, run, send_in, step}
use lumen_rl.WeightTransfer.Turns.{if-intro}
use lumen_rl.WeightTransfer.Delivery.{Options, start}

module _ (ipc : Ipc) where
  abbrev MessageVersion : Option (Message ipc) → Option ℕ → Type 0
  MessageVersion none v = Unit
  MessageVersion (some m) v = m.version ≡ v

  -- Nothing was loaded, and no message passes the check.
  record Unaccepted (y : System ipc) : Type 0 where
    mismatch : version_ok y.receiver.expected_version y.sender.version ≡ false
    message : MessageVersion y.message y.sender.version
    phase :
        (y.receiver.phase ≡ ReceiverPhase.receiving) ⊎ (y.receiver.phase ≡ ReceiverPhase.rejected)
    loaded : y.receiver.loaded ≡ []

  send_weight-Unaccepted :
      (ws : List (Weight ipc)) (y : System ipc) → Unaccepted y → Unaccepted (send_weight ipc ws y)
  unfolding send_weight flush control copy_weight direct_send_large_weight
  send_weight-Unaccepted [] y u = record {
    mismatch = u.mismatch;
    message = refl;
    phase = u.phase;
    loaded = u.loaded;
  }
  send_weight-Unaccepted (w ∷ rest) y u =
      if-intro Unaccepted (ltb y.sender.bucket_size (y.sender.offset + length w.1.bytes)) _ _
        (λ _.
          if-intro Unaccepted (ltb 0 (length y.sender.bucket_meta)) _ _
            (λ _. record {
              mismatch = u.mismatch;
              message = refl;
              phase = u.phase;
              loaded = u.loaded;
            })
            (λ _.
              if-intro Unaccepted y.sender.use_shm _ _
                (λ _. record {
                  mismatch = u.mismatch;
                  message = u.message;
                  phase = u.phase;
                  loaded = u.loaded;
                })
                (λ _. record {
                  mismatch = u.mismatch;
                  message = refl;
                  phase = u.phase;
                  loaded = u.loaded;
                })))
        (λ _. record {
          mismatch = u.mismatch;
          message = u.message;
          phase = u.phase;
          loaded = u.loaded;
        })

  version-after_ack :
      (p : SenderPhase) (y : System ipc) → (after_ack ipc p y.sender).version ≡ y.sender.version
  unfolding after_ack
  version-after_ack SenderPhase.running y = refl
  version-after_ack SenderPhase.await_flush y = refl
  version-after_ack SenderPhase.await_last y = refl
  version-after_ack SenderPhase.await_direct y = refl
  version-after_ack SenderPhase.sent y = refl
  version-after_ack SenderPhase.assertion_failed y = refl

  acked-Unaccepted :
      (p : SenderPhase) (y : System ipc)
      → Unaccepted y
      → Unaccepted (record y { ack = false; sender = after_ack ipc p y.sender })
  acked-Unaccepted p y u =
      let same = version-after_ack p y in
      record {
        mismatch = ap (version_ok y.receiver.expected_version) same ∙ u.mismatch;
        message = subst (MessageVersion y.message) (sym same) u.message;
        phase = u.phase;
        loaded = u.loaded;
      }

  send_in-Unaccepted :
      (p : SenderPhase) (a : Bool) (y : System ipc) → Unaccepted y → Unaccepted (send_in ipc p a y)
  unfolding send_in
  send_in-Unaccepted SenderPhase.running a y u = send_weight-Unaccepted y.sender.weights y u
  send_in-Unaccepted SenderPhase.await_flush true y u = acked-Unaccepted SenderPhase.await_flush y u
  send_in-Unaccepted SenderPhase.await_last true y u = acked-Unaccepted SenderPhase.await_last y u
  send_in-Unaccepted SenderPhase.await_direct true y u =
      acked-Unaccepted SenderPhase.await_direct y u
  send_in-Unaccepted SenderPhase.sent true y u = acked-Unaccepted SenderPhase.sent y u
  send_in-Unaccepted SenderPhase.assertion_failed true y u =
      acked-Unaccepted SenderPhase.assertion_failed y u
  send_in-Unaccepted SenderPhase.await_flush false y u = u
  send_in-Unaccepted SenderPhase.await_last false y u = u
  send_in-Unaccepted SenderPhase.await_direct false y u = u
  send_in-Unaccepted SenderPhase.sent false y u = u
  send_in-Unaccepted SenderPhase.assertion_failed false y u = u

  take_message-Unaccepted :
      (m : Message ipc) (y : System ipc)
      → m.version ≡ y.sender.version
      → Unaccepted y
      → Unaccepted (take_message ipc m y)
  unfolding take_message reject
  take_message-Unaccepted m y e u =
      if-intro Unaccepted (version_ok y.receiver.expected_version m.version) _ _
        (λ h. absurd (cc (h, ap (version_ok y.receiver.expected_version) e, u.mismatch)))
        (λ h. record { mismatch = u.mismatch; message = tt; phase = inr refl; loaded = u.loaded })

  receive_in-Unaccepted :
      (p : ReceiverPhase) (m : Option (Message ipc)) (y : System ipc)
      → y.receiver.phase ≡ p
      → MessageVersion m y.sender.version
      → Unaccepted y
      → Unaccepted (receive_in ipc p m y)
  unfolding receive_in
  receive_in-Unaccepted ReceiverPhase.receiving none y p e u = u
  receive_in-Unaccepted ReceiverPhase.receiving (some m) y p e u = take_message-Unaccepted m y e u
  receive_in-Unaccepted ReceiverPhase.loading m y p e u = elim u.phase [
    | inl q ↦ absurd (cc)
    | inr q ↦ absurd (cc)
  ]
  receive_in-Unaccepted ReceiverPhase.received m y p e u = u
  receive_in-Unaccepted ReceiverPhase.rejected m y p e u = u

  step-Unaccepted : (turn : Turn) (y : System ipc) → Unaccepted y → Unaccepted (step ipc turn y)
  unfolding step
  step-Unaccepted Turn.sends y u = send_in-Unaccepted y.sender.phase y.ack y u
  step-Unaccepted Turn.receives y u =
      receive_in-Unaccepted y.receiver.phase y.message y refl u.message u

  run-Unaccepted :
      (turns : List Turn) (y : System ipc) → Unaccepted y → Unaccepted (run ipc turns y)
  unfolding run
  run-Unaccepted [] y u = u
  run-Unaccepted (turn ∷ turns) y u =
      run-Unaccepted turns (step ipc turn y) (step-Unaccepted turn y u)

  -- Where the receiver expects a version and the sender has another one, or none, no weight is ever
  -- loaded, whatever the turns, the weights and the buffer.
  pub mismatch-loads_nothing :
      (o : Options) (all : List (Weight ipc)) (memory : List ℕ) (turns : List Turn)
      → version_ok o.expected_version o.version ≡ false
      → (run ipc turns (start ipc o all memory)).receiver.loaded ≡ []
  unfolding init make_sender make_receiver
  mismatch-loads_nothing o all memory turns h =
      (run-Unaccepted turns (start ipc o all memory)
        (record { mismatch = h; message = tt; phase = inl refl; loaded = refl })).loaded
