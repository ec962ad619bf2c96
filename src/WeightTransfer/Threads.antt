-- ===== src/WeightTransfer/Threads.antt =====
-- The two threads: a step of either, and a run.
use lumen_rl.Base.{Bool, true, false, List, [], ◌∷◌, Option, some}
use lumen_rl.WeightTransfer.State.{Ipc, Message, SenderPhase, ReceiverPhase, System, Turn}
use lumen_rl.WeightTransfer.Sender.{send_weight, after_ack}
use lumen_rl.WeightTransfer.Receiver.{take_message, load_next}

module _ (ipc : Ipc) where
  -- The steps of the two threads. A thread that has to wait does nothing.
  unfoldable pub send_in : SenderPhase → Bool → System ipc → System ipc
  unfolding send_weight after_ack
  send_in SenderPhase.running _ y = send_weight ipc y.sender.weights y
  send_in phase true y = record y { ack = false; sender = after_ack ipc phase y.sender }
  send_in phase false y = y

  unfoldable pub receive_in : ReceiverPhase → Option (Message ipc) → System ipc → System ipc
  unfolding take_message load_next
  receive_in ReceiverPhase.receiving (some m) y = take_message ipc m y
  receive_in ReceiverPhase.loading _ y = load_next ipc y.receiver.pending y
  receive_in _ _ y = y

  unfoldable pub step : Turn → System ipc → System ipc
  unfolding send_in receive_in
  step Turn.sends y = send_in y.sender.phase y.ack y
  step Turn.receives y = receive_in y.receiver.phase y.message y

  unfoldable pub run : List Turn → System ipc → System ipc
  unfolding step
  run [] y = y
  run (turn ∷ turns) y = run turns (step turn y)
