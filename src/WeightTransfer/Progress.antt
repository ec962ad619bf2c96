-- ===== src/WeightTransfer/Progress.antt =====
-- lumenrl/engine/inference/bucketed_weight_transfer.py: as long as the transfer is not over, one of
-- the threads can go on, with less work left.
use lumen_rl.Base.{
  ℕ, suc, ◌⊎◌, ◌*◌, ◌<◌, ◌≡◌, refl, sym, subst, ap, ◌∙◌, true, List, [], ◌∷◌, some, String, ok,
  length, arith, inl, inr,
}
use lumen_rl.WeightTransfer.State.{
  Ipc, Message, ReceiverPhase, System, TensorMetadata, View, Weight, Turn, version_ok,
}
use lumen_rl.WeightTransfer.Receiver.{begin_loading, load_next, take_message}
use lumen_rl.WeightTransfer.Threads.{receive_in, send_in, step}
use lumen_rl.WeightTransfer.Contents.{Taken, view_weights, views-Taken, meta_weights}
use lumen_rl.WeightTransfer.Stages.{Between, Busy, Ended, Failed, Posted, Stage}
use lumen_rl.WeightTransfer.Turns.{if-intro}
use lumen_rl.WeightTransfer.Costs.{cost, reader_cost, message_cost, Going-cost, acked-cost}

module _ (ipc : Ipc) (all : List (Weight ipc)) where
  length-view_weights :
      (buffer : List ℕ) (vs : List (String × View ipc))
      → length (view_weights ipc buffer vs) ≡ length vs
  length-view_weights buffer [] = refl
  length-view_weights buffer ((name, v) ∷ vs) = ap suc (length-view_weights buffer vs)

  length-meta_weights :
      (device : ℕ) (buffer : List ℕ) (metas : List (String × TensorMetadata ipc))
      → length (meta_weights ipc device buffer metas) ≡ length metas
  length-meta_weights device buffer [] = refl
  length-meta_weights device buffer ((name, meta) ∷ metas) =
      ap suc (length-meta_weights device buffer metas)

  -- The receiver's turn where it loads.
  load-cost :
      (vs : List (String × View ipc)) (y : System ipc)
      → y.receiver.pending ≡ vs
      → y.receiver.phase ≡ ReceiverPhase.loading
      → cost ipc (load_next ipc vs y) < cost ipc y
  unfolding load_next
  load-cost ((name, v) ∷ rest) y e p = omega (arith, ap length e)
  load-cost [] y e p = ground (arith, ap reader_cost p, ap length e)

  Taken-cost :
      (y : System ipc) (m : Message ipc) (vs : List (String × View ipc))
      → y.receiver.pending ≡ []
      → y.message ≡ some m
      → Taken ipc y.receiver y.buffer
          (y.sender.slot * y.sender.bucket_size)
          y.sender.bucket_size
          m.bucket_meta
          vs
      → cost ipc (begin_loading ipc m y (ok vs)) < cost ipc y
  unfolding begin_loading
  Taken-cost y m vs e posted taken =
      let n : length vs ≡ length m.bucket_meta =
        sym (length-view_weights y.buffer vs)
        ∙ ap length taken.shown
        ∙ length-meta_weights y.receiver.device y.buffer m.bucket_meta in
      ground (arith, n, ap (message_cost ipc) posted, ap length e)

  take_message-cost :
      (y : System ipc) (m : Message ipc)
      → y.receiver.pending ≡ []
      → Posted ipc all m y
      → cost ipc (take_message ipc m y) < cost ipc y
  unfolding take_message
  take_message-cost y m e g =
      let (vs, taken) =
        views-Taken ipc y.receiver y.buffer (y.sender.slot * y.sender.bucket_size)
          y.sender.bucket_size m.bucket_meta g.sendable in
      let current : version_ok y.receiver.expected_version m.version ≡ true =
        ap (version_ok y.receiver.expected_version) g.version ∙ g.sound.version in
      if-intro (λ z. cost ipc z < cost ipc y) (version_ok y.receiver.expected_version m.version) _ _
        (λ same.
          subst (λ r. cost ipc (begin_loading ipc m y r) < cost ipc y) (sym taken.made)
            (Taken-cost y m vs e g.message taken))
        (λ other. absurd (cc (current, other)))

  Posted-cost :
      (y : System ipc) (m : Message ipc)
      → Between ipc all y
      → Posted ipc all m y
      → cost ipc (receive_in ipc y.receiver.phase y.message y) < cost ipc y
  unfolding receive_in
  Posted-cost y m (Between.waits p e) g =
      subst (λ q. cost ipc (receive_in ipc q y.message y) < cost ipc y) (sym p)
        (subst (λ n. cost ipc (receive_in ipc ReceiverPhase.receiving n y) < cost ipc y)
          (sym g.message) (take_message-cost y m e g))
  Posted-cost y m (Between.still_loads p q r) g =
      subst (λ q. cost ipc (receive_in ipc q y.message y) < cost ipc y) (sym p)
        (load-cost y.receiver.pending y refl p)

  Busy-cost :
      (y : System ipc)
      → Busy ipc all y
      → cost ipc (receive_in ipc y.receiver.phase y.message y) < cost ipc y
  unfolding receive_in
  Busy-cost y b =
      subst (λ q. cost ipc (receive_in ipc q y.message y) < cost ipc y) (sym b.phase)
        (load-cost y.receiver.pending y refl b.phase)

  -- The transfer is over: everything was loaded, or the sender has given up.
  pub data IsOver (y : System ipc) : Type 0 where
    delivered : Ended ipc all y → IsOver y
    gave_up : Failed ipc all y → IsOver y

  -- Unless it is over, one of the two threads can go on, with less work left.
  pub can_go_on :
      (y : System ipc)
      → Stage ipc all y
      → IsOver y ⊎ ((turn : Turn) × (cost ipc (step ipc turn y) < cost ipc y))
  unfolding step
  can_go_on y (Stage.going g) = inr (Turn.sends, Going-cost ipc all y g)
  can_go_on y (Stage.posted m p) = inr (Turn.receives, Posted-cost y m p.reader p)
  can_go_on y (Stage.busy b) = inr (Turn.receives, Busy-cost y b)
  can_go_on y (Stage.acked early last a) = inr (
    Turn.sends,
    subst (λ b. cost ipc (send_in ipc y.sender.phase b y) < cost ipc y) (sym a.ack)
        (acked-cost ipc all y early last a.awaits a.ack),
  )
  can_go_on y (Stage.finished e) = inl (IsOver.delivered e)
  can_go_on y (Stage.failed f) = inl (IsOver.gave_up f)
