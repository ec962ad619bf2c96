-- ===== src/WeightTransfer/Costs.antt =====
-- lumenrl/engine/inference/bucketed_weight_transfer.py: a measure of the work that is left, and that
-- it falls with each turn of the sender that can go on.
use lumen_rl.Base.{
  ℕ, suc, ◌+◌, ◌*◌, ◌<◌, ◌≡◌, refl, sym, subst, ap, Bool, true, false, List, [], ◌∷◌, Option, some,
  none, if◌then◌else◌, ltb, length, length-append, arith,
}
use lumen_rl.WeightTransfer.State.{Ipc, Message, ReceiverPhase, SenderPhase, System, Weight}
use lumen_rl.WeightTransfer.Sender.{
  after_ack, copy_weight, direct_send_large_weight, flush, send_weight, control, nbytes,
}
use lumen_rl.WeightTransfer.Threads.{send_in}
use lumen_rl.WeightTransfer.Writes.{NewNames, dict_set-new, entry}
use lumen_rl.WeightTransfer.Stages.{Going, Waits}
use lumen_rl.WeightTransfer.Turns.{if-intro}

abbrev pub phase_cost : SenderPhase → ℕ
phase_cost SenderPhase.running = 12
phase_cost SenderPhase.await_flush = 12
phase_cost SenderPhase.await_direct = 12
phase_cost SenderPhase.await_last = 6
phase_cost SenderPhase.sent = 0
phase_cost SenderPhase.assertion_failed = 0

abbrev pub held_cost : SenderPhase → ℕ → ℕ
held_cost SenderPhase.running n = n + (if ltb 0 n then 6 else 0)
held_cost _ n = 0

abbrev pub reader_cost : ReceiverPhase → ℕ
reader_cost ReceiverPhase.loading = 2
reader_cost _ = 0

abbrev pub ack_cost : Bool → ℕ
ack_cost true = 1
ack_cost false = 0

module _ (ipc : Ipc) where
  abbrev pub message_cost : Option (Message ipc) → ℕ
  message_cost none = 0
  message_cost (some m) = length m.bucket_meta + 4

  -- The work that is left.
  abbrev pub cost : System ipc → ℕ
  cost y =
      8 * length y.sender.weights
      + held_cost y.sender.phase (length y.sender.bucket_meta)
      + phase_cost y.sender.phase
      + message_cost y.message
      + ack_cost y.ack
      + reader_cost y.receiver.phase
      + length y.receiver.pending

module _ (ipc : Ipc) (all : List (Weight ipc)) where
  held-Going :
      (y : System ipc)
      → Going ipc all y
      → held_cost y.sender.phase (length y.sender.bucket_meta)
        ≡ length y.sender.bucket_meta + (if ltb 0 (length y.sender.bucket_meta) then 6 else 0)
  held-Going y g = ap (λ p. held_cost p (length y.sender.bucket_meta)) g.phase

  copy-cost :
      (w : Weight ipc) (rest : List (Weight ipc)) (y : System ipc)
      → y.sender.weights ≡ w ∷ rest
      → Going ipc all y
      → cost ipc (copy_weight ipc w rest y) < cost ipc y
  unfolding copy_weight nbytes
  copy-cost w rest y e g =
      let start = y.sender.slot * y.sender.bucket_size + y.sender.offset in
      let bm = y.sender.bucket_meta in
      let names : NewNames (w ∷ rest) bm = subst (λ ws. NewNames ws bm) e g.new_names in
      let added = ap length (dict_set-new w.0 (entry ipc start w) bm names.0) in
      ground (
        arith,
        added,
        length-append bm ((w.0, entry ipc start w) ∷ []),
        ap length e,
        held-Going y g,
        ap (λ p. held_cost p (suc (length bm))) g.phase,
        g.phase,
      )

  flush_more-cost :
      (y : System ipc)
      → Going ipc all y
      → ltb 0 (length y.sender.bucket_meta) ≡ true
      → cost ipc (flush ipc false y) < cost ipc y
  unfolding flush control
  flush_more-cost y g full =
      ground (arith, held-Going y g, ap phase_cost g.phase, ap (message_cost ipc) g.message)

  flush_last-cost : (y : System ipc) → Going ipc all y → cost ipc (flush ipc true y) < cost ipc y
  unfolding flush control
  flush_last-cost y g =
      ground (arith, held-Going y g, ap phase_cost g.phase, ap (message_cost ipc) g.message)

  direct-cost :
      (w : Weight ipc) (rest : List (Weight ipc)) (y : System ipc)
      → y.sender.weights ≡ w ∷ rest
      → Going ipc all y
      → cost ipc (direct_send_large_weight ipc w rest y) < cost ipc y
  unfolding direct_send_large_weight control
  direct-cost w rest y e g =
      ground
        (arith, held-Going y g, ap phase_cost g.phase, ap (message_cost ipc) g.message, ap length e)

  gives_up-cost :
      (y : System ipc)
      → Going ipc all y
      → cost ipc (record y { sender = record y.sender { phase = SenderPhase.assertion_failed } })
        < cost ipc y
  gives_up-cost y g =
      ground (arith, held-Going y g, ap phase_cost g.phase, ap (message_cost ipc) g.message)

  send_weight-cost :
      (ws : List (Weight ipc)) (y : System ipc)
      → y.sender.weights ≡ ws
      → Going ipc all y
      → cost ipc (send_weight ipc ws y) < cost ipc y
  unfolding send_weight
  send_weight-cost [] y e g = flush_last-cost y g
  send_weight-cost (w ∷ rest) y e g =
      if-intro (λ z. cost ipc z < cost ipc y)
        (ltb y.sender.bucket_size (y.sender.offset + length w.1.bytes)) _ _
        (λ large.
          if-intro (λ z. cost ipc z < cost ipc y) (ltb 0 (length y.sender.bucket_meta)) _ _
            (λ full. flush_more-cost y g full)
            (λ empty.
              if-intro (λ z. cost ipc z < cost ipc y) y.sender.use_shm _ _
                (λ shm. gives_up-cost y g) (λ gpu. direct-cost w rest y e g)))
        (λ fits. copy-cost w rest y e g)

  -- The sender's turn where it runs.
  pub Going-cost :
      (y : System ipc)
      → Going ipc all y
      → cost ipc (send_in ipc y.sender.phase y.ack y) < cost ipc y
  unfolding send_in
  Going-cost y g =
      subst (λ p. cost ipc (send_in ipc p y.ack y) < cost ipc y) (sym g.phase)
        (send_weight-cost y.sender.weights y refl g)

  pub acked-cost :
      (y : System ipc) (early last : Bool)
      → Waits ipc all y.sender early last
      → y.ack ≡ true
      → cost ipc (send_in ipc y.sender.phase true y) < cost ipc y
  unfolding send_in after_ack
  acked-cost y early last (Waits.for_flush p _ _) a =
      subst (λ q. cost ipc (send_in ipc q true y) < cost ipc y) (sym p)
        (ground (
          arith,
          ap phase_cost p,
          ap ack_cost a,
          ap (λ q. held_cost q (length y.sender.bucket_meta)) p,
        ))
  acked-cost y early last (Waits.for_last p _ _ _) a =
      subst (λ q. cost ipc (send_in ipc q true y) < cost ipc y) (sym p)
        (ground (
          arith,
          ap phase_cost p,
          ap ack_cost a,
          ap (λ q. held_cost q (length y.sender.bucket_meta)) p,
        ))
  acked-cost y early last (Waits.for_direct p _ _ empty _) a =
      subst (λ q. cost ipc (send_in ipc q true y) < cost ipc y) (sym p)
        (ground (
          arith,
          ap phase_cost p,
          ap ack_cost a,
          ap length empty,
          ap (λ q. held_cost q (length y.sender.bucket_meta)) p,
        ))
