-- ===== src/WeightTransfer/Turns.antt =====
-- Every turn of the sender leads from one stage to a stage.
use lumen_rl.Base.{
  not_ltb→le, ◌+◌, ◌≡◌, refl, sym, subst, ap, ◌∙◌, Bool, true, false, List, [], ◌∷◌, ◌++◌,
  if◌then◌else◌, length, arith, ltb,
}
use lumen_rl.WeightTransfer.State.{Ipc, SenderPhase, System, Weight}
use lumen_rl.WeightTransfer.Sender.{after_ack, send_weight}
use lumen_rl.WeightTransfer.Threads.{send_in}
use lumen_rl.WeightTransfer.Contents.{IsIpc, meta_weights, view_weights}
use lumen_rl.WeightTransfer.Stages.{Going, Stage, Waits}
use lumen_rl.WeightTransfer.Sending.{
  Between-sender, copy_weight-Going, direct_send, flush_last, flush_more,
}
use lumen_rl.WeightTransfer.Acks.{after_ack-Stage}

nil_of_length {ℓ} : {A : Type ℓ} (xs : List A) → ltb 0 (length xs) ≡ false → xs ≡ []
nil_of_length [] h = refl
nil_of_length (x ∷ xs) h = absurd (ground arith)

-- A conditional has a property that both branches have where they are taken.
pub if-intro {ℓ κ} :
    {A : Type ℓ} (P : A → Type κ) (b : Bool) (x y : A)
    → (b ≡ true → P x)
    → (b ≡ false → P y)
    → P (if b then x else y)
if-intro P true x y p q = p refl
if-intro P false x y p q = q refl

module _ (ipc : Ipc) (all : List (Weight ipc)) (law : IsIpc ipc) where
  gives_up :
      (y : System ipc)
      → y.sender.use_shm ≡ true
      → Going ipc all y
      → y.sender.bucket_meta ≡ []
      → Stage ipc all
          (record y { sender = record y.sender { phase = SenderPhase.assertion_failed } })
  gives_up y shm g empty = Stage.failed (record {
    message = g.message;
    sender_phase = refl;
    ack = g.ack;
    shared_memory = shm;
    reader = Between-sender ipc all refl g.reader;
    rest = y.sender.weights;
    content =
        ap
          (λ d.
            y.receiver.loaded
            ++ (view_weights ipc y.buffer y.receiver.pending
                ++ (meta_weights ipc y.receiver.device y.buffer d ++ y.sender.weights)))
          (sym empty)
        ∙ g.content;
  })

  send_weight-Stage :
      (ws : List (Weight ipc)) (y : System ipc)
      → y.sender.weights ≡ ws
      → Going ipc all y
      → Stage ipc all (send_weight ipc ws y)
  unfolding send_weight
  send_weight-Stage [] y e g = flush_last ipc all y e g
  send_weight-Stage (w ∷ rest) y e g =
      if-intro (Stage ipc all) (ltb y.sender.bucket_size (y.sender.offset + length w.1.bytes)) _ _
        (λ large.
          if-intro (Stage ipc all) (ltb 0 (length y.sender.bucket_meta)) _ _
            (λ some. flush_more ipc all y g)
            (λ empty.
              if-intro (Stage ipc all) y.sender.use_shm _ _
                (λ shm. gives_up y shm g (nil_of_length y.sender.bucket_meta empty))
                (λ gpu.
                  direct_send ipc all w rest y law e (nil_of_length y.sender.bucket_meta empty) g)))
        (λ fits. Stage.going (
          copy_weight-Going ipc all w rest y e
            (not_ltb→le y.sender.bucket_size (y.sender.offset + length w.1.bytes) fits) g))

  -- A sender that waits does nothing, and goes on with an acknowledgement.
  idle-Stage :
      (y : System ipc) (ack_early is_last : Bool)
      → Waits ipc all y.sender ack_early is_last
      → Stage ipc all y
      → Stage ipc all (send_in ipc y.sender.phase false y)
  unfolding send_in
  idle-Stage y ack_early is_last (Waits.for_flush p _ _) s =
      subst (λ q. Stage ipc all (send_in ipc q false y)) (sym p) s
  idle-Stage y ack_early is_last (Waits.for_last p _ _ _) s =
      subst (λ q. Stage ipc all (send_in ipc q false y)) (sym p) s
  idle-Stage y ack_early is_last (Waits.for_direct p _ _ _ _) s =
      subst (λ q. Stage ipc all (send_in ipc q false y)) (sym p) s

  acked-Stage :
      (y : System ipc) (ack_early is_last : Bool)
      → Waits ipc all y.sender ack_early is_last
      → Stage ipc all (record y { ack = false; sender = after_ack ipc y.sender.phase y.sender })
      → Stage ipc all (send_in ipc y.sender.phase true y)
  unfolding send_in
  acked-Stage y ack_early is_last (Waits.for_flush p _ _) s =
      subst (λ q. Stage ipc all (send_in ipc q true y)) (sym p)
        (subst (λ q. Stage ipc all (record y { ack = false; sender = after_ack ipc q y.sender })) p
          s)
  acked-Stage y ack_early is_last (Waits.for_last p _ _ _) s =
      subst (λ q. Stage ipc all (send_in ipc q true y)) (sym p)
        (subst (λ q. Stage ipc all (record y { ack = false; sender = after_ack ipc q y.sender })) p
          s)
  acked-Stage y ack_early is_last (Waits.for_direct p _ _ _ _) s =
      subst (λ q. Stage ipc all (send_in ipc q true y)) (sym p)
        (subst (λ q. Stage ipc all (record y { ack = false; sender = after_ack ipc q y.sender })) p
          s)

  -- The sender's turn, in every stage.
  pub sends-Stage :
      (y : System ipc) → Stage ipc all y → Stage ipc all (send_in ipc y.sender.phase y.ack y)
  unfolding send_in
  sends-Stage y (Stage.going g) =
      subst (λ p. Stage ipc all (send_in ipc p y.ack y)) (sym g.phase)
        (send_weight-Stage y.sender.weights y refl g)
  sends-Stage y (Stage.posted m p) =
      subst (λ a. Stage ipc all (send_in ipc y.sender.phase a y)) (sym p.ack)
        (idle-Stage y m.ack_early m.is_last p.awaits (Stage.posted m p))
  sends-Stage y (Stage.busy b) =
      subst (λ a. Stage ipc all (send_in ipc y.sender.phase a y)) (sym b.ack)
        (idle-Stage y false y.receiver.is_last b.awaits (Stage.busy b))
  sends-Stage y (Stage.acked early last a) =
      subst (λ b. Stage ipc all (send_in ipc y.sender.phase b y)) (sym a.ack)
        (acked-Stage y early last a.awaits (after_ack-Stage ipc all y early last a.awaits a))
  sends-Stage y (Stage.finished e) =
      subst (λ a. Stage ipc all (send_in ipc y.sender.phase a y)) (sym e.ack)
        (subst (λ p. Stage ipc all (send_in ipc p false y)) (sym e.sender_phase) (Stage.finished e))
  sends-Stage y (Stage.failed f) =
      subst (λ a. Stage ipc all (send_in ipc y.sender.phase a y)) (sym f.ack)
        (subst (λ p. Stage ipc all (send_in ipc p false y)) (sym f.sender_phase) (Stage.failed f))
