-- ===== src/WeightTransfer/Receiving.antt =====
-- Every turn of the receiver leads from one stage to a stage.
use lumen_rl.Base.{
  ◌*◌, ◌≡◌, refl, sym, subst, ap, ◌∙◌, Bool, true, false, List, [], ◌++◌, none, String, ok,
  if◌then◌else◌, Bool-cases, inl, inr,
}
use lumen_rl.WeightTransfer.State.{
  Ipc, Message, ReceiverPhase, SenderPhase, System, View, Weight, version_ok,
}
use lumen_rl.WeightTransfer.Receiver.{begin_loading, load_next, reject, take_message, views}
use lumen_rl.WeightTransfer.Threads.{receive_in}
use lumen_rl.WeightTransfer.Contents.{Taken, meta_weights, view_weights, views-Taken}
use lumen_rl.WeightTransfer.Stages.{Acked, Between, Failed, Going, Posted, Reader, Stage, Waits}
use lumen_rl.WeightTransfer.Loading.{
  Going-loads, Posted-loads, Failed-loads, Busy-loads, Acked-loads,
}

module _ (ipc : Ipc) (all : List (Weight ipc)) where
  -- Only a bucket of the double buffer, which is not the last, is acknowledged early.
  early_flush :
      (y : System ipc) (early last : Bool)
      → Waits ipc all y.sender early last
      → early ≡ true
      → (y.sender.double_buffer ≡ true)
        × (y.sender.phase ≡ SenderPhase.await_flush)
        × (last ≡ false)
  early_flush y early last (Waits.for_flush p l d) e = (sym d ∙ e, p, l)
  early_flush y early last (Waits.for_last p l d w) e = absurd (cc)
  early_flush y early last (Waits.for_direct p l d b o) e = absurd (cc)

  flush_more :
      (y : System ipc) (early last : Bool)
      → Waits ipc all y.sender early last
      → y.sender.phase ≡ SenderPhase.await_flush
      → last ≡ false
  flush_more y early last (Waits.for_flush p l d) e = l
  flush_more y early last (Waits.for_last p l d w) e = absurd (cc)
  flush_more y early last (Waits.for_direct p l d b o) e = l

  taken-content :
      (y : System ipc) (m : Message ipc) (vs : List (String × View ipc))
      → y.receiver.pending ≡ []
      → view_weights ipc y.buffer vs ≡ meta_weights ipc y.receiver.device y.buffer m.bucket_meta
      → y.receiver.loaded
          ++ (view_weights ipc y.buffer y.receiver.pending
              ++ (meta_weights ipc y.receiver.device y.buffer m.bucket_meta ++ y.sender.weights))
        ≡ all
      → y.receiver.loaded ++ (view_weights ipc y.buffer vs ++ y.sender.weights) ≡ all
  taken-content y m vs e shown c =
      ap (λ ws. y.receiver.loaded ++ (ws ++ y.sender.weights)) shown
      ∙ ap
          (λ ps.
            y.receiver.loaded
            ++ (view_weights ipc y.buffer ps
                ++ (meta_weights ipc y.receiver.device y.buffer m.bucket_meta ++ y.sender.weights)))
          (sym e)
      ∙ c

  begin_loading-Stage :
      (y : System ipc) (m : Message ipc) (vs : List (String × View ipc))
      → y.receiver.pending ≡ []
      → Taken ipc y.receiver y.buffer
          (y.sender.slot * y.sender.bucket_size)
          y.sender.bucket_size
          m.bucket_meta
          vs
      → Posted ipc all m y
      → Stage ipc all (begin_loading ipc m y (ok vs))
  unfolding begin_loading
  begin_loading-Stage y m vs e taken g = elim (Bool-cases m.ack_early) [
    | inl early ↦
        let (double, f, l) = early_flush y m.ack_early m.is_last g.awaits early in
        Stage.acked m.ack_early m.is_last (record {
          sound = g.sound;
          message = refl;
          ack = early;
          reader = Reader.loads refl early l double f taken.placed;
          awaits = g.awaits;
          content = taken-content y m vs e taken.shown g.content;
        })
    | inr late ↦ Stage.busy (record {
      sound = g.sound;
      message = refl;
      ack = late;
      phase = refl;
      late = late;
      awaits = subst (λ a. Waits ipc all y.sender a m.is_last) late g.awaits;
      content = taken-content y m vs e taken.shown g.content;
    })
  ]

  take_message-Stage :
      (y : System ipc) (m : Message ipc)
      → y.receiver.pending ≡ []
      → Posted ipc all m y
      → Stage ipc all (take_message ipc m y)
  unfolding take_message
  take_message-Stage y m e g =
      let (vs, taken) =
        views-Taken ipc y.receiver y.buffer (y.sender.slot * y.sender.bucket_size)
          y.sender.bucket_size m.bucket_meta g.sendable in
      let current : version_ok y.receiver.expected_version m.version ≡ true =
        ap (version_ok y.receiver.expected_version) g.version ∙ g.sound.version in
      subst
        (λ b. Stage ipc all (
          if b
          then begin_loading ipc m y (views ipc y.receiver y.buffer m.bucket_meta)
          else reject ipc y))
        (sym current)
        (subst (λ r. Stage ipc all (begin_loading ipc m y r)) (sym taken.made)
          (begin_loading-Stage y m vs e taken g))

  -- The receiver's turn while it waits without a message.
  waits-Stage :
      (y : System ipc)
      → y.receiver.phase ≡ ReceiverPhase.receiving
      → y.message ≡ none
      → Stage ipc all y
      → Stage ipc all (receive_in ipc y.receiver.phase y.message y)
  unfolding receive_in
  waits-Stage y p m s =
      subst (λ q. Stage ipc all (receive_in ipc q y.message y)) (sym p)
        (subst (λ n. Stage ipc all (receive_in ipc ReceiverPhase.receiving n y)) (sym m) s)

  loads-Stage :
      (y : System ipc)
      → y.receiver.phase ≡ ReceiverPhase.loading
      → Stage ipc all (load_next ipc y.receiver.pending y)
      → Stage ipc all (receive_in ipc y.receiver.phase y.message y)
  unfolding receive_in
  loads-Stage y p s = subst (λ q. Stage ipc all (receive_in ipc q y.message y)) (sym p) s

  received-Stage :
      (y : System ipc)
      → y.receiver.phase ≡ ReceiverPhase.received
      → Stage ipc all y
      → Stage ipc all (receive_in ipc y.receiver.phase y.message y)
  unfolding receive_in
  received-Stage y p s = subst (λ q. Stage ipc all (receive_in ipc q y.message y)) (sym p) s

  Going-receives :
      (y : System ipc)
      → Between ipc all y
      → Going ipc all y
      → Stage ipc all (receive_in ipc y.receiver.phase y.message y)
  Going-receives y (Between.waits p e) g = waits-Stage y p g.message (Stage.going g)
  Going-receives y (Between.still_loads p q r) g =
      loads-Stage y p (Going-loads ipc all y.receiver.pending y refl p q r g)

  Posted-receives :
      (y : System ipc) (m : Message ipc)
      → Between ipc all y
      → Posted ipc all m y
      → Stage ipc all (receive_in ipc y.receiver.phase y.message y)
  unfolding receive_in
  Posted-receives y m (Between.waits p e) g =
      subst (λ q. Stage ipc all (receive_in ipc q y.message y)) (sym p)
        (subst (λ n. Stage ipc all (receive_in ipc ReceiverPhase.receiving n y)) (sym g.message)
          (take_message-Stage y m e g))
  Posted-receives y m (Between.still_loads p q r) g =
      loads-Stage y p (Posted-loads ipc all y.receiver.pending m y refl p q r g)

  Acked-receives :
      (y : System ipc) (early last : Bool)
      → Reader ipc all y last
      → Acked ipc all early last y
      → Stage ipc all (receive_in ipc y.receiver.phase y.message y)
  Acked-receives y early last (Reader.through p e l) g =
      waits-Stage y p g.message (Stage.acked early last g)
  Acked-receives y early last (Reader.ended p e l) g = received-Stage y p (Stage.acked early last g)
  Acked-receives y early last (Reader.loads p q r d f placed) g = loads-Stage y p (
      Acked-loads ipc all y.receiver.pending y early last refl q r p d f
        (flush_more y early last g.awaits f) placed g)

  Failed-receives :
      (y : System ipc)
      → Between ipc all y
      → Failed ipc all y
      → Stage ipc all (receive_in ipc y.receiver.phase y.message y)
  Failed-receives y (Between.waits p e) g = waits-Stage y p g.message (Stage.failed g)
  Failed-receives y (Between.still_loads p q r) g =
      loads-Stage y p (Failed-loads ipc all y.receiver.pending y refl p q r g)

  -- The receiver's turn, in every stage.
  pub receives-Stage :
      (y : System ipc)
      → Stage ipc all y
      → Stage ipc all (receive_in ipc y.receiver.phase y.message y)
  receives-Stage y (Stage.going g) = Going-receives y g.reader g
  receives-Stage y (Stage.posted m p) = Posted-receives y m p.reader p
  receives-Stage y (Stage.busy b) =
      loads-Stage y b.phase (Busy-loads ipc all y.receiver.pending y refl b)
  receives-Stage y (Stage.acked early last a) = Acked-receives y early last a.reader a
  receives-Stage y (Stage.finished e) = received-Stage y e.receiver_phase (Stage.finished e)
  receives-Stage y (Stage.failed f) = Failed-receives y f.reader f
