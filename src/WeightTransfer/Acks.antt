-- ===== src/WeightTransfer/Acks.antt =====
-- What the sender does with an acknowledgement.
use lumen_rl.Base.{
  ℕ, ◌+◌, ◌*◌, ◌%◌, ◌<◌, ◌≡◌, refl, sym, subst, ap, ◌∙◌, Bool, true, false, List, [], ◌++◌,
  if◌then◌else◌, All, arith, append-nil,
}
use native.Mathlib.Nat.{mod-lt}
use lumen_rl.Base.Multiples.{zero_multiple}
use lumen_rl.WeightTransfer.State.{Ipc, ReceiverPhase, SenderPhase, System, TensorMetadata, Weight}
use lumen_rl.WeightTransfer.Sender.{after_ack}
use lumen_rl.WeightTransfer.Contents.{MetaIn, ViewApart, meta_weights, view_weights}
use lumen_rl.WeightTransfer.Writes.{NewNames, NewNames-nil, ViewIn-next_slot}
use lumen_rl.WeightTransfer.Stages.{Acked, Between, IsSound, Reader, Stage, Waits}
use lumen_rl.WeightTransfer.Sending.{Between-sender}

next_slot : (slot slots : ℕ) → slot < slots → (slot + 1) % slots < slots
next_slot slot slots h = mod-lt _ (omega arith)

module _ (ipc : Ipc) (all : List (Weight ipc)) where
  through-content :
      (y : System ipc)
      → y.receiver.pending ≡ []
      → y.receiver.loaded ++ (view_weights ipc y.buffer y.receiver.pending ++ y.sender.weights)
        ≡ all
      → y.receiver.loaded ++ y.sender.weights ≡ all
  through-content y e c =
      ap (λ vs. y.receiver.loaded ++ (view_weights ipc y.buffer vs ++ y.sender.weights)) (sym e) ∙ c

  Reader-Between :
      (y : System ipc) (is_last : Bool)
      → is_last ≡ false
      → Reader ipc all y is_last
      → Between ipc all y
  Reader-Between y is_last e (Reader.through p q r) = Between.waits p q
  Reader-Between y is_last e (Reader.ended p q r) = absurd (cc)
  Reader-Between y is_last e (Reader.loads p q r _ _ _) = Between.still_loads p q r

  -- What is still loaded is apart from the next slot.
  Reader-apart :
      (y : System ipc) (is_last : Bool)
      → IsSound ipc all y.sender y.buffer y.receiver.expected_version
      → Reader ipc all y is_last
      → All
          (λ p.
            ViewApart ipc
              (((y.sender.slot + 1) % y.sender.num_slots) * y.sender.bucket_size)
              y.sender.bucket_size
              p.1)
          y.receiver.pending
  Reader-apart y is_last s (Reader.through p q r) =
      subst
        (All (λ p.
          ViewApart ipc (((y.sender.slot + 1) % y.sender.num_slots) * y.sender.bucket_size)
            y.sender.bucket_size p.1))
        (sym q) tt
  Reader-apart y is_last s (Reader.ended p q r) =
      subst
        (All (λ p.
          ViewApart ipc (((y.sender.slot + 1) % y.sender.num_slots) * y.sender.bucket_size)
            y.sender.bucket_size p.1))
        (sym q) tt
  Reader-apart y is_last s (Reader.loads p q r double f a) =
      let two : y.sender.num_slots ≡ 2 = s.slots ∙ ap (λ b. if b then 2 else 1) double in
      subst
        (λ n.
          All
            (λ p.
              ViewApart ipc (((y.sender.slot + 1) % n) * y.sender.bucket_size) y.sender.bucket_size
                p.1)
            y.receiver.pending)
        (sym two)
        (ViewIn-next_slot ipc y.receiver.pending y.sender.slot y.sender.bucket_size
          (omega (arith, s.slot, two)) a)

  Reader-ended :
      (y : System ipc) (is_last : Bool)
      → is_last ≡ true
      → y.sender.phase ≡ SenderPhase.await_last
      → Reader ipc all y is_last
      → (y.receiver.phase ≡ ReceiverPhase.received) × (y.receiver.pending ≡ [])
  Reader-ended y is_last l p (Reader.through _ _ r) = absurd (cc)
  Reader-ended y is_last l p (Reader.ended q r _) = (q, r)
  Reader-ended y is_last l p (Reader.loads _ _ _ _ f _) = absurd (cc)

  Reader-direct :
      (y : System ipc) (is_last : Bool)
      → is_last ≡ false
      → y.sender.phase ≡ SenderPhase.await_direct
      → Reader ipc all y is_last
      → y.receiver.pending ≡ []
  Reader-direct y is_last l p (Reader.through _ q _) = q
  Reader-direct y is_last l p (Reader.ended _ q _) = q
  Reader-direct y is_last l p (Reader.loads _ _ _ _ f _) = absurd (cc)

  pub after_ack-Stage :
      (y : System ipc) (ack_early is_last : Bool)
      → Waits ipc all y.sender ack_early is_last
      → Acked ipc all ack_early is_last y
      → Stage ipc all (record y { ack = false; sender = after_ack ipc y.sender.phase y.sender })
  unfolding after_ack
  after_ack-Stage y ack_early is_last (Waits.for_flush p l early) a =
      subst (λ q. Stage ipc all (record y { ack = false; sender = after_ack ipc q y.sender }))
        (sym p)
        (Stage.going (record {
          sound = record {
            slots = a.sound.slots;
            slot = next_slot y.sender.slot y.sender.num_slots a.sound.slot;
            size = a.sound.size;
            fits = a.sound.fits;
            distinct = a.sound.distinct;
            version = a.sound.version;
            unit = a.sound.unit;
            in_units = a.sound.in_units;
            slot_in_units = a.sound.slot_in_units;
            offset_in_units = zero_multiple a.sound.unit;
          };
          phase = refl;
          message = a.message;
          ack = refl;
          reader = Between-sender ipc all refl (Reader-Between y is_last l a.reader);
          apart = Reader-apart y is_last a.sound a.reader;
          offset = omega arith;
          held = tt;
          new_names = NewNames-nil (TensorMetadata ipc) y.sender.weights;
          content = a.content;
        }))
  after_ack-Stage y ack_early is_last (Waits.for_last p l early e) a =
      subst (λ q. Stage ipc all (record y { ack = false; sender = after_ack ipc q y.sender }))
        (sym p)
        (Stage.finished (record {
          message = a.message;
          sender_phase = refl;
          ack = refl;
          receiver_phase = (Reader-ended y is_last l p a.reader).0;
          content =
              sym (append-nil y.receiver.loaded)
              ∙ ap (λ ws. y.receiver.loaded ++ ws) (sym e)
              ∙ through-content y (Reader-ended y is_last l p a.reader).1 a.content;
        }))
  after_ack-Stage y ack_early is_last (Waits.for_direct p l early empty fits) a =
      subst (λ q. Stage ipc all (record y { ack = false; sender = after_ack ipc q y.sender }))
        (sym p)
        (Stage.going (record {
          sound = record {
            slots = a.sound.slots;
            slot = a.sound.slot;
            size = a.sound.size;
            fits = a.sound.fits;
            distinct = a.sound.distinct;
            version = a.sound.version;
            unit = a.sound.unit;
            in_units = a.sound.in_units;
            slot_in_units = a.sound.slot_in_units;
            offset_in_units = a.sound.offset_in_units;
          };
          phase = refl;
          message = a.message;
          ack = refl;
          reader = Between-sender ipc all refl (Reader-Between y is_last l a.reader);
          apart =
              subst
                (All (λ v.
                  ViewApart ipc (y.sender.slot * y.sender.bucket_size) y.sender.bucket_size v.1))
                (sym (Reader-direct y is_last l p a.reader)) tt;
          offset = fits;
          held =
              subst
                (All (λ m. MetaIn ipc (y.sender.slot * y.sender.bucket_size) y.sender.offset m.1))
                (sym empty) tt;
          new_names =
              subst (NewNames y.sender.weights) (sym empty)
                (NewNames-nil (TensorMetadata ipc) y.sender.weights);
          content =
              ap
                (λ d.
                  y.receiver.loaded
                  ++ (view_weights ipc y.buffer y.receiver.pending
                      ++ (meta_weights ipc y.receiver.device y.buffer d ++ y.sender.weights)))
                empty
              ∙ a.content;
        }))
