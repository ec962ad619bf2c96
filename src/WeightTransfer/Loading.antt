-- ===== src/WeightTransfer/Loading.antt =====
-- Loading a tensor leads from stage to stage.
use lumen_rl.Base.{
  ◌*◌, ◌≡◌, refl, sym, subst, ap, ◌∙◌, Bool, true, false, List, [], ◌∷◌, ◌++◌, String,
  if◌then◌else◌, All, append_assoc,
}
use lumen_rl.WeightTransfer.State.{Ipc, Message, ReceiverPhase, SenderPhase, System, View, Weight}
use lumen_rl.WeightTransfer.Receiver.{load_next, tensor_of}
use lumen_rl.WeightTransfer.Contents.{ViewApart, ViewIn, meta_weights, view_weights}
use lumen_rl.WeightTransfer.Stages.{Acked, Between, Busy, Failed, Going, Posted, Reader, Stage}

module _ (ipc : Ipc) (all : List (Weight ipc)) where
  -- Loading a tensor moves it from the views to what was loaded.
  load-content :
      (y : System ipc) (name : String) (v : View ipc) (rest : List (String × View ipc))
      (more : List (Weight ipc))
      → y.receiver.pending ≡ (name, v) ∷ rest
      → y.receiver.loaded ++ (view_weights ipc y.buffer y.receiver.pending ++ more) ≡ all
      → (y.receiver.loaded ++ (name, tensor_of ipc y.buffer v) ∷ [])
          ++ (view_weights ipc y.buffer rest ++ more)
        ≡ all
  load-content y name v rest more e c =
      append_assoc y.receiver.loaded ((name, tensor_of ipc y.buffer v) ∷ [])
        (view_weights ipc y.buffer rest ++ more)
      ∙ ap (λ vs. y.receiver.loaded ++ (view_weights ipc y.buffer vs ++ more)) (sym e)
      ∙ c

  -- When nothing is left to load, the flags decide what comes next.
  ended_phase :
      (b : Bool)
      → b ≡ false
      → (if b then ReceiverPhase.received else ReceiverPhase.receiving) ≡ ReceiverPhase.receiving
  ended_phase b e = ap (λ c. if c then ReceiverPhase.received else ReceiverPhase.receiving) e

  kept_ack : (b a : Bool) → b ≡ true → (if b then a else true) ≡ a
  kept_ack b a e = ap (λ c. if c then a else true) e

  pub Going-loads :
      (vs : List (String × View ipc)) (y : System ipc)
      → y.receiver.pending ≡ vs
      → y.receiver.phase ≡ ReceiverPhase.loading
      → y.receiver.ack_early ≡ true
      → y.receiver.is_last ≡ false
      → Going ipc all y
      → Stage ipc all (load_next ipc vs y)
  unfolding load_next
  Going-loads ((name, v) ∷ rest) y e p early more g = Stage.going (record {
    sound = g.sound;
    phase = g.phase;
    message = g.message;
    ack = g.ack;
    reader = Between.still_loads p early more;
    apart =
        (subst
          (All (λ w. ViewApart ipc (y.sender.slot * y.sender.bucket_size) y.sender.bucket_size w.1))
          e g.apart).1;
    offset = g.offset;
    held = g.held;
    new_names = g.new_names;
    content =
        load-content y name v rest
          (meta_weights ipc y.receiver.device y.buffer y.sender.bucket_meta ++ y.sender.weights) e
          g.content;
  })
  Going-loads [] y e p early more g = Stage.going (record {
    sound = g.sound;
    phase = g.phase;
    message = g.message;
    ack = kept_ack y.receiver.ack_early y.ack early ∙ g.ack;
    reader = Between.waits (ended_phase y.receiver.is_last more) e;
    apart = g.apart;
    offset = g.offset;
    held = g.held;
    new_names = g.new_names;
    content = g.content;
  })

  pub Posted-loads :
      (vs : List (String × View ipc)) (m : Message ipc) (y : System ipc)
      → y.receiver.pending ≡ vs
      → y.receiver.phase ≡ ReceiverPhase.loading
      → y.receiver.ack_early ≡ true
      → y.receiver.is_last ≡ false
      → Posted ipc all m y
      → Stage ipc all (load_next ipc vs y)
  unfolding load_next
  Posted-loads ((name, v) ∷ rest) m y e p early more g = Stage.posted m (record {
    sound = g.sound;
    message = g.message;
    ack = g.ack;
    reader = Between.still_loads p early more;
    awaits = g.awaits;
    version = g.version;
    sendable = g.sendable;
    content =
        load-content y name v rest
          (meta_weights ipc y.receiver.device y.buffer m.bucket_meta ++ y.sender.weights) e
          g.content;
  })
  Posted-loads [] m y e p early more g = Stage.posted m (record {
    sound = g.sound;
    message = g.message;
    ack = kept_ack y.receiver.ack_early y.ack early ∙ g.ack;
    reader = Between.waits (ended_phase y.receiver.is_last more) e;
    awaits = g.awaits;
    version = g.version;
    sendable = g.sendable;
    content = g.content;
  })

  pub Failed-loads :
      (vs : List (String × View ipc)) (y : System ipc)
      → y.receiver.pending ≡ vs
      → y.receiver.phase ≡ ReceiverPhase.loading
      → y.receiver.ack_early ≡ true
      → y.receiver.is_last ≡ false
      → Failed ipc all y
      → Stage ipc all (load_next ipc vs y)
  unfolding load_next
  Failed-loads ((name, v) ∷ rest) y e p early more g = Stage.failed (record {
    message = g.message;
    sender_phase = g.sender_phase;
    ack = g.ack;
    shared_memory = g.shared_memory;
    reader = Between.still_loads p early more;
    rest = g.rest;
    content = load-content y name v rest g.rest e g.content;
  })
  Failed-loads [] y e p early more g = Stage.failed (record {
    message = g.message;
    sender_phase = g.sender_phase;
    ack = kept_ack y.receiver.ack_early y.ack early ∙ g.ack;
    shared_memory = g.shared_memory;
    reader = Between.waits (ended_phase y.receiver.is_last more) e;
    rest = g.rest;
    content = g.content;
  })

  -- A bucket that was not acknowledged early is acknowledged when it is loaded.
  ended_Reader :
      (y z : System ipc) (b : Bool)
      → z.receiver.phase ≡ (if b then ReceiverPhase.received else ReceiverPhase.receiving)
      → z.receiver.pending ≡ []
      → Reader ipc all z b
  ended_Reader y z true p e = Reader.ended p e refl
  ended_Reader y z false p e = Reader.through p e refl

  pub Busy-loads :
      (vs : List (String × View ipc)) (y : System ipc)
      → y.receiver.pending ≡ vs
      → Busy ipc all y
      → Stage ipc all (load_next ipc vs y)
  unfolding load_next
  Busy-loads ((name, v) ∷ rest) y e g = Stage.busy (record {
    sound = g.sound;
    message = g.message;
    ack = g.ack;
    phase = g.phase;
    late = g.late;
    awaits = g.awaits;
    content = load-content y name v rest y.sender.weights e g.content;
  })
  Busy-loads [] y e g = Stage.acked false y.receiver.is_last (record {
    sound = g.sound;
    message = g.message;
    ack = ap (λ c. if c then y.ack else true) g.late;
    reader = ended_Reader y _ y.receiver.is_last refl e;
    awaits = g.awaits;
    content = g.content;
  })

  pub Acked-loads :
      (vs : List (String × View ipc)) (y : System ipc) (early last : Bool)
      → y.receiver.pending ≡ vs
      → y.receiver.ack_early ≡ true
      → y.receiver.is_last ≡ false
      → y.receiver.phase ≡ ReceiverPhase.loading
      → y.sender.double_buffer ≡ true
      → y.sender.phase ≡ SenderPhase.await_flush
      → last ≡ false
      → All
          (λ p. ViewIn ipc (y.sender.slot * y.sender.bucket_size) y.sender.bucket_size p.1)
          y.receiver.pending
      → Acked ipc all early last y
      → Stage ipc all (load_next ipc vs y)
  unfolding load_next
  Acked-loads ((name, v) ∷ rest) y early last e q more p double f l placed g =
      Stage.acked early last (record {
        sound = g.sound;
        message = g.message;
        ack = g.ack;
        reader =
            Reader.loads p q more double f
              (subst
                (All
                  (λ w. ViewIn ipc (y.sender.slot * y.sender.bucket_size) y.sender.bucket_size w.1))
                e placed).1;
        awaits = g.awaits;
        content = load-content y name v rest y.sender.weights e g.content;
      })
  Acked-loads [] y early last e q more p double f l placed g = Stage.acked early last (record {
    sound = g.sound;
    message = g.message;
    ack = kept_ack y.receiver.ack_early y.ack q ∙ g.ack;
    reader = Reader.through (ended_phase y.receiver.is_last more) e l;
    awaits = g.awaits;
    content = g.content;
  })
