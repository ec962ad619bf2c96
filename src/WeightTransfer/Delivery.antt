-- ===== src/WeightTransfer/Delivery.antt =====
-- Whatever the order of the turns, the weights arrive.
use lumen_rl.Base.{
  ℕ, zero, suc, ◌*◌, ◌%◌, ◌<◌, ◌≡◌, refl, append-nil, sym, ap, ◌∙◌, Bool, true, false, List, [],
  ◌∷◌, ◌++◌, Option, if◌then◌else◌, All, length, arith, ◌⊎◌, ◌≢◌, inl, inr,
}
use lumen_rl.Base.Multiples.{zero_multiple}
use lumen_rl.WeightTransfer.State.{
  Ipc, ReceiverPhase, Sender, SenderPhase, System, TensorMetadata, Turn, Weight, init,
  make_receiver, make_sender, version_ok,
}
use lumen_rl.WeightTransfer.Threads.{run, step}
use lumen_rl.WeightTransfer.Contents.{DistinctNames, Fits, InUnits, IsIpc, view_weights}
use lumen_rl.WeightTransfer.Writes.{NewNames-nil}
use lumen_rl.WeightTransfer.Stages.{Between, Reader, Stage, Waits}
use lumen_rl.WeightTransfer.Turns.{sends-Stage}
use lumen_rl.WeightTransfer.Receiving.{receives-Stage}
use lumen_rl.WeightTransfer.Costs.{cost}
use lumen_rl.WeightTransfer.Progress.{IsOver, can_go_on}

module _ (ipc : Ipc) (all : List (Weight ipc)) (law : IsIpc ipc) where
  step-Stage : (turn : Turn) (y : System ipc) → Stage ipc all y → Stage ipc all (step ipc turn y)
  unfolding step
  step-Stage Turn.sends y s = sends-Stage ipc all law y s
  step-Stage Turn.receives y s = receives-Stage ipc all y s

  run-Stage :
      (turns : List Turn) (y : System ipc) → Stage ipc all y → Stage ipc all (run ipc turns y)
  unfolding run
  run-Stage [] y s = s
  run-Stage (turn ∷ turns) y s = run-Stage turns (step ipc turn y) (step-Stage turn y s)

  run-IsOver :
      (fuel : ℕ) (y : System ipc)
      → cost ipc y < fuel
      → Stage ipc all y
      → (turns : List Turn) × IsOver ipc all (run ipc turns y)
  unfolding run
  run-IsOver zero y h s = absurd (omega arith)
  run-IsOver (suc fuel) y h s = elim (can_go_on ipc all y s) [
    | inl over ↦ ([], over)
    | inr (turn, less) ↦
        let (turns, over) =
          run-IsOver fuel (step ipc turn y) (omega (arith, less)) (step-Stage turn y s) in
        (turn ∷ turns, over)
  ]

module _ (ipc : Ipc) (all : List (Weight ipc)) where
  -- A part of the weights, in their order, and all of them once the receiver is done.
  pub record Delivers (y : System ipc) : Type 0 where
    pub in_order : (rest : List (Weight ipc)) × (y.receiver.loaded ++ rest ≡ all)
    pub complete : (y.receiver.loaded ≡ all) ⊎ (y.receiver.phase ≢ ReceiverPhase.received)
    pub accepted : y.receiver.phase ≢ ReceiverPhase.rejected

  before_end :
      (y : System ipc)
      → Between ipc all y
      → ¬ (y.receiver.phase ≡ ReceiverPhase.received)
        × ¬ (y.receiver.phase ≡ ReceiverPhase.rejected)
  before_end y (Between.waits p e) = (λ q. cc, λ q. cc)
  before_end y (Between.still_loads p e l) = (λ q. cc, λ q. cc)

  acked_complete :
      (y : System ipc) (early last : Bool)
      → Reader ipc all y last
      → Waits ipc all y.sender early last
      → y.receiver.loaded ++ (view_weights ipc y.buffer y.receiver.pending ++ y.sender.weights)
        ≡ all
      → (y.receiver.loaded ≡ all) ⊎ (y.receiver.phase ≢ ReceiverPhase.received)
  acked_complete y early last (Reader.through p e l) w c = inr (λ r. cc)
  acked_complete y early last (Reader.loads p e l _ _ _) w c = inr (λ r. cc)
  acked_complete y early last (Reader.ended p e l) (Waits.for_flush _ m _) c = inr (λ r. cc)
  acked_complete y early last (Reader.ended p e l) (Waits.for_direct _ m _ _ _) c = inr (λ r. cc)
  acked_complete y early last (Reader.ended p e l) (Waits.for_last _ _ _ w) c = inl (
      sym (append-nil y.receiver.loaded)
      ∙ ap (λ ws. y.receiver.loaded ++ ws) (sym w)
      ∙ ap (λ vs. y.receiver.loaded ++ (view_weights ipc y.buffer vs ++ y.sender.weights)) (sym e)
      ∙ c)

  acked-accepted :
      (y : System ipc) (last : Bool)
      → Reader ipc all y last
      → ¬ (y.receiver.phase ≡ ReceiverPhase.rejected)
  acked-accepted y last (Reader.through p e l) q = cc
  acked-accepted y last (Reader.loads p e l _ _ _) q = cc
  acked-accepted y last (Reader.ended p e l) q = cc

  Stage-Delivers : (y : System ipc) → Stage ipc all y → Delivers y
  Stage-Delivers y (Stage.going g) = record {
    in_order = (_, g.content);
    complete = inr (before_end y g.reader).0;
    accepted = (before_end y g.reader).1;
  }
  Stage-Delivers y (Stage.posted m g) = record {
    in_order = (_, g.content);
    complete = inr (before_end y g.reader).0;
    accepted = (before_end y g.reader).1;
  }
  Stage-Delivers y (Stage.busy g) = record {
    in_order = (_, g.content);
    complete = inr (λ r. cc (g.phase, r));
    accepted = λ r. cc (g.phase, r);
  }
  Stage-Delivers y (Stage.acked early last g) = record {
    in_order = (_, g.content);
    complete = acked_complete y early last g.reader g.awaits g.content;
    accepted = acked-accepted y last g.reader;
  }
  Stage-Delivers y (Stage.finished g) = record {
    in_order = ([], append-nil y.receiver.loaded ∙ g.content);
    complete = inl g.content;
    accepted = λ r. cc (g.receiver_phase, r);
  }
  Stage-Delivers y (Stage.failed g) = record {
    in_order = (_, g.content);
    complete = inr (before_end y g.reader).0;
    accepted = (before_end y g.reader).1;
  }

-- The configuration of both sides.
pub record Options : Type 0 where
  pub bucket_size_mb : ℕ
  pub min_bucket_bytes : ℕ
  pub use_shm : Bool
  pub double_buffer : Bool
  pub version : Option ℕ
  pub expected_version : Option ℕ
  pub device : ℕ

module _ (ipc : Ipc) where
  abbrev pub sender_of : Options → List (Weight ipc) → Sender ipc
  sender_of o all =
      make_sender ipc o.bucket_size_mb o.use_shm o.version o.min_bucket_bytes o.double_buffer all

  -- The transfer of some weights, after the handshake.
  abbrev pub start : Options → List (Weight ipc) → List ℕ → System ipc
  start o all memory =
      init ipc (sender_of o all) (make_receiver ipc o.device o.use_shm o.expected_version) memory

  -- The weights have different names and as many bytes as their shapes say, the buffer has the size
  -- that `_init_buffer` asks for, and the receiver expects the sender's version, or none. The size of
  -- a slot and the bytes of each weight are multiples of a unit, which is a multiple of the size of
  -- every weight's elements: the sender does not align the offsets itself.
  pub record CanStart (o : Options) (all : List (Weight ipc)) (memory : List ℕ) : Type 0 where
    pub fits : All (Fits ipc) all
    pub distinct : DistinctNames ipc all
    pub size : length memory ≡ (sender_of o all).num_slots * (sender_of o all).bucket_size
    pub version : version_ok o.expected_version o.version ≡ true
    pub unit : ℕ
    pub in_units : All (InUnits ipc unit) all
    pub slot_in_units : (sender_of o all).bucket_size % unit ≡ 0

  slots_pos : (b : Bool) → 0 < (if b then 2 else 1)
  slots_pos true = omega arith
  slots_pos false = omega arith

  start-Stage :
      (o : Options) (all : List (Weight ipc)) (memory : List ℕ)
      → CanStart o all memory
      → Stage ipc all (start o all memory)
  unfolding init make_sender make_receiver
  start-Stage o all memory c = Stage.going (record {
    sound = record {
      slots = refl;
      slot = slots_pos o.double_buffer;
      size = c.size;
      fits = c.fits;
      distinct = c.distinct;
      version = c.version;
      unit = c.unit;
      in_units = c.in_units;
      slot_in_units = c.slot_in_units;
      offset_in_units = zero_multiple c.unit;
    };
    phase = refl;
    message = refl;
    ack = refl;
    reader = Between.waits refl refl;
    apart = tt;
    offset = omega arith;
    held = tt;
    new_names = NewNames-nil (TensorMetadata ipc) all;
    content = refl;
  })

  -- Let torch's handles be rebuilt as documented, the weights have different names and as many bytes
  -- as their shapes say, the buffer have the size that was asked for, the receiver expect the
  -- sender's version or none, and the size of a slot and the bytes of each weight be multiples of a
  -- unit that is a multiple of the size of every weight's elements. Then, however the turns of the two threads interleave, with one slot
  -- or two, and in GPU or shared memory: what the callback has read so far is a first part of the
  -- weights in their order, name, shape, type and bytes; it is all of them once the receiver has
  -- returned; and no bucket is rejected.
  pub transfer-Delivers :
      (o : Options) (all : List (Weight ipc)) (memory : List ℕ) (turns : List Turn)
      → IsIpc ipc
      → CanStart o all memory
      → Delivers ipc all (run ipc turns (start o all memory))
  transfer-Delivers o all memory turns law c =
      Stage-Delivers ipc all _ (run-Stage ipc all law turns _ (start-Stage o all memory c))

  over :
      (y : System ipc) (all : List (Weight ipc))
      → IsOver ipc all y
      → ((y.receiver.phase ≡ ReceiverPhase.received) × (y.receiver.loaded ≡ all))
        ⊎ ((y.sender.phase ≡ SenderPhase.assertion_failed) × (y.sender.use_shm ≡ true))
  over y all (IsOver.delivered e) = inl (e.receiver_phase, e.content)
  over y all (IsOver.gave_up f) = inr (f.sender_phase, f.shared_memory)

  -- Under the same conditions no deadlock can come up: after any turns there are further turns after
  -- which the receiver has returned with all weights loaded, or the sender has failed on a weight
  -- larger than a bucket, which happens in shared memory only.
  pub transfer_finishes :
      (o : Options) (all : List (Weight ipc)) (memory : List ℕ) (turns : List Turn)
      → IsIpc ipc
      → CanStart o all memory
      → (more : List Turn) × (let y = run ipc more (run ipc turns (start o all memory)) in
          ((y.receiver.phase ≡ ReceiverPhase.received) × (y.receiver.loaded ≡ all))
          ⊎ ((y.sender.phase ≡ SenderPhase.assertion_failed) × (y.sender.use_shm ≡ true)))
  transfer_finishes o all memory turns law c =
      let y = run ipc turns (start o all memory) in
      let (more, done) =
        run-IsOver ipc all law (suc (cost ipc y)) y (omega arith)
          (run-Stage ipc all law turns (start o all memory) (start-Stage o all memory c)) in
      (more, over (run ipc more y) all done)
