-- ===== src/WeightTransfer/Sending.antt =====
-- The steps of the sender lead from stage to stage.
use lumen_rl.Base.{
  ℕ, ◌+◌, ◌*◌, ◌≤◌, ◌<◌, ◌≡◌, refl, sym, subst, ap, ap₂, ◌∙◌, Bool, true, false, not, ◌&&◌, List,
  [], ◌∷◌, ◌++◌, All, length, arith, append_assoc, dict_set,
}
use lumen_rl.Base.Ranges.{overwrite, length-overwrite}
use lumen_rl.Base.Multiples.{add-multiple, slot_multiple}
use lumen_rl.WeightTransfer.State.{Ipc, System, Weight}
use lumen_rl.WeightTransfer.Sender.{control, copy_weight, direct_send_large_weight, flush, nbytes}
use lumen_rl.WeightTransfer.Contents.{
  IsIpc, DistinctNames, Fits, InUnits, MetaIn, MetaIn-Sendable, meta_weights, view_weights,
}
use lumen_rl.WeightTransfer.Writes.{
  MetaIn-append, NewNames, NewNames-append, dict_set-new, entry, entry_written, meta_weights-append,
  meta_weights-overwrite, view_weights-overwrite,
}
use lumen_rl.WeightTransfer.Stages.{Between, Going, Stage, Waits}

-- A slot lies in the buffer.
slot_end : (slot slots b : ℕ) → slot < slots → slot * b + b ≤ slots * b
slot_end slot slots b h = grind arith

and_true : (b : Bool) → (b && not false) ≡ b
and_true true = refl
and_true false = refl

and_false : (b : Bool) → (b && not true) ≡ false
and_false true = refl
and_false false = refl

module _ (ipc : Ipc) (all : List (Weight ipc)) where
  pub Between-sender :
      {y z : System ipc} → y.receiver ≡ z.receiver → Between ipc all y → Between ipc all z
  Between-sender e (Between.waits p q) =
      Between.waits (ap (λ r. r.phase) (sym e) ∙ p) (ap (λ r. r.pending) (sym e) ∙ q)
  Between-sender e (Between.still_loads p q r) =
      Between.still_loads (ap (λ t. t.phase) (sym e) ∙ p) (ap (λ t. t.ack_early) (sym e) ∙ q)
        (ap (λ t. t.is_last) (sym e) ∙ r)

  pub copy_weight-Going :
      (w : Weight ipc) (rest : List (Weight ipc)) (y : System ipc)
      → y.sender.weights ≡ w ∷ rest
      → y.sender.offset + length w.1.bytes ≤ y.sender.bucket_size
      → Going ipc all y
      → Going ipc all (copy_weight ipc w rest y)
  unfolding copy_weight nbytes
  copy_weight-Going w rest y e room g =
      let start = y.sender.slot * y.sender.bucket_size + y.sender.offset in
      let bm = y.sender.bucket_meta in
      let device = y.receiver.device in
      let buffer' = overwrite start w.1.bytes y.buffer in
      let fits : All (Fits ipc) (w ∷ rest) = subst (All (Fits ipc)) e g.sound.fits in
      let distinct : DistinctNames ipc (w ∷ rest) = subst (DistinctNames ipc) e g.sound.distinct in
      let even : All (InUnits ipc g.sound.unit) (w ∷ rest) =
        subst (All (InUnits ipc g.sound.unit)) e g.sound.in_units in
      let names : NewNames (w ∷ rest) bm = subst (λ ws. NewNames ws bm) e g.new_names in
      let added : dict_set w.0 (entry ipc start w) bm ≡ bm ++ (w.0, entry ipc start w) ∷ [] =
        dict_set-new w.0 (entry ipc start w) bm names.0 in
      let inside : start + length w.1.bytes ≤ length y.buffer = omega (
        arith,
        slot_end y.sender.slot y.sender.num_slots y.sender.bucket_size g.sound.slot,
        g.sound.size,
        room,
      ) in
      record {
        sound = record {
          slots = g.sound.slots;
          slot = g.sound.slot;
          size = length-overwrite start w.1.bytes y.buffer ∙ g.sound.size;
          fits = fits.1;
          distinct = distinct.1;
          version = g.sound.version;
          unit = g.sound.unit;
          in_units = even.1;
          slot_in_units = g.sound.slot_in_units;
          offset_in_units =
              add-multiple y.sender.offset (length w.1.bytes) g.sound.unit g.sound.offset_in_units
                even.0.0;
        };
        phase = g.phase;
        message = g.message;
        ack = g.ack;
        reader = Between-sender refl g.reader;
        apart = g.apart;
        offset = room;
        held =
            subst
              (All (λ p.
                MetaIn ipc (y.sender.slot * y.sender.bucket_size)
                  (y.sender.offset + length w.1.bytes) p.1))
              (sym added)
              (MetaIn-append ipc (y.sender.slot * y.sender.bucket_size) y.sender.offset
                (length w.1.bytes) bm w fits.0 refl
                (slot_multiple y.sender.slot y.sender.bucket_size y.sender.offset g.sound.unit
                  (ipc.itemsize w.1.dtype) g.sound.slot_in_units g.sound.offset_in_units even.0.1)
                g.held);
        new_names =
            subst (NewNames rest) (sym added)
              (NewNames-append w.0 (entry ipc start w) bm rest distinct.0 names.1);
        content =
            ap (λ t. y.receiver.loaded ++ t)
              (ap₂ ◌++◌
                (view_weights-overwrite ipc y.receiver.pending
                  (y.sender.slot * y.sender.bucket_size) y.sender.bucket_size start w.1.bytes
                  y.buffer g.apart (omega arith) (omega (arith, room)))
                (ap (λ d. meta_weights ipc device buffer' d ++ rest) added
                  ∙ ap (λ t. t ++ rest)
                      (meta_weights-append ipc device buffer' bm ((w.0, entry ipc start w) ∷ [])
                        ∙ ap₂ ◌++◌
                            (meta_weights-overwrite ipc device bm
                              (y.sender.slot * y.sender.bucket_size) y.sender.offset w.1.bytes
                              y.buffer g.held)
                            (ap (λ t. (w.0, t) ∷ [])
                              (entry_written ipc device start w y.buffer fits.0 inside)))
                  ∙ append_assoc (meta_weights ipc device y.buffer bm) (w ∷ []) rest
                  ∙ ap (◌++◌ (meta_weights ipc device y.buffer bm)) (sym e)))
            ∙ g.content;
      }

  pub flush_more : (y : System ipc) → Going ipc all y → Stage ipc all (flush ipc false y)
  unfolding flush control
  flush_more y g = Stage.posted _ (record {
    sound = record {
      slots = g.sound.slots;
      slot = g.sound.slot;
      size = g.sound.size;
      fits = g.sound.fits;
      distinct = g.sound.distinct;
      version = g.sound.version;
      unit = g.sound.unit;
      in_units = g.sound.in_units;
      slot_in_units = g.sound.slot_in_units;
      offset_in_units = g.sound.offset_in_units;
    };
    message = refl;
    ack = g.ack;
    reader = Between-sender refl g.reader;
    awaits = Waits.for_flush refl refl (and_true y.sender.double_buffer);
    version = refl;
    sendable =
        MetaIn-Sendable ipc (y.sender.slot * y.sender.bucket_size) y.sender.offset
          y.sender.bucket_size y.sender.bucket_meta g.offset g.held;
    content = g.content;
  })

  pub flush_last :
      (y : System ipc) → y.sender.weights ≡ [] → Going ipc all y → Stage ipc all (flush ipc true y)
  unfolding flush control
  flush_last y e g = Stage.posted _ (record {
    sound = record {
      slots = g.sound.slots;
      slot = g.sound.slot;
      size = g.sound.size;
      fits = g.sound.fits;
      distinct = g.sound.distinct;
      version = g.sound.version;
      unit = g.sound.unit;
      in_units = g.sound.in_units;
      slot_in_units = g.sound.slot_in_units;
      offset_in_units = g.sound.offset_in_units;
    };
    message = refl;
    ack = g.ack;
    reader = Between-sender refl g.reader;
    awaits = Waits.for_last refl refl (and_false y.sender.double_buffer) e;
    version = refl;
    sendable =
        MetaIn-Sendable ipc (y.sender.slot * y.sender.bucket_size) y.sender.offset
          y.sender.bucket_size y.sender.bucket_meta g.offset g.held;
    content = g.content;
  })

  pub direct_send :
      (w : Weight ipc) (rest : List (Weight ipc)) (y : System ipc)
      → IsIpc ipc
      → y.sender.weights ≡ w ∷ rest
      → y.sender.bucket_meta ≡ []
      → Going ipc all y
      → Stage ipc all (direct_send_large_weight ipc w rest y)
  unfolding direct_send_large_weight control
  direct_send w rest y law e empty g =
      let fits : All (Fits ipc) (w ∷ rest) = subst (All (Fits ipc)) e g.sound.fits in
      let distinct : DistinctNames ipc (w ∷ rest) = subst (DistinctNames ipc) e g.sound.distinct in
      let even : All (InUnits ipc g.sound.unit) (w ∷ rest) =
        subst (All (InUnits ipc g.sound.unit)) e g.sound.in_units in
      Stage.posted _ (record {
        sound = record {
          slots = g.sound.slots;
          slot = g.sound.slot;
          size = g.sound.size;
          fits = fits.1;
          distinct = distinct.1;
          version = g.sound.version;
          unit = g.sound.unit;
          in_units = even.1;
          slot_in_units = g.sound.slot_in_units;
          offset_in_units = g.sound.offset_in_units;
        };
        message = refl;
        ack = g.ack;
        reader = Between-sender refl g.reader;
        awaits = Waits.for_direct refl refl refl empty g.offset;
        version = refl;
        sendable = (law.has_device w.1, tt);
        content =
            ap (λ t. y.receiver.loaded ++ (view_weights ipc y.buffer y.receiver.pending ++ t))
              (ap (λ t. (w.0, t) ∷ rest) (law.rebuilds w.1 y.receiver.device)
                ∙ sym (
                    ap (λ d. meta_weights ipc y.receiver.device y.buffer d ++ y.sender.weights)
                      empty
                    ∙ e))
            ∙ g.content;
      })
