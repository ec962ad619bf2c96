-- ===== src/Rdma/Buckets.antt =====
-- lumenrl/engine/inference/rdma_weight_transfer.py:
-- A bucket on its way: its payload is the weights' bytes one after the other, and reading it gives
-- the weights back.
use lumen_rl.Base.{
  ℕ, ◌+◌, ◌<◌, ◌≡◌, refl, sym, subst, ap, ◌∙◌, true, List, [], ◌∷◌, ◌++◌, append_assoc, length,
  length-append, length-drop, drop, ok, All, arith, ==_iff, flat_map, ◌%◌, ◌⊎◌, inl, inr, Bool,
  false, not, ◌&&◌, ◌>>=◌, ◌>>◌, guard, runtime_error,
}
use lumen_rl.Base.Multiples.{add-multiple, trans_multiple}
use lumen_rl.Base.Ranges.{overwrite, overwrite-after, overwrite-front, slice-middle}
use lumen_rl.Rdma.{Entry, Wire, Weight}
use lumen_rl.Rdma.Sender.{byte_view, entries_from, fill, encode_bucket, size_of}
use lumen_rl.Rdma.Receiver.{Stream, view, yield_entry, yield_bucket, yielded}

-- What json and fresh memory are relied on for.
pub record IsWire (wire : Wire) : Type 0 where
  pub decodes : (es : List (Entry wire.Shape wire.Dtype)) → wire.decode (wire.encode es) ≡ ok es
  pub encodes : (es : List (Entry wire.Shape wire.Dtype)) → 0 < wire.text_bytes (wire.encode es)
  pub fresh_size : (n : ℕ) → length (wire.fresh n) ≡ n

and_no :
    (b : Bool) (bytes : List ℕ) → (guard (not (b && false)) runtime_error >> ok bytes) ≡ ok bytes
and_no true bytes = refl
and_no false bytes = refl

module _ (wire : Wire) where
  open wire use {Shape, Dtype, nbytes, itemsize, is_scalar, fresh, encode, decode}

  -- A tensor has as many bytes as its shape and type say.
  abbrev pub IsSized : Weight wire → Type 0
  IsSized w = length w.1.bytes ≡ nbytes w.1.shape w.1.dtype

  -- A weight that can be sent: it has bytes, and torch views them as such.
  abbrev pub IsSolid : Weight wire → Type 0
  IsSolid w = (0 < length w.1.bytes) × ((is_scalar w.1.shape ≡ false) ⊎ (itemsize w.1.dtype ≡ 1))

  byte_view-bytes : (w : Weight wire) → IsSolid w → byte_view wire w.1 ≡ ok w.1.bytes
  unfolding byte_view
  byte_view-bytes w (h, inl e) = rw e refl
  byte_view-bytes w (h, inr e) =
      rw ((==_iff (itemsize w.1.dtype) 1).1 e) (and_no (is_scalar w.1.shape) w.1.bytes)

  abbrev pub payload_of : List (Weight wire) → List ℕ
  payload_of ws = flat_map (λ w. w.1.bytes) ws

  pub length-payload_of : (ws : List (Weight wire)) → length (payload_of ws) ≡ size_of wire ws
  length-payload_of [] = refl
  length-payload_of ((name, t) ∷ ws) =
      omega (arith, length-append t.bytes (payload_of ws), length-payload_of ws)

  fill-from :
      (done zs : List ℕ) (ws : List (Weight wire))
      → length zs ≡ size_of wire ws
      → All IsSolid ws
      → fill wire (entries_from wire (length done) ws) ws (done ++ zs) ≡ ok (done ++ payload_of ws)
  unfolding fill entries_from
  fill-from done [] [] h a = refl
  fill-from done (z ∷ zs) [] h a = absurd (omega arith)
  fill-from done zs ((name, t) ∷ ws) h (solid, a) =
      let here : overwrite (length done) t.bytes (done ++ zs)
          ≡ (done ++ t.bytes) ++ drop (length t.bytes) zs =
        overwrite-after done t.bytes zs
        ∙ ap (λ b. done ++ b) (overwrite-front t.bytes zs (omega arith))
        ∙ sym (append_assoc done t.bytes (drop (length t.bytes) zs)) in
      ap
        (λ r. r >>= λ b.
          fill wire (entries_from wire (length done + length t.bytes) ws) ws
            (overwrite (length done) b (done ++ zs)))
        (byte_view-bytes (name, t) solid)
      ∙ ap (λ b. fill wire (entries_from wire (length done + length t.bytes) ws) ws b) here
      ∙ ap
          (λ n.
            fill wire (entries_from wire n ws) ws ((done ++ t.bytes) ++ drop (length t.bytes) zs))
          (sym (length-append done t.bytes))
      ∙ fill-from (done ++ t.bytes) (drop (length t.bytes) zs) ws
          (omega (arith, length-drop (length t.bytes) zs)) a
      ∙ ap ok (append_assoc done t.bytes (payload_of ws))

  pub encode_bucket-payload_of :
      IsWire wire
      → (w : Weight wire) (ws : List (Weight wire)) → All IsSolid (w ∷ ws)
      → encode_bucket wire (w ∷ ws)
        ≡ ok (encode (entries_from wire 0 (w ∷ ws)), payload_of (w ∷ ws))
  unfolding encode_bucket
  encode_bucket-payload_of is w ws a =
      ap (λ r. r >>= λ p. ok (encode (entries_from wire 0 (w ∷ ws)), p))
        (fill-from [] (fresh (size_of wire (w ∷ ws))) (w ∷ ws) (is.fresh_size _) a)

  module _ (is_finite : Weight wire → Bool) (unit : ℕ) where
    -- A weight that the receiver can take, whatever comes before it: its bytes are a multiple of
    -- the unit, which is a multiple of its element size.
    abbrev pub CanArrive : Weight wire → Type 0
    CanArrive w =
        IsSized w
        × (is_finite w ≡ true)
        × (length w.1.bytes % unit ≡ 0)
        × (unit % itemsize w.1.dtype ≡ 0)

    view-entry :
        (done rest : List ℕ) (w : Weight wire)
        → IsSized w
        → length done % itemsize w.1.dtype ≡ 0
        → view wire
            (record {
              name = w.0;
              shape = w.1.shape;
              dtype = w.1.dtype;
              offset = length done;
              nbytes = length w.1.bytes;
            })
            (done ++ (w.1.bytes ++ rest))
          ≡ ok w.1
    unfolding view
    view-entry done rest (name, t) h even =
        rw ((==_iff (length done % itemsize t.dtype) 0).1 even) (
          rw (slice-middle done t.bytes rest (length done) (length done + length t.bytes) refl refl)
            (rw ((==_iff (length t.bytes) (nbytes t.shape t.dtype)).1 h) refl))

    -- The bucket with these entries yields the weights, and then what follows.
    abbrev pub Yields :
        List (Entry Shape Dtype) → List ℕ → List (Weight wire) → Stream wire → Type 0
    Yields es payload ws more =
        ((yield_bucket wire is_finite es payload more).weights ≡ ws ++ more.weights)
        × ((yield_bucket wire is_finite es payload more).ending ≡ more.ending)

    pub yield_bucket-weights :
        (done : List ℕ) (ws : List (Weight wire)) (more : Stream wire)
        → length done % unit ≡ 0
        → All CanArrive ws
        → Yields (entries_from wire (length done) ws) (done ++ payload_of ws) ws more
    unfolding yield_bucket yield_entry yielded entries_from
    yield_bucket-weights done [] more even a = (refl, refl)
    yield_bucket-weights done ((name, t) ∷ ws) more even ((sized, finite, whole, fine), a) =
        let even' : length (done ++ t.bytes) % unit ≡ 0 =
          ap (λ n. n % unit) (length-append done t.bytes)
          ∙ add-multiple (length done) (length t.bytes) unit even whole in
        let (same, end) =
          subst (λ n. Yields (entries_from wire n ws) (done ++ (t.bytes ++ payload_of ws)) ws more)
            (length-append done t.bytes)
            (subst (λ b. Yields (entries_from wire (length (done ++ t.bytes)) ws) b ws more)
              (append_assoc done t.bytes (payload_of ws))
              (yield_bucket-weights (done ++ t.bytes) ws more even' a)) in
        let found =
          view-entry done (payload_of ws) (name, t) sized
            (trans_multiple (length done) unit (itemsize t.dtype) even fine) in
        (rw found (rw finite (ap (◌∷◌ (name, t)) same)), rw found (rw finite end))
