-- ===== src/Rdma/Flushes.antt =====
-- lumenrl/engine/inference/rdma_weight_transfer.py:
-- The sender's state between weights, and what a flush makes of it.
use lumen_rl.Base.{
  ℕ, suc, ◌+◌, ◌≤◌, ◌<◌, ◌≡◌, refl, sym, subst, ap, ◌∙◌, false, ◌&&◌, List, [], ◌∷◌, ◌++◌,
  append-nil, length, length-append, Result, ok, ◌>>=◌, All, All-append, arith, flat_map,
  flat_map-append, ltb, ◌⊎◌, inl, inr,
}
use lumen_rl.Rdma.{Wire, Weight, Broadcast, header, metadata, payload, cmd_bucket}
use lumen_rl.Rdma.Sender.{Sender, entries_from, size_of, flush_in}
use lumen_rl.Rdma.Buckets.{IsSolid, IsWire, payload_of, length-payload_of, encode_bucket-payload_of}

module _ (wire : Wire) where
  open wire use {Text, text_bytes, encode}

  -- The broadcasts of a bucket.
  abbrev pub messages_of : ℕ → List (Weight wire) → List (Broadcast Text)
  messages_of version ws =
      header cmd_bucket (text_bytes (encode (entries_from wire 0 ws))) (length (payload_of wire ws))
        version
      ∷ metadata (encode (entries_from wire 0 ws))
      ∷ payload (payload_of wire ws)
      ∷ []

  abbrev pub joined : List (List (Weight wire)) → List (Weight wire)
  joined buckets = flat_map (λ b. b) buckets

  -- A bucket that is broadcast: it has a payload, which is not above the limit or is one weight.
  abbrev pub IsBucket : ℕ → List (Weight wire) → Type 0
  IsBucket limit b =
      (0 < length b) × (0 < size_of wire b) × ((size_of wire b ≤ limit) ⊎ (length b ≡ 1))

  -- The buckets so far, of the weights so far.
  pub record IsSending (limit version : ℕ) (buckets : List (List (Weight wire)))
      (done : List (Weight wire)) (s : Sender wire) : Type 0 where
    pub sent : s.sent ≡ flat_map (messages_of version) buckets
    pub weights : joined buckets ++ s.bucket ≡ done
    pub whole : All (IsBucket limit) buckets
    pub solid : All (IsSolid wire) s.bucket
    pub held : s.bucket_bytes ≡ size_of wire s.bucket
    pub counted : s.total_weights ≡ length (joined buckets)
    pub measured : s.total_bytes ≡ size_of wire (joined buckets)
    pub number : s.total_buckets ≡ length buckets

  pub size_of-append :
      (xs ys : List (Weight wire)) → size_of wire (xs ++ ys) ≡ size_of wire xs + size_of wire ys
  size_of-append [] ys = omega arith
  size_of-append ((n, t) ∷ xs) ys = omega (arith, size_of-append xs ys)

  joined-snoc :
      (buckets : List (List (Weight wire))) (b : List (Weight wire))
      → joined (buckets ++ b ∷ []) ≡ joined buckets ++ b
  joined-snoc buckets b =
      flat_map-append (λ b. b) buckets (b ∷ []) ∙ ap (λ t. joined buckets ++ t) (append-nil b)

  -- There is room for the weight, or nothing else in the bucket.
  abbrev pub Fits : ℕ → Weight wire → List (Weight wire) → Type 0
  Fits limit w b = (b ≡ []) ⊎ (size_of wire b + length w.1.bytes ≤ limit)

  pub Fits-of_test :
      (limit : ℕ) (w : Weight wire) (b : List (Weight wire)) (held : ℕ)
      → held ≡ size_of wire b
      → (ltb 0 (length b) && ltb limit (held + length w.1.bytes)) ≡ false
      → Fits limit w b
  Fits-of_test limit w [] held e h = inl refl
  Fits-of_test limit w (v ∷ b) held e h = inr (ground arith)

  pub Fits-append :
      (limit : ℕ) (w : Weight wire) (b : List (Weight wire))
      → Fits limit w b
      → (size_of wire (b ++ w ∷ []) ≤ limit) ⊎ (length (b ++ w ∷ []) ≡ 1)
  Fits-append limit w b (inl e) = inr (ap length (ap (λ t. t ++ w ∷ []) e))
  Fits-append limit w b (inr h) = inl (omega (arith, size_of-append b (w ∷ [])))

  module _ (is : IsWire wire) (limit version : ℕ) where
    -- A state with nothing in its bucket.
    abbrev pub Flushed : Result (Sender wire) → List (Weight wire) → Type 0
    Flushed r done =
        (s : Sender wire) × (buckets : List (List (Weight wire))) × (r ≡ ok s)
        × IsSending limit version buckets done s
        × (s.bucket ≡ [])

    pub flush_in-Flushed :
        (b : List (Weight wire)) (s : Sender wire) (buckets : List (List (Weight wire)))
        (done : List (Weight wire))
        → s.bucket ≡ b
        → IsSending limit version buckets done s
        → (size_of wire b ≤ limit) ⊎ (length b ≡ 1)
        → Flushed (flush_in wire version b s) done
    unfolding flush_in
    flush_in-Flushed [] s buckets done e g fits = (s, buckets, refl, g, e)
    flush_in-Flushed (w ∷ ws) s buckets done e g fits = (
      _,
      buckets ++ (w ∷ ws) ∷ [],
      ap
          (λ r. r >>= λ m. ok (record s {
            bucket = [];
            bucket_bytes = 0;
            total_bytes = s.total_bytes + length m.1;
            total_weights = s.total_weights + length (w ∷ ws);
            total_buckets = suc s.total_buckets;
            sent =
                s.sent
                ++ header cmd_bucket (text_bytes m.0) (length m.1) version
                  ∷ metadata m.0
                  ∷ payload m.1
                  ∷ [];
          }))
          (encode_bucket-payload_of wire is w ws (subst (All (IsSolid wire)) e g.solid)),
      record {
        sent =
            ap (λ t. t ++ messages_of version (w ∷ ws)) g.sent
            ∙ sym (
                flat_map-append (messages_of version) buckets ((w ∷ ws) ∷ [])
                ∙ ap (λ t. flat_map (messages_of version) buckets ++ t) (append-nil _));
        weights =
            append-nil _
            ∙ joined-snoc buckets (w ∷ ws)
            ∙ ap (λ t. joined buckets ++ t) (sym e)
            ∙ g.weights;
        whole =
            All-append (IsBucket limit) buckets _ g.whole
              ((omega arith, omega (arith, (subst (All (IsSolid wire)) e g.solid).0.0), fits), tt);
        solid = tt;
        held = refl;
        counted = omega (
          arith,
          ap length (joined-snoc buckets (w ∷ ws)),
          length-append (joined buckets) (w ∷ ws),
          g.counted,
        );
        measured = omega (
          arith,
          ap (size_of wire) (joined-snoc buckets (w ∷ ws)),
          size_of-append (joined buckets) (w ∷ ws),
          length-payload_of wire (w ∷ ws),
          g.measured,
        );
        number = omega (arith, length-append buckets ((w ∷ ws) ∷ []), g.number);
      },
      refl,
    )
