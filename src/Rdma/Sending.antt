-- ===== src/Rdma/Sending.antt =====
-- lumenrl/engine/inference/rdma_weight_transfer.py:
-- What the sender broadcasts: the buckets that the weights are cut into.
use lumen_rl.Base.{
  ℕ, ◌+◌, ◌≤◌, ◌<◌, ◌≡◌, refl, sym, subst, ap, ◌∙◌, ◌&&◌, List, [], ◌∷◌, ◌++◌, append_assoc,
  append-nil, length, Result, ok, ◌>>=◌, All, All-append, arith, flat_map, ltb, leb, Bool-cases,
  ◌⊎◌, inl, inr, if◌then◌else◌, lt→ltb,
}
use lumen_rl.Rdma.{Wire, Weight, header, cmd_end}
use lumen_rl.Rdma.Sender.{
  Sender, size_of, flush, append_weight, send_weight, send_weights, idle, send_weight_stream,
}
use lumen_rl.Rdma.Buckets.{IsSolid, IsWire}
use lumen_rl.Rdma.Flushes.{
  messages_of, joined, IsBucket, IsSending, size_of-append, Fits, Fits-of_test, Fits-append,
  flush_in-Flushed,
}

module _ (wire : Wire) where
  module _ (is : IsWire wire) (limit version : ℕ) where
    -- A state in which the next weight can be appended.
    abbrev Prepared : Result (Sender wire) → List (Weight wire) → Weight wire → Type 0
    Prepared r done w =
        (s : Sender wire) × (buckets : List (List (Weight wire))) × (r ≡ ok s)
        × IsSending wire limit version buckets done s
        × Fits wire limit w s.bucket

    -- A state between two rounds.
    abbrev pub Between : Result (Sender wire) → List (Weight wire) → Type 0
    Between r done =
        (s : Sender wire) × (buckets : List (List (Weight wire))) × (r ≡ ok s)
        × IsSending wire limit version buckets done s
        × (size_of wire s.bucket < limit)

    module _ (pos : 0 < limit) where
      flush-Between :
          (s : Sender wire) (buckets : List (List (Weight wire))) (done : List (Weight wire))
          → IsSending wire limit version buckets done s
          → (size_of wire s.bucket ≤ limit) ⊎ (length s.bucket ≡ 1)
          → Between (flush wire version s) done
      unfolding flush
      flush-Between s buckets done g fits =
          let (s', buckets', e, k, empty) =
            flush_in-Flushed wire is limit version s.bucket s buckets done refl g fits in
          (s', buckets', e, k, omega (arith, ap (size_of wire) empty))

      prepare :
          (w : Weight wire) (s : Sender wire) (buckets : List (List (Weight wire)))
          (done : List (Weight wire))
          → IsSending wire limit version buckets done s
          → size_of wire s.bucket < limit
          → Prepared
              (if ltb 0 (length s.bucket) && ltb limit (s.bucket_bytes + length w.1.bytes)
                then flush wire version s
                else ok s)
              done
              w
      unfolding flush
      prepare w s buckets done g small =
          elim (Bool-cases
            (ltb 0 (length s.bucket) && ltb limit (s.bucket_bytes + length w.1.bytes))) [
              | inl over ↦
                  let (s', buckets', e, k, empty) =
                    flush_in-Flushed wire is limit version s.bucket s buckets done refl g
                      (inl (omega arith)) in
                  rw over (s', buckets', e, k, inl empty)
              | inr room ↦ rw room (
                s,
                buckets,
                refl,
                g,
                Fits-of_test wire limit w s.bucket s.bucket_bytes g.held room,
              )
            ]

      append-IsSending :
          (w : Weight wire) (s : Sender wire) (buckets : List (List (Weight wire)))
          (done : List (Weight wire))
          → IsSolid wire w
          → IsSending wire limit version buckets done s
          → IsSending wire limit version buckets (done ++ w ∷ []) (append_weight wire w s)
      unfolding append_weight
      append-IsSending w s buckets done solid g = record {
        sent = g.sent;
        weights =
            sym (append_assoc (joined wire buckets) s.bucket (w ∷ []))
            ∙ ap (λ t. t ++ w ∷ []) g.weights;
        whole = g.whole;
        solid = All-append (IsSolid wire) s.bucket (w ∷ []) g.solid (solid, tt);
        held = omega (arith, g.held, size_of-append wire s.bucket (w ∷ []));
        counted = g.counted;
        measured = g.measured;
        number = g.number;
      }

      close_round :
          (s : Sender wire) (buckets : List (List (Weight wire))) (done : List (Weight wire))
          → IsSending wire limit version buckets done s
          → (size_of wire s.bucket ≤ limit) ⊎ (length s.bucket ≡ 1)
          → Between (if leb limit s.bucket_bytes then flush wire version s else ok s) done
      close_round s buckets done g fits = elim (Bool-cases (leb limit s.bucket_bytes)) [
        | inl full ↦ rw full (flush-Between s buckets done g fits)
        | inr open_bucket ↦ rw open_bucket (s, buckets, refl, g, ground (arith, g.held))
      ]

      send_weight-Between :
          (w : Weight wire) (s : Sender wire) (buckets : List (List (Weight wire)))
          (done : List (Weight wire))
          → IsSolid wire w
          → IsSending wire limit version buckets done s
          → size_of wire s.bucket < limit
          → Between (send_weight wire limit version w s) (done ++ w ∷ [])
      unfolding send_weight append_weight
      send_weight-Between w s buckets done solid g small =
          let (s', buckets', e, k, fits) = prepare w s buckets done g small in
          let (t, buckets'', f, l, small') =
            close_round (append_weight wire w s') buckets' (done ++ w ∷ [])
              (append-IsSending w s' buckets' done solid k)
              (Fits-append wire limit w s'.bucket fits) in
          (
            t,
            buckets'',
            ap
                  (λ r. r >>= λ p.
                    if leb limit (append_weight wire w p).bucket_bytes
                    then flush wire version (append_weight wire w p)
                    else ok (append_weight wire w p))
                  e
                ∙ f,
            l,
            small',
          )

      send_weights-Between :
          (ws : List (Weight wire)) (s : Sender wire) (buckets : List (List (Weight wire)))
          (done : List (Weight wire))
          → All (IsSolid wire) ws
          → IsSending wire limit version buckets done s
          → size_of wire s.bucket < limit
          → Between (send_weights wire limit version ws s) (done ++ ws)
      unfolding send_weights
      send_weights-Between [] s buckets done solid g small =
          subst (Between (ok s)) (sym (append-nil done)) (s, buckets, refl, g, small)
      send_weights-Between (w ∷ ws) s buckets done (solid, rest) g small =
          let (s', buckets', e, k, small') = send_weight-Between w s buckets done solid g small in
          let (t, buckets'', f, l, small'') =
            send_weights-Between ws s' buckets' (done ++ w ∷ []) rest k small' in
          (
            t,
            buckets'',
            ap (λ r. r >>= send_weights wire limit version ws) e ∙ f,
            subst (λ d. IsSending wire limit version buckets'' d t) (append_assoc done (w ∷ []) ws)
                l,
            small'',
          )

      idle-IsSending : IsSending wire limit version [] [] (idle wire)
      unfolding idle
      idle-IsSending = record {
        sent = refl;
        weights = refl;
        whole = tt;
        solid = tt;
        held = refl;
        counted = refl;
        measured = refl;
        number = refl;
      }

      abbrev closed : Sender wire → Sender wire
      closed s = record s { sent = s.sent ++ header cmd_end 0 0 version ∷ [] }

      started :
          (ws : List (Weight wire))
          → send_weight_stream wire ws limit version ≡ (
              send_weights wire limit version ws (idle wire) >>= λ p.
              flush wire version p >>= λ q. ok (closed q))
      unfolding send_weight_stream
      started ws = rw (lt→ltb 0 limit pos) refl

      -- Let the limit be positive, and every weight have bytes and, if its elements are wider than a
      -- byte, a dimension. Then sending succeeds: the weights are cut into buckets, in order, each
      -- broadcast as a header, its metadata and its payload, and the end follows. Each bucket's
      -- payload is not empty, and is not above the limit unless the bucket is one weight. The totals
      -- count the weights, bytes and buckets.
      pub send_weight_stream-IsSending :
          (ws : List (Weight wire))
          → All (IsSolid wire) ws
          → (s : Sender wire) × (buckets : List (List (Weight wire))) × (send_weight_stream wire ws
                limit version
              ≡ ok s)
            × (s.sent
                ≡ flat_map (messages_of wire version) buckets ++ header cmd_end 0 0 version ∷ [])
            × (joined wire buckets ≡ ws)
            × All (IsBucket wire limit) buckets
            × (s.total_weights ≡ length ws)
            × (s.total_bytes ≡ size_of wire ws)
            × (s.total_buckets ≡ length buckets)
      unfolding flush idle
      send_weight_stream-IsSending ws solid =
          let (s, buckets, e, g, small) =
            send_weights-Between ws (idle wire) [] [] solid idle-IsSending pos in
          let (t, buckets', f, k, empty) =
            flush_in-Flushed wire is limit version s.bucket s buckets ws refl g
              (inl (omega arith)) in
          let all : joined wire buckets' ≡ ws =
            sym (append-nil _) ∙ ap (λ b. joined wire buckets' ++ b) (sym empty) ∙ k.weights in
          (
            closed t,
            buckets',
            started ws
                ∙ ap (λ r. r >>= λ p. flush wire version p >>= λ q. ok (closed q)) e
                ∙ ap (λ r. r >>= λ q. ok (closed q)) f,
            ap (λ m. m ++ header cmd_end 0 0 version ∷ []) k.sent,
            all,
            k.whole,
            k.counted ∙ ap length all,
            k.measured ∙ ap (size_of wire) all,
            k.number,
          )
