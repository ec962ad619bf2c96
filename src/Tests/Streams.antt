-- ===== src/Tests/Streams.antt =====
-- Three weights, one with elements of two bytes, broadcast with a limit of four bytes, and
-- received with the expected version.
use lumen_rl.Base.{
  ℕ, ◌≡◌, ◌==◌, refl, List, [], ◌∷◌, arith, String, true, Bool, ok, err, some, Option, Result,
  replicate, length, length-replicate, map, runtime_error, All, inl,
}
use lumen_rl.Rdma.{Wire, Weight, Entry, header}
use lumen_rl.Rdma.Sender.{Sender, byte_view, send_weight_stream, size_of}
use lumen_rl.Rdma.Receiver.{view}
use lumen_rl.Rdma.Buckets.{IsWire}
use lumen_rl.Rdma.Flushes.{IsBucket, joined, messages_of}
use lumen_rl.Rdma.Sending.{send_weight_stream-IsSending}
use lumen_rl.Base.{flat_map, ◌++◌}

-- The metadata is its own text.
abbrev plain : Wire
plain = record {
  Shape = ℕ;
  Dtype = ℕ;
  nbytes = λ n size. n;
  itemsize = λ size. size;
  is_scalar = λ n. n == 0;
  fresh = λ n. replicate n 7;
  Text = List (Entry ℕ ℕ);
  text_bytes = λ es. 1;
  encode = λ es. es;
  decode = λ es. ok es;
}

plain-IsWire : IsWire plain
plain-IsWire = record {
  decodes = λ es. refl;
  encodes = λ es. omega arith;
  fresh_size = λ n. length-replicate n 7;
}

abbrev tensors : List (Weight plain)
tensors =
    ("a", record { shape = 2; dtype = 1; bytes = 1 ∷ 2 ∷ [] })
    ∷ ("b", record { shape = 2; dtype = 2; bytes = 4 ∷ 5 ∷ [] })
    ∷ ("c", record { shape = 4; dtype = 1; bytes = 6 ∷ 7 ∷ 8 ∷ 9 ∷ [] })
    ∷ []

abbrev finite : Weight plain → Bool
finite w = true

abbrev names_of : List (Weight plain) → Result (Option (List String))
names_of ws = ok (some (map (λ w. w.0) ws))

abbrev reloadable : String → Bool
reloadable name = true

-- A tensor without dimensions and with elements of two bytes cannot be sent.
scalar-raises :
    send_weight_stream plain (("s", record { shape = 0; dtype = 2; bytes = 1 ∷ 2 ∷ [] }) ∷ []) 4 9
    ≡ err runtime_error
unfolding send_weight_stream byte_view
scalar-raises = refl

-- An element of two bytes after three bytes cannot be viewed.
misaligned-raises :
    view plain
      (record { name = "b"; shape = 2; dtype = 2; offset = 3; nbytes = 2 })
      (1 ∷ 2 ∷ 3 ∷ 4 ∷ 5 ∷ [])
    ≡ err runtime_error
unfolding view
misaligned-raises = refl

send_weight_stream-IsSending_example :
    (s : Sender plain) × (buckets : List (List (Weight plain))) × (send_weight_stream plain tensors
        4 9
      ≡ ok s)
    × (s.sent ≡ flat_map (messages_of plain 9) buckets ++ header 0 0 0 9 ∷ [])
    × (joined plain buckets ≡ tensors)
    × All (IsBucket plain 4) buckets
    × (s.total_weights ≡ length tensors)
    × (s.total_bytes ≡ size_of plain tensors)
    × (s.total_buckets ≡ length buckets)
send_weight_stream-IsSending_example =
    send_weight_stream-IsSending plain plain-IsWire 4 9 (omega arith) tensors
      ((omega arith, inl refl), ((omega arith, inl refl), ((omega arith, inl refl), tt)))
