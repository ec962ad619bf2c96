-- ===== src/Rdma/Delivered.antt =====
-- lumenrl/engine/inference/rdma_weight_transfer.py:
-- What the receiver makes of the sender's broadcasts, against a direct load of the weights.
use mathlib.Core.Option
use lumen_rl.Base.{
  ℕ, ◌≡◌, Bool, List, [], ◌∷◌, ◌++◌, Result, ok, err, runtime_error, ◌>>=◌, Option, some, none,
  String, flat_map,
}
use lumen_rl.Rdma.{Wire, Weight, Broadcast, header, cmd_end, Entry}
use lumen_rl.Rdma.Sender.{Sender}
use lumen_rl.Rdma.Receiver.{Stream, received_weights, check_load}
use lumen_rl.Rdma.Buckets.{IsWire}
use lumen_rl.Rdma.Flushes.{messages_of}

module _ (wire : Wire) (is : IsWire wire) (is_finite : Weight wire → Bool) where
  open wire use {Shape, Dtype, Text, text_bytes, encode, decode}

  -- The sender's broadcasts for the buckets.
  abbrev broadcasts : ℕ → List (List (Weight wire)) → List (Broadcast Text)
  broadcasts version buckets =
      flat_map (messages_of wire version) buckets ++ header cmd_end 0 0 version ∷ []

  abbrev stream_of : ℕ → List (List (Weight wire)) → Stream wire
  stream_of version buckets = received_weights wire is_finite version (broadcasts version buckets)

  -- There is a source if and only if there is a weight.
  abbrev Sourced : List (Weight wire) → Option (Entry Shape Dtype) → Type 0
  Sourced [] source = source ≡ none
  Sourced (w ∷ ws) source = (x : Entry Shape Dtype) × (source ≡ some x)

  module _ (load : List (Weight wire) → Result (Option (List String)))
      (is_reloadable : String → Bool) where
    -- A direct load of weights that are at hand: an error while a weight is loaded becomes a
    -- runtime error, and so does a model that names nothing.
    abbrev pub loaded_names :
        List (Weight wire) → Result (Option (List String)) → Result (List String)
    loaded_names [] (err e) = err e
    loaded_names (w ∷ ws) (err e) = err runtime_error
    loaded_names ws (ok none) = err runtime_error
    loaded_names ws (ok (some names)) = ok names

    abbrev pub load_directly : Bool → List String → List (Weight wire) → Result (List String)
    load_directly verify_full_load expected_names ws =
        loaded_names ws (load ws)
        >>= check_load wire is_finite load is_reloadable verify_full_load expected_names
