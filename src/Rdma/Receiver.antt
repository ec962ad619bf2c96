-- ===== src/Rdma/Receiver.antt =====
-- lumenrl/engine/inference/rdma_weight_transfer.py:
-- `receive_weight_stream`: what the receiver makes of the broadcasts.
use lumen_rl.Base.{
  ◌%◌, ℕ, ◌+◌, Bool, false, not, ◌&&◌, ◌||◌, List, [], ◌∷◌, if◌then◌else◌, ◌==◌, length, slice,
  Option, some, none, String, str_eq, Result, Error, ok, err, ◌>>=◌, ◌>>◌, guard, runtime_error,
}
use lumen_rl.WeightTransfer.State.{Tensor}
use mathlib.Core.Option
use lumen_rl.Rdma.{Entry, Wire, Weight, Broadcast, header, metadata, payload, cmd_end, cmd_bucket}

module _ (wire : Wire) where
  open wire use {Shape, Dtype, Text, text_bytes, nbytes, itemsize, fresh, encode, decode}

  -- How the stream of `received_weights` ends: it returns, raises, or waits for a broadcast that
  -- is not of the kind awaited, or does not come.
  pub data Ending : Type 0 where
    finished stuck : Ending
    raised : Error → Ending

  -- What `received_weights` yields, and the last entry that it looked at.
  pub record Stream : Type 0 where
    pub weights : List (Weight wire)
    pub last_source : Option (Entry Shape Dtype)
    pub ending : Ending

  unfoldable pub ended : Ending → Stream
  ended ending = record { weights = []; last_source = none; ending = ending }

  unfoldable pub source_or : Option (Entry Shape Dtype) → Entry Shape Dtype → Entry Shape Dtype
  source_or none e = e
  source_or (some later) e = later

  unfoldable pub yielded : Entry Shape Dtype → Weight wire → Stream → Stream
  unfolding source_or
  yielded e w s = record s {
    weights = w ∷ s.weights;
    last_source = some (source_or s.last_source e);
  }

  -- `payload[start:end].view(dtype).view(shape)`: the first view needs an offset that is a multiple
  -- of the size of an element.
  unfoldable pub view : Entry Shape Dtype → List ℕ → Result (Tensor Shape Dtype)
  view e contents =
      let part = slice e.offset (e.offset + e.nbytes) contents in
      guard (e.offset % itemsize e.dtype == 0) runtime_error
      >> guard (length part == nbytes e.shape e.dtype) runtime_error
      >> ok (record { shape = e.shape; dtype = e.dtype; bytes = part })

  module _ (is_finite : Weight wire → Bool) where
    unfoldable pub yield_entry : Entry Shape Dtype → Result (Tensor Shape Dtype) → Stream → Stream
    unfolding yielded
    yield_entry e (err r) more = record { weights = []; last_source = some e; ending = raised r }
    yield_entry e (ok t) more =
        if is_finite (e.name, t)
        then yielded e (e.name, t) more
        else record { weights = []; last_source = some e; ending = raised runtime_error }

    unfoldable pub yield_bucket : List (Entry Shape Dtype) → List ℕ → Stream → Stream
    unfolding view yield_entry
    yield_bucket [] contents more = more
    yield_bucket (e ∷ es) contents more =
        yield_entry e (view e contents) (yield_bucket es contents more)

    unfoldable pub yield_metadata : Result (List (Entry Shape Dtype)) → List ℕ → Stream → Stream
    unfolding ended yield_bucket
    yield_metadata (err r) contents more = ended (raised r)
    yield_metadata (ok es) contents more = yield_bucket es contents more

    -- The tests on a header, and what follows if there is a bucket.
    unfoldable pub read_header : ℕ → ℕ → ℕ → ℕ → ℕ → Stream → Stream
    unfolding ended
    read_header expected command metadata_bytes payload_bytes version bucket =
        if not (version == expected)
        then ended (raised runtime_error)
        else if command == cmd_end
        then ended finished
        else if not (command == cmd_bucket) || metadata_bytes == 0 || payload_bytes == 0
        then ended (raised runtime_error)
        else bucket

    -- `received_weights`.
    unfoldable pub received_weights : ℕ → List (Broadcast Text) → Stream
    unfolding read_header yield_metadata ended
    received_weights expected (header c m p v ∷ []) = read_header expected c m p v (ended stuck)
    received_weights expected (header c m p v ∷ metadata text ∷ payload contents ∷ rest) =
        read_header expected c m p v
          (yield_metadata (decode text) contents (received_weights expected rest))
    received_weights expected (header c m p v ∷ rest) = read_header expected c m p v (ended stuck)
    received_weights expected _ = ended stuck

    module _ (load : List (Weight wire) → Result (Option (List String)))
        (is_reloadable : String → Bool) where
      -- `_missing_reloadable_names`, less its sorting.
      unfoldable pub is_loaded : String → List String → Bool
      is_loaded name [] = false
      is_loaded name (n ∷ ns) = str_eq n name || is_loaded name ns

      unfoldable pub missing_reloadable_names : List String → List String → List String
      unfolding is_loaded
      missing_reloadable_names [] loaded = []
      missing_reloadable_names (n ∷ ns) loaded =
          let rest = missing_reloadable_names ns loaded in
          if not (is_loaded n loaded) && is_reloadable n then n ∷ rest else rest

      -- An error inside `model.load_weights`, its own or one of the stream.
      unfoldable pub load_error : Option (Entry Shape Dtype) → Error → Error
      load_error none e = e
      load_error (some source) e = runtime_error

      unfoldable pub load_in :
          Option (Entry Shape Dtype) → Result (Option (List String)) → Result (List String)
      unfolding load_error
      load_in source (err e) = err (load_error source e)
      load_in source (ok none) = err runtime_error
      load_in source (ok (some names)) = ok names

      -- `model.load_weights(received_weights())`, which goes through the stream; none when it does
      -- not return.
      unfoldable pub load_stream : Ending → Stream → Option (Result (List String))
      unfolding load_in
      load_stream finished s = some (load_in s.last_source (load s.weights))
      load_stream (raised e) s = some (err (load_error s.last_source e))
      load_stream stuck s = none

      -- The checks after the load: the names of the parameters that were loaded.
      unfoldable pub check_load : Bool → List String → List String → Result (List String)
      unfolding missing_reloadable_names
      check_load verify_full_load expected_names loaded =
          guard
            (not verify_full_load || length (missing_reloadable_names expected_names loaded) == 0)
            runtime_error
          >> ok loaded

      -- `receive_weight_stream`.
      unfoldable pub receive_weight_stream :
          ℕ → Bool → List String → List (Broadcast Text) → Option (Result (List String))
      unfolding received_weights load_stream check_load
      receive_weight_stream expected verify_full_load expected_names sent =
          let stream = received_weights expected sent in
          Option.map (λ r. r >>= check_load verify_full_load expected_names)
            (load_stream stream.ending stream)
