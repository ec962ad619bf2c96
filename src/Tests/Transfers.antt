-- ===== src/Tests/Transfers.antt =====
-- A transfer of four weights through two slots of four bytes each.
use lumen_rl.Base.{
  ℕ, ◌≡◌, refl, List, [], ◌∷◌, arith, String, true, false, none, some, replicate, ◌⊎◌, Option,
  dict_set, dict_has,
}
use lumen_rl.WeightTransfer.State.{
  Ipc, ReceiverPhase, SenderPhase, System, Turn, Weight, init, make_receiver, make_sender,
  version_ok,
}
use lumen_rl.WeightTransfer.Receiver.{view_of, views}
use lumen_rl.WeightTransfer.Threads.{run}
use lumen_rl.Base.Ranges.{overwrite, read}
use lumen_rl.WeightTransfer.Contents.{IsIpc}
use lumen_rl.WeightTransfer.Delivery.{
  CanStart, Delivers, Options, start, transfer-Delivers, transfer_finishes,
}
use lumen_rl.WeightTransfer.Versions.{mismatch-loads_nothing}

-- Elements of one byte; a handle is a function that has the tensor.
abbrev bytes_only : Ipc
bytes_only = record {
  Shape = ℕ;
  Dtype = ℕ;
  Arg = ℕ;
  numel = λ n. n;
  itemsize = λ n. n;
  device_arg = λ d. d;
  reduce_tensor = λ t. (λ _. t, replicate 7 0);
}

bytes_only-IsIpc : IsIpc bytes_only
bytes_only-IsIpc = record { has_device = λ t. omega arith; rebuilds = λ t d. refl }

abbrev weight : String → ℕ → List ℕ → Weight bytes_only
weight name n bytes = (name, record { shape = n; dtype = 1; bytes = bytes })

-- The third is larger than a slot and is sent directly.
abbrev weights : List (Weight bytes_only)
weights =
    weight "a" 3 (1 ∷ 2 ∷ 3 ∷ [])
    ∷ weight "b" 2 (4 ∷ 5 ∷ [])
    ∷ weight "c" 5 (6 ∷ 7 ∷ 8 ∷ 9 ∷ 10 ∷ [])
    ∷ weight "d" 1 (11 ∷ [])
    ∷ []

abbrev options : Option ℕ → Options
options expected = record {
  bucket_size_mb = 0;
  min_bucket_bytes = 8;
  use_shm = false;
  double_buffer = true;
  version = some 3;
  expected_version = expected;
  device = 1;
}

abbrev memory : List ℕ
memory = replicate 8 0

-- The sender copies `b` before the receiver has loaded `a`.
abbrev turns : List Turn
turns =
    Turn.sends ∷ Turn.sends ∷ Turn.receives ∷ Turn.sends ∷ Turn.sends ∷ Turn.receives
    ∷ Turn.receives ∷ []

abbrev halfway : System bytes_only
halfway = run bytes_only turns (start bytes_only (options (some 3)) weights memory)

halfway-loaded :
    (halfway.receiver.loaded ≡ weight "a" 3 (1 ∷ 2 ∷ 3 ∷ []) ∷ [])
    × (halfway.buffer ≡ 1 ∷ 2 ∷ 3 ∷ 0 ∷ 4 ∷ 5 ∷ 0 ∷ 0 ∷ [])
    × (halfway.sender.weights
        ≡ weight "c" 5 (6 ∷ 7 ∷ 8 ∷ 9 ∷ 10 ∷ []) ∷ weight "d" 1 (11 ∷ []) ∷ [])
unfolding run init make_sender make_receiver dict_set version_ok views view_of read overwrite
halfway-loaded = (refl, refl, refl)

-- Three bytes and then an element of two bytes: the second's offset is not a multiple of two, so its
-- view raises, and the sender waits for ever.
abbrev misaligned : System bytes_only
misaligned =
    run bytes_only (Turn.sends ∷ Turn.sends ∷ Turn.sends ∷ Turn.receives ∷ Turn.sends ∷ []) (
      start bytes_only
        (record {
          bucket_size_mb = 0;
          min_bucket_bytes = 8;
          use_shm = false;
          double_buffer = false;
          version = none;
          expected_version = none;
          device = 1;
        })
        (weight "a" 3 (1 ∷ 2 ∷ 3 ∷ [])
          ∷ ("b", record { shape = 1; dtype = 2; bytes = 4 ∷ 5 ∷ [] })
          ∷ [])
        memory)

misaligned-rejected :
    (misaligned.receiver.phase ≡ ReceiverPhase.rejected)
    × (misaligned.sender.phase ≡ SenderPhase.await_last)
    × (misaligned.ack ≡ false)
unfolding run init make_sender make_receiver dict_set version_ok views view_of read overwrite
misaligned-rejected = (refl, refl, refl)

can_start : CanStart bytes_only (options (some 3)) weights memory
unfolding make_sender version_ok dict_has
can_start = record {
  fits = (refl, (refl, (refl, (refl, tt))));
  distinct = (refl, (refl, (refl, (refl, tt))));
  size = refl;
  version = refl;
  unit = 1;
  in_units = ((refl, refl), ((refl, refl), ((refl, refl), ((refl, refl), tt))));
  slot_in_units = refl;
}

transfer-Delivers_example : Delivers bytes_only weights halfway
transfer-Delivers_example =
    transfer-Delivers bytes_only (options (some 3)) weights memory turns bytes_only-IsIpc can_start

transfer_finishes_example :
    (more : List Turn) × (let y = run bytes_only more halfway in
      ((y.receiver.phase ≡ ReceiverPhase.received) × (y.receiver.loaded ≡ weights))
      ⊎ ((y.sender.phase ≡ SenderPhase.assertion_failed) × (y.sender.use_shm ≡ true)))
transfer_finishes_example =
    transfer_finishes bytes_only (options (some 3)) weights memory turns bytes_only-IsIpc can_start

mismatch-loads_nothing_example :
    (run bytes_only turns (start bytes_only (options (some 4)) weights memory)).receiver.loaded ≡ []
unfolding version_ok
mismatch-loads_nothing_example =
    mismatch-loads_nothing bytes_only (options (some 4)) weights memory turns refl
