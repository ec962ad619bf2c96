-- ===== src/Tests/Queue.antt =====
-- A queue with staleness threshold 0.5, in a run where both a stale sample is dropped and one is kept.
use lumen_rl.Base.{ℕ, ◌≡◌, refl, List, [], ◌∷◌, arith, zero, suc}
use lumen_rl.MessageQueue.{
  SampleItem, Gathering, System, Event, puts, counts, sets_version, begins, polls, step, run, idle,
  init, poll, poll_in, begin, begin_in, return_if_full, start_gathering, poll_items,
  set_param_version, insert_item, has_room, count_item, count_by, judge, is_stale, consume,
  keep_item,
}
use lumen_rl.MessageQueue.Counts.{IsCounted, run-IsCounted}
use lumen_rl.MessageQueue.Freshness.{IsFresh, run-IsFresh}

abbrev half : ℕ → ℕ
half zero = 0
half (suc zero) = 0
half (suc (suc n)) = suc (half n)

abbrev sample : ℕ → ℕ → SampleItem ℕ
sample d v = record { payload = d; param_version = v }

-- Two stale samples and a fresh one, put in before and after the version is raised.
abbrev events : List (Event ℕ)
events =
    puts (sample 10 0)
    ∷ counts
    ∷ puts (sample 11 0)
    ∷ sets_version 1
    ∷ begins 2
    ∷ polls
    ∷ counts
    ∷ polls
    ∷ puts (sample 12 1)
    ∷ polls
    ∷ counts
    ∷ []

abbrev first : Gathering ℕ
first = record {
  batch_size = 2;
  max_stale = 1;
  collected = sample 10 0 ∷ sample 12 1 ∷ [];
  stale_count = 1;
}

run-returned :
    ((run half (idle 2) events).returned ≡ first ∷ [])
    × ((run half (idle 2) events).dropped ≡ sample 11 0 ∷ [])
unfolding run step poll poll_in begin begin_in idle init return_if_full start_gathering poll_items
    set_param_version insert_item has_room count_item count_by judge is_stale consume keep_item
run-returned = (refl, refl)

run-IsCounted_example : IsCounted (run half (idle 2) events)
run-IsCounted_example = run-IsCounted half 2 events

-- Version 1 is out before the first event.
abbrev started : System ℕ
started = step half (idle 2) (sets_version 1)

started-IsFresh : IsFresh half 1 started
unfolding step idle init set_param_version
started-IsFresh = record { current = omega arith; running = tt; batches = tt }

run-IsFresh_example : IsFresh half 1 (run half started events)
run-IsFresh_example = run-IsFresh half 1 started events (ground arith) started-IsFresh
