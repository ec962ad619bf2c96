-- ===== src/MessageQueue.antt =====
-- lumenrl/trainer/message_queue.py: the sample buffer between the rollout thread and the trainer.
-- Threads are interleaved: an `Event` is one thread's next atomic action, and `step` performs it, or
-- leaves the system alone where that thread cannot move. There is one consumer. `allowed n` stands
-- for `int(n * staleness_threshold)`, a floating-point product; times enter as the event `expires`.
pub mod Counts
pub mod Freshness
use lumen_rl.Base.{
  ℕ, zero, suc, ◌+◌, Bool, true, false, ◌&&◌, ◌||◌, List, [], ◌∷◌, ◌++◌, Option, some, none, length,
  ltb, leb, ◌==◌, if◌then◌else◌,
}

-- `SampleItem`, without its creation time, which nothing reads.
pub record SampleItem (D : Type 0) : Type 0 where
  pub payload : D
  pub param_version : ℕ

-- `maxsize` 0 means no bound, as in `queue.Queue`. `uncounted` are the threads inside `put` between
-- the insertion and the count.
pub record MessageQueue (D : Type 0) : Type 0 where
  pub maxsize : ℕ
  pub items : List (SampleItem D)
  pub current_param_version : ℕ
  pub total_produced : ℕ
  pub total_consumed : ℕ
  pub stale_consumed : ℕ
  pub uncounted : ℕ

-- The variables of a running `get_batch`.
pub record Gathering (D : Type 0) : Type 0 where
  pub batch_size : ℕ
  pub max_stale : ℕ
  pub collected : List (SampleItem D)
  pub stale_count : ℕ

-- The queue, the running call if there is one, and what became of the samples that left the queue:
-- the calls that returned their samples, the samples dropped, and the calls that timed out.
pub record System (D : Type 0) : Type 0 where
  pub queue : MessageQueue D
  pub gathering : Option (Gathering D)
  pub returned : List (Gathering D)
  pub dropped : List (SampleItem D)
  pub timed_out : List (Gathering D)

pub data Event (D : Type 0) : Type 0 where
  puts : SampleItem D → Event D
  counts : Event D
  sets_version : ℕ → Event D
  begins : ℕ → Event D
  polls : Event D
  expires : Event D

module _ {D : Type 0} where
  -- `AsyncMessageQueue(maxsize)`.
  unfoldable pub init : ℕ → MessageQueue D
  init maxsize = record {
    maxsize = maxsize;
    items = [];
    current_param_version = 0;
    total_produced = 0;
    total_consumed = 0;
    stale_consumed = 0;
    uncounted = 0;
  }

  unfoldable pub has_room : MessageQueue D → Bool
  has_room q = (q.maxsize == 0) || ltb (length q.items) q.maxsize

  -- `put`: the insertion, which waits while the queue is full, and then the count.
  unfoldable pub insert_item : MessageQueue D → SampleItem D → MessageQueue D
  unfolding has_room
  insert_item q item =
      if has_room q
      then record q { items = q.items ++ item ∷ []; uncounted = suc q.uncounted }
      else q

  unfoldable pub count_by : ℕ → MessageQueue D → MessageQueue D
  count_by zero q = q
  count_by (suc n) q = record q { total_produced = suc q.total_produced; uncounted = n }

  unfoldable pub count_item : MessageQueue D → MessageQueue D
  unfolding count_by
  count_item q = count_by q.uncounted q

  unfoldable pub set_param_version : ℕ → MessageQueue D → MessageQueue D
  set_param_version v q = record q { current_param_version = v }

  unfoldable pub is_stale : MessageQueue D → SampleItem D → Bool
  is_stale q item = ltb item.param_version q.current_param_version

  -- The end of an iteration that keeps its sample: the counters, under the lock.
  unfoldable pub consume : Bool → MessageQueue D → MessageQueue D
  consume stale q = record q {
    total_consumed = suc q.total_consumed;
    stale_consumed = if stale then suc q.stale_consumed else q.stale_consumed;
  }

  unfoldable pub keep_item : Bool → SampleItem D → Gathering D → Gathering D
  keep_item stale item g = record g {
    collected = g.collected ++ item ∷ [];
    stale_count = if stale then suc g.stale_count else g.stale_count;
  }

  -- The loop test: the batch is returned once it is full.
  unfoldable pub return_if_full : Gathering D → System D → System D
  return_if_full g s =
      if ltb (length g.collected) g.batch_size
      then record s { gathering = some g }
      else record s { gathering = none; returned = g ∷ s.returned }

  -- An iteration with a sample: a stale one beyond the allowance is dropped.
  unfoldable pub judge : SampleItem D → Gathering D → System D → System D
  judge item g s =
      if is_stale s.queue item && leb g.max_stale g.stale_count
      then record s { dropped = item ∷ s.dropped }
      else return_if_full (keep_item (is_stale s.queue item) item g)
          (record s { queue = consume (is_stale s.queue item) s.queue })

  -- `self._queue.get`: the oldest sample, or `queue.Empty` and another turn.
  unfoldable pub poll_items : List (SampleItem D) → Gathering D → System D → System D
  poll_items [] g s = s
  poll_items (item ∷ rest) g s = judge item g (record s { queue = record s.queue { items = rest } })

  unfoldable pub poll_in : Option (Gathering D) → System D → System D
  poll_in none s = s
  poll_in (some g) s = poll_items s.queue.items g s

  unfoldable pub poll : System D → System D
  poll s = poll_in s.gathering s

  -- The deadline passes: `TimeoutError`, and what was collected goes with the call.
  unfoldable pub expire_in : Option (Gathering D) → System D → System D
  expire_in none s = s
  expire_in (some g) s = record s { gathering = none; timed_out = g ∷ s.timed_out }

  unfoldable pub expire : System D → System D
  expire s = expire_in s.gathering s

module _ {D : Type 0} (allowed : ℕ → ℕ) where
  unfoldable pub start_gathering : ℕ → Gathering D
  start_gathering n = record {
    batch_size = n;
    max_stale = allowed n;
    collected = [];
    stale_count = 0;
  }

  unfoldable pub begin_in : Option (Gathering D) → ℕ → System D → System D
  begin_in none n s = return_if_full (start_gathering n) s
  begin_in (some g) n s = s

  -- `get_batch` is called.
  unfoldable pub begin : ℕ → System D → System D
  begin n s = begin_in s.gathering n s

  unfoldable pub step : System D → Event D → System D
  step s (puts item) = record s { queue = insert_item s.queue item }
  step s counts = record s { queue = count_item s.queue }
  step s (sets_version v) = record s { queue = set_param_version v s.queue }
  step s (begins n) = begin n s
  step s polls = poll s
  step s expires = expire s

  unfoldable pub run : System D → List (Event D) → System D
  run s [] = s
  run s (e ∷ es) = run (step s e) es

-- Before the first event.
unfoldable pub idle : {D : Type 0} → ℕ → System D
unfolding init
idle maxsize = record {
  queue = init maxsize;
  gathering = none;
  returned = [];
  dropped = [];
  timed_out = [];
}
