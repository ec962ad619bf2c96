-- ===== src/MessageQueue/Freshness.antt =====
-- How stale the batches are that `get_batch` returns.
use lumen_rl.Base.{
  ℕ, ◌+◌, ◌≤◌, ◌<◌, ◌≡◌, refl, List, [], ◌∷◌, ◌++◌, Option, some, none, length, length-append,
  arith, ltb, All, if◌then◌else◌,
}
use lumen_rl.MessageQueue.{
  SampleItem, Gathering, System, Event, puts, counts, sets_version, begins, polls, expires,
  insert_item, count_item, count_by, judge, consume, keep_item, is_stale, return_if_full,
  poll_items, poll_in, poll, expire_in, expire, begin_in, begin, start_gathering, step, run,
  set_param_version, has_room,
}

module _ {D : Type 0} where
  -- The samples that were generated before version `v`.
  abbrev pub count_older : ℕ → List (SampleItem D) → ℕ
  count_older v [] = 0
  count_older v (x ∷ xs) = (if ltb x.param_version v then 1 else 0) + count_older v xs

  count_older-append :
      (v : ℕ) (xs : List (SampleItem D)) (x : SampleItem D)
      → count_older v (xs ++ x ∷ []) ≡ count_older v xs + (if ltb x.param_version v then 1 else 0)
  count_older-append v [] x = omega arith
  count_older-append v (y ∷ xs) x = omega (arith, count_older-append v xs x)

module _ {D : Type 0} (allowed : ℕ → ℕ) (v : ℕ) where
  -- A returned batch is full, and at most the allowed number of its samples is older than `v`.
  pub record IsFreshBatch (g : Gathering D) : Type 0 where
    pub full : length g.collected ≡ g.batch_size
    pub fresh : count_older v g.collected ≤ allowed g.batch_size

  -- A running call is not full, and counted its stale samples against the allowance.
  abbrev pub FreshRunning : Option (Gathering D) → Type 0
  FreshRunning none = Unit
  FreshRunning (some g) =
      (length g.collected < g.batch_size)
      × (g.max_stale ≡ allowed g.batch_size)
      × (count_older v g.collected ≤ g.stale_count)
      × (g.stale_count ≤ g.max_stale)

  -- Nothing but `sets_version` changes the version, and never to one below `v`.
  abbrev pub SetsAbove : Event D → Type 0
  SetsAbove (sets_version w) = v ≤ w
  SetsAbove _ = Unit

  -- Version `v` is out, and what is running or was returned is fresh.
  pub record IsFresh (s : System D) : Type 0 where
    pub current : v ≤ s.queue.current_param_version
    pub running : FreshRunning s.gathering
    pub batches : All IsFreshBatch s.returned

  return_if_full-IsFresh :
      (g : Gathering D) (s : System D)
      → v ≤ s.queue.current_param_version
      → All IsFreshBatch s.returned
      → length g.collected ≤ g.batch_size
      → g.max_stale ≡ allowed g.batch_size
      → count_older v g.collected ≤ g.stale_count
      → g.stale_count ≤ g.max_stale
      → IsFresh (return_if_full g s)
  unfolding return_if_full
  return_if_full-IsFresh g s a b c d e f = ground arith

  judge-IsFresh :
      (s : System D) (g : Gathering D) (item : SampleItem D)
      → v ≤ s.queue.current_param_version
      → All IsFreshBatch s.returned
      → s.gathering ≡ some g
      → FreshRunning (some g)
      → IsFresh (judge item g s)
  unfolding judge consume keep_item return_if_full is_stale
  judge-IsFresh s g item a b running (l, m, c, d) =
      ground (arith, length-append g.collected (item ∷ []), count_older-append v g.collected item)

  poll_items-IsFresh :
      (s : System D) (g : Gathering D) (items : List (SampleItem D))
      → s.gathering ≡ some g
      → FreshRunning (some g)
      → IsFresh s
      → IsFresh (poll_items items g s)
  unfolding poll_items
  poll_items-IsFresh s g [] running f c = c
  poll_items-IsFresh s g (item ∷ rest) running f c =
      judge-IsFresh (record s { queue = record s.queue { items = rest } }) g item c.current
        c.batches running f

  poll_in-IsFresh :
      (s : System D) (o : Option (Gathering D))
      → s.gathering ≡ o
      → FreshRunning o
      → IsFresh s
      → IsFresh (poll_in o s)
  unfolding poll_in
  poll_in-IsFresh s none e f c = c
  poll_in-IsFresh s (some g) e f c = poll_items-IsFresh s g s.queue.items e f c

  expire_in-IsFresh :
      (s : System D) (o : Option (Gathering D)) → IsFresh s → IsFresh (expire_in o s)
  unfolding expire_in
  expire_in-IsFresh s none c = c
  expire_in-IsFresh s (some g) c = record { current = c.current; running = tt; batches = c.batches }

  begin_in-IsFresh :
      (s : System D) (o : Option (Gathering D)) (n : ℕ)
      → IsFresh s
      → IsFresh (begin_in allowed o n s)
  unfolding begin_in start_gathering
  begin_in-IsFresh s none n c =
      return_if_full-IsFresh (start_gathering allowed n) s c.current c.batches (omega arith) refl
        (omega arith) (omega arith)
  begin_in-IsFresh s (some g) n c = c

  puts-IsFresh :
      (s : System D) (item : SampleItem D)
      → IsFresh s
      → IsFresh (record s { queue = insert_item s.queue item })
  unfolding insert_item has_room
  puts-IsFresh s item c = ground arith

  counts-IsFresh : (s : System D) → IsFresh s → IsFresh (record s { queue = count_item s.queue })
  unfolding count_item count_by
  counts-IsFresh s c = ground arith

  step-IsFresh : (s : System D) (e : Event D) → SetsAbove e → IsFresh s → IsFresh (step allowed s e)
  unfolding step poll expire begin set_param_version
  step-IsFresh s (puts item) a c = puts-IsFresh s item c
  step-IsFresh s counts a c = counts-IsFresh s c
  step-IsFresh s (sets_version w) a c = record {
    current = a;
    running = c.running;
    batches = c.batches;
  }
  step-IsFresh s (begins n) a c = begin_in-IsFresh s s.gathering n c
  step-IsFresh s polls a c = poll_in-IsFresh s s.gathering refl c.running c
  step-IsFresh s expires a c = expire_in-IsFresh s s.gathering c

  -- From a system in which version v is out and what is running or was returned is fresh, whatever
  -- the threads do as long as nobody sets a version below v: every returned batch has exactly the
  -- size that was asked for, and at most the allowed number of its samples is older than v (a sample of
  -- version v - 1 counts as older, as in the code).
  pub run-IsFresh :
      (s : System D) (es : List (Event D))
      → All SetsAbove es
      → IsFresh s
      → IsFresh (run allowed s es)
  unfolding run
  run-IsFresh s [] a c = c
  run-IsFresh s (e ∷ es) (a, rest) c = run-IsFresh (step allowed s e) es rest (step-IsFresh s e a c)
