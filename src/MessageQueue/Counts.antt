-- ===== src/MessageQueue/Counts.antt =====
-- Where the samples are: nothing is made up, and what is not returned is accounted for.
use lumen_rl.Base.{
  ℕ, ◌+◌, ◌≤◌, ◌≡◌, ◌≢◌, refl, List, [], ◌∷◌, Option, some, none, length, length-append, arith,
}
use lumen_rl.MessageQueue.{
  SampleItem, Gathering, System, Event, puts, counts, sets_version, begins, polls, expires, init,
  insert_item, has_room, count_item, count_by, judge, consume, keep_item, is_stale, return_if_full,
  poll_items, poll_in, poll, expire_in, expire, begin_in, begin, start_gathering, step, run, idle,
  set_param_version,
}

module _ {D : Type 0} where
  -- The samples that the calls in a list had collected.
  abbrev pub total_collected : List (Gathering D) → ℕ
  total_collected [] = 0
  total_collected (g ∷ gs) = length g.collected + total_collected gs

  abbrev pub in_progress : Option (Gathering D) → ℕ
  in_progress none = 0
  in_progress (some g) = length g.collected

  -- The counters agree with what became of the samples, and the queue keeps its bound.
  pub record IsCounted (s : System D) : Type 0 where
    pub produced :
        s.queue.total_produced + s.queue.uncounted
        ≡ s.queue.total_consumed + length s.dropped + length s.queue.items
    pub consumed :
        s.queue.total_consumed
        ≡ total_collected s.returned + total_collected s.timed_out + in_progress s.gathering
    pub stale : s.queue.stale_consumed ≤ s.queue.total_consumed
    pub bounded : s.queue.maxsize ≢ 0 → length s.queue.items ≤ s.queue.maxsize

  puts-IsCounted :
      (s : System D) (item : SampleItem D)
      → IsCounted s
      → IsCounted (record s { queue = insert_item s.queue item })
  unfolding insert_item has_room
  puts-IsCounted s item c = ground (arith, length-append s.queue.items (item ∷ []))

  counts-IsCounted :
      (s : System D) → IsCounted s → IsCounted (record s { queue = count_item s.queue })
  unfolding count_item count_by
  counts-IsCounted s c = ground arith

  -- A sample that has just been taken from the queue.
  judge-IsCounted :
      (s : System D) (g : Gathering D) (item : SampleItem D) (rest : List (SampleItem D))
      → s.gathering ≡ some g
      → s.queue.items ≡ item ∷ rest
      → IsCounted s
      → IsCounted (judge item g (record s { queue = record s.queue { items = rest } }))
  unfolding judge consume keep_item return_if_full is_stale
  judge-IsCounted s g item rest running taken c =
      ground (arith, length-append g.collected (item ∷ []))

  poll_items-IsCounted :
      (s : System D) (g : Gathering D) (items : List (SampleItem D))
      → s.gathering ≡ some g
      → s.queue.items ≡ items
      → IsCounted s
      → IsCounted (poll_items items g s)
  unfolding poll_items
  poll_items-IsCounted s g [] running e c = c
  poll_items-IsCounted s g (item ∷ rest) running e c = judge-IsCounted s g item rest running e c

  poll_in-IsCounted :
      (s : System D) (o : Option (Gathering D))
      → s.gathering ≡ o
      → IsCounted s
      → IsCounted (poll_in o s)
  unfolding poll_in
  poll_in-IsCounted s none e c = c
  poll_in-IsCounted s (some g) e c = poll_items-IsCounted s g s.queue.items e refl c

  expire_in-IsCounted :
      (s : System D) (o : Option (Gathering D))
      → s.gathering ≡ o
      → IsCounted s
      → IsCounted (expire_in o s)
  unfolding expire_in
  expire_in-IsCounted s none e c = c
  expire_in-IsCounted s (some g) e c = ground arith

module _ {D : Type 0} (allowed : ℕ → ℕ) where
  begin_in-IsCounted :
      (s : System D) (o : Option (Gathering D)) (n : ℕ)
      → s.gathering ≡ o
      → IsCounted s
      → IsCounted (begin_in allowed o n s)
  unfolding begin_in start_gathering return_if_full
  begin_in-IsCounted s none n e c = ground arith
  begin_in-IsCounted s (some g) n e c = c

  step-IsCounted : (s : System D) (e : Event D) → IsCounted s → IsCounted (step allowed s e)
  unfolding step poll expire begin set_param_version
  step-IsCounted s (puts item) c = puts-IsCounted s item c
  step-IsCounted s counts c = counts-IsCounted s c
  step-IsCounted s (sets_version v) c = ground arith
  step-IsCounted s (begins n) c = begin_in-IsCounted s s.gathering n refl c
  step-IsCounted s polls c = poll_in-IsCounted s s.gathering refl c
  step-IsCounted s expires c = expire_in-IsCounted s s.gathering refl c

  run_from-IsCounted :
      (s : System D) (es : List (Event D)) → IsCounted s → IsCounted (run allowed s es)
  unfolding run
  run_from-IsCounted s [] c = c
  run_from-IsCounted s (e ∷ es) c = run_from-IsCounted (step allowed s e) es (step-IsCounted s e c)

  -- In every run from an empty queue, the samples put in, counted or about to be, are those
  -- consumed, dropped or still queued; those consumed are in a returned batch, in the batch of the
  -- running call or lost with a call that timed out; at most those consumed were stale; and the
  -- queue keeps its bound.
  pub run-IsCounted :
      (maxsize : ℕ) (es : List (Event D)) → IsCounted (run allowed (idle maxsize) es)
  unfolding idle init
  run-IsCounted maxsize es = run_from-IsCounted (idle maxsize) es (ground arith)
