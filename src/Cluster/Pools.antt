-- ===== src/Cluster/Pools.antt =====
-- Splitting a pool and merging the parts.
use lumen_rl.Base.{
  ℕ, zero, suc, ◌+◌, ◌*◌, ◌/◌, ◌%◌, ◌<◌, ◌≡◌, refl, sym, ap, ap₂, ◌∙◌, Bool, true, false, List, [],
  ◌∷◌, ◌++◌, Option, none, String, ==_iff, lt→ltb, replicate, length, length-append, append-nil,
  append_assoc, Result, ok, ◌>>=◌, ◌>>◌, guard, Error, All, arith, subst, value_error,
}
use native.Mathlib.Nat.{div-add-mod}
use lumen_rl.Cluster.{
  ResourcePool, SplitSize, all_positive, merge_with, parts_from, post_init, layout_of, split,
  split_list, layout_sum, world_size, each, sizes,
}

-- The sizes may be split off a pool of `total` workers.
abbrev pub IsSplit : SplitSize → ℕ → Type 0
IsSplit (each n) total = (0 < n) × (total % n ≡ 0)
IsSplit (sizes ns) total = All (λ n. 0 < n) ns × (layout_sum ns ≡ total)

sum-replicate : (n k : ℕ) → layout_sum (replicate n k) ≡ n * k
unfolding layout_sum
sum-replicate zero k = omega arith
sum-replicate (suc n) k = omega (arith, sum-replicate n k)

all_positive-All : (ns : List ℕ) → All (λ n. 0 < n) ns → all_positive ns ≡ true
unfolding all_positive
all_positive-All [] a = refl
all_positive-All (n ∷ ns) (p, a) = rw (lt→ltb 0 n p) (all_positive-All ns a)

sum-append : (xs ys : List ℕ) → layout_sum (xs ++ ys) ≡ layout_sum xs + layout_sum ys
unfolding layout_sum
sum-append [] ys = omega arith
sum-append (x ∷ xs) ys = omega (arith, sum-append xs ys)

one_more : (done : List ℕ) (n g : ℕ) → g ≡ layout_sum done → g + n ≡ layout_sum (done ++ n ∷ [])
unfolding layout_sum
one_more done n g h = omega (arith, sum-append done (n ∷ []))

guard-passes : {A : Type 0} (e : Error) (r : Result A) (b : Bool) → b ≡ true → (guard b e >> r) ≡ r
guard-passes e r true h = refl
guard-passes e r false h = cc

-- The sizes of the parts.
unfoldable pub part_sizes : SplitSize → ℕ → List ℕ
part_sizes (each n) total = replicate (total / n) n
part_sizes (sizes ns) total = ns

split_list-IsSplit :
    (s : SplitSize) (total : ℕ)
    → IsSplit s total
    → (split_list s total ≡ ok (part_sizes s total)) × (layout_sum (part_sizes s total) ≡ total)
unfolding split_list part_sizes
split_list-IsSplit (each zero) total (p, e) = absurd (omega arith)
split_list-IsSplit (each (suc n)) total (p, e) = (
  rw ((==_iff (total % suc n) 0).1 e) refl,
  omega (arith, sum-replicate (total / suc n) (suc n), div-add-mod total (suc n)),
)
split_list-IsSplit (sizes ns) total (a, e) =
    (rw (all_positive-All ns a) (rw ((==_iff (layout_sum ns) total).1 e) refl), e)

module _ (str : ℕ → String) (joined : List String → String) where
  -- Merging pools one after the other into the first.
  unfoldable pub merge_all : ResourcePool → List ResourcePool → Result ResourcePool
  merge_all p [] = ok p
  merge_all p (q ∷ qs) = merge_with str joined p q none >>= λ r. merge_all r qs

  -- A pool with a layout of the parts so far.
  record IsMerged (p : ResourcePool) (done : List ℕ) (r : ResourcePool) : Type 0 where
    pub layout : r.process_on_nodes ≡ done
    pub gpus : r.num_gpus ≡ layout_sum done
    pub count : r.max_colocate_count ≡ p.max_colocate_count

  layout_of-append : (xs ys : List ℕ) (g : ℕ) → 0 < length xs → layout_of (xs ++ ys) g ≡ xs ++ ys
  unfolding layout_of
  layout_of-append [] ys g h = absurd (omega arith)
  layout_of-append (x ∷ xs) ys g h = refl

  merge_with-IsMerged :
      (p r q : ResourcePool) (done : List ℕ) (n : ℕ)
      → 0 < length done
      → IsMerged p done r
      → q.process_on_nodes ≡ n ∷ []
      → q.num_gpus ≡ n
      → q.max_colocate_count ≡ p.max_colocate_count
      → (out : ResourcePool) × (merge_with str joined r q none ≡ ok out)
        × IsMerged p (done ++ n ∷ []) out
  unfolding merge_with post_init
  merge_with-IsMerged p r q done n h m l g c = (
    _,
    guard-passes value_error _ _
        ((==_iff r.max_colocate_count q.max_colocate_count).1 (m.count ∙ sym c)),
    record {
      layout =
          layout_of-append r.process_on_nodes q.process_on_nodes (r.num_gpus + q.num_gpus)
            (omega (arith, ap length m.layout, h))
          ∙ ap₂ ◌++◌ m.layout l;
      gpus = ap (λ t. r.num_gpus + t) g ∙ one_more done n r.num_gpus m.gpus;
      count = m.count;
    },
  )

  merge_all-IsMerged :
      (p r : ResourcePool) (suffix : Option String) (idx : ℕ) (done ns : List ℕ)
      → 0 < length done
      → IsMerged p done r
      → (out : ResourcePool) × (merge_all r (parts_from str joined p suffix idx ns) ≡ ok out)
        × IsMerged p (done ++ ns) out
  unfolding merge_all parts_from post_init layout_of
  merge_all-IsMerged p r suffix idx done [] h m = (
    r,
    refl,
    record {
      layout = m.layout ∙ sym (append-nil done);
      gpus = m.gpus ∙ ap layout_sum (sym (append-nil done));
      count = m.count;
    },
  )
  merge_all-IsMerged p r suffix idx done (n ∷ ns) h m =
      let (next, e, k) = merge_with-IsMerged p r _ done n h m refl refl refl in
      let (out, f, k') =
        merge_all-IsMerged p next suffix (suc idx) (done ++ n ∷ []) ns
          (omega (arith, length-append done (n ∷ []))) k in
      (
        out,
        ap (λ t. t >>= λ u. merge_all u (parts_from str joined p suffix (suc idx) ns)) e ∙ f,
        record {
          layout = k'.layout ∙ append_assoc done (n ∷ []) ns;
          gpus = k'.gpus ∙ ap layout_sum (append_assoc done (n ∷ []) ns);
          count = k'.count;
        },
      )

  parts_merge :
      (p : ResourcePool) (suffix : Option String) (ns : List ℕ)
      → 0 < layout_sum ns
      → (q : ResourcePool) × (qs : List ResourcePool) × (r : ResourcePool) × (parts_from str joined
            p suffix 0 ns
          ≡ q ∷ qs)
        × (merge_all q qs ≡ ok r)
        × IsMerged p ns r
  unfolding layout_sum parts_from post_init layout_of
  parts_merge p suffix [] pos = absurd (omega arith)
  parts_merge p suffix (n ∷ ns) pos =
      let (r, e, m) =
        merge_all-IsMerged p _ suffix 1 (n ∷ []) ns (omega arith)
          (record { layout = refl; gpus = omega arith; count = refl }) in
      (_, _, r, refl, e, m)

  -- A pool with workers can be split when the size is positive and divides the number of its
  -- workers, or when the sizes are positive and have that number as their sum. Merging the parts,
  -- one after the other in their order, then succeeds, and gives a pool whose layout is the sizes
  -- of the parts and which has as many workers, and as many accelerators, as the pool had workers.
  pub split-merge_all :
      (p : ResourcePool) (s : SplitSize) (suffix : Option String)
      → IsSplit s (world_size p)
      → 0 < world_size p
      → (q : ResourcePool) × (qs : List ResourcePool) × (r : ResourcePool) × (split str joined p s
            suffix
          ≡ ok (q ∷ qs))
        × (merge_all q qs ≡ ok r)
        × (r.process_on_nodes ≡ part_sizes s (world_size p))
        × (world_size r ≡ world_size p)
        × (r.num_gpus ≡ world_size p)
  unfolding split world_size
  split-merge_all p s suffix h pos =
      let (e, total) = split_list-IsSplit s (world_size p) h in
      let (q, qs, r, f, g, m) =
        parts_merge p suffix (part_sizes s (world_size p)) (subst (λ t. 0 < t) (sym total) pos) in
      (
        q,
        qs,
        r,
        ap (λ t. t >>= λ szs. ok (parts_from str joined p suffix 0 szs)) e ∙ ap ok f,
        g,
        m.layout,
        ap layout_sum m.layout ∙ total,
        m.gpus ∙ total,
      )
