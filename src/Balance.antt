-- ===== src/Balance.antt =====
-- lumenrl/utils/seqlen_balancing.py: sequences divided among workers by the differencing method.
-- Lengths and the number of partitions are not negative. The heap is a list in the order of
-- `_State.__lt__`, whose first state is popped.
pub mod States
pub mod Heap
pub mod Partition
pub mod Checked
use lumen_rl.Base.{
  ℕ, zero, suc, ◌+◌, ◌-◌, ◌/◌, ◌%◌, Bool, true, false, ◌&&◌, not, List, [], ◌∷◌, ◌++◌, map, ltb,
  leb, ◌==◌, if◌then◌else◌, length, replicate, take, drop, range, flat_map, Result, ok, err, ◌>>=◌,
  ◌>>◌, guard, traverse, assertion_error, index_error, zero_division_error, sort_by, insert_by,
  reverse,
}

-- A sequence: its index and its length.
abbrev pub Item : Type 0
Item = ℕ × ℕ

-- `_Set`.
pub record PartSet : Type 0 where
  pub sum : ℕ
  pub items : List Item

-- `_State`.
pub record State : Type 0 where
  pub k : ℕ
  pub sets : List PartSet

-- The order of pairs.
unfoldable pub pair_lt : Item → Item → Bool
pair_lt (a, b) (c, d) = if a == c then ltb b d else ltb a c

unfoldable pub items_lt : List Item → List Item → Bool
unfolding pair_lt
items_lt xs [] = false
items_lt [] (y ∷ ys) = true
items_lt ((a, b) ∷ xs) ((c, d) ∷ ys) = elim ((a == c) && (b == d)) [
  | true ↦ items_lt xs ys
  | false ↦ pair_lt (a, b) (c, d)
]

unfoldable pub empty_set : PartSet
empty_set = record { sum = 0; items = [] }

-- `_Set.add`.
unfoldable pub add : Item → PartSet → PartSet
add (i, v) s = record { sum = s.sum + v; items = s.items ++ (i, v) ∷ [] }

-- `_Set.merge`.
unfoldable pub merge_set : PartSet → PartSet → PartSet
merge_set s o = record { sum = s.sum + o.sum; items = s.items ++ o.items }

-- `_Set.__lt__`.
unfoldable pub set_lt : PartSet → PartSet → Bool
unfolding items_lt
set_lt a b =
    if a.sum == b.sum
    then if length a.items == length b.items
      then items_lt a.items b.items
      else ltb (length a.items) (length b.items)
    else ltb a.sum b.sum

-- `sets.sort(reverse=True)`, which is stable as well.
unfoldable pub sort_sets : List PartSet → List PartSet
sort_sets ss = sort_by (λ y x. set_lt x y) ss

-- `for i, (idx, v) in enumerate(items): self.sets[i].add(idx, v)`.
unfoldable pub fill : List PartSet → List Item → Result (List PartSet)
unfolding add
fill ss [] = ok ss
fill [] (x ∷ xs) = err index_error
fill (s ∷ ss) (x ∷ xs) = do rest ← fill ss xs; ok (add x s ∷ rest)

-- `_State(items, k)`.
unfoldable pub make_state : List Item → ℕ → Result State
unfolding fill sort_sets empty_set
make_state items k = do
  sets ← fill (replicate k empty_set) items
  ok (record { k = k; sets = sort_sets sets })

-- `self.sets[-1].sum`; no state without sets is ever made.
unfoldable pub last_sum : List PartSet → ℕ
last_sum [] = 0
last_sum (s ∷ []) = s.sum
last_sum (s ∷ t ∷ ss) = last_sum (t ∷ ss)

-- `spread`; the sets are sorted, the first has the greatest sum.
unfoldable pub spread : List PartSet → ℕ
unfolding last_sum
spread [] = 0
spread (s ∷ ss) = s.sum - last_sum (s ∷ ss)

unfoldable pub first_lt : List PartSet → List PartSet → Bool
first_lt (s ∷ ss) (t ∷ ts) = set_lt s t
first_lt _ _ = false

-- `_State.__lt__`.
unfoldable pub state_lt : State → State → Bool
unfolding spread first_lt
state_lt a b =
    if spread a.sets == spread b.sets
    then first_lt b.sets a.sets
    else ltb (spread b.sets) (spread a.sets)

unfoldable pub zip_merge : List PartSet → List PartSet → List PartSet
unfolding merge_set
zip_merge (s ∷ ss) (t ∷ ts) = merge_set s t ∷ zip_merge ss ts
zip_merge ss ts = ss

-- `_State.merge`: the largest set of one state joins the smallest of the other.
unfoldable pub merge_state : State → State → State
unfolding zip_merge sort_sets
merge_state s o = record { k = s.k; sets = sort_sets (zip_merge s.sets (reverse o.sets)) }

-- `_State.partitions`.
unfoldable pub partitions : State → List (List ℕ)
partitions s = map (λ t. map (λ x. x.0) t.items) s.sets

-- `heapq.heappush`.
unfoldable pub push : State → List State → List State
push s pq = insert_by state_lt s pq

-- `(v, i)` for the lengths, numbered from `i`.
unfoldable pub enumerate_from : ℕ → List ℕ → List (ℕ × ℕ)
enumerate_from i [] = []
enumerate_from i (v ∷ vs) = (v, i) ∷ enumerate_from (suc i) vs

-- `sorted_sl`, each pair turned into an item.
unfoldable pub sorted_items : List ℕ → List Item
unfolding enumerate_from
sorted_items lens = map (λ p. (p.1, p.0)) (sort_by pair_lt (enumerate_from 0 lens))

unfoldable pub push_blocks : ℕ → ℕ → List Item → List State → Result (List State)
push_blocks zero k xs pq = ok pq
push_blocks (suc rounds) k xs pq = do
  s ← make_state (take k xs) k
  push_blocks rounds k (drop k xs) (push s pq)

unfoldable pub push_singles : ℕ → List Item → List State → Result (List State)
push_singles k [] pq = ok pq
push_singles k (x ∷ xs) pq = do s ← make_state (x ∷ []) k; push_singles k xs (push s pq)

-- The heap before the loop.
unfoldable pub push_all : List Item → ℕ → Bool → Result (List State)
push_all xs k false = push_singles k xs []
push_all xs zero true = err zero_division_error
push_all xs (suc k) true =
    guard (length xs % suc k == 0) assertion_error >> push_blocks (length xs / suc k) (suc k) xs []

-- `while len(pq) > 1`, in as many rounds as are allowed.
unfoldable pub combine : ℕ → List State → List State
combine zero pq = pq
combine (suc rounds) (s ∷ t ∷ pq) = combine rounds (push (merge_state s t) pq)
combine (suc rounds) pq = pq

unfoldable pub first_partitions : List State → Result (List (List ℕ))
first_partitions [] = err index_error
first_partitions (s ∷ pq) = ok (partitions s)

-- Each round takes one state from the heap, so that its length is enough rounds.
unfoldable pub karmarkar_karp : List ℕ → ℕ → Bool → Result (List (List ℕ))
unfolding combine first_partitions
karmarkar_karp lens k equal_size = do
  pq ← push_all (sorted_items lens) k equal_size
  first_partitions (combine (length pq) pq)

unfoldable pub mem : ℕ → List ℕ → Bool
mem i [] = false
mem i (j ∷ js) = elim (i == j) [ true ↦ true | false ↦ mem i js ]

unfoldable pub all_in : List ℕ → List ℕ → Bool
unfolding mem
all_in [] js = true
all_in (i ∷ is) js = mem i js && all_in is js

-- `seen == set(range(len(seqlen_list)))`.
unfoldable pub covers : ℕ → List (List ℕ) → Bool
unfolding all_in
covers n parts =
    all_in (range n) (flat_map (λ p. p) parts) && all_in (flat_map (λ p. p) parts) (range n)

unfoldable pub sort_part : List ℕ → Result (List ℕ)
sort_part p = guard (ltb 0 (length p)) assertion_error >> ok (sort_by ltb p)

unfoldable pub get_seqlen_balanced_partitions : List ℕ → ℕ → Bool → Result (List (List ℕ))
unfolding sort_part covers
get_seqlen_balanced_partitions lens k equal_size = do
  guard (leb k (length lens)) assertion_error
  parts ← karmarkar_karp lens k equal_size
  out ← traverse sort_part parts
  guard (covers (length lens) parts) assertion_error
  ok out
