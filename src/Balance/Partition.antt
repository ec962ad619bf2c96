-- ===== src/Balance/Partition.antt =====
-- What the differencing method returns: a partition of the indices, of equal sizes if asked for.
use lumen_rl.Base.{
  ℕ, zero, suc, ◌+◌, ◌*◌, ◌/◌, ◌%◌, ◌<◌, ◌≡◌, refl, ap, ◌∙◌, Bool, true, false, List, [], ◌∷◌, ok,
  length, arith, All, sum_by, sum_by-append, sum_by-sort_by, sum_by-map, map, flat_map,
  if◌then◌else◌, ltb, ◌==◌, ==_iff, length-map, sort_by, length-sort_by,
}
use native.Mathlib.Nat.{div-add-mod}
use lumen_rl.Balance.{
  Item, PartSet, State, enumerate_from, first_partitions, karmarkar_karp, pair_lt, partitions,
  push_all, sorted_items,
}
use lumen_rl.Balance.States.{total, HasSize, Made}
use lumen_rl.Balance.Heap.{Pushed, combine-one, push_blocks-Pushed, push_singles-Pushed}

-- How often an index stands in a list.
abbrev pub count_index : ℕ → List ℕ → ℕ
count_index i js = sum_by (λ j. if j == i then 1 else 0) js

abbrev is_index : ℕ → Item → ℕ
is_index i x = if x.0 == i then 1 else 0

abbrev pub EqualSizes : Bool → ℕ → List (List ℕ) → Type 0
EqualSizes true m parts = All (λ p. length p ≡ m) parts
EqualSizes false m parts = Unit

EqualSizes-intro :
    (equal : Bool) (m : ℕ) (parts : List (List ℕ))
    → (equal ≡ true → All (λ p. length p ≡ m) parts)
    → EqualSizes equal m parts
EqualSizes-intro true m parts h = h refl
EqualSizes-intro false m parts h = tt

-- `k` parts, in which each index below `n` stands once and no other.
pub record IsPartition (n k : ℕ) (equal : Bool) (parts : List (List ℕ)) : Type 0 where
  pub count : length parts ≡ k
  pub once : (i : ℕ) → count_index i (flat_map (λ p. p) parts) ≡ (if ltb i n then 1 else 0)
  pub equal_sizes : EqualSizes equal (n / k) parts

abbrev item_of : ℕ × ℕ → Item
item_of p = (p.1, p.0)

pub count-enumerate :
    (lens : List ℕ) (j i : ℕ)
    → sum_by (λ p. if p.1 == i then 1 else 0) (enumerate_from j lens)
      ≡ (if ltb i j then 0 else if ltb i (j + length lens) then 1 else 0)
unfolding enumerate_from
count-enumerate [] j i = ground arith
count-enumerate (v ∷ vs) j i = ground (arith, count-enumerate vs (suc j) i)

pub length-enumerate : (lens : List ℕ) (j : ℕ) → length (enumerate_from j lens) ≡ length lens
unfolding enumerate_from
length-enumerate [] j = refl
length-enumerate (v ∷ vs) j = ap suc (length-enumerate vs (suc j))

length-sorted_items : (lens : List ℕ) → length (sorted_items lens) ≡ length lens
unfolding sorted_items
length-sorted_items lens = omega (
  arith,
  length-map (sort_by pair_lt (enumerate_from 0 lens)) item_of,
  length-sort_by pair_lt (enumerate_from 0 lens),
  length-enumerate lens 0,
)

count-sorted_items :
    (lens : List ℕ) (i : ℕ)
    → sum_by (is_index i) (sorted_items lens) ≡ (if ltb i (length lens) then 1 else 0)
unfolding sorted_items
count-sorted_items lens i = ground (
  arith,
  sum_by-map (is_index i) item_of (sort_by pair_lt (enumerate_from 0 lens)),
  sum_by-sort_by (λ p. if p.1 == i then 1 else 0) pair_lt (enumerate_from 0 lens),
  count-enumerate lens 0 i,
)

count-items : (i : ℕ) (xs : List Item) → count_index i (map (λ x. x.0) xs) ≡ sum_by (is_index i) xs
count-items i [] = refl
count-items i (x ∷ xs) = omega (arith, count-items i xs)

count-sets :
    (i : ℕ) (ss : List PartSet)
    → count_index i (flat_map (λ p. p) (map (λ t. map (λ x. x.0) t.items) ss))
      ≡ total (is_index i) ss
count-sets i [] = refl
count-sets i (s ∷ ss) = omega (
  arith,
  sum_by-append (λ j. if j == i then 1 else 0) (map (λ x. x.0) s.items)
      (flat_map (λ p. p) (map (λ t. map (λ x. x.0) t.items) ss)),
  count-items i s.items,
  count-sets i ss,
)

sum_by-one : (xs : List Item) → sum_by (λ x. 1) xs ≡ length xs
sum_by-one [] = refl
sum_by-one (x ∷ xs) = omega (arith, sum_by-one xs)

total-HasSize : (m : ℕ) (ss : List PartSet) → HasSize m ss → total (λ x. 1) ss ≡ length ss * m
total-HasSize m [] h = omega arith
total-HasSize m (s ∷ ss) (e, h) = omega (arith, sum_by-one s.items, total-HasSize m ss h)

parts-HasSize :
    (m j : ℕ) (ss : List PartSet)
    → m ≡ j
    → HasSize m ss
    → All (λ p. length p ≡ j) (map (λ t. map (λ x. x.0) t.items) ss)
parts-HasSize m j [] e h = tt
parts-HasSize m j (s ∷ ss) e (d, h) =
    (omega (arith, length-map s.items (λ x. x.0)), parts-HasSize m j ss e h)

mul-div : (n k m : ℕ) → n ≡ k * m → 0 < k → m ≡ n / k
mul-div n k m e h = grind arith

-- The heap before the loop, in both modes.
push_all-Pushed :
    (equal : Bool) (k : ℕ) (xs : List Item)
    → 0 < k
    → (equal ≡ true → length xs % k ≡ 0)
    → (pq : List State) × (push_all xs k equal ≡ ok pq) × Pushed k equal xs [] pq
unfolding push_all
push_all-Pushed false k xs h divides = push_singles-Pushed k false xs [] h refl tt
push_all-Pushed true zero xs h divides = absurd (omega arith)
push_all-Pushed true (suc k) xs h divides =
    let whole : (length xs % suc k == 0) ≡ true = (==_iff (length xs % suc k) 0).1 (divides refl) in
    let blocks : length xs ≡ (length xs / suc k) * suc k =
      omega (arith, div-add-mod (length xs) (suc k), divides refl) in
    let (pq, made, p) = push_blocks-Pushed (suc k) true (length xs / suc k) xs [] h blocks tt in
    (pq, rw whole made, p)

module _ (k : ℕ) (equal : Bool) where
  state-IsPartition :
      (lens : List ℕ) (s : State)
      → 0 < k
      → Made k equal (λ f. sum_by f (sorted_items lens)) s
      → IsPartition (length lens) k equal (partitions s)
  unfolding partitions
  state-IsPartition lens s h m = record {
    count = omega (arith, length-map s.sets (λ t. map (λ x. x.0) t.items), m.state.count);
    once = λ i. count-sets i s.sets ∙ m.totals (is_index i) ∙ count-sorted_items lens i;
    equal_sizes = EqualSizes-intro equal (length lens / k) (partitions s) λ e.
        let (j, sizes) = m.state.uniform e in
        let all : length lens ≡ k * j = omega (
          arith,
          total-HasSize j s.sets sizes,
          m.totals (λ x. 1),
          sum_by-one (sorted_items lens),
          length-sorted_items lens,
          ap (λ (t : ℕ). t * j) m.state.count,
        ) in
        parts-HasSize j (length lens / k) s.sets (mul-div (length lens) k j all h) sizes;
  }

-- For n > 0 lengths and k > 0 parts, where k divides n if equal sizes are asked for, the
-- differencing method succeeds: it returns k parts in which each index below n stands exactly once
-- and no other index does, of n / k indices each if equal sizes are asked for.
pub karmarkar_karp-IsPartition :
    (lens : List ℕ) (k : ℕ) (equal : Bool)
    → 0 < length lens
    → 0 < k
    → (equal ≡ true → length lens % k ≡ 0)
    → (parts : List (List ℕ)) × (karmarkar_karp lens k equal ≡ ok parts)
      × IsPartition (length lens) k equal parts
unfolding karmarkar_karp first_partitions
karmarkar_karp-IsPartition lens k equal some h divides =
    let items = sorted_items lens in
    let n : length items ≡ length lens = length-sorted_items lens in
    let (pq, pushed, p) = push_all-Pushed equal k items h (λ e. ap (λ m. m % k) n ∙ divides e) in
    let (s, last, m) =
      combine-one k equal (length pq) pq (p.some_state (omega arith)) (omega arith) p.states in
    let made : Made k equal (λ f. sum_by f items) s = record {
      state = m.state;
      totals = λ f. omega (arith, m.totals f, p.totals f);
    } in
    (partitions s, rw pushed (rw last refl), state-IsPartition k equal lens s h made)
