-- ===== src/Balance/Checked.antt =====
-- The public function: its checks pass on every partition without an empty part.
use lumen_rl.Base.{
  ℕ, zero, suc, ◌+◌, ◌/◌, ◌%◌, ◌≤◌, ◌<◌, ◌≡◌, refl, ◌∙◌, Bool, true, List, [], ◌∷◌, ok, length,
  arith, All, sum_by-append, sum_by-sort_by, length-sort_by, flat_map, if◌then◌else◌, ltb, leb,
  ◌==◌, lt→ltb, range_from, range, traverse, sort_by, map, length-map,
}
use native.Mathlib.Nat.{div-add-mod}
use lumen_rl.Balance.{all_in, covers, get_seqlen_balanced_partitions, mem, sort_part}
use lumen_rl.Balance.Partition.{count_index, IsPartition, karmarkar_karp-IsPartition}

mem-of_count : (i : ℕ) (js : List ℕ) → 0 < count_index i js → mem i js ≡ true
unfolding mem
mem-of_count i [] h = absurd (omega arith)
mem-of_count i (j ∷ js) h = ground (arith, mem-of_count i js)

all_in-of_count :
    (is js : List ℕ) → ((i : ℕ) → 0 < count_index i is → 0 < count_index i js) → all_in is js ≡ true
unfolding all_in
all_in-of_count [] js h = refl
all_in-of_count (i ∷ is) js h =
    rw (mem-of_count i js (h i (ground arith)))
      (all_in-of_count is js (λ j p. h j (omega (arith, p))))

count-range_from :
    (i j n : ℕ)
    → count_index i (range_from j n) ≡ (if ltb i j then 0 else if ltb i (j + n) then 1 else 0)
count-range_from i j zero = ground arith
count-range_from i j (suc n) = ground (arith, count-range_from i (suc j) n)

covers-IsPartition :
    (n k : ℕ) (equal : Bool) (parts : List (List ℕ))
    → IsPartition n k equal parts
    → covers n parts ≡ true
unfolding covers
covers-IsPartition n k equal parts p =
    rw
      (all_in-of_count (range n) (flat_map (λ q. q) parts)
        (λ i h. ground (arith, count-range_from i 0 n, p.once i)))
      (all_in-of_count (flat_map (λ q. q) parts) (range n)
        (λ i h. ground (arith, count-range_from i 0 n, p.once i)))

-- Each part sorted.
abbrev sorted_parts : List (List ℕ) → List (List ℕ)
sorted_parts parts = map (λ q. sort_by ltb q) parts

sort_parts :
    (m : ℕ) (parts : List (List ℕ))
    → 0 < m
    → All (λ q. length q ≡ m) parts
    → traverse sort_part parts ≡ ok (sorted_parts parts)
unfolding sort_part
sort_parts m [] h a = refl
sort_parts m (q ∷ parts) h (e, a) =
    rw (lt→ltb 0 (length q) (omega arith)) (rw (sort_parts m parts h a) refl)

count-sorted_parts :
    (i : ℕ) (parts : List (List ℕ))
    → count_index i (flat_map (λ q. q) (sorted_parts parts))
      ≡ count_index i (flat_map (λ q. q) parts)
count-sorted_parts i [] = refl
count-sorted_parts i (q ∷ parts) =
    let one = λ (j : ℕ). if j == i then (let u : ℕ = 1 in u) else 0 in
    omega (
      arith,
      sum_by-append one (sort_by ltb q) (flat_map (λ p. p) (sorted_parts parts)),
      sum_by-append one q (flat_map (λ p. p) parts),
      sum_by-sort_by one ltb q,
      count-sorted_parts i parts,
    )

sizes-sorted_parts :
    (m : ℕ) (parts : List (List ℕ))
    → All (λ q. length q ≡ m) parts
    → All (λ q. length q ≡ m) (sorted_parts parts)
sizes-sorted_parts m [] a = tt
sizes-sorted_parts m (q ∷ parts) (e, a) = (length-sort_by ltb q ∙ e, sizes-sorted_parts m parts a)

quotient-pos : (n k : ℕ) → 0 < n → 0 < k → n % k ≡ 0 → 0 < n / k
quotient-pos n k some h divides = grind (arith, div-add-mod n k)

multiple-le : (n k : ℕ) → 0 < n → 0 < k → n % k ≡ 0 → k ≤ n
multiple-le n k some h divides = grind (arith, div-add-mod n k, quotient-pos n k some h divides)

-- Where k > 0 divides the number n > 0 of lengths and equal sizes are asked for, all assertions of
-- the public function pass: it returns k parts of n / k indices each, in which each index below n
-- stands exactly once and no other index does.
pub balanced_partitions-IsPartition :
    (lens : List ℕ) (k : ℕ)
    → 0 < length lens
    → 0 < k
    → length lens % k ≡ 0
    → (out : List (List ℕ)) × (get_seqlen_balanced_partitions lens k true ≡ ok out)
      × IsPartition (length lens) k true out
unfolding get_seqlen_balanced_partitions
balanced_partitions-IsPartition lens k some h divides =
    let (parts, made, p) = karmarkar_karp-IsPartition lens k true some h (λ _. divides) in
    let least : k ≤ length lens = multiple-le (length lens) k some h divides in
    let enough : leb k (length lens) ≡ true = ground arith in
    let full : 0 < length lens / k = quotient-pos (length lens) k some h divides in
    (
      sorted_parts parts,
      rw enough (
          rw made (
            rw (sort_parts (length lens / k) parts full (p.equal_sizes))
              (rw (covers-IsPartition (length lens) k true parts p) refl))),
      record {
        count = length-map parts (λ q. sort_by ltb q) ∙ p.count;
        once = λ i. count-sorted_parts i parts ∙ p.once i;
        equal_sizes = sizes-sorted_parts (length lens / k) parts (p.equal_sizes);
      },
    )
