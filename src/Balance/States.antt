-- ===== src/Balance/States.antt =====
-- The states of the differencing method: none of their items is lost or made up.
use lumen_rl.Base.{
  ℕ, zero, suc, ◌+◌, ◌≤◌, ◌≡◌, refl, ap, Bool, true, List, [], ◌∷◌, ok, length, length-append,
  replicate, length-replicate, arith, All, sum_by, sum_by-append, sum_by-sort_by, sum_by-reverse,
  sort_by, reverse, length-sort_by, length-reverse, All-sort_by, All-reverse,
}
use lumen_rl.Balance.{
  Item, PartSet, State, add, empty_set, fill, make_state, sort_sets, zip_merge, merge_set,
  merge_state, set_lt,
}

-- A quantity summed over the items of all sets.
abbrev pub total : (Item → ℕ) → List PartSet → ℕ
total f ss = sum_by (λ s. sum_by f s.items) ss

-- Every set has `m` items.
abbrev pub HasSize : ℕ → List PartSet → Type 0
HasSize m ss = All (λ s. length s.items ≡ m) ss

-- `k` sets, and as many items in one as in another where that is asked for.
pub record IsState (k : ℕ) (equal : Bool) (s : State) : Type 0 where
  pub count : length s.sets ≡ k
  pub uniform : equal ≡ true → (m : ℕ) × HasSize m s.sets

pub record Filled (ss : List PartSet) (xs : List Item) (out : List PartSet) : Type 0 where
  pub made : fill ss xs ≡ ok out
  pub count : length out ≡ length ss
  pub totals : (f : Item → ℕ) → total f out ≡ total f ss + sum_by f xs
  pub sizes : (m : ℕ) → length xs ≡ length ss → HasSize m ss → HasSize (suc m) out

fill-Filled :
    (ss : List PartSet) (xs : List Item)
    → length xs ≤ length ss
    → (out : List PartSet) × Filled ss xs out
unfolding fill add
fill-Filled [] [] h =
    ([], record { made = refl; count = refl; totals = λ f. refl; sizes = λ m e a. tt })
fill-Filled (s ∷ ss) [] h = (
  s ∷ ss,
  record {
    made = refl;
    count = refl;
    totals = λ f. omega arith;
    sizes = λ m e a. absurd (omega arith);
  },
)
fill-Filled [] (x ∷ xs) h = absurd (omega arith)
fill-Filled (s ∷ ss) (x ∷ xs) h =
    let (out, c) = fill-Filled ss xs (omega arith) in
    (
      add x s ∷ out,
      record {
        made = rw c.made refl;
        count = ap suc c.count;
        totals = λ f. omega (arith, c.totals f, sum_by-append f s.items (x ∷ []));
        sizes = λ m e a.
            (omega (arith, length-append s.items (x ∷ []), a.0), c.sizes m (omega arith) a.1);
      },
    )

total-empty : (f : Item → ℕ) (k : ℕ) → total f (replicate k empty_set) ≡ 0
unfolding empty_set
total-empty f zero = refl
total-empty f (suc k) = omega (arith, total-empty f k)

empty-HasSize : (k : ℕ) → HasSize 0 (replicate k empty_set)
unfolding empty_set
empty-HasSize zero = tt
empty-HasSize (suc k) = (refl, empty-HasSize k)

-- A state that was made, or merged.
pub record Made (k : ℕ) (equal : Bool) (weight : (Item → ℕ) → ℕ) (s : State) : Type 0 where
  pub state : IsState k equal s
  pub totals : (f : Item → ℕ) → total f s.sets ≡ weight f

pub make_state-Made :
    (equal : Bool) (xs : List Item) (k : ℕ)
    → length xs ≤ k
    → (equal ≡ true → length xs ≡ k)
    → (s : State) × (make_state xs k ≡ ok s) × Made k equal (λ f. sum_by f xs) s
unfolding make_state sort_sets
make_state-Made equal xs k h full =
    let n : length (replicate k empty_set) ≡ k = length-replicate k empty_set in
    let (out, c) = fill-Filled (replicate k empty_set) xs (omega arith) in
    (
      record { k = k; sets = sort_by (λ y x. set_lt x y) out },
      rw c.made refl,
      record {
        state = record {
          count = omega (arith, length-sort_by (λ y x. set_lt x y) out, c.count);
          uniform = λ e. (
            1,
            All-sort_by (λ s. length s.items ≡ 1) (λ y x. set_lt x y) out
                (c.sizes 0 (omega (arith, full e)) (empty-HasSize k)),
          );
        };
        totals = λ f. omega (
          arith,
          sum_by-sort_by (λ s. sum_by f s.items) (λ y x. set_lt x y) out,
          c.totals f,
          total-empty f k,
        );
      },
    )

length-zip_merge : (ss ts : List PartSet) → length (zip_merge ss ts) ≡ length ss
unfolding zip_merge
length-zip_merge [] ts = refl
length-zip_merge (s ∷ ss) [] = refl
length-zip_merge (s ∷ ss) (t ∷ ts) = ap suc (length-zip_merge ss ts)

total-zip_merge :
    (f : Item → ℕ) (ss ts : List PartSet)
    → length ts ≡ length ss
    → total f (zip_merge ss ts) ≡ total f ss + total f ts
unfolding zip_merge merge_set
total-zip_merge f [] [] h = refl
total-zip_merge f [] (t ∷ ts) h = absurd (omega arith)
total-zip_merge f (s ∷ ss) [] h = absurd (omega arith)
total-zip_merge f (s ∷ ss) (t ∷ ts) h =
    omega (arith, sum_by-append f s.items t.items, total-zip_merge f ss ts (omega arith))

zip_merge-HasSize :
    (m n : ℕ) (ss ts : List PartSet)
    → length ts ≡ length ss
    → HasSize m ss
    → HasSize n ts
    → HasSize (m + n) (zip_merge ss ts)
unfolding zip_merge merge_set
zip_merge-HasSize m n [] ts h a b = tt
zip_merge-HasSize m n (s ∷ ss) [] h a b = absurd (omega arith)
zip_merge-HasSize m n (s ∷ ss) (t ∷ ts) h (p, a) (q, b) =
    (omega (arith, length-append s.items t.items), zip_merge-HasSize m n ss ts (omega arith) a b)

pub merge_state-Made :
    (k : ℕ) (equal : Bool) (s t : State)
    → IsState k equal s
    → IsState k equal t
    → Made k equal (λ f. total f s.sets + total f t.sets) (merge_state s t)
unfolding merge_state sort_sets
merge_state-Made k equal s t a b =
    let n : length (reverse t.sets) ≡ length s.sets =
      omega (arith, length-reverse t.sets, a.count, b.count) in
    let both = zip_merge s.sets (reverse t.sets) in
    record {
      state = record {
        count = omega (
          arith,
          length-sort_by (λ y x. set_lt x y) both,
          length-zip_merge s.sets (reverse t.sets),
          a.count,
        );
        uniform = λ e.
            let (i, p) = a.uniform e in
            let (j, q) = b.uniform e in
            (
              i + j,
              All-sort_by (λ s. length s.items ≡ i + j) (λ y x. set_lt x y) both
                  (zip_merge-HasSize i j s.sets (reverse t.sets) n p
                    (All-reverse (λ s. length s.items ≡ j) t.sets q)),
            );
      };
      totals = λ f. omega (
        arith,
        sum_by-sort_by (λ s. sum_by f s.items) (λ y x. set_lt x y) both,
        total-zip_merge f s.sets (reverse t.sets) n,
        sum_by-reverse (λ s. sum_by f s.items) t.sets,
      );
    }
