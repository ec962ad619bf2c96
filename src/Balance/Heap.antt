-- ===== src/Balance/Heap.antt =====
-- The heap of states: the loop ends with one state, which has all items.
use lumen_rl.Base.{
  ℕ, zero, suc, ◌+◌, ◌*◌, ◌≤◌, ◌<◌, ◌≡◌, refl, ap, Bool, false, List, [], ◌∷◌, ◌++◌, ok, length,
  take, drop, take-append-drop, length-take, length-drop, arith, All, sum_by, sum_by-append,
  insert_by, sum_by-insert_by, length-insert_by, All-insert_by,
}
use lumen_rl.Balance.{Item, State, merge_state, state_lt, push, push_blocks, push_singles, combine}
use lumen_rl.Balance.States.{total, IsState, Made, make_state-Made, merge_state-Made}

module _ (k : ℕ) (equal : Bool) where
  abbrev pub total_of : (Item → ℕ) → List State → ℕ
  total_of f pq = sum_by (λ s. total f s.sets) pq

  -- States that hold the items of `pq` and those of `xs`.
  pub record Pushed (xs : List Item) (pq out : List State) : Type 0 where
    pub states : All (IsState k equal) out
    pub totals : (f : Item → ℕ) → total_of f out ≡ sum_by f xs + total_of f pq
    pub grown : length pq ≤ length out
    pub some_state : 0 < length xs → 0 < length out

  push-Pushed :
      (xs : List Item) (s : State) (pq : List State)
      → Made k equal (λ f. sum_by f xs) s
      → All (IsState k equal) pq
      → Pushed xs pq (push s pq)
  unfolding push
  push-Pushed xs s pq c a = record {
    states = All-insert_by (IsState k equal) state_lt s pq c.state a;
    totals = λ f. omega (arith, sum_by-insert_by (λ t. total f t.sets) state_lt s pq, c.totals f);
    grown = omega (arith, length-insert_by state_lt s pq);
    some_state = λ h. omega (arith, length-insert_by state_lt s pq);
  }

  Pushed-trans :
      (xs ys zs : List Item) {pq mid out : List State}
      → xs ++ ys ≡ zs
      → Pushed xs pq mid
      → Pushed ys mid out
      → 0 < length mid
      → Pushed zs pq out
  Pushed-trans xs ys zs whole a b h = record {
    states = b.states;
    totals = λ f. omega (arith, a.totals f, b.totals f, sum_by-append f xs ys, ap (sum_by f) whole);
    grown = omega (arith, a.grown, b.grown);
    some_state = λ e. omega (arith, b.grown);
  }

  pub push_blocks-Pushed :
      (rounds : ℕ) (xs : List Item) (pq : List State)
      → 0 < k
      → length xs ≡ rounds * k
      → All (IsState k equal) pq
      → (out : List State) × (push_blocks rounds k xs pq ≡ ok out) × Pushed xs pq out
  unfolding push_blocks
  push_blocks-Pushed zero [] pq h e a = (
    pq,
    refl,
    record {
      states = a;
      totals = λ f. omega arith;
      grown = omega arith;
      some_state = λ i. absurd (omega arith);
    },
  )
  push_blocks-Pushed zero (x ∷ xs) pq h e a = absurd (omega arith)
  push_blocks-Pushed (suc rounds) xs pq h e a =
      let len : length (take k xs) ≡ k = omega (arith, length-take k xs) in
      let (s, made, c) = make_state-Made equal (take k xs) k (omega arith) (λ _. len) in
      let p = push-Pushed (take k xs) s pq c a in
      let (out, done, q) =
        push_blocks-Pushed rounds (drop k xs) (push s pq) h (omega (arith, length-drop k xs))
          p.states in
      (
        out,
        rw made done,
        Pushed-trans (take k xs) (drop k xs) xs (take-append-drop k xs) p q
            (p.some_state (omega arith)),
      )

  pub push_singles-Pushed :
      (xs : List Item) (pq : List State)
      → 0 < k
      → equal ≡ false
      → All (IsState k equal) pq
      → (out : List State) × (push_singles k xs pq ≡ ok out) × Pushed xs pq out
  unfolding push_singles
  push_singles-Pushed [] pq h e a = (
    pq,
    refl,
    record {
      states = a;
      totals = λ f. omega arith;
      grown = omega arith;
      some_state = λ i. absurd (omega arith);
    },
  )
  push_singles-Pushed (x ∷ xs) pq h e a =
      let (s, made, c) = make_state-Made equal (x ∷ []) k (omega arith) (λ i. absurd (cc)) in
      let p = push-Pushed (x ∷ []) s pq c a in
      let (out, done, q) = push_singles-Pushed xs (push s pq) h e p.states in
      (out, rw made done, Pushed-trans (x ∷ []) xs (x ∷ xs) refl p q (p.some_state (omega arith)))

  -- With one round less than there are states, one is left.
  pub combine-one :
      (rounds : ℕ) (pq : List State)
      → 0 < length pq
      → length pq ≤ suc rounds
      → All (IsState k equal) pq
      → (s : State) × (combine rounds pq ≡ s ∷ []) × Made k equal (λ f. total_of f pq) s
  unfolding combine push
  combine-one rounds [] h l a = absurd (omega arith)
  combine-one zero (s ∷ []) h l (a, b) = (s, refl, record { state = a; totals = λ f. omega arith })
  combine-one (suc rounds) (s ∷ []) h l (a, b) =
      (s, refl, record { state = a; totals = λ f. omega arith })
  combine-one zero (s ∷ t ∷ pq) h l a = absurd (omega arith)
  combine-one (suc rounds) (s ∷ t ∷ pq) h l (a, (b, c)) =
      let m = merge_state-Made k equal s t a b in
      let n = length-insert_by state_lt (merge_state s t) pq in
      let (u, e, d) =
        combine-one rounds (insert_by state_lt (merge_state s t) pq) (omega arith) (omega arith)
          (All-insert_by (IsState k equal) state_lt (merge_state s t) pq m.state c) in
      (
        u,
        e,
        record {
          state = d.state;
          totals = λ f. omega (
            arith,
            d.totals f,
            m.totals f,
            sum_by-insert_by (λ t. total f t.sets) state_lt (merge_state s t) pq,
          );
        },
      )
