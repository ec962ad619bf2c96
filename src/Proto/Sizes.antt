-- ===== src/Proto/Sizes.antt =====
-- How large the chunks of `split` are, and what `check_consistency` accepts.
use lumen_rl.Base.{
  ℕ, zero, suc, ◌+◌, ◌-◌, ◌/◌, ◌≤◌, ◌<◌, ◌≡◌, refl, ◌∙◌, ap, ◌⊎◌, ◌↔◌, inl, inr, List, [], ◌∷◌,
  String, Bool, true, false, Result, ok, map, range, range_from, length, length-map,
  length-range_from, All, arith, guard, ◌>>◌, value_error, mono_add,
}
use native.Mathlib.Nat.{zero-div}
use lumen_rl.Torch.{Torch, Laws}
use lumen_rl.Proto.{
  DataProto, bare, batch_size, size_of, all_sizes, check_columns, check_consistency,
}
use lumen_rl.Proto.Split.{chunk, bound, split, split_by}
use lumen_rl.Proto.View.{IsConsistent}
use lumen_rl.Proto.Chunks.{chunk-IsConsistent, batch_size-chunk, bound_step, bound_mono, bound_last}

module _ {T : Torch} {V : Type 0} where
  -- A chunk of a fair split into `n`: its columns agree, and it has its share of the rows.
  abbrev pub IsFairChunk : ℕ → ℕ → DataProto T V → Type 0
  IsFairChunk total n c =
      IsConsistent c × (total / n ≤ batch_size c) × (batch_size c ≤ total / n + 1)

  bare-IsFairChunk : (n : ℕ) (meta : List (String × V)) → IsFairChunk 0 n (bare meta)
  unfolding batch_size
  bare-IsFairChunk n meta =
      (record { tensors_rows = tt; ragged_rows = tt }, omega (arith, zero-div n), omega arith)

bare_chunks :
    (T : Torch) {V : Type 0} (n : ℕ) (meta : List (String × V)) (is : List ℕ)
    → All (IsFairChunk 0 n) (map (λ _. bare {T = T} meta) is)
bare_chunks T n meta [] = tt
bare_chunks T n meta (i ∷ is) = (bare-IsFairChunk n meta, bare_chunks T n meta is)

module _ {T : Torch} {V : Type 0} (L : Laws T) (p : DataProto T V) (n : ℕ) (whole : IsConsistent p)
    (some_chunks : 0 < n) where
  cut-IsFairChunk :
      (i : ℕ)
      → suc i ≤ n
      → IsFairChunk
          (batch_size p)
          n
          (chunk p (bound (batch_size p) n i) (bound (batch_size p) n (suc i)))
  cut-IsFairChunk i h =
      let size = batch_size-chunk L p (bound (batch_size p) n i) (bound (batch_size p) n (suc i)) in
      let (low, high) = bound_step (batch_size p) n some_chunks i in
      let below =
        mono_add (bound (batch_size p) n) (bound_mono (batch_size p) n some_chunks) (suc i)
          (n - suc i) in
      let e : suc i + (n - suc i) ≡ n = omega arith in
      let top = ap (bound (batch_size p) n) e ∙ bound_last (batch_size p) n some_chunks in
      (
        chunk-IsConsistent L p _ _ whole,
        omega (arith, size, low, below, top),
        omega (arith, size, high),
      )

  fair_chunks :
      (i m : ℕ)
      → i + m ≤ n
      → All (IsFairChunk (batch_size p) n) (
          map
            (λ j. chunk p (bound (batch_size p) n j) (bound (batch_size p) n (suc j)))
            (range_from i m))
  fair_chunks i zero h = tt
  fair_chunks i (suc m) h = (cut-IsFairChunk i (omega arith), fair_chunks (suc i) m (omega arith))

  split_by-fair :
      (size : ℕ)
      → size ≡ batch_size p
      → (length (split_by size p n) ≡ n) × All (IsFairChunk (batch_size p) n) (split_by size p n)
  unfolding split_by
  split_by-fair zero e =
      (length-map (range n) _ ∙ length-range_from 0 n, rw (← e) (bare_chunks T n p.meta (range n)))
  split_by-fair (suc size) e =
      (length-map (range n) _ ∙ length-range_from 0 n, rw e (fair_chunks 0 n (omega arith)))

  -- Under the tensor laws, a consistent batch of B rows is split into exactly n > 0 chunks; each
  -- is consistent, and has B / n or B / n + 1 rows, rounded down.
  pub split-fair : (length (split p n) ≡ n) × All (IsFairChunk (batch_size p) n) (split p n)
  unfolding split
  split-fair = split_by-fair (batch_size p) refl

module _ {W : Type 0} (size : W → ℕ) (n : ℕ) where
  all_sizes_iff :
      (d : List (String × W))
      → (all_sizes size n d ≡ true) ↔ All (λ (c : String × W). size c.1 ≡ n) d
  unfolding all_sizes
  all_sizes_iff [] = (λ _. tt, λ _. refl)
  all_sizes_iff ((k, w) ∷ d) = (
    λ h. (ground arith, (all_sizes_iff d).0 (ground arith)),
    λ (e, h). ground (arith, (all_sizes_iff d).1 h),
  )

guard_iff :
    (b : Bool) (m : Result (Unit {0}))
    → ((guard b value_error >> m) ≡ ok tt) ↔ ((b ≡ true) × (m ≡ ok tt))
guard_iff true m = (λ h. (refl, h), λ (_, h). h)
guard_iff false m = (λ h. absurd (cc), λ (e, _). absurd (cc))

guard_last : (b : Bool) → guard b value_error ≡ ok tt → b ≡ true
guard_last true h = refl
guard_last false h = absurd (cc)

check_columns_iff :
    (T : Torch) (V : Type 0) (ts : List (String × T.Tensor)) (rs : List (String × List V))
    → (check_columns T V ts rs ≡ ok tt) ↔ (
        (ts ≡ [])
        ⊎ (All (λ (c : String × T.Tensor). length (T.rows c.1) ≡ size_of T V ts rs) ts
            × All (λ (c : String × List V). length c.1 ≡ size_of T V ts rs) rs))
unfolding check_columns size_of
check_columns_iff T V [] rs = (λ _. inl refl, λ _. refl)
check_columns_iff T V ((k, t) ∷ ts) rs = (
  λ h.
      let (a, b) = (guard_iff _ _).0 h in
      inr ((all_sizes_iff _ _ _).0 a, (all_sizes_iff _ _ _).0 (guard_last _ b)),
  λ h. elim h [
    | inl e ↦ absurd (cc)
    | inr (a, b) ↦ (guard_iff _ _).1 (
      (all_sizes_iff _ _ ((k, t) ∷ ts)).1 a,
      ap (λ z. guard z value_error) ((all_sizes_iff _ _ rs).1 b),
    )
  ],
)

module _ {T : Torch} {V : Type 0} where
  -- The consistency check passes exactly when the batch has no tensors at all, whatever its ragged
  -- columns, or every tensor and every ragged column has as many rows as the batch.
  pub check_consistency_iff :
      (p : DataProto T V) → (check_consistency p ≡ ok tt) ↔ ((p.tensors ≡ []) ⊎ IsConsistent p)
  unfolding check_consistency batch_size
  check_consistency_iff p =
      let (sound, complete) = check_columns_iff T V p.tensors p.ragged in
      (
        λ h. elim (sound h) [
          | inl e ↦ inl e
          | inr (a, b) ↦ inr (record { tensors_rows = a; ragged_rows = b })
        ],
        λ h. elim h [
          | inl e ↦ complete (inl e)
          | inr whole ↦ complete (inr (whole.tensors_rows, whole.ragged_rows))
        ],
      )
