-- ===== src/Proto/Chunks.antt =====
-- The chunks that `split` and `mini_batches` cut: their sizes and their columns.
use mathlib.Core.Option
use lumen_rl.Base.{
  ℕ, suc, ◌+◌, ◌-◌, ◌*◌, ◌/◌, ◌≤◌, ◌<◌, min, ◌≡◌, refl, ap, ◌∙◌, sym, List, [], ◌∷◌, ◌++◌, map,
  String, Option, some, none, length, length-slice, slice, slice-nil, ap₂, map_values, dict_get,
  dict_keys, dict_get-map_values, dict_keys-map_values, All, arith, flat_map,
}
use native.Mathlib.Nat.{
  le-div_iff_mul-le, div-lt_iff_lt-mul, lt-div-mul-add, mul-div-le, mul-div_cancel_left,
}
use lumen_rl.Torch.{Torch, Laws}
use lumen_rl.Proto.{DataProto, HasRows, batch_size, size_of}
use lumen_rl.Proto.Split.{chunk, bound}
use lumen_rl.Proto.View.{column, IsConsistent}
use lumen_rl.Proto.Join.{rows_or_nil, all_rows}

module _ {T : Torch} {V : Type 0} (L : Laws T) (p : DataProto T V) where
  length-span :
      (t : T.Tensor) (a b : ℕ)
      → length (T.rows (T.span t a b)) ≡ min (b - a) (length (T.rows t) - a)
  length-span t a b = ap length (L.rows-span t a b) ∙ length-slice a b (T.rows t)

  size_of-chunk :
      (ts : List (String × T.Tensor)) (rs : List (String × List V)) (a b : ℕ)
      → size_of T V (map_values (λ t. T.span t a b) ts) (map_values (slice a b) rs)
        ≡ min (b - a) (size_of T V ts rs - a)
  unfolding size_of map_values
  size_of-chunk ((k, t) ∷ ts) rs a b = length-span t a b
  size_of-chunk [] ((k, v) ∷ rs) a b = length-slice a b v
  size_of-chunk [] [] a b = omega arith

  pub batch_size-chunk : (a b : ℕ) → batch_size (chunk p a b) ≡ min (b - a) (batch_size p - a)
  unfolding batch_size chunk
  batch_size-chunk a b = size_of-chunk p.tensors p.ragged a b

  All-span :
      (n a b : ℕ) (ts : List (String × T.Tensor))
      → All (λ (c : String × T.Tensor). length (T.rows c.1) ≡ n) ts
      → All
          (λ (c : String × T.Tensor). length (T.rows c.1) ≡ min (b - a) (n - a))
          (map_values (λ t. T.span t a b) ts)
  unfolding map_values
  All-span n a b [] h = tt
  All-span n a b ((k, t) ∷ ts) (e, h) = (rw (← e) (length-span t a b), All-span n a b ts h)

  All-slice :
      (n a b : ℕ) (rs : List (String × List V))
      → All (λ (c : String × List V). length c.1 ≡ n) rs
      → All (λ (c : String × List V). length c.1 ≡ min (b - a) (n - a)) (map_values (slice a b) rs)
  unfolding map_values
  All-slice n a b [] h = tt
  All-slice n a b ((k, v) ∷ rs) (e, h) = (rw (← e) (length-slice a b v), All-slice n a b rs h)

  pub chunk-HasRows : (n a b : ℕ) → HasRows n p → HasRows (min (b - a) (n - a)) (chunk p a b)
  unfolding chunk
  chunk-HasRows n a b h = record {
    tensors_rows = All-span n a b p.tensors h.tensors_rows;
    ragged_rows = All-slice n a b p.ragged h.ragged_rows;
  }

  pub chunk-IsConsistent : (a b : ℕ) → IsConsistent p → IsConsistent (chunk p a b)
  chunk-IsConsistent a b h = rw (batch_size-chunk a b) (chunk-HasRows (batch_size p) a b h)

  span_rows :
      (a b : ℕ) (o : Option T.Tensor)
      → rows_or_nil (Option.map T.rows (Option.map (λ t. T.span t a b) o))
        ≡ slice a b (rows_or_nil (Option.map T.rows o))
  unfolding rows_or_nil
  span_rows a b none = sym (slice-nil a b)
  span_rows a b (some t) = L.rows-span t a b

  -- A column of a chunk is a slice of the column.
  pub rows-chunk :
      (k : String) (a b : ℕ)
      → rows_or_nil (column (chunk p a b) k) ≡ slice a b (rows_or_nil (column p k))
  unfolding chunk
  rows-chunk k a b =
      rw (dict_get-map_values (λ t. T.span t a b) k p.tensors)
        (span_rows a b (dict_get k p.tensors))

  slice_rows :
      (a b : ℕ) (o : Option (List V))
      → rows_or_nil (Option.map (slice a b) o) ≡ slice a b (rows_or_nil o)
  unfolding rows_or_nil
  slice_rows a b none = sym (slice-nil a b)
  slice_rows a b (some v) = refl

  pub ragged-chunk :
      (k : String) (a b : ℕ)
      → rows_or_nil (dict_get k (chunk p a b).ragged)
        ≡ slice a b (rows_or_nil (dict_get k p.ragged))
  unfolding chunk
  ragged-chunk k a b =
      rw (dict_get-map_values (slice a b) k p.ragged) (slice_rows a b (dict_get k p.ragged))

  -- The chunks between consecutive bounds.
  unfoldable pub chunks : (ℕ → ℕ) → List ℕ → List (DataProto T V)
  chunks b is = map (λ i. chunk p (b i) (b (suc i))) is

  pub all_rows-chunks :
      (k : String) (b : ℕ → ℕ) (is : List ℕ)
      → all_rows k (chunks b is)
        ≡ flat_map (λ i. slice (b i) (b (suc i)) (rows_or_nil (column p k))) is
  unfolding chunks all_rows
  all_rows-chunks k b [] = refl
  all_rows-chunks k b (i ∷ is) = ap₂ ◌++◌ (rows-chunk k (b i) (b (suc i))) (all_rows-chunks k b is)

  pub all_ragged-chunks :
      (k : String) (b : ℕ → ℕ) (is : List ℕ)
      → flat_map (λ (q : DataProto T V). rows_or_nil (dict_get k q.ragged)) (chunks b is)
        ≡ flat_map (λ i. slice (b i) (b (suc i)) (rows_or_nil (dict_get k p.ragged))) is
  unfolding chunks
  all_ragged-chunks k b [] = refl
  all_ragged-chunks k b (i ∷ is) =
      ap₂ ◌++◌ (ragged-chunk k (b i) (b (suc i))) (all_ragged-chunks k b is)

  pub All-chunks {ℓ} :
      (P : DataProto T V → Type ℓ) (b : ℕ → ℕ) (is : List ℕ)
      → ((i : ℕ) → P (chunk p (b i) (b (suc i))))
      → All P (chunks b is)
  unfolding chunks
  All-chunks P b [] h = tt
  All-chunks P b (i ∷ is) h = (h i, All-chunks P b is h)

  -- A chunk has the columns of the whole, in the same shapes.
  pub chunk-column :
      (k : String) (t : T.Tensor) (a b : ℕ)
      → dict_get k p.tensors ≡ some t
      → (u : T.Tensor) × (dict_get k (chunk p a b).tensors ≡ some u)
        × (T.tail_shape u ≡ T.tail_shape t)
  unfolding chunk
  chunk-column k t a b e =
      (T.span t a b, rw (dict_get-map_values (λ t. T.span t a b) k p.tensors, e), L.tail-span t a b)

-- Without tensors, `dict_keys` of a chunk are those of the whole.
module _ {T : Torch} {V : Type 0} (p : DataProto T V) where
  pub keys-chunk : (a b : ℕ) → dict_keys (chunk p a b).tensors ≡ dict_keys p.tensors
  unfolding chunk
  keys-chunk a b = dict_keys-map_values (λ t. T.span t a b) p.tensors

  pub ragged_keys-chunk : (a b : ℕ) → dict_keys (chunk p a b).ragged ≡ dict_keys p.ragged
  unfolding chunk
  ragged_keys-chunk a b = dict_keys-map_values (slice a b) p.ragged

div_add : (a s n : ℕ) → 0 < n → (a / n + s / n ≤ (a + s) / n) × ((a + s) / n ≤ a / n + s / n + 1)
div_add a s n h = (
  (le-div_iff_mul-le h).1 (omega (arith, mul-div-le a n, mul-div-le s n)),
  (let h' : (a + s) / n < a / n + s / n + 2 =
        (div-lt_iff_lt-mul h).1
          (omega (arith, lt-div-mul-add {a = a} h, lt-div-mul-add {a = s} h)) in
      omega arith),
)

-- The bounds of `split` rise in steps of size / n, rounded down or up.
module _ (size n : ℕ) (positive : 0 < n) where
  pub bound_step :
      (i : ℕ)
      → (size / n ≤ bound size n (suc i) - bound size n i)
        × (bound size n (suc i) - bound size n i ≤ size / n + 1)
  unfolding bound
  bound_step i =
      let e : suc i * size ≡ i * size + size = omega arith in
      rw e (omega (arith, div_add (i * size) size n positive))

  pub bound_mono : (i : ℕ) → bound size n i ≤ bound size n (suc i)
  unfolding bound
  bound_mono i =
      let e : suc i * size ≡ i * size + size = omega arith in
      rw e (omega (arith, div_add (i * size) size n positive))

  pub bound_first : bound size n 0 ≡ 0
  unfolding bound
  bound_first = omega arith

  pub bound_last : bound size n n ≡ size
  unfolding bound
  bound_last = mul-div_cancel_left size positive
