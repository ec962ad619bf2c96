-- ===== src/RlTrainer/Shards/Sharded.antt =====
-- lumenrl/trainer/rl_trainer.py, `_balance_rows_across_workers`, and the split of the batch between
-- the workers: the chunk of a worker holds the rows of its bin.
use mathlib.Core.Option
use lumen_rl.Base.{
  ℕ, zero, suc, ◌*◌, ◌/◌, ◌%◌, ◌≤◌, ◌<◌, ◌≡◌, refl, sym, subst, ap, ap₂, ◌∙◌, Bool, true, false,
  List, [], ◌∷◌, ◌++◌, map, if◌then◌else◌, ltb, length, length-map, flat_map, range, slice, gather,
  traverse, dict_get, String, Option, some, none, Result, ok, ok-inj, ◌>>=◌, arith, All,
}
use lumen_rl.Base.Int.{pos}
use native.Mathlib.Nat.{mul-div_cancel_left}
use lumen_rl.Torch.{Torch, Laws}
use lumen_rl.Proto.{DataProto, batch_size}
use lumen_rl.Proto.View.{IsConsistent, column}
use lumen_rl.Proto.Join.{rows_or_nil}
use lumen_rl.Proto.Split.{bound, split}
use lumen_rl.Proto.Chunks.{chunks, rows-chunk}
use lumen_rl.Proto.RoundTrip.{split_pieces}
use lumen_rl.Balance.Partition.{IsPartition}
use lumen_rl.RlTrainer.MiniBatches.Sorted.{lengths, Sized-get}
use lumen_rl.RlTrainer.Shards.{Bin, bins_of, is_uneven, permute_rows, balance_rows_across_workers}
use lumen_rl.RlTrainer.Shards.Bins.{rows_of}
use lumen_rl.RlTrainer.Shards.Balanced.{IsBalanced, len_at, bins_of-IsBalanced}
use lumen_rl.RlTrainer.Shards.Blocks.{all_below, Even, length-Even, gather_parts, slices-Even}
use lumen_rl.RlTrainer.Shards.Reordered.{IsReordered, permute_rows-IsReordered}

mul_positive : (w per : ℕ) → 0 < w → 0 < per → 0 < w * per
mul_positive zero per h k = absurd (omega arith)
mul_positive (suc w) per h k = omega arith

-- The bounds of an even split.
bound_even : (size w per i : ℕ) → 0 < w → size ≡ w * per → bound size w i ≡ i * per
unfolding bound
bound_even size w per i h e =
    let swap : i * size ≡ w * (i * per) = grind arith in
    ap (λ n. n / w) swap ∙ mul-div_cancel_left (i * per) h

module _ {T : Torch} {X : Type 0} (L : Laws T) where
  -- A column of an evenly split batch.
  split-slices :
      (q : DataProto T X) (k : String) (w per : ℕ)
      → 0 < w
      → 0 < per
      → batch_size q ≡ w * per
      → map (λ c. rows_or_nil (column c k)) (split q w)
        ≡ map (λ j. slice (j * per) (suc j * per) (rows_or_nil (column q k))) (range w)
  unfolding chunks
  split-slices q k w per some_workers some_rows size =
      ap (map (λ c. rows_or_nil (column c k))) (
        split_pieces L q w
          (subst (λ n. 0 < n) (sym size) (mul_positive w per some_workers some_rows)))
      ∙ each (range w)
    where
      each :
          (is : List ℕ)
          → map (λ c. rows_or_nil (column c k)) (chunks L q (bound (batch_size q) w) is)
            ≡ map (λ j. slice (j * per) (suc j * per) (rows_or_nil (column q k))) is
      each [] = refl
      each (i ∷ is) =
          ap₂ ◌∷◌
            (rows-chunk L q k _ _
              ∙ ap₂ (λ a b. slice a b (rows_or_nil (column q k)))
                  (bound_even (batch_size q) w per i some_workers size)
                  (bound_even (batch_size q) w per (suc i) some_workers size))
            (each is)

  -- The chunks of a batch whose rows stand in the order of the parts.
  split-parts :
      (p q : DataProto T X) (k : String) (t : T.Tensor) (w per : ℕ) (parts : List (List ℕ))
      → 0 < w
      → 0 < per
      → length parts ≡ w
      → Even per parts
      → All (λ i. i < length (T.rows t)) (flat_map (λ b. b) parts)
      → dict_get k p.tensors ≡ some t
      → IsReordered p (flat_map (λ b. b) parts) q
      → traverse (λ b. gather (T.rows t) (map pos b)) parts
        ≡ ok (map (λ c. rows_or_nil (column c k)) (split q w))
  unfolding rows_or_nil
  split-parts p q k t w per parts some_workers some_rows count even below found r =
      let (u, found_u, g) = r.columns k t found in
      let (blocks, gathered, all, n, even') = gather_parts (T.rows t) per parts below even in
      let whole : rows_or_nil (column q k) ≡ flat_map (λ b. b) blocks =
        ap (λ o. rows_or_nil (Option.map T.rows o)) found_u ∙ ok-inj _ _ (sym g ∙ all) in
      let size : batch_size q ≡ w * per =
        r.size ∙ length-Even per parts even ∙ ap (λ m. m * per) count in
      gathered
      ∙ ap ok (
          sym (
            split-slices q k w per some_workers some_rows size
            ∙ ap₂ (λ xs m. map (λ j. slice (j * per) (suc j * per) xs) (range m)) whole
                (sym count ∙ sym n)
            ∙ slices-Even per 0 blocks [] (omega arith) even'))

rows_of-flat : (bins : List Bin) → flat_map (λ b. b.rows) bins ≡ flat_map (λ p. p) (rows_of bins)
rows_of-flat [] = refl
rows_of-flat (b ∷ bins) = ap (◌++◌ b.rows) (rows_of-flat bins)

bins_of-rows :
    (lens : List ℕ) (n w limit : ℕ)
    → length lens ≡ n
    → 0 < w
    → All (λ l. l ≤ limit) lens
    → n % w ≡ 0
    → (bins : List Bin) × (bins_of lens n w ≡ ok bins)
      × IsBalanced (len_at lens) limit (rows_of bins)
      × IsPartition n w true (rows_of bins)
bins_of-rows lens n w limit e h short =
    subst
      (λ m.
        m % w ≡ 0
        → (bins : List Bin) × (bins_of lens m w ≡ ok bins)
          × IsBalanced (len_at lens) limit (rows_of bins)
          × IsPartition m w true (rows_of bins))
      e (λ divides. bins_of-IsBalanced lens w limit h divides short)

outside : (n i : ℕ) → n ≤ i → ◌≡◌ {A = ℕ} (if ltb i n then 1 else 0) 0
outside n i large = ground arith

parts-below :
    (n w : ℕ) (parts : List (List ℕ))
    → IsPartition n w true parts
    → All (λ i. i < n) (flat_map (λ b. b) parts)
parts-below n w parts parted =
    all_below n (flat_map (λ b. b) parts) λ i large. parted.once i ∙ outside n i large

even_workers : (n w : ℕ) → 1 < w → w ≤ n → n % w ≡ 0 → is_uneven n w ≡ false
unfolding is_uneven
even_workers n w h k divides = ground arith

some_share : (n w : ℕ) → 1 < w → w ≤ n → 0 < n / w
some_share n w h k = grind arith

module _ {T : Torch} {X U : Type 0} (as_list : X → Option (List U)) (of_list : List U → X)
    (row_length : T.Row → ℕ) (L : Laws T) where
  balance_rows-run :
      (p q : DataProto T X) (w : ℕ) (mask : T.Tensor) (bins : List Bin)
      → dict_get "attention_mask" p.tensors ≡ some mask
      → is_uneven (batch_size p) w ≡ false
      → bins_of (lengths T row_length mask) (batch_size p) w ≡ ok bins
      → permute_rows as_list of_list p (flat_map (λ b. b.rows) bins) ≡ ok q
      → balance_rows_across_workers as_list of_list (lengths T row_length) p w ≡ ok q
  unfolding balance_rows_across_workers
  balance_rows-run p q w mask bins found even made permuted =
      let n = batch_size p in
      ap
        (λ o. elim o as (λ x. Result (DataProto T X)) [
          | none ↦ ok p
          | some am ↦
              if is_uneven n w
              then ok p
              else (bins_of (lengths T row_length am) n w >>= λ bs.
                  permute_rows as_list of_list p (flat_map (λ b. b.rows) bs))
        ])
        found
      ∙ ap₂
          (λ (u : Bool) r.
            if u
            then ok p
            else (r >>= λ bs. permute_rows as_list of_list p (flat_map (λ b. b.rows) bs)))
          even made
      ∙ permuted

  -- Under the tensor laws, for more than one worker and a number of rows that is not smaller and
  -- that the workers divide, let the columns of the batch agree in length, and let no row of the
  -- attention mask have more than `limit` tokens. Then the call succeeds, and the row numbers are
  -- parted into lists of equal sizes, one for each worker, in which every row stands exactly once:
  -- the chunk of a column that `split` then gives to a worker holds the rows of its list, and the
  -- numbers of tokens of any two lists differ by `limit` at most.
  pub balance_rows-Sharded :
      (p : DataProto T X) (w limit : ℕ) (mask t : T.Tensor) (k : String)
      → 1 < w
      → w ≤ batch_size p
      → batch_size p % w ≡ 0
      → dict_get "attention_mask" p.tensors ≡ some mask
      → All (λ l. l ≤ limit) (lengths T row_length mask)
      → IsConsistent p
      → dict_get k p.tensors ≡ some t
      → (q : DataProto T X) × (parts : List (List ℕ)) × (balance_rows_across_workers as_list of_list
            (lengths T row_length)
            p
            w
          ≡ ok q)
        × (traverse (λ b. gather (T.rows t) (map pos b)) parts
            ≡ ok (map (λ c. rows_or_nil (column c k)) (split q w)))
        × IsBalanced (len_at (lengths T row_length mask)) limit parts
        × IsPartition (batch_size p) w true parts
  balance_rows-Sharded p w limit mask t k workers rows divides found short whole found_t =
      let n = batch_size p in
      let lens = lengths T row_length mask in
      let size =
        Sized-get T row_length n p.tensors "attention_mask" mask whole.tensors_rows found in
      let size_t = Sized-get T row_length n p.tensors k t whole.tensors_rows found_t in
      let counted : length lens ≡ n = length-map (T.rows mask) row_length ∙ size in
      let (bins, made, balanced, parted) =
        bins_of-rows lens n w limit counted (omega arith) short divides in
      let parts = rows_of bins in
      let below = parts-below n w parts parted in
      let (q, permuted, r) =
        permute_rows-IsReordered as_list of_list row_length L p (flat_map (λ b. b.rows) bins) whole
          (omega arith) (subst (All (λ i. i < n)) (sym (rows_of-flat bins)) below) in
      (
        q,
        parts,
        balance_rows-run p q w mask bins found (even_workers n w workers rows divides) made
            permuted,
        split-parts L p q k t w (n / w) parts (omega arith) (some_share n w workers rows)
            parted.count parted.equal_sizes
            (subst (λ m. All (λ i. i < m) (flat_map (λ b. b) parts)) (sym size_t) below) found_t
            (subst (λ is. IsReordered p is q) (rows_of-flat bins) r),
        balanced,
        parted,
      )
