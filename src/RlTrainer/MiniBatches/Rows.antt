-- ===== src/RlTrainer/MiniBatches/Rows.antt =====
-- lumenrl/trainer/rl_trainer.py: the rows and the tokens of the mini-batches of
-- `_dynamic_mini_batches`.
use lumen_rl.Base.{
  ℕ, zero, suc, ◌-◌, ◌≤◌, ◌<◌, ◌≡◌, refl, sym, subst, ap, ap₂, ◌∙◌, true, List, [], ◌∷◌, ◌++◌, map,
  leb, length, length-map, length-slice, take, take-all, drop, slice, slice-all, gather,
  traverse_values, dict_get, dict_get-map_values, String, some, none, ok, arith, ◌⊎◌, inl, inr, All,
  flat_map,
}
use mathlib.Core.Option
use lumen_rl.Base.Int.{pos}
use lumen_rl.Torch.{Torch, Laws}
use lumen_rl.Proto.{DataProto, batch_size}
use lumen_rl.RlTrainer.MiniBatches.{cut_sorted, dynamic_mini_batches, sorted_chunk, segments}
use lumen_rl.RlTrainer.MiniBatches.Segments.{
  Tiles, InLimit, sum, segments-Tiles, flat_map-Tiles, Tiles-le,
}
use lumen_rl.RlTrainer.MiniBatches.Sorted.{IsArgsort, lengths, Sized, sort_tensors, Sized-get}

leb_refl : (n : ℕ) → leb n n ≡ true
leb_refl n = ground arith

slice-map :
    {A B : Type 0} (f : A → B) (a b : ℕ) (xs : List A) → slice a b (map f xs) ≡ map f (slice a b xs)
unfolding slice
slice-map f a b xs = ap (take (b - a)) (drop-map f a xs) ∙ take-map f (b - a) (drop a xs)
  where
    drop-map :
        {A B : Type 0} (f : A → B) (n : ℕ) (xs : List A) → drop n (map f xs) ≡ map f (drop n xs)
    drop-map f zero [] = refl
    drop-map f zero (x ∷ xs) = refl
    drop-map f (suc n) [] = refl
    drop-map f (suc n) (x ∷ xs) = drop-map f n xs

    take-map :
        {A B : Type 0} (f : A → B) (n : ℕ) (xs : List A) → take n (map f xs) ≡ map f (take n xs)
    take-map f zero [] = refl
    take-map f zero (x ∷ xs) = refl
    take-map f (suc n) [] = refl
    take-map f (suc n) (x ∷ xs) = ap (◌∷◌ (f x)) (take-map f n xs)

flat_map-same :
    {S B R : Type 0} (f : S → B) (g : B → List R) (h : S → List R)
    → ((s : S) → g (f s) ≡ h s)
    → (ss : List S) → flat_map g (map f ss) ≡ flat_map h ss
flat_map-same f g h same [] = refl
flat_map-same f g h same (s ∷ ss) = ap₂ ◌++◌ (same s) (flat_map-same f g h same ss)

module _ {T : Torch} {V : Type 0} where
  -- The rows of a column of a mini-batch.
  abbrev pub rows_at : String → DataProto T V → List T.Row
  rows_at k b = elim (dict_get k b.tensors) [ none ↦ [] | some t ↦ T.rows t ]

  rows_at-sorted_chunk :
      (L : Laws T) (us : List (String × T.Tensor)) (meta : List (String × V)) (k : String)
      → (u : T.Tensor) (s : ℕ × ℕ) → dict_get k us ≡ some u
      → rows_at k (sorted_chunk us meta s) ≡ slice s.0 s.1 (T.rows u)
  unfolding sorted_chunk
  rows_at-sorted_chunk L us meta k u (a, b) e =
      ap (λ o. elim o as (λ x. List T.Row) [ none ↦ [] | some t ↦ T.rows t ])
        (dict_get-map_values (λ t. T.span t a b) k us ∙ ap (Option.map (λ t. T.span t a b)) e)
      ∙ L.rows-span u a b

  module _ (row_length : T.Row → ℕ) where
    abbrev pub tokens : DataProto T V → List ℕ
    tokens b = map row_length (rows_at "attention_mask" b)

    -- A row at least, and no more tokens than the limit unless it is a single row.
    abbrev pub IsMiniBatch : ℕ → DataProto T V → Type 0
    IsMiniBatch limit b =
        (0 < length (tokens b)) × ((sum (tokens b) ≤ limit) ⊎ (length (tokens b) ≡ 1))

    chunks-IsMiniBatch :
        (L : Laws T) (us : List (String × T.Tensor)) (meta : List (String × V)) (u : T.Tensor)
        → dict_get "attention_mask" us ≡ some u
        → (limit a n : ℕ) → n ≡ length (T.rows u)
        → (segs : List (ℕ × ℕ)) → Tiles a n segs
        → All (InLimit limit (lengths T row_length u)) segs
        → All (IsMiniBatch limit) (map (sorted_chunk us meta) segs)
    chunks-IsMiniBatch L us meta u e limit a n size [] t c = tt
    chunks-IsMiniBatch L us meta u e limit a n size ((b, d) ∷ segs) (e', lt, t) (c, cs) =
        let held : tokens (sorted_chunk us meta (b, d)) ≡ slice b d (lengths T row_length u) =
          ap (map row_length) (rows_at-sorted_chunk L us meta "attention_mask" u (b, d) e)
          ∙ sym (slice-map row_length b d (T.rows u)) in
        let count : length (slice b d (lengths T row_length u)) ≡ d - b = omega (
          arith,
          length-slice b d (lengths T row_length u),
          length-map (T.rows u) row_length,
          Tiles-le d n segs t,
        ) in
        (
          rw held (omega (arith, count), single b d (lengths T row_length u) limit count c),
          chunks-IsMiniBatch L us meta u e limit d n size segs t cs,
        )
      where
        single :
            (b d : ℕ) (ls : List ℕ) (limit : ℕ)
            → length (slice b d ls) ≡ d - b
            → InLimit limit ls (b, d)
            → (sum (slice b d ls) ≤ limit) ⊎ (length (slice b d ls) ≡ 1)
        single b d ls limit count (inl within) = inl within
        single b d ls limit count (inr one) = inr (omega arith)

module _ {T : Torch} {V : Type 0} (L : Laws T) (row_length : T.Row → ℕ)
    (argsort : List ℕ → List ℕ) where
  cut_sorted-cut :
      (p : DataProto T V) (limit : ℕ) (mask : T.Tensor) (us : List (String × T.Tensor))
      (u : T.Tensor)
      → dict_get "attention_mask" p.tensors ≡ some mask
      → gather (lengths T row_length mask) (map pos (argsort (lengths T row_length mask)))
        ≡ ok (lengths T row_length u)
      → traverse_values (λ t. T.index t (map pos (argsort (lengths T row_length mask)))) p.tensors
        ≡ ok us
      → batch_size p ≡ length (lengths T row_length u)
      → cut_sorted (lengths T row_length) argsort limit p
        ≡ ok (map (sorted_chunk us p.meta) (segments limit (lengths T row_length u)))
  unfolding cut_sorted
  cut_sorted-cut p limit mask us u found sorted sorted_columns size =
      rw
        (
          found,
          sorted,
          sorted_columns,
          size,
          leb_refl (length (lengths T row_length u)),
          take-all (length (lengths T row_length u)) (lengths T row_length u) (omega arith),
        )
        refl

  joined :
      (k : String) (us : List (String × T.Tensor)) (meta : List (String × V)) (u : T.Tensor)
      → dict_get k us ≡ some u
      → (segs : List (ℕ × ℕ)) (n : ℕ) → n ≡ length (T.rows u)
      → Tiles 0 n segs
      → flat_map (rows_at {T = T} {V = V} k) (map (sorted_chunk us meta) segs) ≡ T.rows u
  joined k us meta u e segs n size tiles =
      flat_map-same (sorted_chunk us meta) (rows_at {T = T} {V = V} k)
        (λ s. slice s.0 s.1 (T.rows u)) (λ s. rows_at-sorted_chunk L us meta k u s e) segs
      ∙ flat_map-Tiles 0 n segs (T.rows u) tiles
      ∙ slice-all n (T.rows u) (omega arith)

  -- Where argsort gives a position inside the batch for each row, the limit is at least one token,
  -- and every tensor has the batch's number of rows, the batch with an attention mask is cut: joined,
  -- the mini-batches hold of each column its rows at the sorted positions, in that order, and each
  -- has a row at least, and no more tokens than the limit unless it is a single row.
  pub dynamic_mini_batches-rows :
      (sorts : IsArgsort argsort) (p : DataProto T V) (limit fallback_bs : ℕ) (mask t : T.Tensor)
      → (k : String) → 0 < limit
      → dict_get "attention_mask" p.tensors ≡ some mask
      → Sized T row_length (batch_size p) p.tensors
      → dict_get k p.tensors ≡ some t
      → (bs : List (DataProto T V)) × (dynamic_mini_batches
            (lengths T row_length)
            argsort
            p
            limit
            fallback_bs
          ≡ ok bs)
        × (gather (T.rows t) (map pos (argsort (lengths T row_length mask)))
            ≡ ok (flat_map (rows_at k) bs))
        × All (IsMiniBatch row_length limit) bs
  unfolding dynamic_mini_batches
  dynamic_mini_batches-rows sorts p zero fallback_bs mask t k h found sized found_t =
      absurd (omega arith)
  dynamic_mini_batches-rows sorts p (suc m) fallback_bs mask t k h found sized found_t =
      let n = batch_size p in
      let is = argsort (lengths T row_length mask) in
      let mask_size = Sized-get T row_length n p.tensors "attention_mask" mask sized found in
      let counted : length (lengths T row_length mask) ≡ n =
        length-map (T.rows mask) row_length ∙ mask_size in
      let inside : All (λ i. i < n) is =
        subst (λ j. All (λ i. i < j) is) counted (sorts.below (lengths T row_length mask)) in
      let (us, columns, column, resized) =
        sort_tensors T row_length L n p.tensors is sized inside in
      let (um, found_um, sorted_um) = column "attention_mask" mask found in
      let (ut, found_ut, sorted_ut) = column k t found_t in
      let segs = segments (suc m) (lengths T row_length um) in
      let (tiles, capped) = segments-Tiles (suc m) (lengths T row_length um) in
      (
        map (sorted_chunk us p.meta) segs,
        cut_sorted-cut p (suc m) mask us um found sorted_um.2 columns (
            omega (
              arith,
              sorts.total (lengths T row_length mask),
              length-map (T.rows um) row_length,
              sorted_um.3,
              counted,
            )),
        sorted_ut.1
            ∙ ap ok (
                sym (
                  joined k us p.meta ut found_ut segs (length (lengths T row_length um))
                    (omega (arith, length-map (T.rows um) row_length, sorted_um.3, sorted_ut.3))
                    tiles)),
        chunks-IsMiniBatch row_length L us p.meta um found_um (suc m) 0
            (length (lengths T row_length um)) (length-map (T.rows um) row_length) segs tiles
            capped,
      )
