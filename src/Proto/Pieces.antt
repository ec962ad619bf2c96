-- ===== src/Proto/Pieces.antt =====
-- The chunks between rising bounds, joined again, have the rows of the batch.
use mathlib.Core.Option
use lumen_rl.Base.{
  ℕ, zero, suc, ◌+◌, ◌≤◌, ◌<◌, ◌≡◌, refl, ap, ◌∙◌, sym, subst, ap₂, flat_map, range_from, List, [],
  ◌∷◌, String, str_eq, ◌⊎◌, inl, inr, some, none, length, slice, slice-all, flat_map-slice, range,
  dict_get, dict_keys, All, arith, true, false, Bool-cases, if◌then◌else◌,
}
use native.Mathlib.Nat.{add-zero}
use lumen_rl.Torch.{Torch, Laws}
use lumen_rl.Proto.{DataProto, batch_size}
use lumen_rl.Proto.Split.{chunk}
use lumen_rl.Proto.Merge.{key_in, keys_agree, non_empty, ragged_concat}
use lumen_rl.Proto.View.{column, IsConsistent, get_of_key, get_of_no_key, SameRows}
use lumen_rl.Proto.Join.{rows_or_nil, all_rows}
use lumen_rl.Proto.Joined.{Joined, joined_column, Uniform}
use lumen_rl.Proto.Chunks.{
  chunks, chunk-IsConsistent, chunk-column, keys-chunk, ragged_keys-chunk, batch_size-chunk,
  All-chunks, all_rows-chunks, all_ragged-chunks,
}
use lumen_rl.Proto.NonEmpty.{
  All-non_empty, all_rows-non_empty, all_ragged, all_ragged-non_empty, sizes_of_none,
  ragged_keys-same, get-ragged_concat, same_keys_refl,
}

-- No column is longer than the batch.
column-le :
    (T : Torch) (n : ℕ) (k : String) (ts : List (String × T.Tensor))
    → All (λ (c : String × T.Tensor). length (T.rows c.1) ≡ n) ts
    → length (rows_or_nil (Option.map T.rows (dict_get k ts))) ≤ n
unfolding dict_get rows_or_nil
column-le T n k [] h = omega arith
column-le T n k ((j, t) ∷ ts) (e, h) = elim (Bool-cases (str_eq j k)) [
  | inl same ↦ rw same (omega arith)
  | inr other ↦ rw other (column-le T n k ts h)
]

ragged-le :
    {V : Type 0} (n : ℕ) (k : String) (rs : List (String × List V))
    → All (λ (c : String × List V). length c.1 ≡ n) rs
    → length (rows_or_nil (dict_get k rs)) ≤ n
unfolding dict_get rows_or_nil
ragged-le n k [] h = omega arith
ragged-le n k ((j, v) ∷ rs) (e, h) = elim (Bool-cases (str_eq j k)) [
  | inl same ↦ rw same (omega arith)
  | inr other ↦ rw other (ragged-le n k rs h)
]

List-cases {ℓ} :
    {A : Type ℓ} (xs : List A) → (xs ≡ []) ⊎ ((a : A) × (as' : List A) × (xs ≡ a ∷ as'))
List-cases [] = inl refl
List-cases (x ∷ xs) = inr (x, xs, refl)

module _ {T : Torch} {V : Type 0} where
  keys_agree-same :
      (ks : List String) (ps : List (DataProto T V))
      → All (λ (q : DataProto T V). dict_keys q.tensors ≡ ks) ps
      → keys_agree ks ps ≡ true
  unfolding keys_agree
  keys_agree-same ks [] h = refl
  keys_agree-same ks (p ∷ ps) (e, h) = rw (e, same_keys_refl ks) (keys_agree-same ks ps h)

-- Bounds that rise from the first row to the last cut the batch into chunks.
module _ {T : Torch} {V : Type 0} (L : Laws T) (p : DataProto T V) (whole : IsConsistent p)
    (b : ℕ → ℕ) (n : ℕ) (mono : (i : ℕ) → b i ≤ b (suc i)) (first : b 0 ≡ 0)
    (last : b n ≡ batch_size p) where
  unfoldable pub pieces : List (DataProto T V)
  pieces = chunks L p b (range n)

  joins {ℓ} :
      {A : Type ℓ} (xs : List A)
      → length xs ≤ batch_size p
      → flat_map (λ i. slice (b i) (b (suc i)) xs) (range n) ≡ xs
  joins xs h =
      flat_map-slice b xs 0 n mono
      ∙ ap₂ (λ u v. slice u v xs) first (ap b zero_add ∙ last)
      ∙ slice-all (batch_size p) xs h
    where
      zero_add : 0 + n ≡ n
      zero_add = omega arith

  stuck_bounds :
      (i m : ℕ)
      → All (λ (q : DataProto T V). batch_size q ≡ 0) (chunks L p b (range_from i m))
      → b (i + m) ≤ batch_size p
      → b (i + m) ≡ b i
  unfolding chunks
  stuck_bounds i zero h below = rw add-zero
  stuck_bounds i (suc m) (e, h) below =
      let shift : i + suc m ≡ suc i + m = omega arith in
      let rest = stuck_bounds (suc i) m h (rw shift at below) in
      let size = sym (batch_size-chunk L p (b i) (b (suc i))) ∙ e in
      rw shift (omega (arith, rest, size, mono i, rw shift at below))

  pub some_piece :
      0 < batch_size p
      → (q : DataProto T V) × (qs : List (DataProto T V)) × (non_empty pieces ≡ q ∷ qs)
  unfolding pieces
  some_piece positive = elim (List-cases (non_empty pieces)) [
    | inl e ↦
        let zero_add : 0 + n ≡ n = omega arith in
        let stuck = stuck_bounds 0 n (sizes_of_none pieces e) (rw (zero_add, last) (omega arith)) in
        absurd (omega (arith, first, last, ap b zero_add, stuck))
    | inr (q, qs, e) ↦ (q, qs, e)
  ]

  All-pieces {ℓ} :
      (P : DataProto T V → Type ℓ)
      → ((u v : ℕ) → P (chunk p u v))
      → {q : DataProto T V} {qs : List (DataProto T V)} → non_empty pieces ≡ q ∷ qs
      → All P (q ∷ qs)
  unfolding pieces
  All-pieces P h e =
      subst (All P) e
        (All-non_empty P pieces (All-chunks L p P b (range n) (λ i. h (b i) (b (suc i)))))

  module _ (q : DataProto T V) (qs : List (DataProto T V)) (left : non_empty pieces ≡ q ∷ qs) where
    same_keys_pieces :
        All (λ (r : DataProto T V). dict_keys r.tensors ≡ dict_keys p.tensors) (q ∷ qs)
    same_keys_pieces = All-pieces _ (keys-chunk p) left

    pub pieces-Uniform : Uniform q qs
    pieces-Uniform k has =
        let (t, found) = get_of_key k p.tensors (rw same_keys_pieces.0 at has) in
        (T.tail_shape t, All-pieces _ (λ u v. chunk-column L p k t u v found) left)

    pub pieces_agree : keys_agree (dict_keys q.tensors) qs ≡ true
    pieces_agree =
        rw same_keys_pieces.0 (keys_agree-same (dict_keys p.tensors) qs same_keys_pieces.1)

    pieces-IsConsistent : All IsConsistent pieces
    unfolding pieces
    pieces-IsConsistent =
        All-chunks L p IsConsistent b (range n)
          (λ i. chunk-IsConsistent L p (b i) (b (suc i)) whole)

    all_rows-pieces : (k : String) → all_rows k (q ∷ qs) ≡ rows_or_nil (column p k)
    unfolding pieces
    all_rows-pieces k =
        ap (all_rows k) (sym left)
        ∙ all_rows-non_empty k pieces pieces-IsConsistent
        ∙ all_rows-chunks L p k b (range n)
        ∙ joins (rows_or_nil (column p k))
            (column-le T (batch_size p) k p.tensors whole.tensors_rows)

    all_ragged-pieces : (k : String) → all_ragged k (q ∷ qs) ≡ rows_or_nil (dict_get k p.ragged)
    unfolding pieces
    all_ragged-pieces k =
        ap (all_ragged k) (sym left)
        ∙ all_ragged-non_empty k pieces pieces-IsConsistent
        ∙ all_ragged-chunks L p k b (range n)
        ∙ joins (rows_or_nil (dict_get k p.ragged))
            (ragged-le (batch_size p) k p.ragged whole.ragged_rows)

    same_column : (k : String) → joined_column q qs k ≡ column p k
    unfolding rows_or_nil
    same_column k =
        rw (same_keys_pieces.0, all_rows-pieces k)
          (go (Bool-cases (key_in k (dict_keys p.tensors))))
      where
        go :
            (key_in k (dict_keys p.tensors) ≡ true) ⊎ (key_in k (dict_keys p.tensors) ≡ false)
            → (if key_in k (dict_keys p.tensors) then some (rows_or_nil (column p k)) else none)
              ≡ column p k
        go (inl has) = let (t, found) = get_of_key k p.tensors has in rw (has, found)
        go (inr lacks) = rw (lacks, get_of_no_key k p.tensors lacks)

    same_keys_ragged : All (λ (r : DataProto T V). dict_keys r.ragged ≡ dict_keys p.ragged) (q ∷ qs)
    same_keys_ragged = All-pieces _ (ragged_keys-chunk p) left

    same_ragged_column : (k : String) → dict_get k (ragged_concat (q ∷ qs)) ≡ dict_get k p.ragged
    unfolding rows_or_nil
    same_ragged_column k =
        get-ragged_concat k (q ∷ qs)
        ∙ rw (ragged_keys-same (dict_keys p.ragged) q qs same_keys_ragged, all_ragged-pieces k)
            (go (Bool-cases (key_in k (dict_keys p.ragged))))
      where
        go :
            (key_in k (dict_keys p.ragged) ≡ true) ⊎ (key_in k (dict_keys p.ragged) ≡ false)
            → (if key_in k (dict_keys p.ragged)
                then some (rows_or_nil (dict_get k p.ragged))
                else none)
              ≡ dict_get k p.ragged
        go (inl has) = let (v, found) = get_of_key k p.ragged has in rw (has, found)
        go (inr lacks) = rw (lacks, get_of_no_key k p.ragged lacks)

    same_meta_pieces : All (λ (r : DataProto T V). r.meta ≡ p.meta) (q ∷ qs)
    unfolding chunk
    same_meta_pieces = All-pieces _ (λ u v. refl) left

    pub Joined-SameRows : (r : DataProto T V) → Joined q qs r → SameRows r p
    Joined-SameRows r j = record {
      same_columns = λ k. j.joined_columns k ∙ same_column k;
      same_ragged = λ k. ap (dict_get k) j.joined_ragged ∙ same_ragged_column k;
      same_meta = j.joined_meta ∙ same_meta_pieces.0;
    }
