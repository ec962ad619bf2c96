-- ===== src/Proto/Join.antt =====
-- What `merge` and `concat` return where the columns of the chunks agree in shape.
use lumen_rl.Base.{
  ℕ, ◌≡◌, refl, ap, ◌∙◌, sym, List, [], ◌∷◌, ◌++◌, String, true, Option, some, none, subst, Result,
  ok, dict_get, traverse, arith, All, flat_map, max,
}
use lumen_rl.Torch.{Torch, Laws}
use lumen_rl.Proto.{DataProto}
use lumen_rl.Proto.Merge.{
  max_of, all_equal, shape1, align, align_by, pad_parts, parts_of, merge_column, concat_column,
}
use lumen_rl.Proto.View.{column}

unfoldable pub rows_or_nil {ℓ} : {A : Type ℓ} → Option (List A) → List A
rows_or_nil none = []
rows_or_nil (some rows) = rows

module _ {T : Torch} {V : Type 0} where
  -- The rows of a column through a list of batches.
  unfoldable pub all_rows : String → List (DataProto T V) → List T.Row
  all_rows k ps = flat_map (λ p. rows_or_nil (column p k)) ps

  -- Every batch has the column, with the same other dimensions.
  abbrev pub Agrees : List ℕ → String → List (DataProto T V) → Type 0
  Agrees s k ps =
      All (λ p. (t : T.Tensor) × (dict_get k p.tensors ≡ some t) × (T.tail_shape t ≡ s)) ps

  parts_of-Agrees :
      (s : List ℕ) (k : String) (ps : List (DataProto T V))
      → Agrees s k ps
      → (ts : List T.Tensor) × (parts_of ps k ≡ ok ts)
        × All (λ t. T.tail_shape t ≡ s) ts
        × (flat_map T.rows ts ≡ all_rows k ps)
  unfolding parts_of all_rows rows_or_nil
  parts_of-Agrees s k [] h = ([], refl, tt, refl)
  parts_of-Agrees s k (p ∷ ps) ((t, found, shape), h) =
      let (ts, parts, shapes, rows) = parts_of-Agrees s k ps h in
      (t ∷ ts, rw (found, parts), (shape, shapes), rw found (ap (◌++◌ (T.rows t)) rows))

module _ (T : Torch) where
  shape1_of : (w : ℕ) (s : List ℕ) (t : T.Tensor) → T.tail_shape t ≡ w ∷ s → shape1 T t ≡ ok w
  unfolding shape1
  shape1_of w s t e = rw (e, shape1)

  widths_agree :
      (w : ℕ) (s : List ℕ) (ts : List T.Tensor)
      → All (λ t. T.tail_shape t ≡ w ∷ s) ts
      → (ws : List ℕ) × (traverse (shape1 T) ts ≡ ok ws) × All (λ v. v ≡ w) ws
  widths_agree w s [] h = ([], refl, tt)
  widths_agree w s (t ∷ ts) (e, h) =
      let (ws, read, same) = widths_agree w s ts h in
      (w ∷ ws, rw (shape1_of w s t e, read), (refl, same))

  max_of-same : (w : ℕ) (ws : List ℕ) → All (λ v. v ≡ w) ws → max w (max_of ws) ≡ w
  unfolding max_of
  max_of-same w [] h = omega arith
  max_of-same w (v ∷ ws) (e, h) = omega (arith, max_of-same w ws h)

  all_equal-same : (w : ℕ) (ws : List ℕ) → All (λ v. v ≡ w) ws → all_equal w ws ≡ true
  unfolding all_equal
  all_equal-same w [] h = refl
  all_equal-same w (v ∷ ws) (e, h) = ground (arith, all_equal-same w ws h)

  pad_parts-same :
      (w : ℕ) (ws : List ℕ) (ts : List T.Tensor)
      → All (λ v. v ≡ w) ws
      → pad_parts T (w ∷ ws) ts ≡ ok ts
  unfolding pad_parts max_of
  pad_parts-same w ws ts h = rw (max_of-same w ws h, all_equal-same w (w ∷ ws) (refl, h))

  -- Parts of one shape are left as they are.
  align_agree :
      (s : List ℕ) (t : T.Tensor) (ts : List T.Tensor)
      → T.tail_shape t ≡ s
      → All (λ u. T.tail_shape u ≡ s) ts
      → align T (t ∷ ts) ≡ ok (t ∷ ts)
  unfolding align align_by
  align_agree [] t ts e h = rw e
  align_agree (w ∷ s) t ts e h =
      let (ws, read, same) = widths_agree w s ts h in
      rw (e, align_by, shape1_of w s t e, read) (pad_parts-same w ws (t ∷ ts) same)

module _ {T : Torch} {V : Type 0} where
  parts_of-cons :
      (k : String) (p : DataProto T V) (ps : List (DataProto T V)) (t : T.Tensor)
      (ts : List T.Tensor)
      → dict_get k p.tensors ≡ some t
      → parts_of ps k ≡ ok ts
      → parts_of (p ∷ ps) k ≡ ok (t ∷ ts)
  unfolding parts_of
  parts_of-cons k p ps t ts found parts = rw (found, parts)

  all_rows-cons :
      (k : String) (p : DataProto T V) (ps : List (DataProto T V)) (t : T.Tensor)
      → dict_get k p.tensors ≡ some t
      → all_rows k (p ∷ ps) ≡ T.rows t ++ all_rows k ps
  unfolding all_rows rows_or_nil
  all_rows-cons k p ps t found = rw found

module _ {T : Torch} {V : Type 0} (L : Laws T) (s : List ℕ) (k : String) (p : DataProto T V)
    (ps : List (DataProto T V)) (agrees : Agrees s k (p ∷ ps)) where
  -- A column that agrees in shape is the column of the chunks, one after the other.
  abbrev Joins : (List (DataProto T V) → String → Result T.Tensor) → Type 0
  Joins f = (u : T.Tensor) × (f (p ∷ ps) k ≡ ok u) × (T.rows u ≡ all_rows k (p ∷ ps))

  pub concat_column-Joins : Joins concat_column
  unfolding concat_column
  concat_column-Joins =
      let (t, found, shape) = agrees.0 in
      let (ts, parts, shapes, rows) = parts_of-Agrees s k ps agrees.1 in
      let (u, joined, joined_rows, _) =
        L.cat_agree t ts (subst (λ z. All (λ v. T.tail_shape v ≡ z) ts) (sym shape) shapes) in
      (
        u,
        rw (parts_of-cons k p ps t ts found parts) joined,
        joined_rows ∙ ap (◌++◌ (T.rows t)) rows ∙ sym (all_rows-cons k p ps t found),
      )

  pub merge_column-Joins : Joins merge_column
  unfolding merge_column concat_column
  merge_column-Joins =
      let (t, found, shape) = agrees.0 in
      let (ts, parts, shapes, rows) = parts_of-Agrees s k ps agrees.1 in
      let both = parts_of-cons k p ps t ts found parts in
      let (u, joined, joined_rows) = concat_column-Joins in
      (u, rw (both, align_agree T s t ts shape shapes) (rw both at joined), joined_rows)
