-- ===== src/Proto/Joined.antt =====
-- `merge` and `concat` return the columns of their chunks, one after the other.
use mathlib.Core.Option
use lumen_rl.Base.{
  ◌≡◌, refl, ap, ◌∙◌, sym, List, ◌∷◌, String, true, Option, some, none, ok, dict_get, dict_keys,
  if◌then◌else◌, Bool-cases, inl, inr, ℕ,
}
use lumen_rl.Torch.{Torch, Laws}
use lumen_rl.Proto.{DataProto}
use lumen_rl.Proto.Merge.{
  key_in, merge_column, concat_column, keys_agree, merge_chunks, concat_chunks, ragged_concat,
}
use lumen_rl.Proto.View.{column, Filled, traverse_keys-Filled}
use lumen_rl.Proto.Join.{all_rows, Agrees, merge_column-Joins, concat_column-Joins}

module _ {T : Torch} {V : Type 0} where
  -- The wanted rows of each column of the result.
  abbrev pub joined_column : DataProto T V → List (DataProto T V) → String → Option (List T.Row)
  joined_column p ps k = if key_in k (dict_keys p.tensors) then some (all_rows k (p ∷ ps)) else none

  pub record Joined (p : DataProto T V) (ps : List (DataProto T V)) (q : DataProto T V)
      : Type 0 where
    pub joined_columns : (k : String) → column q k ≡ joined_column p ps k
    pub joined_ragged : q.ragged ≡ ragged_concat (p ∷ ps)
    pub joined_meta : q.meta ≡ p.meta

  -- The first chunk's columns are in all chunks, with the same other dimensions.
  abbrev pub Uniform : DataProto T V → List (DataProto T V) → Type 0
  Uniform p ps =
      (k : String) → key_in k (dict_keys p.tensors) ≡ true → (s : List ℕ) × Agrees s k (p ∷ ps)

module _ {T : Torch} {V : Type 0} (L : Laws T) (p : DataProto T V) (ps : List (DataProto T V))
    (uniform : Uniform p ps) where
  Filled-column :
      (ks : List String) (e : List (String × T.Tensor))
      → ((k : String) → key_in k ks ≡ key_in k (dict_keys p.tensors))
      → Filled T (joined_column p ps) ks e
      → (k : String) → Option.map T.rows (dict_get k e) ≡ joined_column p ps k
  Filled-column ks e same filled k = elim (Bool-cases (key_in k (dict_keys p.tensors))) [
    | inl has ↦ (filled k).0 (same k ∙ has)
    | inr lacks ↦ rw ((filled k).1 (same k ∙ lacks), lacks)
  ]

  pub concat_chunks-Joined :
      (meta : List (String × V))
      → (q : DataProto T V) × (concat_chunks meta (p ∷ ps) ≡ ok q) × Joined p ps q
  unfolding concat_chunks
  concat_chunks-Joined meta =
      let (e, made, filled) =
        traverse_keys-Filled T (joined_column p ps) (concat_column (p ∷ ps)) (dict_keys p.tensors)
          (λ k has.
            let (s, agrees) = uniform k has in
            let (u, col, rows) = concat_column-Joins L s k p ps agrees in
            (u, col, rw has (ap some rows))) in
      (
        record { tensors = e; meta = p.meta; ragged = ragged_concat (p ∷ ps) },
        rw made,
        record {
          joined_columns = Filled-column (dict_keys p.tensors) e (λ k. refl) filled;
          joined_ragged = refl;
          joined_meta = refl;
        },
      )

  pub merge_chunks-Joined :
      (order : List String → List String) (meta : List (String × V))
      → ((k : String) (ks : List String) → key_in k (order ks) ≡ key_in k ks)
      → keys_agree (dict_keys p.tensors) ps ≡ true
      → (q : DataProto T V) × (merge_chunks order meta (p ∷ ps) ≡ ok q) × Joined p ps q
  unfolding merge_chunks
  merge_chunks-Joined order meta same agree =
      let (e, made, filled) =
        traverse_keys-Filled T (joined_column p ps) (merge_column (p ∷ ps))
          (order (dict_keys p.tensors))
          (λ k has.
            let in_first = sym (same k (dict_keys p.tensors)) ∙ has in
            let (s, agrees) = uniform k in_first in
            let (u, col, rows) = merge_column-Joins L s k p ps agrees in
            (u, col, rw in_first (ap some rows))) in
      (
        record { tensors = e; meta = p.meta; ragged = ragged_concat (p ∷ ps) },
        rw (agree, made),
        record {
          joined_columns = Filled-column (order (dict_keys p.tensors)) e (λ k. same k _) filled;
          joined_ragged = refl;
          joined_meta = refl;
        },
      )
