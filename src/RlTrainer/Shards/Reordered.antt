-- ===== src/RlTrainer/Shards/Reordered.antt =====
-- lumenrl/trainer/rl_trainer.py, `_balance_rows_across_workers`: the batch after its rows are put in
-- the order of the bins.
use lumen_rl.Base.{
  gather-below, ℕ, ◌<◌, ◌≡◌, refl, sym, subst, ap, ap₂, ◌∙◌, true, List, [], ◌∷◌, map,
  if◌then◌else◌, ◌==◌, ==_iff, Bool-cases, inl, inr, length, range, length-range_from, gather,
  gather-range, traverse_values-ok, dict_get, String, Option, some, none, Result, ok, ◌>>=◌, All,
}
use lumen_rl.Base.Int.{pos}
use lumen_rl.Torch.{Torch, Laws}
use lumen_rl.Proto.{DataProto, batch_size}
use lumen_rl.Proto.Select.{ints, long, reorder, reorder-rows, take_rows, normalize_indices}
use lumen_rl.Proto.View.{IsConsistent}
use lumen_rl.Proto.Taken.{wrap-pos, rows-indexed, take_rows-Taken, batch_size-HasRows}
use lumen_rl.RlTrainer.Rollout.{pick}
use lumen_rl.RlTrainer.MiniBatches.Sorted.{Sized-get}
use lumen_rl.RlTrainer.Shards.{same_list, permute_value, permute_rows}

same_list_sound : (is js : List ℕ) → same_list is js ≡ true → is ≡ js
unfolding same_list
same_list_sound [] [] h = refl
same_list_sound [] (j ∷ js) h = absurd (cc)
same_list_sound (i ∷ is) [] h = absurd (cc)
same_list_sound (i ∷ is) (j ∷ js) h = elim (Bool-cases (i == j)) [
  | inl e ↦ ap₂ ◌∷◌ ((==_iff i j).0 e) (same_list_sound is js (rw e at h))
  | inr e ↦ absurd (cc (e, h))
]

module _ {T : Torch} {X : Type 0} where
  -- `q` has the rows of `p` at these positions in every column.
  pub record IsReordered (p : DataProto T X) (is : List ℕ) (q : DataProto T X) : Type 0 where
    pub size : batch_size q ≡ length is
    pub columns :
        (k : String) (t : T.Tensor)
        → dict_get k p.tensors ≡ some t
        → (u : T.Tensor) × (dict_get k q.tensors ≡ some u)
          × (gather (T.rows t) (map pos is) ≡ ok (T.rows u))

module _ {T : Torch} {X U : Type 0} (as_list : X → Option (List U)) (of_list : List U → X)
    (row_length : T.Row → ℕ) (L : Laws T) where
  permute_value-ok :
      (n : ℕ) (is : List ℕ)
      → All (λ i. i < n) is
      → (val : X) → (v : X) × (permute_value as_list of_list n is val ≡ ok v)
  unfolding permute_value pick
  permute_value-ok n is below val = reordered (as_list val)
    where
      reordered :
          (o : Option (List U))
          → (v : X) × (elim o as (λ x. Result X) [
            | none ↦ ok val
            | some vals ↦
                if length vals == n then (pick vals is >>= λ vals'. ok (of_list vals')) else ok val
          ]
              ≡ ok v)
      reordered none = (val, refl)
      reordered (some vals) = elim (Bool-cases (length vals == n)) [
        | inl e ↦
            let (ys, g, _, _) =
              gather-below (λ x. x) vals is
                (subst (λ m. All (λ i. i < m) is) (sym ((==_iff (length vals) n).0 e)) below) in
            (of_list ys, rw (e, g) refl)
        | inr e ↦ (val, rw e refl)
      ]

  meta-ok :
      (n : ℕ) (is : List ℕ)
      → All (λ i. i < n) is
      → (meta : List (String × X))
      → All
          (λ (c : String × X). (v : X) × (permute_value as_list of_list n is c.1 ≡ ok v) × Unit {0})
          meta
  meta-ok n is below [] = tt
  meta-ok n is below ((k, val) ∷ meta) =
      let (v, e) = permute_value-ok n is below val in ((v, e, tt), meta-ok n is below meta)

  -- The columns of the batch in the new order, where that is not the old one.
  reorder-IsReordered :
      (p : DataProto T X) (is : List ℕ)
      → IsConsistent p
      → 0 < batch_size p
      → All (λ i. i < batch_size p) is
      → (q : DataProto T X) × (reorder p (ints (map pos is)) ≡ ok q)
        × (q.meta ≡ p.meta)
        × IsReordered p is q
  unfolding normalize_indices
  reorder-IsReordered p is whole some_rows below =
      let n = batch_size p in
      let (q, f, taken) = take_rows-Taken L p n is whole below in
      (
        q,
        reorder-rows p (ints (map pos is)) some_rows
            ∙ ap (λ js. take_rows p (long js)) (wrap-pos n is)
            ∙ f,
        taken.same_meta,
        record {
          size =
              batch_size-HasRows (length is) p q taken.keys taken.same_ragged_keys taken.rows
                some_rows;
          columns = λ k t e.
              let (u, found, made) = taken.columns k t e in (u, found, rows-indexed L t u is made);
        },
      )

  -- The batch whose rows are put in the order of these positions, meta values with a value for each
  -- row included.
  pub permute_rows-IsReordered :
      (p : DataProto T X) (is : List ℕ)
      → IsConsistent p
      → 0 < batch_size p
      → All (λ i. i < batch_size p) is
      → (q : DataProto T X) × (permute_rows as_list of_list p is ≡ ok q) × IsReordered p is q
  unfolding permute_rows batch_size
  permute_rows-IsReordered p is whole some_rows below =
      elim (Bool-cases (same_list is (range (batch_size p)))) [
        | inl same ↦
            let e = same_list_sound is (range (batch_size p)) same in
            (
              p,
              rw same refl,
              record {
                size = sym (ap length e ∙ length-range_from 0 (batch_size p));
                columns = λ j t' h. (
                  t',
                  h,
                  ap (λ js. gather (T.rows t') (map pos js))
                        (e
                          ∙ ap range (
                              sym (
                                Sized-get T row_length (batch_size p) p.tensors j t'
                                  whole.tensors_rows h)))
                      ∙ gather-range (T.rows t'),
                );
              },
            )
        | inr other ↦
            let n = batch_size p in
            let (q, f, meta_same, r) = reorder-IsReordered p is whole some_rows below in
            let (meta, g, _, _, _) =
              traverse_values-ok (permute_value as_list of_list n is) (λ _. Unit {0}) p.meta
                (meta-ok n is below p.meta) in
            (
              record q { meta = meta },
              rw (other, f, meta_same, g) refl,
              record { size = r.size; columns = r.columns },
            )
      ]
