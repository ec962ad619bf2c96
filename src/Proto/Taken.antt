-- ===== src/Proto/Taken.antt =====
-- lumenrl/core/protocol.py, `select_idxs` and `reorder`: the batch with the rows at given positions.
use lumen_rl.Base.{
  ℕ, ◌<◌, ◌≡◌, refl, sym, subst, ap, ap₂, ◌∙◌, List, [], ◌∷◌, map, length, gather, gather-below,
  map_ok, traverse_values-ok, dict_get, dict_keys, String, some, Result-cases, ok, ok-inj, ◌>>=◌,
  inl, inr, arith, All,
}
use lumen_rl.Base.Int.{pos}
use lumen_rl.Torch.{Torch, Laws}
use lumen_rl.Proto.{DataProto, HasRows, batch_size, size_of}
use lumen_rl.Proto.Select.{long, wrap, take_rows, index_by, positions, ragged_at}

pub wrap-pos : (n : ℕ) (is : List ℕ) → map (wrap n) (map pos is) ≡ map pos is
unfolding wrap
wrap-pos n [] = refl
wrap-pos n (i ∷ is) = ap (◌∷◌ (pos i)) (wrap-pos n is)

-- `u` has the rows of `t` at these positions.
abbrev pub IndexedAt : (T : Torch) → List ℕ → T.Tensor → T.Tensor → Type 0
IndexedAt T is t u =
    (gather (T.rows t) (map pos is) ≡ ok (T.rows u))
    × (T.tail_shape u ≡ T.tail_shape t)
    × (length (T.rows u) ≡ length is)

pub index-below :
    {T : Torch} (L : Laws T) (t : T.Tensor) (is : List ℕ)
    → All (λ i. i < length (T.rows t)) is
    → (u : T.Tensor) × (T.index t (map pos is) ≡ ok u) × IndexedAt T is t u
index-below {T = T} L t is a =
    let (ys, g, _, l) = gather-below (λ x. x) (T.rows t) is a in
    elim (Result-cases (T.index t (map pos is))) [
      | inl (u, e) ↦
          let same : T.rows u ≡ ys =
            ok-inj _ _ (sym (ap (map_ok T.rows) e) ∙ L.rows-index t (map pos is) ∙ g) in
          (u, e, (g ∙ ap ok (sym same), L.tail-index t u (map pos is) e, ap length same ∙ l))
      | inr (raised, e) ↦ absurd (cc (sym (ap (map_ok T.rows) e) ∙ L.rows-index t (map pos is) ∙ g))
    ]

-- `q` has the rows of `p` at these positions, in every column.
pub record Taken {T : Torch} {V : Type 0} (p : DataProto T V) (is : List ℕ) (q : DataProto T V)
    : Type 0 where
  pub keys : dict_keys q.tensors ≡ dict_keys p.tensors
  pub same_ragged_keys : dict_keys q.ragged ≡ dict_keys p.ragged
  pub same_meta : q.meta ≡ p.meta
  pub columns :
      (k : String) (t : T.Tensor)
      → dict_get k p.tensors ≡ some t
      → (u : T.Tensor) × (dict_get k q.tensors ≡ some u) × (T.index t (map pos is) ≡ ok u)
  pub ragged_columns :
      (k : String) (v : List V)
      → dict_get k p.ragged ≡ some v
      → (w : List V) × (dict_get k q.ragged ≡ some w) × (gather v (map pos is) ≡ ok w)
  pub rows : HasRows (length is) q

pub rows-indexed :
    {T : Torch} (L : Laws T) (t u : T.Tensor) (is : List ℕ)
    → T.index t (map pos is) ≡ ok u
    → gather (T.rows t) (map pos is) ≡ ok (T.rows u)
rows-indexed {T = T} L t u is e = sym (L.rows-index t (map pos is)) ∙ ap (map_ok T.rows) e

module _ (T : Torch) {V : Type 0} where
  size_of-HasRows :
      (m : ℕ) (ts us : List (String × T.Tensor)) (rs qs : List (String × List V))
      → dict_keys us ≡ dict_keys ts
      → dict_keys qs ≡ dict_keys rs
      → All (λ (c : String × T.Tensor). length (T.rows c.1) ≡ m) us
      → All (λ (c : String × List V). length c.1 ≡ m) qs
      → 0 < size_of T V ts rs
      → size_of T V us qs ≡ m
  unfolding size_of dict_keys
  size_of-HasRows m ts ((k, u) ∷ us) rs qs e f (h, hs) g some_rows = h
  size_of-HasRows m (t ∷ ts) [] rs qs e f h g some_rows = absurd (cc)
  size_of-HasRows m [] [] rs ((k, w) ∷ qs) e f h (g, gs) some_rows = g
  size_of-HasRows m [] [] (r ∷ rs) [] e f h g some_rows = absurd (cc)
  size_of-HasRows m [] [] [] [] e f h g some_rows = absurd (omega arith)

module _ {T : Torch} {V : Type 0} where
  -- A batch with rows, whose columns come again with `m` rows each.
  pub batch_size-HasRows :
      (m : ℕ) (p q : DataProto T V)
      → dict_keys q.tensors ≡ dict_keys p.tensors
      → dict_keys q.ragged ≡ dict_keys p.ragged
      → HasRows m q
      → 0 < batch_size p
      → batch_size q ≡ m
  unfolding batch_size
  batch_size-HasRows m p q e f h some_rows =
      size_of-HasRows T m p.tensors q.tensors p.ragged q.ragged e f h.tensors_rows h.ragged_rows
        some_rows

module _ {T : Torch} {V : Type 0} (L : Laws T) where
  pub take_rows-Taken :
      (p : DataProto T V) (n : ℕ) (is : List ℕ)
      → HasRows n p
      → All (λ i. i < n) is
      → (q : DataProto T V) × (take_rows p (long (map pos is)) ≡ ok q) × Taken p is q
  unfolding take_rows index_by positions ragged_at
  take_rows-Taken p n is h below =
      let (us, f, column, keys, sized) =
        traverse_values-ok (λ t. T.index t (map pos is)) (λ u. length (T.rows u) ≡ length is)
          p.tensors (indexed p.tensors h.tensors_rows) in
      let (rs, g, ragged, ragged_keys, ragged_sized) =
        traverse_values-ok (λ v. gather v (map pos is)) (λ w. length w ≡ length is) p.ragged
          (gathered p.ragged h.ragged_rows) in
      (
        record { tensors = us; meta = p.meta; ragged = rs },
        ap₂
            (λ o r. o >>= λ out.
              r >>= λ ragged. ok (record { tensors = out; meta = p.meta; ragged = ragged }))
            f g,
        record {
          keys = keys;
          same_ragged_keys = ragged_keys;
          same_meta = refl;
          columns = column;
          ragged_columns = ragged;
          rows = record { tensors_rows = sized; ragged_rows = ragged_sized };
        },
      )
    where
      indexed :
          (ts : List (String × T.Tensor))
          → All (λ (c : String × T.Tensor). length (T.rows c.1) ≡ n) ts
          → All
              (λ (c : String × T.Tensor).
                (u : T.Tensor) × (T.index c.1 (map pos is) ≡ ok u)
                × (length (T.rows u) ≡ length is))
              ts
      indexed [] h = tt
      indexed ((k, t) ∷ ts) (e, h) =
          let (u, made, at) = index-below L t is (subst (λ m. All (λ i. i < m) is) (sym e) below) in
          ((u, made, at.2), indexed ts h)

      gathered :
          (rs : List (String × List V))
          → All (λ (c : String × List V). length c.1 ≡ n) rs
          → All
              (λ (c : String × List V).
                (w : List V) × (gather c.1 (map pos is) ≡ ok w) × (length w ≡ length is))
              rs
      gathered [] h = tt
      gathered ((k, v) ∷ rs) (e, h) =
          let (ys, g, _, l) =
            gather-below (λ x. x) v is (subst (λ m. All (λ i. i < m) is) (sym e) below) in
          ((ys, g, l), gathered rs h)
