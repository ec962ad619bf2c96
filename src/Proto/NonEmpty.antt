-- ===== src/Proto/NonEmpty.antt =====
-- Leaving out the chunks with no rows, as `merge` and `concat` do.
use mathlib.Core.Option
use lumen_rl.Base.{
  ◌≡◌, refl, ap, ◌∙◌, sym, List, [], ◌∷◌, ◌++◌, map, String, some, none, length, dict_get,
  dict_keys, All, arith, flat_map, true, ltb, Bool-cases, inl, inr, if◌then◌else◌, str_eq, eq_iff,
  subst, ap₂,
}
use text.Mathlib.TextPositions.{eq_refl}
use lumen_rl.Torch.{Torch}
use lumen_rl.Proto.{DataProto, batch_size}
use lumen_rl.Proto.Merge.{
  key_in, keys_within, first_keys, same_keys, non_empty, ragged_keys, ragged_column, ragged_concat,
  ragged_or_nil,
}
use lumen_rl.Proto.View.{column, IsConsistent}
use lumen_rl.Proto.Join.{rows_or_nil, all_rows}

length_zero {ℓ} : {A : Type ℓ} (xs : List A) → length xs ≡ 0 → xs ≡ []
length_zero [] h = refl
length_zero (x ∷ xs) h = absurd (omega arith)

column_of_empty :
    (T : Torch) (k : String) (ts : List (String × T.Tensor))
    → All (λ (c : String × T.Tensor). length (T.rows c.1) ≡ 0) ts
    → rows_or_nil (Option.map T.rows (dict_get k ts)) ≡ []
unfolding dict_get rows_or_nil
column_of_empty T k [] h = refl
column_of_empty T k ((j, t) ∷ ts) (e, h) = elim (Bool-cases (str_eq j k)) [
  | inl same ↦ rw same (length_zero (T.rows t) e)
  | inr other ↦ rw other (column_of_empty T k ts h)
]

ragged_of_empty :
    {V : Type 0} (k : String) (rs : List (String × List V))
    → All (λ (c : String × List V). length c.1 ≡ 0) rs
    → rows_or_nil (dict_get k rs) ≡ []
unfolding dict_get rows_or_nil
ragged_of_empty k [] h = refl
ragged_of_empty k ((j, v) ∷ rs) (e, h) = elim (Bool-cases (str_eq j k)) [
  | inl same ↦ rw same (length_zero v e)
  | inr other ↦ rw other (ragged_of_empty k rs h)
]

or_nil :
    {V : Type 0} (k : String) (rs : List (String × List V))
    → ragged_or_nil k rs ≡ rows_or_nil (dict_get k rs)
unfolding ragged_or_nil rows_or_nil
or_nil k rs = ground arith

first_keys-same :
    {V : Type 0} (ks : List String) (rs : List (String × List V)) (others : List String)
    → dict_keys rs ≡ ks
    → (ks ≡ [] → others ≡ [])
    → first_keys rs others ≡ ks
unfolding first_keys dict_keys
first_keys-same ks [] others e h = h (sym e) ∙ e
first_keys-same ks (c ∷ rs) others e h = e

-- A dictionary listed by its keys.
get_listed {ℓ} :
    {W : Type ℓ} (k : String) (f : String → W) (ks : List String)
    → dict_get k (map (λ j. (j, f j)) ks) ≡ (if key_in k ks then some (f k) else none)
unfolding dict_get key_in
get_listed k f [] = refl
get_listed k f (j ∷ ks) = elim (Bool-cases (str_eq j k)) [
  | inl same ↦ rw (same, (eq_iff j k).0 same)
  | inr other ↦ rw other (get_listed k f ks)
]

module _ {T : Torch} {V : Type 0} where
  pub All-non_empty {ℓ} :
      (P : DataProto T V → Type ℓ) (ps : List (DataProto T V)) → All P ps → All P (non_empty ps)
  unfolding non_empty
  All-non_empty P [] h = tt
  All-non_empty P (p ∷ ps) (hp, h) = elim (Bool-cases (ltb 0 (batch_size p))) [
    | inl e ↦ rw e (hp, All-non_empty P ps h)
    | inr e ↦ rw e (All-non_empty P ps h)
  ]

  -- Leaving out the empty chunks loses no row.
  pub all_rows-non_empty :
      (k : String) (ps : List (DataProto T V))
      → All IsConsistent ps
      → all_rows k (non_empty ps) ≡ all_rows k ps
  unfolding all_rows non_empty
  all_rows-non_empty k [] h = refl
  all_rows-non_empty k (p ∷ ps) (hp, h) = elim (Bool-cases (ltb 0 (batch_size p))) [
    | inl e ↦ rw e (ap (◌++◌ (rows_or_nil (column p k))) (all_rows-non_empty k ps h))
    | inr e ↦
        let none_left : batch_size p ≡ 0 = ground arith in
        rw (e, column_of_empty T k p.tensors (rw none_left at hp.tensors_rows))
          (all_rows-non_empty k ps h)
  ]

  abbrev pub all_ragged : String → List (DataProto T V) → List V
  all_ragged k ps = flat_map (λ (p : DataProto T V). rows_or_nil (dict_get k p.ragged)) ps

  pub all_ragged-non_empty :
      (k : String) (ps : List (DataProto T V))
      → All IsConsistent ps
      → all_ragged k (non_empty ps) ≡ all_ragged k ps
  unfolding non_empty
  all_ragged-non_empty k [] h = refl
  all_ragged-non_empty k (p ∷ ps) (hp, h) = elim (Bool-cases (ltb 0 (batch_size p))) [
    | inl e ↦ rw e (ap (◌++◌ (rows_or_nil (dict_get k p.ragged))) (all_ragged-non_empty k ps h))
    | inr e ↦
        let none_left : batch_size p ≡ 0 = ground arith in
        rw (e, ragged_of_empty k p.ragged (rw none_left at hp.ragged_rows))
          (all_ragged-non_empty k ps h)
  ]

  -- If nothing is left, every chunk was empty.
  pub sizes_of_none :
      (ps : List (DataProto T V))
      → non_empty ps ≡ []
      → All (λ (p : DataProto T V). batch_size p ≡ 0) ps
  unfolding non_empty
  sizes_of_none [] h = tt
  sizes_of_none (p ∷ ps) h = elim (Bool-cases (ltb 0 (batch_size p))) [
    | inl e ↦ cc
    | inr e ↦ (ground arith, sizes_of_none ps (rw e at h))
  ]

  no_ragged_keys :
      (ps : List (DataProto T V))
      → All (λ (q : DataProto T V). dict_keys q.ragged ≡ []) ps
      → ragged_keys ps ≡ []
  unfolding ragged_keys
  no_ragged_keys [] h = refl
  no_ragged_keys (p ∷ ps) (e, h) =
      first_keys-same [] p.ragged (ragged_keys ps) e (λ _. no_ragged_keys ps h)

  -- The keys of the ragged columns, where all chunks have the same.
  pub ragged_keys-same :
      (ks : List String) (p : DataProto T V) (ps : List (DataProto T V))
      → All (λ (q : DataProto T V). dict_keys q.ragged ≡ ks) (p ∷ ps)
      → ragged_keys (p ∷ ps) ≡ ks
  unfolding ragged_keys
  ragged_keys-same ks p ps (e, h) = first_keys-same ks p.ragged (ragged_keys ps) e (λ z.
      no_ragged_keys ps (subst (λ js. All (λ (q : DataProto T V). dict_keys q.ragged ≡ js) ps) z h))

  pub all_or_nil :
      (k : String) (ps : List (DataProto T V))
      → flat_map (λ (p : DataProto T V). ragged_or_nil k p.ragged) ps ≡ all_ragged k ps
  all_or_nil k [] = refl
  all_or_nil k (p ∷ ps) = ap₂ ◌++◌ (or_nil k p.ragged) (all_or_nil k ps)

  pub get-ragged_concat :
      (k : String) (ps : List (DataProto T V))
      → dict_get k (ragged_concat ps)
        ≡ (if key_in k (ragged_keys ps) then some (all_ragged k ps) else none)
  unfolding ragged_concat ragged_column
  get-ragged_concat k ps =
      get_listed k (λ j. flat_map (λ (p : DataProto T V). ragged_or_nil j p.ragged) ps)
        (ragged_keys ps)
      ∙ ap (λ v. if key_in k (ragged_keys ps) then some v else none) (all_or_nil k ps)

keys_within_of :
    (ks js : List String)
    → ((k : String) → key_in k ks ≡ true → key_in k js ≡ true)
    → keys_within ks js ≡ true
unfolding keys_within key_in
keys_within_of [] js h = refl
keys_within_of (k ∷ ks) js h =
    rw (h k (rw (eq_refl k))) (keys_within_of ks js (λ i m. h i (ground arith)))

-- A set of keys equals itself.
pub same_keys_refl : (ks : List String) → same_keys ks ks ≡ true
unfolding same_keys
same_keys_refl ks = rw (keys_within_of ks ks (λ k m. m))
