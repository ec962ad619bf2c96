-- ===== src/Proto/View.antt =====
-- The view of a DataProto by which its row operations are specified: the rows of each column.
use mathlib.Core.Option
use lumen_rl.Base.{
  ◌≡◌, refl, ap, ◌∙◌, List, [], ◌∷◌, String, str_eq, eq_iff, true, false, inl, inr, Option, some,
  none, sym, All, Result, ok, dict_get, dict_keys, traverse_keys, arith, Bool-cases,
}
use mathlib.Core.Bool.{false≢true}
use text.Mathlib.TextPositions.{eq_refl}
use lumen_rl.Torch.{Torch}
use lumen_rl.Proto.{DataProto, HasRows, batch_size}
use lumen_rl.Proto.Merge.{key_in}

module _ {T : Torch} {V : Type 0} where
  -- The rows of the tensor with a key.
  abbrev pub column : DataProto T V → String → Option (List T.Row)
  column p k = Option.map T.rows (dict_get k p.tensors)

  -- All columns are as long as the batch.
  abbrev pub IsConsistent : DataProto T V → Type 0
  IsConsistent p = HasRows (batch_size p) p

  -- Two batches with the same rows in every column, and the same meta entries.
  pub record SameRows (p q : DataProto T V) : Type 0 where
    pub same_columns : (k : String) → column p k ≡ column q k
    pub same_ragged : (k : String) → dict_get k p.ragged ≡ dict_get k q.ragged
    pub same_meta : p.meta ≡ q.meta

module _ {ℓ} {W : Type ℓ} where
  pub get_of_key :
      (k : String) (d : List (String × W))
      → key_in k (dict_keys d) ≡ true
      → (w : W) × (dict_get k d ≡ some w)
  unfolding key_in dict_keys dict_get
  get_of_key k [] h = cc
  get_of_key k ((j, v) ∷ d) h = elim (Bool-cases (str_eq j k)) [
    | inl e ↦ (v, rw e)
    | inr e ↦ let (w, found) = get_of_key k d (ground arith) in (w, rw e found)
  ]

  pub get_of_no_key :
      (k : String) (d : List (String × W)) → key_in k (dict_keys d) ≡ false → dict_get k d ≡ none
  unfolding key_in dict_keys dict_get
  get_of_no_key k [] h = refl
  get_of_no_key k ((j, v) ∷ d) h = ground (arith, get_of_no_key k d)

pub key_of_get :
    {W : Type 0} (k : String) (d : List (String × W)) (v : W)
    → dict_get k d ≡ some v
    → key_in k (dict_keys d) ≡ true
key_of_get k d v found = elim (Bool-cases (key_in k (dict_keys d))) [
  | inl has ↦ has
  | inr lacks ↦ absurd (cc (sym found ∙ get_of_no_key k d lacks))
]

pub All-keys :
    (P : String → Type 0) (ks : List String) → ((k : String) → key_in k ks ≡ true → P k) → All P ks
unfolding key_in
All-keys P [] h = tt
All-keys P (k ∷ ks) h = (h k (rw (eq_refl k)), All-keys P ks (λ j m. h j (ground arith)))

-- A dictionary filled key by key, where each body succeeds with the wanted rows.
module _ (T : Torch) (goal : String → Option (List T.Row)) where
  abbrev pub Filled : List String → List (String × T.Tensor) → Type 0
  Filled ks e =
      (k : String)
      → (key_in k ks ≡ true → Option.map T.rows (dict_get k e) ≡ goal k)
        × (key_in k ks ≡ false → dict_get k e ≡ none)

  pub traverse_keys-Filled :
      (f : String → Result T.Tensor) (ks : List String)
      → ((k : String)
          → key_in k ks ≡ true
          → (u : T.Tensor) × (f k ≡ ok u) × (some (T.rows u) ≡ goal k))
      → (e : List (String × T.Tensor)) × (traverse_keys f ks ≡ ok e) × Filled ks e
  unfolding traverse_keys key_in dict_get
  traverse_keys-Filled f [] h = ([], refl, λ k. (λ e. cc, λ e. refl))
  traverse_keys-Filled f (k ∷ ks) h =
      let (u, made, wanted) = h k (rw (eq_refl k)) in
      let (e, rest, filled) = traverse_keys-Filled f ks (λ j m. h j (ground arith)) in
      (
        (k, u) ∷ e,
        rw (made, rest),
        λ j. elim (Bool-cases (str_eq k j)) [
          | inl same ↦ (
            λ m. rw same (wanted ∙ ap goal ((eq_iff k j).0 same)),
            λ m. absurd (false≢true (ground arith)),
          )
          | inr other ↦ (
            λ m. rw other ((filled j).0 (ground arith)),
            λ m. rw other ((filled j).1 (ground arith)),
          )
        ],
      )
