-- ===== src/RlTrainer/MiniBatches/Sorted.antt =====
-- lumenrl/trainer/rl_trainer.py, `_dynamic_mini_batches`:
-- The batch sorted by length: a column holds the rows of the original at the sorted positions.
use lumen_rl.Base.{
  ℕ, ◌<◌, ◌≡◌, refl, sym, subst, ap, ap₂, ◌∙◌, List, [], ◌∷◌, map, if◌then◌else◌, length, gather,
  gather-below, traverse_values, dict_get, dict_get-All, String, str_eq, some, none, ok, err, ◌>>=◌,
  Bool-cases, ok-inj, Error, inl, inr, All,
}
use lumen_rl.Base.Int.{pos}
use lumen_rl.Torch.{Torch, Laws}
use lumen_rl.Proto.Taken.{index-below}

-- What argsort is relied on for: as many positions as values, each inside the list.
pub record IsArgsort (argsort : List ℕ → List ℕ) : Type 0 where
  pub total : (ls : List ℕ) → length (argsort ls) ≡ length ls
  pub below : (ls : List ℕ) → All (λ i. i < length ls) (argsort ls)

raised_ok : {A : Type 0} {raised : Error} {y : A} → err raised ≡ ok y → ⊥
raised_ok e = cc

none-some : {A : Type 0} {y : A} → none ≡ some y → ⊥
none-some e = cc

some-inj : {A : Type 0} {x y : A} → some x ≡ some y → x ≡ y
some-inj e = cc

module _ (T : Torch) (row_length : T.Row → ℕ) where
  -- `attention_mask.sum(dim=1)`, row by row.
  abbrev pub lengths : T.Tensor → List ℕ
  lengths t = map row_length (T.rows t)

  -- Every tensor has `n` rows.
  abbrev pub Sized : ℕ → List (String × T.Tensor) → Type 0
  Sized n ts = All (λ (c : String × T.Tensor). length (T.rows c.1) ≡ n) ts

  -- `u` has the rows of `t` at these positions.
  abbrev pub IsSorted : T.Tensor → List ℕ → T.Tensor → Type 0
  IsSorted t is u =
      (T.index t (map pos is) ≡ ok u)
      × (gather (T.rows t) (map pos is) ≡ ok (T.rows u))
      × (gather (lengths t) (map pos is) ≡ ok (lengths u))
      × (length (T.rows u) ≡ length is)

  index-IsSorted :
      (L : Laws T) (t : T.Tensor) (is : List ℕ)
      → All (λ i. i < length (T.rows t)) is
      → (u : T.Tensor) × IsSorted t is u
  index-IsSorted L t is a =
      let (u, e, indexed) = index-below L t is a in
      let (ys, g, g', _) = gather-below row_length (T.rows t) is a in
      let same : T.rows u ≡ ys = ok-inj _ _ (sym indexed.0 ∙ g) in
      (u, (e, indexed.0, g' ∙ ap (λ r. ok (map row_length r)) (sym same), indexed.2))

  -- The sorted tensors.
  pub sort_tensors :
      (L : Laws T) (n : ℕ) (ts : List (String × T.Tensor)) (is : List ℕ)
      → Sized n ts
      → All (λ i. i < n) is
      → (us : List (String × T.Tensor)) × (traverse_values (λ t. T.index t (map pos is)) ts ≡ ok us)
        × ((k : String) (t : T.Tensor)
            → dict_get k ts ≡ some t
            → (u : T.Tensor) × (dict_get k us ≡ some u) × IsSorted t is u)
        × Sized (length is) us
  unfolding traverse_values dict_get
  sort_tensors L n [] is s a = ([], refl, λ k t e. absurd (none-some e), tt)
  sort_tensors L n ((j, t) ∷ ts) is (s, ss) a =
      let (u, e) = index-IsSorted L t is (subst (λ m. All (λ i. i < m) is) (sym s) a) in
      let (us, f, found, sized) = sort_tensors L n ts is ss a in
      (
        (j, u) ∷ us,
        ap₂ (λ r d. r >>= λ w. d >>= λ ws. ok ((j, w) ∷ ws)) e.0 f,
        λ k t' h. found_first j k t u t' ts us is e (found k t') h,
        (e.3, sized),
      )
    where
      found_first :
          (j k : String) (t u t' : T.Tensor) (ts us : List (String × T.Tensor)) (is : List ℕ)
          → IsSorted t is u
          → (dict_get k ts ≡ some t' → (w : T.Tensor) × (dict_get k us ≡ some w) × IsSorted t' is w)
          → (if str_eq j k then some t else dict_get k ts) ≡ some t'
          → (w : T.Tensor) × ((if str_eq j k then some u else dict_get k us) ≡ some w)
            × IsSorted t' is w
      found_first j k t u t' ts us is e later h = elim (Bool-cases (str_eq j k)) [
        | inl same ↦ rw same (u, refl, subst (λ x. IsSorted x is u) (some-inj (rw same at h)) e)
        | inr apart ↦ rw apart (later (rw apart at h))
      ]

  -- A column has the rows of the batch.
  pub Sized-get :
      (n : ℕ) (ts : List (String × T.Tensor)) (k : String) (t : T.Tensor)
      → Sized n ts
      → dict_get k ts ≡ some t
      → length (T.rows t) ≡ n
  Sized-get n ts k t s e = dict_get-All (λ u. length (T.rows u) ≡ n) k t ts s e
