-- ===== src/Dapo/Groups.antt =====
-- Which samples are kept, by the values of their own group.
use lumen_rl.Base.{
  ◌≡◌, refl, sym, subst, ap, ap₂, ◌∙◌, Bool, true, false, ◌||◌, List, [], ◌∷◌, ◌++◌, append_assoc,
  append-nil, map, if◌then◌else◌, ◌==◌, ==_iff, length, Option, some, none, String, str_eq, eq_iff,
  dict_get, dict_has, dict_set, dict_get-set, dict_has_iff, ok, arith, Bool-cases, inl, inr,
}
use lumen_rl.Dapo.{appended, group_by, kept_from, is_in, filter_groups_keep_mask}

other_key : (k i : String) (b : Bool) → str_eq i k ≡ false → b ≡ false → (str_eq k i || b) ≡ false
other_key k i b h e = ground (arith, eq_iff k i, eq_iff i k)

module _ (k u : String) (rest : List String) where
  kept-same :
      (a b : Bool)
      → str_eq k u ≡ true
      → is_in u rest ≡ false
      → is_in u (if a then k ∷ rest else if b then k ∷ rest else rest) ≡ (a || b)
  unfolding is_in
  kept-same true b e n = rw e refl
  kept-same false true e n = rw e refl
  kept-same false false e n = n

  kept-apart :
      (a b : Bool)
      → str_eq k u ≡ false
      → is_in u (if a then k ∷ rest else if b then k ∷ rest else rest) ≡ is_in u rest
  unfolding is_in
  kept-apart true b e = rw e refl
  kept-apart false true e = rw e refl
  kept-apart false false e = refl

module _ {V : Type 0} where
  -- The values of the samples of the prompt `u`, in order.
  abbrev pub values_of : String → List String → List V → List V
  values_of u (k ∷ ks) (v ∷ vs) = if str_eq k u then v ∷ values_of u ks vs else values_of u ks vs
  values_of u _ _ = []

  -- A group is chosen if it has one value, or several that differ enough.
  abbrev pub chosen : (List V → Bool) → List V → Bool
  chosen spread [] = false
  chosen spread (v ∷ vs) = length (v ∷ vs) == 1 || spread (v ∷ vs)

  abbrev extended : Option (List V) → List V → Option (List V)
  extended none [] = none
  extended none (v ∷ vs) = some (v ∷ vs)
  extended (some xs) vs = some (xs ++ vs)

  abbrev Unique : List (String × List V) → Type 0
  Unique [] = Unit
  Unique ((k, vs) ∷ d) = (dict_has k d ≡ false) × Unique d

  dict_has-dict_set :
      (k j : String) (v : List V) (d : List (String × List V))
      → dict_has j (dict_set k v d) ≡ (str_eq k j || dict_has j d)
  unfolding dict_has dict_set
  dict_has-dict_set k j v [] = refl
  dict_has-dict_set k j v ((i, w) ∷ d) =
      ground (arith, eq_iff k j, eq_iff i k, eq_iff i j, dict_has-dict_set k j v d)

  dict_set-Unique :
      (k : String) (v : List V) (d : List (String × List V)) → Unique d → Unique (dict_set k v d)
  unfolding dict_set dict_has
  dict_set-Unique k v [] u = (refl, tt)
  dict_set-Unique k v ((i, w) ∷ d) (h, u) = elim (Bool-cases (str_eq i k)) [
    | inl same ↦ rw same (h, u)
    | inr apart ↦
        rw apart (
          dict_has-dict_set k i v d ∙ other_key k i (dict_has i d) apart h,
          dict_set-Unique k v d u,
        )
  ]

  extended-nil : (o : Option (List V)) → o ≡ extended o []
  extended-nil none = refl
  extended-nil (some xs) = ap some (sym (append-nil xs))

  appended-extended :
      (o : Option (List V)) (v : V) (vs : List V)
      → extended (some (appended o v)) vs ≡ extended o (v ∷ vs)
  unfolding appended
  appended-extended none v vs = refl
  appended-extended (some xs) v vs = ap some (append_assoc xs (v ∷ []) vs)

  group_by-extended :
      (u : String) (us : List String) (vs : List V) (d : List (String × List V))
      → dict_get u (group_by us vs d) ≡ extended (dict_get u d) (values_of u us vs)
  unfolding group_by appended
  group_by-extended u [] vs d = extended-nil (dict_get u d)
  group_by-extended u (k ∷ us) [] d = extended-nil (dict_get u d)
  group_by-extended u (k ∷ us) (v ∷ vs) d =
      group_by-extended u us vs (dict_set k (appended (dict_get k d) v) d)
      ∙ ap (λ o. extended o (values_of u us vs)) (dict_get-set k u (appended (dict_get k d) v) d)
      ∙ elim (Bool-cases (str_eq k u)) [
        | inl same ↦ rw same (
            subst
              (λ j.
                extended (some (appended (dict_get k d) v)) (values_of u us vs)
                ≡ extended (dict_get j d) (v ∷ values_of u us vs))
              ((eq_iff k u).0 same) (appended-extended (dict_get k d) v (values_of u us vs)))
        | inr apart ↦ rw apart refl
      ]

  group_by-Unique :
      (us : List String) (vs : List V) (d : List (String × List V))
      → Unique d
      → Unique (group_by us vs d)
  unfolding group_by
  group_by-Unique [] vs d h = h
  group_by-Unique (k ∷ us) [] d h = h
  group_by-Unique (k ∷ us) (v ∷ vs) d h =
      group_by-Unique us vs _ (dict_set-Unique k (appended (dict_get k d) v) d h)

  module _ (spread : List V → Bool) where
    abbrev passes : Option (List V) → Bool
    passes none = false
    passes (some vs) = length vs == 1 || spread vs

    kept_from-passes :
        (u : String) (d : List (String × List V))
        → Unique d
        → is_in u (kept_from spread d) ≡ passes (dict_get u d)
    unfolding kept_from is_in dict_get
    kept_from-passes u [] h = refl
    kept_from-passes u ((k, vs) ∷ d) (h, w) = elim (Bool-cases (str_eq k u)) [
      | inl same ↦ rw same (
          kept-same k u (kept_from spread d) (length vs == 1) (spread vs) same (
            kept_from-passes u d w
            ∙ ap passes
                (dict_has_iff u d (subst (λ j. dict_has j d ≡ false) ((eq_iff k u).0 same) h))))
      | inr apart ↦ rw apart (
          kept-apart k u (kept_from spread d) (length vs == 1) (spread vs) apart
          ∙ kept_from-passes u d w)
    ]

    passes-chosen : (vs : List V) → passes (extended none vs) ≡ chosen spread vs
    passes-chosen [] = refl
    passes-chosen (v ∷ vs) = refl

    kept-chosen :
        (u : String) (us : List String) (vs : List V)
        → is_in u (kept_from spread (group_by us vs [])) ≡ chosen spread (values_of u us vs)
    unfolding dict_get
    kept-chosen u us vs =
        kept_from-passes u (group_by us vs []) (group_by-Unique us vs [] tt)
        ∙ ap passes (group_by-extended u us vs [])
        ∙ passes-chosen (values_of u us vs)

    mask-chosen :
        (seen us : List String) (vs : List V)
        → map (λ u. is_in u (kept_from spread (group_by us vs []))) seen
          ≡ map (λ u. chosen spread (values_of u us vs)) seen
    mask-chosen [] us vs = refl
    mask-chosen (u ∷ seen) us vs = ap₂ ◌∷◌ (kept-chosen u us vs) (mask-chosen seen us vs)

    -- Let there be as many ids as values. Then the filter succeeds. Its mask marks a sample exactly if the
    -- values of the samples with the same id, in order, are one value or several that differ
    -- enough; and an id is listed as kept exactly if its values are so.
    pub filter_groups_keep_mask-chosen :
        (vals : List V) (uids : List String) (u : String)
        → length uids ≡ length vals
        → (kept : List String) × (filter_groups_keep_mask spread vals uids
            ≡ ok (map (λ k. chosen spread (values_of k uids vals)) uids, kept))
          × (is_in u kept ≡ chosen spread (values_of u uids vals))
    unfolding filter_groups_keep_mask
    filter_groups_keep_mask-chosen vals uids u e = (
      kept_from spread (group_by uids vals []),
      rw ((==_iff (length uids) (length vals)).1 e)
          (ap (λ m. ok (m, kept_from spread (group_by uids vals []))) (mask-chosen uids uids vals)),
      kept-chosen u uids vals,
    )
