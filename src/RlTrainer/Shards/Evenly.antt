-- ===== src/RlTrainer/Shards/Evenly.antt =====
-- lumenrl/trainer/rl_trainer.py, `_balance_rows_across_workers`: rows that are placed longest first
-- keep the loads close to each other.
use lumen_rl.Base.{
  ℕ, zero, suc, ◌+◌, ◌*◌, ◌≤◌, ◌≡◌, refl, sym, subst, ap, ◌∙◌, List, [], ◌∷◌, ◌⊎◌, inl, inr, length,
  sum_by, sum_by-append, Option, some, none, ok, ok-inj, ◌>>=◌, or_raise, value_error, arith, All,
}
use lumen_rl.RlTrainer.Shards.{Bin, lightest, add_row, place_all}
use lumen_rl.RlTrainer.Shards.Bins.{rows_of, Within, add_row-Within}
use lumen_rl.RlTrainer.Shards.Placed.{empty_bins, empty_bins-Within}
use lumen_rl.RlTrainer.Shards.Lightest.{At, At-All, All-At, Least, lightest-Least, HasRoom-At}
use lumen_rl.RlTrainer.Shards.Loads.{
  grown, add_row-At, At-unique, Near, Near-lower, Near-from, Near-to, Near-self,
}

-- No row is longer than `x`, and none is longer than the one before it.
abbrev pub Falling : ℕ → List (ℕ × ℕ) → Type 0
Falling x [] = Unit
Falling x (y ∷ ys) = (y.0 ≤ x) × Falling y.0 ys

module _ (per limit : ℕ) (len_of : ℕ → ℕ) where
  abbrev pub tokens : Bin → ℕ
  tokens a = sum_by len_of a.rows

  -- The bins while rows of at most `x` tokens are left.
  pub record IsEven (x : ℕ) (bins : List Bin) : Type 0 where
    pub within : Within per bins
    pub near : (i j : ℕ) (a b : Bin) → At i a bins → At j b bins → Near per limit x a b
    pub loads : (i : ℕ) (a : Bin) → At i a bins → a.load ≡ tokens a

  IsEven-lower : (x y : ℕ) (bins : List Bin) → y ≤ x → IsEven x bins → IsEven y bins
  IsEven-lower x y bins h e = record {
    within = e.within;
    near = λ i j a b at at'.
        Near-lower per limit x y a b h (At-All (λ c. length c.rows ≤ per) i a bins e.within at)
          (e.near i j a b at at');
    loads = e.loads;
  }

  -- A row is added to the lightest bin with room.
  add_row-IsEven :
      (j least idx len : ℕ) (bins : List Bin)
      → len ≤ limit
      → len ≡ len_of idx
      → Least per bins (some (j, least))
      → IsEven len bins
      → IsEven len (add_row j idx len bins)
  add_row-IsEven j least idx len bins h named (b, at_b, room, same, lowest) e = record {
    within = add_row-Within per j idx len bins (HasRoom-At per j b bins at_b room) e.within;
    near = λ i k a c at_a at_c. elim (added i a at_a) [
      | inl old ↦ elim (added k c at_c) [
        | inl other ↦ e.near i k a c old other
        | inr g ↦
            subst (Near per limit len a) (sym g)
              (Near-from per limit idx len a b (e.near i j a b old at_b))
      ]
      | inr f ↦
          subst (λ d. Near per limit len d c) (sym f)
            (elim (added k c at_c) [
              | inl other ↦
                  Near-to per limit idx len b c h (λ r. omega (arith, same, lowest k c other r))
                    (e.near j k b c at_b other)
              | inr g ↦
                  subst (Near per limit len (grown idx len b)) (sym g)
                    (Near-self per limit len (grown idx len b))
            ])
    ];
    loads = λ i a at. elim (added i a at) [
      | inl old ↦ e.loads i a old
      | inr f ↦
          subst (λ d. d.load ≡ tokens d) (sym f)
            (omega (arith, e.loads j b at_b, named, sum_by-append len_of b.rows (idx ∷ [])))
    ];
  }
    where
      added :
          (i : ℕ) (a : Bin) → At i a (add_row j idx len bins) → At i a bins ⊎ (a ≡ grown idx len b)
      added i a at = elim (add_row-At i j idx len a bins at) [
        | inl old ↦ inl old
        | inr (c, at_c, f) ↦ inr (f ∙ ap (grown idx len) (At-unique j c b bins at_c at_b))
      ]

  -- The rows `xs` are placed evenly.
  abbrev pub Evenly : List (ℕ × ℕ) → Type 0
  Evenly xs =
      (x : ℕ) (bins bins' : List Bin)
      → x ≤ limit
      → Falling x xs
      → All (λ y. y.0 ≡ len_of y.1) xs
      → IsEven x bins
      → place_all per xs bins ≡ ok bins'
      → (y : ℕ) × IsEven y bins'

  place_all-cons :
      (len idx : ℕ) (xs : List (ℕ × ℕ)) (x : ℕ) (bins bins' : List Bin)
      → Evenly xs
      → x ≤ limit
      → len ≤ x
      → Falling len xs
      → len ≡ len_of idx
      → All (λ y. y.0 ≡ len_of y.1) xs
      → IsEven x bins
      → (o : Option (ℕ × ℕ)) → Least per bins o
      → (or_raise o value_error >>= λ b. place_all per xs (add_row b.0 idx len bins)) ≡ ok bins'
      → (y : ℕ) × IsEven y bins'
  place_all-cons len idx xs x bins bins' rest h k f named all e none l made = absurd (cc)
  place_all-cons len idx xs x bins bins' rest h k f named all e (some (j, least)) l made =
      rest len (add_row j idx len bins) bins' (omega arith) f all
        (add_row-IsEven j least idx len bins (omega arith) named l (IsEven-lower x len bins k e))
        made

  pub place_all-Evenly : (xs : List (ℕ × ℕ)) → Evenly xs
  unfolding place_all
  place_all-Evenly [] x bins bins' h f all e made = (x, subst (IsEven x) (ok-inj bins bins' made) e)
  place_all-Evenly ((len, idx) ∷ xs) x bins bins' h (k, f) (named, all) e made =
      place_all-cons len idx xs x bins bins' (place_all-Evenly xs) h k f named all e
        (lightest per bins) (lightest-Least per bins) made

  -- Once all bins are full, two loads differ by the longest row at most.
  pub full-IsEven :
      (x : ℕ) (bins : List Bin)
      → IsEven x bins
      → All (λ p. length p ≡ per) (rows_of bins)
      → All (λ a. All (λ b. a.load ≤ b.load + limit) bins) bins
  full-IsEven x bins e full =
      All-At (λ a. All (λ b. a.load ≤ b.load + limit) bins) bins
        λ i a at.
          All-At (λ b. a.load ≤ b.load + limit) bins
            λ j b at'.
              let n : length a.rows ≡ length b.rows = rows-full i a at ∙ sym (rows-full j b at') in
              omega (arith, (e.near i j a b at at').filled, ap (λ m. m * x) n)
    where
      each :
          (bs : List Bin)
          → All (λ p. length p ≡ per) (rows_of bs)
          → All (λ c. length c.rows ≡ per) bs
      each [] h = tt
      each (b ∷ bs) (h, hs) = (h, each bs hs)

      rows-full : (i : ℕ) (a : Bin) → At i a bins → length a.rows ≡ per
      rows-full i a at = At-All (λ c. length c.rows ≡ per) i a bins (each bins full) at

  pub empty_bins-IsEven : (x k : ℕ) → IsEven x (empty_bins k)
  empty_bins-IsEven x k = record {
    within = empty_bins-Within per k;
    near = λ i j a b at at'.
        subst (λ c. Near per limit x c b) (sym (At-empty_bins i a k at))
          (subst (Near per limit x _) (sym (At-empty_bins j b k at')) (Near-self per limit x _));
    loads = λ i a at. subst (λ c. c.load ≡ tokens c) (sym (At-empty_bins i a k at)) refl;
  }
    where
      At-empty_bins :
          (i : ℕ) (a : Bin) (k : ℕ) → At i a (empty_bins k) → a ≡ record { rows = []; load = 0 }
      At-empty_bins i a zero at = absurd at
      At-empty_bins zero a (suc k) at = at
      At-empty_bins (suc i) a (suc k) at = At-empty_bins i a k at
