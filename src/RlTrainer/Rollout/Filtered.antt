-- ===== src/RlTrainer/Rollout/Filtered.antt =====
-- lumenrl/trainer/rl_trainer.py: the prompt ids `i // g` of a round, and what the filter makes of them.
use lumen_rl.Base.{
  ℕ, zero, suc, ◌+◌, ◌*◌, ◌/◌, ◌≤◌, ◌<◌, ◌≡◌, refl, sym, subst, ap, ap₂, ◌∙◌, Bool, false, List, [],
  ◌∷◌, ◌++◌, map, ==_iff, ok-inj, length, length-append, length-replicate, length-map,
  length-range_from, range, replicate, range_from, String, str_eq, ok, arith, All,
}
use native.Mathlib.Nat.{mul-add-div_right, div-eq_of_lt}
use lumen_rl.Packing.{count_true}
use lumen_rl.Dapo.{group_by, kept_from, is_in, filter_groups_keep_mask}
use lumen_rl.Dapo.Groups.{values_of, chosen, filter_groups_keep_mask-chosen}
use lumen_rl.RlTrainer.Rollout.{expand}
use lumen_rl.RlTrainer.Rollout.Groups.{
  groups, zipped, Distinct, AllAbsent, values_of-groups, group_by-groups, length-kept_from,
}

module _ {A B : Type 0} where
  replicate-append :
      (n : ℕ) (x : A) (f : A → B) (xs : List A)
      → map f (replicate n x ++ xs) ≡ replicate n (f x) ++ map f xs
  replicate-append zero x f xs = refl
  replicate-append (suc n) x f xs = ap (◌∷◌ (f x)) (replicate-append n x f xs)

  pub map-expand : (g : ℕ) (f : A → B) (xs : List A) → map f (expand g xs) ≡ expand g (map f xs)
  unfolding expand
  map-expand g f [] = refl
  map-expand g f (x ∷ xs) =
      replicate-append g x f (expand g xs) ∙ ap (◌++◌ (replicate g (f x))) (map-expand g f xs)

pub length-expand : {A : Type 0} (g : ℕ) (xs : List A) → length (expand g xs) ≡ length xs * g
unfolding expand
length-expand g [] = omega arith
length-expand g (x ∷ xs) =
    omega
      (arith, length-append (replicate g x) (expand g xs), length-replicate g x, length-expand g xs)

module _ {V : Type 0} (spread : List V → Bool) where
  filter-kept :
      (vals : List V) (uids : List String)
      → length uids ≡ length vals
      → filter_groups_keep_mask spread vals uids
        ≡ ok (
          map (λ u. is_in u (kept_from spread (group_by uids vals []))) uids,
          kept_from spread (group_by uids vals []),
        )
  unfolding filter_groups_keep_mask
  filter-kept vals uids e = rw ((==_iff (length uids) (length vals)).1 e) refl

  filter-chosen :
      (vals : List V) (uids : List String)
      → length uids ≡ length vals
      → filter_groups_keep_mask spread vals uids
        ≡ ok (
          map (λ k. chosen spread (values_of k uids vals)) uids,
          kept_from spread (group_by uids vals []),
        )
  filter-chosen vals uids e =
      let (kept, f, listed) = filter_groups_keep_mask-chosen spread vals uids "" e in
      f
      ∙ ap (λ k. ok (map (λ k. chosen spread (values_of k uids vals)) uids, k))
          (ap (λ p. p.1) (ok-inj _ _ (sym f ∙ filter-kept vals uids e)))

  filter-prompts :
      (g : ℕ) (ks : List String) (vals : List V)
      → 0 < g
      → length vals ≡ length ks * g
      → Distinct ks
      → filter_groups_keep_mask spread vals (expand g ks)
        ≡ ok (
          expand g (map (chosen spread) (groups (length ks) g vals)),
          kept_from spread (zipped ks (groups (length ks) g vals)),
        )
  filter-prompts zero ks vals h l d = absurd (omega arith)
  filter-prompts (suc m) ks vals h l d =
      filter-chosen vals (expand (suc m) ks) (length-expand (suc m) ks ∙ sym l)
      ∙ ap₂ (λ mask kept. ok (mask, kept))
          (map-expand (suc m) (λ k. chosen spread (values_of k (expand (suc m) ks) vals)) ks
            ∙ ap (expand (suc m)) (values_of-groups (suc m) spread ks vals l d))
          (ap (kept_from spread) (group_by-groups m ks vals [] l d (none_absent ks)))
    where
      none_absent : (ks : List String) → AllAbsent {V = V} ks []
      none_absent [] = tt
      none_absent (k ∷ ks) = (tt, none_absent ks)

  length-kept :
      (g : ℕ) (ks : List String) (vals : List V)
      → 0 < g
      → length vals ≡ length ks * g
      → length (kept_from spread (zipped ks (groups (length ks) g vals)))
        ≡ count_true (map (chosen spread) (groups (length ks) g vals))
  length-kept zero ks vals h l = absurd (omega arith)
  length-kept (suc m) ks vals h l = length-kept_from spread m ks vals l

module _ (key : ℕ → String) (g : ℕ) (pos : 0 < g) where
  same_prompt :
      (a b j : ℕ)
      → b + j ≤ g
      → map (λ i. key (i / g)) (range_from (a * g + b) j) ≡ replicate j (key a)
  same_prompt a b zero h = refl
  same_prompt a b (suc j) h =
      ap₂ (λ i is. key i ∷ map (λ i. key (i / g)) is)
        (mul-add-div_right pos a b ∙ ap (λ q. a + q) (div-eq_of_lt (omega arith)) ∙ omega arith)
        (ap (λ i. range_from i j) (omega arith))
      ∙ ap (◌∷◌ (key a)) (same_prompt a (suc b) j (omega arith))

  range_from-add : (i m n : ℕ) → range_from i (m + n) ≡ range_from i m ++ range_from (i + m) n
  range_from-add i zero n = ap₂ range_from (omega arith) (omega arith)
  range_from-add i (suc m) n =
      ap (range_from i) {y = suc (m + n)} (omega arith)
      ∙ ap (◌∷◌ i) (
          range_from-add (suc i) m n
          ∙ ap (λ j. range_from (suc i) m ++ range_from j n) (omega arith))

  map-append' :
      {A B : Type 0} (f : A → B) (xs ys : List A) → map f (xs ++ ys) ≡ map f xs ++ map f ys
  map-append' f [] ys = refl
  map-append' f (x ∷ xs) ys = ap (◌∷◌ (f x)) (map-append' f xs ys)

  -- The ids of the samples.
  uids-expand :
      (a n : ℕ)
      → map (λ i. key (i / g)) (range_from (a * g) (n * g)) ≡ expand g (map key (range_from a n))
  unfolding expand
  uids-expand a zero = ap (λ m. map (λ i. key (i / g)) (range_from (a * g) m)) {y = 0} (omega arith)
  uids-expand a (suc n) =
      ap (λ m. map (λ i. key (i / g)) (range_from (a * g) m)) {y = g + n * g} (omega arith)
      ∙ ap (map (λ i. key (i / g))) (range_from-add (a * g) g (n * g))
      ∙ map-append' (λ i. key (i / g)) (range_from (a * g) g) (range_from (a * g + g) (n * g))
      ∙ ap₂ ◌++◌
          (ap (λ i. map (λ i. key (i / g)) (range_from i g)) (omega arith)
            ∙ same_prompt a 0 g (omega arith))
          (ap (λ i. map (λ i. key (i / g)) (range_from i (n * g))) (omega arith)
            ∙ uids-expand (suc a) n)

  module _ (differ : (i j : ℕ) → i < j → str_eq (key i) (key j) ≡ false) where
    keys-Distinct : (a n : ℕ) → Distinct (map key (range_from a n))
    keys-Distinct a zero = tt
    keys-Distinct a (suc n) = (later a (suc a) n (omega arith), keys-Distinct (suc a) n)
      where
        later : (a b n : ℕ) → a < b → All (λ j. str_eq (key a) j ≡ false) (map key (range_from b n))
        later a b zero h = tt
        later a b (suc n) h = (differ a b h, later a (suc b) n (omega arith))

    -- The filter keeps or drops the samples of a prompt together, and counts the kept prompts.
    pub filter-round :
        {V : Type 0} (spread : List V → Bool) (n : ℕ) (accs : List V)
        → length accs ≡ n * g
        → (kept : List String) × (filter_groups_keep_mask spread accs
              (map (λ i. key (i / g)) (range (n * g)))
            ≡ ok (expand g (map (chosen spread) (groups n g accs)), kept))
          × (length kept ≡ count_true (map (chosen spread) (groups n g accs)))
    filter-round spread n accs l =
        let ks = map key (range n) in
        let uids = expand g ks in
        let made : map (λ i. key (i / g)) (range (n * g)) ≡ uids =
          ap (λ i. map (λ i. key (i / g)) (range_from i (n * g))) (omega arith) ∙ uids-expand 0 n in
        let count : length ks ≡ n = length-map (range n) key ∙ length-range_from 0 n in
        let l' : length accs ≡ length ks * g = l ∙ ap (λ m. m * g) (sym count) in
        (
          kept_from spread (zipped ks (groups n g accs)),
          ap (filter_groups_keep_mask spread accs) made
              ∙ filter-prompts spread g ks accs pos l' (keys-Distinct 0 n)
              ∙ ap
                  (λ m. ok (
                    expand g (map (chosen spread) (groups m g accs)),
                    kept_from spread (zipped ks (groups m g accs)),
                  ))
                  count,
          subst
              (λ m.
                length (kept_from spread (zipped ks (groups m g accs)))
                ≡ count_true (map (chosen spread) (groups m g accs)))
              count (length-kept spread g ks accs pos l'),
        )
