-- ===== src/RlTrainer/Rollout/Prompts.antt =====
-- lumenrl/trainer/rl_trainer.py: `_get_prompts_range` returns the prompts asked for.
use lumen_rl.Base.{
  lt→ltb, ℕ, zero, suc, ◌+◌, ◌%◌, ◌<◌, ◌≡◌, refl, sym, subst, ap, ap₂, ◌∙◌, List, [], ◌∷◌, map,
  length, length-map, length-range_from, range, get_elem?, or_raise, index_error, Option, some,
  none, ok, ◌>>=◌, arith, All,
}
use lumen_rl.RlTrainer.Rollout.{pick, window, permuted, get_prompts_range}
use native.Mathlib.Nat.{mod-lt}

module _ {P G : Type 0} (dataset : List (P × G)) where
  -- A permutation of the prompts, if there is one, has a position in the dataset for each of them.
  abbrev pub IsPermutation : Option (List ℕ) → Type 0
  IsPermutation none = Unit
  IsPermutation (some perm) = (length perm ≡ length dataset) × All (λ i. i < length dataset) perm

  get-All :
      {X : Type 0} (Q : X → Type 0) (xs : List X) (i : ℕ)
      → All Q xs
      → i < length xs
      → (x : X) × (get_elem? xs i ≡ some x) × Q x
  get-All Q [] i a h = absurd (omega arith)
  get-All Q (x ∷ xs) zero (q, a) h = (x, refl, q)
  get-All Q (x ∷ xs) (suc i) (q, a) h = get-All Q xs i a (omega arith)

  pick-All :
      {X : Type 0} (Q : X → Type 0) (xs : List X) (is : List ℕ)
      → All Q xs
      → All (λ i. i < length xs) is
      → (ys : List X) × (pick xs is ≡ ok ys) × (length ys ≡ length is) × All Q ys
  unfolding pick
  pick-All Q xs [] q a = ([], refl, refl, tt)
  pick-All Q xs (i ∷ is) q (h, a) =
      let (x, e, qx) = get-All Q xs i q h in
      let (ys, f, l, qs) = pick-All Q xs is q a in
      (
        x ∷ ys,
        ap₂ (λ o r. or_raise o index_error >>= λ y. r >>= λ ys. ok (y ∷ ys)) e f,
        ap suc l,
        (qx, qs),
      )

  pick-below :
      {X : Type 0} (xs : List X) (is : List ℕ)
      → All (λ i. i < length xs) is
      → (ys : List X) × (pick xs is ≡ ok ys) × (length ys ≡ length is)
  pick-below xs is a = let (ys, e, l, q) = pick-All (λ x. Unit {0}) xs is (each xs) a in (ys, e, l)
    where
      each : {X : Type 0} (xs : List X) → All (λ x. Unit {0}) xs
      each [] = tt
      each (x ∷ xs) = (tt, each xs)

  window-ok :
      (start count : ℕ)
      → 0 < length dataset
      → (is : List ℕ) × (window dataset start count ≡ ok is)
        × (length is ≡ count)
        × All (λ i. i < length dataset) is
  unfolding window
  window-ok start zero h = ([], refl, refl, tt)
  window-ok start (suc count) h =
      let is = map (λ i. (start + i) % length dataset) (range (suc count)) in
      (
        is,
        rw (lt→ltb 0 (length dataset) h) refl,
        length-map (range (suc count)) (λ i. (start + i) % length dataset)
            ∙ length-range_from 0 (suc count),
        inside (range (suc count)),
      )
    where
      inside :
          (js : List ℕ) → All (λ i. i < length dataset) (map (λ i. (start + i) % length dataset) js)
      inside [] = tt
      inside (j ∷ js) = (mod-lt (start + j) h, inside js)

  pub prompts-ok :
      (perm : Option (List ℕ)) (start count : ℕ)
      → 0 < length dataset
      → IsPermutation perm
      → (ps : List P) × (gts : List G) × (get_prompts_range dataset perm start count ≡ ok (ps, gts))
        × (length ps ≡ count)
        × (length gts ≡ count)
  unfolding get_prompts_range permuted
  prompts-ok none start count h p =
      let (is, e, l, a) = window-ok start count h in
      let (samples, f, m) = pick-below dataset is a in
      (
        map (λ s. s.0) samples,
        map (λ s. s.1) samples,
        rw (e, f) refl,
        length-map samples (λ s. s.0) ∙ m ∙ l,
        length-map samples (λ s. s.1) ∙ m ∙ l,
      )
  prompts-ok (some perm) start count h (size, inside) =
      let (is, e, l, a) = window-ok start count h in
      let (js, f, m, b) =
        pick-All (λ i. i < length dataset) perm is inside
          (subst (λ n. All (λ i. i < n) is) (sym size) a) in
      let (samples, f', m') = pick-below dataset js b in
      (
        map (λ s. s.0) samples,
        map (λ s. s.1) samples,
        rw (e, f, f') refl,
        length-map samples (λ s. s.0) ∙ m' ∙ m ∙ l,
        length-map samples (λ s. s.1) ∙ m' ∙ m ∙ l,
      )
