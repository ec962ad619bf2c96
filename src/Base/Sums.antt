-- ===== src/Base/Sums.antt =====
-- Sums over a list, and Python's stable sort, which keeps them.
use Prim.Native.Nat.{ℕ, suc, ◌+◌}
use mathlib.Core.Path.{◌≡◌, refl}
use mathlib.Core.Logic.{inl, inr}
use mathlib.Core.Bool.{Bool, true, false}
use mathlib.Core.List.{List, [], ◌∷◌, ◌++◌, map}
use native.Mathlib.Omega.{arith}
use lumen_rl.Base.Tests.{Bool-cases}
use lumen_rl.Base.Lists.{length, length-append}
use lumen_rl.Base.Slices.{All}

module _ {ℓ} {A : Type ℓ} where
  abbrev pub sum_by : (A → ℕ) → List A → ℕ
  sum_by f [] = 0
  sum_by f (x ∷ xs) = f x + sum_by f xs

  -- `before y x`: y has to come before x.
  abbrev pub insert_by : (A → A → Bool) → A → List A → List A
  insert_by before x [] = x ∷ []
  insert_by before x (y ∷ ys) = elim (before y x) [
    | true ↦ y ∷ insert_by before x ys
    | false ↦ x ∷ y ∷ ys
  ]

  abbrev pub sort_by : (A → A → Bool) → List A → List A
  sort_by before [] = []
  sort_by before (x ∷ xs) = insert_by before x (sort_by before xs)

  abbrev pub reverse : List A → List A
  reverse [] = []
  reverse (x ∷ xs) = reverse xs ++ x ∷ []

  pub sum_by-append : (f : A → ℕ) (xs ys : List A) → sum_by f (xs ++ ys) ≡ sum_by f xs + sum_by f ys
  sum_by-append f [] ys = omega arith
  sum_by-append f (x ∷ xs) ys = omega (arith, sum_by-append f xs ys)

  pub sum_by-insert_by :
      (f : A → ℕ) (before : A → A → Bool) (x : A) (xs : List A)
      → sum_by f (insert_by before x xs) ≡ f x + sum_by f xs
  sum_by-insert_by f before x [] = refl
  sum_by-insert_by f before x (y ∷ ys) = elim (Bool-cases (before y x)) [
    | inl e ↦ rw (e, sum_by) (omega (arith, sum_by-insert_by f before x ys))
    | inr e ↦ rw (e, sum_by) refl
  ]

  pub sum_by-sort_by :
      (f : A → ℕ) (before : A → A → Bool) (xs : List A) → sum_by f (sort_by before xs) ≡ sum_by f xs
  sum_by-sort_by f before [] = refl
  sum_by-sort_by f before (x ∷ xs) =
      omega (arith, sum_by-insert_by f before x (sort_by before xs), sum_by-sort_by f before xs)

  pub sum_by-reverse : (f : A → ℕ) (xs : List A) → sum_by f (reverse xs) ≡ sum_by f xs
  sum_by-reverse f [] = refl
  sum_by-reverse f (x ∷ xs) =
      omega (arith, sum_by-append f (reverse xs) (x ∷ []), sum_by-reverse f xs)

module _ {ℓ κ} {A : Type ℓ} {B : Type κ} where
  pub sum_by-map :
      (f : A → ℕ) (g : B → A) (xs : List B) → sum_by f (map g xs) ≡ sum_by (λ x. f (g x)) xs
  sum_by-map f g [] = refl
  sum_by-map f g (x ∷ xs) = omega (arith, sum_by-map f g xs)

module _ {ℓ} {A : Type ℓ} where
  pub length-insert_by :
      (before : A → A → Bool) (x : A) (xs : List A)
      → length (insert_by before x xs) ≡ suc (length xs)
  length-insert_by before x [] = refl
  length-insert_by before x (y ∷ ys) = elim (Bool-cases (before y x)) [
    | inl e ↦ rw (e, length) (omega (arith, length-insert_by before x ys))
    | inr e ↦ rw (e, length) refl
  ]

  pub length-sort_by :
      (before : A → A → Bool) (xs : List A) → length (sort_by before xs) ≡ length xs
  length-sort_by before [] = refl
  length-sort_by before (x ∷ xs) =
      omega (arith, length-insert_by before x (sort_by before xs), length-sort_by before xs)

  pub length-reverse : (xs : List A) → length (reverse xs) ≡ length xs
  length-reverse [] = refl
  length-reverse (x ∷ xs) = omega (arith, length-append (reverse xs) (x ∷ []), length-reverse xs)

module _ {ℓ} {A : Type ℓ} (P : A → Type ℓ) where
  pub All-append : (xs ys : List A) → All P xs → All P ys → All P (xs ++ ys)
  All-append [] ys a b = b
  All-append (x ∷ xs) ys (p, a) b = (p, All-append xs ys a b)

  pub All-append_parts : (xs ys : List A) → All P (xs ++ ys) → All P xs × All P ys
  All-append_parts [] ys a = (tt, a)
  All-append_parts (x ∷ xs) ys (p, a) = let (b, c) = All-append_parts xs ys a in ((p, b), c)

  pub All-insert_by :
      (before : A → A → Bool) (x : A) (xs : List A) → P x → All P xs → All P (insert_by before x xs)
  All-insert_by before x [] p a = (p, tt)
  All-insert_by before x (y ∷ ys) p (q, a) = elim (Bool-cases (before y x)) [
    | inl e ↦ rw (e, All) (q, All-insert_by before x ys p a)
    | inr e ↦ rw (e, All) (p, (q, a))
  ]

  pub All-sort_by : (before : A → A → Bool) (xs : List A) → All P xs → All P (sort_by before xs)
  All-sort_by before [] a = tt
  All-sort_by before (x ∷ xs) (p, a) =
      All-insert_by before x (sort_by before xs) p (All-sort_by before xs a)

  pub All-reverse : (xs : List A) → All P xs → All P (reverse xs)
  All-reverse [] a = tt
  All-reverse (x ∷ xs) (p, a) = All-append (reverse xs) (x ∷ []) (All-reverse xs a) (p, tt)
