-- ===== src/Base/Slices.antt =====
-- Python's sequence operations: ranges, slices, indices counted from either end.
use Prim.Native.Nat.{ℕ, zero, suc, ◌+◌, ◌-◌, ◌≤◌, min}
use mathlib.Core.Path.{◌≡◌, refl, ap, ◌∙◌, sym}
use mathlib.Core.Bool.{Bool}
use mathlib.Core.List.{List, [], ◌∷◌, ◌++◌, append_assoc}
use native.Mathlib.Omega.{arith}
use native.Mathlib.Nat.{add-zero}
use lumen_rl.Base.Arith.{suc_add}
use lumen_rl.Base.Tests.{ltb, if◌then◌else◌}
use lumen_rl.Base.Int.{ℤ, pos, negsuc}
use lumen_rl.Base.Results.{Result, err, index_error, or_raise, traverse}
use lumen_rl.Base.Lists.{length, get_elem?, replicate, take, drop, length-take, length-drop}

abbrev pub range_from : ℕ → ℕ → List ℕ
range_from i zero = []
range_from i (suc n) = i ∷ range_from (suc i) n

-- `range(n)`.
abbrev pub range : ℕ → List ℕ
range n = range_from 0 n

pub length-range_from : (i n : ℕ) → length (range_from i n) ≡ n
length-range_from i zero = refl
length-range_from i (suc n) = ap suc (length-range_from (suc i) n)

module _ {ℓ κ} {A : Type ℓ} {B : Type κ} where
  -- `[y for x in xs for y in f(x)]`.
  abbrev pub flat_map : (A → List B) → List A → List B
  flat_map f [] = []
  flat_map f (x ∷ xs) = f x ++ flat_map f xs

  pub flat_map-append :
      (f : A → List B) (xs ys : List A) → flat_map f (xs ++ ys) ≡ flat_map f xs ++ flat_map f ys
  flat_map-append f [] ys = refl
  flat_map-append f (x ∷ xs) ys =
      ap (◌++◌ (f x)) (flat_map-append f xs ys) ∙ sym (append_assoc (f x) _ _)

pub mono_add : (b : ℕ → ℕ) → ((j : ℕ) → b j ≤ b (suc j)) → (i n : ℕ) → b i ≤ b (i + n)
mono_add b mono i zero = rw add-zero (omega arith)
mono_add b mono i (suc n) =
    let e : i + suc n ≡ suc (i + n) = omega arith in
    rw e (omega (arith, mono (i + n), mono_add b mono i n))

module _ {ℓ} {A : Type ℓ} where
  -- `xs[a:b]` for a, b not negative.
  unfoldable pub slice : ℕ → ℕ → List A → List A
  slice a b xs = take (b - a) (drop a xs)

  pub length-slice : (a b : ℕ) (xs : List A) → length (slice a b xs) ≡ min (b - a) (length xs - a)
  unfolding slice
  length-slice a b xs = omega (arith, length-take (b - a) (drop a xs), length-drop a xs)

  pub take-all : (n : ℕ) (xs : List A) → length xs ≤ n → take n xs ≡ xs
  take-all zero [] h = refl
  take-all zero (x ∷ xs) h = absurd (omega arith)
  take-all (suc n) [] h = refl
  take-all (suc n) (x ∷ xs) h = ap (◌∷◌ x) (take-all n xs (omega arith))

  pub take-zero : (xs : List A) → take 0 xs ≡ []
  take-zero [] = refl
  take-zero (x ∷ xs) = refl

  pub drop-zero : (xs : List A) → drop 0 xs ≡ xs
  drop-zero [] = refl
  drop-zero (x ∷ xs) = refl

  pub take-nil : (n : ℕ) → take {A = A} n [] ≡ []
  take-nil zero = refl
  take-nil (suc n) = refl

  pub drop-nil : (n : ℕ) → drop {A = A} n [] ≡ []
  drop-nil zero = refl
  drop-nil (suc n) = refl

  pub slice-empty : (a : ℕ) (xs : List A) → slice a a xs ≡ []
  unfolding slice
  slice-empty a xs = let e : a - a ≡ 0 = omega arith in rw e

  pub slice-nil : (a b : ℕ) → slice a b [] ≡ []
  unfolding slice
  slice-nil a b = rw (drop-nil a) (take-nil (b - a))

  take-add : (m n : ℕ) (xs : List A) → take m xs ++ take n (drop m xs) ≡ take (m + n) xs
  take-add zero n xs = ground arith
  take-add (suc m) n [] = rw (suc_add m n) (take-nil n)
  take-add (suc m) n (x ∷ xs) = rw (suc_add m n) (ap (◌∷◌ x) (take-add m n xs))

  pub drop-drop : (m n : ℕ) (xs : List A) → drop n (drop m xs) ≡ drop (m + n) xs
  drop-drop zero n xs = ground arith
  drop-drop (suc m) n [] = rw (suc_add m n) (drop-nil n)
  drop-drop (suc m) n (x ∷ xs) = rw (suc_add m n) (drop-drop m n xs)

  -- Adjacent slices join.
  pub slice-append :
      (a b c : ℕ) (xs : List A) → a ≤ b → b ≤ c → slice a b xs ++ slice b c xs ≡ slice a c xs
  unfolding slice
  slice-append a b c xs h k =
      let from_a : drop b xs ≡ drop (b - a) (drop a xs) =
        (let e : b ≡ a + (b - a) = omega arith in
          ap (λ j. drop j xs) e ∙ sym (drop-drop a (b - a) xs)) in
      let total : (b - a) + (c - b) ≡ c - a = omega arith in
      rw from_a (take-add (b - a) (c - b) (drop a xs) ∙ ap (λ j. take j (drop a xs)) total)

  pub slice-all : (n : ℕ) (xs : List A) → length xs ≤ n → slice 0 n xs ≡ xs
  unfolding slice
  slice-all n xs h = take-all (n - 0) xs (omega arith)

  -- The slices between consecutive bounds join to the slice between the outer two.
  pub flat_map-slice :
      (b : ℕ → ℕ) (xs : List A) (i n : ℕ)
      → ((j : ℕ) → b j ≤ b (suc j))
      → flat_map (λ j. slice (b j) (b (suc j)) xs) (range_from i n) ≡ slice (b i) (b (i + n)) xs
  flat_map-slice b xs i zero mono = rw add-zero (sym (slice-empty (b i) xs))
  flat_map-slice b xs i (suc n) mono =
      let e : suc i + n ≡ i + suc n = omega arith in
      ap (◌++◌ (slice (b i) (b (suc i)) xs)) (flat_map-slice b xs (suc i) n mono)
      ∙ slice-append (b i) (b (suc i)) (b (suc i + n)) xs (mono i) (mono_add b mono (suc i) n)
      ∙ ap (λ j. slice (b i) (b j) xs) e

module _ {ℓ} {A : Type ℓ} where
  -- `xs[i]`, which counts a negative index from the end.
  abbrev pub py_get : List A → ℤ → Result A
  py_get xs (pos i) = or_raise (get_elem? xs i) index_error
  py_get xs (negsuc i) =
      if ltb i (length xs)
      then or_raise (get_elem? xs (length xs - suc i)) index_error
      else err index_error

  -- `[xs[i] for i in idxs]`.
  abbrev pub gather : List A → List ℤ → Result (List A)
  gather xs = traverse (py_get xs)

  -- The entries at which a mask is true.
  abbrev pub keep_where : List Bool → List A → List A
  keep_where [] xs = []
  keep_where (b ∷ bs) [] = []
  keep_where (b ∷ bs) (x ∷ xs) = if b then x ∷ keep_where bs xs else keep_where bs xs

  -- Every entry as often as the second list says.
  abbrev pub repeat_each : List A → List ℕ → List A
  repeat_each [] rs = []
  repeat_each (x ∷ xs) [] = []
  repeat_each (x ∷ xs) (r ∷ rs) = replicate r x ++ repeat_each xs rs

  -- The whole list, `r` times.
  abbrev pub repeat_all : ℕ → List A → List A
  repeat_all zero xs = []
  repeat_all (suc r) xs = xs ++ repeat_all r xs

  abbrev pub All {κ} : (A → Type κ) → List A → Type κ
  All P [] = Unit
  All P (x ∷ xs) = P x × All P xs
