-- ===== src/RlTrainer/Response/Cleared.antt =====
-- lumenrl/trainer/rl_trainer.py: what is left of a mask after `_build_response_mask` clears the prompt.
use lumen_rl.Base.{
  drop-zero, take-zero, keep_where-nil, keep_where-none, minus_zero, suc_minus, ℕ, zero, suc, ◌+◌,
  ◌-◌, ◌<◌, ◌≡◌, refl, sym, ap, ap₂, ◌∙◌, Bool, true, false, List, [], ◌∷◌, ◌++◌, take, drop,
  replicate, range_from, keep_where, arith, take-nil,
}
use lumen_rl.RlTrainer.Response.{real_positions, last_of, clear}

pub real_positions-pad :
    (i p : ℕ) (mask : List Bool)
    → real_positions i (replicate p false ++ mask) ≡ real_positions (i + p) mask
unfolding real_positions
real_positions-pad i zero mask = ap (λ j. real_positions j mask) (omega arith)
real_positions-pad i (suc p) mask =
    real_positions-pad (suc i) p mask ∙ ap (λ j. real_positions j mask) (omega arith)

pub real_positions-real :
    (i n q : ℕ) → real_positions i (replicate n true ++ replicate q false) ≡ range_from i n
unfolding real_positions
real_positions-real i zero zero = refl
real_positions-real i zero (suc q) = real_positions-real (suc i) zero q
real_positions-real i (suc n) q = ap (◌∷◌ i) (real_positions-real (suc i) n q)

pub last_of-range : (p n : ℕ) → last_of p (range_from (suc p) n) ≡ p + n
unfolding last_of
last_of-range p zero = omega arith
last_of-range p (suc n) = last_of-range (suc p) n ∙ omega arith

pub clear-pad :
    (p k : ℕ) (mask : List Bool)
    → clear p k (replicate p false ++ mask) ≡ replicate p false ++ clear 0 k mask
unfolding clear
clear-pad zero k mask = refl
clear-pad (suc p) k mask = ap (◌∷◌ false) (clear-pad p k mask)

clear-zero : (mask : List Bool) → clear 0 0 mask ≡ mask
unfolding clear
clear-zero [] = refl
clear-zero (b ∷ mask) = refl

clear-none : (k q : ℕ) → clear 0 k (replicate q false) ≡ replicate q false
unfolding clear
clear-none zero zero = refl
clear-none zero (suc q) = refl
clear-none (suc k) zero = refl
clear-none (suc k) (suc q) = ap (◌∷◌ false) (clear-none k q)

pub clear-first :
    (p k n q : ℕ)
    → 0 < k
    → (rest : List Bool) × (clear p k
          (replicate p false ++ (replicate (suc n) true ++ replicate q false))
        ≡ false ∷ rest)
unfolding clear
clear-first zero zero n q h = absurd (omega arith)
clear-first zero (suc k) n q h = (_, refl)
clear-first (suc p) k n q h = (_, refl)

module _ {A : Type 0} where
  pub keep_where-pad :
      (p : ℕ) (mask : List Bool) (xs : List A)
      → keep_where (replicate p false ++ mask) xs ≡ keep_where mask (drop p xs)
  keep_where-pad zero mask xs = ap (keep_where mask) (sym (drop-zero xs))
  keep_where-pad (suc p) mask [] = sym (keep_where-nil mask)
  keep_where-pad (suc p) mask (x ∷ xs) = keep_where-pad p mask xs

  keep_where-real :
      (n q : ℕ) (xs : List A) → keep_where (replicate n true ++ replicate q false) xs ≡ take n xs
  keep_where-real zero q xs = keep_where-none q xs ∙ sym (take-zero xs)
  keep_where-real (suc n) q [] = refl
  keep_where-real (suc n) q (x ∷ xs) = ap (◌∷◌ x) (keep_where-real n q xs)

  -- What is left of the real tokens after the first `k` are cleared.
  pub keep_where-clear :
      (k n q : ℕ) (xs : List A)
      → keep_where (clear 0 k (replicate n true ++ replicate q false)) xs ≡ take (n - k) (drop k xs)
  unfolding clear
  keep_where-clear zero n q xs =
      ap (λ m. keep_where m xs) (clear-zero (replicate n true ++ replicate q false))
      ∙ keep_where-real n q xs
      ∙ ap₂ take (minus_zero n) (sym (drop-zero xs))
  keep_where-clear (suc k) zero q xs =
      ap (λ m. keep_where m xs) (clear-none (suc k) q)
      ∙ keep_where-none q xs
      ∙ sym (ap (λ n. take n (drop (suc k) xs)) (none_left k) ∙ take-zero (drop (suc k) xs))
    where
      none_left : (k : ℕ) → 0 - suc k ≡ 0
      none_left k = omega arith
  keep_where-clear (suc k) (suc n) q [] =
      keep_where-nil (clear 0 (suc k) (replicate (suc n) true ++ replicate q false))
      ∙ sym (take-nil (suc n - suc k))
  keep_where-clear (suc k) (suc n) q (x ∷ xs) =
      keep_where-clear k n q xs ∙ ap (λ m. take m (drop k xs)) (suc_minus k n)
