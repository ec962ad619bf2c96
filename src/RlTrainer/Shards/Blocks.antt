-- ===== src/RlTrainer/Shards/Blocks.antt =====
-- lumenrl/trainer/rl_trainer.py, `_balance_rows_across_workers`: the rows at the positions of even
-- parts, and the slices of a list that consists of even blocks.
use lumen_rl.Base.{
  get_elem?-below, ℕ, suc, ◌*◌, ◌≤◌, ◌<◌, ◌≡◌, refl, sym, ap, ap₂, ◌∙◌, List, [], ◌∷◌, ◌++◌,
  append_assoc, map, length, length-append, All-append_parts, flat_map, range_from, slice, gather,
  traverse, or_raise, index_error, ok, ◌>>=◌, arith, All,
}
use lumen_rl.Base.Int.{pos}
use lumen_rl.Base.Ranges.{slice-middle}
use lumen_rl.Balance.Partition.{count_index}

-- A list in which no large number stands has small ones only.
pub all_below :
    (n : ℕ) (is : List ℕ) → ((i : ℕ) → n ≤ i → count_index i is ≡ 0) → All (λ i. i < n) is
all_below n [] h = tt
all_below n (j ∷ is) h = (inside (h j), all_below n is λ i large. ground (arith, h i large))
  where
    inside : (n ≤ j → count_index j (j ∷ is) ≡ 0) → j < n
    inside large = ground arith

abbrev pub Even : {A : Type 0} → ℕ → List (List A) → Type 0
Even per parts = All (λ p. length p ≡ per) parts

pub length-Even :
    {A : Type 0} (per : ℕ) (parts : List (List A))
    → Even per parts
    → length (flat_map (λ p. p) parts) ≡ length parts * per
length-Even per [] h = omega arith
length-Even per (p ∷ parts) (e, h) =
    omega (arith, length-append p (flat_map (λ q. q) parts), length-Even per parts h)

module _ {A : Type 0} (xs : List A) where
  -- Positions before others can be gathered with them.
  gather_then :
      (is js : List ℕ) (zs : List A)
      → All (λ i. i < length xs) is
      → gather xs (map pos js) ≡ ok zs
      → (ys : List A) × (gather xs (map pos is) ≡ ok ys)
        × (gather xs (map pos (is ++ js)) ≡ ok (ys ++ zs))
        × (length ys ≡ length is)
  gather_then [] js zs a f = ([], refl, f, refl)
  gather_then (i ∷ is) js zs (h, a) f =
      let (x, e, _) = get_elem?-below (λ y. y) xs i h in
      let (ys, g, g', l) = gather_then is js zs a f in
      (
        x ∷ ys,
        ap₂ (λ o r. or_raise o index_error >>= λ y. r >>= λ us. ok (y ∷ us)) e g,
        ap₂ (λ o r. or_raise o index_error >>= λ y. r >>= λ us. ok (y ∷ us)) e g',
        ap suc l,
      )

  -- The rows of each part, and of all of them.
  pub gather_parts :
      (per : ℕ) (parts : List (List ℕ))
      → All (λ i. i < length xs) (flat_map (λ p. p) parts)
      → Even per parts
      → (blocks : List (List A)) × (traverse (λ p. gather xs (map pos p)) parts ≡ ok blocks)
        × (gather xs (map pos (flat_map (λ p. p) parts)) ≡ ok (flat_map (λ b. b) blocks))
        × (length blocks ≡ length parts)
        × Even per blocks
  gather_parts per [] a h = ([], refl, refl, refl, tt)
  gather_parts per (p ∷ parts) a (e, h) =
      let (first, later) = All-append_parts (λ i. i < length xs) p (flat_map (λ q. q) parts) a in
      let (blocks, t, f, n, even) = gather_parts per parts later h in
      let (ys, g, g', l) =
        gather_then p (flat_map (λ q. q) parts) (flat_map (λ b. b) blocks) first f in
      (
        ys ∷ blocks,
        ap₂ (λ r s. r >>= λ us. s >>= λ bs. ok (us ∷ bs)) g t,
        g',
        ap suc n,
        (l ∙ e, even),
      )

module _ {A : Type 0} where
  -- Slices of even blocks, joined, are the blocks.
  pub slices-Even :
      (per i : ℕ) (blocks : List (List A)) (before : List A)
      → length before ≡ i * per
      → Even per blocks
      → map
          (λ j. slice (j * per) (suc j * per) (before ++ flat_map (λ b. b) blocks))
          (range_from i (length blocks))
        ≡ blocks
  slices-Even per i [] before l h = refl
  slices-Even per i (b ∷ blocks) before l (e, h) =
      ap₂ ◌∷◌
        (slice-middle before b (flat_map (λ c. c) blocks) (i * per) (suc i * per) (sym l)
          (omega arith))
        (ap (λ zs. map (λ j. slice (j * per) (suc j * per) zs) (range_from (suc i) (length blocks)))
            (sym (append_assoc before b (flat_map (λ c. c) blocks)))
          ∙ slices-Even per (suc i) blocks (before ++ b) (omega (arith, length-append before b)) h)
