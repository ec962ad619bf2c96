-- ===== src/RlTrainer/Rollout/Columns.antt =====
-- lumenrl/trainer/rl_trainer.py: the kept entries of a column of a round, by index and by prompt.
use lumen_rl.Base.{
  drop-zero, take-zero, ℕ, zero, suc, ◌+◌, ◌*◌, ◌≤◌, ◌≡◌, refl, sym, ap, ap₂, ◌∙◌, Bool, true,
  false, List, [], ◌∷◌, ◌++◌, append_assoc, if◌then◌else◌, length, length-take, length-drop,
  length-append, take, drop, replicate, flat_map, take-nil, get_elem?, some, ok, ◌>>=◌, or_raise,
  index_error, arith, All, keep_where,
}
use lumen_rl.Packing.{count_true}
use lumen_rl.RlTrainer.Response.{real_positions}
use lumen_rl.RlTrainer.Rollout.{expand, pick}
use lumen_rl.RlTrainer.Rollout.Groups.{groups, first_group, later_groups}

pub length-real_positions :
    (i : ℕ) (mask : List Bool) → length (real_positions i mask) ≡ count_true mask
unfolding real_positions count_true
length-real_positions i [] = refl
length-real_positions i (true ∷ mask) = ap suc (length-real_positions (suc i) mask) ∙ omega arith
length-real_positions i (false ∷ mask) = length-real_positions (suc i) mask ∙ omega arith

count_true-block :
    (g : ℕ) (b : Bool) (mask : List Bool)
    → count_true (replicate g b ++ mask) ≡ (if b then g else 0) + count_true mask
unfolding count_true
count_true-block zero true mask = omega arith
count_true-block zero false mask = omega arith
count_true-block (suc g) true mask = omega (arith, count_true-block g true mask)
count_true-block (suc g) false mask = omega (arith, count_true-block g false mask)

pub count_true-expand : (g : ℕ) (fl : List Bool) → count_true (expand g fl) ≡ count_true fl * g
unfolding expand count_true
count_true-expand g [] = omega arith
count_true-expand g (true ∷ fl) =
    omega (arith, count_true-block g true (expand g fl), count_true-expand g fl)
count_true-expand g (false ∷ fl) =
    omega (arith, count_true-block g false (expand g fl), count_true-expand g fl)

module _ {X : Type 0} where
  get_elem?-middle :
      (pre : List X) (x : X) (xs : List X) → get_elem? (pre ++ x ∷ xs) (length pre) ≡ some x
  get_elem?-middle [] x xs = refl
  get_elem?-middle (y ∷ pre) x xs = get_elem?-middle pre x xs

  pick-after :
      (pre xs : List X) (mask : List Bool)
      → length mask ≡ length xs
      → pick (pre ++ xs) (real_positions (length pre) mask) ≡ ok (keep_where mask xs)
  unfolding pick real_positions
  pick-after pre [] [] l = refl
  pick-after pre [] (b ∷ mask) l = absurd (omega arith)
  pick-after pre (x ∷ xs) [] l = absurd (omega arith)
  pick-after pre (x ∷ xs) (b ∷ mask) l =
      let moved : (pre ++ x ∷ []) ++ xs ≡ pre ++ x ∷ xs = append_assoc pre (x ∷ []) xs in
      let size : length (pre ++ x ∷ []) ≡ suc (length pre) =
        length-append pre (x ∷ []) ∙ omega arith in
      let later : pick (pre ++ x ∷ xs) (real_positions (suc (length pre)) mask)
          ≡ ok (keep_where mask xs) =
        ap₂ (λ ys i. pick ys (real_positions i mask)) (sym moved) (sym size)
        ∙ pick-after (pre ++ x ∷ []) xs mask (omega arith) in
      first b later
    where
      first :
          (b : Bool)
          → pick (pre ++ x ∷ xs) (real_positions (suc (length pre)) mask) ≡ ok (keep_where mask xs)
          → pick (pre ++ x ∷ xs) (real_positions (length pre) (b ∷ mask))
            ≡ ok (keep_where (b ∷ mask) (x ∷ xs))
      first false later = later
      first true later =
          ap₂ (λ o r. or_raise o index_error >>= λ y. r >>= λ ys. ok (y ∷ ys))
            (get_elem?-middle pre x xs) later

  -- The entries at the positions that a mask marks.
  pub pick-kept :
      (xs : List X) (mask : List Bool)
      → length mask ≡ length xs
      → pick xs (real_positions 0 mask) ≡ ok (keep_where mask xs)
  pick-kept xs mask l = pick-after [] xs mask l

  keep_where-block :
      (g : ℕ) (b : Bool) (mask : List Bool) (xs : List X)
      → g ≤ length xs
      → keep_where (replicate g b ++ mask) xs
        ≡ (if b then take g xs else []) ++ keep_where mask (drop g xs)
  keep_where-block zero true mask xs h =
      ap₂ (λ ys zs. ys ++ keep_where mask zs) (sym (take-zero xs)) (sym (drop-zero xs))
  keep_where-block zero false mask xs h = ap (keep_where mask) (sym (drop-zero xs))
  keep_where-block (suc g) b mask [] h = absurd (omega arith)
  keep_where-block (suc g) true mask (x ∷ xs) h =
      ap (◌∷◌ x) (keep_where-block g true mask xs (omega arith))
  keep_where-block (suc g) false mask (x ∷ xs) h = keep_where-block g false mask xs (omega arith)

  abbrev pub joined : List (List X) → List X
  joined gs = flat_map (λ xs. xs) gs

  -- A prompt's entries are kept together.
  pub keep_where-expand :
      (g : ℕ) (fl : List Bool) (xs : List X)
      → length xs ≡ length fl * g
      → keep_where (expand g fl) xs ≡ joined (keep_where fl (groups (length fl) g xs))
  unfolding expand
  keep_where-expand g [] xs l = refl
  keep_where-expand g (b ∷ fl) xs l =
      keep_where-block g b (expand g fl) xs (first_group g (length fl) (length xs) l)
      ∙ ap (λ ys. (if b then take g xs else []) ++ ys)
          (keep_where-expand g fl (drop g xs)
            (length-drop g xs ∙ later_groups g (length fl) (length xs) l))
      ∙ first b
    where
      first :
          (b : Bool)
          → (if b then take g xs else [])
              ++ joined (keep_where fl (groups (length fl) g (drop g xs)))
            ≡ joined (keep_where (b ∷ fl) (groups (suc (length fl)) g xs))
      first true = refl
      first false = refl

  abbrev pub Grouped : ℕ → List (List X) → Type 0
  Grouped g gs = All (λ xs. length xs ≡ g) gs

  pub groups-Grouped :
      (fl : List Bool) (g : ℕ) (xs : List X)
      → length xs ≡ length fl * g
      → Grouped g (keep_where fl (groups (length fl) g xs))
  groups-Grouped [] g xs l = tt
  groups-Grouped (b ∷ fl) g xs l = first b (
      groups-Grouped fl g (drop g xs) (length-drop g xs ∙ later_groups g (length fl) (length xs) l))
    where
      first :
          (b : Bool)
          → Grouped g (keep_where fl (groups (length fl) g (drop g xs)))
          → Grouped g (keep_where (b ∷ fl) (groups (suc (length fl)) g xs))
      first true a = (omega (arith, length-take g xs, first_group g (length fl) (length xs) l), a)
      first false a = a

  pub take-joined :
      (n g : ℕ) (gs : List (List X)) → Grouped g gs → take (n * g) (joined gs) ≡ joined (take n gs)
  take-joined zero g gs a =
      ap (λ m. take m (joined gs)) {y = 0} (omega arith)
      ∙ take-zero (joined gs)
      ∙ ap joined (sym (take-zero gs))
  take-joined (suc n) g [] a = take-nil (suc n * g)
  take-joined (suc n) g (xs ∷ gs) (e, a) =
      ap (λ m. take m (xs ++ joined gs)) {y = length xs + n * g} (omega arith)
      ∙ take-past xs (n * g) (joined gs)
      ∙ ap (◌++◌ xs) (take-joined n g gs a)
    where
      take-past :
          (xs : List X) (n : ℕ) (ys : List X) → take (length xs + n) (xs ++ ys) ≡ xs ++ take n ys
      take-past [] n ys = ap (λ m. take m ys) (omega arith)
      take-past (x ∷ xs) n ys =
          ap (λ m. take m (x ∷ xs ++ ys)) {y = suc (length xs + n)} (omega arith)
          ∙ ap (◌∷◌ x) (take-past xs n ys)
