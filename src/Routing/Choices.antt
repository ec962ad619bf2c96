-- ===== src/Routing/Choices.antt =====
-- lumenrl/moe/rollout_routing.py, `apply_replay`: choosing and gathering succeed on tensors whose sizes
-- agree, with ids of experts that there are.
use lumen_rl.Base.{
  ℕ, zero, suc, ◌≤◌, ◌<◌, ◌≡◌, refl, ap, ap₂, sym, subst, map, ◌∙◌, Bool, List, [], ◌∷◌,
  if◌then◌else◌, ==_iff, length, replicate, drop, take, get_elem?, or_raise, some, ok, err,
  runtime_error, ◌>>=◌, All, arith,
}
use lumen_rl.Routing.{wide, spread, where_row, where_rows, where_valid, gather_row, gather_rows}

-- A choice of that many experts, all of which there are.
abbrev pub IsChoice : ℕ → ℕ → List ℕ → Type 0
IsChoice top_k experts ids = (length ids ≡ top_k) × All (λ i. i < experts) ids

-- The choice position by position.
abbrev pub picked : List Bool → List (List ℕ) → List (List ℕ) → List (List ℕ)
picked (v ∷ vs) (x ∷ xs) (y ∷ ys) = (if v then x else y) ∷ picked vs xs ys
picked _ _ _ = []

module _ {ℓ} {A : Type ℓ} where
  spread_same : (n : ℕ) (xs : List A) → length xs ≡ n → spread n xs ≡ ok xs
  unfolding spread
  spread_same n [] h =
      ap (λ b. if b then ok [] else err runtime_error) ((==_iff n 0).1 (omega arith))
  spread_same n (x ∷ []) h = let one : n ≡ 1 = omega arith in ap (λ k. ok (replicate k x)) one
  spread_same n (x ∷ y ∷ xs) h =
      ap (λ b. if b then ok (x ∷ y ∷ xs) else err runtime_error)
        ((==_iff (length (x ∷ y ∷ xs)) n).1 h)

wide_same : (m n : ℕ) → m ≡ n → wide m n ≡ n
wide_same m n h = ground arith

where_row-picked :
    (v : Bool) (xs ys : List ℕ)
    → length xs ≡ length ys
    → where_row v xs ys ≡ ok (if v then xs else ys)
unfolding where_row
where_row-picked v xs ys h =
    let n = wide (length xs) (length ys) in
    let w : n ≡ length ys = wide_same (length xs) (length ys) h in
    ap₂ (λ r s. r >>= λ x. s >>= λ y. ok (if v then x else y))
      (spread_same n xs (omega (arith, w, h))) (spread_same n ys (omega (arith, w)))

where_rows-picked :
    (k : ℕ) (vs : List Bool) (xs ys : List (List ℕ))
    → All (λ x. length x ≡ k) xs
    → All (λ y. length y ≡ k) ys
    → where_rows vs xs ys ≡ ok (picked vs xs ys)
unfolding where_rows
where_rows-picked k [] xs ys a b = refl
where_rows-picked k (v ∷ vs) [] ys a b = refl
where_rows-picked k (v ∷ vs) (x ∷ xs) [] a b = refl
where_rows-picked k (v ∷ vs) (x ∷ xs) (y ∷ ys) (p, a) (q, b) =
    ap₂ (λ r s. r >>= λ row. s >>= λ rest. ok (row ∷ rest))
      (where_row-picked v x y (omega (arith, p, q))) (where_rows-picked k vs xs ys a b)

pub where_valid-picked :
    (k : ℕ) (vs : List Bool) (xs ys : List (List ℕ))
    → length vs ≡ length ys
    → length xs ≡ length ys
    → All (λ x. length x ≡ k) xs
    → All (λ y. length y ≡ k) ys
    → where_valid vs xs ys ≡ ok (picked vs xs ys)
unfolding where_valid
where_valid-picked k vs xs ys p q a b =
    let n = wide (length vs) (wide (length xs) (length ys)) in
    let w : n ≡ length ys =
      ap (wide (length vs)) (wide_same (length xs) (length ys) q)
      ∙ wide_same (length vs) (length ys) p in
    ap (λ r. r >>= λ v. spread n xs >>= λ x. spread n ys >>= λ y. where_rows v x y)
      (spread_same n vs (omega (arith, w, p)))
    ∙ ap₂ (λ r s. r >>= λ x. s >>= λ y. where_rows vs x y) (spread_same n xs (omega (arith, w, q)))
        (spread_same n ys (omega (arith, w)))
    ∙ where_rows-picked k vs xs ys a b

module _ {W : Type 0} where
  found : (probs : List W) (i : ℕ) → i < length probs → (w : W) × (get_elem? probs i ≡ some w)
  found [] i h = absurd (omega arith)
  found (p ∷ probs) zero h = (p, refl)
  found (p ∷ probs) (suc i) h = found probs i (omega arith)

  gather_row-ok :
      (probs : List W) (ids : List ℕ)
      → All (λ i. i < length probs) ids
      → (row : List W) × (gather_row probs ids ≡ ok row)
  unfolding gather_row
  gather_row-ok probs [] a = ([], refl)
  gather_row-ok probs (i ∷ ids) (h, a) =
      let (w, e) = found probs i h in
      let (row, f) = gather_row-ok probs ids a in
      (w ∷ row, ap₂ (λ o r. or_raise o runtime_error >>= λ x. r >>= λ xs. ok (x ∷ xs)) e f)

  pub gather_rows-ok :
      (top_k experts : ℕ) (probs : List (List W)) (ids : List (List ℕ))
      → All (λ p. length p ≡ experts) probs
      → All (IsChoice top_k experts) ids
      → length ids ≤ length probs
      → (rows : List (List W)) × (gather_rows probs ids ≡ ok rows)
  unfolding gather_rows
  gather_rows-ok top_k experts probs [] a b h = ([], refl)
  gather_rows-ok top_k experts [] (is ∷ ids) a b h = absurd (omega arith)
  gather_rows-ok top_k experts (p ∷ probs) (is ∷ ids) (e, a) ((size, below), b) h =
      let (row, f) = gather_row-ok p is (subst (λ n. All (λ i. i < n) is) (sym e) below) in
      let (rows, g) = gather_rows-ok top_k experts probs ids a b (omega arith) in
      (row ∷ rows, ap₂ (λ r s. r >>= λ x. s >>= λ xs. ok (x ∷ xs)) f g)

module _ {ℓ κ} {A : Type ℓ} (P : A → Type κ) where
  pub All-drop : (n : ℕ) (xs : List A) → All P xs → All P (drop n xs)
  All-drop zero xs a = a
  All-drop (suc n) [] a = tt
  All-drop (suc n) (x ∷ xs) (p, a) = All-drop n xs a

  pub All-take : (n : ℕ) (xs : List A) → All P xs → All P (take n xs)
  All-take zero xs a = tt
  All-take (suc n) [] a = tt
  All-take (suc n) (x ∷ xs) (p, a) = (p, All-take n xs a)

  pub All-replicate : (n : ℕ) (x : A) → P x → All P (replicate n x)
  All-replicate zero x p = tt
  All-replicate (suc n) x p = (p, All-replicate n x p)

module _ {ℓ κ μ} {A : Type ℓ} {B : Type μ} (f : A → B) (P : B → Type κ) where
  pub All-map : (xs : List A) → All (λ x. P (f x)) xs → All P (map f xs)
  All-map [] a = tt
  All-map (x ∷ xs) (p, a) = (p, All-map xs a)
