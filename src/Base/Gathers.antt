-- ===== src/Base/Gathers.antt =====
-- Lemmas on lists of entries at given positions.
use Prim.Native.Nat.{◌+◌, ◌<◌, ◌≤◌, ℕ, zero, suc}
use mathlib.Core.Path.{◌≡◌, refl, ap, ap₂, sym, ◌∙◌}
use mathlib.Core.Option.{some}
use mathlib.Core.List.{List, [], ◌∷◌, ◌++◌, map, append_assoc}
use native.Mathlib.Omega.{arith}
use lumen_rl.Base.Int.{pos}
use lumen_rl.Base.Results.{Result, ok, err, ◌>>=◌, or_raise, index_error}
use lumen_rl.Base.Lists.{length, get_elem?, replicate, length-append}
use lumen_rl.Base.Slices.{All, range, range_from, flat_map, gather, repeat_all}

pub range_from-below : (i n m : ℕ) → i + n ≤ m → All (λ j. j < m) (range_from i n)
range_from-below i zero m h = tt
range_from-below i (suc n) m h = (omega arith, range_from-below (suc i) n m (omega arith))

module _ {A : Type 0} where
  gather-suc :
      (x : A) (xs : List A) (i n : ℕ)
      → gather (x ∷ xs) (map pos (range_from (suc i) n)) ≡ gather xs (map pos (range_from i n))
  gather-suc x xs i zero = refl
  gather-suc x xs i (suc n) =
      ap (λ r. or_raise (get_elem? xs i) index_error >>= λ y. r >>= λ ys. ok (y ∷ ys))
        (gather-suc x xs (suc i) n)

  -- All positions in order give the whole list.
  pub gather-range : (xs : List A) → gather xs (map pos (range (length xs))) ≡ ok xs
  gather-range [] = refl
  gather-range (x ∷ xs) =
      ap (λ r. r >>= λ ys. ok (x ∷ ys)) (gather-suc x xs 0 (length xs) ∙ gather-range xs)

  bind-ok : (r : Result (List A)) → (r >>= λ ys. ok ys) ≡ r
  bind-ok (ok ys) = refl
  bind-ok (err raised) = refl

  bind-append :
      (o : Result A) (r s : Result (List A))
      → (o >>= λ y. (r >>= λ ys. s >>= λ zs. ok (ys ++ zs)) >>= λ ws. ok (y ∷ ws))
        ≡ ((o >>= λ y. r >>= λ ys. ok (y ∷ ys)) >>= λ ys. s >>= λ zs. ok (ys ++ zs))
  bind-append (err raised) r s = refl
  bind-append (ok y) (err raised) s = refl
  bind-append (ok y) (ok ys) (err raised) = refl
  bind-append (ok y) (ok ys) (ok zs) = refl

  gather-append :
      (xs : List A) (is js : List ℕ)
      → gather xs (map pos (is ++ js))
        ≡ (gather xs (map pos is) >>= λ ys. gather xs (map pos js) >>= λ zs. ok (ys ++ zs))
  gather-append xs [] js = sym (bind-ok (gather xs (map pos js)))
  gather-append xs (i ∷ is) js =
      ap (λ r. or_raise (get_elem? xs i) index_error >>= λ y. r >>= λ ws. ok (y ∷ ws))
        (gather-append xs is js)
      ∙ bind-append (or_raise (get_elem? xs i) index_error) (gather xs (map pos is))
          (gather xs (map pos js))

  gather_both :
      (xs ys zs : List A) (is js : List ℕ)
      → gather xs (map pos is) ≡ ok ys
      → gather xs (map pos js) ≡ ok zs
      → gather xs (map pos (is ++ js)) ≡ ok (ys ++ zs)
  gather_both xs ys zs is js e f =
      gather-append xs is js ∙ ap₂ (λ r s. r >>= λ us. s >>= λ vs. ok (us ++ vs)) e f

  gather_same :
      (xs : List A) (i : ℕ) (x : A)
      → get_elem? xs i ≡ some x
      → (j n : ℕ)
      → gather xs (map pos (flat_map (λ _. i ∷ []) (range_from j n))) ≡ ok (replicate n x)
  gather_same xs i x e j zero = refl
  gather_same xs i x e j (suc n) =
      ap₂ (λ o r. or_raise o index_error >>= λ y. r >>= λ ys. ok (y ∷ ys)) e
        (gather_same xs i x e (suc j) n)

  get_elem?-middle :
      (ys : List A) (x : A) (zs : List A) → get_elem? (ys ++ x ∷ zs) (length ys) ≡ some x
  get_elem?-middle [] x zs = refl
  get_elem?-middle (y ∷ ys) x zs = get_elem?-middle ys x zs

  gather_each_from :
      (r : ℕ) (ys xs : List A)
      → gather (ys ++ xs) (
          map pos
            (flat_map (λ i. flat_map (λ _. i ∷ []) (range r)) (range_from (length ys) (length xs))))
        ≡ ok (flat_map (replicate r) xs)
  gather_each_from r ys [] = refl
  gather_each_from r ys (x ∷ xs) =
      let next : length (ys ++ x ∷ []) ≡ suc (length ys) =
        omega (arith, length-append ys (x ∷ [])) in
      gather_both (ys ++ x ∷ xs) (replicate r x) (flat_map (replicate r) xs)
        (flat_map (λ _. length ys ∷ []) (range r))
        (flat_map (λ i. flat_map (λ _. i ∷ []) (range r))
          (range_from (suc (length ys)) (length xs)))
        (gather_same (ys ++ x ∷ xs) (length ys) x (get_elem?-middle ys x xs) 0 r)
        (ap₂
            (λ zs n. gather zs (
              map pos
                (flat_map (λ i. flat_map (λ _. i ∷ []) (range r)) (range_from n (length xs)))))
            (sym (append_assoc ys (x ∷ []) xs)) (sym next)
          ∙ gather_each_from r (ys ++ x ∷ []) xs)

  -- Every position `r` times gives every entry `r` times.
  pub gather_each :
      (r : ℕ) (xs : List A)
      → gather xs (map pos (flat_map (λ i. flat_map (λ _. i ∷ []) (range r)) (range (length xs))))
        ≡ ok (flat_map (replicate r) xs)
  gather_each r xs = gather_each_from r [] xs

  gather_all_from :
      (xs : List A) (j r : ℕ)
      → gather xs (map pos (flat_map (λ _. range (length xs)) (range_from j r)))
        ≡ ok (repeat_all r xs)
  gather_all_from xs j zero = refl
  gather_all_from xs j (suc r) =
      gather_both xs xs (repeat_all r xs) (range (length xs))
        (flat_map (λ _. range (length xs)) (range_from (suc j) r)) (gather-range xs)
        (gather_all_from xs (suc j) r)

  -- All positions `r` times over give the list `r` times over.
  pub gather_all :
      (r : ℕ) (xs : List A)
      → gather xs (map pos (flat_map (λ _. range (length xs)) (range r))) ≡ ok (repeat_all r xs)
  gather_all r xs = gather_all_from xs 0 r

  -- The first positions give the first entries.
  pub gather-prefix : (xs ys : List A) → gather (xs ++ ys) (map pos (range (length xs))) ≡ ok xs
  gather-prefix [] ys = refl
  gather-prefix (x ∷ xs) ys =
      ap (λ r. r >>= λ zs. ok (x ∷ zs))
        (gather-suc x (xs ++ ys) 0 (length xs) ∙ gather-prefix xs ys)

module _ {A B : Type 0} (f : A → B) where
  pub get_elem?-below :
      (xs : List A) (i : ℕ)
      → i < length xs
      → (x : A) × (get_elem? xs i ≡ some x) × (get_elem? (map f xs) i ≡ some (f x))
  get_elem?-below [] i h = absurd (omega arith)
  get_elem?-below (x ∷ xs) zero h = (x, refl, refl)
  get_elem?-below (x ∷ xs) (suc i) h = get_elem?-below xs i (omega arith)

  -- Positions inside a list can be gathered, before or after a function is applied.
  pub gather-below :
      (xs : List A) (is : List ℕ)
      → All (λ i. i < length xs) is
      → (ys : List A) × (gather xs (map pos is) ≡ ok ys)
        × (gather (map f xs) (map pos is) ≡ ok (map f ys))
        × (length ys ≡ length is)
  gather-below xs [] a = ([], refl, refl, refl)
  gather-below xs (i ∷ is) (h, a) =
      let (x, e, e') = get_elem?-below xs i h in
      let (ys, g, g', l) = gather-below xs is a in
      (
        x ∷ ys,
        ap₂ (λ o r. or_raise o index_error >>= λ y. r >>= λ zs. ok (y ∷ zs)) e g,
        ap₂ (λ o r. or_raise o index_error >>= λ y. r >>= λ zs. ok (y ∷ zs)) e' g',
        ap suc l,
      )
