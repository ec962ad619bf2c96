-- ===== src/RlTrainer/MiniBatches/Segments.antt =====
-- lumenrl/trainer/rl_trainer.py, `_dynamic_mini_batches`:
-- The bounds of the mini-batches: they follow one another, and keep to the limit.
use lumen_rl.Base.{
  ℕ, zero, suc, ◌+◌, ◌-◌, ◌≤◌, ◌<◌, ◌≡◌, refl, sym, subst, ap, ◌∙◌, false, ◌&&◌, List, [], ◌∷◌,
  ◌++◌, ltb, length, length-drop, take, drop, drop-drop, slice, slice-append, slice-empty, sum_by,
  arith, Bool-cases, ◌⊎◌, inl, inr, All, flat_map,
}
use lumen_rl.RlTrainer.MiniBatches.{take_run, segments_from, segments}

-- The segments go from `a` to `n` without a gap, and none is empty.
abbrev pub Tiles : ℕ → ℕ → List (ℕ × ℕ) → Type 0
Tiles a n [] = a ≡ n
Tiles a n ((b, c) ∷ segs) = (a ≡ b) × (b < c) × Tiles c n segs

abbrev pub sum : List ℕ → ℕ
sum ls = sum_by (λ l. l) ls

-- Tokens within the limit, or a single row.
abbrev Capped : ℕ → List ℕ → List (ℕ × ℕ) → Type 0
Capped limit ls [] = Unit
Capped limit ls ((a, b) ∷ segs) =
    ((sum (take (b - a) ls) ≤ limit) ⊎ (b ≡ suc a)) × Capped limit (drop (b - a) ls) segs

take_run-first : (limit l : ℕ) (ls : List ℕ) → 0 < take_run limit 0 0 (l ∷ ls)
unfolding take_run
take_run-first limit l ls = ground arith

take_run-le : (limit tok taken : ℕ) (ls : List ℕ) → take_run limit tok taken ls ≤ length ls
unfolding take_run
take_run-le limit tok taken [] = omega arith
take_run-le limit tok taken (l ∷ ls) = ground (arith, take_run-le limit (tok + l) (suc taken) ls)

abbrev Good : ℕ → ℕ → ℕ → List ℕ → ℕ → Type 0
Good limit tok taken ls n = (tok + sum (take n ls) ≤ limit) ⊎ (taken + n ≡ 1)

Good-step :
    (limit tok taken l n : ℕ) (ls : List ℕ)
    → Good limit (tok + l) (suc taken) ls n
    → Good limit tok taken (l ∷ ls) (suc n)
Good-step limit tok taken l n ls (inl h) = inl (omega arith)
Good-step limit tok taken l n ls (inr h) = inr (omega arith)

next_start :
    (limit tok taken l : ℕ)
    → (ltb limit (tok + l) && ltb 0 taken) ≡ false
    → (tok + l ≤ limit) ⊎ (suc taken ≡ 1)
next_start limit tok taken l h = elim (Bool-cases (ltb 0 taken)) [
  | inl some_taken ↦ inl (ground arith)
  | inr none_taken ↦ inr (ground arith)
]

take_run-Good :
    (limit tok taken : ℕ) (ls : List ℕ)
    → (tok ≤ limit) ⊎ (taken ≡ 1)
    → Good limit tok taken ls (take_run limit tok taken ls)
unfolding take_run
take_run-Good limit tok taken [] (inl h) = inl (omega arith)
take_run-Good limit tok taken [] (inr h) = inr (omega arith)
take_run-Good limit tok taken (l ∷ ls) h = elim (Bool-cases (ltb limit (tok + l) && ltb 0 taken)) [
  | inl stop ↦ rw stop (stopped limit tok taken (l ∷ ls) h)
  | inr go ↦ rw go (
      Good-step limit tok taken l _ ls
        (take_run-Good limit (tok + l) (suc taken) ls (next_start limit tok taken l go)))
]
  where
    stopped :
        (limit tok taken : ℕ) (ls : List ℕ)
        → (tok ≤ limit) ⊎ (taken ≡ 1)
        → Good limit tok taken ls 0
    stopped limit tok taken ls (inl h) = inl (omega arith)
    stopped limit tok taken ls (inr h) = inr (omega arith)

segments_from-Tiles :
    (rounds limit start : ℕ) (ls : List ℕ)
    → length ls ≤ rounds
    → Tiles start (start + length ls) (segments_from rounds limit start ls)
      × Capped limit ls (segments_from rounds limit start ls)
unfolding segments_from
segments_from-Tiles zero limit start [] h = (omega arith, tt)
segments_from-Tiles zero limit start (l ∷ ls) h = absurd (omega arith)
segments_from-Tiles (suc rounds) limit start [] h = (omega arith, tt)
segments_from-Tiles (suc rounds) limit start (l ∷ ls) h =
    let n = take_run limit 0 0 (l ∷ ls) in
    let first = take_run-first limit l ls in
    let within = take_run-le limit 0 0 (l ∷ ls) in
    let (tiles, capped) =
      segments_from-Tiles rounds limit (start + n) (drop n (l ∷ ls))
        (omega (arith, length-drop n (l ∷ ls))) in
    let size : start + n - start ≡ n = omega arith in
    (
      (
        refl,
        omega arith,
        subst (λ m. Tiles (start + n) m (segments_from rounds limit (start + n) (drop n (l ∷ ls))))
            (omega (arith, length-drop n (l ∷ ls))) tiles,
      ),
      (
        good_first limit start n (l ∷ ls) (take_run-Good limit 0 0 (l ∷ ls) (inl (omega arith))),
        subst
            (λ m.
              Capped limit (drop m (l ∷ ls))
                (segments_from rounds limit (start + n) (drop n (l ∷ ls))))
            (sym size) capped,
      ),
    )
  where
    good_first :
        (limit start n : ℕ) (ls : List ℕ)
        → Good limit 0 0 ls n
        → (sum (take (start + n - start) ls) ≤ limit) ⊎ (start + n ≡ suc start)
    good_first limit start n ls (inl g) =
        let size : start + n - start ≡ n = omega arith in inl (rw size (omega arith))
    good_first limit start n ls (inr g) = inr (omega arith)

-- The same by the bounds of a segment.
abbrev pub InLimit : ℕ → List ℕ → ℕ × ℕ → Type 0
InLimit limit ls (a, b) = (sum (slice a b ls) ≤ limit) ⊎ (b ≡ suc a)

Capped-InLimit :
    (limit a n : ℕ) (ls : List ℕ) (segs : List (ℕ × ℕ))
    → Tiles a n segs
    → Capped limit (drop a ls) segs
    → All (InLimit limit ls) segs
unfolding slice
Capped-InLimit limit a n ls [] t c = tt
Capped-InLimit limit a n ls ((b, d) ∷ segs) (e, lt, t) (c, cs) =
    let here : Capped limit (drop b ls) ((b, d) ∷ segs) =
      subst (λ m. Capped limit (drop m ls) ((b, d) ∷ segs)) e (c, cs) in
    let after : b + (d - b) ≡ d = omega arith in
    (
      here.0,
      Capped-InLimit limit d n ls segs t (
          subst (λ l. Capped limit l segs) (drop-drop b (d - b) ls ∙ ap (λ m. drop m ls) after)
            here.1),
    )

-- The loop over mini-batches, given as many rounds as there are rows, cuts all rows: the segments go
-- from row 0 to the last without a gap, none is empty, and each has no more tokens than the limit
-- unless it is a single row.
pub segments-Tiles :
    (limit : ℕ) (ls : List ℕ)
    → Tiles 0 (length ls) (segments limit ls) × All (InLimit limit ls) (segments limit ls)
unfolding segments
segments-Tiles limit ls =
    let (tiles, capped) = segments_from-Tiles (length ls) limit 0 ls (omega arith) in
    let tiles' : Tiles 0 (length ls) (segments_from (length ls) limit 0 ls) =
      subst (λ m. Tiles 0 m (segments_from (length ls) limit 0 ls)) (omega arith) tiles in
    (tiles', Capped-InLimit limit 0 (length ls) ls _ tiles' capped)

pub Tiles-le : (a n : ℕ) (segs : List (ℕ × ℕ)) → Tiles a n segs → a ≤ n
Tiles-le a n [] t = omega arith
Tiles-le a n ((b, c) ∷ segs) (e, lt, t) = omega (arith, Tiles-le c n segs t)

-- The slices at the segments join to all from the first to the last.
pub flat_map-Tiles {ℓ} :
    {A : Type ℓ} (a n : ℕ) (segs : List (ℕ × ℕ)) (xs : List A)
    → Tiles a n segs
    → flat_map (λ s. slice s.0 s.1 xs) segs ≡ slice a n xs
flat_map-Tiles a n [] xs t = sym (ap (λ m. slice m n xs) t ∙ slice-empty n xs)
flat_map-Tiles a n ((b, c) ∷ segs) xs (e, lt, t) =
    ap (λ u. slice b c xs ++ u) (flat_map-Tiles c n segs xs t)
    ∙ slice-append b c n xs (omega arith) (Tiles-le c n segs t)
    ∙ ap (λ m. slice m n xs) (sym e)
