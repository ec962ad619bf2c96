-- ===== src/LossMask/RoundTrip.antt =====
-- Packing a mask loses nothing, and every list of run lengths is the packing of one mask.
use lumen_rl.Base.Ranges.{replicate-add}
use lumen_rl.Base.{
  ℕ, zero, suc, ◌+◌, ◌-◌, ◌%◌, ◌<◌, ◌≡◌, refl, ap, sym, ◌∙◌, List, [], ◌∷◌, ◌++◌, ◌==◌,
  if◌then◌else◌, true, false, replicate, All, arith, length, append_assoc, Bool-cases, inl, inr,
  length-append, length-replicate,
}
use native.Mathlib.Nat.{add-zero}
use lumen_rl.LossMask.{pack_runs, pack_loss_mask, sum, mark, unpack_runs, unpack_loss_mask}

abbrev pub IsBit : ℕ → Type 0
IsBit v = v < 2

-- Runs of the two values in turn.
alternate : ℕ → List ℕ → List ℕ
alternate v [] = []
alternate v (n ∷ ns) = replicate n v ++ alternate (1 - v) ns

replicate_shift :
    (n : ℕ) (v : ℕ) (ys : List ℕ) → replicate (n + 1) v ++ ys ≡ replicate n v ++ v ∷ ys
replicate_shift zero v ys = refl
replicate_shift (suc n) v ys =
    let e : suc n + 1 ≡ suc (n + 1) = omega arith in rw e (ap (◌∷◌ v) (replicate_shift n v ys))

alternate-pack_runs :
    (v n : ℕ) (mask : List ℕ)
    → IsBit v
    → All IsBit mask
    → alternate v (pack_runs v n mask) ≡ replicate n v ++ mask
unfolding alternate pack_runs
alternate-pack_runs v n [] h hs = refl
alternate-pack_runs v n (x ∷ mask) h (hx, hs) = elim (Bool-cases (x == v)) [
  | inl same ↦
      let e : x ≡ v = ground arith in
      rw (same, pack_runs)
        (alternate-pack_runs v (n + 1) mask h hs
          ∙ replicate_shift n v mask
          ∙ ap (λ z. replicate n v ++ z ∷ mask) (sym e))
  | inr other ↦
      let e : 1 - v ≡ x = ground arith in
      rw (other, pack_runs, e) (ap (◌++◌ (replicate n v)) (alternate-pack_runs x 1 mask hx hs))
]

mark-append :
    (before : List ℕ) (n : ℕ) (after : List ℕ)
    → mark (length before) n (before ++ (replicate n 0 ++ after))
      ≡ before ++ (replicate n 1 ++ after)
unfolding mark
mark-append [] zero after = refl
mark-append [] (suc n) after = ap (◌∷◌ 1) (mark-append [] n after)
mark-append (x ∷ before) n after = ap (◌∷◌ x) (mark-append before n after)

-- One round of the loop writes one run.
round_lem :
    (i n rest : ℕ) (before : List ℕ)
    → (if i % 2 == 1
        then mark (length before) n (before ++ replicate (n + rest) 0)
        else before ++ replicate (n + rest) 0)
      ≡ (before ++ replicate n (i % 2)) ++ replicate rest 0
round_lem i n rest before = elim (Bool-cases (i % 2 == 1)) [
  | inl odd ↦
      let e : i % 2 ≡ 1 = ground arith in
      rw (odd, replicate-add {A = ℕ} n rest 0, e, append_assoc)
        (mark-append before n (replicate rest 0))
  | inr even ↦
      let e : i % 2 ≡ 0 = ground arith in rw (even, replicate-add {A = ℕ} n rest 0, e, append_assoc)
]

unpack_runs-alternate :
    (i : ℕ) (before packed : List ℕ) (pos : ℕ)
    → pos ≡ length before
    → unpack_runs i pos packed (before ++ replicate (sum packed) 0)
      ≡ before ++ alternate (i % 2) packed
unfolding unpack_runs alternate sum
unpack_runs-alternate i before [] pos at_end = refl
unpack_runs-alternate i before (n ∷ packed) pos at_end =
    let flip : suc i % 2 ≡ 1 - i % 2 = omega arith in
    rw (at_end, round_lem i n (sum packed) before)
      (unpack_runs-alternate (suc i) (before ++ replicate n (i % 2)) packed (length before + n)
          (omega (arith, length-append before (replicate n (i % 2)), length-replicate n (i % 2)))
        ∙ append_assoc before (replicate n (i % 2)) (alternate (suc i % 2) packed)
        ∙ ap (λ z. before ++ (replicate n (i % 2) ++ alternate z packed)) flip)

unpack-alternate : (packed : List ℕ) → unpack_loss_mask packed ≡ alternate 0 packed
unfolding unpack_loss_mask alternate
unpack-alternate [] = refl
unpack-alternate (n ∷ packed) = unpack_runs-alternate 0 [] (n ∷ packed) 0 refl

-- Unpacking the packing of a mask of zeros and ones gives the mask back.
pub unpack-pack : (mask : List ℕ) → All IsBit mask → unpack_loss_mask (pack_loss_mask mask) ≡ mask
unfolding pack_loss_mask alternate
unpack-pack [] h = unpack-alternate []
unpack-pack (x ∷ mask) h =
    unpack-alternate (pack_runs 0 0 (x ∷ mask)) ∙ alternate-pack_runs 0 0 (x ∷ mask) (omega arith) h

-- Lengths that a packing can have: only the first may be 0.
abbrev pub IsPacking : List ℕ → Type 0
IsPacking [] = Unit
IsPacking (n ∷ packed) = All (λ m. 0 < m) packed

pack_runs-replicate :
    (v n m : ℕ) (rest : List ℕ) → pack_runs v m (replicate n v ++ rest) ≡ pack_runs v (m + n) rest
unfolding pack_runs
pack_runs-replicate v zero m rest = rw add-zero
pack_runs-replicate v (suc n) m rest =
    let again : (v == v) ≡ true = ground arith in
    let shift : m + 1 + n ≡ m + suc n = omega arith in
    rw (again, pack_runs)
      (pack_runs-replicate v n (m + 1) rest ∙ ap (λ k. pack_runs v k rest) shift)

pack_runs-alternate :
    (v m : ℕ) (packed : List ℕ)
    → IsBit v
    → All (λ k. 0 < k) packed
    → pack_runs v m (alternate (1 - v) packed) ≡ m ∷ packed
unfolding pack_runs alternate
pack_runs-alternate v m [] h hs = refl
pack_runs-alternate v m (zero ∷ packed) h (hn, hs) = absurd (omega arith)
pack_runs-alternate v m (suc n ∷ packed) h (hn, hs) =
    let turn : ((1 - v) == v) ≡ false = ground arith in
    let e : 1 + n ≡ suc n = omega arith in
    rw (turn, pack_runs)
      (ap (◌∷◌ m) (
        pack_runs-replicate (1 - v) n 1 (alternate (1 - (1 - v)) packed)
        ∙ pack_runs-alternate (1 - v) (1 + n) packed (omega arith) hs
        ∙ ap (λ k. k ∷ packed) e))

not_empty :
    (n : ℕ) (packed : List ℕ)
    → IsPacking (n ∷ packed)
    → 0 < sum (n ∷ packed)
    → pack_loss_mask (alternate 0 (n ∷ packed)) ≡ pack_runs 0 0 (alternate 0 (n ∷ packed))
unfolding pack_loss_mask alternate sum
not_empty (suc n) packed hs h = refl
not_empty zero [] hs h = absurd (omega arith)
not_empty zero (zero ∷ packed) hs h = absurd (omega arith)
not_empty zero (suc m ∷ packed) hs h = refl

-- The empty mask is packed to no run at all, so a packing of no entry is empty.
abbrev pub HasEntries : List ℕ → Type 0
HasEntries packed = 0 < sum packed

-- Packing the mask that a list of run lengths unpacks to gives the list back, if its lengths are
-- not 0, except perhaps the first, and their sum is not 0.
pub pack-unpack :
    (packed : List ℕ)
    → IsPacking packed
    → HasEntries packed
    → pack_loss_mask (unpack_loss_mask packed) ≡ packed
unfolding alternate sum
pack-unpack [] h some_entry = absurd (omega arith)
pack-unpack (n ∷ packed) h some_entry =
    let zero_add : 0 + n ≡ n = omega arith in
    ap pack_loss_mask (unpack-alternate (n ∷ packed))
    ∙ not_empty n packed h some_entry
    ∙ pack_runs-replicate 0 n 0 (alternate 1 packed)
    ∙ pack_runs-alternate 0 (0 + n) packed (omega arith) h
    ∙ ap (λ k. k ∷ packed) zero_add
