-- ===== src/Base/Ranges.antt =====
-- Reading and writing a range of positions of a tensor.
use Prim.Native.Nat.{ℕ, zero, suc, ◌+◌, ◌-◌, ◌≤◌}
use mathlib.Core.Path.{◌≡◌, refl, sym, ap, ◌∙◌}
use mathlib.Core.Logic.{◌⊎◌}
use mathlib.Core.List.{List, [], ◌∷◌, ◌++◌, append_assoc}
use native.Mathlib.Omega.{arith}
use lumen_rl.Base.Arith.{minus_zero, suc_minus, zero_add, suc_add}
use lumen_rl.Base.Slices.{slice}
use lumen_rl.Base.Lists.{length, take, drop, replicate, length-append, length-replicate}

-- Two ranges, each by its start and its size, have no position in common.
abbrev pub Apart : ℕ → ℕ → ℕ → ℕ → Type 0
Apart start size start' size' = (start + size ≤ start') ⊎ (start' + size' ≤ start)

gap_add : (a l t m : ℕ) → l ≤ a → a + t + m - l ≡ (a - l) + (t + m)
gap_add a l t m h = omega arith

module _ {ℓ} {A : Type ℓ} where
  -- `buffer[start : start + size]`.
  unfoldable pub read : ℕ → ℕ → List A → List A
  read start size buffer = take size (drop start buffer)

  -- `buffer[start : start + len(bytes)].copy_(bytes)`, for a range inside the buffer.
  unfoldable pub overwrite : ℕ → List A → List A → List A
  overwrite start bytes [] = []
  overwrite zero [] (x ∷ buffer) = x ∷ buffer
  overwrite zero (b ∷ bytes) (x ∷ buffer) = b ∷ overwrite zero bytes buffer
  overwrite (suc start) bytes (x ∷ buffer) = x ∷ overwrite start bytes buffer

  pub length-overwrite :
      (start : ℕ) (bytes buffer : List A) → length (overwrite start bytes buffer) ≡ length buffer
  unfolding overwrite
  length-overwrite zero bytes [] = refl
  length-overwrite (suc start) bytes [] = refl
  length-overwrite zero [] (x ∷ buffer) = refl
  length-overwrite zero (b ∷ bytes) (x ∷ buffer) = ap suc (length-overwrite zero bytes buffer)
  length-overwrite (suc start) bytes (x ∷ buffer) = ap suc (length-overwrite start bytes buffer)

  pub read-overwrite :
      (start : ℕ) (bytes buffer : List A)
      → start + length bytes ≤ length buffer
      → read start (length bytes) (overwrite start bytes buffer) ≡ bytes
  unfolding read overwrite
  read-overwrite zero [] [] h = refl
  read-overwrite zero (b ∷ bytes) [] h = absurd (omega arith)
  read-overwrite (suc start) bytes [] h = absurd (omega arith)
  read-overwrite zero [] (x ∷ buffer) h = refl
  read-overwrite zero (b ∷ bytes) (x ∷ buffer) h =
      ap (◌∷◌ b) (read-overwrite zero bytes buffer (omega arith))
  read-overwrite (suc start) bytes (x ∷ buffer) h = read-overwrite start bytes buffer (omega arith)

  pub read-overwrite-Apart :
      (start size at : ℕ) (bytes buffer : List A)
      → Apart start size at (length bytes)
      → read start size (overwrite at bytes buffer) ≡ read start size buffer
  unfolding read overwrite
  read-overwrite-Apart start size zero bytes [] h = refl
  read-overwrite-Apart start size (suc at) bytes [] h = refl
  read-overwrite-Apart start size zero [] (x ∷ buffer) h = refl
  read-overwrite-Apart zero zero zero (b ∷ bytes) (x ∷ buffer) h = refl
  read-overwrite-Apart zero (suc size) zero (b ∷ bytes) (x ∷ buffer) h = absurd (omega arith)
  read-overwrite-Apart (suc start) size zero (b ∷ bytes) (x ∷ buffer) h =
      read-overwrite-Apart start size zero bytes buffer (omega arith)
  read-overwrite-Apart zero zero (suc at) bytes (x ∷ buffer) h = refl
  read-overwrite-Apart zero (suc size) (suc at) bytes (x ∷ buffer) h =
      ap (◌∷◌ x) (read-overwrite-Apart zero size at bytes buffer (omega arith))
  read-overwrite-Apart (suc start) size (suc at) bytes (x ∷ buffer) h =
      read-overwrite-Apart start size at bytes buffer (omega arith)

  pub overwrite-after :
      (xs ys zs : List A) → overwrite (length xs) ys (xs ++ zs) ≡ xs ++ overwrite 0 ys zs
  unfolding overwrite
  overwrite-after [] ys zs = refl
  overwrite-after (x ∷ xs) ys zs = ap (◌∷◌ x) (overwrite-after xs ys zs)

  pub overwrite-replicate :
      (ys : List A) (n : ℕ) (z : A)
      → length ys ≤ n
      → overwrite 0 ys (replicate n z) ≡ ys ++ replicate (n - length ys) z
  unfolding overwrite
  overwrite-replicate [] zero z h = refl
  overwrite-replicate [] (suc n) z h = ap (λ k. replicate k z) (minus_zero (suc n))
  overwrite-replicate (y ∷ ys) zero z h = absurd (omega arith)
  overwrite-replicate (y ∷ ys) (suc n) z h = ap (◌∷◌ y) (
      overwrite-replicate ys n z (omega arith)
      ∙ ap (λ k. ys ++ replicate k z) (suc_minus (length ys) n))

  pub overwrite-front :
      (ys zs : List A) → length ys ≤ length zs → overwrite 0 ys zs ≡ ys ++ drop (length ys) zs
  unfolding overwrite
  overwrite-front [] [] h = refl
  overwrite-front [] (z ∷ zs) h = refl
  overwrite-front (y ∷ ys) [] h = absurd (omega arith)
  overwrite-front (y ∷ ys) (z ∷ zs) h = ap (◌∷◌ y) (overwrite-front ys zs (omega arith))

  take-left : (ys zs : List A) → take (length ys) (ys ++ zs) ≡ ys
  take-left [] zs = refl
  take-left (y ∷ ys) zs = ap (◌∷◌ y) (take-left ys zs)

  drop-left : (xs zs : List A) → drop (length xs) (xs ++ zs) ≡ zs
  drop-left [] zs = refl
  drop-left (x ∷ xs) zs = drop-left xs zs

  -- The slice from the end of one part to the end of the next.
  pub slice-middle :
      (before xs after : List A) (a b : ℕ)
      → a ≡ length before
      → b ≡ length before + length xs
      → slice a b (before ++ (xs ++ after)) ≡ xs
  unfolding slice
  slice-middle before xs after a b e f =
      ap (λ n. take (b - a) (drop n (before ++ (xs ++ after)))) e
      ∙ ap (take (b - a)) (drop-left before (xs ++ after))
      ∙ ap (λ n. take n (xs ++ after)) (omega (arith, e, f))
      ∙ take-left xs after

  pub replicate-add : (m n : ℕ) (z : A) → replicate (m + n) z ≡ replicate m z ++ replicate n z
  replicate-add zero n z = ap (λ k. replicate k z) (zero_add n)
  replicate-add (suc m) n z =
      ap (λ k. replicate k z) (suc_add m n) ∙ ap (◌∷◌ z) (replicate-add m n z)

  -- A loop that writes each segment where the one before ends, or would end after padding: the
  -- second part of a pair is how far the offset moves.
  unfoldable pub lay_out : ℕ → List (List A × ℕ) → List A → List A
  lay_out offset [] out = out
  lay_out offset ((segment, advance) ∷ rest) out =
      lay_out (offset + advance) rest (overwrite offset segment out)

  abbrev pub total_advance : List (List A × ℕ) → ℕ
  total_advance [] = 0
  total_advance ((segment, advance) ∷ rest) = advance + total_advance rest

  -- What such a loop leaves of a tensor that was filled with `z`.
  abbrev pub padded : A → List (List A × ℕ) → List A
  padded z [] = []
  padded z ((segment, advance) ∷ rest) =
      (segment ++ replicate (advance - length segment) z) ++ padded z rest

  abbrev pub FitsIn : List (List A × ℕ) → Type 0
  FitsIn [] = Unit
  FitsIn ((segment, advance) ∷ rest) = (length segment ≤ advance) × FitsIn rest

  lay_out-from :
      (done : List A) (segments : List (List A × ℕ)) (more : ℕ) (z : A)
      → FitsIn segments
      → lay_out (length done) segments (done ++ replicate (total_advance segments + more) z)
        ≡ done ++ (padded z segments ++ replicate more z)
  unfolding lay_out
  lay_out-from done [] more z h = ap (λ n. done ++ replicate n z) (zero_add more)
  lay_out-from done ((segment, advance) ∷ rest) more z (h, hs) =
      let gap = advance - length segment in
      let n = total_advance rest + more in
      let here : overwrite (length done) segment
            (done ++ replicate (advance + total_advance rest + more) z)
          ≡ (done ++ (segment ++ replicate gap z)) ++ replicate n z =
        overwrite-after done segment (replicate (advance + total_advance rest + more) z)
        ∙ ap (λ t. done ++ t)
            (overwrite-replicate segment (advance + total_advance rest + more) z (omega arith)
              ∙ ap (λ t. segment ++ replicate t z)
                  (gap_add advance (length segment) (total_advance rest) more h)
              ∙ ap (λ t. segment ++ t) (replicate-add gap n z)
              ∙ sym (append_assoc segment (replicate gap z) (replicate n z)))
        ∙ sym (append_assoc done (segment ++ replicate gap z) (replicate n z)) in
      let size : length (done ++ (segment ++ replicate gap z)) ≡ length done + advance = omega (
        arith,
        length-append done (segment ++ replicate gap z),
        length-append segment (replicate gap z),
        length-replicate gap z,
        h,
      ) in
      ap (λ t. lay_out (length done + advance) rest t) here
      ∙ ap (λ t. lay_out t rest ((done ++ (segment ++ replicate gap z)) ++ replicate n z))
          (sym size)
      ∙ lay_out-from (done ++ (segment ++ replicate gap z)) rest more z hs
      ∙ append_assoc done (segment ++ replicate gap z) (padded z rest ++ replicate more z)
      ∙ ap (λ t. done ++ t)
          (sym (append_assoc (segment ++ replicate gap z) (padded z rest) (replicate more z)))

  -- The segments, each padded with `z` up to the next, and `z` in the rest of the tensor.
  pub lay_out-padded :
      (segments : List (List A × ℕ)) (more : ℕ) (z : A)
      → FitsIn segments
      → lay_out 0 segments (replicate (total_advance segments + more) z)
        ≡ padded z segments ++ replicate more z
  lay_out-padded segments more z h = lay_out-from [] segments more z h
