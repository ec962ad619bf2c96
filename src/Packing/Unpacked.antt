-- ===== src/Packing/Unpacked.antt =====
-- Per-token values come back to the places of their tokens.
use lumen_rl.Base.{
  suc_add, minus_zero, ℕ, zero, suc, ◌+◌, ◌-◌, ◌≤◌, ◌≡◌, refl, sym, ap, ◌∙◌, min, true, false, List,
  [], ◌∷◌, ◌++◌, map, if◌then◌else◌, leb, ◌==◌, length, replicate, length-replicate, length-append,
  slice, flat_map, All, Result, ok, err, runtime_error, arith, ==_iff, append-nil, append_assoc,
  ◌>>=◌,
}
use lumen_rl.Base.Int.{ℤ, pos, ◌+ℤ◌, ◌-ℤ◌}
use lumen_rl.Base.Ranges.{overwrite, overwrite-replicate, slice-middle}
use lumen_rl.Proto.Select.{slice_bound}
use lumen_rl.Packing.{assign_slice, unpack_log_probs, unpack_rows}

no_rest : (n : ℕ) → 0 + n - n ≡ 0
no_rest n = omega arith

split_width : (width n : ℕ) → n ≤ width → width ≡ width - n + n
split_width width n h = omega arith

-- The integer sums of the loop, where nothing is negative.
advance : (a n : ℕ) → pos a +ℤ (pos (suc n) -ℤ pos 1) ≡ pos (a + n)
unfolding ◌+ℤ◌ ◌-ℤ◌
advance a n = ground arith

retreat : (width n : ℕ) → n ≤ width → pos width -ℤ (pos (suc n) -ℤ pos 1) ≡ pos (width - n)
unfolding ◌+ℤ◌ ◌-ℤ◌
retreat width n h = ground arith

module _ {ℓ} {A : Type ℓ} where
  overwrite-end :
      (pad : ℕ) (xs : List A) (z : A)
      → overwrite pad xs (replicate (pad + length xs) z) ≡ replicate pad z ++ xs
  unfolding overwrite
  overwrite-end zero xs z =
      overwrite-replicate xs (0 + length xs) z (omega arith)
      ∙ ap (λ n. xs ++ replicate n z) (no_rest (length xs))
      ∙ append-nil xs
  overwrite-end (suc pad) xs z =
      ap (λ n. overwrite (suc pad) xs (replicate n z)) (suc_add pad (length xs))
      ∙ ap (◌∷◌ z) (overwrite-end pad xs z)

  assign-end :
      (x : A) (xs : List A) (width : ℕ) (z : A)
      → length (x ∷ xs) ≤ width
      → assign_slice (pos (width - length (x ∷ xs))) (pos width) (x ∷ xs) (replicate width z)
        ≡ ok (replicate (width - length (x ∷ xs)) z ++ x ∷ xs)
  unfolding assign_slice slice_bound
  assign-end x xs width z h =
      let n = length (x ∷ xs) in
      let all : length (replicate width z) ≡ width = length-replicate width z in
      let first : min (width - n) (length (replicate width z)) ≡ width - n = omega (arith, all) in
      let size : (n == (
            min width (length (replicate width z)) - min (width - n) (length (replicate width z))))
          ≡ true =
        (==_iff n _).1 (omega (arith, all, h)) in
      ap
        (λ b.
          if b
          then ok (
              overwrite (min (width - n) (length (replicate width z))) (x ∷ xs) (replicate width z))
          else (if n == 1
              then ok (
                  overwrite (min (width - n) (length (replicate width z)))
                    (replicate
                      (min width (length (replicate width z))
                        - min (width - n) (length (replicate width z)))
                      x)
                    (replicate width z))
              else err runtime_error))
        size
      ∙ ap ok (
          ap (λ k. overwrite k (x ∷ xs) (replicate width z)) first
          ∙ ap (λ k. overwrite (width - n) (x ∷ xs) (replicate k z)) (split_width width n h)
          ∙ overwrite-end (width - n) (x ∷ xs) z)

  -- The row of a sequence: zeros, then its values.
  abbrev pub right_end : A → ℕ → List A → List A
  right_end z width segment = replicate (width - length segment) z ++ segment

  abbrev pub lengths_plus : List (List A) → List ℕ
  lengths_plus segments = map (λ segment. suc (length segment)) segments

  row-right_end :
      (segment : List A) (width : ℕ) (z : A)
      → length segment ≤ width
      → (if leb (suc (length segment)) 1
          then ok (replicate width z)
          else assign_slice (pos (width - length segment)) (pos width) segment (replicate width z))
        ≡ ok (right_end z width segment)
  row-right_end [] width z h =
      ap ok
        (ap (λ n. replicate n z) (minus_zero width) ∙ sym (append-nil (replicate (width - 0) z)))
  row-right_end (x ∷ xs) width z h =
      let long : leb (suc (suc (length xs))) 1 ≡ false = ground arith in
      ap
        (λ b.
          if b
          then ok (replicate width z)
          else assign_slice (pos (width - length (x ∷ xs))) (pos width) (x ∷ xs)
              (replicate width z))
        long
      ∙ assign-end x xs width z h

  -- The row that the loop makes for one sequence.
  one_row :
      (before segment after : List A) (width : ℕ) (z : A)
      → length segment ≤ width
      → (let k = pos (suc (length segment)) -ℤ pos 1 in
          let flat = before ++ (segment ++ after) in
          (if leb (suc (length segment)) 1
            then ok (replicate width z)
            else assign_slice
                (pos width -ℤ k)
                (pos width -ℤ k +ℤ k)
                (slice
                  (slice_bound (length flat) (pos (length before)))
                  (slice_bound (length flat) (pos (length before) +ℤ k))
                  flat)
                (replicate width z))
          ≡ ok (right_end z width segment))
  unfolding slice_bound
  one_row before segment after width z h =
      let n = length segment in
      let k = pos (suc n) -ℤ pos 1 in
      let flat = before ++ (segment ++ after) in
      let row : ℤ → ℤ → List A → Result (List A) = (λ d e source.
        if leb (suc n) 1
        then ok (replicate width z)
        else assign_slice d e source (replicate width z)) in
      let size : length flat ≡ length before + (n + length after) =
        omega (arith, length-append before (segment ++ after), length-append segment after) in
      let source : List A =
        slice (slice_bound (length flat) (pos (length before)))
          (slice_bound (length flat) (pos (length before) +ℤ k)) flat in
      ap (λ d. row d (d +ℤ k) source) (retreat width n h)
      ∙ ap (λ e. row (pos (width - n)) e source)
          (advance (width - n) n ∙ ap pos (sym (split_width width n h)))
      ∙ ap (row (pos (width - n)) (pos width)) (
          slice-middle before segment after (min (length before) (length flat))
            (slice_bound (length flat) (pos (length before) +ℤ k)) (omega (arith, size))
            (ap (slice_bound (length flat)) (advance (length before) n) ∙ omega (arith, size)))
      ∙ row-right_end segment width z h

  unpack_rows-flat :
      (before : List A) (segments : List (List A)) (width : ℕ) (z : A)
      → All (λ segment. length segment ≤ width) segments
      → unpack_rows z
          (before ++ flat_map (λ s. s) segments)
          (pos (length before))
          (lengths_plus segments)
          width
        ≡ ok (map (right_end z width) segments)
  unfolding unpack_rows
  unpack_rows-flat before [] width z a = refl
  unpack_rows-flat before (segment ∷ segments) width z (h, a) =
      let n = length segment in
      let rest = flat_map (λ s. s) segments in
      let flat = before ++ (segment ++ rest) in
      ap
        (λ row. row >>= (λ r.
          unpack_rows z flat (pos (length before) +ℤ (pos (suc n) -ℤ pos 1)) (lengths_plus segments)
            width
          >>= (λ rows. ok (r ∷ rows))))
        (one_row before segment rest width z h)
      ∙ ap (λ rows. rows >>= (λ rs. ok (right_end z width segment ∷ rs)))
          (ap (λ start. unpack_rows z flat start (lengths_plus segments) width)
              (advance (length before) n ∙ ap pos (sym (length-append before segment)))
            ∙ ap
                (λ f.
                  unpack_rows z f (pos (length (before ++ segment))) (lengths_plus segments) width)
                (sym (append_assoc before segment rest))
            ∙ unpack_rows-flat (before ++ segment) segments width z a)

  -- Let every sequence have at least one token and at most S, and let the flat values be one for
  -- each token but the first of each sequence, sequence after sequence. Then unpacking them succeeds
  -- and gives each sequence a row of S - 1 values: zeros, and its values at the right end.
  pub unpack-right_end :
      (segments : List (List A)) (width : ℕ) (z : A)
      → All (λ segment. length segment ≤ width) segments
      → unpack_log_probs z (flat_map (λ s. s) segments) (lengths_plus segments) (suc width)
        ≡ ok (map (right_end z width) segments)
  unfolding unpack_log_probs
  unpack-right_end segments width z a = unpack_rows-flat [] segments width z a
