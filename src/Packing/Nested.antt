-- ===== src/Packing/Nested.antt =====
-- A packed batch without padding, packed again from its parts.
use lumen_rl.Base.{
  ℕ, ◌+◌, ◌-◌, ◌^◌, min, true, ◌==◌, ==_iff, if◌then◌else◌, map, runtime_error, ◌≤◌, ◌<◌, ◌≡◌, refl,
  sym, ap, ap₂, ◌∙◌, List, [], ◌∷◌, ◌++◌, length, replicate, length-append, range,
  length-range_from, flat_map, All, Result, ok, arith, append-nil, append_assoc, ◌>>=◌, drop,
  length-drop, err,
}
use lumen_rl.Base.Int.{pos, ◌+ℤ◌}
use lumen_rl.Proto.Select.{slice_bound}
use lumen_rl.Base.Ranges.{overwrite, overwrite-after}
use lumen_rl.Packing.{
  PackedBatch, Row, assign_slice, count_true, cumsum_from, max_of, pack_from_nested, pack_sequences,
  write_positions, total_of,
}
use lumen_rl.Packing.Layout.{IsLeftPadded, lens, real_positions, pack_sequences-IsPacked}

abbrev greatest : Result PackedBatch → ℕ
greatest (ok p) = p.max_seqlen
greatest (err e) = 0

overwrite-start :
    (xs memory : List ℕ)
    → length xs ≤ length memory
    → overwrite 0 xs memory ≡ xs ++ drop (length xs) memory
unfolding overwrite
overwrite-start [] [] h = refl
overwrite-start [] (m ∷ memory) h = refl
overwrite-start (x ∷ xs) [] h = absurd (omega arith)
overwrite-start (x ∷ xs) (m ∷ memory) h = ap (◌∷◌ x) (overwrite-start xs memory (omega arith))

add_pos : (a b : ℕ) → pos a +ℤ pos b ≡ pos (a + b)
unfolding ◌+ℤ◌
add_pos a b = ground arith

-- The loop's slice lies in the tensor.
assign_inside :
    (done xs memory : List ℕ)
    → length xs ≤ length memory
    → assign_slice (pos (length done)) (pos (length done + length xs)) xs (done ++ memory)
      ≡ ok (overwrite (length done) xs (done ++ memory))
unfolding assign_slice slice_bound
assign_inside done [] memory h =
    let all = length (done ++ memory) in
    let empty : (min (length done + 0) all - min (length done) all == 0) ≡ true =
      (==_iff _ 0).1 (omega arith) in
    ap (λ b. if b then ok (done ++ memory) else err runtime_error) empty
    ∙ ap ok
        (sym (overwrite-after done [] memory ∙ ap (λ t. done ++ t) (overwrite-start [] memory h)))
assign_inside done (x ∷ xs) memory h =
    let n = length (x ∷ xs) in
    let all = length (done ++ memory) in
    let first = min (length done) all in
    let count = min (length done + n) all - first in
    let inside : first ≡ length done = omega (arith, length-append done memory) in
    let size : (n == count) ≡ true =
      (==_iff n count).1 (omega (arith, length-append done memory, h)) in
    ap
      (λ b.
        if b
        then ok (overwrite first (x ∷ xs) (done ++ memory))
        else (if n == 1
            then ok (overwrite first (replicate count x) (done ++ memory))
            else err runtime_error))
      size
    ∙ ap ok (ap (λ k. overwrite k (x ∷ xs) (done ++ memory)) inside)

-- The greatest length of the packed batch.
packed-max :
    (S : ℕ) (batch : List Row) (p : PackedBatch)
    → pack_sequences S batch 1 ≡ ok p
    → (m : ℕ) × (max_of (lens batch) ≡ ok m) × (m ≡ p.max_seqlen)
unfolding pack_sequences max_of
packed-max S [] p e = absurd (cc)
packed-max S (row ∷ rows) p e = (_, refl, ap greatest e)

nested-max :
    (input_ids lens memory : List ℕ) (m : ℕ)
    → max_of lens ≡ ok m
    → pack_from_nested input_ids (map pos (0 ∷ cumsum_from 0 lens)) lens memory ≡ (
        write_positions (map pos (0 ∷ cumsum_from 0 lens)) lens memory >>= λ ids. ok (record {
          input_ids = input_ids;
          position_ids = ids;
          cu_seqlens = map pos (0 ∷ cumsum_from 0 lens);
          seq_lens = lens;
          max_seqlen = m;
        }))
unfolding pack_from_nested
nested-max input_ids lens memory m e = rw e refl

-- The positions that the loop leaves, whatever was in the tensor.
write_positions-ranges :
    (done : List ℕ) (lens memory : List ℕ)
    → length memory ≡ total_of lens
    → write_positions (map pos (length done ∷ cumsum_from (length done) lens)) lens (done ++ memory)
      ≡ ok (done ++ flat_map range lens)
unfolding write_positions cumsum_from total_of
write_positions-ranges done [] [] h = refl
write_positions-ranges done [] (m ∷ memory) h = absurd (omega arith)
write_positions-ranges done (n ∷ lens) memory h =
    let xs = range n in
    let size : length xs ≡ n = length-range_from 0 n in
    let next : length (done ++ xs) ≡ length done + n = omega (arith, length-append done xs, size) in
    let later =
      write_positions (map pos ((length done + n) ∷ cumsum_from (length done + n) lens)) lens in
    ap (λ r. r >>= later)
      (ap (λ stop. assign_slice (pos (length done)) stop xs (done ++ memory))
          (add_pos (length done) n ∙ ap (λ k. pos (length done + k)) (sym size))
        ∙ assign_inside done xs memory (omega (arith, size, h)))
    ∙ ap later (
        overwrite-after done xs memory
        ∙ ap (λ t. done ++ t) (overwrite-start xs memory (omega (arith, size, h)))
        ∙ sym (append_assoc done xs (drop (length xs) memory)))
    ∙ ap
        (λ k.
          write_positions (map pos (k ∷ cumsum_from k lens)) lens
            ((done ++ xs) ++ drop (length xs) memory))
        (sym next)
    ∙ write_positions-ranges (done ++ xs) lens (drop (length xs) memory)
        (omega (arith, length-drop (length xs) memory, size, h))
    ∙ ap ok (append_assoc done xs (flat_map range lens))

ranges-positions : (batch : List Row) → flat_map range (lens batch) ≡ real_positions batch
ranges-positions [] = refl
ranges-positions (row ∷ batch) = ap (λ t. range (count_true row.1) ++ t) (ranges-positions batch)

-- Packing rows with an alignment of 1 succeeds for left-padded rows of S tokens, at least one, with
-- fewer than 2 ^ 31 real tokens in all (the bounds are int32); and
-- packing the result's own tokens, bounds and lengths again gives the same packed batch, whatever
-- the new tensor of positions held before.
pub pack_from_nested-pack_sequences :
    (S : ℕ) (batch : List Row) (memory : List ℕ)
    → All (IsLeftPadded S) batch
    → 0 < length batch
    → total_of (lens batch) < 2 ^ 31
    → length memory ≡ total_of (lens batch)
    → (p : PackedBatch) × (pack_sequences S batch 1 ≡ ok p)
      × (pack_from_nested p.input_ids p.cu_seqlens p.seq_lens memory ≡ ok p)
unfolding pack_from_nested
pack_from_nested-pack_sequences S batch memory a some few h =
    let (p, packed, facts) = pack_sequences-IsPacked S batch 1 a some few (omega arith) in
    let (m, top, same) = packed-max S batch p packed in
    let none_padded : facts.pad ≡ 0 = omega (arith, facts.least) in
    let positions : flat_map range (lens batch) ≡ p.position_ids =
      ranges-positions batch
      ∙ sym (append-nil (real_positions batch))
      ∙ ap (λ k. real_positions batch ++ replicate k 0) (sym none_padded)
      ∙ sym facts.positions in
    (
      p,
      packed,
      ap₂ (λ cu ns. pack_from_nested p.input_ids cu ns memory) facts.bounds facts.sizes
          ∙ nested-max p.input_ids (lens batch) memory m top
          ∙ ap
              (λ q. q >>= λ ids. ok (record {
                input_ids = p.input_ids;
                position_ids = ids;
                cu_seqlens = map pos (0 ∷ cumsum_from 0 (lens batch));
                seq_lens = lens batch;
                max_seqlen = m;
              }))
              (write_positions-ranges [] (lens batch) memory h ∙ ap ok positions)
          ∙ ap ok (λ i. record p {
            cu_seqlens = sym facts.bounds i;
            seq_lens = sym facts.sizes i;
            max_seqlen = same i;
          }),
    )
