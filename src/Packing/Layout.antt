-- ===== src/Packing/Layout.antt =====
-- What `pack_sequences` returns.
use lumen_rl.Base.{
  ℕ, zero, suc, ◌+◌, ◌-◌, ◌%◌, ◌^◌, ◌/◌, lt→ltb, ◌≤◌, ◌<◌, ◌≡◌, refl, sym, ap, ap₂, ◌∙◌, max, Bool,
  true, false, List, [], ◌∷◌, ◌++◌, map, length, replicate, length-replicate, length-append, range,
  slice, drop, keep_where, flat_map, All, ok, arith, take-all, length-drop, length-range_from,
  append-nil,
}
use native.Mathlib.Nat.{mod-lt, add-mod-mod, div-add-mod, mul-add-mod_self_left, mod_self}
use lumen_rl.Base.Int.{pos}
use lumen_rl.Base.Ranges.{FitsIn, lay_out, lay_out-padded, padded, total_advance}
use lumen_rl.Packing.{
  PackedBatch, Row, count_true, cumsum_from, int32, max_from, max_of, pack_sequences, padding,
  row_positions, row_tokens, total_of,
}

-- A row of S tokens, its real tokens at the right end.
pub record IsLeftPadded (S : ℕ) (row : Row) : Type 0 where
  pub width : length row.0 ≡ S
  pub pads : ℕ
  pub reals : ℕ
  pub mask : row.1 ≡ replicate pads false ++ replicate reals true
  pub size : pads + reals ≡ S

-- The tokens that the masks keep, row after row, and their positions in their sequences.
abbrev pub real_tokens : List Row → List ℕ
real_tokens batch = flat_map (λ row. keep_where row.1 row.0) batch

abbrev pub real_positions : List Row → List ℕ
real_positions batch = flat_map (λ row. range (count_true row.1)) batch

abbrev pub lens : List Row → List ℕ
lens batch = map (λ row. count_true row.1) batch

-- The packed batch: the real tokens and their positions, each followed by fewer than `align` zeros
-- up to a multiple of `align`, and the bounds and lengths of the sequences.
pub record IsPacked (batch : List Row) (align : ℕ) (p : PackedBatch) : Type 0 where
  pub pad : ℕ
  pub tokens : p.input_ids ≡ real_tokens batch ++ replicate pad 0
  pub positions : p.position_ids ≡ real_positions batch ++ replicate pad 0
  pub aligned : length p.input_ids % align ≡ 0
  pub least : pad < align
  pub bounds : p.cu_seqlens ≡ map pos (0 ∷ cumsum_from 0 (lens batch))
  pub sizes : p.seq_lens ≡ lens batch
  pub longest : All (λ n. n ≤ p.max_seqlen) p.seq_lens

count_true-false : (n : ℕ) (bs : List Bool) → count_true (replicate n false ++ bs) ≡ count_true bs
unfolding count_true
count_true-false zero bs = refl
count_true-false (suc n) bs = omega (arith, count_true-false n bs)

count_true-true : (n : ℕ) → count_true (replicate n true) ≡ n
unfolding count_true
count_true-true zero = refl
count_true-true (suc n) = omega (arith, count_true-true n)

pub count-IsLeftPadded : (S : ℕ) (row : Row) (p : IsLeftPadded S row) → count_true row.1 ≡ p.reals
count-IsLeftPadded S row p =
    ap count_true p.mask
    ∙ count_true-false p.pads (replicate p.reals true)
    ∙ count_true-true p.reals

keep_where-true : (n : ℕ) (xs : List ℕ) → length xs ≡ n → keep_where (replicate n true) xs ≡ xs
keep_where-true zero [] h = refl
keep_where-true zero (x ∷ xs) h = absurd (omega arith)
keep_where-true (suc n) [] h = refl
keep_where-true (suc n) (x ∷ xs) h = ap (◌∷◌ x) (keep_where-true n xs (omega arith))

keep_where-left :
    (a n : ℕ) (xs : List ℕ)
    → length xs ≡ a + n
    → keep_where (replicate a false ++ replicate n true) xs ≡ drop a xs
keep_where-left zero n xs h = keep_where-true n xs (omega arith)
keep_where-left (suc a) n [] h = refl
keep_where-left (suc a) n (x ∷ xs) h = keep_where-left a n xs (omega arith)

-- The slice that is copied has the real tokens.
tokens-IsLeftPadded :
    (S : ℕ) (row : Row)
    → IsLeftPadded S row
    → slice (S - count_true row.1) S row.0 ≡ keep_where row.1 row.0
unfolding slice
tokens-IsLeftPadded S row p =
    let n : count_true row.1 ≡ p.reals = count-IsLeftPadded S row p in
    let start : S - count_true row.1 ≡ p.pads = omega (arith, n, p.size) in
    take-all (S - (S - count_true row.1)) (drop (S - count_true row.1) row.0)
      (omega (arith, length-drop (S - count_true row.1) row.0, p.width))
    ∙ ap (λ k. drop k row.0) start
    ∙ sym (keep_where-left p.pads p.reals row.0 (omega (arith, p.width, p.size)))
    ∙ ap (λ m. keep_where m row.0) (sym p.mask)

length-tokens :
    (S : ℕ) (row : Row)
    → IsLeftPadded S row
    → length (slice (S - count_true row.1) S row.0) ≡ count_true row.1
unfolding slice
length-tokens S row p =
    let n : count_true row.1 ≡ p.reals = count-IsLeftPadded S row p in
    ap length (
      take-all (S - (S - count_true row.1)) (drop (S - count_true row.1) row.0)
        (omega (arith, length-drop (S - count_true row.1) row.0, p.width)))
    ∙ omega (arith, length-drop (S - count_true row.1) row.0, p.width, n, p.size)

FitsIn-tokens :
    (S : ℕ) (batch : List Row) → All (IsLeftPadded S) batch → FitsIn (map (row_tokens S) batch)
unfolding row_tokens
FitsIn-tokens S [] a = tt
FitsIn-tokens S ((row, mask) ∷ batch) (p, a) =
    (omega (arith, length-tokens S (row, mask) p), FitsIn-tokens S batch a)

FitsIn-positions : (batch : List Row) → FitsIn (map row_positions batch)
unfolding row_positions
FitsIn-positions [] = tt
FitsIn-positions ((row, mask) ∷ batch) =
    (omega (arith, length-range_from 0 (count_true mask)), FitsIn-positions batch)

total-tokens :
    (S : ℕ) (batch : List Row)
    → total_advance (map (row_tokens S) batch) ≡ total_of (map (λ row. count_true row.1) batch)
unfolding row_tokens total_of
total-tokens S [] = refl
total-tokens S ((row, mask) ∷ batch) = omega (arith, total-tokens S batch)

total-positions :
    (batch : List Row)
    → total_advance (map row_positions batch) ≡ total_of (map (λ row. count_true row.1) batch)
unfolding row_positions total_of
total-positions [] = refl
total-positions ((row, mask) ∷ batch) = omega (arith, total-positions batch)

gap_zero : (m n : ℕ) → m ≡ n → n - m ≡ 0
gap_zero m n h = omega arith

no_gap {ℓ} :
    {A : Type ℓ} (xs : List A) (n : ℕ) (z : A)
    → length xs ≡ n
    → xs ++ replicate (n - length xs) z ≡ xs
no_gap xs n z h = ap (λ k. xs ++ replicate k z) (gap_zero (length xs) n h) ∙ append-nil xs

padded-tokens :
    (S : ℕ) (batch : List Row)
    → All (IsLeftPadded S) batch
    → padded 0 (map (row_tokens S) batch) ≡ real_tokens batch
unfolding row_tokens
padded-tokens S [] a = refl
padded-tokens S ((row, mask) ∷ batch) (p, a) =
    ap₂ ◌++◌
      (no_gap (slice (S - count_true mask) S row) (count_true mask) 0
          (length-tokens S (row, mask) p)
        ∙ tokens-IsLeftPadded S (row, mask) p)
      (padded-tokens S batch a)

padded-positions : (batch : List Row) → padded 0 (map row_positions batch) ≡ real_positions batch
unfolding row_positions
padded-positions [] = refl
padded-positions ((row, mask) ∷ batch) =
    ap₂ ◌++◌
      (no_gap (range (count_true mask)) (count_true mask) 0 (length-range_from 0 (count_true mask)))
      (padded-positions batch)

length-padded :
    (segments : List (List ℕ × ℕ))
    → FitsIn segments
    → length (padded 0 segments) ≡ total_advance segments
length-padded [] h = refl
length-padded ((segment, advance) ∷ rest) (h, hs) = omega (
  arith,
  length-append (segment ++ replicate (advance - length segment) 0) (padded 0 rest),
  length-append segment (replicate (advance - length segment) 0),
  length-replicate (advance - length segment) (zero),
  length-padded rest hs,
  h,
)

max_from-le : (m : ℕ) (ns : List ℕ) → m ≤ max_from m ns
unfolding max_from
max_from-le m [] = omega arith
max_from-le m (n ∷ ns) = omega (arith, max_from-le (max m n) ns)

max_from-All : (m : ℕ) (ns : List ℕ) → All (λ n. n ≤ max_from m ns) ns
unfolding max_from
max_from-All m [] = tt
max_from-All m (n ∷ ns) = (omega (arith, max_from-le (max m n) ns), max_from-All (max m n) ns)

pad_aligned : (n total : ℕ) → (total + (suc n - total % suc n) % suc n) % suc n ≡ 0
pad_aligned n total =
    let m = suc n in
    let r : total % m < m = mod-lt total (omega arith) in
    add-mod-mod total (m - total % m) m
    ∙ ap (λ t. t % m) (omega (arith, div-add-mod total m, r))
    ∙ mul-add-mod_self_left m (total / m) m
    ∙ mod_self m

int32-pos : (n : ℕ) → n < 2 ^ 31 → int32 n ≡ pos n
unfolding int32
int32-pos n h = let word : n % 2 ^ 32 ≡ n = omega arith in rw (word, lt→ltb n (2 ^ 31) h) refl

bounds-pos :
    (start : ℕ) (ns : List ℕ)
    → start + total_of ns < 2 ^ 31
    → map int32 (cumsum_from start ns) ≡ map pos (cumsum_from start ns)
unfolding cumsum_from total_of
bounds-pos start [] h = refl
bounds-pos start (n ∷ ns) h =
    ap₂ ◌∷◌ (int32-pos (start + n) (omega arith)) (bounds-pos (start + n) ns (omega arith))

-- For rows of S tokens with left-padded masks, at least one row, fewer than 2 ^ 31 real tokens in
-- all (the bounds are int32), and an alignment above 0, packing
-- succeeds, and the packed batch has the tokens that the masks keep, row after row, with their
-- positions from 0 on, then fewer zeros than the alignment up to a multiple of it; the bounds are
-- the running sums of the lengths, and no length is above `max_seqlen`.
pub pack_sequences-IsPacked :
    (S : ℕ) (batch : List Row) (align : ℕ)
    → All (IsLeftPadded S) batch
    → 0 < length batch
    → total_of (lens batch) < 2 ^ 31
    → 0 < align
    → (p : PackedBatch) × (pack_sequences S batch align ≡ ok p) × IsPacked batch align p
unfolding pack_sequences max_of padding
pack_sequences-IsPacked S [] align a some few h = absurd (omega arith)
pack_sequences-IsPacked S (row ∷ rows) zero a some few h = absurd (omega arith)
pack_sequences-IsPacked S (row ∷ rows) (suc n) a some few h =
    let batch = row ∷ rows in
    let total = total_of (lens batch) in
    let pad = (suc n - total % suc n) % suc n in
    let tokens : lay_out 0 (map (row_tokens S) batch) (replicate (total + pad) 0)
        ≡ real_tokens batch ++ replicate pad 0 =
      ap (λ t. lay_out 0 (map (row_tokens S) batch) (replicate (t + pad) 0))
        (sym (total-tokens S batch))
      ∙ lay_out-padded (map (row_tokens S) batch) pad 0 (FitsIn-tokens S batch a)
      ∙ ap (λ t. t ++ replicate pad 0) (padded-tokens S batch a) in
    let size : length (real_tokens batch) ≡ total =
      ap length (sym (padded-tokens S batch a))
      ∙ length-padded (map (row_tokens S) batch) (FitsIn-tokens S batch a)
      ∙ total-tokens S batch in
    (
      _,
      refl,
      record {
        pad = pad;
        tokens = tokens;
        positions =
            ap (λ t. lay_out 0 (map row_positions batch) (replicate (t + pad) 0))
              (sym (total-positions batch))
            ∙ lay_out-padded (map row_positions batch) pad 0 (FitsIn-positions batch)
            ∙ ap (λ t. t ++ replicate pad 0) (padded-positions batch);
        aligned =
            ap (λ t. length t % suc n) tokens
            ∙ ap (λ t. t % suc n)
                (omega (
                  arith,
                  length-append (real_tokens batch) (replicate pad 0),
                  length-replicate pad (zero),
                  size,
                ))
            ∙ pad_aligned n total;
        least = mod-lt (suc n - total % suc n) (omega arith);
        bounds = ap (◌∷◌ (pos 0)) (bounds-pos 0 (lens batch) (omega (arith, few)));
        sizes = refl;
        longest = (
          max_from-le (count_true row.1) (lens rows),
          max_from-All (count_true row.1) (lens rows),
        );
      },
    )
