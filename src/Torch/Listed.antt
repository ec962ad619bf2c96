-- ===== src/Torch/Listed.antt =====
-- A torch whose tensors are lists of rows: the tensor laws can be met, and the model can be run.
-- A row of a 1-D tensor has one entry, and a row of a 2-D tensor has one entry for each column.
use lumen_rl.Base.{
  ℕ, ◌+◌, ◌<◌, ◌≡◌, ◌||◌, refl, Bool, true, false, ◌&&◌, List, [], ◌∷◌, ◌++◌, map, ◌==◌,
  if◌then◌else◌, Result, ok, err, index_error, runtime_error, map_ok, length, slice, flat_map,
  replicate, gather, keep_where, repeat_each, repeat_all, All, arith,
}
use lumen_rl.Torch.Ops.{Torch, Laws}

pub record Tensor : Type 0 where
  pub tail : List ℕ
  pub rows : List (List ℕ)

abbrev same_shape : List ℕ → List ℕ → Bool
same_shape [] [] = true
same_shape (a ∷ as') (b ∷ bs) = (a == b) && same_shape as' bs
same_shape [] (b ∷ bs) = false
same_shape (a ∷ as') [] = false

abbrev all_shaped : List ℕ → List Tensor → Bool
all_shaped shape [] = true
all_shaped shape (t ∷ ts) = same_shape t.tail shape && all_shaped shape ts

abbrev with_rows : Tensor → List (List ℕ) → Tensor
with_rows t rows = record { tail = t.tail; rows = rows }

abbrev join : List Tensor → Result Tensor
join [] = err runtime_error
join (t ∷ ts) =
    if all_shaped t.tail ts
    then ok (with_rows t (flat_map (λ u. u.rows) (t ∷ ts)))
    else err runtime_error

abbrev widen : ℕ → List ℕ → List ℕ
widen d [] = []
widen d (w ∷ ws) = (w + d) ∷ ws

abbrev has_zero : List ℕ → Bool
has_zero [] = false
has_zero (d ∷ ds) = (d == 0) || has_zero ds

abbrev pub listed : Torch
listed = record {
  Tensor = Tensor;
  Row = List ℕ;
  rows = λ t. t.rows;
  tail_shape = λ t. t.tail;
  span = λ t a b. with_rows t (slice a b t.rows);
  index = λ t is. map_ok (with_rows t) (gather t.rows is);
  mask = λ t bs.
      if length bs == length t.rows
      then ok (with_rows t (keep_where bs t.rows))
      else err index_error;
  cat = join;
  repeat_interleave = λ t r. with_rows t (flat_map (replicate r) t.rows);
  repeat_interleave_each = λ t rs. with_rows t (repeat_each t.rows rs);
  tile =
      λ t r. if has_zero t.tail then err runtime_error else ok (with_rows t (repeat_all r t.rows));
  pad_right =
      λ t d. record { tail = widen d t.tail; rows = map (λ row. row ++ replicate d 0) t.rows };
}

same_shape_refl : (s : List ℕ) → same_shape s s ≡ true
same_shape_refl [] = refl
same_shape_refl (a ∷ s) = ground (arith, same_shape_refl s)

all_shaped-of-All :
    (shape : List ℕ) (ts : List Tensor) → All (λ u. u.tail ≡ shape) ts → all_shaped shape ts ≡ true
all_shaped-of-All shape [] h = refl
all_shaped-of-All shape (t ∷ ts) h =
    rw (h.0, same_shape_refl shape) (all_shaped-of-All shape ts h.1)

map_rows :
    (t : Tensor) (r : Result (List (List ℕ))) → map_ok (λ u. u.rows) (map_ok (with_rows t) r) ≡ r
map_rows t (ok rows) = refl
map_rows t (err e) = refl

tail-with_rows :
    (t u : Tensor) (r : Result (List (List ℕ))) → map_ok (with_rows t) r ≡ ok u → u.tail ≡ t.tail
tail-with_rows t u (ok rows) h = ground arith
tail-with_rows t u (err e) h = cc

has_zero-of-All : (shape : List ℕ) → All (λ d. 0 < d) shape → has_zero shape ≡ false
has_zero-of-All [] h = refl
has_zero-of-All (d ∷ ds) (p, h) = ground (arith, has_zero-of-All ds h)

pub listed-Laws : Laws listed
listed-Laws = record {
  rows-span = λ t a b. refl;
  tail-span = λ t a b. refl;
  rows-index = λ t is. map_rows t (gather t.rows is);
  rows-mask = λ t bs. ground arith;
  tail-index = λ t u is. tail-with_rows t u (gather t.rows is);
  tail-mask = λ t u bs h. ground arith;
  cat_agree = λ t ts h. (
    with_rows t (flat_map (λ u. u.rows) (t ∷ ts)),
    rw (all_shaped-of-All t.tail ts h),
    refl,
    refl,
  );
  rows-repeat_interleave = λ t r. refl;
  rows-repeat_interleave_each = λ t rs h. refl;
  rows-tile =
      λ t r h. (with_rows t (repeat_all r t.rows), rw (has_zero-of-All t.tail h) refl, refl);
}
