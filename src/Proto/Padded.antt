-- ===== src/Proto/Padded.antt =====
-- lumenrl/core/protocol.py: `unpad` undoes `pad_to_divisor`.
use lumen_rl.Base.{
  ℕ, zero, suc, ◌+◌, ◌-◌, ◌%◌, ◌*◌, ◌/◌, ◌<◌, ◌≡◌, refl, ap, ap₂, ◌∙◌, List, [], ◌∷◌, map, length,
  length-map, range, length-range_from, range_from, range_from-below, drop-zero, take-zero, drop,
  suc_add, slice, take, min, some, Result, ok, ◌>>=◌, lt→ltb, arith, All,
}
use native.Mathlib.Nat.{mod-lt, div-add-mod, mul-mod_right}
use lumen_rl.Base.Int.{pos}
use lumen_rl.Torch.{Torch, Laws}
use lumen_rl.Proto.{DataProto, HasRows, batch_size}
use lumen_rl.Proto.Select.{
  ints, span, long, wrap, normalize_indices, select_idxs, select_idxs-rows, take_rows, slice_start,
  slice_stop, slice_bound,
}
use lumen_rl.Proto.Merge.{concat, concat_chunks, non_empty}
use lumen_rl.Proto.Pad.{padding_rows, pad_by, pad_rows, drop_rows, pad_to_divisor, unpad}
use lumen_rl.Proto.View.{IsConsistent, SameRows}
use lumen_rl.Proto.Taken.{wrap-pos, Taken, take_rows-Taken, batch_size-HasRows}
use lumen_rl.Proto.Extended.{Extends, chunks-Extends, Extends-SameRows}

map_pos : (f : ℕ → ℕ) (is : List ℕ) → map (λ i. pos (f i)) is ≡ map pos (map f is)
map_pos f [] = refl
map_pos f (i ∷ is) = ap (◌∷◌ (pos (f i))) (map_pos f is)

mod_below : (n : ℕ) (is : List ℕ) → 0 < n → All (λ i. i < n) (map (λ i. i % n) is)
mod_below n [] h = tt
mod_below n (i ∷ is) h = (mod-lt i h, mod_below n is h)

module _ {T : Torch} {V : Type 0} (L : Laws T) (p : DataProto T V) (n : ℕ) (some_rows : 0 < n)
    (whole : HasRows n p) (size : batch_size p ≡ n) where
  -- The first rows, round and round.
  padding-Taken :
      (pad : ℕ)
      → (q : DataProto T V) × (select_idxs p (ints (map (λ i. pos (i % n)) (range pad))) ≡ ok q)
        × Taken p (map (λ i. i % n) (range pad)) q
  unfolding normalize_indices
  padding-Taken pad =
      let is = map (λ i. i % n) (range pad) in
      let (q, f, taken) = take_rows-Taken L p n is whole (mod_below n (range pad) some_rows) in
      (
        q,
        ap (λ js. select_idxs p (ints js)) (map_pos (λ i. i % n) (range pad))
            ∙ select_idxs-rows p (ints (map pos is)) (omega (arith, size))
            ∙ ap (λ js. take_rows p (long js)) (wrap-pos (batch_size p) is)
            ∙ f,
        taken,
      )

module _ {T : Torch} {V : Type 0} where
  concat_two :
      (p q : DataProto T V)
      → 0 < batch_size p
      → 0 < batch_size q
      → concat (p ∷ q ∷ []) ≡ concat_chunks p.meta (p ∷ q ∷ [])
  unfolding concat non_empty
  concat_two p q h k = rw (lt→ltb 0 (batch_size p) h, lt→ltb 0 (batch_size q) k) refl

  pad_rows-run :
      (size d : ℕ) (p : DataProto T V) → 0 < size → pad_rows size d p ≡ pad_by size d p (size % d)
  unfolding pad_rows
  pad_rows-run zero d p h = absurd (omega arith)
  pad_rows-run (suc size) d p h = refl

  drop_rows-run :
      (size pad : ℕ) (q : DataProto T V)
      → 0 < size
      → 0 < pad
      → drop_rows size q pad ≡ select_idxs q (span (some (pos 0)) (some (pos (size - pad))))
  unfolding drop_rows
  drop_rows-run size zero q h k = absurd (omega arith)
  drop_rows-run zero (suc pad) q h k = absurd (omega arith)
  drop_rows-run (suc size) (suc pad) q h k = refl

unpad-none : {T : Torch} {V : Type 0} (p : DataProto T V) → unpad p 0 ≡ ok p
unfolding unpad drop_rows
unpad-none p = refl

take-range : (i n m : ℕ) → take n (range_from i (n + m)) ≡ range_from i n
take-range i zero m = take-zero (range_from i (0 + m))
take-range i (suc n) m =
    ap (λ k. take (suc n) (range_from i k)) (suc_add n m) ∙ ap (◌∷◌ i) (take-range (suc i) n m)

-- `slice(0, size - pad)` of a batch with `n` rows more than that many.
span-range :
    (n m size : ℕ)
    → size ≡ n + m
    → slice (slice_start size (some (pos 0))) (slice_stop size (some (pos (size - m)))) (range size)
      ≡ range n
unfolding slice slice_start slice_stop slice_bound
span-range n m size e =
    let first : min 0 size ≡ 0 = omega arith in
    let last : min (size - m) size - min 0 size ≡ n = omega arith in
    ap₂ (λ a b. take a (drop b (range size))) last first
    ∙ ap (take n) (drop-zero (range size))
    ∙ ap (λ k. take n (range k)) e
    ∙ take-range 0 n m

divides_up : (n d r : ℕ) → 0 < d → n % d ≡ suc r → (n + (d - suc r)) % d ≡ 0
divides_up n d r h e =
    let less : n % d < d = mod-lt n h in
    let whole : n + (d - suc r) ≡ d * (n / d + 1) = grind (arith, div-add-mod n d) in
    ap (λ m. m % d) whole ∙ mul-mod_right d (n / d + 1)

module _ {T : Torch} {V : Type 0} (L : Laws T) (p : DataProto T V) (d : ℕ) (whole : IsConsistent p)
    (some_rows : 0 < batch_size p) (positive : 0 < d) where
  -- What padding gives, and that dropping the padding gives the rows back.
  abbrev RoundTrip : Result (DataProto T V × ℕ) → Type 0
  RoundTrip o =
      (q : DataProto T V) × (pad : ℕ) × (s : DataProto T V) × (o ≡ ok (q, pad))
      × (pad < d)
      × (batch_size q ≡ batch_size p + pad)
      × (batch_size q % d ≡ 0)
      × (unpad q pad ≡ ok s)
      × SameRows s p

  -- The end of the batch is dropped.
  unpad-Extends :
      (q : DataProto T V) (pad : ℕ)
      → 0 < pad
      → batch_size q ≡ batch_size p + pad
      → Extends p (batch_size p + pad) q
      → (s : DataProto T V) × (unpad q pad ≡ ok s) × SameRows s p
  unfolding unpad normalize_indices
  unpad-Extends q pad h size e =
      let n = batch_size p in
      let (s, f, t) =
        take_rows-Taken L q (n + pad) (range n) e.rows
          (range_from-below 0 n (n + pad) (omega arith)) in
      (
        s,
        drop_rows-run (batch_size q) pad q (omega arith) h
            ∙ select_idxs-rows q (span (some (pos 0)) (some (pos (batch_size q - pad))))
                (omega arith)
            ∙ ap (λ is. take_rows q (long (map (wrap (batch_size q)) (map pos is))))
                (span-range n pad (batch_size q) size)
            ∙ ap (λ js. take_rows q (long js)) (wrap-pos (batch_size q) (range n))
            ∙ f,
        Extends-SameRows p q s n (n + pad) L whole e t,
      )

  pad_by-RoundTrip : (r : ℕ) → batch_size p % d ≡ r → RoundTrip (pad_by (batch_size p) d p r)
  unfolding pad_by padding_rows
  pad_by-RoundTrip zero e = (
    p,
    0,
    p,
    refl,
    positive,
    omega arith,
    e,
    unpad-none p,
    record { same_columns = λ k. refl; same_ragged = λ k. refl; same_meta = refl },
  )
  pad_by-RoundTrip (suc r) e =
      let n = batch_size p in
      let pad = d - suc r in
      let less : n % d < d = mod-lt n positive in
      let is = map (λ i. i % n) (range pad) in
      let count : length is ≡ pad = length-map (range pad) (λ i. i % n) ∙ length-range_from 0 pad in
      let (padding, f, taken) = padding-Taken L p n some_rows whole refl pad in
      let padded : batch_size padding ≡ pad =
        batch_size-HasRows (length is) p padding taken.keys taken.same_ragged_keys taken.rows
          some_rows
        ∙ count in
      let (q, g, ext) = chunks-Extends L p n pad whole padding is taken count in
      let size : batch_size q ≡ n + pad =
        batch_size-HasRows (n + pad) p q ext.keys ext.same_ragged_keys ext.rows some_rows in
      let (s, dropped, same) = unpad-Extends q pad (omega arith) size ext in
      (
        q,
        pad,
        s,
        ap (λ o. o >>= λ rest. concat (p ∷ rest ∷ []) >>= λ whole'. ok (whole', pad)) f
            ∙ ap (λ o. o >>= λ whole'. ok (whole', pad))
                (concat_two p padding some_rows (omega arith) ∙ g),
        omega arith,
        size,
        ap (λ m. m % d) size ∙ divides_up n d r positive e,
        dropped,
        same,
      )

-- Under the tensor laws, a consistent batch that is not empty is padded to a multiple of d > 0:
-- that succeeds with fewer than d rows more, their number is returned, the number of rows is then divisible by d, and
-- `unpad` by that number succeeds and gives back the rows of every tensor, every ragged column
-- and the meta entries.
pub unpad-pad_to_divisor :
    {T : Torch} {V : Type 0} (L : Laws T) (p : DataProto T V) (d : ℕ)
    → IsConsistent p
    → 0 < batch_size p
    → 0 < d
    → (q : DataProto T V) × (pad : ℕ) × (s : DataProto T V) × (pad_to_divisor p d ≡ ok (q, pad))
      × (pad < d)
      × (batch_size q ≡ batch_size p + pad)
      × (batch_size q % d ≡ 0)
      × (unpad q pad ≡ ok s)
      × SameRows s p
unfolding pad_to_divisor
unpad-pad_to_divisor L p zero whole some_rows positive = absurd (omega arith)
unpad-pad_to_divisor L p (suc d) whole some_rows positive =
    let (q, pad, s, made, less, size, divides, dropped, same) =
      pad_by-RoundTrip L p (suc d) whole some_rows positive (batch_size p % suc d) refl in
    (
      q,
      pad,
      s,
      pad_rows-run (batch_size p) (suc d) p some_rows ∙ made,
      less,
      size,
      divides,
      dropped,
      same,
    )
