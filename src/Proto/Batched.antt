-- ===== src/Proto/Batched.antt =====
-- lumenrl/core/protocol.py: `mini_batches` cuts a batch into batches of a given size.
use lumen_rl.Base.{
  ℕ, zero, suc, ◌+◌, ◌*◌, ◌/◌, ◌≤◌, ◌<◌, min, ◌≡◌, refl, ap, ap₂, ◌∙◌, List, ◌∷◌, range, range_from,
  ok, arith, All,
}
use native.Mathlib.Nat.{mul-div-le, lt-div-mul-add}
use lumen_rl.Torch.{Torch, Laws}
use lumen_rl.Proto.{DataProto, batch_size}
use lumen_rl.Proto.Split.{chunk, batches_from, mini_batches}
use lumen_rl.Proto.Merge.{concat}
use lumen_rl.Proto.View.{IsConsistent, SameRows}
use lumen_rl.Proto.Chunks.{chunks, batch_size-chunk, All-chunks}
use lumen_rl.Proto.Pieces.{pieces}
use lumen_rl.Proto.RoundTrip.{concat-pieces-SameRows}

-- Where the batches of `size` rows are cut.
cuts : ℕ → ℕ → ℕ → ℕ
cuts size total i = min (i * size) total

cuts_mono : (size total i : ℕ) → cuts size total i ≤ cuts size total (suc i)
unfolding cuts
cuts_mono size total i = omega arith

cuts_first : (size total : ℕ) → cuts size total 0 ≡ 0
unfolding cuts
cuts_first size total = omega arith

-- As many rounds as `range(0, total, size)` has starts.
rounds : ℕ → ℕ → ℕ
rounds s total = (total + s) / suc s

rounds_bounds :
    (s total : ℕ) → (total ≤ rounds s total * suc s) × (rounds s total * suc s < total + suc s)
unfolding rounds
rounds_bounds s total = (
  omega (arith, lt-div-mul-add {a = total + s} {b = suc s} (omega arith)),
  omega (arith, mul-div-le (total + s) (suc s)),
)

cuts_last : (s total : ℕ) → cuts (suc s) total (rounds s total) ≡ total
unfolding cuts
cuts_last s total = omega (arith, (rounds_bounds s total).0)

earlier_start : (i m size total : ℕ) → (i + suc m) * size < total + size → i * size < total
earlier_start i m size total h =
    let parts : (i + suc m) * size ≡ i * size + (m * size + size) = grind arith in
    omega (arith, parts)

module _ {T : Torch} {V : Type 0} (L : Laws T) (p : DataProto T V) where
  batches_from-chunks :
      (m i size total : ℕ)
      → (i + m) * size < total + size
      → batches_from m (i * size) size total p ≡ chunks L p (cuts size total) (range_from i m)
  unfolding batches_from chunks cuts
  batches_from-chunks zero i size total h = refl
  batches_from-chunks (suc m) i size total h =
      let start : i * size ≡ min (i * size) total = omega (arith, earlier_start i m size total h) in
      let stop : min (i * size + size) total ≡ min (suc i * size) total = omega arith in
      let next : i * size + size ≡ suc i * size = omega arith in
      let shift : suc i + m ≡ i + suc m = omega arith in
      let later : (suc i + m) * size < total + size = omega (arith, h, ap (λ k. k * size) shift) in
      ap₂ ◌∷◌ (ap₂ (chunk p) start stop) (
        ap (λ k. batches_from m k size total p) next
        ∙ batches_from-chunks m (suc i) size total later)

  small_chunk :
      (size i : ℕ)
      → batch_size (chunk p (cuts size (batch_size p) i) (cuts size (batch_size p) (suc i))) ≤ size
  unfolding cuts
  small_chunk size i = omega (
    arith,
    batch_size-chunk L p (min (i * size) (batch_size p)) (min (suc i * size) (batch_size p)),
  )

  -- Under the tensor laws, a consistent batch that is not empty is cut into batches of at most
  -- `size` > 0 rows, and concatenating these gives back the rows of every tensor, every ragged column and the meta
  -- entries.
  pub concat-mini_batches :
      (size : ℕ)
      → IsConsistent p
      → 0 < batch_size p
      → 0 < size
      → (bs : List (DataProto T V)) × (q : DataProto T V) × (mini_batches p size ≡ ok bs)
        × (concat bs ≡ ok q)
        × SameRows q p
        × All (λ b. batch_size b ≤ size) bs
  unfolding mini_batches pieces rounds
  concat-mini_batches zero whole some_rows h = absurd (omega arith)
  concat-mini_batches (suc s) whole some_rows h =
      let n = batch_size p in
      let b = cuts (suc s) n in
      let m = rounds s n in
      let start : 0 ≡ 0 * suc s = omega arith in
      let cut = batches_from-chunks m 0 (suc s) n (omega (arith, (rounds_bounds s n).1)) in
      let (q, made, same) =
        concat-pieces-SameRows L p whole some_rows b m (cuts_mono (suc s) n) (cuts_first (suc s) n)
          (cuts_last s n) in
      (
        chunks L p b (range m),
        q,
        ap ok (ap (λ k. batches_from m k (suc s) n p) start ∙ cut),
        made,
        same,
        All-chunks L p (λ c. batch_size c ≤ suc s) b (range m) (small_chunk (suc s)),
      )
