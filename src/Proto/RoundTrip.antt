-- ===== src/Proto/RoundTrip.antt =====
-- Joining the chunks of a batch gives the batch back: `merge` and `concat` undo `split`.
use lumen_rl.Base.{
  ℕ, zero, suc, ◌≤◌, ◌<◌, ◌≡◌, refl, ◌∙◌, ap, List, [], ◌∷◌, String, ok, range, arith,
}
use lumen_rl.Torch.{Torch, Laws}
use lumen_rl.Proto.{DataProto, batch_size}
use lumen_rl.Proto.Split.{bound, split, split_by}
use lumen_rl.Proto.Merge.{key_in, merge, merge_chunks, concat, concat_chunks, non_empty}
use lumen_rl.Proto.View.{IsConsistent, SameRows}
use lumen_rl.Proto.Joined.{merge_chunks-Joined, concat_chunks-Joined}
use lumen_rl.Proto.Chunks.{chunks, bound_mono, bound_first, bound_last}
use lumen_rl.Proto.Pieces.{pieces, some_piece, pieces-Uniform, pieces_agree, Joined-SameRows}

-- An order in which Python may go through a set of keys.
abbrev pub IsOrder : (List String → List String) → Type 0
IsOrder order = (k : String) (ks : List String) → key_in k (order ks) ≡ key_in k ks

module _ {T : Torch} {V : Type 0} where
  merge_left :
      (order : List String → List String) (ps : List (DataProto T V)) (q : DataProto T V)
      (qs : List (DataProto T V))
      → non_empty ps ≡ q ∷ qs
      → (meta : List (String × V)) × (merge order ps ≡ merge_chunks order meta (q ∷ qs))
  unfolding merge non_empty
  merge_left order [] q qs e = absurd (cc)
  merge_left order (p ∷ ps) q qs e = (p.meta, rw (non_empty, e) refl)

  concat_left :
      (ps : List (DataProto T V)) (q : DataProto T V) (qs : List (DataProto T V))
      → non_empty ps ≡ q ∷ qs
      → (meta : List (String × V)) × (concat ps ≡ concat_chunks meta (q ∷ qs))
  unfolding concat non_empty
  concat_left [] q qs e = absurd (cc)
  concat_left (p ∷ ps) q qs e = (p.meta, rw e)

  split_by_pieces :
      (L : Laws T) (p : DataProto T V) (n size : ℕ)
      → 0 < size
      → split_by size p n ≡ chunks L p (bound size n) (range n)
  unfolding split_by chunks
  split_by_pieces L p n zero h = absurd (omega arith)
  split_by_pieces L p n (suc size) h = refl

  -- `split` cuts at the bounds, where the batch has rows.
  pub split_pieces :
      (L : Laws T) (p : DataProto T V) (n : ℕ)
      → 0 < batch_size p
      → split p n ≡ chunks L p (bound (batch_size p) n) (range n)
  unfolding split
  split_pieces L p n h = split_by_pieces L p n (batch_size p) h

module _ {T : Torch} {V : Type 0} (L : Laws T) (p : DataProto T V) (whole : IsConsistent p)
    (positive : 0 < batch_size p) (b : ℕ → ℕ) (n : ℕ) (mono : (i : ℕ) → b i ≤ b (suc i))
    (first : b 0 ≡ 0) (last : b n ≡ batch_size p) where
  -- The chunks between any rising bounds are joined to the batch.
  pub concat-pieces-SameRows :
      (q : DataProto T V) × (concat (pieces L p whole b n mono first last) ≡ ok q) × SameRows q p
  concat-pieces-SameRows =
      let (r, rs, left) = some_piece L p whole b n mono first last positive in
      let (meta, start) = concat_left (pieces L p whole b n mono first last) r rs left in
      let (q, merged, joined) =
        concat_chunks-Joined L r rs (pieces-Uniform L p whole b n mono first last r rs left) meta in
      (q, start ∙ merged, Joined-SameRows L p whole b n mono first last r rs left q joined)

module _ {T : Torch} {V : Type 0} (L : Laws T) (p : DataProto T V) (n : ℕ) (whole : IsConsistent p)
    (positive : 0 < batch_size p) (some_chunks : 0 < n) where
  cut : ℕ → ℕ
  cut = bound (batch_size p) n

  cut_mono : (i : ℕ) → cut i ≤ cut (suc i)
  unfolding cut
  cut_mono = bound_mono (batch_size p) n some_chunks

  cut_first : cut 0 ≡ 0
  unfolding cut
  cut_first = bound_first (batch_size p) n some_chunks

  cut_last : cut n ≡ batch_size p
  unfolding cut
  cut_last = bound_last (batch_size p) n some_chunks

  same_pieces : split p n ≡ pieces L p whole cut n cut_mono cut_first cut_last
  unfolding cut pieces
  same_pieces = split_pieces L p n positive

  -- Under the tensor laws, splitting a consistent batch that is not empty into n > 0 chunks, also
  -- into more than it has rows, and merging the chunks succeeds, in whatever order the set of keys
  -- is gone through, and gives back the rows of every tensor, every ragged column and the meta
  -- entries.
  pub merge-split :
      (order : List String → List String)
      → IsOrder order
      → (q : DataProto T V) × (merge order (split p n) ≡ ok q) × SameRows q p
  merge-split order is_order =
      let (r, rs, left) = some_piece L p whole cut n cut_mono cut_first cut_last positive in
      let (meta, start) = merge_left order (split p n) r rs (ap non_empty same_pieces ∙ left) in
      let (q, merged, joined) =
        merge_chunks-Joined L r rs
          (pieces-Uniform L p whole cut n cut_mono cut_first cut_last r rs left) order meta is_order
          (pieces_agree L p whole cut n cut_mono cut_first cut_last r rs left) in
      (
        q,
        start ∙ merged,
        Joined-SameRows L p whole cut n cut_mono cut_first cut_last r rs left q joined,
      )

  -- Under the tensor laws, concatenating the chunks of a consistent batch that is not empty, split
  -- into n > 0 chunks, succeeds and gives back the rows of every tensor, every ragged column and
  -- the meta entries.
  pub concat-split : (q : DataProto T V) × (concat (split p n) ≡ ok q) × SameRows q p
  concat-split =
      let (q, made, same) =
        concat-pieces-SameRows L p whole positive cut n cut_mono cut_first cut_last in
      (q, ap concat same_pieces ∙ made, same)
