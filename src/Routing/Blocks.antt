-- ===== src/Routing/Blocks.antt =====
-- What packing writes for each sequence.
use lumen_rl.Base.{
  ℕ, ◌+◌, ◌-◌, ◌≤◌, ◌≡◌, refl, sym, ap, ◌∙◌, min, Bool, true, List, [], ◌∷◌, if◌then◌else◌, ltb,
  ==_iff, length, replicate, length-replicate, length-take, take, Option, some, none, ok, ◌>>=◌,
  All, arith, Bool-cases, inl, inr,
}
use lumen_rl.Base.Ranges.{FitsIn, lay_out, overwrite, total_advance}
use lumen_rl.Packing.{total_of}
use lumen_rl.Routing.{Entry, RouteArray, block_of, covered, first_row, other_rows, pack_routes}

-- The entries that a sequence takes.
abbrev pub taken : Option RouteArray → ℕ → List Entry
taken none sl = []
taken (some r) sl = take (covered (some r) sl) r.entries

abbrev pub HasShape : ℕ → ℕ → Option RouteArray → Type 0
HasShape n_layers top_k none = Unit
HasShape n_layers top_k (some r) = (r.n_layers ≡ n_layers) × (r.top_k ≡ top_k)

-- The entries and the flags of the sequences, each with the sequence's length.
abbrev pub blocks : List (Option RouteArray) → List ℕ → List (List Entry × ℕ)
blocks rows [] = []
blocks rows (sl ∷ lens) = (taken (first_row rows) sl, sl) ∷ blocks (other_rows rows) lens

abbrev pub flags : List (Option RouteArray) → List ℕ → List (List Bool × ℕ)
flags rows [] = []
flags rows (sl ∷ lens) =
    (replicate (length (taken (first_row rows) sl)) true, sl) ∷ flags (other_rows rows) lens

block_of-taken :
    (n_layers top_k : ℕ) (r : Option RouteArray) (sl : ℕ)
    → HasShape n_layers top_k r
    → block_of n_layers top_k r sl ≡ ok (taken r sl)
unfolding block_of
block_of-taken n_layers top_k none sl h = refl
block_of-taken n_layers top_k (some r) sl (p, q) = elim (Bool-cases (ltb 0 (covered (some r) sl))) [
  | inl full ↦
      rw full (rw ((==_iff r.n_layers n_layers).1 p) (rw ((==_iff r.top_k top_k).1 q) refl))
  | inr empty ↦
      let n : covered (some r) sl ≡ 0 = ground arith in
      rw empty (ap (λ k. ok (take k r.entries)) (sym n))
]

other-HasShape :
    (n_layers top_k : ℕ) (rows : List (Option RouteArray))
    → All (HasShape n_layers top_k) rows
    → HasShape n_layers top_k (first_row rows) × All (HasShape n_layers top_k) (other_rows rows)
other-HasShape n_layers top_k [] a = (tt, tt)
other-HasShape n_layers top_k (r ∷ rows) (p, a) = (p, a)

pub pack_routes-lay_out :
    (n_layers top_k : ℕ) (rows : List (Option RouteArray)) (lens : List ℕ) (off : ℕ)
    (indices : List Entry) (valid : List Bool)
    → All (HasShape n_layers top_k) rows
    → pack_routes n_layers top_k rows lens off indices valid
      ≡ ok (lay_out off (blocks rows lens) indices, lay_out off (flags rows lens) valid)
unfolding pack_routes lay_out
pack_routes-lay_out n_layers top_k rows [] off indices valid a = refl
pack_routes-lay_out n_layers top_k rows (sl ∷ lens) off indices valid a =
    let (p, rest) = other-HasShape n_layers top_k rows a in
    let block = taken (first_row rows) sl in
    ap
      (λ b. b >>= λ block.
        pack_routes n_layers top_k (other_rows rows) lens (off + sl) (overwrite off block indices)
          (overwrite off (replicate (length block) true) valid))
      (block_of-taken n_layers top_k (first_row rows) sl p)
    ∙ pack_routes-lay_out n_layers top_k (other_rows rows) lens (off + sl)
        (overwrite off block indices) (overwrite off (replicate (length block) true) valid) rest

pub length-taken : (r : Option RouteArray) (sl : ℕ) → length (taken r sl) ≤ sl
unfolding covered
length-taken none sl = omega arith
length-taken (some r) sl =
    ground (arith, length-take (if ltb 1 sl then min (length r.entries) (sl - 1) else 0) r.entries)

pub FitsIn-blocks : (rows : List (Option RouteArray)) (lens : List ℕ) → FitsIn (blocks rows lens)
FitsIn-blocks rows [] = tt
FitsIn-blocks rows (sl ∷ lens) =
    (length-taken (first_row rows) sl, FitsIn-blocks (other_rows rows) lens)

pub FitsIn-flags : (rows : List (Option RouteArray)) (lens : List ℕ) → FitsIn (flags rows lens)
FitsIn-flags rows [] = tt
FitsIn-flags rows (sl ∷ lens) = (
  omega (
    arith,
    length-replicate (length (taken (first_row rows) sl)) true,
    length-taken (first_row rows) sl,
  ),
  FitsIn-flags (other_rows rows) lens,
)

pub total-blocks :
    (rows : List (Option RouteArray)) (lens : List ℕ)
    → total_advance (blocks rows lens) ≡ total_of lens
unfolding total_of
total-blocks rows [] = refl
total-blocks rows (sl ∷ lens) = omega (arith, total-blocks (other_rows rows) lens)

pub total-flags :
    (rows : List (Option RouteArray)) (lens : List ℕ)
    → total_advance (flags rows lens) ≡ total_of lens
unfolding total_of
total-flags rows [] = refl
total-flags rows (sl ∷ lens) = omega (arith, total-flags (other_rows rows) lens)
