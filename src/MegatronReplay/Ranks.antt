-- ===== src/MegatronReplay/Ranks.antt =====
-- How the tokens of a row are divided among the context-parallel ranks.
use lumen_rl.Base.{
  ok-inj, ℕ, zero, suc, ◌+◌, ◌-◌, ◌*◌, ◌/◌, ◌≤◌, ◌<◌, ◌≡◌, refl, sym, subst, ◌∙◌, false, List, [],
  ◌∷◌, ◌++◌, range_from, leb, ltb, ok, arith, ◌≢◌, ◌⊎◌, inl, inr, Bool-cases, leb→le, ltb→lt,
}
use native.Mathlib.Nat.{div-add-mod, mod-lt, mul-le-mul_right}
use lumen_rl.MegatronReplay.{ContextParallel, cp_local_indices, zigzag_indices}

abbrev pub Member : ℕ → List ℕ → Type 0
Member i [] = ⊥
Member i (x ∷ xs) = (i ≡ x) ⊎ Member i xs

Member-left : (i : ℕ) (xs ys : List ℕ) → Member i xs → Member i (xs ++ ys)
Member-left i [] ys m = elim m [ ]
Member-left i (x ∷ xs) ys (inl e) = inl e
Member-left i (x ∷ xs) ys (inr m) = inr (Member-left i xs ys m)

Member-right : (i : ℕ) (xs ys : List ℕ) → Member i ys → Member i (xs ++ ys)
Member-right i [] ys m = m
Member-right i (x ∷ xs) ys m = inr (Member-right i xs ys m)

Member-append : (i : ℕ) (xs ys : List ℕ) → Member i (xs ++ ys) → Member i xs ⊎ Member i ys
Member-append i [] ys m = inr m
Member-append i (x ∷ xs) ys (inl e) = inl (inl e)
Member-append i (x ∷ xs) ys (inr m) = elim (Member-append i xs ys m) [
  | inl k ↦ inl (inr k)
  | inr k ↦ inr k
]

Member-range_from : (i a n : ℕ) → a ≤ i → i < a + n → Member i (range_from a n)
Member-range_from i a zero h l = absurd (omega arith)
Member-range_from i a (suc n) h l = elim (Bool-cases (leb i a)) [
  | inl at ↦ inl (omega (arith, leb→le i a at))
  | inr after ↦ inr (Member-range_from i (suc a) n (ground arith) (omega arith))
]

range_from-bounds : (i a n : ℕ) → Member i (range_from a n) → (a ≤ i) × (i < a + n)
range_from-bounds i a zero m = elim m [ ]
range_from-bounds i a (suc n) (inl e) = (omega arith, omega arith)
range_from-bounds i a (suc n) (inr m) =
    let (low, high) = range_from-bounds i (suc a) n m in (omega arith, omega arith)

-- The number `i` lies in the block `b` of `chunk` numbers.
abbrev Within : ℕ → ℕ → ℕ → Type 0
Within chunk b i = (b * chunk ≤ i) × (i < b * chunk + chunk)

not_below : (chunk a b i : ℕ) → a < b → Within chunk a i → Within chunk b i → ⊥
not_below chunk a b i h (l, u) (l', u') =
    omega (arith, mul-le-mul_right {m = suc a} {n = b} chunk h)

Within-same : (chunk a b i : ℕ) → Within chunk a i → Within chunk b i → a ≡ b
Within-same chunk a b i v w = elim (Bool-cases (ltb a b)) [
  | inl below ↦ absurd (not_below chunk a b i (ltb→lt a b below) v w)
  | inr not_below_b ↦ elim (Bool-cases (ltb b a)) [
    | inl above ↦ absurd (not_below chunk b a i (ltb→lt b a above) w v)
    | inr not_above ↦ ground arith
  ]
]

block_below : (chunk d b i : ℕ) → i < d * chunk → Within chunk b i → b < d
block_below chunk d b i h (l, u) = elim (Bool-cases (ltb b d)) [
  | inl below ↦ ltb→lt b d below
  | inr beyond ↦ absurd (omega (arith, mul-le-mul_right {m = d} {n = b} chunk (ground arith)))
]

Within-block : (chunk d i : ℕ) → i < d * chunk → (b : ℕ) × (b < d) × Within chunk b i
Within-block zero d i h = absurd (omega arith)
Within-block (suc c) d i h =
    let whole = div-add-mod i (suc c) in
    let part = mod-lt i {m = suc c} (omega arith) in
    let low : Within (suc c) (i / suc c) i = (omega arith, omega arith) in
    (i / suc c, block_below (suc c) d (i / suc c) i h low, low)

chunk_enough : (size n : ℕ) → 0 < n → size ≤ n * ((size + n - 1) / n)
chunk_enough size n pos = omega (arith, div-add-mod (size + n - 1) n, mod-lt (size + n - 1) pos)

abbrev chunk_of : ℕ → ℕ → ℕ
chunk_of size n = (size + 2 * n - 1) / (2 * n)

zigzag-Within :
    (size n r i : ℕ)
    → Member i (zigzag_indices size n r)
    → (b : ℕ) × Within (chunk_of size n) b i × ((b ≡ r) ⊎ (b ≡ 2 * n - r - 1))
unfolding zigzag_indices
zigzag-Within size n r i m =
    elim (Member-append i (range_from (r * chunk_of size n) (chunk_of size n)) _ m) [
      | inl k ↦ (r, range_from-bounds i _ _ k, inl refl)
      | inr k ↦ (2 * n - r - 1, range_from-bounds i _ _ k, inr refl)
    ]

Within-zigzag :
    (size n b i : ℕ)
    → b < 2 * n
    → Within (chunk_of size n) b i
    → (r : ℕ) × (r < n) × Member i (zigzag_indices size n r)
unfolding zigzag_indices
Within-zigzag size n b i h (l, u) = elim (Bool-cases (ltb b n)) [
  | inl first ↦ (b, ltb→lt b n first, Member-left i _ _ (Member-range_from i _ _ l u))
  | inr second ↦ (
    2 * n - b - 1,
    ground arith,
    Member-right i _ _ (
        subst (λ c. Member i (range_from (c * chunk_of size n) (chunk_of size n))) (omega arith)
          (Member-range_from i _ _ l u)),
  )
]

abbrev pub Zigzag : ℕ → ℕ → ℕ → ContextParallel
Zigzag n r align = record { cp_size = n; cp_rank = r; contiguous = false; align = align }

cp_local_indices-zigzag :
    (size n r align : ℕ)
    → 1 < n
    → cp_local_indices size (Zigzag n r align) ≡ ok (zigzag_indices size n r)
unfolding cp_local_indices
cp_local_indices-zigzag size n r align h = elim (Bool-cases (leb n 1)) [
  | inl small ↦ absurd (omega (arith, leb→le n 1 small))
  | inr large ↦ rw large refl
]

same_rank :
    (n r r' b b' : ℕ)
    → r < n
    → r' < n
    → ((b ≡ r) ⊎ (b ≡ 2 * n - r - 1))
    → ((b' ≡ r') ⊎ (b' ≡ 2 * n - r' - 1))
    → b ≡ b'
    → r ≡ r'
same_rank n r r' b b' l l' side side' e = ground arith

-- With at least two context-parallel ranks and no contiguous division, every token of a row is among
-- the local indices of one of the ranks.
pub cp_local_indices-covers :
    (size n align i : ℕ)
    → 1 < n
    → i < size
    → (r : ℕ) × (idx : List ℕ) × (r < n)
      × (cp_local_indices size (Zigzag n r align) ≡ ok idx)
      × Member i idx
cp_local_indices-covers size n align i h l =
    let (b, below, w) =
      Within-block (chunk_of size n) (2 * n) i
        (omega (arith, chunk_enough size (2 * n) (omega arith))) in
    let (r, rank, m) = Within-zigzag size n b i below w in
    (r, zigzag_indices size n r, rank, cp_local_indices-zigzag size n r align h, m)

-- With at least two context-parallel ranks and no contiguous division, an index that is among the
-- local indices of one rank is not among those of another.
pub cp_local_indices-apart :
    (size n align i r r' : ℕ) (idx idx' : List ℕ)
    → 1 < n
    → r < n
    → r' < n
    → r ≢ r'
    → cp_local_indices size (Zigzag n r align) ≡ ok idx
    → cp_local_indices size (Zigzag n r' align) ≡ ok idx'
    → Member i idx
    → ¬ Member i idx'
cp_local_indices-apart size n align i r r' idx idx' h l l' ne e e' m m' =
    let same : zigzag_indices size n r ≡ idx =
      ok-inj _ _ (sym (cp_local_indices-zigzag size n r align h) ∙ e) in
    let same' : zigzag_indices size n r' ≡ idx' =
      ok-inj _ _ (sym (cp_local_indices-zigzag size n r' align h) ∙ e') in
    let (b, w, side) = zigzag-Within size n r i (subst (Member i) (sym same) m) in
    let (b', w', side') = zigzag-Within size n r' i (subst (Member i) (sym same') m') in
    ne (same_rank n r r' b b' l l' side side' (Within-same (chunk_of size n) b b' i w w'))
