-- ===== src/RlTrainer/Shards/Lightest.antt =====
-- lumenrl/trainer/rl_trainer.py, `_balance_rows_across_workers`: the `min` over the bins with room.
use lumen_rl.Base.{
  ℕ, zero, suc, ◌*◌, ◌≤◌, ◌<◌, ◌≡◌, refl, sym, subst, ap, List, [], ◌∷◌, ltb, leb, ltb→lt, leb→le,
  not_ltb→le, Bool-cases, ◌⊎◌, inl, inr, length, Option, some, none, arith, All,
}
use lumen_rl.RlTrainer.Shards.{Bin, first_least, lightest}
use lumen_rl.RlTrainer.Shards.Bins.{HasRoom, placed}

-- The bin `j` is `b`.
abbrev pub At : ℕ → Bin → List Bin → Type 0
At j b [] = ⊥
At zero b (c ∷ bins) = b ≡ c
At (suc j) b (c ∷ bins) = At j b bins

pub At-All : (P : Bin → Type 0) (i : ℕ) (a : Bin) (bins : List Bin) → All P bins → At i a bins → P a
At-All P i a [] h at = absurd at
At-All P zero a (b ∷ bins) (p, h) at = subst P (sym at) p
At-All P (suc i) a (b ∷ bins) (p, h) at = At-All P i a bins h at

pub All-At :
    (P : Bin → Type 0) (bins : List Bin) → ((i : ℕ) (a : Bin) → At i a bins → P a) → All P bins
All-At P [] h = tt
All-At P (b ∷ bins) h = (h 0 b refl, All-At P bins (λ i. h (suc i)))

module _ (per : ℕ) where
  -- No bin with room has a smaller load.
  abbrev pub Lowest : ℕ → List Bin → Type 0
  Lowest least bins = (i : ℕ) (a : Bin) → At i a bins → length a.rows < per → least ≤ a.load

  Lowest-cons :
      (least : ℕ) (b : Bin) (bins : List Bin)
      → (length b.rows < per → least ≤ b.load)
      → Lowest least bins
      → Lowest least (b ∷ bins)
  Lowest-cons least b bins h k zero a at =
      subst (λ c. length c.rows < per → least ≤ c.load) (sym at) h
  Lowest-cons least b bins h k (suc i) a at = k i a at

  abbrev Full : List Bin → Type 0
  Full bins = (i : ℕ) (a : Bin) → At i a bins → per ≤ length a.rows

  Full-cons : (b : Bin) (bins : List Bin) → per ≤ length b.rows → Full bins → Full (b ∷ bins)
  Full-cons b bins h k zero a at = subst (λ c. per ≤ length c.rows) (sym at) h
  Full-cons b bins h k (suc i) a at = k i a at

  -- The bin that is found is the lightest of those with room.
  abbrev pub Least : List Bin → Option (ℕ × ℕ) → Type 0
  Least bins none = Full bins
  Least bins (some (j, least)) =
      (b : Bin) × At j b bins × (length b.rows < per) × (b.load ≡ least) × Lowest least bins

  first_least-Least :
      (b : Bin) (bins : List Bin) (o : Option (ℕ × ℕ))
      → Least bins o
      → Least (b ∷ bins) (first_least (ltb (length b.rows) per) b.load o)
  unfolding first_least
  first_least-Least b bins none h = elim (Bool-cases (ltb (length b.rows) per)) [
    | inl free ↦
        let room = ltb→lt (length b.rows) per free in
        rw free (
          b,
          refl,
          room,
          refl,
          Lowest-cons b.load b bins (λ _. omega arith)
              (λ i a at r. absurd (omega (arith, h i a at))),
        )
    | inr full ↦ rw full (Full-cons b bins (not_ltb→le (length b.rows) per full) h)
  ]
  first_least-Least b bins (some (j, least)) (c, at, room, same, h) =
      elim (Bool-cases (ltb (length b.rows) per)) [
        | inl free ↦ rw free (elim (Bool-cases (leb b.load least)) [
          | inl lighter ↦
              let le = leb→le b.load least lighter in
              rw lighter (
                b,
                refl,
                ltb→lt (length b.rows) per free,
                refl,
                Lowest-cons b.load b bins (λ _. omega arith)
                    (λ i a at' r. omega (arith, h i a at' r)),
              )
          | inr heavier ↦
              rw heavier (c, at, room, same, Lowest-cons least b bins (λ _. ground arith) h)
        ])
        | inr full ↦
            let no = not_ltb→le (length b.rows) per full in
            rw full (c, at, room, same, Lowest-cons least b bins (λ r. absurd (omega arith)) h)
      ]

  pub lightest-Least : (bins : List Bin) → Least bins (lightest per bins)
  unfolding lightest
  lightest-Least [] = λ i a at. absurd at
  lightest-Least (b ∷ bins) = first_least-Least b bins (lightest per bins) (lightest-Least bins)

  pub HasRoom-At :
      (j : ℕ) (b : Bin) (bins : List Bin) → At j b bins → length b.rows < per → HasRoom per j bins
  HasRoom-At j b [] at h = absurd at
  HasRoom-At zero b (c ∷ bins) at h = omega (arith, ap (λ d. length d.rows) at)
  HasRoom-At (suc j) b (c ∷ bins) at h = HasRoom-At j b bins at h

  Full-placed : (bins : List Bin) → Full bins → length bins * per ≤ placed bins
  Full-placed [] h = omega arith
  Full-placed (b ∷ bins) h = omega (arith, h 0 b refl, Full-placed bins (λ i. h (suc i)))

  -- A bin with room is found, or all bins are full.
  abbrev pub Lightest : List Bin → Option (ℕ × ℕ) → Type 0
  Lightest bins o =
      ((j : ℕ) × (least : ℕ) × (o ≡ some (j, least)) × HasRoom per j bins)
      ⊎ ((o ≡ none) × (length bins * per ≤ placed bins))

  Least-Lightest : (bins : List Bin) (o : Option (ℕ × ℕ)) → Least bins o → Lightest bins o
  Least-Lightest bins none h = inr (refl, Full-placed bins h)
  Least-Lightest bins (some (j, least)) (b, at, room, same, low) =
      inl (j, least, refl, HasRoom-At j b bins at room)

  pub lightest-Lightest : (bins : List Bin) → Lightest bins (lightest per bins)
  lightest-Lightest bins = Least-Lightest bins (lightest per bins) (lightest-Least bins)
