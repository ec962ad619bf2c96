-- ===== src/MegatronReplay/Gathered.antt =====
-- Gathering the tokens of a row, and the layers of a token.
use lumen_rl.Base.{
  ℕ, zero, suc, ◌+◌, ◌≤◌, ◌≡◌, refl, ap, ap₂, ◌∙◌, List, [], ◌∷◌, map, ltb, length, range,
  range_from, traverse, get_or, Result, ok, ◌>>=◌, arith, Bool-cases, ltb→lt, inl, inr,
}
use lumen_rl.Base.Int.{ℤ, pos_part}
use lumen_rl.MegatronReplay.{
  TokenRoutes, select_tokens, gather_token_routes, index_end, at_layer, select_layers,
}

module _ {A : Type 0} where
  traverse-suc :
      (f g : ℕ → Result A)
      → ((i : ℕ) → f (suc i) ≡ g i)
      → (i n : ℕ) → traverse f (range_from (suc i) n) ≡ traverse g (range_from i n)
  traverse-suc f g h i zero = refl
  traverse-suc f g h i (suc n) =
      ap₂ (λ r rest. r >>= λ y. rest >>= λ ys. ok (y ∷ ys)) (h i) (traverse-suc f g h (suc i) n)

  map-suc :
      (f g : ℕ → A)
      → ((i : ℕ) → f (suc i) ≡ g i)
      → (i n : ℕ) → map f (range_from (suc i) n) ≡ map g (range_from i n)
  map-suc f g h i zero = refl
  map-suc f g h i (suc n) = ap₂ ◌∷◌ (h i) (map-suc f g h (suc i) n)

select_tokens-range : (full : List TokenRoutes) → select_tokens full (range (length full)) ≡ ok full
unfolding select_tokens
select_tokens-range [] = refl
select_tokens-range (t ∷ ts) =
    ap (λ r. r >>= λ ys. ok (t ∷ ys))
      (traverse-suc _ _ (λ i. refl) 0 (length ts) ∙ select_tokens-range ts)

index_end-range_from : (i n : ℕ) → index_end (range_from i n) ≤ i + n
unfolding index_end
index_end-range_from i zero = omega arith
index_end-range_from i (suc n) = omega (arith, index_end-range_from (suc i) n)

-- The indices of all tokens give all tokens.
pub gather_token_routes-range :
    (full : List TokenRoutes) → gather_token_routes full (range (length full)) ≡ ok full
unfolding gather_token_routes
gather_token_routes-range full =
    elim (Bool-cases (ltb (length full) (index_end (range (length full))))) [
      | inl beyond ↦ absurd (omega (arith, ltb→lt _ _ beyond, index_end-range_from 0 (length full)))
      | inr inside ↦ rw inside (select_tokens-range full)
    ]

module _ (j : ℤ) (js : List ℤ) where
  first_layer :
      (laid : List TokenRoutes)
      → at_layer (map (select_layers (j ∷ js)) laid) 0 ≡ at_layer laid (pos_part j)
  unfolding at_layer select_layers
  first_layer [] = refl
  first_layer (t ∷ ts) = ap (◌∷◌ (get_or t (pos_part j) [])) (first_layer ts)

  other_layer :
      (laid : List TokenRoutes) (k : ℕ)
      → at_layer (map (select_layers (j ∷ js)) laid) (suc k)
        ≡ at_layer (map (select_layers js) laid) k
  unfolding at_layer select_layers
  other_layer [] k = refl
  other_layer (t ∷ ts) k = ap (◌∷◌ (get_or (select_layers js t) k [])) (other_layer ts k)

-- Taking the layers apart after they were selected.
pub select-at_layer :
    (laid : List TokenRoutes) (js : List ℤ)
    → map (at_layer (map (select_layers js) laid)) (range (length js))
      ≡ map (λ j. at_layer laid (pos_part j)) js
select-at_layer laid [] = refl
select-at_layer laid (j ∷ js) =
    ap₂ ◌∷◌ (first_layer j js laid)
      (map-suc _ _ (other_layer j js laid) 0 (length js) ∙ select-at_layer laid js)
