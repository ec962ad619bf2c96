-- ===== src/Base/Masks.antt =====
-- The entries at which a mask is true.
use Prim.Native.Nat.{ℕ, zero, suc}
use mathlib.Core.Path.{◌≡◌, refl, ap}
use mathlib.Core.Bool.{Bool, true, false}
use mathlib.Core.List.{List, [], ◌∷◌, map}
use lumen_rl.Base.Lists.{replicate}
use lumen_rl.Base.Slices.{keep_where}

module _ {ℓ} {A : Type ℓ} where
  pub keep_where-nil : (mask : List Bool) → keep_where {A = A} mask [] ≡ []
  keep_where-nil [] = refl
  keep_where-nil (b ∷ mask) = refl

  pub keep_where-none : (q : ℕ) (xs : List A) → keep_where (replicate q false) xs ≡ []
  keep_where-none zero xs = refl
  keep_where-none (suc q) [] = refl
  keep_where-none (suc q) (x ∷ xs) = keep_where-none q xs

  pub map-keep_where {κ} :
      {B : Type κ} (f : A → B) (mask : List Bool) (xs : List A)
      → map f (keep_where mask xs) ≡ keep_where mask (map f xs)
  map-keep_where f [] xs = refl
  map-keep_where f (b ∷ mask) [] = refl
  map-keep_where f (true ∷ mask) (x ∷ xs) = ap (◌∷◌ (f x)) (map-keep_where f mask xs)
  map-keep_where f (false ∷ mask) (x ∷ xs) = map-keep_where f mask xs
