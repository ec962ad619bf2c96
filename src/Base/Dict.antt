-- ===== src/Base/Dict.antt =====
-- Python dictionaries with string keys, as association lists in insertion order.
use Prim.Native.String.{String}
use mathlib.Core.Path.{◌≡◌, refl, ap, ap₂, sym, subst, ◌∙◌}
use mathlib.Core.Logic.{inl, inr}
use mathlib.Core.Bool.{Bool, false, ◌||◌}
use mathlib.Core.Option
use mathlib.Core.Option.{Option, none, some}
use mathlib.Core.List.{List, [], ◌∷◌}
use native.Mathlib.Omega.{arith}
use text.Mathlib.Text.{◌==◌ as str_eq}
use text.Mathlib.TextEquality.{eq_iff}
use lumen_rl.Base.Tests.{if◌then◌else◌, Bool-cases}
use lumen_rl.Base.Results.{Result, ok, ◌>>=◌}
use lumen_rl.Base.Slices.{All}

module _ {ℓ} {V : Type ℓ} where
  -- `d.get(k)`.
  unfoldable pub dict_get : String → List (String × V) → Option V
  dict_get k [] = none
  dict_get k ((j, v) ∷ d) = if str_eq j k then some v else dict_get k d

  -- `k in d`.
  unfoldable pub dict_has : String → List (String × V) → Bool
  dict_has k [] = false
  dict_has k ((j, v) ∷ d) = str_eq j k || dict_has k d

  -- `d[k] = v`: a new key goes to the end, an old one keeps its place.
  unfoldable pub dict_set : String → V → List (String × V) → List (String × V)
  dict_set k v [] = (k, v) ∷ []
  dict_set k v ((j, w) ∷ d) = if str_eq j k then (j, v) ∷ d else (j, w) ∷ dict_set k v d

  -- `d.update(e)`.
  unfoldable pub dict_update : List (String × V) → List (String × V) → List (String × V)
  dict_update d [] = d
  dict_update d ((k, v) ∷ e) = dict_update (dict_set k v d) e

  unfoldable pub dict_keys : List (String × V) → List String
  dict_keys [] = []
  dict_keys ((k, v) ∷ d) = k ∷ dict_keys d

  pub dict_get-set :
      (k j : String) (v : V) (d : List (String × V))
      → dict_get j (dict_set k v d) ≡ (if str_eq k j then some v else dict_get j d)
  unfolding dict_get dict_set
  dict_get-set k j v [] = refl
  dict_get-set k j v ((i, w) ∷ d) =
      ground (arith, eq_iff k j, eq_iff i k, eq_iff i j, dict_get-set k j v d)

  pub dict_has_iff :
      (k : String) (d : List (String × V)) → dict_has k d ≡ false → dict_get k d ≡ none
  unfolding dict_has dict_get
  dict_has_iff k [] h = refl
  dict_has_iff k ((j, v) ∷ d) h = ground (arith, dict_has_iff k d)

module _ {ℓ κ} {V : Type ℓ} (P : V → Type κ) where
  -- What holds of all values holds of one that is looked up.
  pub dict_get-All :
      (k : String) (v : V) (d : List (String × V))
      → All (λ (c : String × V). P c.1) d
      → dict_get k d ≡ some v
      → P v
  unfolding dict_get
  dict_get-All k v [] h found = absurd (cc)
  dict_get-All k v ((j, u) ∷ d) (p, h) found = elim (Bool-cases (str_eq j k)) [
    | inl same ↦ let is_first : u ≡ v = (let e = rw same at found in cc) in subst P is_first p
    | inr apart ↦ dict_get-All k v d h (rw apart at found)
  ]

module _ {ℓ κ} {V : Type ℓ} {W : Type κ} where
  -- `{k: f(v) for k, v in d.items()}`.
  unfoldable pub map_values : (V → W) → List (String × V) → List (String × W)
  map_values f [] = []
  map_values f ((k, v) ∷ d) = (k, f v) ∷ map_values f d

  pub dict_get-map_values :
      (f : V → W) (k : String) (d : List (String × V))
      → dict_get k (map_values f d) ≡ Option.map f (dict_get k d)
  unfolding dict_get map_values
  dict_get-map_values f k [] = refl
  dict_get-map_values f k ((j, v) ∷ d) = ground (arith, dict_get-map_values f k d)

  pub dict_keys-map_values :
      (f : V → W) (d : List (String × V)) → dict_keys (map_values f d) ≡ dict_keys d
  unfolding dict_keys map_values
  dict_keys-map_values f [] = refl
  dict_keys-map_values f ((k, v) ∷ d) = ap (◌∷◌ k) (dict_keys-map_values f d)

  -- The same where the body may raise.
  unfoldable pub traverse_values : (V → Result W) → List (String × V) → Result (List (String × W))
  traverse_values f [] = ok []
  traverse_values f ((k, v) ∷ d) = do w ← f v; e ← traverse_values f d; ok ((k, w) ∷ e)

  get-first :
      (f : V → Result W) (j k : String) (u v : V) (x : W) (d : List (String × V))
      → (e : List (String × W)) → f u ≡ ok x
      → (dict_get k d ≡ some v → (w : W) × (dict_get k e ≡ some w) × (f v ≡ ok w))
      → dict_get k ((j, u) ∷ d) ≡ some v
      → (w : W) × (dict_get k ((j, x) ∷ e) ≡ some w) × (f v ≡ ok w)
  unfolding dict_get
  get-first f j k u v x d e made later h = elim (Bool-cases (str_eq j k)) [
    | inl same ↦
        let is_first : u ≡ v = (let e' = rw same at h in cc) in
        (x, rw same refl, ap f (sym is_first) ∙ made)
    | inr apart ↦ rw apart (later (rw apart at h))
  ]

  -- A body that succeeds on all values gives a dictionary with the same keys and what it returns.
  pub traverse_values-ok {μ} :
      (f : V → Result W) (P : W → Type μ) (d : List (String × V))
      → All (λ (c : String × V). (w : W) × (f c.1 ≡ ok w) × P w) d
      → (e : List (String × W)) × (traverse_values f d ≡ ok e)
        × ((k : String) (v : V)
            → dict_get k d ≡ some v
            → (w : W) × (dict_get k e ≡ some w) × (f v ≡ ok w))
        × (dict_keys e ≡ dict_keys d)
        × All (λ (c : String × W). P c.1) e
  unfolding traverse_values dict_get dict_keys
  traverse_values-ok f P [] h = ([], refl, λ k v found. absurd (cc), refl, tt)
  traverse_values-ok f P ((j, u) ∷ d) ((x, h, q), hs) =
      let (e, g, each, keys, all) = traverse_values-ok f P d hs in
      (
        (j, x) ∷ e,
        ap₂ (λ r rest. r >>= λ y. rest >>= λ ys. ok ((j, y) ∷ ys)) h g,
        λ k v found. get-first f j k u v x d e h (each k v) found,
        ap (◌∷◌ j) keys,
        (q, all),
      )

module _ {κ} {W : Type κ} where
  -- Filling in a dictionary key by key.
  unfoldable pub traverse_keys : (String → Result W) → List String → Result (List (String × W))
  traverse_keys f [] = ok []
  traverse_keys f (k ∷ ks) = do w ← f k; e ← traverse_keys f ks; ok ((k, w) ∷ e)

  -- A body that succeeds on all keys gives a dictionary with these keys.
  pub traverse_keys-ok {μ} :
      (f : String → Result W) (P : W → Type μ) (ks : List String)
      → All (λ k. (w : W) × (f k ≡ ok w) × P w) ks
      → (e : List (String × W)) × (traverse_keys f ks ≡ ok e)
        × (dict_keys e ≡ ks)
        × All (λ (c : String × W). P c.1) e
  unfolding traverse_keys dict_keys
  traverse_keys-ok f P [] h = ([], refl, refl, tt)
  traverse_keys-ok f P (k ∷ ks) ((w, h, q), hs) =
      let (e, g, keys, all) = traverse_keys-ok f P ks hs in
      (
        (k, w) ∷ e,
        ap₂ (λ r rest. r >>= λ x. rest >>= λ xs. ok ((k, x) ∷ xs)) h g,
        ap (◌∷◌ k) keys,
        (q, all),
      )
