-- ===== src/Routing/Replay.antt =====
-- The replayed choice at each packed position.
use lumen_rl.Base.{ℕ, ◌≡◌, List, [], ◌∷◌, ◌++◌, map, length, drop, Option, none, some, All}
use lumen_rl.Routing.{RouteArray, Routing, at_layer, first_row, other_rows}
use lumen_rl.Routing.Choices.{IsChoice}
use lumen_rl.Routing.Blocks.{taken}

-- The training pass has chosen for every token of every sequence.
abbrev pub OwnChoices : List ℕ → List (List (List ℕ)) → Type 0
OwnChoices [] [] = Unit
OwnChoices (sl ∷ lens) (own ∷ owns) = (length own ≡ sl) × OwnChoices lens owns
OwnChoices _ _ = ⊥

-- For each sequence the rollout's choices in a layer, as far as there are any before its last token,
-- then the training pass's own.
abbrev pub replayed : ℕ → List (Option RouteArray) → List ℕ → List (List (List ℕ)) → List (List ℕ)
replayed layer rows [] owns = []
replayed layer rows (sl ∷ lens) [] = []
replayed layer rows (sl ∷ lens) (own ∷ owns) =
    (map (at_layer layer) (taken (first_row rows) sl)
      ++ drop (length (taken (first_row rows) sl)) own)
    ++ replayed layer (other_rows rows) lens owns

-- The rollout's choices in a layer name as many experts as the model chooses, all of which there are.
abbrev pub HasChoices : ℕ → ℕ → ℕ → Option RouteArray → Type 0
HasChoices layer top_k experts none = Unit
HasChoices layer top_k experts (some r) =
    All (λ e. IsChoice top_k experts (at_layer layer e)) r.entries
