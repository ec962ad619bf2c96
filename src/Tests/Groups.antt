-- ===== src/Tests/Groups.antt =====
-- Three prompts: one with equal values, one with different values and one with a single sample.
use lumen_rl.Base.{
  ℕ, ◌≡◌, refl, List, [], ◌∷◌, Bool, true, false, ◌==◌, if◌then◌else◌, ok, String, map, dict_get,
  dict_set,
}
use lumen_rl.Dapo.{filter_groups_keep_mask, group_by, kept_from, is_in, appended}
use lumen_rl.Dapo.Groups.{chosen, values_of, filter_groups_keep_mask-chosen}

-- Whether the values differ at all.
abbrev differ : List ℕ → Bool
differ [] = false
differ (v ∷ []) = false
differ (v ∷ w ∷ vs) = if v == w then differ (w ∷ vs) else true

abbrev prompts : List String
prompts = "a" ∷ "b" ∷ "a" ∷ "c" ∷ "b" ∷ []

abbrev rewards : List ℕ
rewards = 1 ∷ 0 ∷ 1 ∷ 1 ∷ 1 ∷ []

filter_groups_keep_mask-run :
    filter_groups_keep_mask differ rewards prompts
    ≡ ok (false ∷ true ∷ false ∷ true ∷ true ∷ [], "b" ∷ "c" ∷ [])
unfolding filter_groups_keep_mask group_by kept_from is_in appended dict_get dict_set
filter_groups_keep_mask-run = refl

filter_groups_keep_mask-chosen_example :
    (kept : List String) × (filter_groups_keep_mask differ rewards prompts
      ≡ ok (map (λ k. chosen differ (values_of k prompts rewards)) prompts, kept))
    × (is_in "c" kept ≡ chosen differ (values_of "c" prompts rewards))
filter_groups_keep_mask-chosen_example =
    filter_groups_keep_mask-chosen differ rewards prompts "c" refl
