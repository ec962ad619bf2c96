-- ===== src/Dapo.antt =====
-- lumenrl/algorithms/dapo_sampling.py: the groups of samples that dynamic sampling keeps
-- (filter_groups_keep_mask). Prompt ids are texts. The test that a group's standard deviation is
-- above the threshold is a parameter, `spread`. The overlong penalty is floating-point arithmetic
-- and is left out.
pub mod Groups
use lumen_rl.Base.{
  ℕ, Bool, true, false, ◌||◌, List, [], ◌∷◌, ◌++◌, map, if◌then◌else◌, ◌==◌, length, Option, some,
  none, String, str_eq, dict_get, dict_set, Result, ok, err, ◌>>=◌, ◌>>◌, guard, value_error,
}

module _ {V : Type 0} where
  -- `uid2vals[u].append(v)`, where a missing key starts with the empty list.
  unfoldable pub appended : Option (List V) → V → List V
  appended none v = v ∷ []
  appended (some vs) v = vs ++ v ∷ []

  -- The loop that fills `uid2vals`, over the pairs of ids and values.
  unfoldable pub group_by : List String → List V → List (String × List V) → List (String × List V)
  unfolding appended
  group_by (u ∷ us) (v ∷ vs) d = group_by us vs (dict_set u (appended (dict_get u d) v) d)
  group_by _ _ d = d

  module _ (spread : List V → Bool) where
    -- The loop over the groups.
    unfoldable pub kept_from : List (String × List V) → List String
    kept_from [] = []
    kept_from ((u, vs) ∷ d) =
        let rest = kept_from d in
        if length vs == 1 then u ∷ rest else if spread vs then u ∷ rest else rest

-- `u in kept_set`.
unfoldable pub is_in : String → List String → Bool
is_in u [] = false
is_in u (k ∷ ks) = str_eq k u || is_in u ks

module _ {V : Type 0} (spread : List V → Bool) where
  -- `filter_groups_keep_mask`.
  unfoldable pub filter_groups_keep_mask : List V → List String → Result (List Bool × List String)
  unfolding group_by kept_from is_in
  filter_groups_keep_mask vals uids = do
    guard (length uids == length vals) value_error
    let kept_uids = kept_from spread (group_by uids vals [])
    ok (map (λ u. is_in u kept_uids) uids, kept_uids)
