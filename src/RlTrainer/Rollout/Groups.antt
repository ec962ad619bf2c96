-- ===== src/RlTrainer/Rollout/Groups.antt =====
-- lumenrl/trainer/rl_trainer.py, `_collect_rollout_batch`: the samples of a round by prompt; those
-- of a prompt stand together, and are kept or dropped together.
use lumen_rl.Base.{
  ℕ, zero, suc, ◌+◌, ◌-◌, ◌*◌, ◌≤◌, ◌≡◌, refl, sym, ap, ap₂, ◌∙◌, Bool, false, List, [], ◌∷◌, ◌++◌,
  append_assoc, append-nil, map, if◌then◌else◌, ◌==◌, length, length-drop, take, drop, replicate,
  String, str_eq, eq_iff, some, none, dict_get, dict_set, arith, All,
}
use lumen_rl.Packing.{count_true}
use lumen_rl.Dapo.{appended, group_by, kept_from}
use lumen_rl.Dapo.Groups.{values_of, chosen}
use lumen_rl.RlTrainer.Rollout.{expand}

module _ {A : Type 0} where
  -- `n` groups of `g`.
  abbrev pub groups : ℕ → ℕ → List A → List (List A)
  groups zero g xs = []
  groups (suc n) g xs = take g xs ∷ groups n g (drop g xs)

-- The prompts are different.
abbrev pub Distinct : List String → Type 0
Distinct [] = Unit
Distinct (k ∷ ks) = All (λ j. str_eq k j ≡ false) ks × Distinct ks

str_eq_sym : (k j : String) → str_eq k j ≡ false → str_eq j k ≡ false
str_eq_sym k j h = ground (arith, eq_iff k j, eq_iff j k)

pub first_group : (g n m : ℕ) → m ≡ suc n * g → g ≤ m
first_group g n m e = omega arith

pub later_groups : (g n m : ℕ) → m ≡ suc n * g → m - g ≡ n * g
later_groups g n m e = omega arith

module _ {V : Type 0} where
  values_of-same :
      (g : ℕ) (k : String) (us : List String) (vs : List V)
      → g ≤ length vs
      → values_of k (replicate g k ++ us) vs ≡ take g vs ++ values_of k us (drop g vs)
  values_of-same zero k us [] h = refl
  values_of-same zero k us (v ∷ vs) h = refl
  values_of-same (suc g) k us [] h = absurd (omega arith)
  values_of-same (suc g) k us (v ∷ vs) h =
      rw ((eq_iff k k).1 refl) (ap (◌∷◌ v) (values_of-same g k us vs (omega arith)))

  values_of-other :
      (g : ℕ) (k j : String) (us : List String) (vs : List V)
      → str_eq j k ≡ false
      → g ≤ length vs
      → values_of k (replicate g j ++ us) vs ≡ values_of k us (drop g vs)
  values_of-other zero k j us [] e h = refl
  values_of-other zero k j us (v ∷ vs) e h = refl
  values_of-other (suc g) k j us [] e h = absurd (omega arith)
  values_of-other (suc g) k j us (v ∷ vs) e h = rw e (values_of-other g k j us vs e (omega arith))

  values_of_absent :
      (g : ℕ) (k : String) (ks : List String) (vs : List V)
      → length vs ≡ length ks * g
      → All (λ j. str_eq k j ≡ false) ks
      → values_of k (expand g ks) vs ≡ []
  unfolding expand
  values_of_absent g k [] vs l a = refl
  values_of_absent g k (j ∷ ks) vs l (e, a) =
      values_of-other g k j (expand g ks) vs (str_eq_sym k j e)
        (first_group g (length ks) (length vs) l)
      ∙ values_of_absent g k ks (drop g vs)
          (length-drop g vs ∙ later_groups g (length ks) (length vs) l) a

  -- The filter's mask, prompt by prompt.
  pub values_of-groups :
      (g : ℕ) (spread : List V → Bool) (ks : List String) (vs : List V)
      → length vs ≡ length ks * g
      → Distinct ks
      → map (λ k. chosen spread (values_of k (expand g ks) vs)) ks
        ≡ map (chosen spread) (groups (length ks) g vs)
  unfolding expand
  values_of-groups g spread [] vs l d = refl
  values_of-groups g spread (k ∷ ks) vs l (a, d) =
      let rest = length-drop g vs ∙ later_groups g (length ks) (length vs) l in
      let first = first_group g (length ks) (length vs) l in
      ap₂ (λ c cs. chosen spread c ∷ cs)
        (values_of-same g k (expand g ks) vs first
          ∙ ap (◌++◌ (take g vs)) (values_of_absent g k ks (drop g vs) rest a)
          ∙ append-nil (take g vs))
        (others ks a ∙ values_of-groups g spread ks (drop g vs) rest d)
    where
      others :
          (js : List String)
          → All (λ j. str_eq k j ≡ false) js
          → map (λ j. chosen spread (values_of j (expand g (k ∷ ks)) vs)) js
            ≡ map (λ j. chosen spread (values_of j (expand g ks) (drop g vs))) js
      others [] a = refl
      others (j ∷ js) (e, a) =
          ap₂ ◌∷◌
            (ap (chosen spread)
              (values_of-other g j k (expand g ks) vs e (first_group g (length ks) (length vs) l)))
            (others js a)

module _ {V : Type 0} where
  abbrev Absent : String → List (String × List V) → Type 0
  Absent k d = All (λ e. str_eq e.0 k ≡ false) d

  abbrev pub zipped : List String → List (List V) → List (String × List V)
  zipped (k ∷ ks) (vs ∷ gs) = (k, vs) ∷ zipped ks gs
  zipped _ _ = []

  dict_set-Absent :
      (k : String) (v : List V) (d : List (String × List V))
      → Absent k d
      → dict_set k v d ≡ d ++ (k, v) ∷ []
  unfolding dict_set
  dict_set-Absent k v [] a = refl
  dict_set-Absent k v ((j, w) ∷ d) (e, a) = rw e (ap (◌∷◌ (j, w)) (dict_set-Absent k v d a))

  dict_set-last :
      (k : String) (v w : List V) (d : List (String × List V))
      → Absent k d
      → dict_set k v (d ++ (k, w) ∷ []) ≡ d ++ (k, v) ∷ []
  unfolding dict_set
  dict_set-last k v w [] a = rw ((eq_iff k k).1 refl) refl
  dict_set-last k v w ((j, x) ∷ d) (e, a) = rw e (ap (◌∷◌ (j, x)) (dict_set-last k v w d a))

  dict_get-Absent : (k : String) (d : List (String × List V)) → Absent k d → dict_get k d ≡ none
  unfolding dict_get
  dict_get-Absent k [] a = refl
  dict_get-Absent k ((j, x) ∷ d) (e, a) = rw e (dict_get-Absent k d a)

  dict_get-last :
      (k : String) (w : List V) (d : List (String × List V))
      → Absent k d
      → dict_get k (d ++ (k, w) ∷ []) ≡ some w
  unfolding dict_get
  dict_get-last k w [] a = rw ((eq_iff k k).1 refl) refl
  dict_get-last k w ((j, x) ∷ d) (e, a) = rw e (dict_get-last k w d a)

  module _ (us : List String) (k : String) where
    group_by-more :
        (m : ℕ) (vs : List V) (d : List (String × List V)) (w : List V)
        → m ≤ length vs
        → Absent k d
        → group_by (replicate m k ++ us) vs (d ++ (k, w) ∷ [])
          ≡ group_by us (drop m vs) (d ++ (k, w ++ take m vs) ∷ [])
    unfolding group_by appended
    group_by-more zero [] d w h a = ap (λ x. group_by us [] (d ++ (k, x) ∷ [])) (sym (append-nil w))
    group_by-more zero (v ∷ vs) d w h a =
        ap (λ x. group_by us (v ∷ vs) (d ++ (k, x) ∷ [])) (sym (append-nil w))
    group_by-more (suc m) [] d w h a = absurd (omega arith)
    group_by-more (suc m) (v ∷ vs) d w h a =
        ap (λ o. group_by (replicate m k ++ us) vs (dict_set k (appended o v) (d ++ (k, w) ∷ [])))
          (dict_get-last k w d a)
        ∙ ap (group_by (replicate m k ++ us) vs) (dict_set-last k (w ++ v ∷ []) w d a)
        ∙ group_by-more m vs d (w ++ v ∷ []) (omega arith) a
        ∙ ap (λ x. group_by us (drop m vs) (d ++ (k, x) ∷ [])) (append_assoc w (v ∷ []) (take m vs))

    group_by-block :
        (m : ℕ) (vs : List V) (d : List (String × List V))
        → suc m ≤ length vs
        → Absent k d
        → group_by (replicate (suc m) k ++ us) vs d
          ≡ group_by us (drop (suc m) vs) (d ++ (k, take (suc m) vs) ∷ [])
    unfolding group_by appended
    group_by-block m [] d h a = absurd (omega arith)
    group_by-block m (v ∷ vs) d h a =
        ap (λ o. group_by (replicate m k ++ us) vs (dict_set k (appended o v) d))
          (dict_get-Absent k d a)
        ∙ ap (group_by (replicate m k ++ us) vs) (dict_set-Absent k (v ∷ []) d a)
        ∙ group_by-more m vs d (v ∷ []) (omega arith) a

  abbrev pub AllAbsent : List String → List (String × List V) → Type 0
  AllAbsent ks d = All (λ k. Absent k d) ks

  -- `uid2vals` after the loop: a group for each prompt, in order.
  pub group_by-groups :
      (m : ℕ) (ks : List String) (vs : List V) (d : List (String × List V))
      → length vs ≡ length ks * suc m
      → Distinct ks
      → AllAbsent ks d
      → group_by (expand (suc m) ks) vs d ≡ d ++ zipped ks (groups (length ks) (suc m) vs)
  unfolding expand group_by
  group_by-groups m [] vs d l u a = sym (append-nil d)
  group_by-groups m (k ∷ ks) vs d l (u, us) (a, as') =
      group_by-block (expand (suc m) ks) k m vs d (first_group (suc m) (length ks) (length vs) l) a
      ∙ group_by-groups m ks (drop (suc m) vs) (d ++ (k, take (suc m) vs) ∷ [])
          (length-drop (suc m) vs ∙ later_groups (suc m) (length ks) (length vs) l) us
          (still_absent ks u as')
      ∙ append_assoc d ((k, take (suc m) vs) ∷ []) _
    where
      absent_last :
          (j : String) (d : List (String × List V))
          → str_eq k j ≡ false
          → Absent j d
          → Absent j (d ++ (k, take (suc m) vs) ∷ [])
      absent_last j [] e a = (e, tt)
      absent_last j (x ∷ d) e (h, a) = (h, absent_last j d e a)

      still_absent :
          (js : List String)
          → All (λ j. str_eq k j ≡ false) js
          → AllAbsent js d
          → AllAbsent js (d ++ (k, take (suc m) vs) ∷ [])
      still_absent [] u a = tt
      still_absent (j ∷ js) (e, u) (h, a) = (absent_last j d e h, still_absent js u a)

  module _ (spread : List V → Bool) where
    length-kept_step :
        (k : String) (v : V) (vs : List V) (rest : List String) (n : ℕ)
        → length rest ≡ n
        → length
            (if length (v ∷ vs) == 1 then k ∷ rest else if spread (v ∷ vs) then k ∷ rest else rest)
          ≡ (if chosen spread (v ∷ vs) then 1 else 0) + n
    length-kept_step k v vs rest n e = ground arith

    pub length-kept_from :
        (m : ℕ) (ks : List String) (vs : List V)
        → length vs ≡ length ks * suc m
        → length (kept_from spread (zipped ks (groups (length ks) (suc m) vs)))
          ≡ count_true (map (chosen spread) (groups (length ks) (suc m) vs))
    unfolding kept_from count_true
    length-kept_from m [] vs l = refl
    length-kept_from m (k ∷ ks) [] l = absurd (omega arith)
    length-kept_from m (k ∷ ks) (v ∷ vs) l = length-kept_step k v (take m vs) _ _ (
        length-kept_from m ks (drop m vs)
          (omega (arith, length-drop m vs, later_groups (suc m) (length ks) (suc (length vs)) l)))
