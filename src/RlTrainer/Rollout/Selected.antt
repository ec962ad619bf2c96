-- ===== src/RlTrainer/Rollout/Selected.antt =====
-- lumenrl/trainer/rl_trainer.py: the rows of a column that a round adds.
use lumen_rl.Base.{
  map-keep_where, ℕ, zero, suc, ◌+◌, ◌≡◌, refl, sym, ap, ◌∙◌, Bool, true, false, List, [], ◌∷◌,
  ◌++◌, append-nil, flat_map-append, leb, Bool-cases, inl, inr, append_assoc, drop, replicate, ◌-◌,
  length, flat_map, sum_by, dict_get, dict_set, length-map, String, Option, some, none, ok, ◌>>=◌,
  arith, All, keep_where,
}
use lumen_rl.RlTrainer.Response.{real_positions}
use lumen_rl.RlTrainer.Rollout.{Grid, lpad, pick_rows}
use lumen_rl.RlTrainer.Rollout.Sampling.{cat_rows, lpad_all, rows_or_nil, extend_ragged, append_lp}
use lumen_rl.RlTrainer.Rollout.Groups.{groups}
use lumen_rl.RlTrainer.Rollout.Columns.{pick-kept}

pub flat_map-snoc :
    {S X : Type 0} (f : S → List X) (ss : List S) (s : S)
    → flat_map f (ss ++ s ∷ []) ≡ flat_map f ss ++ f s
flat_map-snoc f ss s =
    flat_map-append f ss (s ∷ []) ∙ ap (λ x. flat_map f ss ++ x) (append-nil (f s))

pub sum_by-snoc :
    {S : Type 0} (f : S → ℕ) (ss : List S) (s : S) → sum_by f (ss ++ s ∷ []) ≡ sum_by f ss + f s
sum_by-snoc f [] s = omega arith
sum_by-snoc f (t ∷ ss) s = omega (arith, sum_by-snoc f ss s)

-- Padding keeps the rows apart.
pub lpad-kept :
    {V : Type 0} (width : ℕ) (v : V) (t : Grid V) (mask : List Bool)
    → (lpad width v (record { width = t.width; rows = keep_where mask t.rows })).rows
      ≡ keep_where mask (lpad width v t).rows
unfolding lpad
lpad-kept width v t mask = elim (Bool-cases (leb width t.width)) [
  | inl wide ↦ rw wide (map-keep_where (drop (t.width - width)) mask t.rows)
  | inr narrow ↦
      rw narrow (map-keep_where (λ row. replicate (width - t.width) v ++ row) mask t.rows)
]

pub length-lpad :
    {V : Type 0} (width : ℕ) (v : V) (t : Grid V) → length (lpad width v t).rows ≡ length t.rows
unfolding lpad
length-lpad width v t = elim (Bool-cases (leb width t.width)) [
  | inl wide ↦ rw wide (length-map t.rows (drop (t.width - width)))
  | inr narrow ↦ rw narrow (length-map t.rows (λ row. replicate (width - t.width) v ++ row))
]

pub lpad_all-snoc :
    {V : Type 0} (width : ℕ) (v : V) (ts : List (Grid V)) (t : Grid V)
    → (lpad_all width v (ts ++ t ∷ [])).rows ≡ (lpad_all width v ts).rows ++ (lpad width v t).rows
unfolding lpad_all cat_rows
lpad_all-snoc width v [] t = append-nil (lpad width v t).rows
lpad_all-snoc width v (u ∷ ts) t =
    ap (λ rows. (lpad width v u).rows ++ rows) (lpad_all-snoc width v ts t)
    ∙ sym (append_assoc (lpad width v u).rows (lpad_all width v ts).rows (lpad width v t).rows)

pub pick_rows-kept :
    {V : Type 0} (t : Grid V) (mask : List Bool)
    → length mask ≡ length t.rows
    → pick_rows t (real_positions 0 mask)
      ≡ ok (record { width = t.width; rows = keep_where mask t.rows })
unfolding pick_rows
pick_rows-kept t mask l =
    ap (λ r. r >>= λ rows. ok (record { width = t.width; rows = rows })) (pick-kept t.rows mask l)

pub extend_ragged-ok :
    {R : Type 0} (mask : List Bool) (rag acc : List (String × List R))
    → All (λ e. length mask ≡ length e.1) rag
    → (acc' : List (String × List R)) × (extend_ragged (real_positions 0 mask) rag acc ≡ ok acc')
unfolding extend_ragged
extend_ragged-ok mask [] acc a = (acc, refl)
extend_ragged-ok mask ((k, rows) ∷ rag) acc (l, a) =
    let (acc', e) =
      extend_ragged-ok mask rag
        (dict_set k (rows_or_nil (dict_get k acc) ++ keep_where mask rows) acc) a in
    (
      acc',
      ap
            (λ r. r >>= λ kept.
              extend_ragged (real_positions 0 mask) rag
                (dict_set k (rows_or_nil (dict_get k acc) ++ kept) acc))
            (pick-kept rows mask l)
          ∙ e,
    )

-- A column of log probabilities has a row for each sample, where there is one.
abbrev pub IsLpSized : {F : Type 0} → ℕ → Option (Grid F) → Type 0
IsLpSized n none = Unit
IsLpSized n (some t) = length t.rows ≡ n

pub append_lp-ok :
    {F : Type 0} (want : Bool) (mask : List Bool) (lp : Option (Grid F)) (acc : List (Grid F))
    → IsLpSized (length mask) lp
    → (acc' : List (Grid F)) × (append_lp want (real_positions 0 mask) lp acc ≡ ok acc')
unfolding append_lp
append_lp-ok false mask lp acc h = (acc, refl)
append_lp-ok true mask none acc h = (acc, refl)
append_lp-ok true mask (some t) acc h =
    (_, ap (λ r. r >>= λ kept. ok (acc ++ kept ∷ [])) (pick_rows-kept t mask (sym h)))

pub length-groups : {X : Type 0} (n g : ℕ) (xs : List X) → length (groups n g xs) ≡ n
length-groups zero g xs = refl
length-groups (suc n) g xs = ap suc (length-groups n g (drop g xs))
