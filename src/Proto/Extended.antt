-- ===== src/Proto/Extended.antt =====
-- lumenrl/core/protocol.py, `concat`: a batch followed by rows that were taken from it.
use mathlib.Core.Option
use lumen_rl.Base.{
  ℕ, ◌+◌, ◌≡◌, refl, sym, subst, ap, ap₂, ◌∙◌, Bool, true, List, [], ◌∷◌, ◌++◌, append-nil, map,
  length, length-append, range, gather, gather-prefix, dict_get, dict_get-All, dict_keys,
  traverse_keys-ok, String, Option, some, none, ok, ok-inj, ◌>>=◌, Bool-cases, inl, inr,
  if◌then◌else◌, arith, All,
}
use lumen_rl.Base.Int.{pos}
use lumen_rl.Torch.{Torch, Laws}
use lumen_rl.Proto.{DataProto, HasRows}
use lumen_rl.Proto.Merge.{
  key_in, concat_chunks, concat_column, ragged_concat, ragged_keys, ragged_column,
}
use lumen_rl.Proto.View.{key_of_get, All-keys, column, SameRows, get_of_key, get_of_no_key}
use lumen_rl.Proto.Join.{all_rows, rows_or_nil, concat_column-Joins}
use lumen_rl.Proto.Joined.{Uniform, concat_chunks-Joined}
use lumen_rl.Proto.NonEmpty.{all_ragged, all_or_nil, get-ragged_concat, ragged_keys-same}
use lumen_rl.Proto.Taken.{rows-indexed, Taken}

-- The batch `r` has the rows of `p` first in every column, and `m` rows in all.
pub record Extends {T : Torch} {V : Type 0} (p : DataProto T V) (m : ℕ) (r : DataProto T V)
    : Type 0 where
  pub keys : dict_keys r.tensors ≡ dict_keys p.tensors
  pub same_ragged_keys : dict_keys r.ragged ≡ dict_keys p.ragged
  pub same_meta : r.meta ≡ p.meta
  pub columns :
      (k : String) (t : T.Tensor)
      → dict_get k p.tensors ≡ some t
      → (u : T.Tensor) × (zs : List T.Row) × (dict_get k r.tensors ≡ some u)
        × (T.rows u ≡ T.rows t ++ zs)
  pub ragged_columns :
      (k : String) (v : List V)
      → dict_get k p.ragged ≡ some v
      → (zs : List V) × (dict_get k r.ragged ≡ some (v ++ zs))
  pub rows : HasRows m r

image_of_some :
    {A B : Type 0} (f : A → B) (o : Option A) (y : B)
    → Option.map f o ≡ some y
    → (x : A) × (o ≡ some x) × (f x ≡ y)
image_of_some f none y e = absurd (cc)
image_of_some f (some x) y e = (x, refl, cc)

module _ {T : Torch} {V : Type 0} (L : Laws T) (p : DataProto T V) (n m : ℕ) (whole : HasRows n p)
    (q : DataProto T V) (is : List ℕ) (taken : Taken p is q) (count : length is ≡ m) where
  abbrev both : List (DataProto T V)
  both = p ∷ q ∷ []

  both-Uniform : Uniform p (q ∷ [])
  both-Uniform k has =
      let (t, found) = get_of_key k p.tensors has in
      let (u, found_u, made) = taken.columns k t found in
      (T.tail_shape t, ((t, found, refl), ((u, found_u, L.tail-index t u (map pos is) made), tt)))

  all_rows-both :
      (k : String) (t : T.Tensor)
      → dict_get k p.tensors ≡ some t
      → (zs : List T.Row) × (all_rows k both ≡ T.rows t ++ zs) × (length zs ≡ m)
  unfolding all_rows rows_or_nil
  all_rows-both k t found =
      let (u, found_u, made) = taken.columns k t found in
      (
        T.rows u,
        rw (found, found_u) (ap (◌++◌ (T.rows t)) (append-nil (T.rows u))),
        dict_get-All (λ w. length (T.rows w) ≡ length is) k u q.tensors taken.rows.tensors_rows
              found_u
            ∙ count,
      )

  all_ragged-both :
      (k : String) (v : List V)
      → dict_get k p.ragged ≡ some v
      → (zs : List V) × (all_ragged k both ≡ v ++ zs) × (length zs ≡ m)
  unfolding rows_or_nil
  all_ragged-both k v found =
      let (w, found_w, made) = taken.ragged_columns k v found in
      (
        w,
        rw (found, found_w) (ap (◌++◌ v) (append-nil w)),
        dict_get-All (λ x. length x ≡ length is) k w q.ragged taken.rows.ragged_rows found_w
            ∙ count,
      )

  column-both :
      (k : String)
      → key_in k (dict_keys p.tensors) ≡ true
      → (u : T.Tensor) × (concat_column both k ≡ ok u) × (length (T.rows u) ≡ n + m)
  column-both k has =
      let (t, found) = get_of_key k p.tensors has in
      let (s, agrees) = both-Uniform k has in
      let (u, made, rows) = concat_column-Joins L s k p (q ∷ []) agrees in
      let (zs, joined, l) = all_rows-both k t found in
      (
        u,
        made,
        omega (
          arith,
          ap length (rows ∙ joined),
          length-append (T.rows t) zs,
          l,
          dict_get-All (λ w. length (T.rows w) ≡ n) k t p.tensors whole.tensors_rows found,
        ),
      )

  ragged_keys-both : ragged_keys both ≡ dict_keys p.ragged
  ragged_keys-both =
      ragged_keys-same (dict_keys p.ragged) p (q ∷ []) (refl, (taken.same_ragged_keys, tt))

  get-ragged_both :
      (k : String)
      → key_in k (dict_keys p.ragged) ≡ true
      → dict_get k (ragged_concat both) ≡ some (all_ragged k both)
  get-ragged_both k has =
      get-ragged_concat k both
      ∙ ap (λ (b : Bool). if b then some (all_ragged k both) else none)
          (ap (key_in k) ragged_keys-both ∙ has)

  ragged_both-rows :
      (ks : List String)
      → All (λ k. key_in k (dict_keys p.ragged) ≡ true) ks
      → All (λ (c : String × List V). length c.1 ≡ n + m) (map (ragged_column both) ks)
  unfolding ragged_column
  ragged_both-rows [] h = tt
  ragged_both-rows (k ∷ ks) (has, h) =
      let (v, found) = get_of_key k p.ragged has in
      let (zs, joined, l) = all_ragged-both k v found in
      (
        omega (
          arith,
          ap length (all_or_nil k both ∙ joined),
          length-append v zs,
          l,
          dict_get-All (λ x. length x ≡ n) k v p.ragged whole.ragged_rows found,
        ),
        ragged_both-rows ks h,
      )

  listed_keys : (ks : List String) → dict_keys (map (ragged_column both) ks) ≡ ks
  unfolding ragged_column dict_keys
  listed_keys [] = refl
  listed_keys (k ∷ ks) = ap (◌∷◌ k) (listed_keys ks)

  -- The two parts, joined.
  pub chunks-Extends :
      (r : DataProto T V) × (concat_chunks p.meta both ≡ ok r) × Extends p (n + m) r
  unfolding concat_chunks ragged_concat
  chunks-Extends =
      let (e, made, keys, sized) =
        traverse_keys-ok (concat_column both) (λ u. length (T.rows u) ≡ n + m) (dict_keys p.tensors)
          (All-keys
            (λ k. (u : T.Tensor) × (concat_column both k ≡ ok u) × (length (T.rows u) ≡ n + m))
            (dict_keys p.tensors) column-both) in
      let r : DataProto T V = record { tensors = e; meta = p.meta; ragged = ragged_concat both } in
      let done : concat_chunks p.meta both ≡ ok r =
        ap
          (λ o.
            o >>= λ ts. ok (record { tensors = ts; meta = p.meta; ragged = ragged_concat both }))
          made in
      let (r', done', joined) = concat_chunks-Joined L p (q ∷ []) both-Uniform p.meta in
      let same : r' ≡ r = ok-inj r' r (sym done' ∙ done) in
      (
        r,
        done,
        record {
          keys = keys;
          same_ragged_keys = listed_keys (ragged_keys both) ∙ ragged_keys-both;
          same_meta = refl;
          columns = λ k t found.
              let (zs, rows, _) = all_rows-both k t found in
              let has = key_of_get k p.tensors t found in
              let col : column r k ≡ some (all_rows k both) =
                ap (λ x. column x k) (sym same)
                ∙ joined.joined_columns k
                ∙ ap (λ (b : Bool). if b then some (all_rows k both) else none) has in
              let (u, found_u, f) = image_of_some T.rows (dict_get k e) (all_rows k both) col in
              (u, zs, found_u, f ∙ rows);
          ragged_columns = λ k v found.
              let (zs, rows, _) = all_ragged-both k v found in
              (zs, get-ragged_both k (key_of_get k p.ragged v found) ∙ ap some rows);
          rows = record {
            tensors_rows = sized;
            ragged_rows = ragged_both-rows (ragged_keys both) (
                subst (λ ks. All (λ k. key_in k (dict_keys p.ragged) ≡ true) ks)
                  (sym ragged_keys-both)
                  (All-keys (λ k. key_in k (dict_keys p.ragged) ≡ true) (dict_keys p.ragged)
                    (λ k h. h)));
          };
        },
      )

module _ {T : Torch} {V : Type 0} where
  -- The first rows of a batch that extends another, where the other is not empty.
  pub Extends-SameRows :
      (p r s : DataProto T V) (n m : ℕ)
      → Laws T
      → HasRows n p
      → Extends p m r
      → Taken r (range n) s
      → SameRows s p
  Extends-SameRows p r s n m L whole e t = record {
    same_columns = λ k. elim (Bool-cases (key_in k (dict_keys p.tensors))) [
      | inl has ↦
          let (x, found) = get_of_key k p.tensors has in
          let (u, zs, found_u, rows) = e.columns k x found in
          let (w, found_w, made) = t.columns k u found_u in
          let l =
            dict_get-All (λ y. length (T.rows y) ≡ n) k x p.tensors whole.tensors_rows found in
          let same : T.rows w ≡ T.rows x = ok-inj _ _ (
            sym (rows-indexed L u w (range n) made)
            ∙ ap₂ (λ ys i. gather ys (map pos (range i))) rows (sym l)
            ∙ gather-prefix (T.rows x) zs) in
          ap (Option.map T.rows) found_w ∙ ap some same ∙ sym (ap (Option.map T.rows) found)
      | inr lacks ↦ ap (Option.map T.rows) (
          get_of_no_key k s.tensors (ap (key_in k) (t.keys ∙ e.keys) ∙ lacks)
          ∙ sym (get_of_no_key k p.tensors lacks))
    ];
    same_ragged = λ k. elim (Bool-cases (key_in k (dict_keys p.ragged))) [
      | inl has ↦
          let (v, found) = get_of_key k p.ragged has in
          let (zs, found_u) = e.ragged_columns k v found in
          let (w, found_w, made) = t.ragged_columns k (v ++ zs) found_u in
          let l = dict_get-All (λ y. length y ≡ n) k v p.ragged whole.ragged_rows found in
          let same : w ≡ v = ok-inj _ _ (
            sym made
            ∙ ap (λ i. gather (v ++ zs) (map pos (range i))) (sym l)
            ∙ gather-prefix v zs) in
          found_w ∙ ap some same ∙ sym found
      | inr lacks ↦
          get_of_no_key k s.ragged (ap (key_in k) (t.same_ragged_keys ∙ e.same_ragged_keys) ∙ lacks)
          ∙ sym (get_of_no_key k p.ragged lacks)
    ];
    same_meta = t.same_meta ∙ e.same_meta;
  }
