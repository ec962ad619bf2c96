-- ===== src/Dispatch/Ranks.antt =====
-- Dispatch by data-parallel ranks, collected with one source for each rank.
use lumen_rl.Base.{
  ℕ, zero, suc, ◌<◌, ◌≡◌, refl, sym, ap, ◌∙◌, Bool, true, false, List, [], ◌∷◌, ◌++◌, ◌==◌, some,
  ok, String, length, get_elem?, range, range_from, All, keep_where, arith, append_assoc,
  length-append, subst, ==_iff,
}
use lumen_rl.Torch.{Torch, Laws}
use lumen_rl.Proto.{DataProto, batch_size}
use lumen_rl.Proto.Split.{split}
use lumen_rl.Proto.View.{IsConsistent, SameRows}
use lumen_rl.Proto.RoundTrip.{IsOrder, merge-split}
use lumen_rl.Proto.Sizes.{split-fair}
use lumen_rl.Dispatch.Modes.{route}
use lumen_rl.Dispatch.Collect.{count_distinct, dispatch_with_dp_ranks, collect_with_mask}

module _ {T : Torch} {V : Type 0} (cs : List (DataProto T V)) where
  get_below {ℓ} :
      {A : Type ℓ} (xs : List A) (i : ℕ) → i < length xs → (x : A) × (get_elem? xs i ≡ some x)
  get_below [] i h = absurd (omega arith)
  get_below (x ∷ xs) zero h = (x, refl)
  get_below (x ∷ xs) (suc i) h = get_below xs i (omega arith)

  -- The inputs of the workers are the chunks of their ranks.
  abbrev pub RoutesBy : List ℕ → List (DataProto T V) → Type 0
  RoutesBy ids out = (w i : ℕ) → get_elem? ids w ≡ some i → get_elem? out w ≡ get_elem? cs i

  RoutesBy-cons :
      (i : ℕ) (ids : List ℕ) (c : DataProto T V) (out : List (DataProto T V))
      → get_elem? cs i ≡ some c
      → RoutesBy ids out
      → RoutesBy (i ∷ ids) (c ∷ out)
  RoutesBy-cons i ids c out found routes zero j e = sym found ∙ ap (get_elem? cs) (ground arith)
  RoutesBy-cons i ids c out found routes (suc w) j e = routes w j e

  -- A mask picks the same places among the ranks and among the inputs.
  abbrev KeepsBy : List ℕ → List (DataProto T V) → Type 0
  KeepsBy ids out = (mask : List Bool) → route cs (keep_where mask ids) ≡ ok (keep_where mask out)

  KeepsBy-nil : KeepsBy [] []
  unfolding route
  KeepsBy-nil [] = refl
  KeepsBy-nil (b ∷ mask) = refl

  KeepsBy-cons :
      (i : ℕ) (ids : List ℕ) (c : DataProto T V) (out : List (DataProto T V))
      → get_elem? cs i ≡ some c
      → KeepsBy ids out
      → KeepsBy (i ∷ ids) (c ∷ out)
  unfolding route
  KeepsBy-cons i ids c out found kept [] = refl
  KeepsBy-cons i ids c out found kept (true ∷ mask) = rw (found, kept mask)
  KeepsBy-cons i ids c out found kept (false ∷ mask) = kept mask

  pub route_below :
      (ids : List ℕ)
      → All (λ i. i < length cs) ids
      → (out : List (DataProto T V)) × (route cs ids ≡ ok out)
        × (length out ≡ length ids)
        × RoutesBy ids out
        × KeepsBy ids out
  unfolding route
  route_below [] h = ([], refl, refl, λ w i e. absurd (cc), KeepsBy-nil)
  route_below (i ∷ ids) (hi, h) =
      let (c, found) = get_below cs i hi in
      let (out, routed, long, routes, kept) = route_below ids h in
      (
        c ∷ out,
        rw (found, routed),
        ap suc long,
        RoutesBy-cons i ids c out found routes,
        KeepsBy-cons i ids c out found kept,
      )

module _ {T : Torch} {V : Type 0} where
  get_elem?-append :
      (before after : List (DataProto T V)) (c : DataProto T V)
      → get_elem? (before ++ c ∷ after) (length before) ≡ some c
  get_elem?-append [] after c = refl
  get_elem?-append (x ∷ before) after c = get_elem?-append before after c

  route_rest :
      (before after : List (DataProto T V)) (start : ℕ)
      → start ≡ length before
      → route (before ++ after) (range_from start (length after)) ≡ ok after
  unfolding route
  route_rest before [] start e = refl
  route_rest before (c ∷ after) start e =
      let assoc : (before ++ c ∷ []) ++ after ≡ before ++ c ∷ after =
        append_assoc before (c ∷ []) after in
      rw (e, get_elem?-append before after c)
        (let rest =
            route_rest (before ++ c ∷ []) after (suc (length before))
              (omega (arith, length-append before (c ∷ []))) in
          rw (
            subst (λ l. route l (range_from (suc (length before)) (length after)) ≡ ok after) assoc
              rest))

  -- All places in turn give the list back.
  pub route_all : (cs : List (DataProto T V)) → route cs (range (length cs)) ≡ ok cs
  route_all cs = route_rest [] cs 0 refl

module _ {T : Torch} {V : Type 0} (L : Laws T) (order : List String → List String)
    (is_order : IsOrder order) (p : DataProto T V) (n : ℕ) (ranks : List ℕ) (mask : List Bool) where
  -- Let the tensor laws hold and the key order be one of a set, and let the batch be consistent
  -- and not empty. With one rank and one mask bit for each worker, at least one rank, all ranks
  -- below the number of distinct ranks, and a mask that keeps each rank once and in order,
  -- dispatching by ranks succeeds, workers of the same rank get the same input, and collecting
  -- these inputs with the mask succeeds and gives the batch back.
  pub dp_ranks-collect :
      IsConsistent p
      → 0 < batch_size p
      → length ranks ≡ n
      → length mask ≡ n
      → 0 < count_distinct ranks
      → All (λ r. r < count_distinct ranks) ranks
      → keep_where mask ranks ≡ range (count_distinct ranks)
      → (inputs : List (DataProto T V)) × (dispatch_with_dp_ranks p n ranks ≡ ok inputs)
        × ((v w r : ℕ)
            → get_elem? ranks v ≡ some r
            → get_elem? ranks w ≡ some r
            → get_elem? inputs v ≡ get_elem? inputs w)
        × ((q : DataProto T V) × (collect_with_mask order inputs mask ≡ ok q) × SameRows q p)
  unfolding dispatch_with_dp_ranks collect_with_mask
  dp_ranks-collect whole positive long masked some_ranks below sources =
      let d = count_distinct ranks in
      let (size, _) = split-fair L p d whole some_ranks in
      let (inputs, routed, same_length, routes, kept) =
        route_below (split p d) ranks (rw size below) in
      let picked : ok (keep_where mask inputs) ≡ ok (split p d) =
        (sym (kept mask)
          ∙ ap (route (split p d)) (sources ∙ ap range (sym size))
          ∙ route_all (split p d)) in
      let chosen : keep_where mask inputs ≡ split p d = cc picked in
      let (q, merged, same) = merge-split L p d whole positive some_ranks order is_order in
      let ranked : (length ranks == n) ≡ true = (==_iff _ _).1 long in
      let fits : (length mask == length inputs) ≡ true =
        (==_iff _ _).1 (omega (arith, masked, same_length, long)) in
      (
        inputs,
        rw ranked routed,
        λ v w r ev ew. routes v r ev ∙ sym (routes w r ew),
        (q, rw (fits, chosen) merged, same),
      )
