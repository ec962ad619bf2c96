-- ===== src/MegatronReplay/Packed.antt =====
-- The packed routes of a micro-batch without context or sequence parallelism.
use lumen_rl.Base.{
  minus_zero, ok-inj, le→leb, ℕ, zero, suc, ◌-◌, ◌≤◌, ◌<◌, ◌≡◌, refl, sym, ap, ap₂, ◌∙◌, Bool, true,
  false, List, [], ◌∷◌, ◌++◌, map, ◌==◌, ==_iff, length, length-append, length-replicate, range,
  traverse, replicate, flat_map, some, Result, Error, ok, err, ◌>>=◌, ◌>>◌, guard, runtime_error,
  value_error, arith, Result-cases, inl, inr, ◌&&◌,
}
use lumen_rl.Base.Int.{ℤ, pos_part}
use lumen_rl.MegatronReplay.{
  TokenRoutes, RowRoutes, Routes, PackedRow, ContextParallel, TensorParallel, extract_row_routes,
  expect, row_of, filler, piece, cp_local_indices, gather_token_routes, replay_of, sharded,
  layer_tensors, layers_exist, tokens_in_range, at_layer, select_layers, pack_microbatch_routes,
  route_meta,
}
use lumen_rl.MegatronReplay.Gathered.{gather_token_routes-range, select-at_layer}

-- The routes that the code reads for the rows, and their sizes.
abbrev pub Extracted : Routes → ℕ → ℕ → List PackedRow → List RowRoutes → Type 0
Extracted routes layers topk [] [] = Unit
Extracted routes layers topk (p ∷ ps) (r ∷ rs) =
    (extract_row_routes routes p ≡ ok r)
    × (r.num_layers ≡ layers)
    × (r.topk ≡ topk)
    × Extracted routes layers topk ps rs
Extracted routes layers topk _ _ = ⊥

-- Each row's routes, and one filling for its last token.
abbrev pub own_tokens : ℕ → ℕ → List RowRoutes → List TokenRoutes
own_tokens layers topk rs = flat_map (λ r. r.tokens ++ filler layers topk ∷ []) rs

-- These, filled up to the packed length.
abbrev pub laid_out : ℕ → ℕ → ℕ → List RowRoutes → List TokenRoutes
laid_out packed_len layers topk rs =
    own_tokens layers topk rs
    ++ replicate (packed_len - length (own_tokens layers topk rs)) (filler layers topk)

err-ok : {raised : Error} {r : RowRoutes} → err raised ≡ ok r → ⊥
err-ok e = cc

expected-size :
    (b : Bool) (n : ℕ) (x r : RowRoutes)
    → (b ≡ true → length x.tokens ≡ n)
    → (guard b value_error >> ok x) ≡ ok r
    → suc n ≡ suc (length r.tokens)
expected-size false n x r h e = cc
expected-size true n x r h e =
    ap suc (sym (h refl)) ∙ ap suc (ap length (ap RowRoutes.tokens (ok-inj x r e)))

expect-size :
    (size k : ℕ) (x r : RowRoutes)
    → k ≡ size - 1
    → expect size k x ≡ ok r
    → size ≡ suc (length r.tokens)
unfolding expect
expect-size zero k x r p e = cc
expect-size (suc n) k x r p e =
    omega (arith, expected-size (length x.tokens == k) k x r (==_iff (length x.tokens) k).0 e)

extract-size :
    (routes : Routes) (p : PackedRow) (r : RowRoutes)
    → extract_row_routes routes p ≡ ok r
    → p.size ≡ suc (length r.tokens)
unfolding extract_row_routes
extract-size routes p r e = elim (Result-cases (row_of routes p (p.size - 1))) [
  | inl (x, f) ↦
      expect-size p.size (p.size - 1) x r refl
        (sym (ap (λ t. t >>= λ u. expect p.size (p.size - 1) u) f) ∙ e)
  | inr (raised, f) ↦
      absurd (err-ok (sym (ap (λ t. t >>= λ u. expect p.size (p.size - 1) u) f) ∙ e))
]

both : (a b c d : ℕ) → a ≡ b → c ≡ d → (a == b && c == d) ≡ true
both a b c d e f = rw ((==_iff a b).1 e, (==_iff c d).1 f) refl

gathered :
    (full : List TokenRoutes) (b : Bool) (i : Result (List ℕ))
    → b ≡ true
    → i ≡ ok (range (length full))
    → (guard b runtime_error >> (i >>= λ idx. gather_token_routes full idx)) ≡ ok full
gathered full false i h e = cc
gathered full true i h e =
    ap (λ j. j >>= λ idx. gather_token_routes full idx) e ∙ gather_token_routes-range full

module _ (routes : Routes) (layers topk : ℕ) (cp : ContextParallel) where
  local-small : (size : ℕ) → cp.cp_size ≤ 1 → cp_local_indices size cp ≡ ok (range size)
  unfolding cp_local_indices
  local-small size small = rw (le→leb cp.cp_size 1 small) refl

  piece-extracted :
      (p : PackedRow) (r : RowRoutes)
      → cp.cp_size ≤ 1
      → extract_row_routes routes p ≡ ok r
      → r.num_layers ≡ layers
      → r.topk ≡ topk
      → piece routes layers topk cp p ≡ ok (r.tokens ++ filler layers topk ∷ [])
  unfolding piece cp_local_indices
  piece-extracted p r small e l t =
      ap
        (λ x. x >>= λ real.
          guard (real.num_layers == layers && real.topk == topk) runtime_error
          >> (cp_local_indices p.size cp >>= λ idx.
              gather_token_routes (real.tokens ++ filler layers topk ∷ []) idx))
        e
      ∙ gathered (r.tokens ++ filler layers topk ∷ []) _ _
          (both r.num_layers layers r.topk topk l t)
          (local-small p.size small
            ∙ ap (λ n. ok (range n))
                (extract-size routes p r e
                  ∙ omega (arith, length-append r.tokens (filler layers topk ∷ []))))

  pieces :
      (ps : List PackedRow) (rs : List RowRoutes)
      → cp.cp_size ≤ 1
      → Extracted routes layers topk ps rs
      → traverse (piece routes layers topk cp) ps
        ≡ ok (map (λ r. r.tokens ++ filler layers topk ∷ []) rs)
  pieces [] [] small x = refl
  pieces [] (r ∷ rs) small x = absurd x
  pieces (p ∷ ps) [] small x = absurd x
  pieces (p ∷ ps) (r ∷ rs) small (e, l, t, x) =
      ap₂ (λ a rest. a >>= λ y. rest >>= λ ys. ok (y ∷ ys)) (piece-extracted p r small e l t)
        (pieces ps rs small x)

  flat_map-own :
      (rs : List RowRoutes)
      → flat_map (λ t. t) (map (λ r. r.tokens ++ filler layers topk ∷ []) rs)
        ≡ own_tokens layers topk rs
  flat_map-own [] = refl
  flat_map-own (r ∷ rs) = ap (◌++◌ (r.tokens ++ filler layers topk ∷ [])) (flat_map-own rs)

  length-laid_out :
      (packed_len : ℕ) (rs : List RowRoutes)
      → length (own_tokens layers topk rs) ≤ packed_len
      → length (laid_out packed_len layers topk rs) ≡ packed_len
  length-laid_out packed_len rs fits = omega (
    arith,
    length-append (own_tokens layers topk rs)
        (replicate (packed_len - length (own_tokens layers topk rs)) (filler layers topk)),
    length-replicate (packed_len - length (own_tokens layers topk rs)) (filler layers topk),
  )

  replay_of-laid_out :
      (packed_len : ℕ) (ps : List PackedRow) (rs : List RowRoutes)
      → cp.cp_size ≤ 1
      → Extracted routes layers topk ps rs
      → length (own_tokens layers topk rs) ≤ packed_len
      → replay_of routes ps packed_len layers topk cp ≡ ok (laid_out packed_len layers topk rs)
  unfolding replay_of
  replay_of-laid_out packed_len [] [] small x fits =
      ap (λ n. ok (replicate n (filler layers topk))) (minus_zero packed_len)
  replay_of-laid_out packed_len [] (r ∷ rs) small x fits = absurd x
  replay_of-laid_out packed_len (p ∷ ps) rs small x fits =
      ap
        (λ t. t >>= λ pieces.
          let tokens = flat_map (λ t. t) pieces in
          let replay = tokens ++ replicate (packed_len - length tokens) (filler layers topk) in
          guard (length replay == packed_len) value_error >> ok replay)
        (pieces (p ∷ ps) rs small x)
      ∙ ap
          (λ tokens.
            let replay = tokens ++ replicate (packed_len - length tokens) (filler layers topk) in
            guard (length replay == packed_len) value_error >> ok replay)
          (flat_map-own rs)
      ∙ rw
          ((==_iff (length (laid_out packed_len layers topk rs)) packed_len).1
            (length-laid_out packed_len rs fits))
          refl

layer_tensors-selected :
    (layers num_experts : ℕ) (js : List ℤ) (laid : List TokenRoutes)
    → layers_exist layers js ≡ true
    → tokens_in_range num_experts (map (select_layers js) laid) ≡ true
    → layer_tensors layers num_experts js laid ≡ ok (map (λ j. at_layer laid (pos_part j)) js)
unfolding layer_tensors
layer_tensors-selected layers num_experts js laid exist bounds =
    rw (exist, bounds) (ap ok (select-at_layer laid js))

sharded-whole :
    (tp : TensorParallel) (replay : List TokenRoutes)
    → tp.sequence_parallel ≡ false
    → sharded tp replay ≡ ok replay
unfolding sharded
sharded-whole tp replay h = rw h refl

-- Let there be no context and no sequence parallelism and at least one position, let the routes
-- read for the rows have the batch's numbers of layers and experts and fit in the positions with
-- one more for each row, and let the chosen layers exist and the ids in them be ids of experts, as
-- the code tests. Then packing succeeds and gives one tensor for each chosen layer, in that order:
-- the layer's ids for every row's routes followed by a filling for the row's last token, and then
-- fillings up to the packed length, which is the length of each tensor.
pub pack_microbatch_routes-laid_out :
    (routes : Routes) (rows : List PackedRow) (reals : List RowRoutes)
    (packed_len num_experts layers topk : ℕ) (layer_indices : List ℤ) (cp : ContextParallel)
    (tp : TensorParallel)
    → 0 < packed_len
    → cp.cp_size ≤ 1
    → tp.sequence_parallel ≡ false
    → route_meta routes ≡ ok (layers, topk)
    → Extracted routes layers topk rows reals
    → length (own_tokens layers topk reals) ≤ packed_len
    → layers_exist layers layer_indices ≡ true
    → tokens_in_range num_experts
        (map (select_layers layer_indices) (laid_out packed_len layers topk reals))
      ≡ true
    → (pack_microbatch_routes (some routes) rows packed_len num_experts layer_indices cp tp
        ≡ ok (
            map (λ j. at_layer (laid_out packed_len layers topk reals) (pos_part j)) layer_indices))
      × (length (laid_out packed_len layers topk reals) ≡ packed_len)
unfolding pack_microbatch_routes
pack_microbatch_routes-laid_out routes rows reals zero num_experts layers topk js cp tp pos small
      whole meta x fits exist bounds =
    absurd (omega arith)
pack_microbatch_routes-laid_out routes rows reals (suc n) num_experts layers topk js cp tp pos small
      whole meta x fits exist bounds =
    let laid = laid_out (suc n) layers topk reals in
    (
      ap
            (λ t. t >>= λ m. replay_of routes rows (suc n) m.0 m.1 cp >>= λ replay.
              sharded tp replay >>= λ shard. layer_tensors m.0 num_experts js shard)
            meta
          ∙ ap
              (λ t. t >>= λ replay.
                sharded tp replay >>= λ shard. layer_tensors layers num_experts js shard)
              (replay_of-laid_out routes layers topk cp (suc n) rows reals small x fits)
          ∙ ap (λ t. t >>= λ shard. layer_tensors layers num_experts js shard)
              (sharded-whole tp laid whole)
          ∙ layer_tensors-selected layers num_experts js laid exist bounds,
      length-laid_out routes layers topk cp (suc n) reals fits,
    )
