-- ===== src/Proto/Repeated.antt =====
-- lumenrl/core/protocol.py, `repeat`: tensors, which torch repeats, and ragged columns, which the code
-- gathers at listed positions, keep the same order of rows.
use lumen_rl.Base.{
  ◌<◌, refl, ap₂, ◌⊎◌, inl, inr, Result, traverse_values, ℕ, zero, suc, ◌*◌, ◌≡◌, sym, ap, ◌∙◌,
  Bool, true, false, List, [], ◌∷◌, map, length, length-append, replicate, length-replicate,
  flat_map, range, gather, gather_each, gather_all, repeat_all, String, ok, ◌>>=◌, arith, All,
}
use lumen_rl.Base.Int.{pos}
use lumen_rl.Torch.{Torch, Laws}
use lumen_rl.Proto.{DataProto, batch_size, size_of}
use lumen_rl.Proto.Select.{ragged_at}
use lumen_rl.Proto.Repeat.{repeat, repeat_order, repeat_tensor}
use lumen_rl.Proto.View.{IsConsistent}

module _ {A : Type 0} where
  abbrev repeated : Bool → ℕ → List A → List A
  repeated true r xs = flat_map (replicate r) xs
  repeated false r xs = repeat_all r xs

  repeated-order :
      (interleave : Bool) (n r : ℕ) (xs : List A)
      → length xs ≡ n
      → gather xs (map pos (repeat_order interleave n r)) ≡ ok (repeated interleave r xs)
  unfolding repeat_order
  repeated-order true n r xs e =
      ap (λ m. gather xs (map pos (flat_map (λ i. flat_map (λ _. i ∷ []) (range r)) (range m))))
        (sym e)
      ∙ gather_each r xs
  repeated-order false n r xs e =
      ap (λ m. gather xs (map pos (flat_map (λ _. range m) (range r)))) (sym e) ∙ gather_all r xs

  length-repeated :
      (interleave : Bool) (r : ℕ) (xs : List A) → length (repeated interleave r xs) ≡ r * length xs
  length-repeated true r [] = omega arith
  length-repeated true r (x ∷ xs) = omega (
    arith,
    length-append (replicate r x) (flat_map (replicate r) xs),
    length-replicate r x,
    length-repeated true r xs,
  )
  length-repeated false zero xs = omega arith
  length-repeated false (suc r) xs =
      omega (arith, length-append xs (repeat_all r xs), length-repeated false r xs)

module _ {V W : Type 0} where
  -- Two dictionaries with the same keys in the same order, and related values.
  abbrev pub Alike : (V → W → Type 0) → List (String × V) → List (String × W) → Type 0
  Alike R [] [] = Unit
  Alike R ((k, v) ∷ d) ((j, w) ∷ e) = (j ≡ k) × R v w × Alike R d e
  Alike R [] (c ∷ e) = ⊥
  Alike R (c ∷ d) [] = ⊥

  traverse_values-Alike :
      (f : V → Result W) (R : V → W → Type 0) (d : List (String × V))
      → All (λ (c : String × V). (w : W) × (f c.1 ≡ ok w) × R c.1 w) d
      → (e : List (String × W)) × (traverse_values f d ≡ ok e) × Alike R d e
  unfolding traverse_values
  traverse_values-Alike f R [] h = ([], refl, tt)
  traverse_values-Alike f R ((k, v) ∷ d) ((w, made, related), h) =
      let (e, rest, alike) = traverse_values-Alike f R d h in
      (
        (k, w) ∷ e,
        ap₂ (λ r s. r >>= λ y. s >>= λ ys. ok ((k, y) ∷ ys)) made rest,
        (refl, related, alike),
      )

-- The second has the first's entries at these positions, and `r` times as many.
abbrev pub Copies : {A : Type 0} → ℕ → List ℕ → List A → List A → Type 0
Copies r is xs ys = (gather xs (map pos is) ≡ ok ys) × (length ys ≡ r * length xs)

Copies-repeated :
    {A : Type 0} (interleave : Bool) (n r : ℕ) (xs ys : List A)
    → length xs ≡ n
    → ys ≡ repeated interleave r xs
    → Copies r (repeat_order interleave n r) xs ys
Copies-repeated interleave n r xs ys e f = (
  repeated-order interleave n r xs e ∙ ap ok (sym f),
  ap length f ∙ length-repeated interleave r xs,
)

-- Tensors that can be repeated: copies side by side, or no dimension of size 0 after the first.
abbrev pub CanRepeat : (T : Torch) → Bool → List (String × T.Tensor) → Type 0
CanRepeat T interleave ts =
    (interleave ≡ true) ⊎ All (λ (c : String × T.Tensor). All (λ d. 0 < d) (T.tail_shape c.1)) ts

module _ {T : Torch} (L : Laws T) where
  repeat_tensor-rows :
      (interleave : Bool) (r : ℕ) (t : T.Tensor)
      → (interleave ≡ true) ⊎ All (λ d. 0 < d) (T.tail_shape t)
      → (u : T.Tensor) × (repeat_tensor T interleave r t ≡ ok u)
        × (T.rows u ≡ repeated interleave r (T.rows t))
  unfolding repeat_tensor
  repeat_tensor-rows true r t h = (T.repeat_interleave t r, refl, L.rows-repeat_interleave t r)
  repeat_tensor-rows false r t (inl e) = absurd (cc)
  repeat_tensor-rows false r t (inr h) = L.rows-tile t r h

  CanRepeat-first :
      (interleave : Bool) (k : String) (t : T.Tensor) (ts : List (String × T.Tensor))
      → CanRepeat T interleave ((k, t) ∷ ts)
      → ((interleave ≡ true) ⊎ All (λ d. 0 < d) (T.tail_shape t)) × CanRepeat T interleave ts
  CanRepeat-first interleave k t ts (inl e) = (inl e, inl e)
  CanRepeat-first interleave k t ts (inr (h, hs)) = (inr h, inr hs)

  tensors_repeated :
      (interleave : Bool) (n r : ℕ) (ts : List (String × T.Tensor))
      → CanRepeat T interleave ts
      → All (λ (c : String × T.Tensor). length (T.rows c.1) ≡ n) ts
      → All
          (λ (c : String × T.Tensor).
            (u : T.Tensor) × (repeat_tensor T interleave r c.1 ≡ ok u)
            × Copies r (repeat_order interleave n r) (T.rows c.1) (T.rows u))
          ts
  tensors_repeated interleave n r [] can h = tt
  tensors_repeated interleave n r ((k, t) ∷ ts) can (e, h) =
      let (here, later) = CanRepeat-first interleave k t ts can in
      let (u, made, rows) = repeat_tensor-rows interleave r t here in
      (
        (u, made, Copies-repeated interleave n r (T.rows t) (T.rows u) e rows),
        tensors_repeated interleave n r ts later h,
      )

ragged_repeated :
    {V : Type 0} (interleave : Bool) (n r : ℕ) (rs : List (String × List V))
    → All (λ (c : String × List V). length c.1 ≡ n) rs
    → All
        (λ (c : String × List V).
          (w : List V) × (gather c.1 (map pos (repeat_order interleave n r)) ≡ ok w)
          × Copies r (repeat_order interleave n r) c.1 w)
        rs
ragged_repeated interleave n r [] h = tt
ragged_repeated interleave n r ((k, v) ∷ rs) (e, h) =
    let ys = repeated interleave r v in
    let copies = Copies-repeated interleave n r v ys e refl in
    ((ys, copies.0, copies), ragged_repeated interleave n r rs h)

module _ (T : Torch) {V : Type 0} where
  size-Copies :
      (r : ℕ) (is : List ℕ) (ts us : List (String × T.Tensor)) (rs qs : List (String × List V))
      → Alike (λ t u. Copies r is (T.rows t) (T.rows u)) ts us
      → Alike (Copies r is) rs qs
      → size_of T V us qs ≡ r * size_of T V ts rs
  unfolding size_of
  size-Copies r is ((k, t) ∷ ts) ((j, u) ∷ us) rs qs (e, (g, l), a) b = l
  size-Copies r is [] [] ((k, v) ∷ rs) ((j, w) ∷ qs) a (e, (g, l), b) = l
  size-Copies r is [] [] [] [] a b = omega arith
  size-Copies r is [] (u ∷ us) rs qs a b = absurd a
  size-Copies r is (t ∷ ts) [] rs qs a b = absurd a
  size-Copies r is [] [] [] (q ∷ qs) a b = absurd b
  size-Copies r is [] [] (v ∷ rs) [] a b = absurd b

module _ {T : Torch} {V : Type 0} where
  -- Under the tensor laws, repeating a batch whose columns agree in length some times, with copies
  -- side by side or, if no tensor has a dimension of size 0 after the first, one batch after the
  -- other, succeeds with that many times the rows and the same meta data. The keys stay, in order,
  -- and every tensor and every ragged column has its rows at the same positions of the original.
  pub repeat-order :
      (L : Laws T) (p : DataProto T V) (r : ℕ) (interleave : Bool)
      → IsConsistent p
      → CanRepeat T interleave p.tensors
      → (q : DataProto T V) × (repeat p (suc r) interleave ≡ ok q)
        × (batch_size q ≡ suc r * batch_size p)
        × (q.meta ≡ p.meta)
        × Alike
            (λ t u.
              Copies (suc r) (repeat_order interleave (batch_size p) (suc r)) (T.rows t) (T.rows u))
            p.tensors
            q.tensors
        × Alike (Copies (suc r) (repeat_order interleave (batch_size p) (suc r))) p.ragged q.ragged
  unfolding repeat ragged_at batch_size
  repeat-order L p r interleave whole can =
      let n = batch_size p in
      let order = repeat_order interleave n (suc r) in
      let (us, made, alike) =
        traverse_values-Alike (repeat_tensor T interleave (suc r))
          (λ t u. Copies (suc r) order (T.rows t) (T.rows u)) p.tensors
          (tensors_repeated L interleave n (suc r) p.tensors can whole.tensors_rows) in
      let (qs, found, alike_ragged) =
        traverse_values-Alike (λ v. gather v (map pos order)) (Copies (suc r) order) p.ragged
          (ragged_repeated interleave n (suc r) p.ragged whole.ragged_rows) in
      (
        record { tensors = us; meta = p.meta; ragged = qs },
        ap₂
            (λ o s. o >>= λ tensors.
              s >>= λ ragged. ok (record { tensors = tensors; meta = p.meta; ragged = ragged }))
            made found,
        size-Copies T (suc r) order p.tensors us p.ragged qs alike alike_ragged,
        refl,
        alike,
        alike_ragged,
      )
