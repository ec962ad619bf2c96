-- ===== src/WeightTransfer/Writes.antt =====
-- A copy into the current slot adds one weight to the bucket and leaves the rest as it is.
use lumen_rl.Base.{
  ℕ, zero, suc, ◌+◌, ◌*◌, ◌%◌, ◌≤◌, ◌<◌, ◌≡◌, refl, sym, ap, ap₂, ◌∙◌, false, List, [], ◌∷◌, ◌++◌,
  Option, some, none, String, length, All, arith, dict_has, dict_set, inl, inr, str_eq, eq_iff,
}
use lumen_rl.Base.Ranges.{read, overwrite, Apart, read-overwrite, read-overwrite-Apart}
use lumen_rl.WeightTransfer.State.{Ipc, TensorMetadata, Weight, Handle, View}
use lumen_rl.WeightTransfer.Receiver.{tensor_of}
use lumen_rl.WeightTransfer.Contents.{
  Fits, MetaIn, ViewApart, ViewIn, meta_tensor, meta_weights, size_of, view_weights,
}

-- The other slot has no position in common with this one.
pub next_slot-Apart :
    (slot b offset size : ℕ)
    → slot < 2
    → slot * b ≤ offset
    → offset + size ≤ slot * b + b
    → Apart offset size (((slot + 1) % 2) * b) b
next_slot-Apart zero b offset size h p q = inl (omega arith)
next_slot-Apart (suc zero) b offset size h p q = inr (omega arith)
next_slot-Apart (suc (suc n)) b offset size h p q = absurd (omega arith)

module _ {ℓ} {V : Type ℓ} where
  pub dict_set-new :
      (k : String) (v : V) (d : List (String × V))
      → dict_has k d ≡ false
      → dict_set k v d ≡ d ++ (k, v) ∷ []
  unfolding dict_has dict_set
  dict_set-new k v [] h = refl
  dict_set-new k v ((j, w) ∷ d) h = ground (arith, dict_set-new k v d)

  pub dict_has-append :
      (k j : String) (v : V) (d : List (String × V))
      → dict_has k d ≡ false
      → str_eq j k ≡ false
      → dict_has k (d ++ (j, v) ∷ []) ≡ false
  unfolding dict_has
  dict_has-append k j v [] h e = rw e refl
  dict_has-append k j v ((i, w) ∷ d) h e = ground (arith, dict_has-append k j v d)

module _ {ℓ κ} {V : Type ℓ} {W : Type κ} where
  -- The names of weights still to come are not among those of the bucket.
  abbrev pub NewNames : List (String × W) → List (String × V) → Type 0
  NewNames ws d = All (λ w. dict_has w.0 d ≡ false) ws

  pub NewNames-append :
      (j : String) (v : V) (d : List (String × V)) (ws : List (String × W))
      → dict_has j ws ≡ false
      → NewNames ws d
      → NewNames ws (d ++ (j, v) ∷ [])
  unfolding dict_has
  NewNames-append j v d [] h a = tt
  NewNames-append j v d ((k, w) ∷ ws) h (p, a) = (
    dict_has-append k j v d p (ground (arith, eq_iff k j, eq_iff j k)),
    NewNames-append j v d ws (ground arith) a,
  )

module _ {ℓ κ} (V : Type ℓ) {W : Type κ} where
  pub NewNames-nil : (ws : List (String × W)) → NewNames {V = V} ws []
  unfolding dict_has
  NewNames-nil [] = tt
  NewNames-nil (w ∷ ws) = (refl, NewNames-nil ws)

module _ (ipc : Ipc) where
  open ipc use {Shape, Dtype}

  view_overwrite :
      (v : View ipc) (start size at : ℕ) (bytes buffer : List ℕ)
      → ViewApart ipc start size v
      → start ≤ at
      → at + length bytes ≤ start + size
      → tensor_of ipc (overwrite at bytes buffer) v ≡ tensor_of ipc buffer v
  unfolding tensor_of
  view_overwrite (View.owned t) start size at bytes buffer a h k = refl
  view_overwrite (View.in_buffer shape dtype offset) start size at bytes buffer a h k =
      ap (λ bs. record { shape = shape; dtype = dtype; bytes = bs })
        (read-overwrite-Apart offset (size_of ipc shape dtype) at bytes buffer (omega arith))

  pub view_weights-overwrite :
      (vs : List (String × View ipc)) (start size at : ℕ) (bytes buffer : List ℕ)
      → All (λ p. ViewApart ipc start size p.1) vs
      → start ≤ at
      → at + length bytes ≤ start + size
      → view_weights ipc (overwrite at bytes buffer) vs ≡ view_weights ipc buffer vs
  view_weights-overwrite [] start size at bytes buffer a h k = refl
  view_weights-overwrite ((name, v) ∷ vs) start size at bytes buffer (p, a) h k =
      ap₂ (λ t ws. (name, t) ∷ ws) (view_overwrite v start size at bytes buffer p h k)
        (view_weights-overwrite vs start size at bytes buffer a h k)

  meta_overwrite :
      (device : ℕ) (meta : TensorMetadata ipc) (h : Option (Handle ipc)) (at : ℕ)
      (bytes buffer : List ℕ)
      → h ≡ none
      → meta.offset + size_of ipc meta.shape meta.dtype ≤ at
      → meta_tensor ipc device (overwrite at bytes buffer) meta h
        ≡ meta_tensor ipc device buffer meta h
  meta_overwrite device meta none at bytes buffer e k =
      ap (λ bs. record { shape = meta.shape; dtype = meta.dtype; bytes = bs })
        (read-overwrite-Apart meta.offset (size_of ipc meta.shape meta.dtype) at bytes buffer
          (omega arith))
  meta_overwrite device meta (some h) at bytes buffer e k = absurd (cc)

  pub meta_weights-overwrite :
      (device : ℕ) (metas : List (String × TensorMetadata ipc)) (start size : ℕ)
      (bytes buffer : List ℕ)
      → All (λ p. MetaIn ipc start size p.1) metas
      → meta_weights ipc device (overwrite (start + size) bytes buffer) metas
        ≡ meta_weights ipc device buffer metas
  meta_weights-overwrite device [] start size bytes buffer a = refl
  meta_weights-overwrite device ((name, meta) ∷ metas) start size bytes buffer ((e, p, q, t), a) =
      ap₂ (λ t ws. (name, t) ∷ ws)
        (meta_overwrite device meta meta.handle (start + size) bytes buffer e q)
        (meta_weights-overwrite device metas start size bytes buffer a)

  pub meta_weights-append :
      (device : ℕ) (buffer : List ℕ) (metas more : List (String × TensorMetadata ipc))
      → meta_weights ipc device buffer (metas ++ more)
        ≡ meta_weights ipc device buffer metas ++ meta_weights ipc device buffer more
  meta_weights-append device buffer [] more = refl
  meta_weights-append device buffer ((name, meta) ∷ metas) more =
      ap (◌∷◌ (name, meta_tensor ipc device buffer meta meta.handle))
        (meta_weights-append device buffer metas more)

  -- The entry that the sender makes for a weight, and the weight, after its bytes were written.
  abbrev pub entry : ℕ → Weight ipc → TensorMetadata ipc
  entry start w = record { shape = w.1.shape; dtype = w.1.dtype; offset = start; handle = none }

  pub entry_written :
      (device start : ℕ) (w : Weight ipc) (buffer : List ℕ)
      → Fits ipc w
      → start + length w.1.bytes ≤ length buffer
      → meta_tensor ipc device (overwrite start w.1.bytes buffer) (entry start w) none ≡ w.1
  entry_written device start w buffer f h =
      ap (λ bs. record { shape = w.1.shape; dtype = w.1.dtype; bytes = bs })
        (ap (λ n. read start n (overwrite start w.1.bytes buffer)) (sym f)
          ∙ read-overwrite start w.1.bytes buffer h)

  pub ViewIn-next_slot :
      (vs : List (String × View ipc)) (slot b : ℕ)
      → slot < 2
      → All (λ p. ViewIn ipc (slot * b) b p.1) vs
      → All (λ p. ViewApart ipc (((slot + 1) % 2) * b) b p.1) vs
  ViewIn-next_slot [] slot b h a = tt
  ViewIn-next_slot ((name, View.owned t) ∷ vs) slot b h (p, a) =
      (tt, ViewIn-next_slot vs slot b h a)
  ViewIn-next_slot ((name, View.in_buffer shape dtype offset) ∷ vs) slot b h ((p, q), a) = (
    next_slot-Apart slot b offset (size_of ipc shape dtype) h p q,
    ViewIn-next_slot vs slot b h a,
  )

  pub MetaIn-append :
      (start size more : ℕ) (metas : List (String × TensorMetadata ipc)) (w : Weight ipc)
      → Fits ipc w
      → more ≡ length w.1.bytes
      → (start + size) % ipc.itemsize w.1.dtype ≡ 0
      → All (λ p. MetaIn ipc start size p.1) metas
      → All (λ p. MetaIn ipc start (size + more) p.1) (metas ++ (w.0, entry (start + size) w) ∷ [])
  MetaIn-append start size more [] w f e u a = ((refl, omega arith, omega arith, u), tt)
  MetaIn-append start size more ((name, meta) ∷ metas) w f e u ((p, q, r, t), a) =
      ((p, q, omega arith, t), MetaIn-append start size more metas w f e u a)
