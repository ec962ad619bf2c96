-- ===== src/WeightTransfer/Contents.antt =====
-- What buckets and views hold, and where in the buffer they lie.
use lumen_rl.Base.{
  ℕ, ◌+◌, ◌*◌, ◌≤◌, ◌<◌, ◌≡◌, refl, ap₂, Bool, true, false, List, [], ◌∷◌, Option, some, none,
  String, length, set, ok, All, arith, dict_has, lt→ltb, ◌%◌, ◌==◌, ==_iff,
}
use lumen_rl.Base.Ranges.{read, Apart}
use lumen_rl.WeightTransfer.State.{
  Ipc, Tensor, TensorMetadata, Weight, Handle, View, Receiver, rebuild_ipc,
}
use lumen_rl.WeightTransfer.Receiver.{tensor_of, view_of, views}

-- What torch documents of a handle: the seventh argument is the device, and with the device of the
-- other process in its place the function gives the tensor.
pub record IsIpc (ipc : Ipc) : Type 0 where
  pub has_device : (t : Tensor ipc.Shape ipc.Dtype) → 6 < length (ipc.reduce_tensor t).1
  pub rebuilds :
      (t : Tensor ipc.Shape ipc.Dtype) (device : ℕ)
      → (ipc.reduce_tensor t).0 (set (ipc.reduce_tensor t).1 6 (ipc.device_arg device)) ≡ t

module _ (ipc : Ipc) where
  open ipc use {Shape, Dtype, Arg, numel, itemsize, device_arg, reduce_tensor}

  abbrev pub size_of : Shape → Dtype → ℕ
  size_of shape dtype = itemsize dtype * numel shape

  -- A tensor has as many bytes as its shape and element type say.
  abbrev pub Fits : Weight ipc → Type 0
  Fits w = length w.1.bytes ≡ size_of w.1.shape w.1.dtype

  -- The weight's bytes are a multiple of the unit, which is a multiple of its element size.
  abbrev pub InUnits : ℕ → Weight ipc → Type 0
  InUnits unit w = (length w.1.bytes % unit ≡ 0) × (unit % itemsize w.1.dtype ≡ 0)

  abbrev pub DistinctNames : List (Weight ipc) → Type 0
  DistinctNames [] = Unit
  DistinctNames ((name, t) ∷ ws) = (dict_has name ws ≡ false) × DistinctNames ws

  -- The tensor that an entry of a bucket stands for.
  abbrev pub meta_tensor :
      ℕ → List ℕ → TensorMetadata ipc → Option (Handle ipc) → Tensor Shape Dtype
  meta_tensor device buffer meta none = record {
    shape = meta.shape;
    dtype = meta.dtype;
    bytes = read meta.offset (size_of meta.shape meta.dtype) buffer;
  }
  meta_tensor device buffer meta (some (func, args)) = func (set args 6 (device_arg device))

  abbrev pub meta_weights : ℕ → List ℕ → List (String × TensorMetadata ipc) → List (Weight ipc)
  meta_weights device buffer [] = []
  meta_weights device buffer ((name, meta) ∷ metas) =
      (name, meta_tensor device buffer meta meta.handle) ∷ meta_weights device buffer metas

  abbrev pub view_weights : List ℕ → List (String × View ipc) → List (Weight ipc)
  view_weights buffer [] = []
  view_weights buffer ((name, v) ∷ vs) = (name, tensor_of ipc buffer v) ∷ view_weights buffer vs

  -- An entry in the range of `size` bytes from `start`, at a multiple of its element size.
  abbrev pub MetaIn : ℕ → ℕ → TensorMetadata ipc → Type 0
  MetaIn start size meta =
      (meta.handle ≡ none)
      × (start ≤ meta.offset)
      × (meta.offset + size_of meta.shape meta.dtype ≤ start + size)
      × (meta.offset % itemsize meta.dtype ≡ 0)

  -- An entry that can be received: it lies so in the range, or its handle has a device.
  abbrev pub SendableAs : ℕ → ℕ → TensorMetadata ipc → Option (Handle ipc) → Type 0
  SendableAs start size meta none =
      (start ≤ meta.offset)
      × (meta.offset + size_of meta.shape meta.dtype ≤ start + size)
      × (meta.offset % itemsize meta.dtype ≡ 0)
  SendableAs start size meta (some (func, args)) = 6 < length args

  abbrev pub Sendable : ℕ → ℕ → String × TensorMetadata ipc → Type 0
  Sendable start size (name, meta) = SendableAs start size meta meta.handle

  abbrev pub ViewIn : ℕ → ℕ → View ipc → Type 0
  ViewIn start size (View.owned t) = Unit
  ViewIn start size (View.in_buffer shape dtype offset) =
      (start ≤ offset) × (offset + size_of shape dtype ≤ start + size)

  abbrev pub ViewApart : ℕ → ℕ → View ipc → Type 0
  ViewApart start size (View.owned t) = Unit
  ViewApart start size (View.in_buffer shape dtype offset) =
      Apart offset (size_of shape dtype) start size

  MetaIn-SendableAs :
      (start size : ℕ) (meta : TensorMetadata ipc) (h : Option (Handle ipc))
      → h ≡ none
      → (start ≤ meta.offset)
        × (meta.offset + size_of meta.shape meta.dtype ≤ start + size)
        × (meta.offset % itemsize meta.dtype ≡ 0)
      → SendableAs start size meta h
  MetaIn-SendableAs start size meta none e p = p
  MetaIn-SendableAs start size meta (some h) e p = absurd (cc)

  pub MetaIn-Sendable :
      (start size size' : ℕ) (metas : List (String × TensorMetadata ipc))
      → size ≤ size'
      → All (λ p. MetaIn start size p.1) metas
      → All (Sendable start size') metas
  MetaIn-Sendable start size size' [] h a = tt
  MetaIn-Sendable start size size' ((name, meta) ∷ metas) h ((e, p, q, t), a) = (
    MetaIn-SendableAs start size' meta meta.handle e (p, omega arith, t),
    MetaIn-Sendable start size size' metas h a,
  )

  -- Taking the tensors of a bucket succeeds, and the views show what the bucket holds.
  pub record Taken (r : Receiver ipc) (buffer : List ℕ) (start size : ℕ)
      (metas : List (String × TensorMetadata ipc)) (vs : List (String × View ipc)) : Type 0 where
    pub made : views ipc r buffer metas ≡ ok vs
    pub shown : view_weights buffer vs ≡ meta_weights r.device buffer metas
    pub placed : All (λ p. ViewIn start size p.1) vs

  record TakenAs (r : Receiver ipc) (buffer : List ℕ) (start size : ℕ) (meta : TensorMetadata ipc)
      (h : Option (Handle ipc)) (v : View ipc) : Type 0 where
    made : view_of ipc r buffer meta h ≡ ok v
    shown : tensor_of ipc buffer v ≡ meta_tensor r.device buffer meta h
    placed : ViewIn start size v

  aligned :
      (meta : TensorMetadata ipc)
      → meta.offset % itemsize meta.dtype ≡ 0
      → (meta.offset % itemsize meta.dtype == 0) ≡ true
  aligned meta h = (==_iff (meta.offset % itemsize meta.dtype) 0).1 h

  view_of-TakenAs :
      (r : Receiver ipc) (buffer : List ℕ) (start size : ℕ) (meta : TensorMetadata ipc)
      (h : Option (Handle ipc)) (shm : Bool)
      → r.use_shm ≡ shm
      → SendableAs start size meta h
      → (v : View ipc) × TakenAs r buffer start size meta h v
  unfolding view_of rebuild_ipc tensor_of
  view_of-TakenAs r buffer start size meta (some (func, args)) shm e p = (
    View.owned (func (set args 6 (device_arg r.device))),
    record { made = rw (lt→ltb 6 (length args) p) refl; shown = refl; placed = tt },
  )
  view_of-TakenAs r buffer start size meta none true e (p, q, t) = (
    View.owned (meta_tensor r.device buffer meta none),
    record { made = rw (aligned meta t) (rw e refl); shown = refl; placed = tt },
  )
  view_of-TakenAs r buffer start size meta none false e (p, q, t) = (
    View.in_buffer meta.shape meta.dtype meta.offset,
    record { made = rw (aligned meta t) (rw e refl); shown = refl; placed = (p, q) },
  )

  pub views-Taken :
      (r : Receiver ipc) (buffer : List ℕ) (start size : ℕ)
      (metas : List (String × TensorMetadata ipc))
      → All (Sendable start size) metas
      → (vs : List (String × View ipc)) × Taken r buffer start size metas vs
  unfolding views
  views-Taken r buffer start size [] a = ([], record { made = refl; shown = refl; placed = tt })
  views-Taken r buffer start size ((name, meta) ∷ metas) (p, a) =
      let (v, c) = view_of-TakenAs r buffer start size meta meta.handle r.use_shm refl p in
      let (vs, d) = views-Taken r buffer start size metas a in
      (
        (name, v) ∷ vs,
        record {
          made = rw c.made (rw d.made refl);
          shown = ap₂ (λ t ws. (name, t) ∷ ws) c.shown d.shown;
          placed = (c.placed, d.placed);
        },
      )
