-- ===== src/Torch/Ops.antt =====
-- The tensor library, which the code calls and does not implement: a parameter of the model.
-- `Torch` lists the tensor operations that lumenrl/core/protocol.py uses, and `Laws` what torch
-- documents of them, read through the rows of a tensor along dim 0.

use lumen_rl.Base.{
  ℕ, ◌<◌, ◌≡◌, Bool, List, ◌∷◌, ◌==◌, if◌then◌else◌, Result, ok, err, index_error, map_ok, length,
  slice, flat_map, replicate, gather, keep_where, repeat_each, repeat_all, All,
}
use lumen_rl.Base.Int.{ℤ}

pub record Torch : Type 1 where
  pub Tensor : Type 0
  pub Row : Type 0
  -- `t.unbind(0)`; its length is `t.shape[0]`.
  pub rows : Tensor → List Row
  -- `t.shape[1:]`.
  pub tail_shape : Tensor → List ℕ
  -- `t[a:b]`.
  pub span : Tensor → ℕ → ℕ → Tensor
  -- `t[idx]` for a 1-D tensor of type long, and of type bool.
  pub index : Tensor → List ℤ → Result Tensor
  pub mask : Tensor → List Bool → Result Tensor
  -- `torch.cat(ts, dim=0)`.
  pub cat : List Tensor → Result Tensor
  -- `t.repeat_interleave(r, dim=0)` for a number, and for a tensor of numbers.
  pub repeat_interleave : Tensor → ℕ → Tensor
  pub repeat_interleave_each : Tensor → List ℕ → Tensor
  -- `t.unsqueeze(0).expand(r, *t.shape).reshape(-1, *t.shape[1:])`.
  pub tile : Tensor → ℕ → Result Tensor
  -- `torch.nn.functional.pad` by `d` zeros at the end of dim 1.
  pub pad_right : Tensor → ℕ → Tensor

pub record Laws (T : Torch) : Type 0 where
  pub rows-span : (t : T.Tensor) (a b : ℕ) → T.rows (T.span t a b) ≡ slice a b (T.rows t)
  pub tail-span : (t : T.Tensor) (a b : ℕ) → T.tail_shape (T.span t a b) ≡ T.tail_shape t
  pub rows-index :
      (t : T.Tensor) (is : List ℤ) → map_ok T.rows (T.index t is) ≡ gather (T.rows t) is
  pub rows-mask :
      (t : T.Tensor) (bs : List Bool)
      → map_ok T.rows (T.mask t bs) ≡ (
          if length bs == length (T.rows t) then ok (keep_where bs (T.rows t)) else err index_error)
  -- An indexed tensor keeps the other dimensions.
  pub tail-index :
      (t u : T.Tensor) (is : List ℤ) → T.index t is ≡ ok u → T.tail_shape u ≡ T.tail_shape t
  pub tail-mask :
      (t u : T.Tensor) (bs : List Bool) → T.mask t bs ≡ ok u → T.tail_shape u ≡ T.tail_shape t
  -- Tensors that agree in all dimensions but the first can be joined.
  pub cat_agree :
      (t : T.Tensor) (ts : List T.Tensor)
      → All (λ u. T.tail_shape u ≡ T.tail_shape t) ts
      → (u : T.Tensor) × (T.cat (t ∷ ts) ≡ ok u)
        × (T.rows u ≡ flat_map T.rows (t ∷ ts))
        × (T.tail_shape u ≡ T.tail_shape t)
  pub rows-repeat_interleave :
      (t : T.Tensor) (r : ℕ) → T.rows (T.repeat_interleave t r) ≡ flat_map (replicate r) (T.rows t)
  pub rows-repeat_interleave_each :
      (t : T.Tensor) (rs : List ℕ)
      → length rs ≡ length (T.rows t)
      → T.rows (T.repeat_interleave_each t rs) ≡ repeat_each (T.rows t) rs
  -- With no dimension of size 0 after the first, the number of rows can be told from the elements.
  pub rows-tile :
      (t : T.Tensor) (r : ℕ)
      → All (λ d. 0 < d) (T.tail_shape t)
      → (u : T.Tensor) × (T.tile t r ≡ ok u) × (T.rows u ≡ repeat_all r (T.rows t))
