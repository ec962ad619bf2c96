-- ===== src/Tests/Samples.antt =====
-- Sample batches over the tensors of `Torch.Listed`.
use lumen_rl.Base.{ℕ, ◌<◌, List, [], ◌∷◌, String, refl, All, arith}
use lumen_rl.Torch.Listed.{listed, Tensor}
use lumen_rl.Proto.{DataProto, batch_size}
use lumen_rl.Proto.View.{IsConsistent}

abbrev pub matrix : Tensor
matrix = record { tail = 2 ∷ []; rows = (1 ∷ 2 ∷ []) ∷ (3 ∷ 4 ∷ []) ∷ (5 ∷ 6 ∷ []) ∷ [] }

abbrev pub vector : Tensor
vector = record { tail = []; rows = (7 ∷ []) ∷ (8 ∷ []) ∷ (9 ∷ []) ∷ [] }

-- Three rows: two tensors and a ragged column.
abbrev pub sample : DataProto listed ℕ
sample = record {
  tensors = ("input_ids", matrix) ∷ ("rewards", vector) ∷ [];
  meta = ("step", 4) ∷ [];
  ragged = ("routing", 10 ∷ 20 ∷ 30 ∷ []) ∷ [];
}

pub sample-IsConsistent : IsConsistent sample
unfolding batch_size
sample-IsConsistent = record { tensors_rows = (refl, (refl, tt)); ragged_rows = (refl, tt) }

pub positive_dims : All (λ (c : String × Tensor). All (λ d. 0 < d) c.1.tail) sample.tensors
positive_dims = ((omega arith, tt), (tt, tt))

abbrev pub plain_order : List String → List String
plain_order ks = ks
