-- ===== src/Tests/Batches.antt =====
-- DataProto: splitting, joining, checking.
use lumen_rl.Base.{ℕ, ◌≤◌, List, ◌≡◌, refl, ◌⊎◌, [], ok, length, All, arith}
use lumen_rl.Torch.Listed.{listed, listed-Laws}
use lumen_rl.Proto.{DataProto, batch_size, check_consistency}
use lumen_rl.Proto.Split.{split, mini_batches}
use lumen_rl.Proto.Merge.{merge, concat}
use lumen_rl.Proto.View.{IsConsistent, SameRows}
use lumen_rl.Proto.RoundTrip.{merge-split, concat-split}
use lumen_rl.Proto.Batched.{concat-mini_batches}
use lumen_rl.Proto.Sizes.{split-fair, IsFairChunk, check_consistency_iff}
use lumen_rl.Tests.Samples.{sample, sample-IsConsistent, plain_order}

merge-split_example :
    (q : DataProto listed ℕ) × (merge plain_order (split sample 5) ≡ ok q) × SameRows q sample
unfolding batch_size
merge-split_example =
    merge-split listed-Laws sample 5 sample-IsConsistent (omega arith) (omega arith) plain_order
      (λ k ks. refl)

concat-split_example :
    (q : DataProto listed ℕ) × (concat (split sample 2) ≡ ok q) × SameRows q sample
unfolding batch_size
concat-split_example =
    concat-split listed-Laws sample 2 sample-IsConsistent (omega arith) (omega arith)

split-fair_example :
    (length (split sample 2) ≡ 2) × All (IsFairChunk (batch_size sample) 2) (split sample 2)
split-fair_example = split-fair listed-Laws sample 2 sample-IsConsistent (omega arith)

check_consistency_iff_example :
    (check_consistency sample ≡ ok tt → (sample.tensors ≡ []) ⊎ IsConsistent sample)
    × ((sample.tensors ≡ []) ⊎ IsConsistent sample → check_consistency sample ≡ ok tt)
check_consistency_iff_example = check_consistency_iff sample

concat-mini_batches_example :
    (bs : List (DataProto listed ℕ)) × (q : DataProto listed ℕ) × (mini_batches sample 2 ≡ ok bs)
    × (concat bs ≡ ok q)
    × SameRows q sample
    × All (λ b. batch_size b ≤ 2) bs
unfolding batch_size
concat-mini_batches_example =
    concat-mini_batches listed-Laws sample 2 sample-IsConsistent (omega arith) (omega arith)
