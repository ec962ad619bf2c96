-- ===== src/Tests/Repeats.antt =====
-- A batch of three rows: repeated twice, one batch after the other, and padded to five.
use lumen_rl.Base.{◌+◌, ◌<◌, ◌%◌, arith, ℕ, ◌*◌, ◌≡◌, false, inr, ok}
use lumen_rl.Torch.Listed.{listed, listed-Laws}
use lumen_rl.Proto.{DataProto, batch_size}
use lumen_rl.Proto.Repeat.{repeat, repeat_order}
use lumen_rl.Proto.Pad.{pad_to_divisor, unpad}
use lumen_rl.Proto.View.{SameRows}
use lumen_rl.Proto.Padded.{unpad-pad_to_divisor}
use lumen_rl.Proto.Repeated.{Alike, Copies, repeat-order}
use lumen_rl.Tests.Samples.{positive_dims, sample, sample-IsConsistent}

repeat-order_example :
    (q : DataProto listed ℕ) × (repeat sample 2 false ≡ ok q)
    × (batch_size q ≡ 2 * batch_size sample)
    × (q.meta ≡ sample.meta)
    × Alike
        (λ t u. Copies 2 (repeat_order false (batch_size sample) 2) t.rows u.rows)
        sample.tensors
        q.tensors
    × Alike (Copies 2 (repeat_order false (batch_size sample) 2)) sample.ragged q.ragged
repeat-order_example =
    repeat-order listed-Laws sample 1 false sample-IsConsistent (inr positive_dims)

unpad-pad_to_divisor_example :
    (q : DataProto listed ℕ) × (pad : ℕ) × (s : DataProto listed ℕ) × (pad_to_divisor sample 5
      ≡ ok (q, pad))
    × (pad < 5)
    × (batch_size q ≡ batch_size sample + pad)
    × (batch_size q % 5 ≡ 0)
    × (unpad q pad ≡ ok s)
    × SameRows s sample
unfolding batch_size
unpad-pad_to_divisor_example =
    unpad-pad_to_divisor listed-Laws sample 5 sample-IsConsistent (omega arith) (omega arith)
