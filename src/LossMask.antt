-- ===== src/LossMask.antt =====
-- lumenrl/data/kimi_k25_parser.py: the run-length encoding of loss masks, `pack_loss_mask` and
-- `unpack_loss_mask` on a list of lengths. A mask is a 1-D tensor of numbers.
pub mod RoundTrip
use lumen_rl.Base.{
  ℕ, zero, suc, ◌+◌, ◌%◌, List, [], ◌∷◌, ◌==◌, if◌then◌else◌, true, false, replicate,
}

-- The loop over the mask: the value and the length of the current run.
unfoldable pub pack_runs : ℕ → ℕ → List ℕ → List ℕ
pack_runs current_val current_len [] = current_len ∷ []
pack_runs current_val current_len (val ∷ mask) = elim (val == current_val) [
  | true ↦ pack_runs current_val (current_len + 1) mask
  | false ↦ current_len ∷ pack_runs val 1 mask
]

unfoldable pub pack_loss_mask : List ℕ → List ℕ
unfolding pack_runs
pack_loss_mask [] = []
pack_loss_mask (val ∷ mask) = pack_runs 0 0 (val ∷ mask)

unfoldable pub sum : List ℕ → ℕ
sum [] = 0
sum (n ∷ ns) = n + sum ns

-- `loss_mask[pos : pos + length] = 1`.
unfoldable pub mark : ℕ → ℕ → List ℕ → List ℕ
mark zero zero mask = mask
mark zero (suc n) [] = []
mark zero (suc n) (x ∷ mask) = 1 ∷ mark zero n mask
mark (suc pos) n [] = []
mark (suc pos) n (x ∷ mask) = x ∷ mark pos n mask

-- The loop over the lengths, with its index and position.
unfoldable pub unpack_runs : ℕ → ℕ → List ℕ → List ℕ → List ℕ
unfolding mark
unpack_runs i pos [] mask = mask
unpack_runs i pos (n ∷ packed) mask =
    unpack_runs (suc i) (pos + n) packed (if i % 2 == 1 then mark pos n mask else mask)

unfoldable pub unpack_loss_mask : List ℕ → List ℕ
unfolding unpack_runs sum
unpack_loss_mask [] = []
unpack_loss_mask (n ∷ packed) = unpack_runs 0 0 (n ∷ packed) (replicate (sum (n ∷ packed)) 0)
