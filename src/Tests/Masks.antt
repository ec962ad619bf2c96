-- ===== src/Tests/Masks.antt =====
-- Packed loss masks.
use lumen_rl.Base.{ℕ, ◌≡◌, refl, List, [], ◌∷◌, arith}
use lumen_rl.LossMask.{pack_loss_mask, unpack_loss_mask, sum}
use lumen_rl.LossMask.RoundTrip.{unpack-pack, pack-unpack}

-- The example in the documentation of `pack_loss_mask`.
abbrev documented : List ℕ
documented = 0 ∷ 0 ∷ 1 ∷ 1 ∷ 1 ∷ 0 ∷ 0 ∷ 1 ∷ 1 ∷ 0 ∷ []

abbrev lengths : List ℕ
lengths = 2 ∷ 3 ∷ 2 ∷ 2 ∷ 1 ∷ []

pack-documented : pack_loss_mask documented ≡ lengths
unfolding pack_loss_mask
pack-documented = refl

unpack-documented : unpack_loss_mask lengths ≡ documented
unfolding unpack_loss_mask
unpack-documented = refl

unpack-pack_example : unpack_loss_mask (pack_loss_mask documented) ≡ documented
unpack-pack_example = unpack-pack documented (omega arith)

pack-unpack_example : pack_loss_mask (unpack_loss_mask lengths) ≡ lengths
unfolding sum
pack-unpack_example = pack-unpack lengths (omega arith) (omega arith)
