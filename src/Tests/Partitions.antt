-- ===== src/Tests/Partitions.antt =====
-- Four sequences in two parts.
use lumen_rl.Base.{ℕ, ◌≡◌, refl, List, [], ◌∷◌, arith, true, false, ok}
use lumen_rl.Balance.{
  get_seqlen_balanced_partitions, karmarkar_karp, push_all, push_singles, push_blocks, sorted_items,
  pair_lt, make_state, push, state_lt, set_lt, merge_state, partitions,
}
use lumen_rl.Balance.Partition.{IsPartition, karmarkar_karp-IsPartition}
use lumen_rl.Balance.Checked.{balanced_partitions-IsPartition}

abbrev lengths : List ℕ
lengths = 7 ∷ 2 ∷ 5 ∷ 4 ∷ []

abbrev odd : List ℕ
odd = 7 ∷ 2 ∷ 5 ∷ []

karmarkar_karp-odd : karmarkar_karp odd 2 false ≡ ok ((2 ∷ 1 ∷ []) ∷ (0 ∷ []) ∷ [])
unfolding karmarkar_karp push_all push_singles sorted_items pair_lt make_state push state_lt set_lt
    merge_state partitions
karmarkar_karp-odd = refl

balanced-lengths :
    get_seqlen_balanced_partitions lengths 2 true ≡ ok ((2 ∷ 3 ∷ []) ∷ (0 ∷ 1 ∷ []) ∷ [])
unfolding get_seqlen_balanced_partitions karmarkar_karp push_all sorted_items pair_lt push_blocks
    make_state push state_lt set_lt partitions merge_state
balanced-lengths = refl

karmarkar_karp-IsPartition_example :
    (parts : List (List ℕ)) × (karmarkar_karp odd 2 false ≡ ok parts) × IsPartition 3 2 false parts
karmarkar_karp-IsPartition_example =
    karmarkar_karp-IsPartition odd 2 false (omega arith) (omega arith) (λ e. absurd (cc))

balanced_partitions-IsPartition_example :
    (out : List (List ℕ)) × (get_seqlen_balanced_partitions lengths 2 true ≡ ok out)
    × IsPartition 4 2 true out
balanced_partitions-IsPartition_example =
    balanced_partitions-IsPartition lengths 2 (omega arith) (omega arith) (omega arith)
