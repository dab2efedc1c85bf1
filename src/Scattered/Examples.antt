-- ===== src/Scattered/Examples.antt =====
-- Runs of the code of src/core/scattered.rs.
use mixnet.Base.{ℕ, [], ◌∷◌, List, arith}
use mixnet.Scattered.{of_slices, sum_lengths, split_at}
use mixnet.Scattered.Contents.{of_slices_lem}
use mixnet.Scattered.Split.{Cuts, split_at-Cuts}

abbrev three_slices : List (List ℕ)
three_slices = (1 ∷ 2 ∷ []) ∷ [] ∷ (3 ∷ 4 ∷ 5 ∷ []) ∷ []

-- A cut in the middle of the third slice.
split_at-Cuts_example : Cuts (of_slices three_slices) 3 (split_at (of_slices three_slices) 3)
unfolding of_slices sum_lengths
split_at-Cuts_example =
    split_at-Cuts (of_slices three_slices) 3 (of_slices_lem three_slices).0 (omega arith)
