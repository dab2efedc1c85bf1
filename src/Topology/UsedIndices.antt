-- ===== src/Topology/UsedIndices.antt =====
-- src/core/topology.rs: `UsedIndices`, an array of at most `MAX_HOPS + 1` indices in order. `none` is
-- a panic.
use mixnet.Base.{ℕ, ◌+◌, ◌<◌, List, [], ◌∷◌, Option, none, some, leb, ◌==◌, if◌then◌else◌, length}
use mixnet.Sphinx.{max_hops}

-- Where the first index is that is not below the new one.
unfoldable pub insert_sorted : List ℕ → ℕ → List ℕ
insert_sorted [] index = index ∷ []
insert_sorted (used ∷ indices) index =
    let rest = insert_sorted indices index in
    if leb index used
    then (if used == index then used ∷ indices else index ∷ used ∷ indices)
    else used ∷ rest

-- The array panics when it has no room for the new index.
unfoldable pub insert : List ℕ → ℕ → Option (List ℕ)
unfolding insert_sorted
insert indices index =
    let inserted = insert_sorted indices index in
    if leb (length inserted) (max_hops + 1) then some inserted else none

-- Above a bound and in strictly rising order.
abbrev pub AllAbove : ℕ → List ℕ → Type 0
AllAbove b [] = Unit {0}
AllAbove b (x ∷ xs) = (b < x) × AllAbove b xs

abbrev pub IsSorted : List ℕ → Type 0
IsSorted [] = Unit {0}
IsSorted (x ∷ xs) = AllAbove x xs × IsSorted xs
