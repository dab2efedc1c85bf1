-- ===== src/Topology/Route/Room.antt =====
-- src/core/topology.rs: the targets and the used indices of `gen_route`.
use mixnet.Base.{
  le→leb, leb, ℕ, zero, suc, ◌+◌, ◌≤◌, ◌<◌, ◌≡◌, refl, List, [], ◌∷◌, Option, none, some, length,
  arith, inl, inr, eq-or-ne, eq→==, ne→not-==, Bool-cases, ◌==◌,
}
use mathlib.Core.Option.{none-ne-some, some-injective, some-ne-none}
use mixnet.Sphinx.{MixnodeIndex, max_hops}
use mixnet.Topology.{LocalNode, mixnode, non_mixnode}
use mixnet.Topology.UsedIndices
use mixnet.Topology.UsedIndices.{AllAbove, IsSorted}
use mixnet.Topology.Used.{insert_sorted-IsSorted, length-insert_sorted}
use mixnet.Topology.Route.{
  RouteKind, to_mixnode, from_mixnode, loop, fixed_hop, late_hop, last_target,
}

-- Every index is that of one of `n` mixnodes.
abbrev pub AllBelow : ℕ → List ℕ → Type 0
AllBelow n [] = Unit {0}
AllBelow n (x ∷ xs) = (x < n) × AllBelow n xs

-- There are no more different indices than mixnodes.
length-between :
    (b n : ℕ) (xs : List ℕ)
    → AllAbove b xs
    → IsSorted xs
    → AllBelow n xs
    → b < n
    → b + length xs < n
length-between b n [] a s h l = omega arith
length-between b n (x ∷ xs) a s h l = omega (arith, length-between x n xs s.0 s.1 h.1 h.0, a.0)

pub length-IsSorted : (n : ℕ) (xs : List ℕ) → IsSorted xs → AllBelow n xs → length xs ≤ n
length-IsSorted n [] s h = omega arith
length-IsSorted n (x ∷ xs) s h = omega (arith, length-between x n xs s.0 s.1 h.1 h.0)

-- A target that is a mixnode, or the local node.
abbrev pub IsTarget : ℕ → Option MixnodeIndex → Type 0
IsTarget n none = Unit {0}
IsTarget n (some i) = i < n

abbrev pub IsLocal : ℕ → LocalNode → Type 0
IsLocal n (mixnode i) = i < n
IsLocal n (non_mixnode is) = Unit {0}

-- What a hop is: a known target, or, before the last hop, one to choose.
abbrev pub IsHop : ℕ → ℕ → Option (Option MixnodeIndex) → Type 0
IsHop n left none = 2 ≤ left
IsHop n left (some index) = IsTarget n index

-- The end of the route that is no local node is a mixnode.
abbrev pub IsKind : ℕ → RouteKind → Type 0
IsKind n (to_mixnode i) = i < n
IsKind n (from_mixnode i) = i < n
IsKind n loop = Unit {0}

last_target-IsTarget : (n : ℕ) (kind : RouteKind) → IsKind n kind → IsTarget n (last_target kind)
last_target-IsTarget n (to_mixnode i) h = h
last_target-IsTarget n (from_mixnode i) h = tt
last_target-IsTarget n loop h = tt

late_hop-IsHop :
    (n left : ℕ) (kind : RouteKind) (penultimate : Option MixnodeIndex)
    → 0 < left
    → IsKind n kind
    → IsTarget n penultimate
    → IsHop n left (late_hop left kind penultimate)
late_hop-IsHop n left kind none l h p = elim (eq-or-ne left 1) [
  | inl e ↦ rw (eq→== left 1 e) (last_target-IsTarget n kind h)
  | inr e ↦ rw (ne→not-== left 1 e) (omega arith)
]
late_hop-IsHop n left kind (some j) l h p = elim (eq-or-ne left 2) [
  | inl e ↦ rw (eq→== left 2 e) p
  | inr e ↦ elim (eq-or-ne left 1) [
    | inl f ↦ rw (ne→not-== left 2 e, eq→== left 1 f) (last_target-IsTarget n kind h)
    | inr f ↦ rw (ne→not-== left 2 e, ne→not-== left 1 f) (omega arith)
  ]
]

pub fixed_hop-IsHop :
    (n i left : ℕ) (kind : RouteKind) (first penultimate : Option MixnodeIndex)
    → 0 < left
    → IsKind n kind
    → IsTarget n first
    → IsTarget n penultimate
    → IsHop n left (fixed_hop i left kind first penultimate)
unfolding fixed_hop
fixed_hop-IsHop n zero left kind none penultimate l h f p =
    late_hop-IsHop n left kind penultimate l h p
fixed_hop-IsHop n zero left kind (some j) penultimate l h f p = f
fixed_hop-IsHop n (suc i) left kind first penultimate l h f p =
    late_hop-IsHop n left kind penultimate l h p

late_hop_local :
    (left : ℕ) (kind : RouteKind) (penultimate : Option MixnodeIndex)
    → late_hop left kind penultimate ≡ some none
    → left ≡ 1
late_hop_local left kind none h = elim (eq-or-ne left 1) [
  | inl e ↦ e
  | inr d ↦ absurd (none-ne-some none (rw (ne→not-== left 1 d) at h))
]
late_hop_local left kind (some j) h = elim (eq-or-ne left 2) [
  | inl e ↦ absurd (some-ne-none j (some-injective _ _ (rw (eq→== left 2 e) at h)))
  | inr d ↦ elim (eq-or-ne left 1) [
    | inl e ↦ e
    | inr d' ↦ absurd (none-ne-some none (rw (ne→not-== left 2 d, ne→not-== left 1 d') at h))
  ]
]

-- After the first hop, only the last may go to the local node.
pub fixed_hop_local :
    (i left : ℕ) (kind : RouteKind) (first penultimate : Option MixnodeIndex)
    → fixed_hop (suc i) left kind first penultimate ≡ some none
    → left ≡ 1
unfolding fixed_hop
fixed_hop_local i left kind first penultimate h = late_hop_local left kind penultimate h

-- The used indices with so many hops to go: all but the last may add one.
abbrev pub HasRoom : ℕ → ℕ → List MixnodeIndex → Type 0
HasRoom n left used = IsSorted used × AllBelow n used × (length used + left ≤ max_hops + 2)

pub HasRoom-next :
    (n left : ℕ) (used : List MixnodeIndex) → HasRoom n (suc left) used → HasRoom n left used
HasRoom-next n left used (s, b, l) = (s, b, omega arith)

pub insert_sorted-AllBelow :
    (n i : ℕ) (xs : List ℕ) → i < n → AllBelow n xs → AllBelow n (UsedIndices.insert_sorted xs i)
unfolding UsedIndices.insert_sorted
insert_sorted-AllBelow n i [] l h = (l, tt)
insert_sorted-AllBelow n i (x ∷ xs) l h = elim (Bool-cases (leb i x)) [
  | inr after ↦ rw (after, UsedIndices.insert_sorted) (h.0, insert_sorted-AllBelow n i xs l h.1)
  | inl before ↦ elim (Bool-cases (x == i)) [
    | inl same ↦ rw (before, UsedIndices.insert_sorted, same, UsedIndices.insert_sorted) h
    | inr other ↦ rw (before, UsedIndices.insert_sorted, other, UsedIndices.insert_sorted) (l, h)
  ]
]

-- One more index in use.
pub insert-HasRoom :
    (n left : ℕ) (used : List MixnodeIndex) (i : ℕ)
    → i < n
    → IsSorted used
    → AllBelow n used
    → length used ≤ max_hops
    → length used + left ≤ max_hops + 1
    → (used' : List MixnodeIndex) × (UsedIndices.insert used i ≡ some used') × HasRoom n left used'
unfolding UsedIndices.insert
insert-HasRoom n left used i l s b few room =
    let longer = length-insert_sorted i used in
    (
      UsedIndices.insert_sorted used i,
      rw (le→leb (length (UsedIndices.insert_sorted used i)) (max_hops + 1) (omega (arith, longer)))
          refl,
      (insert_sorted-IsSorted i used s, insert_sorted-AllBelow n i used l b, omega (arith, longer)),
    )
