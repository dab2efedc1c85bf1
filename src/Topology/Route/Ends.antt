-- ===== src/Topology/Route/Ends.antt =====
-- src/core/topology.rs: the ends of the route that `gen_route` settles before its loop.
use mixnet.Base.{
  ℕ, suc, ◌+◌, ◌≤◌, ◌<◌, ◌≡◌, ◌≢◌, refl, Bool, true, false, List, [], ◌∷◌, Option, none, some,
  length, arith, inl, inr, eq-or-ne, List-cases, eq→==, ne→not-==, le→leb,
}
use mathlib.Core.Option.{none-ne-some, some-injective, some-ne-none}
use mixnet.Sphinx.{MixnodeIndex, max_hops}
use mixnet.Rng.{Rng, elem}
use mixnet.Topology.{LocalNode, mixnode, non_mixnode, no_connected_gateway_mixnodes}
use mixnet.Topology.UsedIndices
use mixnet.Topology.UsedIndices.{IsSorted}
use mixnet.Topology.Used.{length-insert_sorted, insert_sorted-IsSorted}
use mixnet.Topology.Gateways.{gateway-Chooses, gateway_none}
use mixnet.Topology.RouteGenerator.{RouteGenerator, choose_connected_gateway_index}
use mixnet.Topology.Route.Room.{IsLocal, AllBelow, IsTarget, IsKind, insert_sorted-AllBelow}
use mixnet.Topology.Route.Loop.{Returns}
use mixnet.Topology.Route.{
  RouteKind, to_mixnode, from_mixnode, loop, kind_indices, local_indices, special_index,
  first_index, fixed_hop, late_hop, min_hops,
}

-- At most so many indices of mixnodes, in order.
abbrev pub IsUsed : ℕ → ℕ → List MixnodeIndex → Type 0
IsUsed n m used = IsSorted used × AllBelow n used × (length used ≤ m)

insert-IsUsed :
    (n m i : ℕ) (used : List MixnodeIndex)
    → i < n
    → m ≤ max_hops
    → IsUsed n m used
    → (used' : List MixnodeIndex) × (UsedIndices.insert used i ≡ some used')
      × IsUsed n (suc m) used'
unfolding UsedIndices.insert
insert-IsUsed n m i used l h (s, b, few) =
    let longer = length-insert_sorted i used in
    (
      UsedIndices.insert_sorted used i,
      rw (le→leb (length (UsedIndices.insert_sorted used i)) (max_hops + 1) (omega (arith, longer)))
          refl,
      (insert_sorted-IsSorted i used s, insert_sorted-AllBelow n i used l b, omega (arith, longer)),
    )

abbrev pub bump : Bool → ℕ → ℕ
bump true m = suc m
bump false m = m

-- The given end of a route.
abbrev pub kind_count : RouteKind → ℕ
kind_count (to_mixnode i) = 1
kind_count (from_mixnode i) = 1
kind_count loop = 0

pub kind_indices-IsUsed :
    (n : ℕ) (kind : RouteKind)
    → IsKind n kind
    → (used : List MixnodeIndex) × (kind_indices kind ≡ some used) × IsUsed n (kind_count kind) used
unfolding kind_indices
kind_indices-IsUsed n (to_mixnode i) h =
    insert-IsUsed n 0 i [] h (omega arith) (tt, tt, omega arith)
kind_indices-IsUsed n (from_mixnode i) h =
    insert-IsUsed n 0 i [] h (omega arith) (tt, tt, omega arith)
kind_indices-IsUsed n loop h = ([], refl, (tt, tt, omega arith))

abbrev pub local_count : LocalNode → ℕ → ℕ
local_count (mixnode i) m = suc m
local_count (non_mixnode is) m = m

pub local_indices-IsUsed :
    (n m : ℕ) (local : LocalNode) (used : List MixnodeIndex)
    → IsLocal n local
    → m ≤ max_hops
    → IsUsed n m used
    → (used' : List MixnodeIndex) × (local_indices local used ≡ some used')
      × IsUsed n (local_count local m) used'
unfolding local_indices
local_indices-IsUsed n m (mixnode i) used h l u = insert-IsUsed n m i used h l u
local_indices-IsUsed n m (non_mixnode is) used h l u = (used, refl, u)

elem-AllBelow : (n i : ℕ) (xs : List ℕ) → AllBelow n xs → elem i xs ≡ true → i < n
elem-AllBelow n i [] b h = absurd (ground arith)
elem-AllBelow n i (x ∷ xs) b h = elim (eq-or-ne i x) [
  | inl e ↦ omega (arith, b.0, e)
  | inr d ↦ elem-AllBelow n i xs b.1 (rw (ne→not-== i x d) at h)
]

module _ (r : Rng) {X : Type 0} (g : RouteGenerator X) where
  -- A gateway, if one is needed, and then one more index in use.
  abbrev pub IsSpecial : ℕ → ℕ → Bool → Option MixnodeIndex × List MixnodeIndex → Type 0
  IsSpecial n m needed answer =
      IsTarget n answer.0 × IsUsed n (bump needed m) answer.1 × (answer.0 ≡ none → needed ≡ false)

  pub special_index-Returns :
      (n m : ℕ) (needed : Bool) (used : List MixnodeIndex) (s : r.State)
      → AllBelow n g.connected_gateway_indices
      → m ≤ max_hops
      → IsUsed n m used
      → Returns no_connected_gateway_mixnodes
          (IsSpecial n m needed)
          (special_index r g needed used s)
  unfolding special_index
  special_index-Returns n m false used s b l u = inr ((none, used), s, refl, (tt, u, λ e. refl))
  special_index-Returns n m true used s b l u = elim (List-cases g.connected_gateway_indices) [
    | inl nowhere ↦
        let answer = choose_connected_gateway_index r g s (first_index used) in
        let failed = gateway_none r g s (first_index used) nowhere in
        rw (failed, special_index) (inl (answer.1, refl))
    | inr (x, xs, some_there) ↦
        let (i, s', e, among) = gateway-Chooses r g s x xs (first_index used) some_there in
        let lt = elem-AllBelow n i g.connected_gateway_indices b among in
        let (used', inserted, u') = insert-IsUsed n m i used lt l u in
        rw (e, special_index, inserted, special_index)
          (inr ((some i, used'), s', refl, (lt, u', λ e. absurd (some-ne-none i e))))
  ]

late_hop_far : (left j : ℕ) (kind : RouteKind) → 2 ≤ left → late_hop left kind (some j) ≢ some none
late_hop_far left j kind h = elim (eq-or-ne left 2) [
  | inl e ↦ rw (eq→== left 2 e) (λ k. some-ne-none j (some-injective _ _ k))
  | inr d ↦ rw (ne→not-== left 2 d, ne→not-== left 1 (omega arith)) (λ k. none-ne-some none k)
]

pub fixed_hop_first :
    (left j : ℕ) (kind : RouteKind) (penultimate : Option MixnodeIndex)
    → fixed_hop 0 left kind (some j) penultimate ≢ some none
unfolding fixed_hop
fixed_hop_first left j kind penultimate k = some-ne-none j (some-injective _ _ k)

pub fixed_hop_far :
    (left j : ℕ) (kind : RouteKind) (first : Option MixnodeIndex)
    → 2 ≤ left
    → fixed_hop 0 left kind first (some j) ≢ some none
unfolding fixed_hop
fixed_hop_far left j kind none h k = late_hop_far left j kind h k
fixed_hop_far left j kind (some i) h k = fixed_hop_first left i kind (some j) k

pub min_hops_positive : (first penultimate : Option MixnodeIndex) → 0 < min_hops first penultimate
unfolding min_hops
min_hops_positive first penultimate = omega arith

pub min_hops_far : (first : Option MixnodeIndex) (j : ℕ) → 2 ≤ min_hops first (some j)
unfolding min_hops
min_hops_far first j = omega arith

pub min_hops-bounded : (first penultimate : Option MixnodeIndex) → min_hops first penultimate ≤ 4
unfolding min_hops
min_hops-bounded first penultimate = ground arith
