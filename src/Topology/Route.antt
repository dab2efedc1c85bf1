-- ===== src/Topology/Route.antt =====
-- src/core/topology.rs: `gen_route`. `none` is a panic, which includes a push to a full array.
pub mod Room
pub mod Hops
pub mod Loop
pub mod Ends
pub mod Returns
use mixnet.Base.{
  ℕ, zero, suc, ◌+◌, ◌-◌, max, Bool, true, false, List, [], ◌∷◌, ◌++◌, Option, none, some, Result,
  ok, err, ltb, ◌==◌, if◌then◌else◌, length, get_elem?, ◌>>=◌,
}
use mixnet.Sphinx.{MixnodeIndex, KxPublic, Target, mixnode_index, peer_id, max_hops}
use mixnet.Rng.{Rng}
use mixnet.Topology.{LocalNode, mixnode, non_mixnode, TopologyErr}
use mixnet.Topology.UsedIndices
use mixnet.Topology.RouteGenerator.{
  RouteGenerator, choose_mixnode_index, choose_connected_gateway_index,
}

pub data RouteKind : Type 0 where
  to_mixnode from_mixnode : MixnodeIndex → RouteKind
  loop : RouteKind

abbrev pub from_local : RouteKind → Bool
from_local (to_mixnode i) = true
from_local (from_mixnode i) = false
from_local loop = true

abbrev pub to_local : RouteKind → Bool
to_local (to_mixnode i) = false
to_local (from_mixnode i) = true
to_local loop = true

-- The indices in use before any is chosen: the given end, and the local mixnode.
pub kind_indices : RouteKind → Option (List MixnodeIndex)
kind_indices (to_mixnode i) = UsedIndices.insert [] i
kind_indices (from_mixnode i) = UsedIndices.insert [] i
kind_indices loop = some []

pub local_indices : LocalNode → List MixnodeIndex → Option (List MixnodeIndex)
local_indices (mixnode i) used = UsedIndices.insert used i
local_indices (non_mixnode is) used = some used

-- `UsedIndices::as_option`.
abbrev pub first_index : List MixnodeIndex → Option MixnodeIndex
first_index [] = none
first_index (i ∷ is) = some i

abbrev pub needs_gateway : LocalNode → Bool → Bool
needs_gateway (mixnode i) b = false
needs_gateway (non_mixnode is) b = b

abbrev pub hops_for : Option MixnodeIndex → ℕ
hops_for none = 0
hops_for (some i) = 1

-- An intermediate hop stands between two visits of one gateway.
abbrev pub hops_between : Option MixnodeIndex → Option MixnodeIndex → ℕ
hops_between (some i) (some j) = if i == j then 1 else 0
hops_between none j = 0
hops_between (some i) none = 0

unfoldable pub min_hops : Option MixnodeIndex → Option MixnodeIndex → ℕ
min_hops first penultimate =
    hops_for first + hops_between first penultimate + hops_for penultimate + 1

-- Where a hop goes without a random choice, if it does: `some none` is the local node. Of the
-- hops, `left` are left, with this one.
abbrev pub last_target : RouteKind → Option MixnodeIndex
last_target (to_mixnode i) = some i
last_target (from_mixnode i) = none
last_target loop = none

abbrev pub late_hop : ℕ → RouteKind → Option MixnodeIndex → Option (Option MixnodeIndex)
late_hop left kind (some index) =
    if left == 2 then some (some index) else (if left == 1 then some (last_target kind) else none)
late_hop left kind none = if left == 1 then some (last_target kind) else none

unfoldable pub fixed_hop :
    (i left : ℕ)
    → RouteKind
    → Option MixnodeIndex
    → Option MixnodeIndex
    → Option (Option MixnodeIndex)
fixed_hop zero left kind (some index) penultimate = some (some index)
fixed_hop zero left kind none penultimate = late_hop left kind penultimate
fixed_hop (suc i) left kind first penultimate = late_hop left kind penultimate

-- What a route is so far: the answer and the arrays that the caller hands over.
pub record Route : Type 0 where
  pub first_hop : Option MixnodeIndex
  pub targets : List Target
  pub their_kx_publics : List KxPublic

-- A push to an array of the given capacity.
abbrev pub push_within : {A : Type 0} → ℕ → List A → A → Option (List A)
push_within capacity xs x = if ltb (length xs) capacity then some (xs ++ x ∷ []) else none

-- The local node goes by its index if it is a mixnode.
pub hop_index : LocalNode → Option MixnodeIndex → Option MixnodeIndex
hop_index local (some index) = some index
hop_index (mixnode local_index) none = some local_index
hop_index (non_mixnode is) none = none

module _ {X : Type 0} where
  pub hop_kx_public : RouteGenerator X → Option MixnodeIndex → Option KxPublic
  hop_kx_public g none = some g.topology.local_kx_public
  hop_kx_public g (some index) = do node ← get_elem? g.topology.mixnodes index; some node.kx_public

  pub hop_target : RouteGenerator X → Option MixnodeIndex → Target
  hop_target g none = peer_id g.local_peer_id
  hop_target g (some index) = mixnode_index index

  -- What a hop adds to the arrays; the first one is returned, and is no target.
  pub push_hop : RouteGenerator X → ℕ → Option MixnodeIndex → Route → Option Route
  unfolding hop_kx_public hop_index hop_target
  push_hop g i index route = do
    kx_public ← hop_kx_public g index
    kx_publics ← push_within max_hops route.their_kx_publics kx_public
    let target_index = hop_index g.topology.local_node index
    if i == 0
        then some (record route { first_hop = target_index; their_kx_publics = kx_publics })
        else (do
          targets ← push_within (max_hops - 1) route.targets (hop_target g target_index)
          some (record route { targets = targets; their_kx_publics = kx_publics }))

-- A step that may panic or fail, with the state of the random generator.
abbrev pub Step : Type 0 → Type 0 → Type 0
Step S A = Option (Result A TopologyErr × S)

-- The rest of the code after a step with `?`.
abbrev pub and_then : {S A B : Type 0} → Step S A → (A → S → Step S B) → Step S B
and_then none rest = none
and_then (some (err e, s)) rest = some (err e, s)
and_then (some (ok a, s)) rest = rest a s

pub first_of : {S : Type 0} → Route → S → Step S (MixnodeIndex × Route)
first_of route s = elim (route.first_hop) [ none ↦ none | some index ↦ some (ok (index, route), s) ]

module _ (r : Rng) {X : Type 0} where
  -- A gateway for an end of the route at a local node that is no mixnode.
  pub special_index :
      RouteGenerator X
      → Bool
      → List MixnodeIndex
      → r.State
      → Step r.State (Option MixnodeIndex × List MixnodeIndex)
  special_index g needed used s =
      if needed
      then (and_then (some (choose_connected_gateway_index r g s (first_index used)))
          (λ index s'. do used' ← UsedIndices.insert used index; some (ok (some index, used'), s')))
      else some (ok (none, used), s)

  -- The target of a hop, and the indices in use after it.
  pub choose_hop :
      RouteGenerator X
      → List MixnodeIndex
      → r.State
      → Option (Option MixnodeIndex)
      → Step r.State (Option MixnodeIndex × List MixnodeIndex)
  choose_hop g used s (some index) = some (ok (index, used), s)
  choose_hop g used s none =
      and_then (choose_mixnode_index r g s used)
        (λ index s'. do used' ← UsedIndices.insert used index; some (ok (some index, used'), s'))

  -- The loop: `left` hops are left, and the next one has number `i`.
  pub gen_hops :
      (left i : ℕ)
      → RouteGenerator X
      → RouteKind
      → Option MixnodeIndex × Option MixnodeIndex
      → List MixnodeIndex
      → Route
      → r.State
      → Step r.State Route
  gen_hops zero i g kind special used route s = some (ok route, s)
  gen_hops (suc left) i g kind special used route s =
      and_then (choose_hop g used s (fixed_hop i (suc left) kind special.0 special.1)) (λ hop s'. do
        route' ← push_hop g i hop.0 route
        gen_hops left (i + 1) g kind special hop.1 route' s')

  -- The index of the first hop, with the route, whose arrays grew.
  unfoldable pub gen_route :
      RouteGenerator X
      → List Target
      → List KxPublic
      → r.State
      → RouteKind
      → ℕ
      → Step r.State (MixnodeIndex × Route)
  unfolding kind_indices local_indices special_index gen_hops choose_hop push_hop first_of
  gen_route g targets their_kx_publics s kind num_hops = do
    used₀ ← kind_indices kind
    used₁ ← local_indices g.topology.local_node used₀
    let local = g.topology.local_node
    and_then (special_index g (needs_gateway local (from_local kind)) used₁ s) (λ first s₁.
        and_then (special_index g (needs_gateway local (to_local kind)) first.1 s₁) (λ last s₂.
          and_then
            (gen_hops (max num_hops (min_hops first.0 last.0)) 0 g kind (first.0, last.0) last.1
              (record { first_hop = none; targets = targets; their_kx_publics = their_kx_publics })
              s₂)
            first_of))
