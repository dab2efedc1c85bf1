-- ===== src/Topology/Route/Returns.antt =====
-- src/core/topology.rs: `gen_route` as a whole.
use mixnet.Base.{
  AllOf, ◌≢◌, ℕ, zero, suc, ◌+◌, ◌≤◌, ◌<◌, ◌≡◌, ◌⊎◌, refl, max, Bool, true, false, List, [], Option,
  none, some, ok, err, length, arith, inl, inr,
}
use mathlib.Core.Bool.{true≢false}
use mixnet.Sphinx.{MixnodeIndex, max_hops, max_mixnode_index}
use mixnet.Rng.{Rng}
use mixnet.Topology.{
  LocalNode, mixnode, non_mixnode, TopologyErr, too_few_mixnodes, no_connected_gateway_mixnodes,
}
use mixnet.Topology.RouteGenerator.{RouteGenerator}
use mixnet.Topology.Route.Room.{IsLocal, AllBelow, IsTarget, IsKind}
use mixnet.Sphinx.Onion.{count_peer_ids}
use mixnet.Topology.Route.Hops.{IsRouteTarget}
use mixnet.Topology.Route.Loop.{Starts, gen_all-Returns}
use mixnet.Topology.Route.Ends.{
  IsUsed, bump, kind_count, local_count, kind_indices-IsUsed, local_indices-IsUsed,
  special_index-Returns, fixed_hop_first, fixed_hop_far, min_hops_positive, min_hops_far,
  min_hops-bounded,
}
use mixnet.Topology.Route.{
  and_then, fixed_hop, RouteKind, to_mixnode, from_mixnode, loop, Route, Step, from_local, to_local,
  needs_gateway, min_hops, gen_hops, gen_route, hop_index, first_of,
}

-- What the indices in use come to.
ends_few :
    (local : LocalNode) (kind : RouteKind)
    → bump
        (needs_gateway local (to_local kind))
        (bump (needs_gateway local (from_local kind)) (local_count local (kind_count kind)))
      ≤ 2
ends_few (mixnode i) (to_mixnode j) = omega arith
ends_few (mixnode i) (from_mixnode j) = omega arith
ends_few (mixnode i) loop = omega arith
ends_few (non_mixnode is) (to_mixnode j) = omega arith
ends_few (non_mixnode is) (from_mixnode j) = omega arith
ends_few (non_mixnode is) loop = omega arith

bump_grows : (b : Bool) (m : ℕ) → m ≤ bump b m
bump_grows true m = omega arith
bump_grows false m = omega arith

local_count_grows : (local : LocalNode) (m : ℕ) → m ≤ local_count local m
local_count_grows (mixnode i) m = omega arith
local_count_grows (non_mixnode is) m = omega arith

-- An empty route.
abbrev pub no_hops : Route
no_hops = record { first_hop = none; targets = []; their_kx_publics = [] }

module _ (r : Rng) {X : Type 0} (g : RouteGenerator X) where
  abbrev pub n : ℕ
  n = length g.topology.mixnodes

  non_mixnode_starts :
      (is : List MixnodeIndex) (left : ℕ) (kind : RouteKind) (first last : Option MixnodeIndex)
      → min_hops first last ≤ left
      → (first ≡ none → needs_gateway (non_mixnode is) (from_local kind) ≡ false)
      → (last ≡ none → needs_gateway (non_mixnode is) (to_local kind) ≡ false)
      → fixed_hop 0 left kind first last ≢ some none
  non_mixnode_starts is left kind (some j) last l f p = fixed_hop_first left j kind last
  non_mixnode_starts is left kind none (some j) l f p =
      fixed_hop_far left j kind none (omega (arith, min_hops_far none j))
  non_mixnode_starts is left (to_mixnode i) none none l f p = absurd (true≢false (f refl))
  non_mixnode_starts is left (from_mixnode i) none none l f p = absurd (true≢false (p refl))
  non_mixnode_starts is left loop none none l f p = absurd (true≢false (f refl))

  -- The first hop goes to a mixnode.
  starts_lem :
      (local : LocalNode) (left : ℕ) (kind : RouteKind) (first last : Option MixnodeIndex)
      → g.topology.local_node ≡ local
      → IsLocal n local
      → min_hops first last ≤ left
      → (first ≡ none → needs_gateway local (from_local kind) ≡ false)
      → (last ≡ none → needs_gateway local (to_local kind) ≡ false)
      → Starts r g left kind first last
  unfolding hop_index
  starts_lem (mixnode i) left kind first last e h l f p = inl (i, rw (e, hop_index) refl, h)
  starts_lem (non_mixnode is) left kind first last e h l f p =
      inr (non_mixnode_starts is left kind first last l f p)

  -- The answers of `gen_route`, for a route of at least so many hops.
  abbrev pub IsRouteAnswer : ℕ → Step r.State (MixnodeIndex × Route) → Type 0
  IsRouteAnswer num_hops step =
      ((e : TopologyErr) × (s' : r.State) × (step ≡ some (err e, s'))
        × ((e ≡ too_few_mixnodes) ⊎ (e ≡ no_connected_gateway_mixnodes)))
      ⊎ ((index : MixnodeIndex) × (route : Route) × (s' : r.State) × (step
            ≡ some (ok (index, route), s'))
          × (index < n)
          × AllOf (IsRouteTarget n g.local_peer_id) route.targets
          × (count_peer_ids route.targets ≤ 1)
          × (length route.their_kx_publics ≡ suc (length route.targets))
          × (num_hops ≤ length route.their_kx_publics)
          × (length route.their_kx_publics ≤ max_hops))

  loop_answer :
      (hops num_hops : ℕ) (kind : RouteKind) (first last : Option MixnodeIndex)
      (used : List MixnodeIndex) (s : r.State)
      → n ≤ max_mixnode_index + 1
      → 0 < hops
      → num_hops ≤ hops
      → hops ≤ max_hops
      → IsKind n kind
      → IsTarget n first
      → IsTarget n last
      → IsUsed n 2 used
      → IsLocal n g.topology.local_node
      → Starts r g hops kind first last
      → IsRouteAnswer num_hops
          (and_then (gen_hops r hops 0 g kind (first, last) used no_hops s) first_of)
  unfolding first_of
  loop_answer zero num_hops kind first last used s few some_hop l short k f p u here starts =
      absurd (omega arith)
  loop_answer (suc left) num_hops kind first last used s few some_hop l short k f p u here starts =
      elim (gen_all-Returns r g left kind first last used no_hops s few short k f p
        (u.0, u.1, omega (arith, u.2)) here
        (record {
          kx_publics = refl;
          targets = refl;
          first = tt;
          valid = tt;
          peer_ids = omega arith;
        })
        starts) [
          | inl (s', e) ↦ rw (e, first_of) (inl (too_few_mixnodes, s', refl, inl refl))
          | inr (route, s', e, v) ↦
              let (j, known, lt) = v.first in
              rw (e, first_of, known, first_of)
                (inr (
                  j,
                  route,
                  s',
                  refl,
                  lt,
                  v.valid,
                  v.peer_ids,
                  omega (arith, v.kx_publics, v.targets),
                  omega (arith, v.kx_publics),
                  omega (arith, v.kx_publics),
                ))
        ]

  -- If there are at most 65280 mixnodes, the indices of the local node, of the connected gateways and
  -- of the given end of the route are those of mixnodes, and at most `MAX_HOPS` hops are asked for,
  -- then `gen_route` does not panic. It fails for a lack of mixnodes or of gateways, or it returns the
  -- index of a mixnode for the first hop, and a key for each hop and a target for each hop but the
  -- first, for at least as many hops as were asked for and at most `MAX_HOPS`; the targets are
  -- mixnodes of the topology or the local peer id, which is at most one of them.
  pub gen_route-Returns :
      (s : r.State) (kind : RouteKind) (num_hops : ℕ)
      → n ≤ max_mixnode_index + 1
      → IsLocal n g.topology.local_node
      → AllBelow n g.connected_gateway_indices
      → IsKind n kind
      → num_hops ≤ max_hops
      → IsRouteAnswer num_hops (gen_route r g [] [] s kind num_hops)
  unfolding gen_route
  gen_route-Returns s kind num_hops few here gateways end short =
      let local = g.topology.local_node in
      let first_needed = needs_gateway local (from_local kind) in
      let last_needed = needs_gateway local (to_local kind) in
      let m = kind_count kind in
      let m₁ = local_count local m in
      let m₂ = bump first_needed m₁ in
      let at_most = ends_few local kind in
      let grows = local_count_grows local m in
      let grows₁ = bump_grows first_needed m₁ in
      let grows₂ = bump_grows last_needed m₂ in
      let (used₀, e₀, u₀) = kind_indices-IsUsed n kind end in
      let (used₁, e₁, u₁) =
        local_indices-IsUsed n m local used₀ here (omega (arith, at_most, grows, grows₁, grows₂))
          u₀ in
      rw (e₀, gen_route, e₁, gen_route)
        (elim (special_index-Returns r g n m₁ first_needed used₁ s gateways
          (omega (arith, at_most, grows₁, grows₂)) u₁) [
            | inl (s₁, e) ↦
                rw (e, gen_route) (inl (no_connected_gateway_mixnodes, s₁, refl, inr refl))
            | inr (first, s₁, e₂, (f, u₂, some_first)) ↦
                rw (e₂, gen_route)
                  (elim (special_index-Returns r g n m₂ last_needed first.1 s₁ gateways
                    (omega (arith, at_most, grows₂)) u₂) [
                      | inl (s₂, e) ↦
                          rw (e, gen_route)
                            (inl (no_connected_gateway_mixnodes, s₂, refl, inr refl))
                      | inr (last, s₂, e₃, (p, u₃, some_last)) ↦
                          let hops = max num_hops (min_hops first.0 last.0) in
                          let least = min_hops_positive first.0 last.0 in
                          let most = min_hops-bounded first.0 last.0 in
                          rw (e₃, gen_route)
                            (loop_answer hops num_hops kind first.0 last.0 last.1 s₂ few
                              (omega (arith, least)) (omega arith) (omega (arith, most)) end f p
                              (u₃.0, u₃.1, omega (arith, at_most, u₃.2)) here
                              (starts_lem local hops kind first.0 last.0 refl here (omega arith)
                                some_first some_last))
                    ])
          ])
