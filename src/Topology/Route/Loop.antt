-- ===== src/Topology/Route/Loop.antt =====
-- src/core/topology.rs: the loop of `gen_route`.
use mixnet.Base.{
  ◌≢◌, ℕ, zero, suc, ◌+◌, ◌≤◌, ◌<◌, ◌≡◌, ◌⊎◌, refl, ap, subst, List, Option, none, some, ok, err,
  length, arith, inl, inr, lt-or-le,
}
use mathlib.Core.Option.{some-ne-none}
use mixnet.Sphinx.{MixnodeIndex, max_hops, max_mixnode_index}
use mixnet.Rng.{Rng}
use mixnet.Topology.{TopologyErr, too_few_mixnodes}
use mixnet.Topology.Choice.{choose_mixnode_index_lem, choose_mixnode_index_full}
use mixnet.Topology.RouteGenerator.{RouteGenerator}
use mixnet.Topology.Route.Room.{
  IsLocal, fixed_hop_local, IsTarget, IsHop, IsKind, HasRoom, HasRoom-next, fixed_hop-IsHop,
  insert-HasRoom, length-IsSorted,
}
use mixnet.Topology.Route.Hops.{IsRoute, push_first-IsRoute, push_next-IsRoute}
use mixnet.Topology.Route.{RouteKind, Route, Step, hop_index, choose_hop, gen_hops, fixed_hop}

-- The step does not panic: it fails with the error, or its answer has the property.
abbrev pub Returns : {S A : Type 0} → TopologyErr → (A → Type 0) → Step S A → Type 0
Returns {S} {A} e P step =
    ((s : S) × (step ≡ some (err e, s))) ⊎ ((a : A) × (s : S) × (step ≡ some (ok a, s)) × P a)

module _ (r : Rng) {X : Type 0} (g : RouteGenerator X) where
  abbrev n : ℕ
  n = length g.topology.mixnodes

  -- A target of the hop, with room for the hops that are left; the local node is never chosen.
  abbrev pub IsAnswer :
      ℕ → Option (Option MixnodeIndex) → Option MixnodeIndex × List MixnodeIndex → Type 0
  IsAnswer left hop answer =
      IsTarget n answer.0 × HasRoom n left answer.1 × (answer.0 ≡ none → hop ≡ some none)

  choose_hop-Returns :
      (left : ℕ) (used : List MixnodeIndex) (s : r.State) (hop : Option (Option MixnodeIndex))
      → n ≤ max_mixnode_index + 1
      → HasRoom n (suc left) used
      → IsHop n (suc left) hop
      → Returns too_few_mixnodes (IsAnswer left hop) (choose_hop r g used s hop)
  unfolding choose_hop
  choose_hop-Returns left used s (some index) few room h =
      inr ((index, used), s, refl, (h, HasRoom-next n left used room, λ e. ap some e))
  choose_hop-Returns left used s none few (sorted, below, l) h =
      elim (lt-or-le n (length used + 1)) [
        | inr fits ↦
            let (i, s', e, lt, new) =
              choose_mixnode_index_lem r g s used few sorted (omega arith) in
            let (used', inserted, room') =
              insert-HasRoom n left used i lt sorted below (omega arith) (omega arith) in
            rw (e, choose_hop, inserted, choose_hop)
              (inr ((some i, used'), s', refl, (lt, room', λ e. absurd (some-ne-none i e))))
        | inl full ↦
            let all = length-IsSorted n used sorted below in
            rw (choose_mixnode_index_full r g s used (omega (arith, all)), choose_hop)
              (inl (s, refl))
      ]

  only_last : {left : ℕ} → suc left ≡ 1 → left ≡ 0
  only_last e = omega arith

  -- After the first hop.
  gen_more-Returns :
      (left i : ℕ) (kind : RouteKind) (first penultimate : Option MixnodeIndex)
      (used : List MixnodeIndex) (route : Route) (s : r.State)
      → n ≤ max_mixnode_index + 1
      → suc i + left ≤ max_hops
      → IsKind n kind
      → IsTarget n first
      → IsTarget n penultimate
      → HasRoom n left used
      → IsLocal n g.topology.local_node
      → IsRoute n g.local_peer_id left (suc i) route
      → Returns too_few_mixnodes
          (IsRoute n g.local_peer_id 0 (suc i + left))
          (gen_hops r left (suc i) g kind (first, penultimate) used route s)
  unfolding gen_hops
  gen_more-Returns zero i kind first penultimate used route s few l k f p room here v =
      inr (route, s, refl, subst (λ m. IsRoute n g.local_peer_id 0 m route) (omega arith) v)
  gen_more-Returns (suc left) i kind first penultimate used route s few l k f p room here v =
      elim (choose_hop-Returns left used s (fixed_hop (suc i) (suc left) kind first penultimate) few
        room (fixed_hop-IsHop n (suc i) (suc left) kind first penultimate (omega arith) k f p)) [
          | inl (s', e) ↦ rw (e, gen_hops) (inl (s', refl))
          | inr (answer, s', e, (target, room', local)) ↦
              let (route', pushed, v') =
                push_next-IsRoute g i left answer.0 route target here
                  (λ e. only_last (fixed_hop_local i (suc left) kind first penultimate (local e)))
                  (omega arith) v in
              let onward =
                gen_more-Returns left (suc i) kind first penultimate answer.1 route' s' few
                  (omega arith) k f p room' here v' in
              rw (e, gen_hops, pushed, gen_hops)
                (subst
                  (λ m.
                    Returns too_few_mixnodes (IsRoute n g.local_peer_id 0 m)
                      (gen_hops r left (suc i + 1) g kind (first, penultimate) answer.1 route' s'))
                  (omega arith)
                  (subst
                    (λ j.
                      Returns too_few_mixnodes (IsRoute n g.local_peer_id 0 (suc (suc i) + left))
                        (gen_hops r left j g kind (first, penultimate) answer.1 route' s'))
                    (omega arith) onward))
        ]

  -- The first hop goes to a mixnode: the local node is one, or there is more than one hop, or the only
  -- hop has a given end.
  abbrev pub Starts : ℕ → RouteKind → Option MixnodeIndex → Option MixnodeIndex → Type 0
  Starts left kind first penultimate =
      ((j : ℕ) × (hop_index g.topology.local_node none ≡ some j) × (j < n))
      ⊎ (fixed_hop 0 left kind first penultimate ≢ some none)

  first_target :
      (left : ℕ) (kind : RouteKind) (first penultimate index : Option MixnodeIndex)
      → Starts left kind first penultimate
      → IsTarget n index
      → (index ≡ none → fixed_hop 0 left kind first penultimate ≡ some none)
      → (j : ℕ) × (hop_index g.topology.local_node index ≡ some j) × (j < n)
  unfolding hop_index
  first_target left kind first penultimate (some j) starts h local = (j, refl, h)
  first_target left kind first penultimate none (inl found) h local = found
  first_target left kind first penultimate none (inr never) h local = absurd (never (local refl))

  pub gen_all-Returns :
      (left : ℕ) (kind : RouteKind) (first penultimate : Option MixnodeIndex)
      (used : List MixnodeIndex) (route : Route) (s : r.State)
      → n ≤ max_mixnode_index + 1
      → suc left ≤ max_hops
      → IsKind n kind
      → IsTarget n first
      → IsTarget n penultimate
      → HasRoom n (suc left) used
      → IsLocal n g.topology.local_node
      → IsRoute n g.local_peer_id (suc left) 0 route
      → Starts (suc left) kind first penultimate
      → Returns too_few_mixnodes
          (IsRoute n g.local_peer_id 0 (suc left))
          (gen_hops r (suc left) 0 g kind (first, penultimate) used route s)
  unfolding gen_hops
  gen_all-Returns left kind first penultimate used route s few l k f p room here v starts =
      elim (choose_hop-Returns left used s (fixed_hop 0 (suc left) kind first penultimate) few room
        (fixed_hop-IsHop n 0 (suc left) kind first penultimate (omega arith) k f p)) [
          | inl (s', e) ↦ rw (e, gen_hops) (inl (s', refl))
          | inr (answer, s', e, (target, room', local)) ↦
              let (j, known, lt) =
                first_target (suc left) kind first penultimate answer.0 starts target local in
              let (route', pushed, v') =
                push_first-IsRoute g answer.0 j left route target known lt v in
              rw (e, gen_hops, pushed, gen_hops)
                (subst
                  (λ m.
                    Returns too_few_mixnodes (IsRoute n g.local_peer_id 0 m)
                      (gen_hops r left 1 g kind (first, penultimate) answer.1 route' s'))
                  (omega arith)
                  (gen_more-Returns left 0 kind first penultimate answer.1 route' s' few
                    (omega arith) k f p room' here v'))
        ]
