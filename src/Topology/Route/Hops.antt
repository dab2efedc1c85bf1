-- ===== src/Topology/Route/Hops.antt =====
-- src/core/topology.rs: what a hop adds to a route.
use mixnet.Base.{
  ◌∙◌, ap, sym, subst, AllOf-append, ◌≤◌, ◌+◌, AllOf, ℕ, zero, suc, ◌-◌, ◌<◌, ◌≡◌, refl, List, [],
  ◌∷◌, ◌++◌, Option, none, some, length, length-append, get_elem?, arith, lt→ltb, ne→not-==,
}
use mixnet.Sphinx.{
  max_mixnode_index, peer_id_size, MixnodeIndex, KxPublic, PeerId, Target, mixnode_index, peer_id,
  max_hops,
}
use mixnet.Sphinx.Onion
use mixnet.Sphinx.Onion.{count_peer_ids}
use mixnet.Topology.{LocalNode, mixnode, non_mixnode}
use mixnet.Topology.RouteGenerator.{RouteGenerator}
use mixnet.Topology.Route.Room.{IsTarget, IsLocal}
use mixnet.Topology.Route.{Route, hop_index, hop_kx_public, hop_target, push_hop, push_within}

pub get_elem?-below :
    {A : Type 0} (xs : List A) (i : ℕ) → i < length xs → (a : A) × (get_elem? xs i ≡ some a)
unfolding get_elem?
get_elem?-below [] i h = absurd (omega arith)
get_elem?-below (x ∷ xs) zero h = (x, refl)
get_elem?-below (x ∷ xs) (suc i) h = get_elem?-below xs i (omega arith)

-- The first hop is known once there is one.
abbrev pub HasFirst : ℕ → ℕ → Route → Type 0
HasFirst n zero route = Unit {0}
HasFirst n (suc i) route = (j : ℕ) × (route.first_hop ≡ some j) × (j < n)

-- A target of a route: a mixnode, or the local node by its peer id.
abbrev pub IsRouteTarget : ℕ → PeerId → Target → Type 0
IsRouteTarget n local (mixnode_index i) = i < n
IsRouteTarget n local (peer_id id) = id ≡ local

-- Such targets can go into a packet.
pub route_targets_valid :
    (n : ℕ) (local : PeerId) (targets : List Target)
    → n ≤ max_mixnode_index + 1
    → length local ≡ peer_id_size
    → AllOf (IsRouteTarget n local) targets
    → AllOf Onion.IsTarget targets
route_targets_valid n local [] few h valid = tt
route_targets_valid n local (mixnode_index i ∷ targets) few h valid =
    let i_below : i < n = valid.0 in
    (omega arith, route_targets_valid n local targets few h valid.1)
route_targets_valid n local (peer_id id ∷ targets) few h valid =
    (ap length valid.0 ∙ h, route_targets_valid n local targets few h valid.1)

-- Only the last hop may go by a peer id.
abbrev pub peer_ids_before : ℕ → ℕ
peer_ids_before zero = 1
peer_ids_before (suc left) = 0

-- A route of so many hops, with so many left.
pub record IsRoute (n : ℕ) (local : PeerId) (left i : ℕ) (route : Route) : Type 0 where
  pub kx_publics : length route.their_kx_publics ≡ i
  pub targets : length route.targets ≡ i - 1
  pub first : HasFirst n i route
  pub valid : AllOf (IsRouteTarget n local) route.targets
  pub peer_ids : count_peer_ids route.targets ≤ peer_ids_before left

count_peer_ids-append :
    (targets : List Target) (target : Target)
    → count_peer_ids (targets ++ (target ∷ []))
      ≡ count_peer_ids targets + count_peer_ids (target ∷ [])
count_peer_ids-append [] target = omega arith
count_peer_ids-append (mixnode_index i ∷ targets) target = count_peer_ids-append targets target
count_peer_ids-append (peer_id id ∷ targets) target =
    omega (arith, count_peer_ids-append targets target)

push_within_lem :
    {A : Type 0} (capacity : ℕ) (xs : List A) (x : A)
    → length xs < capacity
    → push_within capacity xs x ≡ some (xs ++ x ∷ [])
push_within_lem capacity xs x h = rw (lt→ltb _ _ h) refl

module _ {X : Type 0} (g : RouteGenerator X) where
  hop_kx_public_lem :
      (index : Option MixnodeIndex)
      → IsTarget (length g.topology.mixnodes) index
      → (k : KxPublic) × (hop_kx_public g index ≡ some k)
  unfolding hop_kx_public
  hop_kx_public_lem none h = (g.topology.local_kx_public, refl)
  hop_kx_public_lem (some i) h =
      let (node, e) = get_elem?-below g.topology.mixnodes i h in
      rw (e, hop_kx_public) (node.kx_public, refl)

  -- The target of a hop.
  hop_target_lem :
      (local : LocalNode) (index : Option MixnodeIndex) (left : ℕ)
      → IsTarget (length g.topology.mixnodes) index
      → IsLocal (length g.topology.mixnodes) local
      → (index ≡ none → left ≡ 0)
      → IsRouteTarget
          (length g.topology.mixnodes)
          g.local_peer_id
          (hop_target g (hop_index local index))
        × (count_peer_ids (hop_target g (hop_index local index) ∷ []) ≤ peer_ids_before left)
  unfolding hop_target hop_index
  hop_target_lem local (some i) left h here last = (h, omega arith)
  hop_target_lem (mixnode i) none left h here last = (here, omega arith)
  hop_target_lem (non_mixnode is) none left h here last =
      (refl, subst (λ m. 1 ≤ peer_ids_before m) (sym (last refl)) (omega arith))

  pub push_first-IsRoute :
      (index : Option MixnodeIndex) (j left : ℕ) (route : Route)
      → IsTarget (length g.topology.mixnodes) index
      → hop_index g.topology.local_node index ≡ some j
      → j < length g.topology.mixnodes
      → IsRoute (length g.topology.mixnodes) g.local_peer_id (suc left) 0 route
      → (route' : Route) × (push_hop g 0 index route ≡ some route')
        × IsRoute (length g.topology.mixnodes) g.local_peer_id left 1 route'
  unfolding push_hop
  push_first-IsRoute index j left route h e l v =
      let (k, known) = hop_kx_public_lem index h in
      rw
        (
          known,
          push_hop,
          push_within_lem max_hops route.their_kx_publics k (omega (arith, v.kx_publics)),
          push_hop,
        )
        (
          _,
          refl,
          record {
            kx_publics = omega (arith, length-append route.their_kx_publics (k ∷ []), v.kx_publics);
            targets = v.targets;
            first = (j, e, l);
            valid = v.valid;
            peer_ids = omega (arith, v.peer_ids);
          },
        )

  pub push_next-IsRoute :
      (i left : ℕ) (index : Option MixnodeIndex) (route : Route)
      → IsTarget (length g.topology.mixnodes) index
      → IsLocal (length g.topology.mixnodes) g.topology.local_node
      → (index ≡ none → left ≡ 0)
      → suc i < max_hops
      → IsRoute (length g.topology.mixnodes) g.local_peer_id (suc left) (suc i) route
      → (route' : Route) × (push_hop g (suc i) index route ≡ some route')
        × IsRoute (length g.topology.mixnodes) g.local_peer_id left (suc (suc i)) route'
  unfolding push_hop
  push_next-IsRoute i left index route h here last l v =
      let (valid, counted) = hop_target_lem g.topology.local_node index left h here last in
      let (k, known) = hop_kx_public_lem index h in
      let target = hop_target g (hop_index g.topology.local_node index) in
      rw
        (
          known,
          push_hop,
          push_within_lem max_hops route.their_kx_publics k (omega (arith, v.kx_publics)),
          push_hop,
          ne→not-== (suc i) 0 (omega arith),
          push_within_lem (max_hops - 1) route.targets target (omega (arith, v.targets)),
          push_hop,
        )
        (
          _,
          refl,
          record {
            kx_publics = omega (arith, length-append route.their_kx_publics (k ∷ []), v.kx_publics);
            targets = omega (arith, length-append route.targets (target ∷ []), v.targets);
            first = v.first;
            valid = AllOf-append _ route.targets (target ∷ []) v.valid (valid, tt);
            peer_ids =
                omega (arith, count_peer_ids-append route.targets target, v.peer_ids, counted);
          },
        )
