-- ===== src/Cover/Addressed.antt =====
-- src/core/cover.rs: a cover packet goes to a mixnode, or the topology is the reason why not.
use mixnet.Base.{
  length-replicate, length-take, none, take, replicate, Bytes, suc, AllOf, ℕ, ◌+◌, ◌≤◌, ◌<◌, ◌≡◌,
  ◌⊎◌, refl, List, [], ◌∷◌, some, ok, err, length, get_elem?, arith, inl, inr, lt-or-le, Bool,
}
use mixnet.Sphinx.Packages.{Packages}
use mixnet.Sphinx.Build.{build_cover_packet}
use mixnet.Sphinx.Header.{cover}
use mixnet.Sphinx.Refinement.{build_header-described}
use mixnet.Sphinx.Onion.{count_peer_ids}
use mixnet.Topology.Route.Hops.{IsRouteTarget, route_targets_valid}
use mixnet.Sphinx.{
  peer_id_size, header_size, packet_size, MixnodeIndex, PeerId, max_hops, max_mixnode_index,
}
use mixnet.Rng.{Rng}
use mixnet.PacketQueues.{AddressedPacket}
use mixnet.Topology.{
  Topology, Mixnode, LocalNode, mixnode, non_mixnode, TopologyErr, too_few_mixnodes,
  no_connected_gateway_mixnodes, mixnode_index_to_peer_id,
}
use mixnet.Topology.UsedIndices.{IsSorted}
use mixnet.Topology.Choice.{choose_mixnode_index_lem, choose_mixnode_index_full}
use mixnet.Topology.Creation.Connected.{IsLocalNode, IsLocalNode-IsLocal, new_generator_lem}
use mixnet.Topology.RouteGenerator.{
  one_index, RouteGenerator, choose_mixnode_index, choose_destination_index, excluded_destination,
}
use mixnet.Topology.Route.Room.{IsLocal, AllBelow, IsKind, length-IsSorted}
use mixnet.Topology.Route.Hops.{get_elem?-below}
use mixnet.Topology.Route.Loop.{Returns}
use mixnet.Topology.Route.Returns.{gen_route-Returns}
use mixnet.Topology.Route.{Route, Step}
use mixnet.Cover.{
  CoverKind, drop_cover, loop_cover, route_kind, address_packet, cover_packet, gen_cover_packet,
}

module _ (r : Rng) {X : Type 0} (g : RouteGenerator X) where
  abbrev pub n : ℕ
  n = length g.topology.mixnodes

  choose-Returns :
      (s : r.State) (used : List ℕ)
      → n ≤ max_mixnode_index + 1
      → IsSorted used
      → AllBelow n used
      → Returns too_few_mixnodes (λ i. i < n) (choose_mixnode_index r g s used)
  choose-Returns s used few sorted below = elim (lt-or-le (length used) n) [
    | inl fits ↦
        let (i, s', e, lt, new) = choose_mixnode_index_lem r g s used few sorted fits in
        inr (i, s', e, lt)
    | inr full ↦ inl (
      s,
      choose_mixnode_index_full r g s used (omega (arith, length-IsSorted n used sorted below)),
    )
  ]

  one_index_valid :
      (indices : List ℕ)
      → AllBelow n indices
      → IsSorted (one_index indices) × AllBelow n (one_index indices)
  unfolding one_index
  one_index_valid [] h = (tt, tt)
  one_index_valid (i ∷ []) h = ((tt, tt), h)
  one_index_valid (i ∷ j ∷ is) h = (tt, tt)

  excluded_valid :
      (local : LocalNode)
      → g.topology.local_node ≡ local
      → IsLocal n local
      → AllBelow n g.connected_gateway_indices
      → IsSorted (excluded_destination r g) × AllBelow n (excluded_destination r g)
  unfolding excluded_destination
  excluded_valid (mixnode i) e h b = rw (e, excluded_destination) ((tt, tt), (h, tt))
  excluded_valid (non_mixnode is) e h b =
      rw (e, excluded_destination) (one_index_valid g.connected_gateway_indices b)

-- A packet for the peer id of a mixnode, or one of two errors.
abbrev pub IsPacketAnswer :
    (r : Rng) {X : Type 0} → Topology X → Step r.State AddressedPacket → Type 0
IsPacketAnswer r {X} t step =
    ((e : TopologyErr) × (s' : r.State) × (step ≡ some (err e, s'))
      × ((e ≡ too_few_mixnodes) ⊎ (e ≡ no_connected_gateway_mixnodes)))
    ⊎ ((packet : AddressedPacket) × (s' : r.State) × (index : MixnodeIndex) × (node : Mixnode X)
        × (step ≡ some (ok packet, s'))
        × (get_elem? t.mixnodes index ≡ some node)
        × (packet.peer_id ≡ node.peer_id))

module _ (r : Rng) (p : Packages r.State) {X : Type 0} (g : RouteGenerator X) where
  address_packet-Returns :
      (index : MixnodeIndex) (route : Route) (s : r.State)
      → n r g ≤ max_mixnode_index + 1
      → length g.local_peer_id ≡ peer_id_size
      → index < n r g
      → AllOf (IsRouteTarget (n r g) g.local_peer_id) route.targets
      → count_peer_ids route.targets ≤ 1
      → length route.their_kx_publics ≡ suc (length route.targets)
      → length route.their_kx_publics ≤ max_hops
      → IsPacketAnswer r g.topology (address_packet r p g (index, route) s)
  unfolding address_packet mixnode_index_to_peer_id build_cover_packet
  address_packet-Returns index route s few here lt valid one keys most =
      let (node, found) = get_elem?-below g.topology.mixnodes index lt in
      let blank : Bytes = replicate packet_size 0 in
      rw
        (
          found,
          address_packet,
          build_header-described p (take header_size blank) s route.targets route.their_kx_publics
              (cover none)
              (omega (arith, length-take header_size blank, length-replicate {A = ℕ} packet_size 0))
              (route_targets_valid (n r g) g.local_peer_id route.targets few here valid) tt keys
              (omega arith) one,
          address_packet,
        )
        (inr (_, _, index, node, refl, found, refl))

  route_kind-Returns :
      (s : r.State) (kind : CoverKind)
      → n r g ≤ max_mixnode_index + 1
      → IsLocal (n r g) g.topology.local_node
      → AllBelow (n r g) g.connected_gateway_indices
      → Returns too_few_mixnodes (IsKind (n r g)) (route_kind r p g s kind)
  unfolding route_kind choose_destination_index
  route_kind-Returns s loop_cover few here gateways = inr (_, s, refl, tt)
  route_kind-Returns s drop_cover few here gateways =
      let (sorted, below) = excluded_valid r g g.topology.local_node refl here gateways in
      elim (choose-Returns r g s (excluded_destination r g) few sorted below) [
        | inl (s', e) ↦ rw (e, route_kind) (inl (s', refl))
        | inr (i, s', e, lt) ↦ rw (e, route_kind) (inr (_, s', refl, lt))
      ]

  -- With the route generator that is made first.
  cover_packet-Returns :
      (s : r.State) (kind : CoverKind) (num_hops : ℕ)
      → n r g ≤ max_mixnode_index + 1
      → IsLocal (n r g) g.topology.local_node
      → AllBelow (n r g) g.connected_gateway_indices
      → length g.local_peer_id ≡ peer_id_size
      → num_hops ≤ max_hops
      → IsPacketAnswer r g.topology (cover_packet r p g s kind num_hops)
  unfolding cover_packet
  cover_packet-Returns s kind num_hops few here gateways peer short =
      elim (route_kind-Returns s kind few here gateways) [
        | inl (s₁, e) ↦ rw (e, cover_packet) (inl (too_few_mixnodes, s₁, refl, inl refl))
        | inr (end_kind, s₁, e, end) ↦
            rw (e, cover_packet)
              (elim (gen_route-Returns r g s₁ end_kind num_hops few here gateways end short) [
                | inl (x, s₂, failed, why) ↦ rw (failed, cover_packet) (inl (x, s₂, refl, why))
                | inr (index, route, s₂, found, lt, valid, one, keys, least, most) ↦
                    rw (found, cover_packet)
                      (address_packet-Returns index route s₂ few peer lt valid one keys most)
              ])
      ]

module _ (r : Rng) (p : Packages r.State) {X : Type 0} where
  -- If there are at most 65280 mixnodes, the own index of a local mixnode, or each gateway index of
  -- another local node, is that of a mixnode, the local peer id is an array of its size, and at most
  -- `MAX_HOPS` hops are asked for, then making a cover packet of either kind does not panic, whichever
  -- gateways are connected: it fails for a lack of mixnodes or of gateways, or the packet is
  -- addressed to the peer id of a mixnode of the topology.
  pub gen_cover_packet-Returns :
      (t : Topology X) (local_peer_id : PeerId) (is_connected : PeerId → Bool) (s : r.State)
      (kind : CoverKind) (num_hops : ℕ)
      → length t.mixnodes ≤ max_mixnode_index + 1
      → IsLocalNode (length t.mixnodes) t.local_node
      → length local_peer_id ≡ peer_id_size
      → num_hops ≤ max_hops
      → IsPacketAnswer r t (gen_cover_packet r p t local_peer_id is_connected s kind num_hops)
  unfolding gen_cover_packet
  gen_cover_packet-Returns t local_peer_id is_connected s kind num_hops few here peer short =
      let (indices, made, gateways) = new_generator_lem t local_peer_id is_connected here in
      let g : RouteGenerator X = record {
        topology = t;
        local_peer_id = local_peer_id;
        connected_gateway_indices = indices;
      } in
      rw (made, gen_cover_packet)
        (cover_packet-Returns r p g s kind num_hops few
          (IsLocalNode-IsLocal (length t.mixnodes) t.local_node here) gateways peer short)
