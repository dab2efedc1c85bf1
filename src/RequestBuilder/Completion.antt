-- ===== src/RequestBuilder/Completion.antt =====
-- src/core/request_builder.rs: what `build_packet` makes of a route.
use mixnet.Base.{
  AllOf, ◌++◌, ℕ, suc, ◌+◌, ◌≤◌, ◌≡◌, ◌⊎◌, refl, Bytes, [], some, ok, err, length, length-append,
  length-take, length-drop, length-replicate, replicate, take, drop, get_elem?, arith,
}
use mixnet.Sphinx.{
  MixnodeIndex, max_hops, max_mixnode_index, peer_id_size, header_size, packet_size,
  payload_data_size,
}
use mixnet.Sphinx.Packages.{Packages}
use mixnet.Sphinx.Header.{request}
use mixnet.Sphinx.Refinement.{described, build_header-described}
use mixnet.Sphinx.Build.{write_payload_data, complete_request_packet}
use mixnet.Rng.{Rng}
use mixnet.PacketQueues.{AddressedPacket}
use mixnet.Topology.{Mixnode, TopologyErr, mixnode_index_to_peer_id}
use mixnet.Topology.RouteGenerator.{RouteGenerator}
use mixnet.Topology.Route.Hops.{IsRouteTarget, route_targets_valid}
use mixnet.Topology.Route.{Route, Step, gen_route, and_then}
use mixnet.Sphinx.Onion.{count_peer_ids}
use mixnet.RequestBuilder.{
  to_mixnode, RequestBuilder, RouteMetrics, complete_packet, write_packet, build_packet,
}

module _ (r : Rng) (p : Packages r.State) {X : Type 0} (builder : RequestBuilder X) where
  abbrev g : RouteGenerator X
  g = builder.route_generator

  abbrev n : ℕ
  n = length g.topology.mixnodes

  -- The payload data of a packet before it is written.
  abbrev pub blank_payload_data : Bytes
  blank_payload_data = take payload_data_size (drop header_size (replicate packet_size 0))

  -- An error of the topology, or payload data of its size.
  abbrev pub IsWritten : Step r.State Bytes → Type 0
  IsWritten step =
      ((e : TopologyErr) × (s' : r.State) × (step ≡ some (err e, s')))
      ⊎ ((payload_data : Bytes) × (s' : r.State) × (step ≡ some (ok payload_data, s'))
          × (length payload_data ≡ payload_data_size))

  -- The error of the writing of the payload data, after a route was found.
  abbrev pub IsWriteErr :
      {A : Type 0} → r.State → (Bytes → r.State → Step r.State Bytes) → ℕ → Step r.State A → Type 0
  IsWriteErr s write num_hops step =
      (found : MixnodeIndex × Route) × (s₁ : r.State) × (e : TopologyErr) × (s' : r.State)
      × (gen_route r g [] [] s (to_mixnode builder.destination_index) num_hops
          ≡ some (ok found, s₁))
      × (write blank_payload_data s₁ ≡ some (err e, s'))
      × (step ≡ some (err e, s'))

  -- A packet for the first mixnode of a route, with the metrics of the route and of its header, which
  -- is made from the state in which the writing of the payload data ends.
  abbrev pub IsBuiltPacket :
      r.State
      → (Bytes → r.State → Step r.State Bytes)
      → ℕ
      → Step r.State (AddressedPacket × RouteMetrics r p)
      → Type 0
  IsBuiltPacket s write num_hops step =
      (packet : AddressedPacket) × (metrics : RouteMetrics r p) × (s' : r.State)
      × (index : MixnodeIndex) × (route : Route) × (s₁ : r.State) × (payload_data : Bytes)
      × (s₂ : r.State) × (node : Mixnode X) × (step ≡ some (ok (packet, metrics), s'))
      × (gen_route r g [] [] s (to_mixnode builder.destination_index) num_hops
          ≡ some (ok (index, route), s₁))
      × (write blank_payload_data s₁ ≡ some (ok payload_data, s₂))
      × (get_elem? g.topology.mixnodes index ≡ some node)
      × (packet.peer_id ≡ node.peer_id)
      × (metrics.num_hops ≡ length route.their_kx_publics)
      × (metrics.forwarding_delay
          ≡ (described p s₂ route.targets route.their_kx_publics request).total_delay)
      × (num_hops ≤ metrics.num_hops)
      × (metrics.num_hops ≤ max_hops)

  length-write_payload_data :
      (packet payload_data : Bytes)
      → length packet ≡ packet_size
      → length payload_data ≡ payload_data_size
      → length (write_payload_data packet payload_data) ≡ packet_size
  unfolding write_payload_data
  length-write_payload_data packet payload_data h k =
      let back = drop (header_size + payload_data_size) packet in
      omega (
        arith,
        length-append (take header_size packet) (payload_data ++ back),
        length-append payload_data back,
        length-take header_size packet,
        length-drop (header_size + payload_data_size) packet,
      )

  -- What holds of a route that was found.
  abbrev pub IsRouted : ℕ → Route → Type 0
  IsRouted num_hops route =
      AllOf (IsRouteTarget n g.local_peer_id) route.targets
      × (count_peer_ids route.targets ≤ 1)
      × (length route.their_kx_publics ≡ suc (length route.targets))
      × (num_hops ≤ length route.their_kx_publics)
      × (length route.their_kx_publics ≤ max_hops)

  pub complete_packet-IsBuiltPacket :
      (s : r.State) (write : Bytes → r.State → Step r.State Bytes) (num_hops : ℕ)
      (index : MixnodeIndex) (route : Route) (s₁ : r.State) (payload_data : Bytes) (s₂ : r.State)
      (node : Mixnode X)
      → n ≤ max_mixnode_index + 1
      → length g.local_peer_id ≡ peer_id_size
      → gen_route r g [] [] s (to_mixnode builder.destination_index) num_hops
        ≡ some (ok (index, route), s₁)
      → IsRouted num_hops route
      → write blank_payload_data s₁ ≡ some (ok payload_data, s₂)
      → length payload_data ≡ payload_data_size
      → get_elem? g.topology.mixnodes index ≡ some node
      → IsBuiltPacket s write num_hops (
          complete_packet r p node.peer_id route
            (write_payload_data (replicate packet_size 0) payload_data)
            s₂)
  unfolding complete_packet complete_request_packet
  complete_packet-IsBuiltPacket s write num_hops index route s₁ payload_data s₂ node few peer found
        (valid, one, keys, least, most) written sized there =
      let blank : Bytes = replicate packet_size 0 in
      let full = write_payload_data blank payload_data in
      let size = length-replicate {A = ℕ} packet_size 0 in
      rw
        (
          build_header-described p (take header_size full) s₂ route.targets route.their_kx_publics
              request
              (omega (
                arith,
                length-take header_size full,
                length-write_payload_data blank payload_data size sized,
              ))
              (route_targets_valid n g.local_peer_id route.targets few peer valid) tt keys
              (omega arith) one,
          complete_packet,
        )
        (
          _, _, _, index, route, s₁, payload_data, s₂, node, refl, found, written, there, refl,
          refl, refl, least, most,
        )

  -- After the route, the payload data are written and the packet is completed.
  pub build_packet_run :
      (s : r.State) (write : Bytes → r.State → Step r.State Bytes) (num_hops : ℕ)
      (index : MixnodeIndex) (route : Route) (s₁ : r.State) (node : Mixnode X)
      → gen_route r g [] [] s (to_mixnode builder.destination_index) num_hops
        ≡ some (ok (index, route), s₁)
      → get_elem? g.topology.mixnodes index ≡ some node
      → build_packet r p builder s write num_hops
        ≡ and_then (write blank_payload_data s₁) (λ payload_data s₂.
          complete_packet r p node.peer_id route
            (write_payload_data (replicate packet_size 0) payload_data)
            s₂)
  unfolding build_packet write_packet mixnode_index_to_peer_id
  build_packet_run s write num_hops index route s₁ node found there =
      rw (found, build_packet, there, write_packet) refl
