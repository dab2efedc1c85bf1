-- ===== src/RequestBuilder/Returns.antt =====
-- src/core/request_builder.rs: the builder does not panic.
use mixnet.Base.{
  length-map, ap, ◌∷◌, ℕ, suc, ◌+◌, ◌≤◌, ◌<◌, ◌≡◌, ◌⊎◌, refl, Bytes, List, [], some, ok, err,
  length, length-take, length-drop, take, drop, arith, inl, inr,
}
use mixnet.Sphinx.{
  max_hops, max_mixnode_index, peer_id_size, header_size, surb_size, surb_id_size,
  raw_mixnode_index_size,
}
use mixnet.Sphinx.Packages.{Packages}
use mixnet.Sphinx.Header.{reply}
use mixnet.Sphinx.Refinement.{build_header-described}
use mixnet.Sphinx.Build.{pop_last, write_payload_data, complete_request_packet}
use mixnet.Sphinx.Build
use mixnet.Rng.{Rng}
use mixnet.Topology.{TopologyErr, too_few_mixnodes, no_connected_gateway_mixnodes}
use mixnet.Topology.RouteGenerator.{RouteGenerator}
use mixnet.Topology.Route.Room.{AllBelow, IsLocal}
use mixnet.Topology.Route.Hops.{get_elem?-below, route_targets_valid}
use mixnet.Topology.Route.Returns.{gen_route-Returns}
use mixnet.Topology.Route.{Step}
use mixnet.Sphinx.KeyExchange.{chain, first_scalar, length-chain}
use mixnet.Sphinx.Crypto.{derive_payload_encryption_key}
use mixnet.RequestBuilder.{
  from_mixnode, to_mixnode, RequestBuilder, BuiltSurb, build_packet, route_surb, build_surb,
}
use mixnet.RequestBuilder.Completion.{
  blank_payload_data, IsWritten, IsWriteErr, IsBuiltPacket, complete_packet-IsBuiltPacket,
  build_packet_run,
}

module _ (r : Rng) (p : Packages r.State) {X : Type 0} (builder : RequestBuilder X) where
  abbrev pub g : RouteGenerator X
  g = builder.route_generator

  abbrev pub n : ℕ
  n = length g.topology.mixnodes

  -- One of the two errors of a route.
  abbrev pub IsRouteErr : {A : Type 0} → Step r.State A → Type 0
  IsRouteErr step =
      (e : TopologyErr) × (s' : r.State) × (step ≡ some (err e, s'))
      × ((e ≡ too_few_mixnodes) ⊎ (e ≡ no_connected_gateway_mixnodes))

  abbrev pub IsBuiltSurb : ℕ → Step r.State (BuiltSurb r p) → Type 0
  IsBuiltSurb num_hops step =
      (built : BuiltSurb r p) × (s' : r.State) × (step ≡ some (ok built, s'))
      × (length built.payload_encryption_keys ≡ built.metrics.num_hops)
      × (num_hops ≤ built.metrics.num_hops)
      × (built.metrics.num_hops ≤ max_hops)

  -- If there are at most 65280 mixnodes, the indices of the local node, of the connected gateways and
  -- of the destination are those of mixnodes, the local peer id is an array of its size, at most
  -- `MAX_HOPS` hops are asked for, and writing to the zeroed payload data does not panic, in any state
  -- of the generator, but fails or gives data of the right size, which may depend on the state, then
  -- building a request packet does not panic. It fails for a lack of mixnodes or of gateways, or with
  -- the error of the writing after a route was found, or the packet is addressed to the peer id of the
  -- first mixnode of the route found. Its metrics are then the number of hops of this route, which are
  -- at least as many as were asked for and at most `MAX_HOPS`, and the sum of the delays that the
  -- secrets of its hops give.
  pub build_packet-Returns :
      (s : r.State) (write : Bytes → r.State → Step r.State Bytes) (num_hops : ℕ)
      → n ≤ max_mixnode_index + 1
      → IsLocal n g.topology.local_node
      → AllBelow n g.connected_gateway_indices
      → builder.destination_index < n
      → length g.local_peer_id ≡ peer_id_size
      → num_hops ≤ max_hops
      → ((s' : r.State) → IsWritten r p builder (write (blank_payload_data r p builder) s'))
      → IsRouteErr (build_packet r p builder s write num_hops)
        ⊎ IsWriteErr r p builder s write num_hops (build_packet r p builder s write num_hops)
        ⊎ IsBuiltPacket r p builder s write num_hops (build_packet r p builder s write num_hops)
  unfolding build_packet
  build_packet-Returns s write num_hops few here gateways end peer short writes =
      elim (gen_route-Returns r g s (to_mixnode builder.destination_index) num_hops few here
        gateways end short) [
          | inl (e, s₁, failed, why) ↦ rw (failed, build_packet) (inl (e, s₁, refl, why))
          | inr (index, route, s₁, found, lt, valid, one, keys, least, most) ↦
              let (node, there) = get_elem?-below g.topology.mixnodes index lt in
              let run =
                build_packet_run r p builder s write num_hops index route s₁ node found there in
              elim (writes s₁) [
                | inl (e, s', failed) ↦
                    rw (run, failed) (inr (inl ((index, route), s₁, e, s', found, failed, refl)))
                | inr (payload_data, s₂, written, sized) ↦
                    rw (run, written)
                      (inr (
                        inr (
                          complete_packet-IsBuiltPacket r p builder s write num_hops index route s₁
                            payload_data s₂ node few peer found (valid, one, keys, least, most)
                            written sized there)))
              ]
        ]

  length-pop_last :
      (x : Bytes) (xs : List Bytes) → suc (length (pop_last (x ∷ xs))) ≡ length (x ∷ xs)
  unfolding pop_last
  length-pop_last x [] = refl
  length-pop_last x (y ∷ ys) = ap suc (length-pop_last y ys)

  length-pop_some : (xs : List Bytes) → 0 < length xs → suc (length (pop_last xs)) ≡ length xs
  length-pop_some [] h = absurd (omega arith)
  length-pop_some (x ∷ xs) h = length-pop_last x xs

  -- If there are at most 65280 mixnodes, the indices of the local node, of the connected gateways and
  -- of the destination are those of mixnodes, the local peer id, the SURB and its id are arrays of
  -- their sizes, and at most `MAX_HOPS` hops are asked for, then building a SURB does not panic: it fails for a
  -- lack of mixnodes or of gateways, or there is a SURB with as many payload encryption keys as its
  -- route has hops, which are at least as many as were asked for and at most `MAX_HOPS`.
  pub build_surb-Returns :
      (surb id : Bytes) (s : r.State) (num_hops : ℕ)
      → length surb ≡ surb_size
      → length id ≡ surb_id_size
      → n ≤ max_mixnode_index + 1
      → IsLocal n g.topology.local_node
      → AllBelow n g.connected_gateway_indices
      → builder.destination_index < n
      → length g.local_peer_id ≡ peer_id_size
      → num_hops ≤ max_hops
      → IsRouteErr (build_surb r p builder surb s id num_hops)
        ⊎ IsBuiltSurb num_hops (build_surb r p builder surb s id num_hops)
  unfolding build_surb route_surb Build.build_surb
  build_surb-Returns surb id s num_hops h i few here gateways end peer short =
      elim (gen_route-Returns r g s (from_mixnode builder.destination_index) num_hops few here
        gateways end short) [
          | inl (e, s₁, failed, why) ↦ rw (failed, build_surb) (inl (e, s₁, refl, why))
          | inr (index, route, s₁, found, lt, valid, one, keys, least, most) ↦
              let secrets = chain p (first_scalar p s₁) route.their_kx_publics in
              let count = length-chain p (first_scalar p s₁) route.their_kx_publics in
              rw
                (
                  found,
                  build_surb,
                  build_header-described p (take header_size (drop raw_mixnode_index_size surb)) s₁
                      route.targets route.their_kx_publics (reply id)
                      (omega (
                        arith,
                        length-take header_size (drop raw_mixnode_index_size surb),
                        length-drop raw_mixnode_index_size surb,
                      ))
                      (route_targets_valid n g.local_peer_id route.targets few peer valid) i keys
                      (omega arith) one,
                  route_surb,
                )
                (inr (
                  _,
                  _,
                  refl,
                  omega (
                    arith,
                    length-map (derive_payload_encryption_key p) (pop_last secrets),
                    length-pop_some secrets (omega (arith, count)),
                    count,
                  ),
                  least,
                  most,
                ))
        ]
