-- ===== src/Cover.antt =====
-- src/core/cover.rs: cover packets. `none` is a panic.
pub mod Addressed
mod Examples
use mixnet.Base.{replicate, ℕ, Bool, List, [], Option, none, some, Result, ok, err, ◌>>=◌, Bytes}
use mixnet.Sphinx.Packages.{Packages}
use mixnet.Sphinx.Build.{build_cover_packet}
use mixnet.Sphinx.{packet_size, MixnodeIndex, PeerId, KxPublic, Target}
use mixnet.Rng.{Rng}
use mixnet.PacketQueues.{AddressedPacket}
use mixnet.Topology.{Topology, TopologyErr, mixnode_index_to_peer_id}
use mixnet.Topology.Creation.{new_generator}
use mixnet.Topology.RouteGenerator.{RouteGenerator, choose_destination_index}
use mixnet.Topology.Route.{RouteKind, to_mixnode, Route, Step, and_then, gen_route}
use mixnet.Topology.Route

pub data CoverKind : Type 0 where
  drop_cover loop_cover : CoverKind

module _ (r : Rng) (p : Packages r.State) {X : Type 0} where
  unfoldable pub route_kind : RouteGenerator X → r.State → CoverKind → Step r.State RouteKind
  route_kind g s drop_cover =
      and_then (choose_destination_index r g s) (λ index s'. some (ok (to_mixnode index), s'))
  route_kind g s loop_cover = some (ok Route.loop, s)

  -- The packet for a route, with the peer id of its first hop.
  unfoldable pub address_packet :
      RouteGenerator X → MixnodeIndex × Route → r.State → Step r.State AddressedPacket
  address_packet g (first, route) s = elim (mixnode_index_to_peer_id g.topology first) [
    | err e ↦ some (err e, s)
    | ok peer_id ↦ (do
      completed ←
          build_cover_packet p (replicate packet_size 0) s route.targets route.their_kx_publics none
      some (ok (record { peer_id = peer_id; packet = completed.packet }), completed.state))
  ]

  -- With the route generator.
  unfoldable pub cover_packet :
      RouteGenerator X → r.State → CoverKind → ℕ → Step r.State AddressedPacket
  cover_packet g s kind num_hops =
      and_then (route_kind g s kind)
        (λ route s₁. and_then (gen_route r g [] [] s₁ route num_hops) (address_packet g))

  unfoldable pub gen_cover_packet :
      Topology X → PeerId → (PeerId → Bool) → r.State → CoverKind → ℕ → Step r.State AddressedPacket
  gen_cover_packet t local_peer_id is_connected s kind num_hops = do
    g ← new_generator t local_peer_id is_connected
    cover_packet g s kind num_hops
