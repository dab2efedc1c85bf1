-- ===== src/RequestBuilder.antt =====
-- src/core/request_builder.rs: request packets and SURBs for routes through a topology. `none` is a
-- panic.
pub mod Completion
pub mod Returns
mod Examples
use mixnet.Base.{
  ℕ, ◌+◌, Bool, List, [], Option, none, some, Result, ok, err, ◌>>=◌, Bytes, length, replicate,
  take, drop,
}
use mixnet.Sphinx.{MixnodeIndex, PeerId, packet_size, header_size, payload_data_size, surb_size}
use mixnet.Sphinx.Packages.{Packages}
use mixnet.Sphinx.Build.{write_payload_data, complete_request_packet}
use mixnet.Sphinx.Build
use mixnet.Rng.{Rng}
use mixnet.PacketQueues.{AddressedPacket}
use mixnet.Topology.{Topology, TopologyErr, mixnode_index_to_peer_id}
use mixnet.Topology.Creation.{new_generator}
use mixnet.Topology.RouteGenerator.{RouteGenerator, choose_destination_index}
use mixnet.Topology.Route.{to_mixnode, from_mixnode, Route, Step, and_then, gen_route}

module _ (r : Rng) (p : Packages r.State) where
  pub record RouteMetrics : Type 0 where
    pub num_hops : ℕ
    pub forwarding_delay : p.F64

  pub record BuiltSurb : Type 0 where
    pub surb : Bytes
    pub payload_encryption_keys : List Bytes
    pub metrics : RouteMetrics

  -- The packet with the payload data, for a route.
  unfoldable pub complete_packet :
      PeerId → Route → Bytes → r.State → Step r.State (AddressedPacket × RouteMetrics)
  complete_packet peer_id route packet s = do
    completed ← complete_request_packet p packet s route.targets route.their_kx_publics
    some (
      ok (
        record { peer_id = peer_id; packet = completed.packet },
        record {
          num_hops = length route.their_kx_publics;
          forwarding_delay = completed.total_delay;
        },
      ),
      completed.state,
    )

  -- The SURB for a route.
  unfoldable pub route_surb :
      Bytes → Bytes → MixnodeIndex × Route → r.State → Step r.State (BuiltSurb)
  route_surb surb id (first_mixnode_index, route) s = do
    built ← Build.build_surb p surb s first_mixnode_index route.targets route.their_kx_publics id
    some (
      ok (record {
        surb = built.surb;
        payload_encryption_keys = built.payload_encryption_keys;
        metrics = record {
          num_hops = length route.their_kx_publics;
          forwarding_delay = built.total_delay;
        };
      }),
      built.state,
    )

pub record RequestBuilder (X : Type 0) : Type 0 where
  pub route_generator : RouteGenerator X
  pub destination_index : MixnodeIndex

module _ (r : Rng) (p : Packages r.State) {X : Type 0} where
  unfoldable pub new :
      r.State
      → Topology X
      → PeerId
      → (PeerId → Bool)
      → Option MixnodeIndex
      → Step r.State (RequestBuilder X)
  new s topology local_peer_id is_connected destination_index = do
    g ← new_generator topology local_peer_id is_connected
    elim destination_index [
      | some index ↦ some (ok (record { route_generator = g; destination_index = index }), s)
      | none ↦
          and_then (choose_destination_index r g s)
            (λ index s'. some (ok (record { route_generator = g; destination_index = index }), s'))
    ]

  -- `write` gives the payload data, from the data before.
  unfoldable pub write_packet :
      (Bytes → r.State → Step r.State Bytes)
      → RequestBuilder X
      → MixnodeIndex × Route
      → r.State
      → Step r.State (AddressedPacket × RouteMetrics r p)
  write_packet write builder (first_mixnode_index, route) s =
      elim (mixnode_index_to_peer_id builder.route_generator.topology first_mixnode_index) [
        | err e ↦ some (err e, s)
        | ok peer_id ↦
            let packet = replicate packet_size 0 in
            and_then (write (take payload_data_size (drop header_size packet)) s)
              (λ payload_data s'.
                complete_packet r p peer_id route (write_payload_data packet payload_data) s')
      ]

  unfoldable pub build_packet :
      RequestBuilder X
      → r.State
      → (Bytes → r.State → Step r.State Bytes)
      → ℕ
      → Step r.State (AddressedPacket × RouteMetrics r p)
  build_packet builder s write num_hops =
      and_then
        (gen_route r builder.route_generator [] [] s (to_mixnode builder.destination_index)
          num_hops)
        (write_packet write builder)

  unfoldable pub build_surb :
      RequestBuilder X → Bytes → r.State → Bytes → ℕ → Step r.State (BuiltSurb r p)
  build_surb builder surb s id num_hops =
      and_then
        (gen_route r builder.route_generator [] [] s (from_mixnode builder.destination_index)
          num_hops)
        (route_surb r p surb id)
