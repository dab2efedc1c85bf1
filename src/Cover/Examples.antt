-- ===== src/Cover/Examples.antt =====
-- src/core/cover.rs: cover packets of a node that is connected to two gateways.
use mixnet.Base.{
  replicate, length-replicate, Bytes, ℕ, ◌≡◌, refl, true, [], ◌∷◌, some, arith, get_elem?,
}
use mixnet.Sphinx.{peer_id_size}
use mixnet.Sphinx.StandIn.{stand_in}
use mixnet.Rng.{constant_rng}
use mixnet.Topology.{Mixnode, Topology, non_mixnode}
use mixnet.Topology.Creation.{new_generator}
use mixnet.Topology.RouteGenerator.{RouteGenerator}
use mixnet.Topology.Route.Room.{AllBelow}
use mixnet.Cover.{drop_cover, gen_cover_packet}
use mixnet.Cover.Addressed.{IsPacketAnswer, gen_cover_packet-Returns}

abbrev peer : Bytes
peer = replicate peer_id_size 6

abbrev node : ℕ → Mixnode ℕ
node n = record { kx_public = n ∷ []; peer_id = n ∷ n ∷ []; extra = n }

abbrev topology : Topology ℕ
topology = record {
  mixnodes = node 10 ∷ node 11 ∷ node 12 ∷ node 13 ∷ [];
  local_kx_public = 5 ∷ [];
  local_node = non_mixnode (1 ∷ 3 ∷ []);
}

abbrev generator : RouteGenerator ℕ
generator = record {
  topology = topology;
  local_peer_id = peer;
  connected_gateway_indices = 1 ∷ 3 ∷ [];
}

generator_run : new_generator topology peer (λ id. true) ≡ some generator
unfolding new_generator get_elem?
generator_run = refl

gateways-AllBelow : AllBelow 4 (1 ∷ 3 ∷ [])
gateways-AllBelow = (omega arith, (omega arith, tt))

gen_cover_packet-Returns_example :
    IsPacketAnswer constant_rng topology
      (gen_cover_packet constant_rng stand_in topology peer (λ id. true) 0 drop_cover 3)
gen_cover_packet-Returns_example =
    gen_cover_packet-Returns constant_rng stand_in topology peer (λ id. true) 0 drop_cover 3
      (omega arith) gateways-AllBelow (length-replicate peer_id_size 6) (omega arith)
