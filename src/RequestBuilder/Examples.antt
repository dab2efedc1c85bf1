-- ===== src/RequestBuilder/Examples.antt =====
-- src/core/request_builder.rs: a builder at a node that is connected to two gateways.
use mixnet.Base.{
  refl, ℕ, suc, ltb, if◌then◌else◌, err, Bool-cases, inl, inr, Bytes, ◌⊎◌, [], ◌∷◌, some, ok,
  length-replicate, replicate, arith,
}
use mixnet.Sphinx.{payload_data_size, surb_size, surb_id_size, peer_id_size}
use mixnet.Sphinx.StandIn.{stand_in}
use mixnet.Rng.{constant_rng}
use mixnet.Topology.{Mixnode, Topology, non_mixnode, too_few_mixnodes}
use mixnet.Topology.Route.{Step}
use mixnet.RequestBuilder.{RequestBuilder, build_packet, build_surb}
use mixnet.RequestBuilder.Completion.{blank_payload_data, IsWritten, IsWriteErr, IsBuiltPacket}
use mixnet.RequestBuilder.Returns.{
  IsRouteErr, IsBuiltSurb, build_packet-Returns, build_surb-Returns,
}

abbrev node : ℕ → Mixnode ℕ
node n = record { kx_public = n ∷ []; peer_id = n ∷ n ∷ []; extra = n }

abbrev topology : Topology ℕ
topology = record {
  mixnodes = node 10 ∷ node 11 ∷ node 12 ∷ node 13 ∷ [];
  local_kx_public = 5 ∷ [];
  local_node = non_mixnode (1 ∷ 3 ∷ []);
}

abbrev builder : RequestBuilder ℕ
builder = record {
  route_generator = record {
    topology = topology;
    local_peer_id = replicate peer_id_size 6;
    connected_gateway_indices = 1 ∷ 3 ∷ [];
  };
  destination_index = 2;
}

-- Payload data that depend on the state. There are no more after the state 4.
abbrev write : Bytes → ℕ → Step ℕ Bytes
write before s =
    if ltb s 5
    then some (ok (replicate payload_data_size s), suc s)
    else some (err too_few_mixnodes, s)

write-IsWritten :
    (before : Bytes) (s : ℕ) → IsWritten constant_rng stand_in builder (write before s)
write-IsWritten before s = elim (Bool-cases (ltb s 5)) [
  | inl more ↦ rw (more, write) (inr (_, _, refl, length-replicate payload_data_size s))
  | inr over ↦ rw (over, write) (inl (_, _, refl))
]

build_packet-Returns_example :
    IsRouteErr constant_rng stand_in builder (build_packet constant_rng stand_in builder 0 write 3)
    ⊎ IsWriteErr constant_rng stand_in builder 0 write 3
        (build_packet constant_rng stand_in builder 0 write 3)
    ⊎ IsBuiltPacket constant_rng stand_in builder 0 write 3
        (build_packet constant_rng stand_in builder 0 write 3)
build_packet-Returns_example =
    build_packet-Returns constant_rng stand_in builder 0 write 3 (omega arith) tt
      (omega arith, (omega arith, tt)) (omega arith) (length-replicate peer_id_size 6) (omega arith)
      (write-IsWritten (blank_payload_data constant_rng stand_in builder))

build_surb-Returns_example :
    IsRouteErr constant_rng stand_in builder (
      build_surb constant_rng stand_in builder
        (replicate surb_size 0)
        0
        (replicate surb_id_size 1)
        3)
    ⊎ IsBuiltSurb constant_rng stand_in builder 3 (
        build_surb constant_rng stand_in builder
          (replicate surb_size 0)
          0
          (replicate surb_id_size 1)
          3)
build_surb-Returns_example =
    build_surb-Returns constant_rng stand_in builder (replicate surb_size 0)
      (replicate surb_id_size 1) 0 3 (length-replicate surb_size 0)
      (length-replicate surb_id_size 1) (omega arith) tt (omega arith, (omega arith, tt))
      (omega arith) (length-replicate peer_id_size 6) (omega arith)
