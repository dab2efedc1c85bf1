-- ===== src/Topology/Examples.antt =====
-- Runs of the code of src/core/topology.rs on four mixnodes.
use mixnet.Base.{get_elem?, ℕ, ◌≡◌, ◌≢◌, ◌<◌, refl, false, [], ◌∷◌, List, some, ok, err, arith}
use mixnet.Rng.{constant_rng, elem}
use mixnet.Topology.{Mixnode, non_mixnode, no_connected_gateway_mixnodes}
use mixnet.Topology.UsedIndices.{insert, IsSorted}
use mixnet.Topology.RouteGenerator.{
  skip_excluded, RouteGenerator, choose_mixnode_index, choose_connected_gateway_index,
  choose_gateway, choose_other, choose_any,
}
use mixnet.Topology.Choice.{choose_mixnode_index_lem}
use mixnet.Sphinx.{try_from, mixnode_index, peer_id}
use mixnet.Topology.Route.{gen_route, loop, min_hops, fixed_hop}
use mixnet.Topology.Route.Room.{AllBelow}
use mixnet.Topology.Route.Returns.{IsRouteAnswer, gen_route-Returns}
use mixnet.Topology.Gateways.{gateway-differs, gateway_none}

abbrev node : ℕ → Mixnode ℕ
node n = record { kx_public = n ∷ []; peer_id = n ∷ n ∷ []; extra = n }

-- The local node is no mixnode. It is connected to the gateways 1 and 3, or to none.
abbrev generator : List ℕ → RouteGenerator ℕ
generator gateways = record {
  topology = record {
    mixnodes = node 10 ∷ node 11 ∷ node 12 ∷ node 13 ∷ [];
    local_kx_public = 5 ∷ [];
    local_node = non_mixnode (1 ∷ 3 ∷ []);
  };
  local_peer_id = 6 ∷ [];
  connected_gateway_indices = gateways;
}

two_indices-IsSorted : IsSorted (1 ∷ 2 ∷ [])
two_indices-IsSorted = ((omega arith, tt), (tt, tt))

choose_mixnode_index_lem_example :
    (i : ℕ) × (s' : ℕ) × (choose_mixnode_index constant_rng (generator []) 1 (1 ∷ 2 ∷ [])
      ≡ some (ok i, s'))
    × (i < 4)
    × (elem i (1 ∷ 2 ∷ []) ≡ false)
choose_mixnode_index_lem_example =
    choose_mixnode_index_lem constant_rng (generator []) 1 (1 ∷ 2 ∷ []) (omega arith)
      two_indices-IsSorted (omega arith)

gateway_run :
    choose_connected_gateway_index constant_rng (generator (1 ∷ 3 ∷ [])) 0 (some 3) ≡ (ok 1, 0)
unfolding choose_connected_gateway_index choose_gateway choose_other
gateway_run = refl

abbrev answer : ℕ
answer = 1

gateway-differs_example : answer ≢ 3
gateway-differs_example =
    gateway-differs constant_rng (generator (1 ∷ 3 ∷ [])) 0 1 3 [] 3 1 0 refl refl gateway_run

gateway_none_example :
    (choose_connected_gateway_index constant_rng (generator []) 0 (some 3)).0
    ≡ err no_connected_gateway_mixnodes
gateway_none_example = gateway_none constant_rng (generator []) 0 (some 3) refl

-- A loop of four hops through the gateways 3 and 1: the first choice is 1, and the second avoids it.
loop_run :
    gen_route constant_rng (generator (1 ∷ 3 ∷ [])) [] [] 0 loop 4
    ≡ some (
      ok (
        1,
        record {
          first_hop = some 1;
          targets = mixnode_index 0 ∷ mixnode_index 3 ∷ peer_id (6 ∷ []) ∷ [];
          their_kx_publics = (11 ∷ []) ∷ (10 ∷ []) ∷ (13 ∷ []) ∷ (5 ∷ []) ∷ [];
        },
      ),
      0,
    )
unfolding gen_route choose_mixnode_index choose_connected_gateway_index choose_gateway choose_other
    choose_any insert min_hops fixed_hop get_elem? try_from skip_excluded
loop_run = refl

gateways-AllBelow : AllBelow 4 (1 ∷ 3 ∷ [])
gateways-AllBelow = (omega arith, (omega arith, tt))

gen_route-Returns_example :
    IsRouteAnswer constant_rng
      (generator (1 ∷ 3 ∷ []))
      5
      (gen_route constant_rng (generator (1 ∷ 3 ∷ [])) [] [] 0 loop 5)
gen_route-Returns_example =
    gen_route-Returns constant_rng (generator (1 ∷ 3 ∷ [])) 0 loop 5 (omega arith) tt
      gateways-AllBelow tt (omega arith)
