-- ===== src/Topology/Creation.antt =====
-- src/core/topology.rs: `Topology::new` and `RouteGenerator::new`. `none` is a panic. The arguments
-- `sample` and `is_connected` are `rand::seq::index::sample` and the answer of the network.
pub mod Connected
use mixnet.Base.{
  ℕ, zero, suc, Bool, true, false, ◌&&◌, Bytes, List, [], ◌∷◌, Option, none, some, length,
  get_elem?, ◌==◌, ◌>>=◌, min, if◌then◌else◌,
}
use mixnet.Sphinx.{MixnodeIndex, PeerId, KxPublic, try_from}
use mixnet.Topology.{Mixnode, Topology, mixnode, non_mixnode}
use mixnet.Topology.RouteGenerator.{RouteGenerator}

abbrev pub max_connected_gateway_indices : ℕ
max_connected_gateway_indices = 5

same_bytes : Bytes → Bytes → Bool
same_bytes [] [] = true
same_bytes (a ∷ xs) (b ∷ ys) = let rest = same_bytes xs ys in (a == b) && rest
same_bytes [] (b ∷ ys) = false
same_bytes (a ∷ xs) [] = false

all_indices : List ℕ → Option (List MixnodeIndex)
all_indices [] = some []
all_indices (i ∷ is) = do index ← try_from i; indices ← all_indices is; some (index ∷ indices)

module _ {X : Type 0} where
  -- The index, from `i` on, of the first mixnode with the given key.
  position : KxPublic → ℕ → List (Mixnode X) → Option ℕ
  position key i [] = none
  position key i (node ∷ nodes) =
      let rest = position key (suc i) nodes in
      if same_bytes node.kx_public key then some i else rest

  unfoldable pub new_topology :
      (sample : ℕ → ℕ → List ℕ) → List (Mixnode X) → KxPublic → ℕ → Option (Topology X)
  unfolding same_bytes all_indices position
  new_topology sample mixnodes local_kx_public num_gateway_mixnodes =
      elim (position local_kx_public 0 mixnodes) [
        | none ↦ do
          gateways ←
              all_indices (sample (length mixnodes) (min num_gateway_mixnodes (length mixnodes)))
          some (record {
            mixnodes = mixnodes;
            local_kx_public = local_kx_public;
            local_node = non_mixnode gateways;
          })
        | some i ↦ do
          index ← try_from i
          some (record {
            mixnodes = mixnodes;
            local_kx_public = local_kx_public;
            local_node = mixnode index;
          })
      ]

  -- The connected ones of the gateways, up to the limit.
  pub connected :
      (PeerId → Bool) → List (Mixnode X) → ℕ → List MixnodeIndex → Option (List MixnodeIndex)
  connected is_connected mixnodes zero indices = some []
  connected is_connected mixnodes (suc limit) [] = some []
  connected is_connected mixnodes (suc limit) (i ∷ indices) = do
    node ← get_elem? mixnodes i
    let with_it = connected is_connected mixnodes limit indices
    let without_it = connected is_connected mixnodes (suc limit) indices
    if is_connected node.peer_id then (do rest ← with_it; some (i ∷ rest)) else without_it

  unfoldable pub new_generator :
      Topology X
      → (local_peer_id : PeerId) (is_connected : PeerId → Bool) → Option (RouteGenerator X)
  unfolding connected
  new_generator t local_peer_id is_connected = do
    indices ← elim (t.local_node) [
      | mixnode i ↦ some []
      | non_mixnode gateway_indices ↦
          connected is_connected t.mixnodes max_connected_gateway_indices gateway_indices
    ]
    some (record {
      topology = t;
      local_peer_id = local_peer_id;
      connected_gateway_indices = indices;
    })
