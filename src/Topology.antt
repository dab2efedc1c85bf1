-- ===== src/Topology.antt =====
-- src/core/topology.rs: the mixnodes of a session and which of them the local node talks to. `none`
-- is a panic. The random choice of the gateways, in `Topology::new`, is an argument.
pub mod UsedIndices
pub mod RouteGenerator
pub mod Choice
pub mod Creation
pub mod Used
pub mod Route
pub mod Gateways
mod Examples
use mixnet.Base.{
  ◌%◌, ◌^◌, ℕ, suc, zero, ◌+◌, ◌-◌, ◌≡◌, Bool, true, false, Bytes, List, [], ◌∷◌, ◌++◌, Option,
  none, some, Result, ok, err, length, get_elem?, ◌>>=◌, min,
}
use mixnet.Sphinx.{MixnodeIndex, PeerId, KxPublic, Target, mixnode_index, peer_id, try_from}

pub record Mixnode (X : Type 0) : Type 0 where
  pub kx_public : KxPublic
  pub peer_id : PeerId
  pub extra : X

pub data LocalNode : Type 0 where
  mixnode : MixnodeIndex → LocalNode
  non_mixnode : List MixnodeIndex → LocalNode

pub data TopologyErr : Type 0 where
  bad_mixnode_index : MixnodeIndex → TopologyErr
  too_few_mixnodes no_connected_gateway_mixnodes : TopologyErr

pub record Topology (X : Type 0) : Type 0 where
  pub mixnodes : List (Mixnode X)
  pub local_kx_public : KxPublic
  pub local_node : LocalNode

-- The indices from `i` on, `n` of them.
pub range : ℕ → ℕ → List ℕ
range i zero = []
range i (suc n) = let rest = range (suc i) n in i ∷ rest

module _ {X : Type 0} where
  unfoldable pub is_mixnode : Topology X → Bool
  is_mixnode t = elim (t.local_node) [ mixnode i ↦ true | non_mixnode is ↦ false ]

  unfoldable pub mixnode_index_to_peer_id : Topology X → MixnodeIndex → Result PeerId TopologyErr
  mixnode_index_to_peer_id t i = elim (get_elem? t.mixnodes i) [
    | none ↦ err (bad_mixnode_index i)
    | some node ↦ ok node.peer_id
  ]

  unfoldable pub target_to_peer_id : Topology X → Target → Result PeerId TopologyErr
  target_to_peer_id t (mixnode_index i) = mixnode_index_to_peer_id t i
  target_to_peer_id t (peer_id id) = ok id

  pub nodes_at : List (Mixnode X) → List ℕ → Option (List (Mixnode X))
  nodes_at mixnodes [] = some []
  nodes_at mixnodes (i ∷ indices) = do
    node ← get_elem? mixnodes i
    nodes ← nodes_at mixnodes indices
    some (node ∷ nodes)

  -- All other mixnodes for a mixnode, and the gateways for any other node.
  pub reserved_peers : Topology X → Option (List (Mixnode X))
  reserved_peers t = elim (t.local_node) [
    | mixnode i ↦
        let num = length t.mixnodes % 2 ^ 16 in
        nodes_at t.mixnodes (range 0 i ++ range (i + 1) (num - (i + 1)))
    | non_mixnode gateway_indices ↦ nodes_at t.mixnodes gateway_indices
  ]
