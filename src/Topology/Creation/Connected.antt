-- ===== src/Topology/Creation/Connected.antt =====
-- src/core/topology.rs: `RouteGenerator::new`, the gateways that it takes.
use mixnet.Base.{
  ◌<◌, ℕ, zero, suc, ◌≡◌, refl, Bool, List, [], ◌∷◌, some, length, inl, inr, Bool-cases,
}
use mixnet.Sphinx.{PeerId, KxPublic}
use mixnet.Topology.{Mixnode, LocalNode, Topology, mixnode, non_mixnode}
use mixnet.Topology.Creation.{connected, max_connected_gateway_indices, new_generator}
use mixnet.Topology.Route.Room.{IsLocal, AllBelow}
use mixnet.Topology.Route.Hops.{get_elem?-below}

-- The indices of the local node are those of mixnodes: its own, or those of its gateways.
abbrev pub IsLocalNode : ℕ → LocalNode → Type 0
IsLocalNode n (mixnode i) = i < n
IsLocalNode n (non_mixnode gateway_indices) = AllBelow n gateway_indices

pub IsLocalNode-IsLocal : (n : ℕ) (local : LocalNode) → IsLocalNode n local → IsLocal n local
IsLocalNode-IsLocal n (mixnode i) h = h
IsLocalNode-IsLocal n (non_mixnode gateway_indices) h = tt

module _ {X : Type 0} (is_connected : PeerId → Bool) (mixnodes : List (Mixnode X)) where
  connected-AllBelow :
      (limit : ℕ) (indices : List ℕ)
      → AllBelow (length mixnodes) indices
      → (taken : List ℕ) × (connected is_connected mixnodes limit indices ≡ some taken)
        × AllBelow (length mixnodes) taken
  unfolding connected
  connected-AllBelow zero indices h = ([], refl, tt)
  connected-AllBelow (suc limit) [] h = ([], refl, tt)
  connected-AllBelow (suc limit) (i ∷ indices) (lt, h) =
      let (node, there) = get_elem?-below mixnodes i lt in
      elim (Bool-cases (is_connected node.peer_id)) [
        | inl yes_it ↦
            let (taken, e, below) = connected-AllBelow limit indices h in
            rw (there, connected, yes_it, connected, e) (i ∷ taken, refl, (lt, below))
        | inr not_it ↦
            let (taken, e, below) = connected-AllBelow (suc limit) indices h in
            rw (there, connected, not_it, connected) (taken, e, below)
      ]

  new_generator_at :
      (key : KxPublic) (local : LocalNode) (local_peer_id : PeerId)
      → IsLocalNode (length mixnodes) local
      → let t : Topology X = record {
        mixnodes = mixnodes;
        local_kx_public = key;
        local_node = local;
      } in
        (indices : List ℕ) × (new_generator t local_peer_id is_connected
          ≡ some (record {
            topology = t;
            local_peer_id = local_peer_id;
            connected_gateway_indices = indices;
          }))
        × AllBelow (length mixnodes) indices
  unfolding new_generator
  new_generator_at key (mixnode i) local_peer_id h = ([], refl, tt)
  new_generator_at key (non_mixnode gateway_indices) local_peer_id h =
      let (taken, done, below) =
        connected-AllBelow max_connected_gateway_indices gateway_indices h in
      (taken, rw (done) refl, below)

module _ {X : Type 0} where
  -- A generator for a topology with existing gateways is made without a panic.
  pub new_generator_lem :
      (t : Topology X) (local_peer_id : PeerId) (is_connected : PeerId → Bool)
      → IsLocalNode (length t.mixnodes) t.local_node
      → (indices : List ℕ) × (new_generator t local_peer_id is_connected
          ≡ some (record {
            topology = t;
            local_peer_id = local_peer_id;
            connected_gateway_indices = indices;
          }))
        × AllBelow (length t.mixnodes) indices
  new_generator_lem t local_peer_id is_connected h =
      new_generator_at is_connected t.mixnodes t.local_kx_public t.local_node local_peer_id h
