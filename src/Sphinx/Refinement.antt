-- ===== src/Sphinx/Refinement.antt =====
-- src/core/sphinx/build.rs: a built header is the layers that the packet format describes.
use mixnet.Base.{
  none, ◌<◌, length-to_le_bytes, suc, ◌+◌, ◌-◌, ◌*◌, ◌≤◌, ◌≡◌, refl, Bytes, some, List, [], ◌∷◌,
  ◌++◌, length, length-drop, arith, cut, AllOf, drop,
}
use mixnet.Sphinx.{
  raw_action_deliver_cover_with_id, raw_action_deliver_cover, raw_action_deliver_reply,
  raw_action_deliver_request, KxPublic, Target, mixnode_index, peer_id, mac_size, actions_size,
  raw_action_size, header_size, kx_public_size, max_hops, peer_id_size,
  raw_action_forward_to_peer_id,
}
use mixnet.Sphinx.Packages.{Packages}
use mixnet.Sphinx.Delay.{zero_delay}
use mixnet.Sphinx.Crypto.{gen_kx_secret}
use mixnet.Sphinx.KeyExchange.{
  chain, first_scalar, length-chain, gen_kx_public_and_shared_secrets_lem,
}
use mixnet.Sphinx.Header.{PacketKind, request, reply, cover, Built, build_header, backward}
use mixnet.Sphinx.Onion.{
  count_peer_ids, layer, IsTarget, IsPacketKind, room, total_delay, deliver_action,
}
use mixnet.Sphinx.Writes.{length-with_id}
use mixnet.Sphinx.Layers.{random, spare, build_actions-layer}

deliver_action-fits : (kind : PacketKind) → IsPacketKind kind → length (deliver_action kind) ≤ 18
deliver_action-fits request i = omega (arith, length-to_le_bytes 2 raw_action_deliver_request)
deliver_action-fits (reply id) i = omega (arith, length-with_id raw_action_deliver_reply id, i)
deliver_action-fits (cover none) i = omega (arith, length-to_le_bytes 2 raw_action_deliver_cover)
deliver_action-fits (cover (some id)) i =
    omega (arith, length-with_id raw_action_deliver_cover_with_id id, i)

room_most :
    (targets : List Target) (kind : PacketKind)
    → AllOf IsTarget targets
    → IsPacketKind kind
    → room targets kind ≤ length targets * 18 + count_peer_ids targets * peer_id_size + 18
room_most [] kind it ik = omega (arith, deliver_action-fits kind ik)
room_most (mixnode_index index ∷ targets) kind it ik =
    omega (arith, length-to_le_bytes 2 index, room_most targets kind it.1 ik)
room_most (peer_id id ∷ targets) kind it ik =
    omega
      (arith, length-with_id raw_action_forward_to_peer_id id, it.0, room_most targets kind it.1 ik)

-- The actions of a route of at most `MAX_HOPS` hops, of which at most one has a peer id, fit.
pub room-fits :
    (targets : List Target) (kind : PacketKind)
    → AllOf IsTarget targets
    → IsPacketKind kind
    → length targets < max_hops
    → count_peer_ids targets ≤ 1
    → room targets kind ≤ actions_size
room-fits targets kind it ik few one = omega (arith, room_most targets kind it ik)

module _ {State : Type 0} (p : Packages State) where
  -- What a header for a route is to be, from the state of the generator.
  abbrev pub described : State → List Target → List KxPublic → PacketKind → Built p
  described s targets their_kx_publics kind =
      let x = first_scalar p s in
      let s' = (gen_kx_secret p s).1 in
      let secrets = chain p x their_kx_publics in
      record {
        header = p.mul_base x ++ layer p (random p kind s') kind targets secrets [];
        kx_shared_secrets = secrets;
        total_delay = total_delay p (zero_delay p) targets secrets;
        state = (p.fill_bytes s' (spare p kind s' 0 targets)).1;
      }

  -- If the header and the ids of the targets and of the packet kind are arrays of their sizes, the
  -- mixnode indices are in range, there is a public key for each hop, at most `MAX_HOPS` hops and at
  -- most one target that is a peer id, then building a header does not panic, and whatever the buffer held, the two passes over
  -- the hops leave the header that the packet format describes: the public key of the first scalar,
  -- and for each hop a MAC over its actions and the padding that it sees, and its encrypted actions,
  -- which are its own action and the MAC and actions of the next hop; and the secrets are those of
  -- the hops in turn, and the delay is the sum of the delays of all but the last hop.
  pub build_header-described :
      (header : Bytes) (s : State) (targets : List Target) (their_kx_publics : List KxPublic)
      (kind : PacketKind)
      → length header ≡ header_size
      → AllOf IsTarget targets
      → IsPacketKind kind
      → length their_kx_publics ≡ suc (length targets)
      → length targets < max_hops
      → count_peer_ids targets ≤ 1
      → build_header p header s targets their_kx_publics kind
        ≡ some (described s targets their_kx_publics kind)
  unfolding build_header backward
  build_header-described header s targets their_kx_publics kind h it ik n few one =
      let x = first_scalar p s in
      let s' = (gen_kx_secret p s).1 in
      let secrets = chain p x their_kx_publics in
      let (gap, rest, e, g, m) =
        cut mac_size (drop kx_public_size header)
          (omega (arith, length-drop kx_public_size header)) in
      let (more, built) =
        build_actions-layer p kind s' targets secrets 0 [] gap rest []
          (actions_size - raw_action_size) (zero_delay p) [] it ik
          (omega (arith, length-chain p x their_kx_publics)) refl g refl
          (omega (arith, length-drop kx_public_size header)) refl
          (omega (arith, room-fits targets kind it ik few one)) (omega arith) in
      rw (gen_kx_public_and_shared_secrets_lem p s their_kx_publics (omega arith), e, built) refl
