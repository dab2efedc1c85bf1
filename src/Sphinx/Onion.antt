-- ===== src/Sphinx/Onion.antt =====
-- src/core/sphinx/packet.rs: the contents of a header as its comments describe them, hop by hop from
-- the first: the routing actions of a hop hold its action and, encrypted with it, those of the next.
use mixnet.Base.{
  suc, ℕ, ◌+◌, ◌-◌, ◌≤◌, ◌≡◌, Bytes, none, some, List, [], ◌∷◌, ◌++◌, length, drop, replicate,
  to_le_bytes,
}
use mixnet.Sphinx.{
  max_mixnode_index, Target, mixnode_index, peer_id, mac_size, actions_size, max_actions_pad_size,
  raw_action_size, peer_id_size, surb_id_size, cover_id_size, raw_action_forward_to_peer_id,
  raw_action_deliver_request, raw_action_deliver_reply, raw_action_deliver_cover,
  raw_action_deliver_cover_with_id,
}
use mixnet.Sphinx.Packages.{Packages}
use mixnet.Sphinx.Delay.{exp, add}
use mixnet.Sphinx.Crypto.{
  SharedSecret, apply_keystream, small_derived_secrets, mac_key, actions_encryption_key, delay_seed,
  compute_mac,
}
use mixnet.Sphinx.Header.{PacketKind, request, reply, cover}

abbrev pub forward_action : Target → Bytes
forward_action (mixnode_index index) = to_le_bytes raw_action_size index
forward_action (peer_id id) = to_le_bytes raw_action_size raw_action_forward_to_peer_id ++ id

abbrev pub deliver_action : PacketKind → Bytes
deliver_action request = to_le_bytes raw_action_size raw_action_deliver_request
deliver_action (reply id) = to_le_bytes raw_action_size raw_action_deliver_reply ++ id
deliver_action (cover none) = to_le_bytes raw_action_size raw_action_deliver_cover
deliver_action (cover (some id)) =
    to_le_bytes raw_action_size raw_action_deliver_cover_with_id ++ id

-- Mixnode indices are bounded; peer ids, SURB ids and cover ids are arrays.
abbrev pub IsTarget : Target → Type 0
IsTarget (mixnode_index index) = index ≤ max_mixnode_index
IsTarget (peer_id id) = length id ≡ peer_id_size

abbrev pub IsPacketKind : PacketKind → Type 0
IsPacketKind request = Unit {0}
IsPacketKind (reply id) = length id ≡ surb_id_size
IsPacketKind (cover none) = Unit {0}
IsPacketKind (cover (some id)) = length id ≡ cover_id_size

abbrev pub count_peer_ids : List Target → ℕ
count_peer_ids [] = 0
count_peer_ids (mixnode_index index ∷ targets) = count_peer_ids targets
count_peer_ids (peer_id id ∷ targets) = suc (count_peer_ids targets)

-- The room that the actions of all hops take.
abbrev pub room : List Target → PacketKind → ℕ
room [] kind = length (deliver_action kind)
room (target ∷ targets) kind = length (forward_action target) + mac_size + room targets kind

module _ {State : Type 0} (p : Packages State) where
  abbrev pub stream : SharedSecret → Bytes
  stream kx_shared_secret =
      p.chacha20 (actions_encryption_key p (small_derived_secrets p kx_shared_secret))
        (actions_size + max_actions_pad_size)

  -- The padding that a hop generates for the next, from its own.
  unfoldable pub next_pad : Target → SharedSecret → Bytes → Bytes
  next_pad target kx_shared_secret pad =
      apply_keystream (pad ++ replicate (length (forward_action target) + mac_size) 0)
        (drop (actions_size - length pad) (stream kx_shared_secret))

  -- The MAC of a hop and its encrypted actions.
  unfoldable pub seal : SharedSecret → Bytes → Bytes → Bytes
  seal kx_shared_secret actions pad =
      let encrypted = apply_keystream actions (stream kx_shared_secret) in
      compute_mac p encrypted pad (mac_key p (small_derived_secrets p kx_shared_secret))
      ++ encrypted

  module _ (random : ℕ → Bytes) (kind : PacketKind) where
    unfoldable pub layer : List Target → List SharedSecret → Bytes → Bytes
    layer targets [] pad = []
    layer [] (kx_shared_secret ∷ kx_shared_secrets) pad =
        seal kx_shared_secret
          (deliver_action kind
            ++ random (actions_size - (length pad + length (deliver_action kind))))
          pad
    layer (target ∷ targets) (kx_shared_secret ∷ kx_shared_secrets) pad =
        seal kx_shared_secret
          (forward_action target
            ++ layer targets kx_shared_secrets (next_pad target kx_shared_secret pad))
          pad

  -- The sum of the delays of the hops before the last.
  abbrev pub total_delay : p.F64 → List Target → List SharedSecret → p.F64
  total_delay d targets [] = d
  total_delay d [] (kx_shared_secret ∷ kx_shared_secrets) = d
  total_delay d (target ∷ targets) (kx_shared_secret ∷ kx_shared_secrets) =
      total_delay (add p d (exp p (delay_seed p (small_derived_secrets p kx_shared_secret))))
        targets kx_shared_secrets
