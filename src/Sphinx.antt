-- ===== src/Sphinx.antt =====
-- src/core/sphinx/packet.rs and src/core/sphinx/target.rs: the sizes of the packet format, mixnode
-- indices and hop targets.
pub mod Packages
pub mod Delay
pub mod Crypto
pub mod Keystream
pub mod KeyExchange
pub mod StandIn
pub mod Header
pub mod Onion
pub mod Writes
pub mod Passes
pub mod Layers
pub mod Refinement
pub mod Build
pub mod Peel
pub mod Travel
mod Examples
use mixnet.Base.{ℕ, ◌+◌, ◌-◌, ◌*◌, Option, none, some, Bytes, if◌then◌else◌, leb}

abbrev pub kx_public_size : ℕ
kx_public_size = 32

abbrev pub mac_size : ℕ
mac_size = 16

abbrev pub max_hops : ℕ
max_hops = 6

abbrev pub raw_mixnode_index_size : ℕ
raw_mixnode_index_size = 2

abbrev pub max_mixnode_index : ℕ
max_mixnode_index = 0xfeff

abbrev pub raw_action_size : ℕ
raw_action_size = raw_mixnode_index_size

abbrev pub raw_action_forward_to_peer_id : ℕ
raw_action_forward_to_peer_id = 0xff00

abbrev pub raw_action_deliver_request : ℕ
raw_action_deliver_request = 0xff01

abbrev pub raw_action_deliver_reply : ℕ
raw_action_deliver_reply = 0xff02

abbrev pub raw_action_deliver_cover : ℕ
raw_action_deliver_cover = 0xff03

abbrev pub raw_action_deliver_cover_with_id : ℕ
raw_action_deliver_cover_with_id = 0xff04

abbrev pub peer_id_size : ℕ
peer_id_size = 32

abbrev pub max_actions_pad_size : ℕ
max_actions_pad_size = raw_action_size + peer_id_size + mac_size

abbrev pub surb_cover_id_size : ℕ
surb_cover_id_size = 16

abbrev pub surb_id_size : ℕ
surb_id_size = surb_cover_id_size

abbrev pub cover_id_size : ℕ
cover_id_size = surb_cover_id_size

abbrev pub actions_size : ℕ
actions_size =
    max_hops * (raw_action_size + mac_size) + peer_id_size + surb_cover_id_size - mac_size

abbrev pub payload_data_size : ℕ
payload_data_size = 2048

abbrev pub payload_tag_size : ℕ
payload_tag_size = 16

abbrev pub header_size : ℕ
header_size = kx_public_size + mac_size + actions_size

abbrev pub payload_size : ℕ
payload_size = payload_data_size + payload_tag_size

abbrev pub packet_size : ℕ
packet_size = header_size + payload_size

abbrev pub shared_secret_size : ℕ
shared_secret_size = 32

abbrev pub surb_size : ℕ
surb_size = raw_mixnode_index_size + header_size + shared_secret_size

-- A mixnode index is its raw number.
abbrev pub MixnodeIndex : Type 0
MixnodeIndex = ℕ

abbrev pub PeerId : Type 0
PeerId = Bytes

abbrev pub KxPublic : Type 0
KxPublic = Bytes

-- `TryFrom<usize>` and `TryFrom<RawMixnodeIndex>` for `MixnodeIndex`.
unfoldable pub try_from : ℕ → Option MixnodeIndex
try_from index = if leb index max_mixnode_index then some index else none

pub data Target : Type 0 where
  mixnode_index : MixnodeIndex → Target
  peer_id : PeerId → Target
