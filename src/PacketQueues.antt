-- ===== src/PacketQueues.antt =====
-- src/core/packet_queues.rs: the queue of authored packets and the queue of packets to forward.
pub mod Authored
pub mod Space
pub mod Forward
pub mod Deadlines
mod Examples
use mixnet.Base.{Bytes}
use mixnet.Sphinx.{PeerId}

pub record AddressedPacket : Type 0 where
  pub peer_id : PeerId
  pub packet : Bytes
