-- ===== src/PacketQueues/Authored.antt =====
-- src/core/packet_queues.rs: `AuthoredPacketQueue`, a VecDeque, here a list with the front first.
use mixnet.Base.{
  ℕ, Bool, true, false, ◌&&◌, ◌||◌, List, [], ◌∷◌, ◌++◌, Option, none, some, Result, ok, err, ltb,
  if◌then◌else◌, length, checked_sub,
}
use mixnet.PacketQueues.{AddressedPacket}

pub record AuthoredPacketQueueConfig : Type 0 where
  pub capacity : ℕ
  pub multiple_messages : Bool

-- There will never be enough space, or there are too many packets at the moment.
pub data CheckSpaceErr : Type 0 where
  never_enough too_long : CheckSpaceErr

pub record AuthoredPacketQueue : Type 0 where
  pub config : AuthoredPacketQueueConfig
  pub queue : List AddressedPacket

unfoldable pub new : AuthoredPacketQueueConfig → AuthoredPacketQueue
new config = record { config = config; queue = [] }

unfoldable pub len : AuthoredPacketQueue → ℕ
len q = length q.queue

unfoldable pub check_space : AuthoredPacketQueue → ℕ → Result (Unit {0}) CheckSpaceErr
check_space q num_packets = elim (checked_sub q.config.capacity num_packets) [
  | none ↦ err never_enough
  | some max_len ↦
      let max_len' = if q.config.multiple_messages then max_len else 0 in
      if ltb max_len' (length q.queue) then err too_long else ok tt
]

unfoldable pub push : AuthoredPacketQueue → AddressedPacket → AuthoredPacketQueue
push q packet = record q { queue = q.queue ++ (packet ∷ []) }

pop_front : List AddressedPacket → Option AddressedPacket × List AddressedPacket
pop_front [] = (none, [])
pop_front (packet ∷ packets) = (some packet, packets)

is_some : {A : Type 0} → Option A → Bool
is_some none = false
is_some (some a) = true

queue_is_empty : List AddressedPacket → Bool
queue_is_empty [] = true
queue_is_empty (packet ∷ packets) = false

-- The packet, whether `check_space` might now succeed where it would not before, and the queue.
unfoldable pub pop : AuthoredPacketQueue → (Option AddressedPacket × Bool) × AuthoredPacketQueue
unfolding pop_front is_some queue_is_empty
pop q =
    let popped = pop_front q.queue in
    let packet = popped.0 in
    let queue = popped.1 in
    let space = is_some packet && (q.config.multiple_messages || queue_is_empty queue) in
    ((packet, space), record q { queue = queue })
