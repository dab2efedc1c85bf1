-- ===== src/PacketQueues/Forward.antt =====
-- src/core/packet_queues.rs: `ForwardPacketQueue`, over the binary heap of the standard library. An
-- instant is a number.
use mixnet.Base.{ℕ, Bool, true, false, not, Option, none, some, leb, ltb, ◌==◌}
use mixnet.BinaryHeap.{BinaryHeap}
use mixnet.PacketQueues.{AddressedPacket}

pub record ForwardPacket : Type 0 where
  pub deadline : ℕ
  pub packet : AddressedPacket

-- The order of `ForwardPacket::cmp`: the earliest deadline is the greatest.
abbrev pub packet_le : ForwardPacket → ForwardPacket → Bool
packet_le a b = leb b.deadline a.deadline

-- Equality of what `next_deadline` returns.
unfoldable pub same_deadline : Option ℕ → Option ℕ → Bool
same_deadline none none = true
same_deadline (some a) (some b) = a == b
same_deadline none (some b) = false
same_deadline (some a) none = false

unfoldable pub deadline_of : Option ForwardPacket → Option ℕ
deadline_of none = none
deadline_of (some packet) = some packet.deadline

module _ (bh : BinaryHeap packet_le) where
  pub record ForwardPacketQueue : Type 0 where
    pub capacity : ℕ
    pub queue : bh.Heap

  unfoldable pub new : ℕ → ForwardPacketQueue
  new capacity = record { capacity = capacity; queue = bh.with_capacity capacity }

  unfoldable pub next_deadline : ForwardPacketQueue → Option ℕ
  unfolding deadline_of
  next_deadline q = deadline_of (bh.peek q.queue)

  unfoldable pub has_space : ForwardPacketQueue → Bool
  has_space q = ltb (bh.len q.queue) q.capacity

  -- Whether the deadline at the head changed, and the queue.
  unfoldable pub insert : ForwardPacketQueue → ℕ → AddressedPacket → Bool × ForwardPacketQueue
  insert q deadline packet =
      let prev_deadline = next_deadline q in
      let q' = record q {
        queue = bh.push q.queue (record { deadline = deadline; packet = packet });
      } in
      (not (same_deadline (next_deadline q') prev_deadline), q')

  unfoldable pub pop : ForwardPacketQueue → Option AddressedPacket × ForwardPacketQueue
  pop q = elim (bh.pop q.queue) [
    | none ↦ (none, q)
    | some (packet, queue) ↦ (some packet.packet, record q { queue = queue })
  ]
