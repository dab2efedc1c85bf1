-- ===== src/PacketQueues/Examples.antt =====
-- Runs of the code of src/core/packet_queues.rs.
use mixnet.Base.{AllOf, ℕ, ◌+◌, ◌≡◌, ◌≤◌, ◌↔◌, ◌⊎◌, refl, true, [], ◌∷◌, some, none, ok, map, arith}
use mixnet.BinaryHeap.{BinaryHeap, Inserts}
use mixnet.BinaryHeap.Listed.{listed_heap}
use mixnet.PacketQueues.{AddressedPacket}
use mixnet.PacketQueues.Authored
use mixnet.PacketQueues.Authored.{AuthoredPacketQueue, check_space, len}
use mixnet.PacketQueues.Space.{push_all, pop_all, push_all-pop_all, pop_space}
use mixnet.PacketQueues.Forward
use mixnet.PacketQueues.Forward.{
  ForwardPacket, ForwardPacketQueue, packet_le, next_deadline, has_space,
}
use mixnet.PacketQueues.Deadlines.{earlier, IsLater, insert_lem, pop_lem}

abbrev small_packet : ℕ → AddressedPacket
small_packet n = record { peer_id = n ∷ []; packet = n ∷ n ∷ [] }

abbrev authored : AuthoredPacketQueue
authored = record {
  config = record { capacity = 3; multiple_messages = true };
  queue = small_packet 1 ∷ [];
}

authored_space : check_space authored 2 ≡ ok tt
unfolding check_space
authored_space = refl

push_all-pop_all_example :
    let packets = small_packet 2 ∷ small_packet 3 ∷ [] in
    (len (push_all authored packets) ≤ 3)
    × (pop_all (len authored + 2) (push_all authored packets) ≡ map some (small_packet 1 ∷ packets))
push_all-pop_all_example =
    push_all-pop_all authored (small_packet 2 ∷ small_packet 3 ∷ []) authored_space

popped_space : check_space (Authored.pop authored).1 3 ≡ ok tt
unfolding check_space Authored.pop
popped_space = refl

pop_space_example : (check_space authored 3 ≡ ok tt) ⊎ ((Authored.pop authored).0.1 ≡ true)
pop_space_example = pop_space authored 3 popped_space

abbrev heap : BinaryHeap packet_le
heap = listed_heap packet_le (λ a. ground arith) (λ a b c h k. ground arith) (λ a b h. ground arith)

abbrev forward : ForwardPacketQueue heap
forward = record {
  capacity = 3;
  queue =
      record { deadline = 20; packet = small_packet 2 }
      ∷ record { deadline = 10; packet = small_packet 1 }
      ∷ [];
}

insert_lem_example :
    (next_deadline heap (Forward.insert heap forward 5 (small_packet 3)).1
      ≡ some (earlier 5 (next_deadline heap forward)))
    × (((Forward.insert heap forward 5 (small_packet 3)).0 ≡ true)
        ↔ IsLater 5 (next_deadline heap forward))
insert_lem_example = insert_lem heap forward 5 (small_packet 3)

forward_space : has_space heap forward ≡ true
unfolding has_space
forward_space = refl

pop_lem_example :
    (next_deadline heap forward ≡ none) × (Forward.pop heap forward ≡ (none, forward))
    ⊎ ((a : ForwardPacket) × (rest : heap.Heap) × (Forward.pop heap forward
          ≡ (some a.packet, record forward { queue = rest }))
        × (next_deadline heap forward ≡ some a.deadline)
        × Inserts a (heap.elements rest) (heap.elements forward.queue)
        × AllOf (λ b. a.deadline ≤ b.deadline) (heap.elements rest))
pop_lem_example = pop_lem heap forward
