-- ===== src/PacketQueues/Space.antt =====
-- src/core/packet_queues.rs: what the answers of `check_space` and `pop` promise.
use mixnet.Base.{
  append_assoc, ◌∙◌, length-append, ap, append-nil, map, sym, ℕ, zero, suc, ◌+◌, ◌≤◌, ◌≡◌, ◌↔◌, ◌⊎◌,
  inl, inr, refl, Bool, true, false, List, [], ◌∷◌, ◌++◌, Option, some, ok, length, arith,
}
use mathlib.Core.Bool.{false≢true}
use mixnet.PacketQueues.{AddressedPacket}
use mixnet.PacketQueues.Authored.{
  AuthoredPacketQueue, AuthoredPacketQueueConfig, check_space, push, pop, len,
}

-- `check_space` succeeds exactly if the packets fit in the capacity with those that are in the
-- queue, and the queue is empty where it is for one message only.
pub check_space_iff :
    (q : AuthoredPacketQueue) (n : ℕ)
    → (check_space q n ≡ ok tt)
      ↔ ((len q + n ≤ q.config.capacity) × ((q.config.multiple_messages ≡ true) ⊎ (len q ≡ 0)))
unfolding check_space len
check_space_iff q n = ground arith

abbrev pub push_all : AuthoredPacketQueue → List AddressedPacket → AuthoredPacketQueue
push_all q [] = q
push_all q (packet ∷ packets) = push_all (push q packet) packets

-- What that many pops return, one after the other.
abbrev pub pop_all : ℕ → AuthoredPacketQueue → List (Option AddressedPacket)
pop_all zero q = []
pop_all (suc n) q = (pop q).0.0 ∷ pop_all n (pop q).1

with_queue : AuthoredPacketQueue → List AddressedPacket → AuthoredPacketQueue
with_queue q packets = record q { queue = packets }

push_all_lem :
    (q : AuthoredPacketQueue) (packets : List AddressedPacket)
    → push_all q packets ≡ with_queue q (q.queue ++ packets)
unfolding push with_queue
push_all_lem q [] = ap (with_queue q) (sym (append-nil q.queue))
push_all_lem q (p ∷ ps) =
    push_all_lem (push q p) ps ∙ ap (with_queue q) (append_assoc q.queue (p ∷ []) ps)

pop_all_lem :
    (config : AuthoredPacketQueueConfig) (packets : List AddressedPacket)
    → pop_all (length packets) (record { config = config; queue = packets }) ≡ map some packets
unfolding pop
pop_all_lem config [] = refl
pop_all_lem config (p ∷ ps) = ap (λ rest. some p ∷ rest) (pop_all_lem config ps)

-- Packets for which `check_space` finds room can be pushed one after the other: the queue stays
-- within its capacity, and pops then return what was in the queue and the pushed packets, in order.
pub push_all-pop_all :
    (q : AuthoredPacketQueue) (packets : List AddressedPacket)
    → check_space q (length packets) ≡ ok tt
    → (len (push_all q packets) ≤ q.config.capacity)
      × (pop_all (len q + length packets) (push_all q packets) ≡ map some (q.queue ++ packets))
unfolding len with_queue
push_all-pop_all q packets h =
    let (room, _) = (check_space_iff q (length packets)).0 h in
    let whole : length (q.queue ++ packets) ≡ length q.queue + length packets =
      length-append q.queue packets in
    rw (push_all_lem q packets)
      (omega arith, rw (← whole) (pop_all_lem q.config (q.queue ++ packets)))

pop_space_cases :
    (capacity : ℕ) (multiple : Bool) (packets : List AddressedPacket) (n : ℕ)
    → let q : AuthoredPacketQueue = record {
      config = record { capacity = capacity; multiple_messages = multiple };
      queue = packets;
    } in
      check_space (pop q).1 n ≡ ok tt → (check_space q n ≡ ok tt) ⊎ ((pop q).0.1 ≡ true)
unfolding pop len
pop_space_cases capacity multiple [] n h = inl h
pop_space_cases capacity true (p ∷ ps) n h = inr refl
pop_space_cases capacity false (p ∷ []) n h = inr refl
pop_space_cases capacity false (p ∷ p' ∷ ps) n h = elim ((check_space_iff _ n).0 h).1 [
  | inl e ↦ absurd (false≢true e)
  | inr e ↦ absurd (omega arith)
]

-- If `check_space` succeeds after a pop, it did so before, or the pop said that it might now.
pub pop_space :
    (q : AuthoredPacketQueue) (n : ℕ)
    → check_space (pop q).1 n ≡ ok tt
    → (check_space q n ≡ ok tt) ⊎ ((pop q).0.1 ≡ true)
pop_space q n h = pop_space_cases q.config.capacity q.config.multiple_messages q.queue n h
