-- ===== src/PacketQueues/Deadlines.antt =====
-- src/core/packet_queues.rs: the packets to forward leave in the order of their deadlines.
use mixnet.Base.{
  AllOf, ap, ℕ, suc, ◌≤◌, ◌<◌, ◌≡◌, ◌↔◌, ◌⊎◌, inl, inr, refl, true, List, [], ◌∷◌, Option, none,
  some, length, arith,
}
use mixnet.BinaryHeap.{BinaryHeap, Inserts, here, there, AllBelow}
use mixnet.Base.{lt-or-le, eq→==, ne→not-==, min, not, ltb→lt, leb→le, ap, subst, ◌∙◌}
use mixnet.PacketQueues.{AddressedPacket}
use mixnet.PacketQueues.Forward.{
  ForwardPacket, packet_le, ForwardPacketQueue, next_deadline, has_space, insert, pop,
  same_deadline, deadline_of,
}

-- The least of the deadlines, if there is a packet.
abbrev pub earlier : ℕ → Option ℕ → ℕ
earlier d none = d
earlier d (some e) = min d e

earlier_comm :
    (a b : ℕ) (o : Option ℕ) → earlier a (some (earlier b o)) ≡ earlier b (some (earlier a o))
earlier_comm a b none = omega arith
earlier_comm a b (some c) = omega arith

earlier_le : (d : ℕ) (o : Option ℕ) → earlier d o ≤ d
earlier_le d none = omega arith
earlier_le d (some e) = omega arith

abbrev pub least_deadline : List ForwardPacket → Option ℕ
least_deadline [] = none
least_deadline (packet ∷ packets) = some (earlier packet.deadline (least_deadline packets))

least-Inserts :
    {a : ForwardPacket} {rest packets : List ForwardPacket}
    → Inserts a rest packets
    → least_deadline packets ≡ some (earlier a.deadline (least_deadline rest))
least-Inserts here = refl
least-Inserts {a} (there {b} {xs} i) =
    rw (least-Inserts i) (ap some (earlier_comm b.deadline a.deadline (least_deadline xs)))

-- A packet below which all others are in the heap has the least deadline.
greatest-least :
    (a : ForwardPacket) (packets : List ForwardPacket)
    → AllBelow packet_le packets a
    → (e : ℕ) → a.deadline ≤ e
    → a.deadline ≤ earlier e (least_deadline packets)
greatest-least a [] below e h = h
greatest-least a (b ∷ bs) below e h =
    omega (arith, greatest-least a bs below.1 b.deadline (leb→le a.deadline b.deadline below.0))

greatest-least_deadline :
    (a : ForwardPacket) (rest packets : List ForwardPacket)
    → Inserts a rest packets
    → AllBelow packet_le packets a
    → least_deadline packets ≡ some a.deadline
greatest-least_deadline a rest packets i below =
    let e = least-Inserts i in
    let l : a.deadline ≤ earlier a.deadline (some (earlier a.deadline (least_deadline rest))) =
      subst (λ o. a.deadline ≤ earlier a.deadline o) e
        (greatest-least a packets below a.deadline (omega arith)) in
    e ∙ ap some (omega (arith, l, earlier_le a.deadline (least_deadline rest)))

length-Inserts :
    {a : ForwardPacket} {rest packets : List ForwardPacket}
    → Inserts a rest packets
    → length packets ≡ suc (length rest)
length-Inserts here = refl
length-Inserts (there i) = ap suc (length-Inserts i)

earliest :
    (packets : List ForwardPacket) (a : ForwardPacket)
    → AllBelow packet_le packets a
    → AllOf (λ b. a.deadline ≤ b.deadline) packets
earliest [] a below = tt
earliest (b ∷ bs) a below = (leb→le a.deadline b.deadline below.0, earliest bs a below.1)

-- A packet below which all are has a deadline that is not after those of the others.
earliest-Inserts :
    {a : ForwardPacket} {rest packets : List ForwardPacket} (b : ForwardPacket)
    → Inserts a rest packets
    → AllBelow packet_le packets b
    → AllOf (λ c. b.deadline ≤ c.deadline) rest
earliest-Inserts b here below = earliest _ b below.1
earliest-Inserts b (there i) below = (leb→le _ _ below.0, earliest-Inserts b i below.1)

-- There was no deadline, or a later one.
abbrev pub IsLater : ℕ → Option ℕ → Type 0
IsLater d o = (o ≡ none) ⊎ ((e : ℕ) × (o ≡ some e) × (d < e))

changed_iff :
    (d : ℕ) (o : Option ℕ) → (not (same_deadline (some (earlier d o)) o) ≡ true) ↔ IsLater d o
unfolding same_deadline
changed_iff d none = (λ h. inl refl, λ h. refl)
changed_iff d (some e) = elim (lt-or-le d e) [
  | inl l ↦ (λ h. inr (e, refl, l), λ h. rw (ne→not-== (min d e) e (omega arith)))
  | inr l ↦ (
    λ h. absurd (cc (eq→== (min d e) e (omega arith))),
    λ h. absurd (elim h [ inl n ↦ cc | inr (e', p, l') ↦ ground arith ]),
  )
]

module _ (bh : BinaryHeap packet_le) where
  -- The next deadline is the least one of the packets in the queue.
  pub next_deadline_lem :
      (q : ForwardPacketQueue bh) → next_deadline bh q ≡ least_deadline (bh.elements q.queue)
  unfolding next_deadline deadline_of
  next_deadline_lem q = elim (bh.peek_lem q.queue) [
    | inl (e, p) ↦ rw (e, p)
    | inr (a, rest, p, i, below) ↦ rw (p, greatest-least_deadline a rest _ i below)
  ]

  inserted-next_deadline :
      (q : ForwardPacketQueue bh) (deadline : ℕ) (packet : AddressedPacket)
      → next_deadline bh (insert bh q deadline packet).1
        ≡ some (earlier deadline (next_deadline bh q))
  unfolding insert
  inserted-next_deadline q deadline packet =
      rw (next_deadline_lem, next_deadline_lem q) (least-Inserts (bh.elements-push q.queue _))

  -- After an insertion the next deadline is the earlier one of the new deadline and the next one
  -- before, and the answer is that it changed exactly if there was none or a later one.
  pub insert_lem :
      (q : ForwardPacketQueue bh) (deadline : ℕ) (packet : AddressedPacket)
      → (next_deadline bh (insert bh q deadline packet).1
          ≡ some (earlier deadline (next_deadline bh q)))
        × (((insert bh q deadline packet).0 ≡ true) ↔ IsLater deadline (next_deadline bh q))
  unfolding insert
  insert_lem q deadline packet =
      let e = inserted-next_deadline q deadline packet in
      (e, rw (e) (changed_iff deadline (next_deadline bh q)))

  -- An insertion into a queue that has space keeps the number of packets within the capacity.
  pub insert_within :
      (q : ForwardPacketQueue bh) (deadline : ℕ) (packet : AddressedPacket)
      → has_space bh q ≡ true
      → bh.len (insert bh q deadline packet).1.queue ≤ q.capacity
  unfolding insert has_space
  insert_within q deadline packet h =
      let new_packet : ForwardPacket = record { deadline = deadline; packet = packet } in
      omega (
        arith,
        ltb→lt (bh.len q.queue) q.capacity h,
        bh.len_lem q.queue,
        bh.len_lem (bh.push q.queue new_packet),
        length-Inserts (bh.elements-push q.queue new_packet),
      )

  -- A pop returns nothing from an empty queue, and otherwise the packet of the next deadline. That
  -- packet is taken out of the queue, and no packet that stays has an earlier deadline.
  pub pop_lem :
      (q : ForwardPacketQueue bh)
      → (next_deadline bh q ≡ none) × (pop bh q ≡ (none, q))
        ⊎ ((a : ForwardPacket) × (rest : bh.Heap) × (pop bh q
              ≡ (some a.packet, record q { queue = rest }))
            × (next_deadline bh q ≡ some a.deadline)
            × Inserts a (bh.elements rest) (bh.elements q.queue)
            × AllOf (λ b. a.deadline ≤ b.deadline) (bh.elements rest))
  unfolding pop
  pop_lem q = elim (bh.pop_lem q.queue) [
    | inl (e, p) ↦ inl (rw (next_deadline_lem q, e), rw (p, pop))
    | inr (a, rest, p, i, below) ↦ inr (
      a,
      rest,
      rw (p, pop),
      next_deadline_lem q ∙ greatest-least_deadline a (bh.elements rest) _ i below,
      i,
      earliest-Inserts a i below,
    )
  ]
