-- ===== src/Fragment/RoundTrip.antt =====
-- src/core/fragment.rs: a message that is cut into fragments and put together again.
use mixnet.Base.{
  inr, subst, inl, ◌>>=◌, ℕ, ◌+◌, ◌≡◌, refl, List, [], ◌∷◌, ◌++◌, Option, some, Bytes, length,
  flatten, append_assoc, append-nil, ◌∙◌, arith, replicate, length-replicate, ◌<◌, ◌≤◌, ◌-◌,
  AllLength,
}
use mixnet.Sphinx.{surb_size}
use mixnet.Scattered
use mixnet.Scattered.{Scattered}
use mixnet.Scattered.Contents
use mixnet.Fragment.Assembler.{usize_max}
use mixnet.Fragment.{MessageId, Fragment, fragment_size, message_id_size}
use mixnet.Fragment.Message.{from_fragments, extend_fragments}
use mixnet.Fragment.Blueprint.{
  FragmentBlueprint, fragment_blueprints, fragment_index_max, write_except_surbs, write_surbs,
}
use mixnet.Fragment.Blueprint.Spread.{
  AllParts, Spreads, Room-cases, all_data, fragment_blueprints-Spreads,
  fragment_blueprints_too_many,
}
use mixnet.Fragment.Blueprint.Write.{Carries, write-Carries}

-- Each fragment carries the blueprint and the SURBs at its place in the lists.
abbrev pub AllCarry : List FragmentBlueprint → List (List Bytes) → List Fragment → Type 0
AllCarry [] [] [] = Unit {0}
AllCarry (bp ∷ bps) (surbs ∷ rest) (fragment ∷ fragments) =
    Carries bp surbs fragment × AllCarry bps rest fragments
AllCarry _ _ _ = ⊥

extend_fragments-AllCarry :
    (bps : List FragmentBlueprint) (surbs : List (List Bytes)) (fragments : List Fragment)
    (bytes : Bytes) (before : List Bytes)
    → AllCarry bps surbs fragments
    → extend_fragments fragments bytes before
      ≡ some (bytes ++ all_data bps, before ++ flatten surbs)
unfolding extend_fragments flatten
extend_fragments-AllCarry [] [] [] bytes before a = rw (append-nil, append-nil)
extend_fragments-AllCarry [] (s ∷ ss) fs bytes before a = absurd a
extend_fragments-AllCarry [] [] (f ∷ fs) bytes before a = absurd a
extend_fragments-AllCarry (bp ∷ bps) [] fs bytes before a = absurd a
extend_fragments-AllCarry (bp ∷ bps) (s ∷ ss) [] bytes before a = absurd a
extend_fragments-AllCarry (bp ∷ bps) (s ∷ ss) (f ∷ fs) bytes before a =
    rw (a.0.contents, a.0.replies)
      (extend_fragments-AllCarry bps ss fs (bytes ++ Scattered.to_vec bp.contents) (before ++ s) a.1
        ∙ simp append_assoc)

-- Fragments that carry the blueprints of a message, in order, give the message back: its id, all
-- its data and all the SURBs that were filled in.
pub from_fragments-AllCarry :
    (id : MessageId) (last s : ℕ) (d : Bytes) (bps : List FragmentBlueprint)
    (surbs : List (List Bytes)) (fragments : List Fragment)
    → Spreads id last 0 d s bps
    → 0 < length bps
    → AllCarry bps surbs fragments
    → from_fragments fragments ≡ some (record { id = id; payload = d; surbs = flatten surbs })
unfolding from_fragments
from_fragments-AllCarry id last s d [] surbs fragments p h a = absurd (omega arith)
from_fragments-AllCarry id last s d (bp ∷ bps) [] fragments p h a = absurd a
from_fragments-AllCarry id last s d (bp ∷ bps) (q ∷ qs) [] p h a = absurd a
from_fragments-AllCarry id last s d (bp ∷ bps) (q ∷ qs) (f ∷ fs) p h a = rw (
  extend_fragments-AllCarry (bp ∷ bps) (q ∷ qs) (f ∷ fs) [] [] a,
  p.data_kept,
  a.0.same_id,
  p.parts.0.own_id,
)

-- The SURBs of each fragment, as the blueprint asks for.
abbrev pub SurbsFor : List FragmentBlueprint → List (List Bytes) → Type 0
SurbsFor [] [] = Unit {0}
SurbsFor (bp ∷ bps) (surbs ∷ rest) =
    (length surbs ≡ bp.num_surbs) × AllLength surb_size surbs × SurbsFor bps rest
SurbsFor _ _ = ⊥

-- All blueprints written to zeroed fragments, with the SURBs of each filled in.
unfoldable pub write_all : List FragmentBlueprint → List (List Bytes) → Option (List Fragment)
write_all [] rest = some []
write_all (bp ∷ bps) [] = some []
write_all (bp ∷ bps) (surbs ∷ rest) = do
  fragment ← write_except_surbs bp (replicate fragment_size 0)
  fragments ← write_all bps rest
  some (write_surbs surbs fragment ∷ fragments)

pub write_all-AllCarry :
    (id : MessageId) (last i : ℕ) (bps : List FragmentBlueprint) (surbs : List (List Bytes))
    → AllParts id last i bps
    → SurbsFor bps surbs
    → length id ≡ message_id_size
    → last < 65536
    → i + length bps ≤ 65536
    → (fragments : List Fragment) × (write_all bps surbs ≡ some fragments)
      × AllCarry bps surbs fragments
unfolding write_all
write_all-AllCarry id last i [] [] p s h hl hi = ([], refl, tt)
write_all-AllCarry id last i [] (q ∷ qs) p s h hl hi = absurd s
write_all-AllCarry id last i (bp ∷ bps) [] p s h hl hi = absurd s
write_all-AllCarry id last i (bp ∷ bps) (q ∷ qs) p s h hl hi =
    let (f, e, c) =
      write-Carries id last i bp q (replicate fragment_size 0) p.0 h hl (omega arith) s.0 s.1
        (length-replicate fragment_size 0) in
    let (fs, e', cs) = write_all-AllCarry id last (i + 1) bps qs p.1 s.2 h hl (omega arith) in
    (write_surbs q f ∷ fs, rw (e, e'), (c, cs))

some-Spreads :
    (id : MessageId) (d : Scattered ℕ) (s : ℕ) (bps : List FragmentBlueprint)
    → Contents.IsValid d
    → d.len ≤ usize_max
    → s ≤ usize_max
    → fragment_blueprints id d s ≡ some (some bps)
    → Spreads id (length bps - 1) 0 (Scattered.to_vec d) s bps
      × (0 < length bps)
      × (length bps ≤ fragment_index_max + 1)
some-Spreads id d s bps v hd hs e = elim (Room-cases d.len s) [
  | inl room ↦
      let (bps', e', spread, pos, few) = fragment_blueprints-Spreads id d s v hd hs room in
      let same : bps' ≡ bps = cc in
      subst
        (λ b.
          Spreads id (length b - 1) 0 (Scattered.to_vec d) s b
          × (0 < length b)
          × (length b ≤ fragment_index_max + 1))
        same (spread, pos, few)
  | inr full ↦ absurd (cc (fragment_blueprints_too_many id d s hd hs full))
]

-- A message that is cut into blueprints, written into zeroed fragments with the SURBs that the
-- blueprints ask for, and put together again from the fragments in order, comes out as it went in:
-- no step panics, and the id, all data bytes and all SURBs are there, in order.
pub round_trip :
    (id : MessageId) (d : Scattered ℕ) (s : ℕ) (bps : List FragmentBlueprint)
    (surbs : List (List Bytes))
    → Contents.IsValid d
    → d.len ≤ usize_max
    → s ≤ usize_max
    → length id ≡ message_id_size
    → fragment_blueprints id d s ≡ some (some bps)
    → SurbsFor bps surbs
    → (fragments : List Fragment) × (write_all bps surbs ≡ some fragments)
      × (from_fragments fragments
          ≡ some (record { id = id; payload = Scattered.to_vec d; surbs = flatten surbs }))
round_trip id d s bps surbs v hd hs hid e q =
    let (spread, pos, few) = some-Spreads id d s bps v hd hs e in
    let (fragments, e', carry) =
      write_all-AllCarry id (length bps - 1) 0 bps surbs spread.parts q hid (omega arith)
        (omega arith) in
    (
      fragments,
      e',
      from_fragments-AllCarry id (length bps - 1) s (Scattered.to_vec d) bps surbs fragments spread
          pos carry,
    )
