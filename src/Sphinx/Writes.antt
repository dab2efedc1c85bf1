-- ===== src/Sphinx/Writes.antt =====
-- src/core/sphinx/build.rs: what the writes into the routing actions and the padding leave.
use mixnet.Base.{
  slice_split_at_le, cut, ℕ, ◌+◌, ◌-◌, ◌≤◌, ◌≡◌, refl, sym, ap, Bytes, Option, none, some, ◌++◌,
  append_assoc, length, length-append, length-to_le_bytes, to_le_bytes, slice_split_at_seam, arith,
  drop, ◌>>=◌,
}
use mixnet.Sphinx.{
  Target, mixnode_index, peer_id, mac_size, actions_size, raw_action_size,
  raw_action_forward_to_peer_id, raw_action_deliver_request, raw_action_deliver_reply,
  raw_action_deliver_cover, raw_action_deliver_cover_with_id,
}
use mixnet.Sphinx.Crypto.{apply_keystream}
use mixnet.Sphinx.Header.{
  PacketKind, request, reply, cover, write_at, write_forward_action, write_with_id,
  write_deliver_action, encrypt_pad,
}
use mixnet.Sphinx.Onion.{forward_action, deliver_action, IsTarget, IsPacketKind}

pub write_at_part :
    (offset : ℕ) (front old back arr : Bytes)
    → length front ≡ offset
    → length old ≡ length arr
    → write_at (front ++ (old ++ back)) offset arr ≡ some (front ++ (arr ++ back))
unfolding write_at
write_at_part offset front old back arr h k =
    rw (slice_split_at_seam offset front (old ++ back) h)
      (rw (slice_split_at_seam (length arr) old back k) refl)

-- A raw action and an id after it.
pub write_pair :
    (offset : ℕ) (front old₁ old₂ back arr₁ arr₂ : Bytes)
    → length front ≡ offset
    → length old₁ ≡ length arr₁
    → length old₂ ≡ length arr₂
    → (write_at (front ++ ((old₁ ++ old₂) ++ back)) (offset + length arr₁) arr₂
        >>= (λ buffer. write_at buffer offset arr₁))
      ≡ some (front ++ ((arr₁ ++ arr₂) ++ back))
write_pair offset front old₁ old₂ back arr₁ arr₂ h k₁ k₂ =
    rw
      (
        append_assoc old₁ old₂ back,
        append_assoc arr₁ arr₂ back,
        sym (append_assoc front old₁ (old₂ ++ back)),
        write_at_part (offset + length arr₁) (front ++ old₁) old₂ back arr₂
            (omega (arith, length-append front old₁)) k₂,
      )
      (rw (append_assoc front old₁ (arr₂ ++ back))
        (write_at_part offset front old₁ (arr₂ ++ back) arr₁ h k₁))

two_bytes : (n : ℕ) → length (to_le_bytes raw_action_size n) ≡ 2
two_bytes n = length-to_le_bytes 2 n

some_offset :
    (bs : Bytes) {m n : ℕ} → m ≡ n → ◌≡◌ {A = Option (Bytes × ℕ)} (some (bs, m)) (some (bs, n))
some_offset bs e = ap (λ n. some (bs, n)) e

pub length-with_id :
    (raw : ℕ) (id : Bytes) → length (to_le_bytes raw_action_size raw ++ id) ≡ 2 + length id
length-with_id raw id =
    omega (arith, length-append (to_le_bytes raw_action_size raw) id, two_bytes raw)

-- An action with an id, written where there is room for it.
write_with_id_lem :
    (start : ℕ) (front old back : Bytes) (raw : ℕ) (id : Bytes)
    → length front ≡ mac_size + start
    → length old ≡ length (to_le_bytes raw_action_size raw ++ id)
    → write_with_id (front ++ (old ++ back)) start id raw
      ≡ some (front ++ ((to_le_bytes raw_action_size raw ++ id) ++ back))
unfolding write_with_id
write_with_id_lem start front old back raw id h k =
    let total = length-with_id raw id in
    let (old₁, old₂, e, k₁, k₂) = cut 2 old (omega (arith, k, total, two_bytes raw)) in
    let place : mac_size + (start + raw_action_size)
        ≡ mac_size + start + length (to_le_bytes raw_action_size raw) =
      omega (arith, two_bytes raw) in
    rw (e, place)
      (write_pair (mac_size + start) front old₁ old₂ back (to_le_bytes raw_action_size raw) id h
        (omega (arith, k₁, two_bytes raw)) (omega (arith, k₂, k, total, two_bytes raw)))

pub write_forward_action_lem :
    (start : ℕ) (front old back : Bytes) (target : Target)
    → IsTarget target
    → length front ≡ mac_size + start
    → length old ≡ length (forward_action target)
    → write_forward_action (front ++ (old ++ back)) start target
      ≡ some (front ++ (forward_action target ++ back), start + length (forward_action target))
unfolding write_forward_action
write_forward_action_lem start front old back (mixnode_index index) i h k =
    rw
      (
        write_at_part (mac_size + start) front old back (to_le_bytes raw_action_size index) h k,
        two_bytes index,
      )
      refl
write_forward_action_lem start front old back (peer_id id) i h k =
    let raw = raw_action_forward_to_peer_id in
    rw (write_with_id_lem start front old back raw id h k, length-with_id raw id, i)
      (some_offset _ (omega arith))

pub write_deliver_action_lem :
    (start : ℕ) (front old back : Bytes) (kind : PacketKind)
    → IsPacketKind kind
    → length front ≡ mac_size + start
    → length old ≡ length (deliver_action kind)
    → write_deliver_action (front ++ (old ++ back)) start kind
      ≡ some (front ++ (deliver_action kind ++ back), start + length (deliver_action kind))
unfolding write_deliver_action
write_deliver_action_lem start front old back request i h k =
    rw
      (
        write_at_part (mac_size + start) front old back
            (to_le_bytes raw_action_size raw_action_deliver_request) h k,
        two_bytes raw_action_deliver_request,
      )
      refl
write_deliver_action_lem start front old back (reply id) i h k =
    rw
      (
        write_with_id_lem start front old back raw_action_deliver_reply id h k,
        length-with_id raw_action_deliver_reply id,
        i,
      )
      (some_offset _ (omega arith))
write_deliver_action_lem start front old back (cover none) i h k =
    rw
      (
        write_at_part (mac_size + start) front old back
            (to_le_bytes raw_action_size raw_action_deliver_cover) h k,
        two_bytes raw_action_deliver_cover,
      )
      refl
write_deliver_action_lem start front old back (cover (some id)) i h k =
    rw
      (
        write_with_id_lem start front old back raw_action_deliver_cover_with_id id h k,
        length-with_id raw_action_deliver_cover_with_id id,
        i,
      )
      (some_offset _ (omega arith))

pub encrypt_pad_lem :
    (len start : ℕ) (front back keystream : Bytes)
    → length front ≡ len
    → actions_size - start ≤ length keystream
    → encrypt_pad (front ++ back) len keystream start
      ≡ some (apply_keystream front (drop (actions_size - start) keystream) ++ back)
unfolding encrypt_pad
encrypt_pad_lem len start front back keystream h k =
    rw (slice_split_at_seam len front back h, slice_split_at_le keystream (actions_size - start) k)
      refl
