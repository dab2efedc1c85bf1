-- ===== src/Sphinx/Peel/Decrypted.antt =====
-- src/core/sphinx/peel.rs: the decrypted routing actions.
use mixnet.Base.{
  ◌<◌, le→leb, ne→not-==, from_le_bytes-to_le_bytes_u16, length-to_le_bytes, length-replicate, ℕ,
  ◌+◌, ◌-◌, ◌≤◌, ◌≡◌, refl, sym, ap, ◌∙◌, Bytes, ◌++◌, append_assoc, length, length-append,
  length-drop, take, drop, take-append_self, drop-append_self, take_all, replicate,
  replicate-append, arith, ok, to_le_bytes, from_le_bytes,
}
use mixnet.Sphinx.{
  Target, mixnode_index, peer_id, try_from, mac_size, actions_size, raw_action_size, peer_id_size,
  max_actions_pad_size, max_mixnode_index, raw_action_forward_to_peer_id,
}
use mixnet.Sphinx.Packages.{Packages}
use mixnet.Sphinx.Crypto.{SharedSecret, apply_keystream, small_derived_secrets}
use mixnet.Sphinx.Keystream.{
  apply_keystream-append, apply_keystream-apply_keystream, length-apply_keystream,
  take-apply_keystream,
}
use mixnet.Sphinx.Onion.{stream, next_pad, forward_action, IsTarget}
use mixnet.Sphinx.Passes.Sealing.{stream_lem}
use mixnet.Sphinx.Peel.{decrypt_actions, forward_target, copy_within, overwrite}

module _ {State : Type 0} (p : Packages State) where
  -- What is decrypted after the actions of a hop.
  abbrev pub padding_after : SharedSecret → Bytes → Bytes
  padding_after k pad =
      apply_keystream (pad ++ replicate max_actions_pad_size 0)
        (drop (actions_size - length pad) (stream p k))

  pub length-padding_after :
      (k : SharedSecret) (pad : Bytes)
      → length (padding_after k pad) ≡ length pad + max_actions_pad_size
  length-padding_after k pad = omega (
    arith,
    length-apply_keystream (pad ++ replicate max_actions_pad_size 0)
        (drop (actions_size - length pad) (stream p k)),
    length-append pad (replicate max_actions_pad_size 0),
    length-replicate {A = ℕ} max_actions_pad_size 0,
  )

  pub decrypt_actions_lem :
      (k : SharedSecret) (plain pad : Bytes)
      → length plain + length pad ≡ actions_size
      → decrypt_actions p (apply_keystream plain (stream p k) ++ pad) (small_derived_secrets p k)
        ≡ plain ++ padding_after k pad
  unfolding decrypt_actions
  decrypt_actions_lem k plain pad h =
      let sealed = apply_keystream plain (stream p k) in
      let zeros : Bytes = replicate max_actions_pad_size 0 in
      let size : length sealed ≡ length plain = length-apply_keystream plain (stream p k) in
      let skip : length sealed ≡ actions_size - length pad = omega arith in
      rw
        (
          append_assoc sealed pad zeros,
          stream_lem p (sealed ++ (pad ++ zeros)) k (
              omega (
                arith,
                length-append sealed (pad ++ zeros),
                length-append pad zeros,
                length-replicate {A = ℕ} max_actions_pad_size 0,
              )),
          apply_keystream-append sealed (pad ++ zeros) (stream p k),
          apply_keystream-apply_keystream plain (stream p k),
          skip,
        )
        refl

  -- Its start is the padding for the next hop.
  pub take-padding_after :
      (target : Target) (k : SharedSecret) (pad : Bytes)
      → length (forward_action target) + mac_size ≤ max_actions_pad_size
      → take (length pad + (length (forward_action target) + mac_size)) (padding_after k pad)
        ≡ next_pad p target k pad
  unfolding next_pad
  take-padding_after target k pad h =
      let n = length (forward_action target) + mac_size in
      let ks = drop (actions_size - length pad) (stream p k) in
      let m = max_actions_pad_size - n in
      let zeros : ◌≡◌ {A = Bytes} (replicate max_actions_pad_size 0)
          (replicate n 0 ++ replicate m 0) =
        ap (λ (i : ℕ). replicate i 0) (omega arith) ∙ replicate-append {A = ℕ} n m 0 in
      take-apply_keystream (length pad + n) (pad ++ replicate max_actions_pad_size 0) ks
      ∙ ap (λ z. apply_keystream (take (length pad + n) (pad ++ z)) ks) zeros
      ∙ ap (λ b. apply_keystream (take (length pad + n) b) ks)
          (sym (append_assoc pad (replicate n 0) (replicate m 0)))
      ∙ ap (λ b. apply_keystream b ks)
          (take-append_self (length pad + n) (pad ++ replicate n 0) (replicate m 0)
            (omega (arith, length-append pad (replicate n 0), length-replicate {A = ℕ} n 0)))

-- A raw action that forwards is none of those that deliver.
abbrev pub IsForward : ℕ → Type 0
IsForward raw = raw ≤ raw_action_forward_to_peer_id

abbrev pub raw_forward_action : Target → ℕ
raw_forward_action (mixnode_index index) = index
raw_forward_action (peer_id id) = raw_action_forward_to_peer_id

pub raw_at :
    (n : ℕ) (rest : Bytes)
    → n < 65536
    → from_le_bytes (take raw_action_size (to_le_bytes raw_action_size n ++ rest)) ≡ n
raw_at n rest h =
    ap from_le_bytes (take-append_self 2 (to_le_bytes 2 n) rest (length-to_le_bytes 2 n))
    ∙ from_le_bytes-to_le_bytes_u16 n h

pub raw_forward_action_lem :
    (target : Target) (rest : Bytes)
    → IsTarget target
    → from_le_bytes (take raw_action_size (forward_action target ++ rest))
      ≡ raw_forward_action target
raw_forward_action_lem (mixnode_index index) rest i = raw_at index rest (omega arith)
raw_forward_action_lem (peer_id id) rest i =
    let raw = to_le_bytes 2 raw_action_forward_to_peer_id in
    ap (λ b. from_le_bytes (take 2 b)) (append_assoc raw id rest)
    ∙ raw_at raw_action_forward_to_peer_id (id ++ rest) (omega arith)

pub raw_forward_action-IsForward :
    (target : Target) → IsTarget target → IsForward (raw_forward_action target)
raw_forward_action-IsForward (mixnode_index index) i = omega arith
raw_forward_action-IsForward (peer_id id) i = omega arith

-- The target that is read, and the next hop's MAC and actions moved to where they are to be.
pub forward_target_lem :
    (target : Target) (rest : Bytes)
    → IsTarget target
    → length (forward_action target) + length rest ≡ actions_size + max_actions_pad_size
    → (raw : Bytes) × (moved : Bytes) × (forward_target
          (raw_forward_action target)
          (forward_action target ++ rest)
        ≡ ok (target, raw ++ moved))
      × (length raw ≡ raw_action_size)
      × (length moved ≡ actions_size + max_actions_pad_size - raw_action_size)
      × (take (mac_size + actions_size) moved ≡ take (mac_size + actions_size) rest)
unfolding forward_target try_from copy_within overwrite
forward_target_lem (mixnode_index index) rest i h =
    let size = length-to_le_bytes 2 index in
    (
      to_le_bytes 2 index,
      rest,
      rw
          (
            ne→not-== index raw_action_forward_to_peer_id (omega arith),
            le→leb index max_mixnode_index i,
          )
          refl,
      size,
      omega arith,
      refl,
    )
forward_target_lem (peer_id id) rest i h =
    let raw = to_le_bytes 2 raw_action_forward_to_peer_id in
    let d = (raw ++ id) ++ rest in
    let size = length-to_le_bytes 2 raw_action_forward_to_peer_id in
    let head : length (raw ++ id) ≡ raw_action_size + peer_id_size =
      omega (arith, length-append raw id) in
    let fits : length rest ≡ mac_size + actions_size = omega arith in
    let e : d ≡ raw ++ (id ++ rest) = append_assoc raw id rest in
    let id_at : take peer_id_size (drop raw_action_size d) ≡ id =
      ap (λ b. take peer_id_size (drop raw_action_size b)) e
      ∙ ap (take peer_id_size) (drop-append_self 2 raw (id ++ rest) size)
      ∙ take-append_self peer_id_size id rest i in
    let rest_at : take (mac_size + actions_size) (drop (raw_action_size + peer_id_size) d) ≡ rest =
      ap (take (mac_size + actions_size))
        (drop-append_self (raw_action_size + peer_id_size) (raw ++ id) rest head)
      ∙ take_all (mac_size + actions_size) rest (omega arith) in
    let raw_at : take raw_action_size d ≡ raw =
      ap (take raw_action_size) e ∙ take-append_self 2 raw (id ++ rest) size in
    let left = drop (raw_action_size + length rest) d in
    (
      raw,
      rest ++ left,
      rw (id_at, rest_at, raw_at) refl,
      size,
      omega (
        arith,
        length-append rest left,
        length-drop (raw_action_size + length rest) d,
        length-append (raw ++ id) rest,
      ),
      take-append_self (mac_size + actions_size) rest left fits
          ∙ sym (take_all (mac_size + actions_size) rest (omega arith)),
    )
