-- ===== src/Sphinx/Peel/Layered.antt =====
-- src/core/sphinx/peel.rs: peeling the outermost layer of a packet that was built for a route.
use mixnet.Base.{
  length-to_le_bytes, ℕ, ◌+◌, ◌≤◌, ◌≡◌, refl, sym, ap, ◌∙◌, Bytes, ◌++◌, append_assoc, length,
  length-append, length-take, length-drop, take, drop, take-append_ge, arith, from_le_bytes, ok,
  ne→not-==,
}
use mixnet.Sphinx.{
  raw_action_forward_to_peer_id, peer_id, mixnode_index, Target, mac_size, actions_size,
  raw_action_size, kx_public_size, payload_size, packet_size, max_actions_pad_size,
  raw_action_deliver_request, raw_action_deliver_reply, raw_action_deliver_cover,
  raw_action_deliver_cover_with_id,
}
use mixnet.Sphinx.Packages.{Packages}
use mixnet.Sphinx.Delay.{exp}
use mixnet.Sphinx.Crypto.{
  SharedSecret, apply_keystream, small_derived_secrets, mac_key, delay_seed, compute_mac,
  decrypt_payload, derive_payload_encryption_key,
}
use mixnet.Sphinx.Keystream.{length-apply_keystream}
use mixnet.Sphinx.KeyExchange.{blinded, blind_kx_public_lem}
use mixnet.Sphinx.Onion.{stream, seal, next_pad, forward_action, IsTarget}
use mixnet.Sphinx.Layers.{length-next_pad}
use mixnet.Sphinx.Writes.{length-with_id}
use mixnet.Sphinx.Peel.{forward_to, overwrite, decrypted_offset, peel_forward, peel_action, peel}
use mixnet.Sphinx.Peel.Forwarding.{overwrite-overwrite, mac_for, peel_fields}
use mixnet.Sphinx.Peel.Decrypted.{
  padding_after, length-padding_after, decrypt_actions_lem, take-padding_after, IsForward,
  raw_forward_action, raw_forward_action_lem, raw_forward_action-IsForward, forward_target_lem,
}

pub length-overwrite :
    (xs : Bytes) (offset : ℕ) (arr : Bytes)
    → offset + length arr ≤ length xs
    → length (overwrite xs offset arr) ≡ length xs
unfolding overwrite
length-overwrite xs offset arr h = omega (
  arith,
  length-append (take offset xs) (arr ++ drop (offset + length arr) xs),
  length-append arr (drop (offset + length arr) xs),
  length-take offset xs,
  length-drop (offset + length arr) xs,
)

module _ {State : Type 0} (p : Packages State) where
  pub length-seal :
      (k : SharedSecret) (actions pad : Bytes)
      → length (seal p k actions pad) ≡ mac_size + length actions
  unfolding seal compute_mac
  length-seal k actions pad =
      let sealed = apply_keystream actions (stream p k) in
      omega (
        arith,
        length-append (mac_for p k (sealed ++ pad)) sealed,
        p.length-blake2b_u16 (mac_key p (small_derived_secrets p k)) (sealed ++ pad),
        length-apply_keystream actions (stream p k),
      )

  peel_action_forward :
      (raw : ℕ) (decrypted out sds kx payload : Bytes) (k : SharedSecret)
      → from_le_bytes (take raw_action_size decrypted) ≡ raw
      → IsForward raw
      → peel_action p decrypted out sds kx payload k
        ≡ peel_forward p raw decrypted out sds kx payload k
  unfolding peel_action
  peel_action_forward raw decrypted out sds kx payload k e h =
      rw
        (
          e,
          ne→not-== raw raw_action_deliver_request (omega arith),
          ne→not-== raw raw_action_deliver_reply (omega arith),
          ne→not-== raw raw_action_deliver_cover (omega arith),
          ne→not-== raw raw_action_deliver_cover_with_id (omega arith),
        )
        refl

  -- A sealed layer, its fields in the packet.
  pub sealed_fields :
      (kx actions pad payload : Bytes) (k : SharedSecret)
      → kx ++ (seal p k actions pad ++ (pad ++ payload))
        ≡ kx
          ++ (mac_for p k (apply_keystream actions (stream p k) ++ pad)
              ++ ((apply_keystream actions (stream p k) ++ pad) ++ payload))
  unfolding seal compute_mac
  sealed_fields kx actions pad payload k =
      let sealed = apply_keystream actions (stream p k) in
      let mac = mac_for p k (sealed ++ pad) in
      ap (◌++◌ kx) (
        append_assoc mac sealed (pad ++ payload)
        ∙ ap (◌++◌ mac) (sym (append_assoc sealed pad payload)))

  -- Peeling a sealed layer does what the sealed actions say.
  pub peel_sealed :
      (out kx actions pad payload : Bytes) (k : SharedSecret)
      → length kx ≡ kx_public_size
      → length actions + length pad ≡ actions_size
      → peel p out (kx ++ (seal p k actions pad ++ (pad ++ payload))) k
        ≡ peel_action p
            (actions ++ padding_after p k pad)
            (overwrite out (decrypted_offset p) (actions ++ padding_after p k pad))
            (small_derived_secrets p k)
            kx
            payload
            k
  peel_sealed out kx actions pad payload k h a =
      let sealed = apply_keystream actions (stream p k) in
      let size = length-apply_keystream actions (stream p k) in
      ap (λ packet. peel p out packet k) (sealed_fields kx actions pad payload k)
      ∙ peel_fields p out kx (sealed ++ pad) payload k h (omega (arith, length-append sealed pad))
      ∙ ap
          (λ d.
            peel_action p d (overwrite out (decrypted_offset p) d) (small_derived_secrets p k) kx
              payload k)
          (decrypt_actions_lem p k actions pad a)

  forward_action-fits : (target : Target) → IsTarget target → length (forward_action target) ≤ 34
  forward_action-fits (mixnode_index index) i = omega (arith, length-to_le_bytes 2 index)
  forward_action-fits (peer_id id) i =
      omega (arith, length-with_id raw_action_forward_to_peer_id id, i)

  -- Peeling a layer that forwards: the target, the delay, and the packet for the next hop.
  pub peel_forward_layer :
      (out pad payload inner : Bytes) (target : Target) (k : SharedSecret) (x : p.Scalar)
      → IsTarget target
      → length out ≡ packet_size
      → length payload ≡ payload_size
      → length pad + (length (forward_action target) + length inner) ≡ actions_size
      → length inner + length (next_pad p target k pad) ≡ mac_size + actions_size
      → peel p out
          (p.mul_base x ++ (seal p k (forward_action target ++ inner) pad ++ (pad ++ payload)))
          k
        ≡ (
          ok (forward_to target (exp p (delay_seed p (small_derived_secrets p k)))),
          p.mul_base (blinded p x k)
              ++ (inner
                  ++ (next_pad p target k pad
                      ++ decrypt_payload p payload (derive_payload_encryption_key p k))),
        )
  unfolding peel_forward decrypt_payload
  peel_forward_layer out pad payload inner target k x i o pl a fits =
      let action = forward_action target in
      let next = next_pad p target k pad in
      let after = padding_after p k pad in
      let rest = inner ++ after in
      let sds = small_derived_secrets p k in
      let raw = raw_forward_action target in
      let kx = p.mul_base x in
      let na = length-padding_after p k pad in
      let nr = length-append inner after in
      let whole : length (action ++ rest) ≡ actions_size + max_actions_pad_size =
        omega (arith, length-append action rest) in
      let (head, moved, read, h, m, same) = forward_target_lem target rest i (omega arith) in
      let left = overwrite out (decrypted_offset p) (action ++ rest) in
      let payload' = p.lioness_decrypt (derive_payload_encryption_key p k) payload in
      let next_at : take (mac_size + actions_size) moved ≡ inner ++ next =
        same
        ∙ take-append_ge (mac_size + actions_size) inner after (omega arith)
        ∙ ap (λ n. inner ++ take n after) (omega (arith, length-next_pad p target k pad))
        ∙ ap (◌++◌ inner)
            (take-padding_after p target k pad (omega (arith, forward_action-fits target i))) in
      let public = p.length-mul_base (blinded p x k) in
      peel_sealed out kx (action ++ inner) pad payload k (p.length-mul_base x)
        (omega (arith, length-append action inner))
      ∙ ap (λ d. peel_action p d (overwrite out (decrypted_offset p) d) sds kx payload k)
          (append_assoc action inner after)
      ∙ peel_action_forward raw (action ++ rest) left sds kx payload k
          (raw_forward_action_lem target rest i) (raw_forward_action-IsForward target i)
      ∙ rw (read, peel_forward)
          (rw
            (
              blind_kx_public_lem p x k,
              overwrite-overwrite left head moved (p.mul_base (blinded p x k)) payload'
                  (length-overwrite out (decrypted_offset p) (action ++ rest) (omega arith) ∙ o) h m
                  public
                  (p.length-lioness_decrypt (derive_payload_encryption_key p k) payload ∙ pl),
              next_at,
              append_assoc inner next payload',
            )
            refl)
