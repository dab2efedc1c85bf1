-- ===== src/Sphinx/Travel/Layers.antt =====
-- src/core/sphinx: a packet whose header is the layers for a route takes the route.
use mixnet.Base.{
  length-append, ◌-◌, suc, ◌+◌, ◌≤◌, ◌≡◌, refl, ap, ◌∙◌, Bytes, Option, some, List, [], ◌∷◌, ◌++◌,
  map, length, length-map, arith, AllOf, none, append_assoc,
}
use mixnet.Sphinx.{Target, actions_size, payload_size, packet_size}
use mixnet.Sphinx.Packages.{Packages}
use mixnet.Sphinx.Delay.{add, exp}
use mixnet.Sphinx.Crypto.{
  SharedSecret, last, derive_kx_public, small_derived_secrets, delay_seed, decrypt_payload,
  derive_payload_encryption_key,
}
use mixnet.Sphinx.KeyExchange.{chain, blinded, length-chain}
use mixnet.Sphinx.Header.{PacketKind}
use mixnet.Sphinx.Build.{pop_last}
use mixnet.Sphinx.Onion.{layer, next_pad, deliver_action, IsTarget, IsPacketKind, room, total_delay}
use mixnet.Sphinx.Layers.{length-next_pad, random}
use mixnet.Sphinx.Peel.{peel, peel_action, overwrite, decrypted_offset}
use mixnet.Sphinx.Peel.Layered.{peel_forward_layer, peel_sealed, length-overwrite}
use mixnet.Sphinx.Peel.Decrypted.{padding_after, length-padding_after}
use mixnet.Sphinx.Peel.Delivery.{delivered, peel_action_deliver}
use mixnet.Sphinx.Travel.{Arrival, arrive, forwarded, travel, derived, decrypt_with, length-layer}

module _ {State : Type 0} (p : Packages State) where
  abbrev pub all_forwarded : List Target → Option (Arrival p) → Option (Arrival p)
  all_forwarded [] a = a
  all_forwarded (target ∷ targets) a = forwarded p target (all_forwarded targets a)

  pub length-decrypt_payload :
      (payload : Bytes) (k : SharedSecret)
      → length (decrypt_payload p payload (derive_payload_encryption_key p k)) ≡ length payload
  unfolding decrypt_payload
  length-decrypt_payload payload k =
      p.length-lioness_decrypt (derive_payload_encryption_key p k) payload

  module _ (kind : PacketKind) (s : State) (out : Bytes) where
    -- The last hop peels its layer.
    peel_last :
        (x : p.Scalar) (pad payload : Bytes) (k : SharedSecret)
        → IsPacketKind kind
        → length out ≡ packet_size
        → length pad + length (deliver_action kind) ≤ actions_size
        → (left : Bytes) × (length left ≡ packet_size)
          × (peel p out
                (p.mul_base x
                  ++ (layer p (random p kind s) kind [] (k ∷ []) pad ++ (pad ++ payload)))
                k
              ≡ delivered p kind left payload k)
    unfolding layer
    peel_last x pad payload k i o fits =
        let action = deliver_action kind in
        let count = actions_size - (length pad + length action) in
        let filled = (p.fill_bytes s count).0 in
        let after = padding_after p k pad in
        let size = length-append action filled in
        let n = p.length-fill_bytes s count in
        let decrypted = (action ++ filled) ++ after in
        let left = overwrite out (decrypted_offset p) decrypted in
        (
          left,
          length-overwrite out (decrypted_offset p) decrypted (
                omega (
                  arith,
                  length-append (action ++ filled) after,
                  size,
                  n,
                  length-padding_after p k pad,
                ))
              ∙ o,
          peel_sealed p out (p.mul_base x) (action ++ filled) pad payload k (p.length-mul_base x)
                (omega (arith, size, n))
              ∙ ap (λ b. peel_action p b left (small_derived_secrets p k) (p.mul_base x) payload k)
                  (append_assoc action filled after)
              ∙ peel_action_deliver p kind (filled ++ after) left (small_derived_secrets p k)
                  (p.mul_base x) payload k i,
        )

    pub travel_layers :
        (targets : List Target) (kx_secrets : List Bytes) (x : p.Scalar) (pad payload : Bytes)
        (d : p.F64)
        → AllOf IsTarget targets
        → IsPacketKind kind
        → length kx_secrets ≡ suc (length targets)
        → length out ≡ packet_size
        → length payload ≡ payload_size
        → length pad + room targets kind ≤ actions_size
        → (let secrets = chain p x (map (derive_kx_public p) kx_secrets) in
            (left : Bytes) × (k : SharedSecret) × (length left ≡ packet_size)
            × (last secrets ≡ some k)
            × (travel p out d
                  (p.mul_base x
                    ++ (layer p (random p kind s) kind targets secrets pad ++ (pad ++ payload)))
                  kx_secrets
                ≡ all_forwarded targets (
                    arrive p
                      (λ d' o. none)
                      (total_delay p d targets secrets)
                      (delivered p kind left (decrypt_with p (pop_last secrets) payload) k))))
    unfolding travel pop_last layer
    travel_layers targets [] x pad payload d it ik n o pl fits = absurd (omega arith)
    travel_layers [] (a ∷ a' ∷ rest) x pad payload d it ik n o pl fits = absurd (omega arith)
    travel_layers (target ∷ targets) (a ∷ []) x pad payload d it ik n o pl fits =
        absurd (omega arith)
    travel_layers [] (a ∷ []) x pad payload d it ik n o pl fits =
        let k = p.mul_point (derive_kx_public p a) x in
        let (left, size, e) = peel_last x pad payload k ik o fits in
        (left, k, size, refl, rw (derived p x _ a, e) refl)
    travel_layers (target ∷ targets) (a ∷ a' ∷ rest) x pad payload d it ik n o pl fits =
        let k = p.mul_point (derive_kx_public p a) x in
        let ks = chain p (blinded p x k) (map (derive_kx_public p) (a' ∷ rest)) in
        let next = next_pad p target k pad in
        let inner = layer p (random p kind s) kind targets ks next in
        let payload' = decrypt_payload p payload (derive_payload_encryption_key p k) in
        let grown = length-next_pad p target k pad in
        let count : length ks ≡ suc (length targets) = omega (
          arith,
          length-chain p (blinded p x k) (map (derive_kx_public p) (a' ∷ rest)),
          length-map (derive_kx_public p) (a' ∷ rest),
        ) in
        let sized = length-layer p kind s targets ks next count (omega (arith, grown)) in
        let (left, last_k, size, found, ih) =
          travel_layers targets (a' ∷ rest) (blinded p x k) next payload'
            (add p d (exp p (delay_seed p (small_derived_secrets p k)))) it.1 ik (omega arith) o
            (length-decrypt_payload payload k ∙ pl) (omega (arith, grown)) in
        (
          left,
          last_k,
          size,
          found,
          rw
              (
                derived p x _ a,
                peel_forward_layer p out pad payload inner target k x it.0 o pl
                    (omega (arith, grown, sized)) sized,
              )
              (ap (forwarded p target) ih),
        )
