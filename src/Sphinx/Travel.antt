-- ===== src/Sphinx/Travel.antt =====
-- src/core/sphinx: a packet on its route. Each node derives its shared secret from the public key in the
-- packet and its own secret key, and peels a layer; what it is to forward is peeled by the next.
pub mod Layers
pub mod Requests
pub mod Replies
use mixnet.Base.{
  ◌-◌, ℕ, suc, ◌+◌, ◌≤◌, ◌≡◌, refl, sym, ap, ◌∙◌, Bytes, Option, none, some, List, [], ◌∷◌, ◌++◌,
  map, length, length-map, length-append, arith, AllOf, Result, ok, err, take-append_self, ◌>>=◌,
}
use mixnet.Sphinx.{Target, mac_size, actions_size, kx_public_size, payload_size, packet_size}
use mixnet.Sphinx.Packages.{Packages}
use mixnet.Sphinx.Delay.{add, exp}
use mixnet.Sphinx.Crypto.{
  SharedSecret, derive_kx_public, derive_kx_shared_secret, small_derived_secrets, delay_seed,
  decrypt_payload, derive_payload_encryption_key,
}
use mixnet.Sphinx.KeyExchange.{chain, blinded, length-chain, derive_kx_shared_secret_lem}
use mixnet.Sphinx.Header.{PacketKind}
use mixnet.Sphinx.Build.{pop_last}
use mixnet.Sphinx.Onion.{
  layer, next_pad, forward_action, deliver_action, IsTarget, IsPacketKind, room, total_delay,
}
use mixnet.Sphinx.Layers.{length-next_pad, random}
use mixnet.Sphinx.Peel.{
  PeelErr, Action, forward_to, deliver_request, deliver_reply, deliver_cover, overwrite,
  decrypted_offset, peel, kx_public,
}
use mixnet.Sphinx.Peel.Layered.{peel_forward_layer, peel_sealed, length-seal, length-overwrite}
use mixnet.Sphinx.Peel.Decrypted.{padding_after, length-padding_after}
use mixnet.Sphinx.Peel.Delivery.{delivered, peel_action_deliver}

module _ {State : Type 0} (p : Packages State) where
  -- How a packet ended: where it was forwarded to, the delays in all, the last action and the last
  -- node's buffer.
  pub record Arrival : Type 0 where
    pub targets : List Target
    pub delay : p.F64
    pub action : Action p
    pub out : Bytes

  abbrev pub forwarded : Target → Option Arrival → Option Arrival
  forwarded target none = none
  forwarded target (some a) =
      some
        (record { targets = target ∷ a.targets; delay = a.delay; action = a.action; out = a.out })

  -- What follows an answer, where `go` handles a packet that is forwarded after a delay.
  abbrev pub arrive :
      (p.F64 → Bytes → Option Arrival) → p.F64 → Result (Action p) PeelErr × Bytes → Option Arrival
  arrive go d (err e, o) = none
  arrive go d (ok (forward_to target d'), o) = forwarded target (go d' o)
  arrive go d (ok deliver_request, o) =
      some (record { targets = []; delay = d; action = deliver_request; out = o })
  arrive go d (ok (deliver_reply id), o) =
      some (record { targets = []; delay = d; action = deliver_reply id; out = o })
  arrive go d (ok (deliver_cover id), o) =
      some (record { targets = []; delay = d; action = deliver_cover id; out = o })

  -- The packet at the first of the nodes, which are given by their secret keys; `out` is what the
  -- nodes' buffers hold before.
  unfoldable pub travel : Bytes → p.F64 → Bytes → List Bytes → Option Arrival
  travel out d packet [] = none
  travel out d packet (kx_secret ∷ kx_secrets) =
      arrive (λ d' packet'. travel out (add p d d') packet' kx_secrets) d
        (peel p out packet (derive_kx_shared_secret p (kx_public packet) kx_secret))

  -- The first node's secret is the one that was generated for it.
  derived :
      (x : p.Scalar) (rest kx_secret : Bytes)
      → derive_kx_shared_secret p (kx_public (p.mul_base x ++ rest)) kx_secret
        ≡ p.mul_point (derive_kx_public p kx_secret) x
  unfolding kx_public
  derived x rest kx_secret =
      ap (λ b. derive_kx_shared_secret p b kx_secret)
        (take-append_self kx_public_size (p.mul_base x) rest (p.length-mul_base x))
      ∙ derive_kx_shared_secret_lem p x kx_secret

  -- The decryption at the hops before the last.
  abbrev pub decrypt_with : List SharedSecret → Bytes → Bytes
  decrypt_with [] payload = payload
  decrypt_with (k ∷ ks) payload =
      decrypt_with ks (decrypt_payload p payload (derive_payload_encryption_key p k))

  pub length-layer :
      (kind : PacketKind) (s : State) (targets : List Target) (secrets : List SharedSecret)
      (pad : Bytes)
      → length secrets ≡ suc (length targets)
      → length pad + room targets kind ≤ actions_size
      → length (layer p (random p kind s) kind targets secrets pad) + length pad
        ≡ mac_size + actions_size
  unfolding layer
  length-layer kind s targets [] pad n fits = absurd (omega arith)
  length-layer kind s [] (k ∷ k' ∷ ks) pad n fits = absurd (omega arith)
  length-layer kind s [] (k ∷ []) pad n fits =
      let action = deliver_action kind in
      let count = actions_size - (length pad + length action) in
      let filled = (p.fill_bytes s count).0 in
      omega (
        arith,
        length-seal p k (action ++ filled) pad,
        length-append action filled,
        p.length-fill_bytes s count,
      )
  length-layer kind s (target ∷ targets) (k ∷ ks) pad n fits =
      let action = forward_action target in
      let next = next_pad p target k pad in
      let inner = layer p (random p kind s) kind targets ks next in
      let size = length-next_pad p target k pad in
      omega (
        arith,
        length-seal p k (action ++ inner) pad,
        length-append action inner,
        size,
        length-layer kind s targets ks next (omega arith) (omega (arith, size)),
      )
