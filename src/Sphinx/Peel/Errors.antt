-- ===== src/Sphinx/Peel/Errors.antt =====
-- src/core/sphinx/peel.rs: when peeling fails, and why.
use mixnet.Base.{
  take-append_le, length-drop, drop-append_le, not-bytes_eq→ne, ◌++◌, length, ℕ, ◌+◌, ◌<◌, ◌≤◌, ◌≡◌,
  ◌≢◌, ◌⊎◌, refl, Bytes, inl, inr, take, drop, arith, from_le_bytes, bytes_eq, bytes_eq→eq,
  Bool-cases, eq-or-ne, eq→==, ne→not-==, Result, ok, err, lt-or-le, le→leb, lt→not-leb, ap, ◌∙◌,
}
use mixnet.Sphinx.{
  payload_size, packet_size, try_from, kx_public_size, mac_size, actions_size, header_size,
  payload_data_size, payload_tag_size, raw_action_size, max_mixnode_index,
  raw_action_forward_to_peer_id, raw_action_deliver_request, raw_action_deliver_reply,
  raw_action_deliver_cover, raw_action_deliver_cover_with_id,
}
use mixnet.Sphinx.Packages.{Packages}
use mixnet.Sphinx.Crypto.{
  SharedSecret, small_derived_secrets, mac_ok, decrypt_payload, derive_payload_encryption_key,
}
use mixnet.Sphinx.Build.{payload_tag}
use mixnet.Sphinx.Peel.{
  decrypted_offset, kx_public, PeelErr, mac_err, action_err, payload_tag_err, Action, overwrite,
  check_payload_tag, decrypt_actions, forward_target, peel_request, peel_forward, peel_action, peel,
}
use mixnet.Sphinx.Peel.Forwarding.{mac_for}

module _ {State : Type 0} (p : Packages State) where
  abbrev pub actions_of : Bytes → Bytes
  actions_of packet = take actions_size (drop (kx_public_size + mac_size) packet)

  abbrev pub mac_of : Bytes → Bytes
  mac_of packet = take mac_size (drop kx_public_size packet)

  abbrev pub decrypted_of : Bytes → SharedSecret → Bytes
  decrypted_of packet k = decrypt_actions p (actions_of packet) (small_derived_secrets p k)

  abbrev pub raw_action_of : Bytes → SharedSecret → ℕ
  raw_action_of packet k = from_le_bytes (take raw_action_size (decrypted_of packet k))

  abbrev pub tag_of : Bytes → SharedSecret → Bytes
  tag_of payload k =
      take payload_tag_size
        (drop payload_data_size (decrypt_payload p payload (derive_payload_encryption_key p k)))

  -- The answer to a decrypted action, by its number and the decrypted payload's tag.
  abbrev pub IsActionAnswer : ℕ → Bytes → Result (Action p) PeelErr → Type 0
  IsActionAnswer raw tag answer =
      ((raw ≡ raw_action_deliver_request) × (tag ≢ payload_tag) × (answer ≡ err payload_tag_err))
      ⊎ ((raw_action_deliver_cover_with_id < raw) × (answer ≡ err action_err))
      ⊎ ((raw ≤ raw_action_deliver_cover_with_id)
          × ((raw ≢ raw_action_deliver_request) ⊎ (tag ≡ payload_tag))
          × (a : Action p) × (answer ≡ ok a))

  peel_forward-answer :
      (raw : ℕ) (tag decrypted out sds kx payload : Bytes) (k : SharedSecret)
      → raw ≢ raw_action_deliver_request
      → raw ≢ raw_action_deliver_reply
      → raw ≢ raw_action_deliver_cover
      → raw ≢ raw_action_deliver_cover_with_id
      → IsActionAnswer raw tag (peel_forward p raw decrypted out sds kx payload k).0
  unfolding peel_forward forward_target try_from
  peel_forward-answer raw tag decrypted out sds kx payload k n₁ n₂ n₃ n₄ =
      elim (eq-or-ne raw raw_action_forward_to_peer_id) [
        | inl e ↦
            rw (eq→== raw raw_action_forward_to_peer_id e, peel_forward)
              (inr (inr (omega arith, inl n₁, _, refl)))
        | inr d ↦ elim (lt-or-le max_mixnode_index raw) [
          | inl big ↦
              rw
                (
                  ne→not-== raw raw_action_forward_to_peer_id d,
                  lt→not-leb raw max_mixnode_index big,
                  peel_forward,
                )
                (inr (inl (omega arith, refl)))
          | inr small ↦
              rw
                (
                  ne→not-== raw raw_action_forward_to_peer_id d,
                  le→leb raw max_mixnode_index small,
                  peel_forward,
                )
                (inr (inr (omega arith, inl n₁, _, refl)))
        ]
      ]

  peel_request-answer :
      (raw : ℕ) (out payload : Bytes) (k : SharedSecret)
      → length payload ≡ payload_size
      → raw ≡ raw_action_deliver_request
      → IsActionAnswer raw (tag_of payload k) (peel_request p out payload k).0
  unfolding peel_request check_payload_tag overwrite take decrypt_payload
  peel_request-answer raw out payload k h e =
      let key = derive_payload_encryption_key p k in
      let dec = p.lioness_decrypt key payload in
      let size = p.length-lioness_decrypt key payload ∙ h in
      let rest = drop (0 + length dec) out in
      let tag_at : take payload_tag_size (drop payload_data_size (dec ++ rest)) ≡ tag_of payload k =
        ap (take payload_tag_size) (drop-append_le payload_data_size dec rest (omega arith))
        ∙ take-append_le payload_tag_size (drop payload_data_size dec) rest
            (omega (arith, length-drop payload_data_size dec)) in
      elim (Bool-cases (bytes_eq (tag_of payload k) payload_tag)) [
        | inl good ↦
            rw (tag_at, good, peel_request)
              (inr (inr (omega arith, inr (bytes_eq→eq _ _ good), _, refl)))
        | inr bad ↦ rw (tag_at, bad, peel_request) (inl (e, not-bytes_eq→ne _ _ bad, refl))
      ]

  peel_action-answer :
      (decrypted out sds kx payload : Bytes) (k : SharedSecret)
      → length payload ≡ payload_size
      → IsActionAnswer
          (from_le_bytes (take raw_action_size decrypted))
          (tag_of payload k)
          (peel_action p decrypted out sds kx payload k).0
  unfolding peel_action
  peel_action-answer decrypted out sds kx payload k h =
      let raw = from_le_bytes (take raw_action_size decrypted) in
      elim (eq-or-ne raw raw_action_deliver_request) [
        | inl e₁ ↦ rw (eq→== raw _ e₁) (peel_request-answer raw out payload k h e₁)
        | inr n₁ ↦ elim (eq-or-ne raw raw_action_deliver_reply) [
          | inl e₂ ↦
              rw (ne→not-== raw _ n₁, eq→== raw _ e₂) (inr (inr (omega arith, inl n₁, _, refl)))
          | inr n₂ ↦ elim (eq-or-ne raw raw_action_deliver_cover) [
            | inl e₃ ↦
                rw (ne→not-== raw _ n₁, ne→not-== raw _ n₂, eq→== raw _ e₃)
                  (inr (inr (omega arith, inl n₁, _, refl)))
            | inr n₃ ↦ elim (eq-or-ne raw raw_action_deliver_cover_with_id) [
              | inl e₄ ↦
                  rw (ne→not-== raw _ n₁, ne→not-== raw _ n₂, ne→not-== raw _ n₃, eq→== raw _ e₄)
                    (inr (inr (omega arith, inl n₁, _, refl)))
              | inr n₄ ↦
                  rw
                    (ne→not-== raw _ n₁, ne→not-== raw _ n₂, ne→not-== raw _ n₃, ne→not-== raw _ n₄)
                    (peel_forward-answer raw (tag_of payload k) decrypted out sds kx payload k n₁ n₂
                      n₃ n₄)
            ]
          ]
        ]
      ]

  -- Peeling a packet of the right size fails for its MAC if and only if that is not the MAC of the
  -- routing actions, and then leaves the buffer as it was. Otherwise it fails for its action if and
  -- only if the decrypted raw action is past the last one that is known, and for its payload tag if
  -- and only if it is a request and the tag of the decrypted payload is not the right one.
  pub peel-errors :
      (out packet : Bytes) (k : SharedSecret)
      → length packet ≡ packet_size
      → ((mac_for p k (actions_of packet) ≢ mac_of packet)
          × (peel p out packet k ≡ (err mac_err, out)))
        ⊎ ((mac_for p k (actions_of packet) ≡ mac_of packet)
            × IsActionAnswer
                (raw_action_of packet k)
                (tag_of (drop header_size packet) k)
                (peel p out packet k).0)
  unfolding peel mac_ok
  peel-errors out packet k h =
      let sds = small_derived_secrets p k in
      let decrypted = decrypted_of packet k in
      elim (Bool-cases (bytes_eq (mac_for p k (actions_of packet)) (mac_of packet))) [
        | inr bad ↦ inl (not-bytes_eq→ne _ _ bad, rw bad refl)
        | inl good ↦ inr (
          bytes_eq→eq _ _ good,
          rw good (
              peel_action-answer decrypted (overwrite out (decrypted_offset p) decrypted) sds
                (kx_public packet) (drop header_size packet) k
                (omega (arith, length-drop header_size packet))),
        )
      ]
