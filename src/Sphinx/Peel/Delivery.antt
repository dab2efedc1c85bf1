-- ===== src/Sphinx/Peel/Delivery.antt =====
-- src/core/sphinx/peel.rs: what peeling does at the last hop of a route.
use mixnet.Base.{
  length-replicate, ℕ, ◌+◌, ◌<◌, ◌≡◌, refl, ap, ◌∙◌, Bytes, ◌++◌, append_assoc, length, take, drop,
  arith, to_le_bytes, from_le_bytes, length-to_le_bytes, bytes_eq_refl, Result, ok, none, some,
}
use mixnet.Sphinx.{
  raw_action_size, payload_data_size, payload_tag_size, surb_id_size, cover_id_size,
  raw_action_deliver_request, raw_action_deliver_reply, raw_action_deliver_cover,
  raw_action_deliver_cover_with_id,
}
use mixnet.Sphinx.Packages.{Packages}
use mixnet.Sphinx.Crypto.{SharedSecret, decrypt_payload, derive_payload_encryption_key}
use mixnet.Sphinx.Header.{PacketKind, request, reply, cover}
use mixnet.Sphinx.Onion.{deliver_action, IsPacketKind}
use mixnet.Sphinx.Build.{payload_tag}
use mixnet.Sphinx.Peel.{
  PeelErr, Action, deliver_request, deliver_reply, deliver_cover, overwrite, check_payload_tag,
  peel_request, peel_action,
}
use mixnet.Sphinx.Peel.Forwarding.{field}
use mixnet.Sphinx.Peel.Decrypted.{raw_at}

-- An id after the raw action.
id_at :
    (raw : ℕ) (id rest : Bytes) (m : ℕ)
    → length id ≡ m
    → take m (drop raw_action_size ((to_le_bytes raw_action_size raw ++ id) ++ rest)) ≡ id
id_at raw id rest m h =
    ap (λ b. take m (drop raw_action_size b)) (append_assoc (to_le_bytes 2 raw) id rest)
    ∙ field raw_action_size m (to_le_bytes 2 raw) id rest (length-to_le_bytes 2 raw) h

raw_with_id :
    (raw : ℕ) (id rest : Bytes)
    → raw < 65536
    → from_le_bytes (take raw_action_size ((to_le_bytes raw_action_size raw ++ id) ++ rest)) ≡ raw
raw_with_id raw id rest h =
    ap (λ b. from_le_bytes (take raw_action_size b)) (append_assoc (to_le_bytes 2 raw) id rest)
    ∙ raw_at raw (id ++ rest) h

module _ {State : Type 0} (p : Packages State) where
  -- What the last hop does for each kind of packet, with `out` as it is after the decryption.
  abbrev pub delivered :
      PacketKind → Bytes → Bytes → SharedSecret → Result (Action p) PeelErr × Bytes
  delivered request left payload k = peel_request p left payload k
  delivered (reply id) left payload k = (ok (deliver_reply id), overwrite left 0 payload)
  delivered (cover id) left payload k = (ok (deliver_cover id), left)

  pub peel_action_deliver :
      (kind : PacketKind) (rest left sds kx payload : Bytes) (k : SharedSecret)
      → IsPacketKind kind
      → peel_action p (deliver_action kind ++ rest) left sds kx payload k
        ≡ delivered kind left payload k
  unfolding peel_action
  peel_action_deliver request rest left sds kx payload k i =
      rw (raw_at raw_action_deliver_request rest (omega arith)) refl
  peel_action_deliver (reply id) rest left sds kx payload k i =
      rw
        (
          raw_with_id raw_action_deliver_reply id rest (omega arith),
          id_at raw_action_deliver_reply id rest surb_id_size i,
        )
        refl
  peel_action_deliver (cover none) rest left sds kx payload k i =
      rw (raw_at raw_action_deliver_cover rest (omega arith)) refl
  peel_action_deliver (cover (some id)) rest left sds kx payload k i =
      rw
        (
          raw_with_id raw_action_deliver_cover_with_id id rest (omega arith),
          id_at raw_action_deliver_cover_with_id id rest cover_id_size i,
        )
        refl

  -- A payload with the right tag after decryption is delivered.
  pub peel_request_lem :
      (left payload bytes : Bytes) (k : SharedSecret)
      → length bytes ≡ payload_data_size
      → decrypt_payload p payload (derive_payload_encryption_key p k) ≡ bytes ++ payload_tag
      → (rest : Bytes) × (peel_request p left payload k ≡ (ok deliver_request, bytes ++ rest))
  unfolding peel_request check_payload_tag overwrite take
  peel_request_lem left payload bytes k h e =
      let after = drop (0 + length (bytes ++ payload_tag)) left in
      let shape : (bytes ++ payload_tag) ++ after ≡ bytes ++ (payload_tag ++ after) =
        append_assoc bytes payload_tag after in
      (
        payload_tag ++ after,
        rw
            (
              e,
              shape,
              field payload_data_size payload_tag_size bytes payload_tag after h
                  (length-replicate {A = ℕ} payload_tag_size 0),
              bytes_eq_refl payload_tag,
              peel_request,
            )
            (rw e (ap (λ (b : Bytes). (ok deliver_request, b)) shape)),
      )
