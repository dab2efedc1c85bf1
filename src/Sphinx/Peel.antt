-- ===== src/Sphinx/Peel.antt =====
-- src/core/sphinx/peel.rs: the peeling of a layer off a packet, and the decryption of replies. Packets
-- and payloads are byte arrays of their fixed sizes.
pub mod Forwarding
pub mod Decrypted
pub mod Layered
pub mod Delivery
pub mod Errors
use mixnet.Base.{
  ℕ, ◌+◌, ◌-◌, ◌==◌, Bytes, Bool, Option, none, some, List, [], ◌∷◌, ◌++◌, length, take, drop,
  replicate, from_le_bytes, bytes_eq, if◌then◌else◌, not, Result, ok, err,
}
use mixnet.Sphinx.{
  KxPublic, Target, mixnode_index, peer_id, try_from, kx_public_size, mac_size, actions_size,
  header_size, payload_data_size, payload_tag_size, raw_action_size, peer_id_size, surb_id_size,
  cover_id_size, max_actions_pad_size, raw_action_forward_to_peer_id, raw_action_deliver_request,
  raw_action_deliver_reply, raw_action_deliver_cover, raw_action_deliver_cover_with_id,
}
use mixnet.Sphinx.Packages.{Packages}
use mixnet.Sphinx.Delay.{exp}
use mixnet.Sphinx.Crypto.{
  SharedSecret, blind_kx_public, small_derived_secrets, mac_key, actions_encryption_key, delay_seed,
  mac_ok, apply_actions_encryption_keystream, derive_payload_encryption_key, encrypt_payload,
  decrypt_payload,
}
use mixnet.Sphinx.Build.{payload_tag, encrypt_with}

unfoldable pub kx_public : Bytes → KxPublic
kx_public packet = take kx_public_size packet

pub data PeelErr : Type 0 where
  mac_err action_err payload_tag_err : PeelErr

unfoldable pub check_payload_tag : Bytes → Result (Unit {0}) PeelErr
check_payload_tag tag = if bytes_eq tag payload_tag then ok tt else err payload_tag_err

-- A write of an array at a fixed offset of another.
unfoldable pub overwrite : Bytes → ℕ → Bytes → Bytes
overwrite xs offset arr = take offset xs ++ (arr ++ drop (offset + length arr) xs)

-- `slice::copy_within` of `len` bytes from `src` to `dest`.
unfoldable pub copy_within : Bytes → ℕ → ℕ → ℕ → Bytes
copy_within xs src len dest = overwrite xs dest (take len (drop src xs))

-- The target of a forward action, and the decrypted actions moved into place.
unfoldable pub forward_target : ℕ → Bytes → Result (Target × Bytes) PeelErr
forward_target raw_action decrypted =
    if raw_action == raw_action_forward_to_peer_id
    then ok (
      peer_id (take peer_id_size (drop raw_action_size decrypted)),
      copy_within decrypted (raw_action_size + peer_id_size) (mac_size + actions_size)
          raw_action_size,
    )
    else elim (try_from raw_action) [
      | none ↦ err action_err
      | some index ↦ ok (mixnode_index index, decrypted)
    ]

module _ {State : Type 0} (p : Packages State) where
  pub data Action : Type 0 where
    forward_to : Target → p.F64 → Action
    deliver_request : Action
    deliver_reply : Bytes → Action
    deliver_cover : Option Bytes → Action

  -- Where `decrypted_actions` is in `out`.
  abbrev pub decrypted_offset : ℕ
  decrypted_offset = kx_public_size - raw_action_size

  unfoldable pub decrypt_actions : Bytes → Bytes → Bytes
  decrypt_actions actions sds =
      apply_actions_encryption_keystream p (actions ++ replicate max_actions_pad_size 0)
        (actions_encryption_key p sds)

  unfoldable pub peel_request : Bytes → Bytes → SharedSecret → Result Action PeelErr × Bytes
  peel_request out payload kx_shared_secret =
      let out =
        overwrite out 0
          (decrypt_payload p payload (derive_payload_encryption_key p kx_shared_secret)) in
      elim (check_payload_tag (take payload_tag_size (drop payload_data_size out))) [
        | err e ↦ (err e, out)
        | ok _ ↦ (ok deliver_request, out)
      ]

  unfoldable pub peel_forward :
      ℕ → Bytes → Bytes → Bytes → Bytes → Bytes → SharedSecret → Result Action PeelErr × Bytes
  peel_forward raw_action decrypted out sds kx_public payload kx_shared_secret =
      elim (forward_target raw_action decrypted) [
        | err e ↦ (err e, out)
        | ok (target, moved) ↦
            let out = overwrite out decrypted_offset moved in
            let delay = exp p (delay_seed p sds) in
            let out = overwrite out 0 (blind_kx_public p kx_public kx_shared_secret) in
            let out =
              overwrite out header_size
                (decrypt_payload p payload (derive_payload_encryption_key p kx_shared_secret)) in
            (ok (forward_to target delay), out)
      ]

  -- What is done for the decrypted actions, which are in `out` already.
  unfoldable pub peel_action :
      Bytes → Bytes → Bytes → Bytes → Bytes → SharedSecret → Result Action PeelErr × Bytes
  peel_action decrypted out sds kx_public payload kx_shared_secret =
      let raw_action = from_le_bytes (take raw_action_size decrypted) in
      if raw_action == raw_action_deliver_request
      then peel_request out payload kx_shared_secret
      else if raw_action == raw_action_deliver_reply
      then (
        ok (deliver_reply (take surb_id_size (drop raw_action_size decrypted))),
        overwrite out 0 payload,
      )
      else if raw_action == raw_action_deliver_cover
      then (ok (deliver_cover none), out)
      else if raw_action == raw_action_deliver_cover_with_id
      then (ok (deliver_cover (some (take cover_id_size (drop raw_action_size decrypted)))), out)
      else peel_forward raw_action decrypted out sds kx_public payload kx_shared_secret

  -- The answer, and `out` after.
  unfoldable pub peel : Bytes → Bytes → SharedSecret → Result Action PeelErr × Bytes
  peel out packet kx_shared_secret =
      let mac = take mac_size (drop kx_public_size packet) in
      let actions = take actions_size (drop (kx_public_size + mac_size) packet) in
      let payload = drop header_size packet in
      let sds = small_derived_secrets p kx_shared_secret in
      if not (mac_ok p mac actions (mac_key p sds))
      then (err mac_err, out)
      else let decrypted = decrypt_actions actions sds in
        peel_action decrypted (overwrite out decrypted_offset decrypted) sds (kx_public packet)
          payload kx_shared_secret

  -- With the payload after.
  unfoldable pub decrypt_reply_payload : Bytes → List Bytes → Result (Unit {0}) PeelErr × Bytes
  decrypt_reply_payload payload keys =
      let payload = encrypt_with p keys payload in
      (check_payload_tag (take payload_tag_size (drop payload_data_size payload)), payload)
