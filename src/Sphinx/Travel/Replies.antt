-- ===== src/Sphinx/Travel/Replies.antt =====
-- src/core/sphinx: a reply packet that is completed with a SURB, back to the node that built the SURB.
use mixnet.Base.{
  length-replicate, take_all, le→leb, from_le_bytes-to_le_bytes_u16, ℕ, suc, ◌+◌, ◌≤◌, ◌<◌, ◌≡◌,
  refl, sym, ap, ◌∙◌, Bytes, some, List, [], ◌∷◌, ◌++◌, map, append_assoc, length, length-map,
  length-append, length-take, length-drop, take, drop, take-append_self, drop-append_self,
  to_le_bytes, length-to_le_bytes, arith, AllOf, ok, bytes_eq_refl,
}
use mixnet.Sphinx.{
  MixnodeIndex, Target, try_from, header_size, payload_data_size, payload_tag_size, packet_size,
  surb_size, surb_id_size, max_hops, max_mixnode_index, shared_secret_size, raw_mixnode_index_size,
}
use mixnet.Sphinx.Packages.{Packages}
use mixnet.Sphinx.Delay.{zero_delay}
use mixnet.Sphinx.Crypto.{
  SharedSecret, derive_kx_public, decrypt_payload, encrypt_payload, gen_kx_secret,
  derive_payload_encryption_key,
}
use mixnet.Sphinx.KeyExchange.{first_scalar, length-chain}
use mixnet.Sphinx.Header.{reply}
use mixnet.Sphinx.Build.{
  payload_tag, force_payload_tag, pop_last, encrypt_with, BuiltSurb, build_surb,
  complete_reply_packet,
}
use mixnet.Sphinx.Onion.{count_peer_ids, IsTarget, layer}
use mixnet.Sphinx.Refinement.{described, build_header-described, room-fits}
use mixnet.Sphinx.Layers.{random}
use mixnet.Sphinx.Peel.{deliver_reply, overwrite, check_payload_tag, decrypt_reply_payload}
use mixnet.Sphinx.Peel.Forwarding.{field}
use mixnet.Sphinx.Travel.{travel, decrypt_with, length-layer}
use mixnet.Sphinx.Travel.Layers.{travel_layers, length-decrypt_payload}
use mixnet.Sphinx.Travel.Requests.{payload_keys, all_forwarded-some, length-force_payload_tag}

module _ {State : Type 0} (p : Packages State) where
  -- The layers that the hops add come off one by one.
  encrypt_with-decrypt_with :
      (secrets : List SharedSecret) (payload : Bytes)
      → encrypt_with p (payload_keys p secrets) (decrypt_with p secrets payload) ≡ payload
  unfolding encrypt_with encrypt_payload decrypt_payload
  encrypt_with-decrypt_with [] payload = refl
  encrypt_with-decrypt_with (k ∷ ks) payload =
      ap (λ b. encrypt_payload p b (derive_payload_encryption_key p k))
        (encrypt_with-decrypt_with ks
          (decrypt_payload p payload (derive_payload_encryption_key p k)))
      ∙ p.encrypt-decrypt (derive_payload_encryption_key p k) payload

  length-decrypt_with :
      (secrets : List SharedSecret) (payload : Bytes)
      → length (decrypt_with p secrets payload) ≡ length payload
  length-decrypt_with [] payload = refl
  length-decrypt_with (k ∷ ks) payload =
      length-decrypt_with ks (decrypt_payload p payload (derive_payload_encryption_key p k))
      ∙ length-decrypt_payload p payload k

  -- A payload that was decrypted by the hops with the keys of a SURB, and had its tag.
  pub decrypt_reply_payload_lem :
      (shared_secret : SharedSecret) (secrets : List SharedSecret) (bytes : Bytes)
      → length bytes ≡ payload_data_size
      → decrypt_reply_payload p
          (decrypt_with p (shared_secret ∷ secrets) (bytes ++ payload_tag))
          (payload_keys p (shared_secret ∷ secrets))
        ≡ (ok tt, bytes ++ payload_tag)
  unfolding decrypt_reply_payload check_payload_tag
  decrypt_reply_payload_lem shared_secret secrets bytes h =
      let tag_at : take payload_tag_size (drop payload_data_size (bytes ++ payload_tag))
          ≡ payload_tag =
        ap (take payload_tag_size) (drop-append_self payload_data_size bytes payload_tag h)
        ∙ take_all payload_tag_size payload_tag
            (omega (arith, length-replicate {A = ℕ} payload_tag_size 0)) in
      rw
        (
          encrypt_with-decrypt_with (shared_secret ∷ secrets) (bytes ++ payload_tag),
          tag_at,
          bytes_eq_refl payload_tag,
        )
        refl

  -- The fields of a SURB.
  complete_reply_packet_lem :
      (packet header shared_secret : Bytes) (index : MixnodeIndex)
      → index ≤ max_mixnode_index
      → length header ≡ header_size
      → complete_reply_packet p packet
          (to_le_bytes raw_mixnode_index_size index ++ (header ++ shared_secret))
        ≡ (
          header
              ++ decrypt_payload p
                  (force_payload_tag (drop header_size packet))
                  (derive_payload_encryption_key p shared_secret),
          some index,
        )
  unfolding complete_reply_packet try_from
  complete_reply_packet_lem packet header shared_secret index small h =
      let raw = to_le_bytes raw_mixnode_index_size index in
      let size = length-to_le_bytes raw_mixnode_index_size index in
      let secret_at : drop (raw_mixnode_index_size + header_size) (raw ++ (header ++ shared_secret))
          ≡ shared_secret =
        ap (drop (raw_mixnode_index_size + header_size))
          (sym (append_assoc raw header shared_secret))
        ∙ drop-append_self (raw_mixnode_index_size + header_size) (raw ++ header) shared_secret
            (omega (arith, length-append raw header)) in
      rw
        (
          take-append_self raw_mixnode_index_size raw (header ++ shared_secret) size,
          field raw_mixnode_index_size header_size raw header shared_secret size h,
          secret_at,
          from_le_bytes-to_le_bytes_u16 index (omega arith),
          le→leb index max_mixnode_index small,
        )
        refl

  -- A SURB is built, and a reply packet with it gets to the end of its route and is decrypted there.
  abbrev pub ReplyArrives :
      Bytes → Bytes → Bytes → Bytes → State → MixnodeIndex → List Target → List Bytes → Type 0
  ReplyArrives surb packet out id s first_mixnode_index targets kx_secrets =
      (built : BuiltSurb p) × (reply_packet : Bytes) × (payload : Bytes) × (rest : Bytes)
      × (build_surb p surb s first_mixnode_index targets (map (derive_kx_public p) kx_secrets) id
          ≡ some built)
      × (complete_reply_packet p packet built.surb ≡ (reply_packet, some first_mixnode_index))
      × (travel p out (zero_delay p) reply_packet kx_secrets
          ≡ some (record {
            targets = targets;
            delay = built.total_delay;
            action = deliver_reply id;
            out = payload ++ rest;
          }))
      × (decrypt_reply_payload p payload built.payload_encryption_keys
          ≡ (ok tt, take payload_data_size (drop header_size packet) ++ payload_tag))

  -- If the buffers and ids are arrays of their sizes, the mixnode indices are in range, and there is a
  -- node for each hop, then a SURB that is built for at most `MAX_HOPS` hops, with at most one target
  -- that is a peer id, can be used: building it does not panic; completing a reply packet with it gives the mixnode index of
  -- the first hop; the nodes that peel the reply packet one after the other forward it to the targets
  -- in their order, with delays that add up to the one returned with the SURB; the last node finds the
  -- SURB id and a payload; and decrypting that payload with the keys kept for the SURB succeeds and
  -- leaves the payload data that was in the packet.
  pub complete_reply_packet-travel :
      (surb packet out id : Bytes) (s : State) (first_mixnode_index : MixnodeIndex)
      (targets : List Target) (kx_secrets : List Bytes)
      → length surb ≡ surb_size
      → length packet ≡ packet_size
      → length out ≡ packet_size
      → length id ≡ surb_id_size
      → first_mixnode_index ≤ max_mixnode_index
      → AllOf IsTarget targets
      → length kx_secrets ≡ suc (length targets)
      → length targets < max_hops
      → count_peer_ids targets ≤ 1
      → ReplyArrives surb packet out id s first_mixnode_index targets kx_secrets
  unfolding build_surb force_payload_tag overwrite take
  complete_reply_packet-travel surb packet out id s first_mixnode_index targets kx_secrets z h o i
        small it n few one =
      let publics = map (derive_kx_public p) kx_secrets in
      let x = first_scalar p s in
      let s' = (gen_kx_secret p s).1 in
      let made = described p s targets publics (reply id) in
      let secrets = made.kx_shared_secrets in
      let (shared_secret, s'') = p.fill_bytes made.state shared_secret_size in
      let forced = force_payload_tag (drop header_size packet) in
      let sent = decrypt_payload p forced (derive_payload_encryption_key p shared_secret) in
      let layers = layer p (random p (reply id) s') (reply id) targets secrets [] in
      let fits = room-fits targets (reply id) it i few one in
      let keys = length-chain p x publics in
      let count = length-map (derive_kx_public p) kx_secrets in
      let size = length-drop header_size packet in
      let long =
        length-layer p (reply id) s' targets secrets [] (omega (arith, keys, count))
          (omega (arith, fits)) in
      let (left, k, room_left, found, arrived) =
        travel_layers p (reply id) s' out targets kx_secrets x [] sent (zero_delay p) it i n o
          (length-decrypt_payload p forced shared_secret
            ∙ length-force_payload_tag p (drop header_size packet) (omega (arith, size)))
          (omega (arith, fits)) in
      let payload = decrypt_with p (pop_last secrets) sent in
      (
        record {
          surb =
              to_le_bytes raw_mixnode_index_size first_mixnode_index
              ++ (made.header ++ shared_secret);
          payload_encryption_keys = payload_keys p (shared_secret ∷ pop_last secrets);
          total_delay = made.total_delay;
          state = s'';
        },
        made.header ++ sent,
        payload,
        drop (0 + length payload) left,
        rw
            (build_header-described p (take header_size (drop raw_mixnode_index_size surb)) s
              targets publics (reply id)
              (omega (
                arith,
                length-take header_size (drop raw_mixnode_index_size surb),
                length-drop raw_mixnode_index_size surb,
              ))
              it i (omega (arith, count)) few one)
            refl,
        complete_reply_packet_lem packet made.header shared_secret first_mixnode_index small
            (omega (arith, length-append (p.mul_base x) layers, p.length-mul_base x, long)),
        ap (λ b. travel p out (zero_delay p) b kx_secrets) (append_assoc (p.mul_base x) layers sent)
            ∙ arrived
            ∙ all_forwarded-some p targets made.total_delay (deliver_reply id)
                (overwrite left 0 payload),
        decrypt_reply_payload_lem shared_secret (pop_last secrets)
            (take payload_data_size (drop header_size packet))
            (omega (arith, size, length-take payload_data_size (drop header_size packet))),
      )
