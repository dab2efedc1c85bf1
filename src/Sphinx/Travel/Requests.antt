-- ===== src/Sphinx/Travel/Requests.antt =====
-- src/core/sphinx: request and cover packets from one end of their route to the other.
use mixnet.Base.{
  append_assoc, length-replicate, ℕ, suc, ◌≤◌, ◌<◌, ◌≡◌, refl, ap, ◌∙◌, Bytes, Option, some, none,
  List, [], ◌∷◌, ◌++◌, map, length, length-map, length-append, length-take, length-drop, take, drop,
  arith, AllOf,
}
use mixnet.Sphinx.{
  payload_tag_size, Target, header_size, payload_size, payload_data_size, packet_size, max_hops,
}
use mixnet.Sphinx.Packages.{Packages}
use mixnet.Sphinx.Delay.{zero_delay}
use mixnet.Sphinx.Crypto.{
  SharedSecret, last, derive_kx_public, decrypt_payload, encrypt_payload, gen_kx_secret,
  derive_payload_encryption_key,
}
use mixnet.Sphinx.KeyExchange.{chain, first_scalar}
use mixnet.Sphinx.Header.{request, cover}
use mixnet.Sphinx.Build.{
  payload_tag, force_payload_tag, pop_last, encrypt_with, Completed, complete_request_packet,
  build_cover_packet,
}
use mixnet.Sphinx.Onion.{count_peer_ids, IsTarget, IsPacketKind}
use mixnet.Sphinx.Refinement.{described, build_header-described, room-fits}
use mixnet.Sphinx.Peel.{Action, deliver_request, deliver_cover}
use mixnet.Sphinx.Peel.Delivery.{peel_request_lem}
use mixnet.Sphinx.Travel.{arrive, forwarded, travel, decrypt_with}
use mixnet.Sphinx.Travel.Layers.{all_forwarded, travel_layers}

module _ {State : Type 0} (p : Packages State) where
  abbrev pub payload_keys : List SharedSecret → List Bytes
  payload_keys secrets = map (derive_payload_encryption_key p) secrets

  -- The layers of a payload come off one by one.
  pub decrypt_with-encrypt_with :
      (secrets : List SharedSecret) (k : SharedSecret) (payload : Bytes)
      → last secrets ≡ some k
      → decrypt_payload p
          (decrypt_with p (pop_last secrets) (encrypt_with p (payload_keys secrets) payload))
          (derive_payload_encryption_key p k)
        ≡ payload
  unfolding pop_last encrypt_with decrypt_payload encrypt_payload
  decrypt_with-encrypt_with [] k payload h = cc
  decrypt_with-encrypt_with (k' ∷ []) k payload h =
      let e : k' ≡ k = cc in rw e (p.decrypt-encrypt (derive_payload_encryption_key p k) payload)
  decrypt_with-encrypt_with (k' ∷ k'' ∷ ks) k payload h =
      ap
        (λ b.
          decrypt_payload p (decrypt_with p (pop_last (k'' ∷ ks)) b)
            (derive_payload_encryption_key p k))
        (p.decrypt-encrypt (derive_payload_encryption_key p k')
          (encrypt_with p (payload_keys (k'' ∷ ks)) payload))
      ∙ decrypt_with-encrypt_with (k'' ∷ ks) k payload h

  pub length-encrypt_with :
      (keys : List Bytes) (payload : Bytes) → length (encrypt_with p keys payload) ≡ length payload
  unfolding encrypt_with encrypt_payload
  length-encrypt_with [] payload = refl
  length-encrypt_with (key ∷ keys) payload =
      p.length-lioness_encrypt key (encrypt_with p keys payload) ∙ length-encrypt_with keys payload

  pub all_forwarded-some :
      (targets : List Target) (d : p.F64) (action : Action p) (out : Bytes)
      → all_forwarded p targets
          (some (record { targets = []; delay = d; action = action; out = out }))
        ≡ some (record { targets = targets; delay = d; action = action; out = out })
  all_forwarded-some [] d action out = refl
  all_forwarded-some (target ∷ targets) d action out =
      ap (forwarded p target) (all_forwarded-some targets d action out)

  pub length-force_payload_tag :
      (payload : Bytes)
      → length payload ≡ payload_size
      → length (force_payload_tag payload) ≡ payload_size
  unfolding force_payload_tag
  length-force_payload_tag payload h = omega (
    arith,
    length-append (take payload_data_size payload) payload_tag,
    length-take payload_data_size payload,
    length-replicate {A = ℕ} payload_tag_size 0,
  )

  -- A request packet is completed and its data gets to the end of its route.
  abbrev pub RequestArrives : Bytes → Bytes → State → List Target → List Bytes → Type 0
  RequestArrives packet out s targets kx_secrets =
      (completed : Completed p) × (rest : Bytes) × (complete_request_packet p packet s targets
          (map (derive_kx_public p) kx_secrets)
        ≡ some completed)
      × (travel p out (zero_delay p) completed.packet kx_secrets
          ≡ some (record {
            targets = targets;
            delay = completed.total_delay;
            action = deliver_request;
            out = take payload_data_size (drop header_size packet) ++ rest;
          }))

  -- If the packet, the nodes' buffers and the peer ids are arrays of their sizes, the mixnode indices
  -- are in range, there is a node for each hop, and there are at most `MAX_HOPS` hops and at most one
  -- target that is a peer id, then completing a request packet for the nodes with the given secret keys does not panic, and the nodes that peel it one
  -- after the other, whatever their buffers hold, accept every MAC, forward it to the targets in their
  -- order with delays that add up to the one returned, and the last node delivers a request with the
  -- payload data that was in the packet.
  pub complete_request_packet-travel :
      (packet out : Bytes) (s : State) (targets : List Target) (kx_secrets : List Bytes)
      → length packet ≡ packet_size
      → length out ≡ packet_size
      → AllOf IsTarget targets
      → length kx_secrets ≡ suc (length targets)
      → length targets < max_hops
      → count_peer_ids targets ≤ 1
      → RequestArrives packet out s targets kx_secrets
  unfolding complete_request_packet force_payload_tag
  complete_request_packet-travel packet out s targets kx_secrets h o it n few one =
      let publics = map (derive_kx_public p) kx_secrets in
      let x = first_scalar p s in
      let built = described p s targets publics request in
      let data_at = take payload_data_size (drop header_size packet) in
      let forced = force_payload_tag (drop header_size packet) in
      let payload = encrypt_with p (payload_keys (chain p x publics)) forced in
      let size = length-drop header_size packet in
      let (left, k, room_left, found, arrived) =
        travel_layers p request (gen_kx_secret p s).1 out targets kx_secrets x [] payload
          (zero_delay p) it tt n o
          (length-encrypt_with (payload_keys (chain p x publics)) forced
            ∙ length-force_payload_tag (drop header_size packet) (omega arith))
          (omega (arith, room-fits targets request it tt few one)) in
      let (rest, got) =
        peel_request_lem p left (decrypt_with p (pop_last (chain p x publics)) payload) data_at k
          (omega (arith, size, length-take payload_data_size (drop header_size packet)))
          (decrypt_with-encrypt_with (chain p x publics) k forced found) in
      (
        record {
          packet = built.header ++ payload;
          total_delay = built.total_delay;
          state = built.state;
        },
        rest,
        rw
            (build_header-described p (take header_size packet) s targets publics request
              (omega (arith, length-take header_size packet)) it tt
              (omega (arith, length-map (derive_kx_public p) kx_secrets)) few one)
            refl,
        ap (λ b. travel p out (zero_delay p) b kx_secrets) (append_assoc (p.mul_base x) _ payload)
            ∙ arrived
            ∙ ap (λ r. all_forwarded p targets (arrive p (λ d o. none) built.total_delay r)) got
            ∙ all_forwarded-some targets built.total_delay deliver_request (data_at ++ rest),
      )

  -- A cover packet is built and gets to the end of its route.
  abbrev pub CoverArrives : Bytes → Bytes → State → List Target → List Bytes → Option Bytes → Type 0
  CoverArrives packet out s targets kx_secrets id =
      (completed : Completed p) × (left : Bytes) × (build_cover_packet p packet s targets
          (map (derive_kx_public p) kx_secrets) id
        ≡ some completed)
      × (travel p out (zero_delay p) completed.packet kx_secrets
          ≡ some (record {
            targets = targets;
            delay = completed.total_delay;
            action = deliver_cover id;
            out = left;
          }))

  -- If the packet, the nodes' buffers and the ids are arrays of their sizes, the mixnode indices are in
  -- range, there is a node for each hop, and there are at most `MAX_HOPS` hops and at most one target
  -- that is a peer id, then building a cover packet with or without a cover id does not panic, and the nodes that peel it one after the other
  -- forward it to the targets in their order with delays that add up to the one returned, and the last
  -- node finds a cover packet with the cover id.
  pub build_cover_packet-travel :
      (packet out : Bytes) (s : State) (targets : List Target) (kx_secrets : List Bytes)
      (id : Option Bytes)
      → length packet ≡ packet_size
      → length out ≡ packet_size
      → AllOf IsTarget targets
      → IsPacketKind (cover id)
      → length kx_secrets ≡ suc (length targets)
      → length targets < max_hops
      → count_peer_ids targets ≤ 1
      → CoverArrives packet out s targets kx_secrets id
  unfolding build_cover_packet
  build_cover_packet-travel packet out s targets kx_secrets id h o it ik n few one =
      let publics = map (derive_kx_public p) kx_secrets in
      let x = first_scalar p s in
      let built = described p s targets publics (cover id) in
      let (payload, s') = p.fill_bytes built.state payload_size in
      let (left, k, room_left, found, arrived) =
        travel_layers p (cover id) (gen_kx_secret p s).1 out targets kx_secrets x [] payload
          (zero_delay p) it ik n o (p.length-fill_bytes built.state payload_size)
          (omega (arith, room-fits targets (cover id) it ik few one)) in
      (
        record { packet = built.header ++ payload; total_delay = built.total_delay; state = s' },
        left,
        rw
            (build_header-described p (take header_size packet) s targets publics (cover id)
              (omega (arith, length-take header_size packet)) it ik
              (omega (arith, length-map (derive_kx_public p) kx_secrets)) few one)
            refl,
        ap (λ b. travel p out (zero_delay p) b kx_secrets) (append_assoc (p.mul_base x) _ payload)
            ∙ arrived
            ∙ all_forwarded-some targets built.total_delay (deliver_cover id) left,
      )
