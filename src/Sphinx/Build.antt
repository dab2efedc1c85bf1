-- ===== src/Sphinx/Build.antt =====
-- src/core/sphinx/build.rs: the building of packets and SURBs. Packets are byte arrays of their fixed
-- sizes; `none` is a panic.
use mixnet.Base.{
  ◌+◌, Bytes, Option, some, List, [], ◌∷◌, ◌++◌, map, take, drop, replicate, to_le_bytes,
  from_le_bytes, ◌>>=◌,
}
use mixnet.Sphinx.{
  KxPublic, MixnodeIndex, Target, header_size, payload_data_size, payload_tag_size, payload_size,
  raw_mixnode_index_size, shared_secret_size, try_from,
}
use mixnet.Sphinx.Packages.{Packages}
use mixnet.Sphinx.Crypto.{derive_payload_encryption_key, encrypt_payload, decrypt_payload}
use mixnet.Sphinx.Header.{request, reply, cover, build_header}

abbrev pub payload_tag : Bytes
payload_tag = replicate payload_tag_size 0

-- A write of the payload data through `mut_payload_data`.
unfoldable pub write_payload_data : Bytes → Bytes → Bytes
write_payload_data packet payload_data =
    take header_size packet ++ (payload_data ++ drop (header_size + payload_data_size) packet)

-- The payload with the tag forced.
unfoldable pub force_payload_tag : Bytes → Bytes
force_payload_tag payload = take payload_data_size payload ++ payload_tag

-- A SURB without one secret.
unfoldable pub pop_last {ℓ} : {A : Type ℓ} → List A → List A
pop_last [] = []
pop_last (x ∷ []) = []
pop_last (x ∷ y ∷ xs) = x ∷ pop_last (y ∷ xs)

module _ {State : Type 0} (p : Packages State) where
  -- Encryption with each of the keys, the last first.
  unfoldable pub encrypt_with : List Bytes → Bytes → Bytes
  encrypt_with [] payload = payload
  encrypt_with (key ∷ keys) payload = encrypt_payload p (encrypt_with keys payload) key

  pub record Completed : Type 0 where
    pub packet : Bytes
    pub total_delay : p.F64
    pub state : State

  unfoldable pub complete_request_packet :
      Bytes → State → List Target → List KxPublic → Option Completed
  complete_request_packet packet s targets their_kx_publics = do
    built ← build_header p (take header_size packet) s targets their_kx_publics request
    some (record {
      packet =
          built.header
          ++ encrypt_with (map (derive_payload_encryption_key p) built.kx_shared_secrets)
              (force_payload_tag (drop header_size packet));
      total_delay = built.total_delay;
      state = built.state;
    })

  pub record BuiltSurb : Type 0 where
    pub surb : Bytes
    pub payload_encryption_keys : List Bytes
    pub total_delay : p.F64
    pub state : State

  -- `payload_encryption_keys` is empty before, and takes as many keys as there are hops.
  unfoldable pub build_surb :
      Bytes → State → MixnodeIndex → List Target → List KxPublic → Bytes → Option BuiltSurb
  build_surb surb s first_mixnode_index targets their_kx_publics id = do
    built ←
        build_header p (take header_size (drop raw_mixnode_index_size surb)) s targets
          their_kx_publics (reply id)
    let (shared_secret, s) = p.fill_bytes built.state shared_secret_size
    some (record {
      surb =
          to_le_bytes raw_mixnode_index_size first_mixnode_index ++ (built.header ++ shared_secret);
      payload_encryption_keys =
          derive_payload_encryption_key p shared_secret
          ∷ map (derive_payload_encryption_key p) (pop_last built.kx_shared_secrets);
      total_delay = built.total_delay;
      state = s;
    })

  -- The packet, and the mixnode index of the first hop.
  unfoldable pub complete_reply_packet : Bytes → Bytes → Bytes × Option MixnodeIndex
  complete_reply_packet packet surb =
      let raw_first_mixnode_index = take raw_mixnode_index_size surb in
      let surb_header = take header_size (drop raw_mixnode_index_size surb) in
      let shared_secret = drop (raw_mixnode_index_size + header_size) surb in
      (
        surb_header
            ++ decrypt_payload p (force_payload_tag (drop header_size packet))
                (derive_payload_encryption_key p shared_secret),
        try_from (from_le_bytes raw_first_mixnode_index),
      )

  unfoldable pub build_cover_packet :
      Bytes → State → List Target → List KxPublic → Option Bytes → Option Completed
  build_cover_packet packet s targets their_kx_publics id = do
    built ← build_header p (take header_size packet) s targets their_kx_publics (cover id)
    let (payload, s) = p.fill_bytes built.state payload_size
    some (record { packet = built.header ++ payload; total_delay = built.total_delay; state = s })
