-- ===== src/Sphinx/Passes/Sealing.antt =====
-- src/core/sphinx/build.rs: the last hop and the backward pass over the hops seal the layers of a header.
use mixnet.Base.{
  ℕ, ◌+◌, ◌-◌, ◌≤◌, ◌≡◌, refl, sym, ◌∙◌, Bytes, some, List, [], ◌∷◌, ◌++◌, append_assoc, length,
  length-append, replicate, arith, drop, slice_split_at_seam,
}
use mixnet.Sphinx.{Target, mac_size, actions_size, max_actions_pad_size}
use mixnet.Sphinx.Packages.{Packages}
use mixnet.Sphinx.Crypto.{
  SharedSecret, apply_keystream, apply_actions_encryption_keystream, compute_mac, mac_key,
  actions_encryption_key, small_derived_secrets,
}
use mixnet.Sphinx.Keystream.{
  apply_keystream-apply_keystream, length-apply_keystream, apply_keystream-append,
  apply_keystream-take,
}
use mixnet.Sphinx.Header.{PacketKind, Hop, place_mac, last_hop, backward}
use mixnet.Sphinx.Onion.{deliver_action, IsPacketKind, stream, seal, next_pad, forward_action}
use mixnet.Sphinx.Writes.{write_deliver_action_lem, write_at_part, encrypt_pad_lem}
use mixnet.Sphinx.Passes.{hop_of}

module _ {State : Type 0} (p : Packages State) where
  pub place_mac_lem :
      (start : ℕ) (front gap actions used unused key : Bytes)
      → length front ≡ start
      → length gap ≡ mac_size
      → length used ≡ start
      → place_mac p (front ++ gap) actions (used ++ unused) start key
        ≡ some (front ++ (compute_mac p actions used key ++ actions))
  unfolding place_mac compute_mac
  place_mac_lem start front gap actions used unused key h g u =
      rw (slice_split_at_seam start used unused u, append_assoc front gap actions)
        (write_at_part start front gap actions (compute_mac p actions used key) h
          (g ∙ sym (p.length-blake2b_u16 key (actions ++ used))))

  -- A prefix of the keystream, by its length.
  pub stream_lem :
      (bs : Bytes) (k : SharedSecret)
      → length bs ≤ actions_size + max_actions_pad_size
      → apply_actions_encryption_keystream p bs
          (actions_encryption_key p (small_derived_secrets p k))
        ≡ apply_keystream bs (stream p k)
  unfolding apply_actions_encryption_keystream
  stream_lem bs k h =
      let key = actions_encryption_key p (small_derived_secrets p k) in
      rw (sym (p.take-chacha20 key (length bs) (actions_size + max_actions_pad_size) h))
        (apply_keystream-take (length bs) bs (stream p k) (omega arith))

  pub last_hop_lem :
      (kind : PacketKind) (k : SharedSecret) (s : State) (start : ℕ)
      (front gap old rest pad zeros : Bytes) (d : p.F64) (hops : List Hop)
      → IsPacketKind kind
      → length front ≡ start
      → length gap ≡ mac_size
      → length old ≡ length (deliver_action kind)
      → length pad ≡ start
      → start + (length (deliver_action kind) + length rest) ≡ actions_size
      → last_hop p kind (k ∷ []) s (record {
        buffer = (front ++ gap) ++ (old ++ rest);
        pad = pad ++ zeros;
        offset = start;
        total_delay = d;
        hops = hops;
      })
        ≡ some (
          front ++ seal p k (deliver_action kind ++ (p.fill_bytes s (length rest)).0) pad,
          (p.fill_bytes s (length rest)).1,
        )
  unfolding last_hop seal
  last_hop_lem kind k s start front gap old rest pad zeros d hops i f g o len fits =
      let action = deliver_action kind in
      let random = (p.fill_bytes s (length rest)).0 in
      let filled = p.length-fill_bytes s (length rest) in
      let whole : length (front ++ gap) ≡ mac_size + start =
        omega (arith, length-append front gap) in
      rw
        (
          write_deliver_action_lem start (front ++ gap) old rest kind i whole o,
          sym (append_assoc (front ++ gap) action rest),
          slice_split_at_seam (mac_size + (start + length action)) ((front ++ gap) ++ action) rest
              (omega (arith, length-append (front ++ gap) action, whole)),
          append_assoc (front ++ gap) action random,
          slice_split_at_seam (mac_size + start) (front ++ gap) (action ++ random) whole,
          stream_lem (action ++ random) k (omega (arith, length-append action random, filled)),
          place_mac_lem start front gap (apply_keystream (action ++ random) (stream p k)) pad zeros
              (mac_key p (small_derived_secrets p k)) f g len,
        )
        refl

  pub backward_lem :
      (target : Target) (k : SharedSecret) (start : ℕ) (hops : List Hop)
      (front gap action inner pad zeros : Bytes)
      → length front ≡ start
      → length gap ≡ mac_size
      → length pad ≡ start
      → start ≤ actions_size
      → (rest : Bytes) × (backward p
            (hop_of p k start ∷ hops)
            ((front ++ gap) ++ (action ++ inner))
            (next_pad p target k pad ++ zeros)
          ≡ backward p hops (front ++ seal p k (action ++ inner) pad) (pad ++ rest))
  unfolding backward seal next_pad
  backward_lem target k start hops front gap action inner pad zeros f g len fits =
      let skipped = drop (actions_size - start) (stream p k) in
      let n = length (forward_action target) + mac_size in
      let more = apply_keystream (replicate n 0) (drop start skipped) in
      (
        more ++ zeros,
        rw
            (
              slice_split_at_seam (mac_size + start) (front ++ gap) (action ++ inner)
                  (omega (arith, length-append front gap)),
              len,
              apply_keystream-append pad (replicate n 0) skipped,
              len,
              append_assoc (apply_keystream pad skipped) more zeros,
              encrypt_pad_lem start start (apply_keystream pad skipped) (more ++ zeros) (stream p k)
                  (length-apply_keystream pad skipped ∙ len)
                  (omega (
                    arith,
                    p.length-chacha20 (actions_encryption_key p (small_derived_secrets p k))
                        (actions_size + max_actions_pad_size),
                  )),
              apply_keystream-apply_keystream pad skipped,
              place_mac_lem start front gap (apply_keystream (action ++ inner) (stream p k)) pad
                  (more ++ zeros) (mac_key p (small_derived_secrets p k)) f g len,
            )
            refl,
      )
