-- ===== src/Sphinx/Passes.antt =====
-- src/core/sphinx/build.rs: what the forward pass over the hops does with a hop.
pub mod Sealing
use mixnet.Base.{
  replicate-append, cut, lt→ltb, length-replicate, ℕ, ◌+◌, ◌-◌, ◌%◌, ◌≤◌, ◌<◌, ◌≡◌, refl, sym, ap,
  ◌∙◌, Bytes, some, List, [], ◌∷◌, ◌++◌, append_assoc, length, length-append, replicate, arith,
  drop, slice_split_at_seam,
}
use mixnet.Sphinx.{Target, mac_size, actions_size, max_hops, max_actions_pad_size}
use mixnet.Sphinx.Packages.{Packages}
use mixnet.Sphinx.Crypto.{
  SharedSecret, apply_keystream, apply_actions_encryption_keystream, compute_mac, mac_key,
  actions_encryption_key, small_derived_secrets, delay_seed,
}
use mixnet.Sphinx.Delay.{add, exp}
use mixnet.Sphinx.Keystream.{
  apply_keystream-apply_keystream, length-apply_keystream, apply_keystream-append,
  apply_keystream-take, apply_keystream-replicate,
}
use mixnet.Sphinx.Header.{
  PacketKind, Hop, Forward, forward_hop, hop_keystream, push_hop, place_mac, last_hop, backward,
}
use mixnet.Sphinx.Onion.{
  deliver_action, IsPacketKind, stream, seal, next_pad, forward_action, IsTarget,
}
use mixnet.Sphinx.Writes.{
  write_deliver_action_lem, write_at_part, write_forward_action_lem, encrypt_pad_lem,
}

module _ {State : Type 0} (p : Packages State) where
  pub hop_keystream_lem : (k : SharedSecret) → hop_keystream p k ≡ stream p k
  unfolding hop_keystream apply_actions_encryption_keystream
  hop_keystream_lem k = rw (length-replicate {A = ℕ} (actions_size + max_actions_pad_size) 0) (
      apply_keystream-replicate (actions_size + max_actions_pad_size) (stream p k)
        (p.length-chacha20 _ (actions_size + max_actions_pad_size)))

  -- What the forward loop keeps for a hop.
  abbrev pub hop_of : SharedSecret → ℕ → Hop
  hop_of k start = record {
    mac_key = mac_key p (small_derived_secrets p k);
    keystream = stream p k;
    start_offset = start;
  }

  pub forward_hop_lem :
      (target : Target) (k : SharedSecret) (start : ℕ) (front old rest pad : Bytes) (zeros : ℕ)
      (d : p.F64) (hops : List Hop)
      → IsTarget target
      → length front ≡ mac_size + start
      → length old ≡ length (forward_action target)
      → length pad ≡ start
      → start + length (forward_action target) + mac_size ≤ actions_size
      → length hops < max_hops - 1
      → forward_hop p target k (record {
        buffer = front ++ (old ++ rest);
        pad = pad ++ (replicate (length (forward_action target) + mac_size) 0 ++ replicate zeros 0);
        offset = start;
        total_delay = d;
        hops = hops;
      })
        ≡ some (record {
          buffer = front ++ (forward_action target ++ rest);
          pad = next_pad p target k pad ++ replicate zeros 0;
          offset = start + length (forward_action target) + mac_size;
          total_delay = add p d (exp p (delay_seed p (small_derived_secrets p k)));
          hops = hop_of k start ∷ hops;
        })
  unfolding forward_hop push_hop next_pad
  forward_hop_lem target k start front old rest pad zeros d hops i f o len fits few =
      let size = length (forward_action target) + mac_size in
      let small : start % 65536 ≡ start = omega arith in
      rw
        (
          write_forward_action_lem start front old rest target i f o,
          hop_keystream_lem k,
          small,
          lt→ltb (length hops) (max_hops - 1) few,
          sym (append_assoc pad (replicate size 0) (replicate zeros 0)),
          encrypt_pad_lem (start + length (forward_action target) + mac_size) start
              (pad ++ replicate size 0) (replicate zeros 0) (stream p k)
              (omega
                (arith, length-append pad (replicate size 0), length-replicate {A = ℕ} size 0, len))
              (omega (
                arith,
                p.length-chacha20 (actions_encryption_key p (small_derived_secrets p k))
                    (actions_size + max_actions_pad_size),
              )),
          len,
        )
        refl

  -- The same where the buffer is not cut into parts yet.
  pub forward_hop_cut :
      (target : Target) (k : SharedSecret) (start : ℕ) (front gap rest pad : Bytes) (unset : ℕ)
      (d : p.F64) (hops : List Hop)
      → IsTarget target
      → length front ≡ start
      → length gap ≡ mac_size
      → length pad ≡ start
      → start + length rest ≡ actions_size
      → start + length (forward_action target) + mac_size ≤ actions_size
      → length (forward_action target) + mac_size ≤ unset
      → length hops < max_hops - 1
      → (gap' : Bytes) × (rest' : Bytes) × (length gap' ≡ mac_size)
        × (length (forward_action target) + mac_size + length rest' ≡ length rest)
        × (forward_hop p target k (record {
          buffer = (front ++ gap) ++ rest;
          pad = pad ++ replicate unset 0;
          offset = start;
          total_delay = d;
          hops = hops;
        })
            ≡ some (record {
              buffer = (((front ++ gap) ++ forward_action target) ++ gap') ++ rest';
              pad =
                  next_pad p target k pad
                  ++ replicate (unset - (length (forward_action target) + mac_size)) 0;
              offset = start + length (forward_action target) + mac_size;
              total_delay = add p d (exp p (delay_seed p (small_derived_secrets p k)));
              hops = hop_of k start ∷ hops;
            }))
  forward_hop_cut target k start front gap rest pad unset d hops i f g l r fits enough few =
      let action = forward_action target in
      let n = length action + mac_size in
      let (old, tail, e₁, o, m₁) = cut (length action) rest (omega arith) in
      let (gap', rest', e₂, g', m₂) = cut mac_size tail (omega arith) in
      let whole : length (front ++ gap) ≡ mac_size + start =
        omega (arith, length-append front gap) in
      let zeros : ◌≡◌ {A = Bytes} (replicate unset 0) (replicate n 0 ++ replicate (unset - n) 0) =
        ap (λ (m : ℕ). replicate m 0) (omega arith) ∙ replicate-append {A = ℕ} n (unset - n) 0 in
      let at : Bytes → Bytes → Forward p = λ buffer pad. record {
        buffer = buffer;
        pad = pad;
        offset = start;
        total_delay = d;
        hops = hops;
      } in
      (
        gap',
        rest',
        g',
        omega arith,
        ap (λ b. forward_hop p target k (at ((front ++ gap) ++ b) (pad ++ replicate unset 0)))
              (e₁ ∙ ap (◌++◌ old) e₂)
            ∙ ap
                (λ z.
                  forward_hop p target k
                    (at ((front ++ gap) ++ (old ++ (gap' ++ rest'))) (pad ++ z)))
                zeros
            ∙ forward_hop_lem target k start (front ++ gap) old (gap' ++ rest') pad (unset - n) d
                hops i whole o l fits few
            ∙ ap
                (λ b. some (record {
                  buffer = b;
                  pad = next_pad p target k pad ++ replicate (unset - n) 0;
                  offset = start + length action + mac_size;
                  total_delay = add p d (exp p (delay_seed p (small_derived_secrets p k)));
                  hops = hop_of k start ∷ hops;
                }))
                (sym (append_assoc (front ++ gap) action (gap' ++ rest'))
                  ∙ sym (append_assoc ((front ++ gap) ++ action) gap' rest')),
      )
