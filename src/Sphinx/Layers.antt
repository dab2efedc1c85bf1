-- ===== src/Sphinx/Layers.antt =====
-- src/core/sphinx/build.rs: the two passes over the hops build the layers that the comments of
-- src/core/sphinx/packet.rs describe.
use mixnet.Base.{
  length-replicate, drop, length-to_le_bytes, ℕ, suc, ◌+◌, ◌-◌, ◌≤◌, ◌<◌, ◌≡◌, refl, ap, ◌∙◌, Bytes,
  Option, none, some, List, [], ◌∷◌, ◌++◌, append_assoc, length, length-append, replicate, arith,
  cut, AllOf, ◌>>=◌,
}
use mixnet.Sphinx.{
  raw_action_deliver_cover_with_id, raw_action_deliver_cover, raw_action_deliver_reply,
  raw_action_deliver_request, Target, mac_size, actions_size, max_hops, raw_action_size,
}
use mixnet.Sphinx.Packages.{Packages}
use mixnet.Sphinx.Crypto.{SharedSecret, small_derived_secrets, delay_seed}
use mixnet.Sphinx.Delay.{add, exp}
use mixnet.Sphinx.Header.{
  last_hop, PacketKind, request, reply, cover, Hop, forward, backward, build_actions,
}
use mixnet.Sphinx.Onion.{
  stream, layer, next_pad, forward_action, deliver_action, IsTarget, IsPacketKind, room,
  total_delay,
}
use mixnet.Sphinx.Writes.{length-with_id}
use mixnet.Sphinx.Keystream.{length-apply_keystream}
use mixnet.Sphinx.Passes.{hop_of, forward_hop_cut}
use mixnet.Sphinx.Passes.Sealing.{last_hop_lem, backward_lem}

deliver_action-room : (kind : PacketKind) → raw_action_size ≤ length (deliver_action kind)
deliver_action-room request = omega (arith, length-to_le_bytes 2 raw_action_deliver_request)
deliver_action-room (reply id) = omega (arith, length-with_id raw_action_deliver_reply id)
deliver_action-room (cover none) = omega (arith, length-to_le_bytes 2 raw_action_deliver_cover)
deliver_action-room (cover (some id)) =
    omega (arith, length-with_id raw_action_deliver_cover_with_id id)

room-room : (targets : List Target) (kind : PacketKind) → raw_action_size ≤ room targets kind
room-room [] kind = deliver_action-room kind
room-room (target ∷ targets) kind = omega (arith, room-room targets kind)

module _ {State : Type 0} (p : Packages State) where
  pub length-next_pad :
      (target : Target) (k : SharedSecret) (pad : Bytes)
      → length (next_pad p target k pad) ≡ length pad + length (forward_action target) + mac_size
  unfolding next_pad
  length-next_pad target k pad =
      let n = length (forward_action target) + mac_size in
      omega (
        arith,
        length-apply_keystream (pad ++ replicate n 0)
            (drop (actions_size - length pad) (stream p k)),
        length-append pad (replicate n 0),
        length-replicate {A = ℕ} n 0,
      )

  module _ (kind : PacketKind) (s : State) where
    abbrev pub random : ℕ → Bytes
    random n = (p.fill_bytes s n).0

    -- What is left of the actions after all hops.
    abbrev pub spare : ℕ → List Target → ℕ
    spare start targets = actions_size - (start + room targets kind)

    pub build_actions-layer :
        (targets : List Target) (secrets : List SharedSecret) (start : ℕ)
        (front gap rest pad : Bytes) (unset : ℕ) (d : p.F64) (hops : List Hop)
        → AllOf IsTarget targets
        → IsPacketKind kind
        → length secrets ≡ suc (length targets)
        → length front ≡ start
        → length gap ≡ mac_size
        → length pad ≡ start
        → start + length rest ≡ actions_size
        → start + unset + raw_action_size ≡ actions_size
        → start + room targets kind ≤ actions_size
        → length hops + length targets < max_hops
        → (more : Bytes) × (build_actions p targets secrets kind s (record {
          buffer = (front ++ gap) ++ rest;
          pad = pad ++ replicate unset 0;
          offset = start;
          total_delay = d;
          hops = hops;
        })
            ≡ (backward p hops (front ++ layer p random kind targets secrets pad) (pad ++ more)
                >>= (λ buffer. some (
                  (buffer, total_delay p d targets secrets),
                  (p.fill_bytes s (spare start targets)).1,
                ))))
    unfolding build_actions forward layer last_hop
    build_actions-layer targets [] start front gap rest pad unset d hops it ik n f g l r z fits
          few =
        absurd (omega arith)
    build_actions-layer [] (k ∷ k' ∷ ks) start front gap rest pad unset d hops it ik n f g l r z
          fits few =
        absurd (omega arith)
    build_actions-layer [] (k ∷ []) start front gap rest pad unset d hops it ik n f g l r z fits
          few =
        let (old, tail, e, o, m) = cut (length (deliver_action kind)) rest (omega arith) in
        let size : length tail ≡ spare start [] = omega arith in
        (
          replicate unset 0,
          rw
              (
                l,
                e,
                last_hop_lem p kind k s start front gap old tail pad (replicate unset 0) d hops ik f
                    g o l (omega arith),
                size,
              )
              refl,
        )
    build_actions-layer (target ∷ targets) (k ∷ []) start front gap rest pad unset d hops it ik n f
          g l r z fits few =
        absurd (omega arith)
    build_actions-layer (target ∷ targets) (k ∷ k' ∷ ks') start front gap rest pad unset d hops it
          ik n f g l r z fits few =
        let ks = k' ∷ ks' in
        let action = forward_action target in
        let n' = length action + mac_size in
        let least = room-room targets kind in
        let (gap', rest', g', m, step) =
          forward_hop_cut p target k start front gap rest pad unset d hops it.0 f g l (omega arith)
            (omega (arith, least)) (omega (arith, least)) (omega arith) in
        let front' = (front ++ gap) ++ action in
        let whole : length (front ++ gap) ≡ mac_size + start =
          omega (arith, length-append front gap) in
        let (more', ih) =
          build_actions-layer targets ks (start + length action + mac_size) front' gap' rest'
            (next_pad p target k pad) (unset - n')
            (add p d (exp p (delay_seed p (small_derived_secrets p k)))) (hop_of p k start ∷ hops)
            it.1 ik (omega arith) (omega (arith, length-append (front ++ gap) action, whole)) g'
            (omega (arith, length-next_pad target k pad)) (omega arith) (omega (arith, least))
            (omega arith) (omega arith) in
        let inner = layer p random kind targets ks (next_pad p target k pad) in
        let (more, back) =
          backward_lem p target k start hops front gap action inner pad more' f g l (omega arith) in
        let above = next_pad p target k pad ++ more' in
        let built = front' ++ inner in
        let finish : ℕ → Bytes → Option ((Bytes × p.F64) × State) = λ n buffer.
          some ((buffer, total_delay p d (target ∷ targets) (k ∷ ks)), (p.fill_bytes s n).1) in
        let left : spare (start + length action + mac_size) targets
            ≡ spare start (target ∷ targets) =
          omega arith in
        (
          more,
          rw step (
              ih
              ∙ ap (λ n. backward p (hop_of p k start ∷ hops) built above >>= finish n) left
              ∙ ap (λ o. o >>= finish (spare start (target ∷ targets)))
                  (ap (λ b. backward p (hop_of p k start ∷ hops) b above)
                      (append_assoc (front ++ gap) action inner)
                    ∙ back)),
        )
