-- ===== src/Sphinx/Peel/Forwarding.antt =====
-- src/core/sphinx/peel.rs: what peeling leaves of a packet whose actions forward it.
use mixnet.Base.{
  ℕ, ◌+◌, ◌-◌, ◌≡◌, refl, sym, ap, ◌∙◌, Bytes, [], ◌++◌, append_assoc, append-nil, length,
  length-append, length-take, length-drop, take, drop, take-append_self, drop-append_self,
  take-append_le, take-append_ge, drop_all, arith, bytes_eq_refl,
}
use mixnet.Sphinx.{
  mac_size, actions_size, raw_action_size, header_size, kx_public_size, payload_size, packet_size,
  max_actions_pad_size,
}
use mixnet.Sphinx.Packages.{Packages}
use mixnet.Sphinx.Crypto.{SharedSecret, small_derived_secrets, mac_key, mac_ok}
use mixnet.Sphinx.Peel.{overwrite, decrypted_offset, decrypt_actions, peel_action, peel, kx_public}

pub overwrite-overwrite :
    (out raw moved kx payload : Bytes)
    → length out ≡ packet_size
    → length raw ≡ raw_action_size
    → length moved ≡ actions_size + max_actions_pad_size - raw_action_size
    → length kx ≡ kx_public_size
    → length payload ≡ payload_size
    → overwrite (overwrite (overwrite out 30 (raw ++ moved)) 0 kx) header_size payload
      ≡ kx ++ (take (mac_size + actions_size) moved ++ payload)
unfolding overwrite take
overwrite-overwrite out raw moved kx payload o r m k pl =
    let lead = take 30 out in
    let tail = drop (30 + length (raw ++ moved)) out in
    let ol = length-take 30 out in
    let whole = lead ++ ((raw ++ moved) ++ tail) in
    let e₁ : whole ≡ (lead ++ raw) ++ (moved ++ tail) =
      ap (◌++◌ lead) (append_assoc raw moved tail) ∙ sym (append_assoc lead raw (moved ++ tail)) in
    let e₂ : drop (0 + length kx) whole ≡ moved ++ tail =
      ap (drop (0 + length kx)) e₁
      ∙ drop-append_self (0 + length kx) (lead ++ raw) (moved ++ tail)
          (omega (arith, length-append lead raw)) in
    let inner = take (mac_size + actions_size) moved in
    let size : header_size - length kx ≡ mac_size + actions_size = omega arith in
    let e₃ : take header_size (kx ++ (moved ++ tail)) ≡ kx ++ inner =
      take-append_ge header_size kx (moved ++ tail) (omega arith)
      ∙ ap (λ n. kx ++ take n (moved ++ tail)) size
      ∙ ap (◌++◌ kx) (take-append_le (mac_size + actions_size) moved tail (omega arith)) in
    let e₄ : drop (header_size + length payload) (kx ++ (moved ++ tail)) ≡ [] =
      drop_all (header_size + length payload) (kx ++ (moved ++ tail)) (
        omega (
          arith,
          length-append kx (moved ++ tail),
          length-append moved tail,
          length-append raw moved,
          length-drop (30 + length (raw ++ moved)) out,
        )) in
    rw (e₂, e₃, e₄, append-nil payload) (append_assoc kx inner payload)

-- The fields of a packet.
pub field :
    (n m : ℕ) (front xs back : Bytes)
    → length front ≡ n
    → length xs ≡ m
    → take m (drop n (front ++ (xs ++ back))) ≡ xs
field n m front xs back f x =
    ap (take m) (drop-append_self n front (xs ++ back) f) ∙ take-append_self m xs back x

module _ {State : Type 0} (p : Packages State) where
  -- The MAC that a packet is to have for a hop.
  abbrev pub mac_for : SharedSecret → Bytes → Bytes
  mac_for k actions = p.blake2b_u16 (mac_key p (small_derived_secrets p k)) actions

  -- Peeling a packet with the right MAC does what its decrypted actions say.
  pub peel_fields :
      (out kx actions payload : Bytes) (k : SharedSecret)
      → length kx ≡ kx_public_size
      → length actions ≡ actions_size
      → peel p out (kx ++ (mac_for k actions ++ (actions ++ payload))) k ≡ (
          let sds = small_derived_secrets p k in
          let decrypted = decrypt_actions p actions sds in
          peel_action p decrypted (overwrite out (decrypted_offset p) decrypted) sds kx payload k)
  unfolding peel mac_ok kx_public
  peel_fields out kx actions payload k h a =
      let mac = mac_for k actions in
      let m : length mac ≡ mac_size =
        p.length-blake2b_u16 (mac_key p (small_derived_secrets p k)) actions in
      let at : length (kx ++ mac) ≡ kx_public_size + mac_size =
        omega (arith, length-append kx mac) in
      let e : kx ++ (mac ++ (actions ++ payload)) ≡ (kx ++ mac) ++ (actions ++ payload) =
        sym (append_assoc kx mac (actions ++ payload)) in
      let actions_at : take actions_size
            (drop (kx_public_size + mac_size) (kx ++ (mac ++ (actions ++ payload))))
          ≡ actions =
        ap (λ b. take actions_size (drop (kx_public_size + mac_size) b)) e
        ∙ field (kx_public_size + mac_size) actions_size (kx ++ mac) actions payload at a in
      let payload_at : drop header_size (kx ++ (mac ++ (actions ++ payload))) ≡ payload =
        ap (drop header_size) (e ∙ sym (append_assoc (kx ++ mac) actions payload))
        ∙ drop-append_self header_size ((kx ++ mac) ++ actions) payload
            (omega (arith, length-append (kx ++ mac) actions)) in
      rw
        (
          field kx_public_size mac_size kx mac (actions ++ payload) h m,
          actions_at,
          payload_at,
          take-append_self kx_public_size kx (mac ++ (actions ++ payload)) h,
          bytes_eq_refl mac,
        )
        refl
