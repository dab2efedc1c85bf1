-- ===== src/KxPair/Agreement.antt =====
-- src/core/kx_pair.rs: two key pairs agree on a secret.
use mixnet.Base.{Bytes, ◌≡◌, sym, ap, ◌∙◌}
use mixnet.Sphinx.Packages.{Packages}
use mixnet.Sphinx.Crypto.{gen_kx_secret, derive_kx_public, derive_kx_shared_secret}
use mixnet.KxPair.{gen, exchange, from_secret}

module _ {State : Type 0} (p : Packages State) where
  shared_point :
      (a b : Bytes)
      → derive_kx_shared_secret p (derive_kx_public p b) a
        ≡ p.mul_base (p.scalar_mul (p.clamped_scalar b) (p.clamped_scalar a))
  unfolding derive_kx_shared_secret derive_kx_public
  shared_point a b =
      ap (λ q. p.mul_clamped q a) (p.mul_base_clamped_law b)
      ∙ p.mul_clamped-mul_base (p.clamped_scalar b) a

  -- The pairs that two nodes generate, from any states of their random generators, exchange the same
  -- secret from either side.
  pub exchange-gen :
      (s t : State)
      → exchange p (gen p s).0 (gen p t).0.public_key
        ≡ exchange p (gen p t).0 (gen p s).0.public_key
  unfolding exchange gen from_secret
  exchange-gen s t =
      let a = (gen_kx_secret p s).0 in
      let b = (gen_kx_secret p t).0 in
      shared_point a b
      ∙ ap p.mul_base (p.scalar_mul_comm (p.clamped_scalar b) (p.clamped_scalar a))
      ∙ sym (shared_point b a)
