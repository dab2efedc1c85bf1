-- ===== src/KxPair.antt =====
-- src/core/kx_pair.rs: key-exchange key pairs.
pub mod Agreement
mod Examples
use mixnet.Base.{Bytes, ◌≡◌, refl, sym, ap, ◌∙◌}
use mixnet.Sphinx.{KxPublic}
use mixnet.Sphinx.Packages.{Packages}
use mixnet.Sphinx.Crypto.{SharedSecret, gen_kx_secret, derive_kx_public, derive_kx_shared_secret}

pub record KxPair : Type 0 where
  pub secret : Bytes
  pub public_key : KxPublic

module _ {State : Type 0} (p : Packages State) where
  -- `From<KxSecret> for KxPair`.
  unfoldable pub from_secret : Bytes → KxPair
  from_secret secret = record { secret = secret; public_key = derive_kx_public p secret }

  unfoldable pub gen : State → KxPair × State
  gen s = let (secret, s') = gen_kx_secret p s in (from_secret secret, s')

  unfoldable pub exchange : KxPair → KxPublic → SharedSecret
  exchange pair their_public = derive_kx_shared_secret p their_public pair.secret
