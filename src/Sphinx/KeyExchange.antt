-- ===== src/Sphinx/KeyExchange.antt =====
-- src/core/sphinx/crypto.rs: the shared secrets that the sender of a packet generates for the hops of its
-- route, and those that the hops derive from the public key in the packet as it is blinded on the way.
use mixnet.Base.{
  lt→ltb, ◌<◌, ne→not-==, ℕ, zero, suc, ◌+◌, ◌≤◌, ◌≡◌, refl, sym, ap, ◌∙◌, Bytes, some, List, [],
  ◌∷◌, ◌++◌, append_assoc, append-nil, length, length-append, arith, if◌then◌else◌, ◌==◌,
}
use mixnet.Sphinx.{KxPublic, max_hops}
use mixnet.Sphinx.Packages.{Packages}
use mixnet.Sphinx.Crypto.{
  SharedSecret, last, derive_kx_public, derive_kx_blinding_factor, blind_kx_public,
  derive_kx_shared_secret, push_secret, blind_secret, gen_shared_secrets,
  gen_kx_public_and_shared_secrets, gen_kx_secret,
}

last-append : (xs : List Bytes) (x : Bytes) → last (xs ++ (x ∷ [])) ≡ some x
last-append [] x = refl
last-append (y ∷ []) x = refl
last-append (y ∷ z ∷ xs) x = last-append (z ∷ xs) x

module _ {State : Type 0} (p : Packages State) where
  -- The secret scalar for the next hop, from that for a hop with the given secret.
  abbrev pub blinded : p.Scalar → SharedSecret → p.Scalar
  blinded x k = p.scalar_mul x (p.clamped_scalar (derive_kx_blinding_factor p (p.mul_base x) k))

  -- Each hop's secret from the scalar for the first.
  abbrev pub chain : p.Scalar → List KxPublic → List SharedSecret
  chain x [] = []
  chain x (their_kx_public ∷ rest) =
      let k = p.mul_point their_kx_public x in k ∷ chain (blinded x k) rest

  pub length-chain :
      (x : p.Scalar) (publics : List KxPublic) → length (chain x publics) ≡ length publics
  length-chain x [] = refl
  length-chain x (y ∷ ys) = ap suc (length-chain (blinded x (p.mul_point y x)) ys)

  public_key :
      (j : ℕ) (x : p.Scalar) (kx_public : KxPublic)
      → (j ≡ 0 → kx_public ≡ p.mul_base x)
      → (if j == 0 then kx_public else p.mul_base x) ≡ p.mul_base x
  public_key zero x kx_public h = h refl
  public_key (suc j) x kx_public h = rw (ne→not-== (suc j) 0 (ground arith)) refl

  push_secret_lem :
      (secrets : List SharedSecret) (k : SharedSecret)
      → length secrets < max_hops
      → push_secret p secrets k ≡ some (secrets ++ (k ∷ []))
  unfolding push_secret
  push_secret_lem secrets k h = rw (lt→ltb (length secrets) max_hops h) refl

  gen_shared_secrets_rest :
      (j : ℕ) (x : p.Scalar) (kx_public : KxPublic) (earlier : List SharedSecret) (k : SharedSecret)
      (publics : List KxPublic)
      → (j ≡ 0 → kx_public ≡ p.mul_base x)
      → length earlier + 1 + length publics ≤ max_hops
      → gen_shared_secrets p (suc j) x kx_public (earlier ++ (k ∷ [])) publics
        ≡ some ((earlier ++ (k ∷ [])) ++ chain (blinded x k) publics)
  unfolding gen_shared_secrets blind_secret
  gen_shared_secrets_rest j x kx_public earlier k [] h few =
      ap some (sym (append-nil (earlier ++ (k ∷ []))))
  gen_shared_secrets_rest j x kx_public earlier k (y ∷ ys) h few =
      let x' = blinded x k in
      let k' = p.mul_point y x' in
      let size = length-append earlier (k ∷ []) in
      rw
        (
          last-append earlier k,
          public_key j x kx_public h,
          push_secret_lem (earlier ++ (k ∷ [])) k' (omega (arith, size)),
        )
        (gen_shared_secrets_rest (suc j) x' (p.mul_base x) (earlier ++ (k ∷ [])) k' ys
            (λ e. absurd (omega arith)) (omega (arith, size))
          ∙ ap some (append_assoc (earlier ++ (k ∷ [])) (k' ∷ []) (chain (blinded x' k') ys)))

  pub gen_shared_secrets_lem :
      (x : p.Scalar) (publics : List KxPublic)
      → length publics ≤ max_hops
      → gen_shared_secrets p 0 x (p.mul_base x) [] publics ≡ some (chain x publics)
  unfolding gen_shared_secrets blind_secret
  gen_shared_secrets_lem x [] few = refl
  gen_shared_secrets_lem x (y ∷ ys) few =
      rw (push_secret_lem [] (p.mul_point y x) (omega arith)) (
        gen_shared_secrets_rest 0 x (p.mul_base x) [] (p.mul_point y x) ys (λ e. refl)
          (omega arith))

  -- The scalar of a fresh secret.
  abbrev pub first_scalar : State → p.Scalar
  first_scalar s = p.clamped_scalar (gen_kx_secret p s).0

  pub gen_kx_public_and_shared_secrets_lem :
      (s : State) (publics : List KxPublic)
      → length publics ≤ max_hops
      → gen_kx_public_and_shared_secrets p s publics
        ≡ some
            ((p.mul_base (first_scalar s), chain (first_scalar s) publics), (gen_kx_secret p s).1)
  unfolding gen_kx_public_and_shared_secrets derive_kx_public
  gen_kx_public_and_shared_secrets_lem s publics few =
      rw
        (
          p.mul_base_clamped_law (gen_kx_secret p s).0,
          gen_shared_secrets_lem (first_scalar s) publics few,
        )
        refl

  -- The secret that a hop derives is the one that was generated for it.
  pub derive_kx_shared_secret_lem :
      (x : p.Scalar) (kx_secret : Bytes)
      → derive_kx_shared_secret p (p.mul_base x) kx_secret
        ≡ p.mul_point (derive_kx_public p kx_secret) x
  unfolding derive_kx_shared_secret derive_kx_public
  derive_kx_shared_secret_lem x kx_secret =
      let y = p.clamped_scalar kx_secret in
      p.mul_clamped-mul_base x kx_secret
      ∙ ap p.mul_base (p.scalar_mul_comm x y)
      ∙ sym (p.mul_point-mul_base y x)
      ∙ ap (λ q. p.mul_point q x) (sym (p.mul_base_clamped_law kx_secret))

  -- The public key that a hop leaves in the packet is that of the next scalar.
  pub blind_kx_public_lem :
      (x : p.Scalar) (k : SharedSecret)
      → blind_kx_public p (p.mul_base x) k ≡ p.mul_base (blinded x k)
  unfolding blind_kx_public
  blind_kx_public_lem x k = p.mul_clamped-mul_base x (derive_kx_blinding_factor p (p.mul_base x) k)
