-- ===== src/Sphinx/Crypto.antt =====
-- src/core/sphinx/crypto.rs: key exchange, the derivation of secrets, MACs and encryption, over the
-- operations of the packages. `none` is a panic.
use mixnet.Base.{
  ℕ, zero, suc, ◌+◌, ◌==◌, Bytes, Option, none, some, List, [], ◌∷◌, ◌++◌, length, take, drop,
  bit_xor, bytes_eq, to_le_bytes, Bool, if◌then◌else◌, ltb, ◌>>=◌,
}
use mixnet.Sphinx.{KxPublic, max_hops}
use mixnet.Sphinx.Packages.{Packages}

abbrev pub SharedSecret : Type 0
SharedSecret = Bytes

-- b"sphinx-blind-fac", b"sphinx-small-d-s" and b"sphinx-pl-en-key".
abbrev pub kx_blinding_factor_personal : Bytes
kx_blinding_factor_personal =
    115 ∷ 112 ∷ 104 ∷ 105 ∷ 110 ∷ 120 ∷ 45 ∷ 98 ∷ 108 ∷ 105 ∷ 110 ∷ 100 ∷ 45 ∷ 102 ∷ 97 ∷ 99 ∷ []

abbrev pub small_derived_secrets_personal : Bytes
small_derived_secrets_personal =
    115 ∷ 112 ∷ 104 ∷ 105 ∷ 110 ∷ 120 ∷ 45 ∷ 115 ∷ 109 ∷ 97 ∷ 108 ∷ 108 ∷ 45 ∷ 100 ∷ 45 ∷ 115 ∷ []

abbrev pub payload_encryption_key_personal : Bytes
payload_encryption_key_personal =
    115 ∷ 112 ∷ 104 ∷ 105 ∷ 110 ∷ 120 ∷ 45 ∷ 112 ∷ 108 ∷ 45 ∷ 101 ∷ 110 ∷ 45 ∷ 107 ∷ 101 ∷ 121 ∷ []

abbrev pub mac_key_size : ℕ
mac_key_size = 16

abbrev pub actions_encryption_key_size : ℕ
actions_encryption_key_size = 32

abbrev pub delay_seed_size : ℕ
delay_seed_size = 16

-- `apply_keystream`: as far as both reach.
unfoldable pub apply_keystream : Bytes → Bytes → Bytes
apply_keystream [] ks = []
apply_keystream (d ∷ ds) [] = d ∷ ds
apply_keystream (d ∷ ds) (k ∷ ks) = bit_xor d k ∷ apply_keystream ds ks

abbrev pub last {ℓ} : {A : Type ℓ} → List A → Option A
last [] = none
last (x ∷ []) = some x
last (x ∷ y ∷ xs) = last (y ∷ xs)

module _ {State : Type 0} (p : Packages State) where
  unfoldable pub gen_kx_secret : State → Bytes × State
  gen_kx_secret s = p.fill_bytes s 32

  unfoldable pub derive_kx_public : Bytes → KxPublic
  derive_kx_public kx_secret = p.mul_base_clamped kx_secret

  unfoldable pub derive_kx_blinding_factor : KxPublic → SharedSecret → Bytes
  derive_kx_blinding_factor kx_public kx_shared_secret =
      p.blake2b_u32 (kx_public ++ kx_shared_secret) [] kx_blinding_factor_personal

  unfoldable pub blind_kx_public : KxPublic → SharedSecret → KxPublic
  blind_kx_public kx_public kx_shared_secret =
      p.mul_clamped kx_public (derive_kx_blinding_factor kx_public kx_shared_secret)

  unfoldable pub derive_kx_shared_secret : KxPublic → Bytes → SharedSecret
  derive_kx_shared_secret kx_public kx_secret = p.mul_clamped kx_public kx_secret

  -- An `ArrayVec` panics when it is pushed to past its capacity, here `MAX_HOPS`.
  unfoldable pub push_secret : List SharedSecret → SharedSecret → Option (List SharedSecret)
  push_secret secrets secret =
      if ltb (length secrets) max_hops then some (secrets ++ (secret ∷ [])) else none

  -- What an iteration does before it pushes a secret: the secret scalar and the public key.
  unfoldable pub blind_secret :
      ℕ → p.Scalar → KxPublic → List SharedSecret → Option (p.Scalar × KxPublic)
  blind_secret zero kx_secret kx_public secrets = some (kx_secret, kx_public)
  blind_secret (suc i) kx_secret kx_public secrets = do
    let kx_public = if i == 0 then kx_public else p.mul_base kx_secret
    kx_shared_secret ← last secrets
    some (
      p.scalar_mul kx_secret
          (p.clamped_scalar (derive_kx_blinding_factor kx_public kx_shared_secret)),
      kx_public,
    )

  -- The loop of `gen_kx_public_and_shared_secrets`, at its iteration `i`.
  unfoldable pub gen_shared_secrets :
      ℕ → p.Scalar → KxPublic → List SharedSecret → List KxPublic → Option (List SharedSecret)
  gen_shared_secrets i kx_secret kx_public secrets [] = some secrets
  gen_shared_secrets i kx_secret kx_public secrets (their_kx_public ∷ rest) = do
    (kx_secret, kx_public) ← blind_secret i kx_secret kx_public secrets
    secrets ← push_secret secrets (p.mul_point their_kx_public kx_secret)
    gen_shared_secrets (suc i) kx_secret kx_public secrets rest

  unfoldable pub gen_kx_public_and_shared_secrets :
      State → List KxPublic → Option ((KxPublic × List SharedSecret) × State)
  gen_kx_public_and_shared_secrets s their_kx_publics = do
    let (kx_secret, s) = gen_kx_secret s
    let kx_public = derive_kx_public kx_secret
    secrets ← gen_shared_secrets 0 (p.clamped_scalar kx_secret) kx_public [] their_kx_publics
    some ((kx_public, secrets), s)

  -- `derive_secret` for a number of whole chunks of 64 bytes, from the chunk with index `i`.
  unfoldable pub derive_secret : ℕ → ℕ → SharedSecret → Bytes → Bytes
  derive_secret zero i shared_secret personal = []
  derive_secret (suc chunks) i shared_secret personal =
      p.blake2b_u64 shared_secret (to_le_bytes 8 i) personal
      ++ derive_secret chunks (suc i) shared_secret personal

  -- `SmallDerivedSecrets`, of 16 + 32 + 16 bytes, and its parts.
  unfoldable pub small_derived_secrets : SharedSecret → Bytes
  small_derived_secrets shared_secret =
      derive_secret 1 0 shared_secret small_derived_secrets_personal

  unfoldable pub mac_key : Bytes → Bytes
  mac_key sds = take mac_key_size sds

  unfoldable pub actions_encryption_key : Bytes → Bytes
  actions_encryption_key sds = take actions_encryption_key_size (drop mac_key_size sds)

  unfoldable pub delay_seed : Bytes → Bytes
  delay_seed sds = take delay_seed_size (drop (mac_key_size + actions_encryption_key_size) sds)

  -- 192 bytes: three chunks.
  unfoldable pub derive_payload_encryption_key : SharedSecret → Bytes
  derive_payload_encryption_key shared_secret =
      derive_secret 3 0 shared_secret payload_encryption_key_personal

  unfoldable pub compute_mac : Bytes → Bytes → Bytes → Bytes
  compute_mac actions pad key = p.blake2b_u16 key (actions ++ pad)

  unfoldable pub mac_ok : Bytes → Bytes → Bytes → Bool
  mac_ok mac actions key = bytes_eq (p.blake2b_u16 key actions) mac

  unfoldable pub apply_actions_encryption_keystream : Bytes → Bytes → Bytes
  apply_actions_encryption_keystream bs key = apply_keystream bs (p.chacha20 key (length bs))

  unfoldable pub encrypt_payload : Bytes → Bytes → Bytes
  encrypt_payload payload key = p.lioness_encrypt key payload

  unfoldable pub decrypt_payload : Bytes → Bytes → Bytes
  decrypt_payload payload key = p.lioness_decrypt key payload
