-- ===== src/Sphinx/Packages.antt =====
-- The packages behind src/core/sphinx: rand, rand_chacha, rand_distr, blake2, c2_chacha, lioness and
-- curve25519_dalek. Their operations, with what their documentation says of them: the lengths of the
-- results, that a stream cipher's keystream does not depend on how much of it is taken, that
-- decrypting and encrypting a wide block are inverse, and the laws of the group on which keys are
-- exchanged, for the points that are multiples of its base point.
use mixnet.Base.{ℕ, ◌≤◌, ◌≡◌, Bytes, length, take}

pub record Packages (State : Type 0) : Type 1 where
  -- `RngCore::fill_bytes` on a buffer of the given length
  pub fill_bytes : State → ℕ → Bytes × State
  pub length-fill_bytes : (s : State) (n : ℕ) → length (fill_bytes s n).0 ≡ n
  -- Floating-point numbers, and `Exp1` sampled with a `ChaChaRng` from a seed
  pub F64 : Type 0
  pub f64_zero : F64
  pub f64_ten : F64
  pub f64_add : F64 → F64 → F64
  pub f64_min : F64 → F64 → F64
  pub sample_exp1 : Bytes → F64
  -- `Blake2bMac` with an output of 16 bytes: the key and the data; and of 32 and 64 bytes, without
  -- data: the key, the salt and the personalisation
  pub blake2b_u16 : Bytes → Bytes → Bytes
  pub blake2b_u32 : Bytes → Bytes → Bytes → Bytes
  pub blake2b_u64 : Bytes → Bytes → Bytes → Bytes
  pub length-blake2b_u16 : (key bs : Bytes) → length (blake2b_u16 key bs) ≡ 16
  -- The first bytes of the keystream of `ChaCha20` with a key and the nonce 0
  pub chacha20 : Bytes → ℕ → Bytes
  pub length-chacha20 : (key : Bytes) (n : ℕ) → length (chacha20 key n) ≡ n
  pub take-chacha20 : (key : Bytes) (m n : ℕ) → m ≤ n → take m (chacha20 key n) ≡ chacha20 key m
  -- `LionessDefault` with a key
  pub lioness_encrypt : Bytes → Bytes → Bytes
  pub lioness_decrypt : Bytes → Bytes → Bytes
  pub length-lioness_encrypt : (key bs : Bytes) → length (lioness_encrypt key bs) ≡ length bs
  pub length-lioness_decrypt : (key bs : Bytes) → length (lioness_decrypt key bs) ≡ length bs
  pub decrypt-encrypt : (key bs : Bytes) → lioness_decrypt key (lioness_encrypt key bs) ≡ bs
  pub encrypt-decrypt : (key bs : Bytes) → lioness_encrypt key (lioness_decrypt key bs) ≡ bs
  -- `Scalar::from_bytes_mod_order` of a `clamp_integer`, and `Mul for Scalar`
  pub Scalar : Type 0
  pub clamped_scalar : Bytes → Scalar
  pub scalar_mul : Scalar → Scalar → Scalar
  -- `MontgomeryPoint`, by its bytes: `mul_base`, `mul_base_clamped`, `Mul<Scalar>` and `mul_clamped`
  pub mul_base : Scalar → Bytes
  pub mul_base_clamped : Bytes → Bytes
  pub mul_point : Bytes → Scalar → Bytes
  pub mul_clamped : Bytes → Bytes → Bytes
  pub length-mul_base : (x : Scalar) → length (mul_base x) ≡ 32
  pub scalar_mul_comm : (x y : Scalar) → scalar_mul x y ≡ scalar_mul y x
  pub mul_base_clamped_law : (b : Bytes) → mul_base_clamped b ≡ mul_base (clamped_scalar b)
  pub mul_point-mul_base : (x y : Scalar) → mul_point (mul_base x) y ≡ mul_base (scalar_mul x y)
  pub mul_clamped-mul_base :
      (x : Scalar) (b : Bytes)
      → mul_clamped (mul_base x) b ≡ mul_base (scalar_mul x (clamped_scalar b))
