-- ===== src/Sphinx/StandIn.antt =====
-- src/core/sphinx: stand-ins for the packages, to run the code with.
use mixnet.Base.{
  ℕ, ◌+◌, ◌≡◌, refl, Bytes, [], ◌∷◌, length, replicate, length-replicate, take-replicate, Bool,
  true, false, ◌&&◌, if◌then◌else◌, min, ltb,
}
use mixnet.Sphinx.Packages.{Packages}
use mixnet.Sphinx.Crypto.{apply_keystream}
use mixnet.Sphinx.Keystream.{length-apply_keystream, apply_keystream-apply_keystream}

abbrev pub sum : Bytes → ℕ
sum [] = 0
sum (b ∷ bs) = b + sum bs

abbrev pub masked : Bytes → Bytes → Bytes
masked key bs = apply_keystream bs (replicate (length bs) (sum key))

pub masked-masked : (key bs : Bytes) → masked key (masked key bs) ≡ bs
masked-masked key bs =
    rw (length-apply_keystream bs (replicate (length bs) (sum key)))
      (apply_keystream-apply_keystream bs (replicate (length bs) (sum key)))

abbrev pub point : Bool → Bytes
point x = replicate 32 (if x then 9 else 0)

abbrev pub times : Bytes → Bool → Bytes
times q true = q
times q false = point false

pub times-point : (x y : Bool) → times (point x) y ≡ point (x && y)
times-point true true = refl
times-point true false = refl
times-point false true = refl
times-point false false = refl

pub and_comm : (x y : Bool) → (x && y) ≡ (y && x)
and_comm true true = refl
and_comm true false = refl
and_comm false true = refl
and_comm false false = refl

abbrev pub clamped : Bytes → Bool
clamped b = ltb 0 (sum b)

-- Simple operations with the laws of the packages: sums in place of hashes, and two scalars.
abbrev pub stand_in : Packages ℕ
stand_in = record {
  fill_bytes = λ s n. (replicate n s, s + 1);
  length-fill_bytes = λ s n. length-replicate n s;
  F64 = ℕ;
  f64_zero = 0;
  f64_ten = 10;
  f64_add = λ a b. a + b;
  f64_min = λ a b. min a b;
  sample_exp1 = sum;
  blake2b_u16 = λ key bs. replicate 16 (sum key + sum bs);
  blake2b_u32 = λ key salt personal. replicate 32 (sum key);
  blake2b_u64 = λ key salt personal. replicate 64 (sum key + sum salt + sum personal);
  length-blake2b_u16 = λ key bs. length-replicate 16 (sum key + sum bs);
  chacha20 = λ key n. replicate n (sum key);
  length-chacha20 = λ key n. length-replicate n (sum key);
  take-chacha20 = λ key m n h. take-replicate m n (sum key) h;
  lioness_encrypt = masked;
  lioness_decrypt = masked;
  length-lioness_encrypt = λ key bs. length-apply_keystream bs (replicate (length bs) (sum key));
  length-lioness_decrypt = λ key bs. length-apply_keystream bs (replicate (length bs) (sum key));
  decrypt-encrypt = masked-masked;
  encrypt-decrypt = masked-masked;
  Scalar = Bool;
  clamped_scalar = clamped;
  scalar_mul = λ x y. x && y;
  mul_base = point;
  mul_base_clamped = λ b. point (clamped b);
  mul_point = times;
  mul_clamped = λ q b. times q (clamped b);
  length-mul_base = λ x. length-replicate 32 (if x then 9 else 0);
  scalar_mul_comm = and_comm;
  mul_base_clamped_law = λ b. refl;
  mul_point-mul_base = times-point;
  mul_clamped-mul_base = λ x b. times-point x (clamped b);
}
