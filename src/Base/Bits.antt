-- ===== src/Base/Bits.antt =====
-- The native `bit_and` and `bit_or`, digit by digit.
use Prim.Native.Nat.{
  ℕ, zero, suc, ◌+◌, ◌*◌, ◌/◌, ◌%◌, ◌^◌, ◌≤◌, ◌<◌, min, max, bit_and, bit_or, digits,
  bit_and-bitwise, bit_or-bitwise, bit_xor, bit_xor-bitwise, differ,
}
use mathlib.Core.Path.{◌≡◌, refl, ap}
use native.Mathlib.Omega.{arith}

-- The count of digits to go does not matter once it is large enough.
digits-count :
    (z : ℕ → ℕ) (f : ℕ → ℕ → ℕ) (n m a b : ℕ) → a ≤ n → a ≤ m → digits z f n a b ≡ digits z f m a b
digits-count z f zero zero a b p q = refl
digits-count z f zero (suc m) zero b p q = refl
digits-count z f zero (suc m) (suc a) b p q = absurd (omega arith)
digits-count z f (suc n) zero zero b p q = refl
digits-count z f (suc n) zero (suc a) b p q = absurd (omega arith)
digits-count z f (suc n) (suc m) zero b p q = refl
digits-count z f (suc n) (suc m) (suc a) b p q =
    ap (λ d. d * 2 + f (suc a % 2) (b % 2))
      (digits-count z f n m (suc a / 2) (b / 2) (omega arith) (omega arith))

bit_and-halves : (a b : ℕ) → bit_and a b ≡ bit_and (a / 2) (b / 2) * 2 + min (a % 2) (b % 2)
bit_and-halves zero b = omega (arith, bit_and-bitwise 0 b, bit_and-bitwise 0 (b / 2))
bit_and-halves (suc a) b = omega (
  arith,
  bit_and-bitwise (suc a) b,
  bit_and-bitwise (suc a / 2) (b / 2),
  digits-count (λ b. zero) min a (suc a / 2) (suc a / 2) (b / 2) (omega arith) (omega arith),
)

bit_or-halves : (a b : ℕ) → bit_or a b ≡ bit_or (a / 2) (b / 2) * 2 + max (a % 2) (b % 2)
bit_or-halves zero b = omega (arith, bit_or-bitwise 0 b, bit_or-bitwise 0 (b / 2))
bit_or-halves (suc a) b = omega (
  arith,
  bit_or-bitwise (suc a) b,
  bit_or-bitwise (suc a / 2) (b / 2),
  digits-count (λ b. b) max a (suc a / 2) (suc a / 2) (b / 2) (omega arith) (omega arith),
)

bit_or-half : (a b : ℕ) → bit_or a b / 2 ≡ bit_or (a / 2) (b / 2)
bit_or-half a b = omega (arith, bit_or-halves a b)

kept_below : (n a b mask : ℕ) → a ≤ n → bit_and a mask ≤ bit_and (bit_or a b) mask
kept_below n zero b mask h = omega (arith, bit_and-bitwise 0 mask)
kept_below zero (suc a) b mask h = absurd (omega arith)
kept_below (suc n) (suc a) b mask h = omega (
  arith,
  bit_and-halves (suc a) mask,
  bit_and-halves (bit_or (suc a) b) mask,
  bit_or-halves (suc a) b,
  ap (λ x. bit_and x (mask / 2)) (bit_or-half (suc a) b),
  kept_below n (suc a / 2) (b / 2) (mask / 2) (omega arith),
)

-- The digits that a number has under a mask stay when others are set.
pub bit_and-bit_or_keeps : (a b mask : ℕ) → bit_and a mask ≤ bit_and (bit_or a b) mask
bit_and-bit_or_keeps a b mask = kept_below a a b mask (omega arith)

set_below : (n a mask : ℕ) → mask ≤ n → mask ≤ bit_and (bit_or a mask) mask
set_below n a zero h = omega arith
set_below zero a (suc mask) h = absurd (omega arith)
set_below (suc n) a (suc mask) h = omega (
  arith,
  bit_and-halves (bit_or a (suc mask)) (suc mask),
  bit_or-halves a (suc mask),
  ap (λ x. bit_and x (suc mask / 2)) (bit_or-half a (suc mask)),
  set_below n (a / 2) (suc mask / 2) (omega arith),
)

-- The digits of a mask that was set are there.
pub bit_and-bit_or_sets : (a mask : ℕ) → mask ≤ bit_and (bit_or a mask) mask
bit_and-bit_or_sets a mask = set_below mask a mask (omega arith)

pub pow-positive : (n : ℕ) → 0 < 2 ^ n
pow-positive zero = omega arith
pow-positive (suc n) = grind (arith, pow-positive n)

bit_xor-halves : (a b : ℕ) → bit_xor a b ≡ bit_xor (a / 2) (b / 2) * 2 + differ (a % 2) (b % 2)
bit_xor-halves zero b = omega (arith, bit_xor-bitwise 0 b, bit_xor-bitwise 0 (b / 2))
bit_xor-halves (suc a) b = omega (
  arith,
  bit_xor-bitwise (suc a) b,
  bit_xor-bitwise (suc a / 2) (b / 2),
  digits-count (λ b. b) differ a (suc a / 2) (suc a / 2) (b / 2) (omega arith) (omega arith),
)

differ-digits : (x y : ℕ) → x < 2 → y < 2 → differ x y ≡ (x + y) % 2
differ-digits zero y p q = omega arith
differ-digits (suc zero) zero p q = omega arith
differ-digits (suc zero) (suc zero) p q = omega arith
differ-digits (suc zero) (suc (suc y)) p q = absurd (omega arith)
differ-digits (suc (suc x)) y p q = absurd (omega arith)

bit_xor-parts :
    (a b : ℕ)
    → (bit_xor a b / 2 ≡ bit_xor (a / 2) (b / 2)) × (bit_xor a b % 2 ≡ (a % 2 + b % 2) % 2)
bit_xor-parts a b =
    let halves = bit_xor-halves a b in
    let digit = differ-digits (a % 2) (b % 2) (omega arith) (omega arith) in
    (omega (arith, halves, digit), omega (arith, halves, digit))

xor_below : (n a b : ℕ) → a ≤ n → b ≤ n → bit_xor (bit_xor a b) b ≡ a
xor_below zero a b p q =
    let none_a : a ≡ 0 = omega arith in
    let none_b : b ≡ 0 = omega arith in
    rw (none_a, none_b)
      (omega (arith, bit_xor-bitwise 0 0, ap (λ x. bit_xor x 0) (bit_xor-bitwise 0 0)))
xor_below (suc n) a b p q =
    let (half, digit) = bit_xor-parts a b in
    let (half', digit') = bit_xor-parts (bit_xor a b) b in
    omega (
      arith,
      half',
      digit',
      digit,
      ap (λ x. bit_xor x (b / 2)) half,
      xor_below n (a / 2) (b / 2) (omega arith) (omega arith),
    )

-- A key that is applied twice cancels.
pub bit_xor-bit_xor : (a b : ℕ) → bit_xor (bit_xor a b) b ≡ a
bit_xor-bit_xor a b = xor_below (a + b) a b (omega arith) (omega arith)

pub bit_xor_zero : (b : ℕ) → bit_xor 0 b ≡ b
bit_xor_zero b = bit_xor-bitwise 0 b
