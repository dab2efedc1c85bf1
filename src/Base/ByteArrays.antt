-- ===== src/Base/ByteArrays.antt =====
-- Byte arrays as lists of numbers, and the little-endian integers in them.
use Prim.Native.Nat.{ℕ, zero, suc, ◌+◌, ◌*◌, ◌/◌, ◌%◌, ◌<◌}
use mathlib.Core.Bool.{Bool, true, false, ◌&&◌, true≢false}
use mixnet.Base.Tests.{◌==◌, eq→==}
use mathlib.Core.Logic.{◌≢◌}
use mathlib.Core.Path.{◌≡◌, refl, sym, ◌∙◌}
use mathlib.Core.List.{List, [], ◌∷◌}
use native.Mathlib.Omega.{arith}
use mixnet.Base.Lists.{length}

abbrev pub Bytes : Type 0
Bytes = List ℕ

-- `to_le_bytes` of an integer of the given number of bytes.
unfoldable pub to_le_bytes : ℕ → ℕ → Bytes
to_le_bytes zero n = []
to_le_bytes (suc width) n = (n % 256) ∷ to_le_bytes width (n / 256)

unfoldable pub from_le_bytes : Bytes → ℕ
from_le_bytes [] = 0
from_le_bytes (b ∷ bs) = b + 256 * from_le_bytes bs

pub length-to_le_bytes : (width n : ℕ) → length (to_le_bytes width n) ≡ width
unfolding to_le_bytes
length-to_le_bytes zero n = refl
length-to_le_bytes (suc width) n = omega (arith, length-to_le_bytes width (n / 256))

-- A `u16` survives the trip through its two bytes.
pub from_le_bytes-to_le_bytes_u16 : (n : ℕ) → n < 65536 → from_le_bytes (to_le_bytes 2 n) ≡ n
unfolding from_le_bytes to_le_bytes
from_le_bytes-to_le_bytes_u16 n h = omega arith

-- Byte arrays compared, in `PartialEq` and in a constant time alike.
unfoldable pub bytes_eq : Bytes → Bytes → Bool
bytes_eq [] [] = true
bytes_eq [] (b ∷ bs) = false
bytes_eq (a ∷ cs) [] = false
bytes_eq (a ∷ cs) (b ∷ bs) = (a == b) && bytes_eq cs bs

pub bytes_eq_refl : (bs : Bytes) → bytes_eq bs bs ≡ true
unfolding bytes_eq
bytes_eq_refl [] = refl
bytes_eq_refl (b ∷ bs) = rw (eq→== b b refl, bytes_eq_refl bs) refl

both : (x y : Bool) → (x && y) ≡ true → (x ≡ true) × (y ≡ true)
both true y h = (refl, h)
both false y h = cc

pub bytes_eq→eq : (cs bs : Bytes) → bytes_eq cs bs ≡ true → cs ≡ bs
unfolding bytes_eq
bytes_eq→eq [] [] h = refl
bytes_eq→eq [] (b ∷ bs) h = cc
bytes_eq→eq (a ∷ cs) [] h = cc
bytes_eq→eq (a ∷ cs) (b ∷ bs) h =
    let (same, rest) = both (a == b) (bytes_eq cs bs) h in
    let same' : a ≡ b = ground (arith, same) in rw (same', bytes_eq→eq cs bs rest) refl

pub not-bytes_eq→ne : (cs bs : Bytes) → bytes_eq cs bs ≡ false → cs ≢ bs
not-bytes_eq→ne cs bs h e = true≢false (sym (bytes_eq_refl bs) ∙ (rw e at h))
