-- ===== src/Base.antt =====
-- The names that the other modules share: the libraries', passed on, and those of the children.
mod Tests
mod Lists
mod Slices
mod Chunks
mod ByteArrays
mod Bits
pub use Tests.*
pub use Lists.*
pub use Slices.*
pub use Chunks.*
pub use ByteArrays.*
pub use Bits.*
pub use Prim.Native.Nat.{
  ℕ, zero, suc, ◌+◌, ◌-◌, ◌*◌, ◌/◌, ◌%◌, ◌^◌, ◌≤◌, ◌<◌, min, max, bit_and, bit_or, bit_xor,
}
pub use mathlib.Core.Path.{◌≡◌, refl, sym, ap, ◌∙◌, subst}
pub use mathlib.Core.Logic.{◌≢◌, ◌↔◌, ◌⊎◌, inl, inr}
pub use mathlib.Core.Bool.{Bool, true, false, not, ◌&&◌, ◌||◌}
pub use mathlib.Core.Option.{Option, none, some}
pub use mathlib.Core.List.{List, [], ◌∷◌, ◌++◌, map, append_assoc, append-nil}
unfoldable pub use mathlib.Core.List.{flatten}
pub use native.Mathlib.Omega.{arith}
unfoldable pub use Lists.{get_elem?, set, take, drop, replicate}
unfoldable pub use Slices.{slice_split_at, copy_from_slice, split_first}
unfoldable pub use ByteArrays.{to_le_bytes, from_le_bytes, bytes_eq}
unfoldable pub use mathlib.Core.List.{lookup}
unfoldable pub use native.Mathlib.Decide.{ℕ_discrete}
unfoldable pub use Chunks.{rchunks, rchunks_exact, write_rchunks}
