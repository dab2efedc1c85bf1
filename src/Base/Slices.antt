-- ===== src/Base/Slices.antt =====
-- The operations of Rust's slices that the code uses; `none` is a panic.
use Prim.Native.Nat.{◌+◌, ℕ, ◌≤◌, ◌<◌}
use mathlib.Core.Path.{◌≡◌, refl, sym}
use mathlib.Core.Logic.{◌≢◌}
use mathlib.Core.List.{List, [], ◌∷◌, ◌++◌}
use native.Mathlib.Omega.{arith}
use mathlib.Core.Option.{Option, none, some}
use mixnet.Base.Tests.{if◌then◌else◌, leb, ◌==◌, le→leb, lt→not-leb, eq→==, ne→not-==}
use mixnet.Base.Lists.{
  length, take, drop, length-append, take-append_self, drop-append_self, take-append-drop,
  length-take, length-drop,
}

module _ {ℓ} {A : Type ℓ} where
  -- `slice::split_at`, which panics past the end.
  unfoldable pub slice_split_at : List A → ℕ → Option (List A × List A)
  slice_split_at xs n = if leb n (length xs) then some (take n xs, drop n xs) else none

  -- `slice::copy_from_slice`, which panics unless the lengths agree.
  unfoldable pub copy_from_slice : List A → List A → Option (List A)
  copy_from_slice dst src = if length dst == length src then some src else none

  -- `slice::split_first`, without the first element.
  unfoldable pub split_first : List A → Option (List A)
  split_first [] = none
  split_first (x ∷ xs) = some xs

  pub slice_split_at_le :
      (xs : List A) (n : ℕ) → n ≤ length xs → slice_split_at xs n ≡ some (take n xs, drop n xs)
  unfolding slice_split_at
  slice_split_at_le xs n h = rw (le→leb n (length xs) h)

  pub slice_split_at_gt : (xs : List A) (n : ℕ) → length xs < n → slice_split_at xs n ≡ none
  unfolding slice_split_at
  slice_split_at_gt xs n h = rw (lt→not-leb n (length xs) h)

  pub copy_from_slice_eq :
      (dst src : List A) → length dst ≡ length src → copy_from_slice dst src ≡ some src
  unfolding copy_from_slice
  copy_from_slice_eq dst src h = rw (eq→== _ _ h)

  pub copy_from_slice_ne :
      (dst src : List A) → length dst ≢ length src → copy_from_slice dst src ≡ none
  unfolding copy_from_slice
  copy_from_slice_ne dst src h = rw (ne→not-== _ _ h)

  pub slice_split_at-append :
      (xs ys : List A) → slice_split_at (xs ++ ys) (length xs) ≡ some (xs, ys)
  slice_split_at-append xs ys =
      rw (slice_split_at_le (xs ++ ys) (length xs) (omega (arith, length-append xs ys)))
        (rw (take-append_self (length xs) xs ys refl, drop-append_self (length xs) xs ys refl))

  pub slice_split_at_seam :
      (n : ℕ) (xs ys : List A) → length xs ≡ n → slice_split_at (xs ++ ys) n ≡ some (xs, ys)
  slice_split_at_seam n xs ys h =
      rw (slice_split_at_le (xs ++ ys) n (omega (arith, length-append xs ys)))
        (rw (take-append_self n xs ys h, drop-append_self n xs ys h) refl)

  -- A list with room for a part is the part and a rest.
  pub cut :
      (n : ℕ) (xs : List A)
      → n ≤ length xs
      → (front : List A) × (back : List A) × (xs ≡ front ++ back)
        × (length front ≡ n)
        × (n + length back ≡ length xs)
  cut n xs h = (
    take n xs,
    drop n xs,
    sym (take-append-drop n xs),
    omega (arith, length-take n xs),
    omega (arith, length-drop n xs),
  )
