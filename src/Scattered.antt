-- ===== src/Scattered.antt =====
-- src/core/scattered.rs: a concatenation of slices that is not copied until it is needed.
-- A slice is the list of its elements. `none` is a panic.
pub mod Contents
pub mod Copy
pub mod Split
mod Examples
use mixnet.Base.{
  ℕ, ◌+◌, Option, none, some, List, [], ◌∷◌, ◌++◌, ◌⊎◌, inl, inr, ◌==◌, ◌>>=◌, checked_sub, length,
  Bool, slice_split_at, copy_from_slice, split_first,
}

pub record Scattered {ℓ} (A : Type ℓ) : Type ℓ where
  pub len : ℕ
  pub first_slice : List A
  pub mid_slices : List (List A)
  pub last_slice : List A

module _ {ℓ} {A : Type ℓ} where
  pub is_empty : Scattered A → Bool
  is_empty s = s.len == 0

  extend_all : List A → List (List A) → List A
  extend_all vec [] = vec
  extend_all vec (slice ∷ slices) = extend_all (vec ++ slice) slices

  pub to_vec : Scattered A → List A
  unfolding extend_all
  to_vec s = extend_all s.first_slice s.mid_slices ++ s.last_slice

  -- The loop over `mid_slices` and the copy of `last_slice`: what stands in `dst` afterwards.
  copy_rest : List (List A) → List A → List A → Option (List A)
  copy_rest [] last_slice dst = copy_from_slice dst last_slice
  copy_rest (mid_slice ∷ mid_slices) last_slice dst = do
    (dst_mid_slice, remaining_dst) ← slice_split_at dst (length mid_slice)
    copied ← copy_from_slice dst_mid_slice mid_slice
    rest ← copy_rest mid_slices last_slice remaining_dst
    some (copied ++ rest)

  pub copy_to_slice : Scattered A → List A → Option (List A)
  unfolding copy_rest
  copy_to_slice s dst = do
    (dst_first_slice, remaining_dst) ← slice_split_at dst (length s.first_slice)
    copied ← copy_from_slice dst_first_slice s.first_slice
    rest ← copy_rest s.mid_slices s.last_slice remaining_dst
    some (copied ++ rest)

  unfoldable pub of_slice : List A → Scattered A
  of_slice slice = record {
    len = length slice;
    first_slice = slice;
    mid_slices = [];
    last_slice = [];
  }

  sum_lengths : List (List A) → ℕ
  sum_lengths [] = 0
  sum_lengths (slice ∷ slices) = length slice + sum_lengths slices

  pub of_slices : List (List A) → Scattered A
  unfolding sum_lengths
  of_slices slices = record {
    len = sum_lengths slices;
    first_slice = [];
    mid_slices = slices;
    last_slice = [];
  }

  -- The loop of `split_at` over the middle slices: the slice that the cut falls into, with its
  -- position and the cut within it, or what is left of the cut after the last one.
  unfoldable pub find_mid : ℕ → ℕ → List (List A) → (ℕ × List A × ℕ) ⊎ ℕ
  find_mid i mid_in_remaining [] = inr mid_in_remaining
  find_mid i mid_in_remaining (mid_slice ∷ mid_slices) =
      elim (checked_sub mid_in_remaining (length mid_slice)) [
        | some remaining ↦ find_mid (i + 1) remaining mid_slices
        | none ↦ inl (i, mid_slice, mid_in_remaining)
      ]

  split_in_first : Scattered A → ℕ → ℕ → Option (Scattered A × Scattered A)
  split_in_first s mid right_len = do
    (first_slice_left, first_slice_right) ← slice_split_at s.first_slice mid
    some (
      record { len = mid; first_slice = first_slice_left; mid_slices = []; last_slice = [] },
      record s { len = right_len; first_slice = first_slice_right },
    )

  split_in_last : Scattered A → ℕ → ℕ → ℕ → Option (Scattered A × Scattered A)
  split_in_last s mid right_len mid_in_remaining = do
    (last_slice_left, last_slice_right) ← slice_split_at s.last_slice mid_in_remaining
    some (
      record s { len = mid; last_slice = last_slice_left },
      record { len = right_len; first_slice = last_slice_right; mid_slices = []; last_slice = [] },
    )

  split_in_mid : Scattered A → ℕ → ℕ → ℕ → List A → ℕ → Option (Scattered A × Scattered A)
  split_in_mid s mid right_len i mid_slice mid_in_remaining = do
    (mid_slices_left, from_mid_slice) ← slice_split_at s.mid_slices i
    mid_slices_right ← split_first from_mid_slice
    (mid_slice_left, mid_slice_right) ← slice_split_at mid_slice mid_in_remaining
    some (
      record s { len = mid; mid_slices = mid_slices_left; last_slice = mid_slice_left },
      record s { len = right_len; first_slice = mid_slice_right; mid_slices = mid_slices_right },
    )

  unfoldable pub split_at : Scattered A → ℕ → Option (Scattered A × Scattered A)
  unfolding split_in_first split_in_mid split_in_last
  split_at s mid = do
    right_len ← checked_sub s.len mid
    elim (checked_sub mid (length s.first_slice)) [
      | none ↦ split_in_first s mid right_len
      | some remaining ↦ elim (find_mid 0 remaining s.mid_slices) [
        | inl (i, mid_slice, mid_in_remaining) ↦
            split_in_mid s mid right_len i mid_slice mid_in_remaining
        | inr mid_in_remaining ↦ split_in_last s mid right_len mid_in_remaining
      ]
    ]
