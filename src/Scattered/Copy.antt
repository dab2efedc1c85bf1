-- ===== src/Scattered/Copy.antt =====
-- `Scattered::copy_to_slice` of src/core/scattered.rs.
use mixnet.Base.{
  lt-or-le, eq-or-ne, inl, inr, sym, slice_split_at_gt, slice_split_at_le, copy_from_slice_eq,
  copy_from_slice_ne, ◌≤◌, ◌+◌, ◌≡◌, refl, List, [], ◌∷◌, ◌++◌, append_assoc, flatten, some, length,
  take, drop, length-append, length-take, length-drop, slice_split_at, copy_from_slice, ◌>>=◌,
  arith,
}
use mixnet.Scattered.{Scattered, to_vec, copy_to_slice, copy_rest}
use mixnet.Scattered.Contents.{to_vec_lem}

module _ {ℓ} {A : Type ℓ} where
  copy_second :
      (dst xs ys : List A)
      → length xs ≤ length dst
      → (do rest ← copy_from_slice (drop (length xs) dst) ys; some (xs ++ rest))
        ≡ copy_from_slice dst (xs ++ ys)
  copy_second dst xs ys h = elim (eq-or-ne (length dst) (length xs + length ys)) [
    | inl e ↦ rw (
      copy_from_slice_eq (drop (length xs) dst) ys (omega (arith, length-drop (length xs) dst)),
      copy_from_slice_eq dst (xs ++ ys) (omega (arith, length-append xs ys)),
    )
    | inr n ↦ rw (
      copy_from_slice_ne (drop (length xs) dst) ys
          (λ e. n (omega (arith, length-drop (length xs) dst))),
      copy_from_slice_ne dst (xs ++ ys) (λ e. n (omega (arith, length-append xs ys))),
    )
  ]

  -- Copying two parts one after the other copies their concatenation, panics included.
  copy_from_slice-append :
      (dst xs ys : List A)
      → (do
        (left, right) ← slice_split_at dst (length xs)
        copied ← copy_from_slice left xs
        rest ← copy_from_slice right ys
        some (copied ++ rest))
        ≡ copy_from_slice dst (xs ++ ys)
  copy_from_slice-append dst xs ys = elim (lt-or-le (length dst) (length xs)) [
    | inl h ↦
        rw (slice_split_at_gt dst (length xs) h)
          (sym (copy_from_slice_ne dst (xs ++ ys) (λ e. omega (arith, length-append xs ys))))
    | inr h ↦ rw (slice_split_at_le dst (length xs) h) (
        rw
          (copy_from_slice_eq (take (length xs) dst) xs
            (omega (arith, length-take (length xs) dst)))
          (copy_second dst xs ys h))
  ]

  copy_rest_lem :
      (mid_slices : List (List A)) (last_slice dst : List A)
      → copy_rest mid_slices last_slice dst ≡ copy_from_slice dst (flatten mid_slices ++ last_slice)
  unfolding copy_rest flatten
  copy_rest_lem [] last_slice dst = refl
  copy_rest_lem (m ∷ ms) last_slice dst =
      rw (append_assoc m (flatten ms) last_slice)
        (simp (copy_rest_lem ms last_slice) (copy_from_slice-append dst m _))

  -- Copying a scattered slice is copying the vector of its elements: the result is those
  -- elements, and the call panics exactly when the destination has another length.
  pub copy_to_slice_lem :
      (s : Scattered A) (dst : List A) → copy_to_slice s dst ≡ copy_from_slice dst (to_vec s)
  unfolding copy_to_slice
  copy_to_slice_lem s dst =
      rw (to_vec_lem s) (
        simp (copy_rest_lem s.mid_slices s.last_slice) (copy_from_slice-append dst s.first_slice _))
