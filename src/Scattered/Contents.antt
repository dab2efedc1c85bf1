-- ===== src/Scattered/Contents.antt =====
-- What a `Scattered` of src/core/scattered.rs stands for: `to_vec` as one append.
use mixnet.Base.{
  ◌+◌, ◌≡◌, refl, ap, List, [], ◌∷◌, ◌++◌, append_assoc, append-nil, flatten, length, length-append,
  arith,
}
use mixnet.Scattered.{Scattered, to_vec, of_slice, of_slices, extend_all, sum_lengths}

module _ {ℓ} {A : Type ℓ} where
  -- The `len` field is the number of elements.
  pub record IsValid (s : Scattered A) : Type ℓ where
    pub counted : s.len ≡ length (to_vec s)

  extend_all-append :
      (vec : List A) (slices : List (List A)) → extend_all vec slices ≡ vec ++ flatten slices
  unfolding extend_all flatten
  extend_all-append vec [] = rw append-nil refl
  extend_all-append vec (slice ∷ slices) =
      rw (extend_all-append (vec ++ slice) slices) (append_assoc vec slice (flatten slices))

  pub to_vec_lem :
      (s : Scattered A) → to_vec s ≡ s.first_slice ++ (flatten s.mid_slices ++ s.last_slice)
  unfolding to_vec
  to_vec_lem s =
      rw (extend_all-append s.first_slice s.mid_slices) (append_assoc s.first_slice _ s.last_slice)

  pub length-to_vec :
      (s : Scattered A)
      → length (to_vec s)
        ≡ length s.first_slice + (length (flatten s.mid_slices) + length s.last_slice)
  length-to_vec s = omega (
    arith,
    ap length (to_vec_lem s),
    length-append s.first_slice (flatten s.mid_slices ++ s.last_slice),
    length-append (flatten s.mid_slices) s.last_slice,
  )

  sum_lengths-length : (slices : List (List A)) → sum_lengths slices ≡ length (flatten slices)
  unfolding sum_lengths flatten
  sum_lengths-length [] = refl
  sum_lengths-length (slice ∷ slices) =
      omega (arith, sum_lengths-length slices, length-append slice (flatten slices))

  -- Both conversions hold exactly the given elements, and count them.
  pub of_slice_lem : (slice : List A) → IsValid (of_slice slice) × (to_vec (of_slice slice) ≡ slice)
  unfolding of_slice flatten
  of_slice_lem slice =
      let e = to_vec_lem (of_slice slice) in
      (record { counted = rw (e, append-nil) }, rw e (append-nil slice))

  pub of_slices_lem :
      (slices : List (List A))
      → IsValid (of_slices slices) × (to_vec (of_slices slices) ≡ flatten slices)
  unfolding of_slices
  of_slices_lem slices =
      let e = to_vec_lem (of_slices slices) in
      (record { counted = rw (e, append-nil, sum_lengths-length) }, rw e (append-nil _))
