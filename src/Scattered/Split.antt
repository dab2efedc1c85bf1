-- ===== src/Scattered/Split.antt =====
-- `Scattered::split_at` of src/core/scattered.rs.
use mixnet.Base.{
  ℕ, ◌+◌, ◌-◌, ◌≤◌, ◌<◌, ◌≡◌, refl, ap, List, [], ◌∷◌, ◌++◌, append_assoc, flatten, Option, none,
  some, length, take, drop, ltb, Bool-cases, ◌⊎◌, flatten-append, slice_split_at-append,
  checked_sub_le, checked_sub_lt, sym, ◌∙◌, append-nil, take-append-drop, inl, inr,
  slice_split_at_le, lt-or-le, length-append, length-take, slice_split_at, split_first, arith,
  take-append_self, drop-append_self,
}
use mixnet.Scattered.{
  Scattered, to_vec, split_at, find_mid, split_in_first, split_in_mid, split_in_last,
}
use mixnet.Scattered.Contents.{IsValid, to_vec_lem, length-to_vec}

module _ {ℓ} {A : Type ℓ} where
  -- Where the cut falls: in the middle slice after `before`, or past the middle slices.
  data Cut (i r : ℕ) (slices : List (List A)) : (ℕ × List A × ℕ) ⊎ ℕ → Type ℓ where
    within :
        (before : List (List A)) (slice : List A) (after : List (List A)) {j q : ℕ}
        → slices ≡ before ++ slice ∷ after
        → j ≡ i + length before
        → r ≡ length (flatten before) + q
        → q < length slice
        → Cut i r slices (inl (j, slice, q))
    past : {q : ℕ} → r ≡ length (flatten slices) + q → Cut i r slices (inr q)

  Cut-cons :
      (i r : ℕ) (m : List A) (ms : List (List A)) {c : (ℕ × List A × ℕ) ⊎ ℕ}
      → length m ≤ r
      → Cut (i + 1) (r - length m) ms c
      → Cut i r (m ∷ ms) c
  unfolding flatten
  Cut-cons i r m ms h (within before slice after e p q l) =
      within (m ∷ before) slice after (ap (◌∷◌ m) e) (omega arith)
        (omega (arith, length-append m (flatten before))) l
  Cut-cons i r m ms h (past e) = past (omega (arith, length-append m (flatten ms)))

  find_mid-Cut : (i r : ℕ) (slices : List (List A)) → Cut i r slices (find_mid i r slices)
  unfolding find_mid flatten
  find_mid-Cut i r [] = past (omega arith)
  find_mid-Cut i r (m ∷ ms) = elim (Bool-cases (ltb r (length m))) [
    | inl e ↦ rw (e, find_mid) (within [] m ms refl (omega arith) (omega arith) (ground arith))
    | inr e ↦
        rw (e, find_mid) (Cut-cons i r m ms (ground arith) (find_mid-Cut (i + 1) (r - length m) ms))
  ]

  -- What a cut of `s` at `mid` must give.
  pub record IsCut (s : Scattered A) (mid : ℕ) (left right : Scattered A) : Type ℓ where
    pub left_valid : IsValid left
    pub right_valid : IsValid right
    pub left_len : left.len ≡ mid
    pub right_len : right.len ≡ s.len - mid
    pub left_elems : to_vec left ≡ take mid (to_vec s)
    pub right_elems : to_vec right ≡ drop mid (to_vec s)

  abbrev elems : Scattered A → List A
  elems s = s.first_slice ++ (flatten s.mid_slices ++ s.last_slice)

  -- It is enough to find the cut in the elements.
  parts-IsCut :
      (s : Scattered A) (mid : ℕ) (left right : Scattered A)
      → IsValid s
      → elems s ≡ elems left ++ elems right
      → length (elems left) ≡ mid
      → left.len ≡ mid
      → right.len ≡ s.len - mid
      → IsCut s mid left right
  parts-IsCut s mid left right v e l ll rl = record {
    left_valid = record { counted = omega (arith, ap length (to_vec_lem left)) };
    right_valid = record {
      counted = omega (
        arith,
        v.counted,
        ap length e,
        ap length (to_vec_lem s),
        ap length (to_vec_lem right),
        length-append (elems left) (elems right),
      );
    };
    left_len = ll;
    right_len = rl;
    left_elems =
        to_vec_lem left
        ∙ rw (to_vec_lem s, e) (sym (take-append_self mid (elems left) (elems right) l));
    right_elems =
        to_vec_lem right
        ∙ rw (to_vec_lem s, e) (sym (drop-append_self mid (elems left) (elems right) l));
  }

  abbrev pub Cuts : Scattered A → ℕ → Option (Scattered A × Scattered A) → Type ℓ
  Cuts s mid r =
      (left : Scattered A) × (right : Scattered A) × (r ≡ some (left, right))
      × IsCut s mid left right

  take-drop_rest : (n : ℕ) (xs ys : List A) → xs ++ ys ≡ take n xs ++ (drop n xs ++ ys)
  take-drop_rest n xs ys =
      ap (λ zs. zs ++ ys) (sym (take-append-drop n xs)) ∙ append_assoc (take n xs) (drop n xs) ys

  split_in_first-Cuts :
      (s : Scattered A) (mid : ℕ)
      → IsValid s
      → mid < length s.first_slice
      → Cuts s mid (split_in_first s mid (s.len - mid))
  unfolding split_in_first flatten
  split_in_first-Cuts s mid v h = rw (slice_split_at_le s.first_slice mid (omega arith)) (
    _,
    _,
    refl,
    parts-IsCut s mid _ _ v
        (rw (append-nil (take mid s.first_slice)) (take-drop_rest mid s.first_slice _))
        (rw (append-nil (take mid s.first_slice)) (omega (arith, length-take mid s.first_slice)))
        refl refl,
  )

  length_parts :
      (xs ys zs : List A) → length (xs ++ (ys ++ zs)) ≡ length xs + (length ys + length zs)
  length_parts xs ys zs = omega (arith, length-append xs (ys ++ zs), length-append ys zs)

  elems_last :
      (first : List A) (ms : List (List A)) (last : List A) (q : ℕ)
      → first ++ (flatten ms ++ last) ≡ first ++ (flatten ms ++ take q last) ++ (drop q last ++ [])
  elems_last first ms last q =
      ap (λ zs. first ++ (flatten ms ++ zs)) (sym (take-append-drop q last))
      ∙ simp (append_assoc, append-nil)

  elems_mid :
      (first : List A) (before : List (List A)) (slice : List A) (after : List (List A))
      (last : List A) (q : ℕ)
      → first ++ (flatten (before ++ slice ∷ after) ++ last)
        ≡ first ++ (flatten before ++ take q slice) ++ (drop q slice ++ (flatten after ++ last))
  unfolding flatten
  elems_mid first before slice after last q = rw (flatten-append before (slice ∷ after)) (
      ap (λ zs. first ++ (flatten before ++ (zs ++ flatten after) ++ last))
        (sym (take-append-drop q slice))
      ∙ simp append_assoc)

  split_in_last-Cuts :
      (s : Scattered A) (mid q : ℕ)
      → IsValid s
      → mid ≤ s.len
      → mid ≡ length s.first_slice + (length (flatten s.mid_slices) + q)
      → Cuts s mid (split_in_last s mid (s.len - mid) q)
  unfolding split_in_last flatten
  split_in_last-Cuts s mid q v h e =
      let fits : q ≤ length s.last_slice = omega (arith, v.counted, length-to_vec s) in
      rw (slice_split_at_le s.last_slice q fits) (
        _,
        _,
        refl,
        parts-IsCut s mid _ _ v (elems_last s.first_slice s.mid_slices s.last_slice q)
            (omega (
              arith,
              length_parts s.first_slice (flatten s.mid_slices) (take q s.last_slice),
              length-take q s.last_slice,
            ))
            refl refl,
      )

  split_mid_slices :
      (s : Scattered A) (before after : List (List A))
      → s.mid_slices ≡ before ++ after
      → slice_split_at s.mid_slices (length before) ≡ some (before, after)
  split_mid_slices s before after m = rw m (slice_split_at-append before after)

  split_in_mid-Cuts :
      (s : Scattered A) (mid q : ℕ) (before : List (List A)) (slice : List A)
      (after : List (List A))
      → IsValid s
      → s.mid_slices ≡ before ++ slice ∷ after
      → q < length slice
      → mid ≡ length s.first_slice + (length (flatten before) + q)
      → Cuts s mid (split_in_mid s mid (s.len - mid) (length before) slice q)
  unfolding split_in_mid split_first
  split_in_mid-Cuts s mid q before slice after v m h e =
      rw (slice_split_at_le slice q (omega arith)) (
        rw (split_mid_slices s before (slice ∷ after) m) (
          _,
          _,
          refl,
          parts-IsCut s mid _ _ v
              (ap (λ ms. s.first_slice ++ (flatten ms ++ s.last_slice)) m
                ∙ elems_mid s.first_slice before slice after s.last_slice q)
              (omega (
                arith,
                length_parts s.first_slice (flatten before) (take q slice),
                length-take q slice,
              ))
              refl refl,
        ))

  split_rest-Cuts :
      (s : Scattered A) (mid r : ℕ) {c : (ℕ × List A × ℕ) ⊎ ℕ}
      → IsValid s
      → mid ≤ s.len
      → mid ≡ length s.first_slice + r
      → Cut 0 r s.mid_slices c
      → Cuts s mid (elim c [
        | inl (i, mid_slice, q) ↦ split_in_mid s mid (s.len - mid) i mid_slice q
        | inr q ↦ split_in_last s mid (s.len - mid) q
      ])
  split_rest-Cuts s mid r v h e (within before slice after {j} m p q l) =
      let p' : j ≡ length before = omega arith in
      rw p' (split_in_mid-Cuts s mid _ before slice after v m l (omega arith))
  split_rest-Cuts s mid r v h e (past p) = split_in_last-Cuts s mid _ v h (omega arith)

  -- Within its length a valid scattered slice is cut like the vector of its elements: `split_at`
  -- does not panic, both parts are valid, and they hold the first `mid` elements and the rest.
  pub split_at-Cuts :
      (s : Scattered A) (mid : ℕ) → IsValid s → mid ≤ s.len → Cuts s mid (split_at s mid)
  unfolding split_at
  split_at-Cuts s mid v h =
      rw (checked_sub_le s.len mid h) (elim (lt-or-le mid (length s.first_slice)) [
        | inl l ↦ rw (checked_sub_lt mid (length s.first_slice) l) (split_in_first-Cuts s mid v l)
        | inr l ↦ rw (checked_sub_le mid (length s.first_slice) l) (
            split_rest-Cuts s mid (mid - length s.first_slice) v h (omega arith)
              (find_mid-Cut 0 (mid - length s.first_slice) s.mid_slices))
      ])

  -- Past its length it panics.
  pub split_at_past : (s : Scattered A) (mid : ℕ) → s.len < mid → split_at s mid ≡ none
  unfolding split_at
  split_at_past s mid h = rw (checked_sub_lt s.len mid h)
