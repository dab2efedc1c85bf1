-- ===== src/Base/Chunks.antt =====
-- `slice::rchunks_exact` and `rchunks_exact_mut`: chunks of one size, from the end of a slice.
use Prim.Native.Nat.{◌+◌, ◌<◌, ◌≤◌, ◌*◌, ℕ, zero, suc, ◌-◌, ◌/◌}
use mathlib.Core.Path.{refl, sym, ap, ◌∙◌, ◌≡◌}
use native.Mathlib.Omega.{arith}
use mathlib.Core.List.{List, [], ◌∷◌, ◌++◌}
use mixnet.Base.Lists.{
  drop-append_self, take-append_le, take-append_self, length, take, drop, length-append,
  length-take, take-append-drop,
}

module _ {ℓ} {A : Type ℓ} where
  unfoldable pub rchunks : ℕ → ℕ → List A → List (List A)
  rchunks zero size xs = []
  rchunks (suc n) size xs = drop (length xs - size) xs ∷ rchunks n size (take (length xs - size) xs)

  unfoldable pub rchunks_exact : ℕ → List A → List (List A)
  unfolding rchunks
  rchunks_exact size xs = rchunks (length xs / size) size xs

  -- The slice after the given chunks were written through `rchunks_exact_mut`, the last first.
  unfoldable pub write_rchunks : ℕ → List (List A) → List A → List A
  write_rchunks size [] xs = xs
  write_rchunks size (chunk ∷ chunks) xs =
      write_rchunks size chunks (take (length xs - size) xs) ++ chunk

  abbrev pub AllLength : ℕ → List (List A) → Type 0
  AllLength size [] = Unit {0}
  AllLength size (chunk ∷ chunks) = (length chunk ≡ size) × AllLength size chunks

  -- Chunks that are written and read back, with room for more of them before.
  pub length-write_rchunks :
      (size : ℕ) (chunks : List (List A)) (xs : List A)
      → AllLength size chunks
      → length chunks * size ≤ length xs
      → length (write_rchunks size chunks xs) ≡ length xs
  unfolding write_rchunks
  length-write_rchunks size [] xs a h = refl
  length-write_rchunks size (chunk ∷ chunks) xs a h = omega (
    arith,
    length-append (write_rchunks size chunks (take (length xs - size) xs)) chunk,
    length-write_rchunks size chunks (take (length xs - size) xs) a.1
        (omega (arith, length-take (length xs - size) xs)),
    length-take (length xs - size) xs,
  )

  -- Reading `n` chunks where the last ones were written gives those that were written.
  rchunks-write_rchunks :
      (n size : ℕ) (chunks : List (List A)) (xs : List A)
      → AllLength size chunks
      → length chunks ≤ n
      → n * size ≤ length xs
      → take (length chunks) (rchunks n size (write_rchunks size chunks xs)) ≡ chunks
  unfolding write_rchunks rchunks take
  rchunks-write_rchunks n size [] xs a h k = refl
  rchunks-write_rchunks zero size (chunk ∷ chunks) xs a h k = absurd (omega arith)
  rchunks-write_rchunks (suc n) size (chunk ∷ chunks) xs a h k =
      let ys = take (length xs - size) xs in
      let ws = write_rchunks size chunks ys in
      let short : length ys ≡ length xs - size = omega (arith, length-take (length xs - size) xs) in
      let cut : length (ws ++ chunk) - size ≡ length ws = omega (arith, length-append ws chunk) in
      rw
        (
          cut,
          take-append_self (length ws) ws chunk refl,
          drop-append_self (length ws) ws chunk refl,
        )
        (ap (◌∷◌ chunk) (rchunks-write_rchunks n size chunks ys a.1 (omega arith) (omega arith)))

  pub rchunks_exact-write_rchunks :
      (size : ℕ) (chunks : List (List A)) (xs : List A)
      → AllLength size chunks
      → 0 < size
      → length chunks * size ≤ length xs
      → take (length chunks) (rchunks_exact size (write_rchunks size chunks xs)) ≡ chunks
  unfolding rchunks_exact
  rchunks_exact-write_rchunks size chunks xs a pos h =
      rw (length-write_rchunks size chunks xs a h)
        (rchunks-write_rchunks (length xs / size) size chunks xs a (grind arith) (grind arith))

  -- What stands before the written chunks stays.
  pub take-write_rchunks :
      (size : ℕ) (chunks : List (List A)) (xs : List A) (n : ℕ)
      → AllLength size chunks
      → n + length chunks * size ≤ length xs
      → take n (write_rchunks size chunks xs) ≡ take n xs
  unfolding write_rchunks
  take-write_rchunks size [] xs n a h = refl
  take-write_rchunks size (chunk ∷ chunks) xs n a h =
      let ys = take (length xs - size) xs in
      let short : length ys ≡ length xs - size = omega (arith, length-take (length xs - size) xs) in
      rw
        (take-append_le n (write_rchunks size chunks ys) chunk
          (omega (arith, length-write_rchunks size chunks ys a.1 (omega arith))))
        (take-write_rchunks size chunks ys n a.1 (omega arith)
          ∙ sym (take-append_le n ys (drop (length xs - size) xs) (omega arith))
          ∙ ap (take n) (take-append-drop (length xs - size) xs))
