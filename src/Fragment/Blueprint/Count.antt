-- ===== src/Fragment/Blueprint/Count.antt =====
-- src/core/fragment.rs: the number of fragments of a message.
use mixnet.Base.{ℕ, ◌+◌, ◌-◌, ◌*◌, ◌≤◌, ◌<◌, ◌≡◌, some, arith, min, max, checked_sub_le}
use mixnet.Sphinx.{surb_size}
use mixnet.Fragment.{fragment_payload_size, max_surbs_per_fragment}
use mixnet.Fragment.Assembler.{usize_max}
use mixnet.Fragment.Blueprint.{count, div_ceil, fragment_index_max}

div_ceil_surbs :
    (x : ℕ)
    → (x ≤ div_ceil x max_surbs_per_fragment * 9) × (div_ceil x max_surbs_per_fragment * 9 < x + 9)
unfolding div_ceil
div_ceil_surbs x = ground arith

div_ceil_payload :
    (x : ℕ)
    → (x ≤ div_ceil x fragment_payload_size * 2025)
      × (div_ceil x fragment_payload_size * 2025 < x + 2025)
unfolding div_ceil
div_ceil_payload x = ground arith

-- Room for `s` SURBs and `d` bytes of data in `n` fragments.
abbrev pub Room : ℕ → ℕ → ℕ → Type 0
Room n d s = (s ≤ n * max_surbs_per_fragment) × (d + s * surb_size ≤ n * fragment_payload_size)

-- The count is positive and does not panic. Up to the largest number of fragments that can be
-- numbered, it is the least one with room for everything; above, there is no such number.
pub count_least :
    (d s : ℕ)
    → d ≤ usize_max
    → s ≤ usize_max
    → (n : ℕ) × (count d s ≡ some n)
      × (0 < n)
      × (n ≤ fragment_index_max + 1 → Room n d s)
      × ((m : ℕ) → 0 < m → m ≤ fragment_index_max + 1 → Room m d s → n ≤ m)
unfolding count
count_least d s hd hs =
    let f = div_ceil s max_surbs_per_fragment in
    let unused = min (f * fragment_payload_size) usize_max - min (s * surb_size) usize_max in
    let r = div_ceil (d - unused) fragment_payload_size in
    let (f₁, f₂) = div_ceil_surbs s in
    let (r₁, r₂) = div_ceil_payload (d - unused) in
    (
      max (min (f + r) usize_max) 1,
      rw (
          checked_sub_le (min (f * fragment_payload_size) usize_max) (min (s * surb_size) usize_max)
            (omega arith)),
      omega arith,
      (λ h. (omega arith, omega arith)),
      (λ m pos h room. omega arith),
    )
