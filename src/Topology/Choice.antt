-- ===== src/Topology/Choice.antt =====
-- src/core/topology.rs: the mixnode that `choose_mixnode_index` chooses.
use mixnet.Base.{
  err, subst, sym, ◌%◌, ◌^◌, ℕ, ◌+◌, ◌-◌, ◌≤◌, ◌<◌, ◌≡◌, refl, false, List, [], ◌∷◌, some, ok,
  length, arith, inl, inr, lt-or-le, le→leb, lt→not-leb, ne→not-==, checked_sub_le,
}
use mixnet.Sphinx.{max_mixnode_index, try_from}
use mixnet.Rng.{Rng, elem}
use mixnet.Topology.UsedIndices.{AllAbove, IsSorted}
use mixnet.Topology.{too_few_mixnodes}
use mixnet.Topology.RouteGenerator.{RouteGenerator, skip_excluded, choose_mixnode_index}

AllAbove-elem : (c : ℕ) (xs : List ℕ) → AllAbove c xs → elem c xs ≡ false
AllAbove-elem c [] a = refl
AllAbove-elem c (x ∷ xs) a = rw (ne→not-== c x (omega (arith, a.0))) (AllAbove-elem c xs a.1)

pub AllAbove-weaken : (b c : ℕ) (xs : List ℕ) → b ≤ c → AllAbove c xs → AllAbove b xs
AllAbove-weaken b c [] h a = tt
AllAbove-weaken b c (x ∷ xs) h a = (omega (arith, a.0), AllAbove-weaken b c xs h a.1)

skip_excluded-above : (c : ℕ) (xs : List ℕ) → AllAbove c xs → skip_excluded c xs ≡ c
unfolding skip_excluded
skip_excluded-above c [] a = refl
skip_excluded-above c (x ∷ xs) a =
    rw (lt→not-leb x c (omega (arith, a.0))) (skip_excluded-above c xs a.1)

skip_excluded-empty : (c : ℕ) → skip_excluded c [] ≡ c
unfolding skip_excluded
skip_excluded-empty c = refl

skip_excluded-step :
    (c x : ℕ) (xs : List ℕ)
    → x ≤ c
    → c + 1 < 65536
    → skip_excluded c (x ∷ xs) ≡ skip_excluded (c + 1) xs
unfolding skip_excluded
skip_excluded-step c x xs l h =
    let wrap : (c + 1) % 2 ^ 16 ≡ c + 1 = omega arith in rw (le→leb x c l, wrap)

-- Not below `c`, above it by no more than there are excluded indices, and none of them.
abbrev Avoids : ℕ → List ℕ → ℕ → Type 0
Avoids c xs r = (c ≤ r) × (r ≤ c + length xs) × (elem r xs ≡ false)

Avoids-cons : (c x r : ℕ) (xs : List ℕ) → x ≤ c → Avoids (c + 1) xs r → Avoids c (x ∷ xs) r
Avoids-cons c x r xs l (p, q, e) = (omega arith, omega arith, rw (ne→not-== r x (omega arith)) e)

-- The loop moves a number up by at most one for each excluded index, and out of them.
skip_excluded-Avoids :
    (c : ℕ) (xs : List ℕ) → IsSorted xs → c + length xs < 65536 → Avoids c xs (skip_excluded c xs)
skip_excluded-Avoids c [] s h = rw (skip_excluded-empty c) (omega arith, omega arith, refl)
skip_excluded-Avoids c (x ∷ xs) s h = elim (lt-or-le c x) [
  | inl l ↦
      let above : AllAbove c (x ∷ xs) = (l, AllAbove-weaken c x xs (omega arith) s.0) in
      subst (Avoids c (x ∷ xs)) (sym (skip_excluded-above c (x ∷ xs) above))
        (omega arith, omega arith, AllAbove-elem c (x ∷ xs) above)
  | inr l ↦ subst (Avoids c (x ∷ xs)) (sym (skip_excluded-step c x xs l (omega arith))) (
      Avoids-cons c x (skip_excluded (c + 1) xs) xs l
        (skip_excluded-Avoids (c + 1) xs s.1 (omega arith)))
]

module _ (r : Rng) {X : Type 0} where
  -- With at most 65280 mixnodes and sorted excluded indices, fewer than there are mixnodes, nothing
  -- panics, and the chosen index is that of a mixnode which is not excluded.
  pub choose_mixnode_index_lem :
      (g : RouteGenerator X) (s : r.State) (excluded : List ℕ)
      → length g.topology.mixnodes ≤ max_mixnode_index + 1
      → IsSorted excluded
      → length excluded < length g.topology.mixnodes
      → (i : ℕ) × (s' : r.State) × (choose_mixnode_index r g s excluded ≡ some (ok i, s'))
        × (i < length g.topology.mixnodes)
        × (elem i excluded ≡ false)
  unfolding choose_mixnode_index try_from
  choose_mixnode_index_lem g s excluded few sorted room =
      let n = length g.topology.mixnodes in
      let k = length excluded in
      let lt = r.gen_range_lt s (n - k) (omega arith) in
      let drawn = (r.gen_range s (n - k)).0 in
      let (p, q, e) = skip_excluded-Avoids drawn excluded sorted (omega (arith, lt)) in
      let wrap : (n - k) % 2 ^ 16 ≡ n - k = omega arith in
      rw
        (
          checked_sub_le n k (omega arith),
          wrap,
          ne→not-== (n - k) 0 (omega arith),
          le→leb (skip_excluded drawn excluded) max_mixnode_index (omega (arith, lt)),
        )
        (skip_excluded drawn excluded, (r.gen_range s (n - k)).1, refl, omega (arith, lt), e)

  -- If every mixnode is excluded, the answer is an error.
  pub choose_mixnode_index_full :
      (g : RouteGenerator X) (s : r.State) (excluded : List ℕ)
      → length excluded ≡ length g.topology.mixnodes
      → choose_mixnode_index r g s excluded ≡ some (err too_few_mixnodes, s)
  unfolding choose_mixnode_index
  choose_mixnode_index_full g s excluded full =
      let n = length g.topology.mixnodes in
      let k = length excluded in
      let nothing : (n - k) % 2 ^ 16 ≡ 0 = omega arith in
      rw (checked_sub_le n k (omega arith), choose_mixnode_index, nothing, choose_mixnode_index)
        refl
