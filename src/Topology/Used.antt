-- ===== src/Topology/Used.antt =====
-- src/core/topology.rs: `UsedIndices` stays in order, so it can be given to `choose_mixnode_index`.
use mixnet.Base.{
  ap, ◌∙◌, ℕ, ◌+◌, ◌≤◌, ◌<◌, ◌≡◌, refl, Bool, true, false, ◌||◌, List, [], ◌∷◌, some, length, arith,
  inl, inr, lt-or-le, eq-or-ne, ◌==◌, le→leb, lt→not-leb, eq→==, ne→not-==,
}
use mixnet.Sphinx.{max_hops}
use mixnet.Rng.{elem}
use mixnet.Topology.UsedIndices.{insert_sorted, insert, AllAbove, IsSorted}
use mixnet.Topology.Choice.{AllAbove-weaken}

-- The three ways that an insertion can go on.
insert_sorted-before : (x i : ℕ) (xs : List ℕ) → i < x → insert_sorted (x ∷ xs) i ≡ i ∷ x ∷ xs
unfolding insert_sorted
insert_sorted-before x i xs h = rw (le→leb i x (omega arith), ne→not-== x i (omega arith))

insert_sorted-same : (x i : ℕ) (xs : List ℕ) → x ≡ i → insert_sorted (x ∷ xs) i ≡ x ∷ xs
unfolding insert_sorted
insert_sorted-same x i xs h = rw (le→leb i x (omega arith), eq→== x i h)

insert_sorted-after :
    (x i : ℕ) (xs : List ℕ) → x < i → insert_sorted (x ∷ xs) i ≡ x ∷ insert_sorted xs i
unfolding insert_sorted
insert_sorted-after x i xs h = rw (lt→not-leb i x h)

insert_sorted-AllAbove :
    (b i : ℕ) (xs : List ℕ) → b < i → AllAbove b xs → AllAbove b (insert_sorted xs i)
unfolding insert_sorted
insert_sorted-AllAbove b i [] h a = (h, tt)
insert_sorted-AllAbove b i (x ∷ xs) h a = elim (lt-or-le x i) [
  | inl l ↦ rw (insert_sorted-after x i xs l) (a.0, insert_sorted-AllAbove b i xs h a.1)
  | inr l ↦ elim (eq-or-ne x i) [
    | inl e ↦ rw (insert_sorted-same x i xs e) a
    | inr n ↦ rw (insert_sorted-before x i xs (omega arith)) (h, a)
  ]
]

pub insert_sorted-IsSorted : (i : ℕ) (xs : List ℕ) → IsSorted xs → IsSorted (insert_sorted xs i)
unfolding insert_sorted
insert_sorted-IsSorted i [] s = (tt, tt)
insert_sorted-IsSorted i (x ∷ xs) s = elim (lt-or-le x i) [
  | inl l ↦
      rw (insert_sorted-after x i xs l)
        (insert_sorted-AllAbove x i xs l s.0, insert_sorted-IsSorted i xs s.1)
  | inr l ↦ elim (eq-or-ne x i) [
    | inl e ↦ rw (insert_sorted-same x i xs e) s
    | inr n ↦
        let below : i < x = omega arith in
        rw (insert_sorted-before x i xs below)
          ((below, AllAbove-weaken i x xs (omega arith) s.0), s)
  ]
]

or_swap : (a b c : Bool) → (a || (b || c)) ≡ (b || (a || c))
or_swap true true c = refl
or_swap true false c = refl
or_swap false b c = refl

or_twice : (a c : Bool) → (a || c) ≡ (a || (a || c))
or_twice true c = refl
or_twice false c = refl

insert_sorted-elem :
    (i : ℕ) (xs : List ℕ) (j : ℕ) → elem j (insert_sorted xs i) ≡ ((j == i) || elem j xs)
unfolding insert_sorted
insert_sorted-elem i [] j = refl
insert_sorted-elem i (x ∷ xs) j = elim (lt-or-le x i) [
  | inl l ↦
      ap (elem j) (insert_sorted-after x i xs l)
      ∙ ap (λ b. (j == x) || b) (insert_sorted-elem i xs j)
      ∙ or_swap (j == x) (j == i) (elem j xs)
  | inr l ↦ elim (eq-or-ne x i) [
    | inl e ↦
        ap (elem j) (insert_sorted-same x i xs e)
        ∙ or_twice (j == x) (elem j xs)
        ∙ ap (λ k. (j == k) || elem j (x ∷ xs)) e
    | inr n ↦ ap (elem j) (insert_sorted-before x i xs (omega arith))
  ]
]

pub length-insert_sorted : (i : ℕ) (xs : List ℕ) → length (insert_sorted xs i) ≤ length xs + 1
unfolding insert_sorted
length-insert_sorted i [] = omega arith
length-insert_sorted i (x ∷ xs) = elim (lt-or-le x i) [
  | inl l ↦ rw (insert_sorted-after x i xs l) (omega (arith, length-insert_sorted i xs))
  | inr l ↦ elim (eq-or-ne x i) [
    | inl e ↦ rw (insert_sorted-same x i xs e) (omega arith)
    | inr n ↦ rw (insert_sorted-before x i xs (omega arith)) (omega arith)
  ]
]

-- An index goes into the used ones without a panic while there are fewer than seven: the result is
-- in order, and holds exactly what it held before and the index.
pub insert-IsSorted :
    (indices : List ℕ) (index j : ℕ)
    → IsSorted indices
    → length indices ≤ max_hops
    → (used : List ℕ) × (insert indices index ≡ some used)
      × IsSorted used
      × (elem j used ≡ ((j == index) || elem j indices))
unfolding insert
insert-IsSorted indices index j s few = (
  insert_sorted indices index,
  rw (
      le→leb (length (insert_sorted indices index)) (max_hops + 1)
        (omega (arith, length-insert_sorted index indices))),
  insert_sorted-IsSorted index indices s,
  insert_sorted-elem index indices j,
)
