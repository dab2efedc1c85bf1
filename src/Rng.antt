-- ===== src/Rng.antt =====
-- The random generators of the package rand: the operations that src/core/topology.rs calls, with what
-- their documentation says of the results.
use mixnet.Base.{
  ℕ, ◌-◌, ◌<◌, ◌≡◌, refl, Bool, true, false, Option, none, some, List, [], ◌∷◌, min, ◌==◌, ◌||◌,
  arith,
}

abbrev pub elem : ℕ → List ℕ → Bool
elem a [] = false
elem a (b ∷ bs) = (a == b) || elem a bs

pub record Rng : Type 1 where
  pub State : Type 0
  -- `gen_range(0..n)`
  pub gen_range : State → ℕ → ℕ × State
  -- `SliceRandom::choose`
  pub choose : State → List ℕ → Option ℕ × State
  pub gen_range_lt : (s : State) (n : ℕ) → 0 < n → (gen_range s n).0 < n
  pub choose_empty : (s : State) → (choose s []).0 ≡ none
  pub choose_elem :
      (s : State) (x : ℕ) (xs : List ℕ)
      → (a : ℕ) × ((choose s (x ∷ xs)).0 ≡ some a) × (elem a (x ∷ xs) ≡ true)

abbrev pub first_choice : ℕ → List ℕ → Option ℕ × ℕ
first_choice s [] = (none, s)
first_choice s (x ∷ xs) = (some x, s)

pub first_elem : (x : ℕ) (xs : List ℕ) → elem x (x ∷ xs) ≡ true
first_elem x xs = ground arith

-- A generator that never changes: a number, bounded by the range.
abbrev pub constant_rng : Rng
constant_rng = record {
  State = ℕ;
  gen_range = λ s n. (min s (n - 1), s);
  choose = first_choice;
  gen_range_lt = λ s n h. omega arith;
  choose_empty = λ s. refl;
  choose_elem = λ s x xs. (x, refl, first_elem x xs);
}
