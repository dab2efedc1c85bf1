-- ===== src/BinaryHeap/Listed.antt =====
-- Lists searched for their greatest element meet the interface of `BinaryHeap`, so what is proved
-- over it can be run on examples.
use mixnet.Base.{
  ◌≡◌, refl, Bool, true, false, Option, none, some, List, [], ◌∷◌, ◌⊎◌, inl, inr, length,
  Bool-cases,
}
use mixnet.BinaryHeap.{BinaryHeap, Inserts, here, there, AllBelow}

module _ {A : Type 0} (le : A → A → Bool) (le_refl : (a : A) → le a a ≡ true)
    (le_trans : (a b c : A) → le a b ≡ true → le b c ≡ true → le a c ≡ true)
    (le_total : (a b : A) → le a b ≡ false → le b a ≡ true) where
  -- The greatest of an element and a list, and the others.
  abbrev pub greatest : A → List A → A × List A
  greatest a [] = (a, [])
  greatest a (b ∷ bs) =
      let r = greatest b bs in elim (le r.0 a) [ true ↦ (a, b ∷ bs) | false ↦ (r.0, a ∷ r.1) ]

  AllBelow-mono : (xs : List A) (a b : A) → AllBelow le xs a → le a b ≡ true → AllBelow le xs b
  AllBelow-mono [] a b h k = tt
  AllBelow-mono (x ∷ xs) a b h k = (le_trans x a b h.0 k, AllBelow-mono xs a b h.1 k)

  pub greatest_lem :
      (a : A) (xs : List A)
      → Inserts (greatest a xs).0 (greatest a xs).1 (a ∷ xs)
        × AllBelow le (a ∷ xs) (greatest a xs).0
  greatest_lem a [] = (here, (le_refl a, tt))
  greatest_lem a (b ∷ bs) =
      let (i, below) = greatest_lem b bs in
      elim (Bool-cases (le (greatest b bs).0 a)) [
        | inl h ↦ rw (h, greatest) (here, (le_refl a, AllBelow-mono (b ∷ bs) _ a below h))
        | inr h ↦ rw (h, greatest) (there i, (le_total _ a h, below))
      ]

  abbrev peek : List A → Option A
  peek [] = none
  peek (a ∷ xs) = some (greatest a xs).0

  abbrev pop : List A → Option (A × List A)
  pop [] = none
  pop (a ∷ xs) = some (greatest a xs)

  pub peek_lem :
      (h : List A)
      → (h ≡ []) × (peek h ≡ none)
        ⊎ ((a : A) × (rest : List A) × (peek h ≡ some a) × Inserts a rest h × AllBelow le h a)
  peek_lem [] = inl (refl, refl)
  peek_lem (a ∷ xs) =
      let (i, below) = greatest_lem a xs in
      inr ((greatest a xs).0, (greatest a xs).1, refl, i, below)

  pub pop_lem :
      (h : List A)
      → (h ≡ []) × (pop h ≡ none)
        ⊎ ((a : A) × (h' : List A) × (pop h ≡ some (a, h')) × Inserts a h' h × AllBelow le h a)
  pop_lem [] = inl (refl, refl)
  pop_lem (a ∷ xs) =
      let (i, below) = greatest_lem a xs in
      inr ((greatest a xs).0, (greatest a xs).1, refl, i, below)

  abbrev pub listed_heap : BinaryHeap le
  listed_heap = record {
    Heap = List A;
    elements = λ h. h;
    with_capacity = λ n. [];
    len = length;
    push = λ h a. a ∷ h;
    peek = peek;
    pop = pop;
    elements-with_capacity = λ n. refl;
    len_lem = λ h. refl;
    elements-push = λ h a. here;
    peek_lem = peek_lem;
    pop_lem = pop_lem;
  }
