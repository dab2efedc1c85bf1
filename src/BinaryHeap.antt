-- ===== src/BinaryHeap.antt =====
-- The `BinaryHeap` of the standard library, which src/core/packet_queues.rs uses: the operations that
-- it calls, with their documented behaviour stated on the elements in some order. Which of several
-- greatest elements comes first is left open.
pub mod Listed
use mixnet.Base.{ℕ, ◌≡◌, Bool, true, Option, none, some, List, [], ◌∷◌, ◌⊎◌, length}

-- `ys` is `xs` with `a` at some place.
pub data Inserts {A : Type 0} (a : A) : List A → List A → Type 0 where
  here : {xs : List A} → Inserts a xs (a ∷ xs)
  there : {b : A} {xs ys : List A} → Inserts a xs ys → Inserts a (b ∷ xs) (b ∷ ys)

module _ {A : Type 0} (le : A → A → Bool) where
  abbrev pub AllBelow : List A → A → Type 0
  AllBelow [] a = Unit {0}
  AllBelow (b ∷ bs) a = (le b a ≡ true) × AllBelow bs a

pub record BinaryHeap {A : Type 0} (le : A → A → Bool) : Type 1 where
  pub Heap : Type 0
  pub elements : Heap → List A
  pub with_capacity : ℕ → Heap
  pub len : Heap → ℕ
  pub push : Heap → A → Heap
  pub peek : Heap → Option A
  pub pop : Heap → Option (A × Heap)
  pub elements-with_capacity : (n : ℕ) → elements (with_capacity n) ≡ []
  pub len_lem : (h : Heap) → len h ≡ length (elements h)
  pub elements-push : (h : Heap) (a : A) → Inserts a (elements h) (elements (push h a))
  pub peek_lem :
      (h : Heap)
      → (elements h ≡ []) × (peek h ≡ none)
        ⊎ ((a : A) × (rest : List A) × (peek h ≡ some a)
            × Inserts a rest (elements h)
            × AllBelow le (elements h) a)
  pub pop_lem :
      (h : Heap)
      → (elements h ≡ []) × (pop h ≡ none)
        ⊎ ((a : A) × (h' : Heap) × (pop h ≡ some (a, h'))
            × Inserts a (elements h') (elements h)
            × AllBelow le (elements h) a)
