-- ===== src/LinkedHashMap/Assoc.antt =====
-- Association lists, the view of a linked hash map.
use mixnet.Base.{ℕ, ◌+◌, ◌≡◌, ◌≢◌, refl, none, some, List, [], ◌∷◌, ◌++◌, lookup, length, arith}
use mathlib.Core.Logic.{ite, if_pos, if_neg}
use mathlib.Core.Path.{subst₂, sym}

module _ {K V : Type 0} (dec : Discrete K) where
  unfoldable pub remove : K → List (K × V) → List (K × V)
  remove k [] = []
  remove k ((j, v) ∷ es) = ite (dec k j) es ((j, v) ∷ remove k es)

  unfoldable pub replace : K → V → List (K × V) → List (K × V)
  replace k v [] = []
  replace k v ((j, w) ∷ es) = ite (dec k j) ((j, v) ∷ es) ((j, w) ∷ replace k v es)

  -- No key stands twice.
  abbrev pub Distinct : List (K × V) → Type 0
  Distinct [] = Unit {0}
  Distinct ((k, v) ∷ es) = (lookup dec k es ≡ none) × Distinct es

  pub lookup-remove_ne :
      (k j : K) (es : List (K × V)) → j ≢ k → lookup dec j (remove k es) ≡ lookup dec j es
  unfolding lookup remove
  lookup-remove_ne k j [] h = refl
  lookup-remove_ne k j ((i, v) ∷ es) h = ground (arith, lookup-remove_ne k j es)

  pub lookup-remove-none :
      (k j : K) (es : List (K × V)) → lookup dec j es ≡ none → lookup dec j (remove k es) ≡ none
  unfolding lookup remove
  lookup-remove-none k j [] h = refl
  lookup-remove-none k j ((i, v) ∷ es) h = ground (arith, lookup-remove-none k j es)

  pub lookup-remove_self :
      (k : K) (es : List (K × V)) → Distinct es → lookup dec k (remove k es) ≡ none
  unfolding lookup remove
  lookup-remove_self k [] d = refl
  lookup-remove_self k ((i, v) ∷ es) d = ground (arith, lookup-remove_self k es d.1)

  pub remove-Distinct : (k : K) (es : List (K × V)) → Distinct es → Distinct (remove k es)
  unfolding remove
  remove-Distinct k [] d = tt
  remove-Distinct k ((i, v) ∷ es) d =
      ground (arith, remove-Distinct k es d.1, lookup-remove-none k i es)

  pub lookup-replace :
      (k j : K) (v : V) (es : List (K × V))
      → lookup dec j (replace k v es)
        ≡ ite (dec j k) (elim (lookup dec k es) [ none ↦ none | some _ ↦ some v ]) (lookup dec j es)
  unfolding lookup replace
  lookup-replace k j v [] = ground arith
  lookup-replace k j v ((i, w) ∷ es) = ground (arith, lookup-replace k j v es)

  pub replace-Distinct :
      (k : K) (v : V) (es : List (K × V)) → Distinct es → Distinct (replace k v es)
  unfolding replace
  replace-Distinct k v [] d = tt
  replace-Distinct k v ((i, w) ∷ es) d =
      ground (arith, replace-Distinct k v es d.1, lookup-replace k i v es)

  pub lookup-append_none :
      (j : K) (es fs : List (K × V))
      → lookup dec j es ≡ none
      → lookup dec j (es ++ fs) ≡ lookup dec j fs
  unfolding lookup
  lookup-append_none j [] fs h = refl
  lookup-append_none j ((i, v) ∷ es) fs h = ground (arith, lookup-append_none j es fs)

  pub lookup-append_some :
      (j : K) (es fs : List (K × V)) (v : V)
      → lookup dec j es ≡ some v
      → lookup dec j (es ++ fs) ≡ some v
  unfolding lookup
  lookup-append_some j [] fs v h = ground arith
  lookup-append_some j ((i, w) ∷ es) fs v h = ground (arith, lookup-append_some j es fs v)

  -- A new key goes to the end.
  pub append-Distinct :
      (k : K) (v : V) (es : List (K × V))
      → Distinct es
      → lookup dec k es ≡ none
      → Distinct (es ++ ((k, v) ∷ []))
  unfolding lookup
  append-Distinct k v [] d h = (refl, tt)
  append-Distinct k v ((i, w) ∷ es) d h =
      ground (arith, append-Distinct k v es d.1, lookup-append_none i es ((k, v) ∷ []))

  pub length-remove :
      (k : K) (v : V) (es : List (K × V))
      → lookup dec k es ≡ some v
      → length (remove k es) + 1 ≡ length es
  unfolding lookup remove
  length-remove k v [] h = ground arith
  length-remove k v ((i, w) ∷ es) h = ground (arith, length-remove k v es)

  pub length-replace : (k : K) (v : V) (es : List (K × V)) → length (replace k v es) ≡ length es
  unfolding replace
  length-replace k v [] = refl
  length-replace k v ((i, w) ∷ es) = ground (arith, length-replace k v es)

  pub lookup-replace_self :
      (k : K) (v w : V) (es : List (K × V))
      → lookup dec k es ≡ some v
      → lookup dec k (replace k w es) ≡ some w
  unfolding lookup replace
  lookup-replace_self k v w [] h = ground arith
  lookup-replace_self k v w ((i, u) ∷ es) h = ground (arith, lookup-replace_self k v w es)

  -- What a replaced entry was does not matter once it is removed.
  pub remove-replace : (k : K) (v : V) (es : List (K × V)) → remove k (replace k v es) ≡ remove k es
  unfolding remove replace
  remove-replace k v [] = refl
  remove-replace k v ((i, w) ∷ es) = ground (arith, remove-replace k v es)

module _ {K V : Type 0} where
  -- A property of every entry.
  abbrev pub All : (K → V → Type 0) → List (K × V) → Type 0
  All P [] = Unit {0}
  All P ((k, v) ∷ es) = P k v × All P es

  abbrev pub sum_values : (V → ℕ) → List (K × V) → ℕ
  sum_values f [] = 0
  sum_values f ((k, v) ∷ es) = f v + sum_values f es

module _ {K V : Type 0} (P : K → V → Type 0) where
  pub All-append : (es fs : List (K × V)) → All P es → All P fs → All P (es ++ fs)
  All-append [] fs a b = b
  All-append ((k, v) ∷ es) fs a b = (a.0, All-append es fs a.1 b)

module _ {K V : Type 0} (dec : Discrete K) (P : K → V → Type 0) where
  pub All-lookup : (k : K) (v : V) (es : List (K × V)) → lookup dec k es ≡ some v → All P es → P k v
  unfolding lookup
  All-lookup k v [] h a = absurd (ground arith)
  All-lookup k v ((j, w) ∷ es) h a = elim (dec k j) [
    | yes e ↦ let q : w ≡ v = ground arith in subst₂ P (sym e) q a.0
    | no n ↦ All-lookup k v es (ground arith) a.1
  ]

  pub All-remove : (k : K) (es : List (K × V)) → All P es → All P (remove dec k es)
  unfolding remove
  All-remove k [] a = tt
  All-remove k ((j, w) ∷ es) a = elim (dec k j) [
    | yes e ↦ rw (if_pos _ e) a.1
    | no n ↦ rw (if_neg _ n) (a.0, All-remove k es a.1)
  ]

module _ {K V : Type 0} (f : V → ℕ) where
  pub sum_values-append :
      (es fs : List (K × V)) → sum_values f (es ++ fs) ≡ sum_values f es + sum_values f fs
  sum_values-append [] fs = omega arith
  sum_values-append ((k, v) ∷ es) fs = omega (arith, sum_values-append es fs)

module _ {K V : Type 0} (dec : Discrete K) (f : V → ℕ) where
  pub sum_values-remove :
      (k : K) (v : V) (es : List (K × V))
      → lookup dec k es ≡ some v
      → f v + sum_values f (remove dec k es) ≡ sum_values f es
  unfolding lookup remove
  sum_values-remove k v [] h = absurd (ground arith)
  sum_values-remove k v ((j, w) ∷ es) h = ground (arith, sum_values-remove k v es)
