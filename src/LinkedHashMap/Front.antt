-- ===== src/LinkedHashMap/Front.antt =====
-- The front of a linked hash map, where the keystore and the reply manager evict.
use mixnet.Base.{refl, ◌-◌, ◌≡◌, none, some, List, [], ◌∷◌, length, arith}
use mixnet.LinkedHashMap.{LinkedHashMap}

-- All but the oldest.
abbrev pub without_oldest : {A : Type 0} → List A → List A
without_oldest [] = []
without_oldest (a ∷ xs) = xs

pub length-without_oldest : {A : Type 0} (xs : List A) → length (without_oldest xs) ≡ length xs - 1
length-without_oldest [] = refl
length-without_oldest (a ∷ xs) = omega arith

module _ {K V : Type 0} {dec : Discrete K} (hm : LinkedHashMap dec V) where
  -- `pop_front` with its answer dropped.
  unfoldable pub drop_front : hm.Map → hm.Map
  drop_front m = elim (hm.pop_front m) [ none ↦ m | some (oldest, rest) ↦ rest ]

  drop_front_cases :
      (m : hm.Map) (es : List (K × V))
      → hm.entries m ≡ es
      → hm.entries (drop_front m) ≡ without_oldest es
  unfolding drop_front
  drop_front_cases m [] h = rw (hm.pop_front_empty m h, drop_front) h
  drop_front_cases m (e ∷ es) h =
      let (m', p, q) = hm.pop_front_cons m e es h in rw (p, drop_front) q

  pub entries-drop_front : (m : hm.Map) → hm.entries (drop_front m) ≡ without_oldest (hm.entries m)
  entries-drop_front m = drop_front_cases m (hm.entries m) refl
