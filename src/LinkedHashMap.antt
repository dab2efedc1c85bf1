-- ===== src/LinkedHashMap.antt =====
-- The `LinkedHashMap` of the package hashlink, which src/core/fragment.rs, src/core/surb_keystore.rs
-- and src/reply_manager.rs use: the operations that they call, with their documented behaviour
-- stated on the list of entries, the front of the map first.
pub mod Assoc
pub mod Instance
pub mod Front
use mixnet.Base.{ℕ, ◌≡◌, Option, none, some, List, [], ◌∷◌, ◌++◌, lookup, length}
use Assoc.{remove, replace, Distinct}

pub record LinkedHashMap {K : Type 0} (dec : Discrete K) (V : Type 0) : Type 1 where
  pub Map : Type 0
  pub entries : Map → List (K × V)
  -- `with_capacity`
  pub with_capacity : ℕ → Map
  pub len : Map → ℕ
  -- `entry`: the value of an occupied entry, `none` for a vacant one
  pub get : Map → K → Option V
  -- `VacantEntry::insert`
  pub insert : Map → K → V → Map
  -- a write through `OccupiedEntry::get_mut` or `into_mut`
  pub set_value : Map → K → V → Map
  -- `OccupiedEntry::remove`
  pub remove_entry : Map → K → Map
  -- `OccupiedEntry::to_back`
  pub to_back : Map → K → Map
  pub pop_front : Map → Option ((K × V) × Map)
  pub distinct : (m : Map) → Distinct dec (entries m)
  pub entries-with_capacity : (n : ℕ) → entries (with_capacity n) ≡ []
  pub len_lem : (m : Map) → len m ≡ length (entries m)
  pub get_lem : (m : Map) (k : K) → get m k ≡ lookup dec k (entries m)
  pub entries-insert :
      (m : Map) (k : K) (v : V)
      → lookup dec k (entries m) ≡ none
      → entries (insert m k v) ≡ entries m ++ ((k, v) ∷ [])
  pub entries-set_value :
      (m : Map) (k : K) (v : V) → entries (set_value m k v) ≡ replace dec k v (entries m)
  pub entries-remove_entry :
      (m : Map) (k : K) → entries (remove_entry m k) ≡ remove dec k (entries m)
  pub entries-to_back :
      (m : Map) (k : K) (v : V)
      → lookup dec k (entries m) ≡ some v
      → entries (to_back m k) ≡ remove dec k (entries m) ++ ((k, v) ∷ [])
  pub pop_front_empty : (m : Map) → entries m ≡ [] → pop_front m ≡ none
  pub pop_front_cons :
      (m : Map) (e : K × V) (es : List (K × V))
      → entries m ≡ e ∷ es
      → (m' : Map) × (pop_front m ≡ some (e, m')) × (entries m' ≡ es)
