-- ===== src/SurbKeystore/Examples.antt =====
-- Runs of the code of src/core/surb_keystore.rs. Numbers stand for keys.
use mixnet.Base.{◌⊎◌, List, ℕ, ◌≡◌, ◌++◌, refl, some, none, [], ◌∷◌, lookup, arith, ℕ_discrete}
use mixnet.LinkedHashMap.Assoc.{Distinct}
use mixnet.LinkedHashMap.{LinkedHashMap}
use mixnet.LinkedHashMap.Instance.{assoc_map}
use mixnet.SurbKeystore.{SurbId, Value, SurbKeystore, insert, entry, remove}
use mixnet.SurbKeystore.Insertion.{IsValid, kept, insert-IsValid, insert_collision, entry-remove}

abbrev ids : Discrete SurbId
ids = hlevel ℕ_discrete

abbrev surb_map : LinkedHashMap ids (Value ℕ)
surb_map = assoc_map ids (Value ℕ)

-- The SURB 1 is older than the SURB 2.
abbrev two_surbs : List (SurbId × Value ℕ)
two_surbs =
    (1 ∷ [], record { keys = 10; message_id = 7 ∷ [] })
    ∷ (2 ∷ [], record { keys = 20; message_id = 7 ∷ [] })
    ∷ []

two_surbs-Distinct : Distinct ids two_surbs
unfolding lookup ℕ_discrete
two_surbs-Distinct = (refl, (refl, tt))

abbrev full_store : SurbKeystore surb_map
full_store = record { capacity = 2; surbs = (two_surbs, two_surbs-Distinct) }

still_kept :
    lookup ids (2 ∷ []) (kept surb_map full_store)
    ≡ some (record { keys = 20; message_id = 7 ∷ [] })
unfolding lookup ℕ_discrete
still_kept = refl

insert-IsValid_example :
    ((value : Value ℕ) × (lookup ids (3 ∷ []) (kept surb_map full_store) ≡ some value)
      × (insert surb_map full_store (3 ∷ []) 30 (8 ∷ []) ≡ none))
    ⊎ ((lookup ids (3 ∷ []) (kept surb_map full_store) ≡ none)
        × (store' : SurbKeystore surb_map) × (insert surb_map full_store (3 ∷ []) 30 (8 ∷ [])
            ≡ some store')
        × (surb_map.entries store'.surbs
            ≡ kept surb_map full_store ++ (3 ∷ [], record { keys = 30; message_id = 8 ∷ [] }) ∷ [])
        × IsValid surb_map store'
        × (entry surb_map store' (3 ∷ []) ≡ some (record { keys = 30; message_id = 8 ∷ [] })))
insert-IsValid_example =
    insert-IsValid surb_map full_store (3 ∷ []) 30 (8 ∷ []) (omega arith, omega arith)

-- The id 2 is that of an entry that stays.
collision : insert surb_map full_store (2 ∷ []) 30 (8 ∷ []) ≡ none
collision = insert_collision surb_map full_store (2 ∷ []) 30 (8 ∷ []) _ still_kept

entry-remove_example : entry surb_map (remove surb_map full_store (1 ∷ [])) (1 ∷ []) ≡ none
entry-remove_example = entry-remove surb_map full_store (1 ∷ [])
