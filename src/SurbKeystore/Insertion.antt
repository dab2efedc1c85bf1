-- ===== src/SurbKeystore/Insertion.antt =====
-- src/core/surb_keystore.rs: what `insert`, `entry` and `remove` do to the entries, oldest first.
use mixnet.Base.{
  Option-cases, ◌⊎◌, ◌∙◌, if◌then◌else◌, ◌==◌, ◌+◌, ◌≤◌, ◌<◌, ◌≡◌, ◌≢◌, refl, none, some, List, [],
  ◌∷◌, ◌++◌, lookup, length, arith, inl, inr, eq-or-ne, eq→==, ne→not-==, length-append, ap,
}
use mixnet.Fragment.{MessageId}
use mixnet.LinkedHashMap.Assoc.{lookup-remove_self, lookup-remove_ne, lookup-append_none}
use mixnet.LinkedHashMap.Front.{without_oldest, length-without_oldest, entries-drop_front}
use mixnet.LinkedHashMap.{LinkedHashMap}
use mixnet.SurbKeystore.{SurbId, Value, SurbKeystore, make_room, insert, entry, remove}

module _ {Keys : Type 0} {dec : Discrete SurbId} (hm : LinkedHashMap dec (Value Keys)) where
  -- The entries that stay when one more is to come.
  abbrev pub kept : SurbKeystore hm → List (SurbId × Value Keys)
  kept store =
      if length (hm.entries store.surbs) == store.capacity
      then without_oldest (hm.entries store.surbs)
      else hm.entries store.surbs

  make_room_lem : (store : SurbKeystore hm) → hm.entries (make_room hm store) ≡ kept store
  unfolding make_room
  make_room_lem store = elim (eq-or-ne (length (hm.entries store.surbs)) store.capacity) [
    | inl h ↦ rw (hm.len_lem store.surbs, eq→== _ _ h) (entries-drop_front hm store.surbs)
    | inr h ↦ rw (hm.len_lem store.surbs, ne→not-== _ _ h)
  ]

  abbrev pub IsValid : SurbKeystore hm → Type 0
  IsValid store = (0 < store.capacity) × (length (hm.entries store.surbs) ≤ store.capacity)

  kept-shorter :
      (store : SurbKeystore hm) → IsValid store → length (kept store) + 1 ≤ store.capacity
  kept-shorter store v = elim (eq-or-ne (length (hm.entries store.surbs)) store.capacity) [
    | inl h ↦
        rw (eq→== _ _ h) (omega (arith, length-without_oldest (hm.entries store.surbs), v.0, v.1))
    | inr h ↦ rw (ne→not-== _ _ h) (omega (arith, v.1))
  ]

  lookup-single : (k : SurbId) (v : Value Keys) → lookup dec k ((k, v) ∷ []) ≡ some v
  unfolding lookup
  lookup-single k v = ground arith

  insert_fresh :
      (store : SurbKeystore hm) (id : SurbId) (initial : Keys) (message_id : MessageId)
      → IsValid store
      → lookup dec id (kept store) ≡ none
      → (store' : SurbKeystore hm) × (insert hm store id initial message_id ≡ some store')
        × (hm.entries store'.surbs
            ≡ kept store ++ (id, record { keys = initial; message_id = message_id }) ∷ [])
        × IsValid store'
        × (entry hm store' id ≡ some (record { keys = initial; message_id = message_id }))
  unfolding insert entry
  insert_fresh store id initial message_id v fresh =
      let value : Value Keys = record { keys = initial; message_id = message_id } in
      let room = make_room_lem store in
      let back = hm.entries-insert (make_room hm store) id value (rw (room) fresh) in
      let whole : hm.entries (hm.insert (make_room hm store) id value)
          ≡ kept store ++ (id, value) ∷ [] =
        back ∙ ap (λ es. es ++ (id, value) ∷ []) room in
      rw (insert, hm.get_lem, room, fresh)
        (
          record store { surbs = hm.insert (make_room hm store) id value },
          refl,
          whole,
          (
            v.0,
            omega (
              arith,
              ap length whole,
              length-append (kept store) ((id, value) ∷ []),
              kept-shorter store v,
            ),
          ),
          rw
              (
                hm.get_lem (hm.insert (make_room hm store) id value),
                whole,
                lookup-append_none dec id (kept store) ((id, value) ∷ []) fresh,
              )
              (lookup-single id value),
        )

  -- An id that a kept entry has makes the insertion panic.
  pub insert_collision :
      (store : SurbKeystore hm) (id : SurbId) (initial : Keys) (message_id : MessageId)
      (value : Value Keys)
      → lookup dec id (kept store) ≡ some value
      → insert hm store id initial message_id ≡ none
  unfolding insert
  insert_collision store id initial message_id value h =
      rw (insert, hm.get_lem, make_room_lem store, h)

  -- Let a store be within its capacity, which is not 0. If the random id of a new SURB is that of an
  -- entry that stays after the oldest one went from a full store, the insertion panics. Otherwise it
  -- does not, the SURB goes to the back of the entries that stay, the store is still within its
  -- capacity, and the new entry is found under its id.
  pub insert-IsValid :
      (store : SurbKeystore hm) (id : SurbId) (initial : Keys) (message_id : MessageId)
      → IsValid store
      → ((value : Value Keys) × (lookup dec id (kept store) ≡ some value)
          × (insert hm store id initial message_id ≡ none))
        ⊎ ((lookup dec id (kept store) ≡ none)
            × (store' : SurbKeystore hm) × (insert hm store id initial message_id ≡ some store')
            × (hm.entries store'.surbs
                ≡ kept store ++ (id, record { keys = initial; message_id = message_id }) ∷ [])
            × IsValid store'
            × (entry hm store' id ≡ some (record { keys = initial; message_id = message_id })))
  insert-IsValid store id initial message_id v = elim (Option-cases (lookup dec id (kept store))) [
    | inl fresh ↦
        let (store', e, whole, v', found) = insert_fresh store id initial message_id v fresh in
        inr (fresh, store', e, whole, v', found)
    | inr (value, taken) ↦
        inl (value, taken, insert_collision store id initial message_id value taken)
  ]

  -- A removed entry is not found again.
  pub entry-remove :
      (store : SurbKeystore hm) (id : SurbId) → entry hm (remove hm store id) id ≡ none
  unfolding entry remove
  entry-remove store id =
      rw (hm.get_lem, hm.entries-remove_entry store.surbs id)
        (lookup-remove_self dec id (hm.entries store.surbs) (hm.distinct store.surbs))

  -- And the others are not touched.
  pub entry-remove_other :
      (store : SurbKeystore hm) (id other : SurbId)
      → other ≢ id
      → entry hm (remove hm store id) other ≡ entry hm store other
  unfolding entry remove
  entry-remove_other store id other h =
      rw
        (
          hm.get_lem (hm.remove_entry store.surbs id),
          hm.get_lem store.surbs,
          hm.entries-remove_entry store.surbs id,
        )
        (lookup-remove_ne dec id other (hm.entries store.surbs) h)
