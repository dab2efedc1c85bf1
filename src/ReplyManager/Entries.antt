-- ===== src/ReplyManager/Entries.antt =====
-- src/reply_manager.rs: the entries that each step leaves, oldest first.
use mixnet.Base.{
  ltb, ℕ, ◌+◌, ◌≤◌, ◌<◌, ◌≡◌, ◌∙◌, refl, ap, List, [], ◌∷◌, ◌++◌, none, some, lookup, length, arith,
  inl, inr, lt-or-le, lt→ltb, le→not-ltb, if◌then◌else◌,
}
use mixnet.Fragment.{MessageId}
use mixnet.LinkedHashMap.Front.{without_oldest, length-without_oldest, entries-drop_front}
use mixnet.LinkedHashMap.Assoc.{replace}
use mixnet.LinkedHashMap.{LinkedHashMap}
use mixnet.ReplyManager.{ReplyState, pending, ReplyManager, maybe_evict, set_state, add_pending}

module _ {dec : Discrete MessageId} (hm : LinkedHashMap dec ReplyState) where
  abbrev pub entries_of : ReplyManager hm → List (MessageId × ReplyState)
  entries_of m = hm.entries m.states

  -- The manager remembers no more requests than its capacity.
  abbrev pub IsValid : ReplyManager hm → Type 0
  IsValid m = length (entries_of m) ≤ m.config.capacity

  pub config-maybe_evict : (m : ReplyManager hm) → (maybe_evict hm m).config ≡ m.config
  unfolding maybe_evict
  config-maybe_evict m = elim (lt-or-le m.config.capacity (hm.len m.states)) [
    | inl l ↦ rw (lt→ltb _ _ l, maybe_evict) refl
    | inr l ↦ rw (le→not-ltb _ _ l, maybe_evict) refl
  ]

  -- The oldest entry goes if there are more than the capacity.
  abbrev pub trim : ℕ → List (MessageId × ReplyState) → List (MessageId × ReplyState)
  trim capacity es = if ltb capacity (length es) then without_oldest es else es

  pub entries-maybe_evict :
      (m : ReplyManager hm) → entries_of (maybe_evict hm m) ≡ trim m.config.capacity (entries_of m)
  unfolding maybe_evict
  entries-maybe_evict m = elim (lt-or-le m.config.capacity (hm.len m.states)) [
    | inl l ↦ rw (← hm.len_lem m.states, lt→ltb _ _ l, maybe_evict) (entries-drop_front hm m.states)
    | inr l ↦ rw (← hm.len_lem m.states, le→not-ltb _ _ l, maybe_evict) refl
  ]

  pub trim_fits :
      (capacity : ℕ) (es : List (MessageId × ReplyState))
      → length es ≤ capacity
      → trim capacity es ≡ es
  trim_fits capacity es h = rw (le→not-ltb _ _ h) refl

  length-trim :
      (capacity : ℕ) (es : List (MessageId × ReplyState))
      → length es ≤ capacity + 1
      → length (trim capacity es) ≤ capacity
  length-trim capacity es h = elim (lt-or-le capacity (length es)) [
    | inl l ↦ rw (lt→ltb _ _ l) (omega (arith, length-without_oldest es))
    | inr l ↦ rw (le→not-ltb _ _ l) l
  ]

  pub maybe_evict-IsValid :
      (m : ReplyManager hm)
      → length (entries_of m) ≤ m.config.capacity + 1
      → IsValid (maybe_evict hm m)
  maybe_evict-IsValid m h =
      rw (entries-maybe_evict m, config-maybe_evict m)
        (length-trim m.config.capacity (entries_of m) h)

  lookup_back :
      (es : List (MessageId × ReplyState)) (id : MessageId) (state : ReplyState)
      → lookup dec id es ≡ none
      → lookup dec id (es ++ (id, state) ∷ []) ≡ some state
  unfolding lookup
  lookup_back [] id state e = ground arith
  lookup_back ((i, s) ∷ es) id state e = ground (arith, lookup_back es id state)

  -- The entry at the back stays.
  pub lookup-trim_back :
      (capacity : ℕ) (es : List (MessageId × ReplyState)) (id : MessageId) (state : ReplyState)
      → 0 < capacity
      → lookup dec id es ≡ none
      → lookup dec id (trim capacity (es ++ (id, state) ∷ [])) ≡ some state
  unfolding lookup
  lookup-trim_back capacity [] id state h e =
      rw (trim_fits capacity ((id, state) ∷ []) h) (ground arith)
  lookup-trim_back capacity ((i, s) ∷ es) id state h e =
      elim (lt-or-le capacity (length ((i, s) ∷ es ++ (id, state) ∷ []))) [
        | inl l ↦ rw (lt→ltb _ _ l) (lookup_back es id state (ground arith))
        | inr l ↦ rw (le→not-ltb _ _ l) (lookup_back ((i, s) ∷ es) id state e)
      ]

  -- The entries before an eviction.
  pub entries-add_pending :
      (m : ReplyManager hm) (id : MessageId)
      → lookup dec id (entries_of m) ≡ none
      → entries_of (add_pending hm m id) ≡ entries_of m ++ (id, pending) ∷ []
  unfolding add_pending
  entries-add_pending m id h = hm.entries-insert m.states id pending h

  pub entries-set_state :
      (m : ReplyManager hm) (id : MessageId) (state : ReplyState)
      → entries_of (set_state hm m id state) ≡ replace dec id state (entries_of m)
  unfolding set_state
  entries-set_state m id state = hm.entries-set_value m.states id state

  replace_back :
      (es : List (MessageId × ReplyState)) (id : MessageId) (s t : ReplyState)
      → lookup dec id es ≡ none
      → replace dec id t (es ++ (id, s) ∷ []) ≡ es ++ (id, t) ∷ []
  unfolding lookup replace
  replace_back [] id s t e = ground arith
  replace_back ((i, u) ∷ es) id s t e = ground (arith, replace_back es id s t)

  -- A request that is not pending is added at the back with its state.
  pub entries-set_added :
      (m : ReplyManager hm) (id : MessageId) (state : ReplyState)
      → lookup dec id (entries_of m) ≡ none
      → entries_of (set_state hm (add_pending hm m id) id state) ≡ entries_of m ++ (id, state) ∷ []
  entries-set_added m id state h =
      entries-set_state (add_pending hm m id) id state
      ∙ ap (replace dec id state) (entries-add_pending m id h)
      ∙ replace_back (entries_of m) id pending state h
