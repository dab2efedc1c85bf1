-- ===== src/Fragment/Assembler.antt =====
-- src/core/fragment.rs: `FragmentAssembler`, over the linked hash map of hashlink. `none` is a panic.
-- The log output is not modelled. A subtraction that would wrap counts as a panic.
pub mod Eviction
pub mod Slots
pub mod Occupied
pub mod Invariant
use mixnet.Base.{
  ℕ, zero, suc, ◌+◌, ◌-◌, ◌≡◌, Bool, true, false, ◌||◌, Bytes, List, [], ◌∷◌, Option, none, some,
  ◌>>=◌, ◌==◌, ltb, checked_sub, min, ◌^◌, if◌then◌else◌, Result, ok, err,
}
use mixnet.Fragment.{Fragment, MessageId, check_fragment, num_fragments, message_id}
use mixnet.Fragment.Message.{
  GenericMessage, IncompleteMessage, IncompleteMessageInsertErr, from_fragments, new_incomplete,
  insert_incomplete, complete_fragments,
}
use mixnet.LinkedHashMap.{LinkedHashMap}

-- `usize::MAX`.
abbrev pub usize_max : ℕ
usize_max = 2 ^ 64 - 1

module _ {dec : Discrete MessageId} (hm : LinkedHashMap dec IncompleteMessage) where
  pub record FragmentAssembler : Type 0 where
    pub incomplete_messages : hm.Map
    pub num_incomplete_fragments : ℕ
    pub max_incomplete_messages : ℕ
    pub max_incomplete_fragments : ℕ
    pub max_fragments_per_message : ℕ

  pub new : ℕ → ℕ → ℕ → FragmentAssembler
  new max_messages max_fragments max_per_message = record {
    incomplete_messages = hm.with_capacity (min (max_messages + 1) usize_max);
    num_incomplete_fragments = 0;
    max_incomplete_messages = max_messages;
    max_incomplete_fragments = max_fragments;
    max_fragments_per_message = max_per_message;
  }

  pub need_eviction : FragmentAssembler → Bool
  need_eviction fa =
      ltb fa.max_incomplete_messages (hm.len fa.incomplete_messages)
      || ltb fa.max_incomplete_fragments fa.num_incomplete_fragments

  pub maybe_evict : FragmentAssembler → Option FragmentAssembler
  maybe_evict fa =
      if need_eviction fa
      then (do
        ((_, incomplete_message), rest) ← hm.pop_front fa.incomplete_messages
        left ← checked_sub fa.num_incomplete_fragments incomplete_message.num_received_fragments
        some (record fa { incomplete_messages = rest; num_incomplete_fragments = left }))
      else some fa

  -- A message that has all its fragments leaves the map, with what it counted for.
  pub finish_message :
      FragmentAssembler
      → hm.Map
      → MessageId
      → IncompleteMessage
      → Option (List Fragment)
      → Option (FragmentAssembler × Option GenericMessage)
  finish_message fa map id im expected = do
    fragments ← expected
    message ← from_fragments fragments
    left ← checked_sub (fa.num_incomplete_fragments + 1) im.num_received_fragments
    some (
      record fa { incomplete_messages = hm.remove_entry map id; num_incomplete_fragments = left },
      some message,
    )

  -- Any other becomes the most recently used one.
  pub keep_message :
      FragmentAssembler → hm.Map → MessageId → Option (FragmentAssembler × Option GenericMessage)
  keep_message fa map id = do
    fa' ← maybe_evict (record fa {
      incomplete_messages = hm.to_back map id;
      num_incomplete_fragments = fa.num_incomplete_fragments + 1;
    })
    some (fa', none)

  pub after_insert :
      FragmentAssembler
      → MessageId
      → Result IncompleteMessage IncompleteMessageInsertErr
      → Option (FragmentAssembler × Option GenericMessage)
  unfolding finish_message keep_message
  after_insert fa id (err e) = some (fa, none)
  after_insert fa id (ok im) =
      let map = hm.set_value fa.incomplete_messages id im in
      elim (complete_fragments im) [
        | some expected ↦ finish_message fa map id im expected
        | none ↦ keep_message fa map id
      ]

  -- The branch of `insert` for an id with a message that is not complete yet.
  pub insert_occupied :
      FragmentAssembler
      → MessageId
      → IncompleteMessage
      → Fragment
      → Option (FragmentAssembler × Option GenericMessage)
  unfolding after_insert
  insert_occupied fa id incomplete_message fragment = do
    res ← insert_incomplete incomplete_message fragment
    after_insert fa id res

  -- The branch for a new id. The first fragment must go in.
  pub insert_vacant :
      FragmentAssembler → MessageId → Fragment → Option (FragmentAssembler × Option GenericMessage)
  insert_vacant fa id fragment = do
    res ← insert_incomplete (new_incomplete (num_fragments fragment)) fragment
    elim res [
      | err e ↦ none
      | ok im ↦ do
        fa' ← maybe_evict (record fa {
          incomplete_messages = hm.insert fa.incomplete_messages id im;
          num_incomplete_fragments = fa.num_incomplete_fragments + 1;
        })
        some (fa', none)
    ]

  insert_checked : FragmentAssembler → Fragment → Option (FragmentAssembler × Option GenericMessage)
  unfolding insert_occupied insert_vacant
  insert_checked fa fragment =
      if ltb fa.max_fragments_per_message (num_fragments fragment)
      then some (fa, none)
      else (if num_fragments fragment == 1
          then (do message ← from_fragments (fragment ∷ []); some (fa, some message))
          else (let id = message_id fragment in
              elim (hm.get fa.incomplete_messages id) [
                | some im ↦ insert_occupied fa id im fragment
                | none ↦ insert_vacant fa id fragment
              ]))

  -- A completed message is returned with the new state.
  pub insert : FragmentAssembler → Fragment → Option (FragmentAssembler × Option GenericMessage)
  unfolding insert_checked
  insert fa fragment = elim (check_fragment fragment) [
    | err e ↦ some (fa, none)
    | ok _ ↦ insert_checked fa fragment
  ]
