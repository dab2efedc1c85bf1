-- ===== src/Sessions.antt =====
-- src/core/sessions.rs: session indices, phases and slots. `none` is a panic where it is not the
-- source's own `None`. The key pairs and the session data are type parameters: nothing here looks
-- into them.
use mixnet.Base.{
  ℕ, zero, suc, Bool, true, false, ◌&&◌, List, [], ◌∷◌, ◌++◌, Option, none, some, ltb, leb,
  checked_sub,
}

pub data RelSessionIndex : Type 0 where
  current prev : RelSessionIndex

unfoldable pub rel_of_difference : Option ℕ → Option RelSessionIndex
rel_of_difference (some zero) = some current
rel_of_difference (some (suc zero)) = some prev
rel_of_difference _ = none

-- `RelSessionIndex::from_session_index`.
unfoldable pub from_session_index : ℕ → ℕ → Option RelSessionIndex
unfolding rel_of_difference
from_session_index session_index current_session_index =
    rel_of_difference (checked_sub current_session_index session_index)

-- `RelSessionIndex + SessionIndex`; "Session index underflow" is a panic.
unfoldable pub add_index : RelSessionIndex → ℕ → Option ℕ
add_index current other = some other
add_index prev other = checked_sub other 1

pub data SessionPhase : Type 0 where
  cover_to_current requests_to_current cover_to_prev disconnect_from_prev : SessionPhase

-- The derived order is that of the declaration.
abbrev pub rank : SessionPhase → ℕ
rank cover_to_current = 0
rank requests_to_current = 1
rank cover_to_prev = 2
rank disconnect_from_prev = 3

unfoldable pub need_prev : SessionPhase → Bool
need_prev phase = ltb (rank phase) (rank disconnect_from_prev)

unfoldable pub allow_requests_and_replies : SessionPhase → RelSessionIndex → Bool
allow_requests_and_replies phase prev = ltb (rank phase) (rank cover_to_prev)
allow_requests_and_replies phase current = leb (rank requests_to_current) (rank phase)

unfoldable pub default_request_session : SessionPhase → RelSessionIndex
default_request_session phase = elim (leb (rank requests_to_current) (rank phase)) [
  | true ↦ current
  | false ↦ prev
]

pub record SessionStatus : Type 0 where
  pub current_index : ℕ
  pub phase : SessionPhase

pub data SessionSlot (K S : Type 0) : Type 0 where
  empty : SessionSlot K S
  kx_pair : K → SessionSlot K S
  disabled : SessionSlot K S
  full : S → SessionSlot K S

pub record Sessions (K S : Type 0) : Type 0 where
  pub current_slot : SessionSlot K S
  pub prev_slot : SessionSlot K S

tagged : {S : Type 0} → RelSessionIndex → Option S → List (RelSessionIndex × S)
tagged i none = []
tagged i (some session) = (i, session) ∷ []

module _ {K S : Type 0} where
  unfoldable pub slot_is_empty : SessionSlot K S → Bool
  slot_is_empty empty = true
  slot_is_empty _ = false

  unfoldable pub as_option : SessionSlot K S → Option S
  as_option (full session) = some session
  as_option _ = none

  unfoldable pub is_empty : Sessions K S → Bool
  unfolding slot_is_empty
  is_empty sessions = slot_is_empty sessions.current_slot && slot_is_empty sessions.prev_slot

  -- `sessions[rel_index]`.
  unfoldable pub index : Sessions K S → RelSessionIndex → SessionSlot K S
  index sessions current = sessions.current_slot
  index sessions prev = sessions.prev_slot

  -- `sessions[rel_index] = slot`.
  unfoldable pub set_index : Sessions K S → RelSessionIndex → SessionSlot K S → Sessions K S
  set_index sessions current slot = record sessions { current_slot = slot }
  set_index sessions prev slot = record sessions { prev_slot = slot }

  -- The sessions of `enumerate_mut`, the current one first.
  unfoldable pub enumerate : Sessions K S → List (RelSessionIndex × S)
  unfolding tagged as_option
  enumerate sessions =
      tagged current (as_option sessions.current_slot) ++ tagged prev (as_option sessions.prev_slot)
