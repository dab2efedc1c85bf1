-- ===== src/Mixnet.antt =====
-- src/core/mod.rs: the part of the state that says which sessions there are, and the operations
-- on it. The log output is not modelled.
pub mod Status
pub mod Posting
mod Examples
use mixnet.Base.{
  ℕ, zero, suc, ◌+◌, ◌-◌, ◌≡◌, ◌≢◌, refl, Bool, true, false, ◌&&◌, ◌||◌, not, Option, none, some,
  ltb, ◌==◌, Result, ok, err, if◌then◌else◌, ◌>>=◌, List, take, length,
}
use mixnet.Topology.{TopologyErr}
use mixnet.Sessions.{
  RelSessionIndex, current, prev, SessionPhase, cover_to_current, requests_to_current,
  cover_to_prev, disconnect_from_prev, SessionStatus, SessionSlot, empty, kx_pair, disabled, full,
  Sessions, rank, need_prev, allow_requests_and_replies, from_session_index, add_index, index,
  set_index, is_empty, slot_is_empty,
}

-- The four flags of `Events`.
pub record Events : Type 0 where
  pub reserved_peers_changed : Bool
  pub next_forward_packet_deadline_changed : Bool
  pub next_authored_packet_deadline_changed : Bool
  pub space_in_authored_packet_queue : Bool

abbrev pub no_events : Events
no_events = record {
  reserved_peers_changed = false;
  next_forward_packet_deadline_changed = false;
  next_authored_packet_deadline_changed = false;
  space_in_authored_packet_queue = false;
}

-- Equality of statuses, as derived.
unfoldable pub same_status : SessionStatus → SessionStatus → Bool
same_status a b = (a.current_index == b.current_index) && (rank a.phase == rank b.phase)

pub record Mixnet (K S : Type 0) : Type 0 where
  pub session_status : SessionStatus
  pub sessions : Sessions K S
  pub next_kx_pair : Option K
  pub events : Events

abbrev pub slot_of : {K S : Type 0} → Option K → SessionSlot K S
slot_of none = empty
slot_of (some pair) = kx_pair pair

-- `Mixnet::new`, with the key pair of `session_0_kx_secret` if there is one.
unfoldable pub new : {K S : Type 0} → Option K → Mixnet K S
new session_0_kx_pair = record {
  session_status = record { current_index = 0; phase = cover_to_current };
  sessions = record { current_slot = slot_of session_0_kx_pair; prev_slot = disabled };
  next_kx_pair = none;
  events = no_events;
}

module _ {K S : Type 0} where
  -- `sessions` after a change of the index that leaves neither session.
  unfoldable pub reset : Sessions K S → SessionSlot K S → Sessions K S
  reset sessions next_session =
      if not (is_empty sessions) || not (slot_is_empty next_session)
      then record { current_slot = empty; prev_slot = empty }
      else sessions

  -- The sessions after the current index grew by `difference`, or fell (difference 0).
  unfoldable pub shift : Sessions K S → SessionSlot K S → ℕ → Sessions K S
  shift sessions next_session difference =
      if difference == 1
      then record { current_slot = next_session; prev_slot = sessions.current_slot }
      else (if difference == 2
          then record { current_slot = empty; prev_slot = next_session }
          else reset sessions next_session)

  -- A changed index takes the key pair of the next session.
  unfoldable pub change_index : Mixnet K S → ℕ → Mixnet K S
  unfolding shift
  change_index m new_index = if m.session_status.current_index == new_index then m else record m {
    sessions =
        shift m.sessions (slot_of m.next_kx_pair) (new_index - m.session_status.current_index);
    next_kx_pair = none;
  }

  -- The previous session is dropped if it is not needed or would have no index.
  unfoldable pub drop_prev : Mixnet K S → SessionStatus → Mixnet K S
  drop_prev m status =
      if not (need_prev status.phase) || (status.current_index == 0)
      then record m { sessions = record (m.sessions) { prev_slot = disabled } }
      else m

  -- The last part of `set_session_status`.
  unfoldable pub note_status : Mixnet K S → SessionStatus → Mixnet K S
  note_status m status = record m {
    session_status = status;
    events = record (m.events) {
      reserved_peers_changed = true;
      next_authored_packet_deadline_changed = true;
    };
  }

  unfoldable pub set_session_status : Mixnet K S → SessionStatus → Mixnet K S
  unfolding change_index drop_prev note_status
  set_session_status m status =
      if same_status m.session_status status
      then m
      else note_status (drop_prev (change_index m status.current_index) status) status

  -- `next_kx_public`, which generates the key pair of the next session on the first call.
  unfoldable pub next_kx_pair_or : Mixnet K S → K → K × Mixnet K S
  next_kx_pair_or m generated = elim (m.next_kx_pair) [
    | some pair ↦ (pair, m)
    | none ↦ (generated, record m { next_kx_pair = some generated })
  ]

  unfoldable pub take_events : Mixnet K S → Events × Mixnet K S
  take_events m = (m.events, record m { events = no_events })

pub data PostErr : Type 0 where
  too_many_fragments : PostErr
  session_no_longer_active session_not_active_yet session_mixnodes_not_known : ℕ → PostErr
  session_disabled : ℕ → PostErr
  not_enough_space_in_queue : PostErr
  topology : TopologyErr → PostErr
  bad_surb : PostErr

inactive : RelSessionIndex → ℕ → PostErr
inactive prev i = session_no_longer_active i
inactive current i = session_not_active_yet i

module _ {K S : Type 0} where
  slot_to_post : SessionSlot K S → ℕ → Result S PostErr
  slot_to_post empty i = err (session_mixnodes_not_known i)
  slot_to_post (kx_pair pair) i = err (session_mixnodes_not_known i)
  slot_to_post disabled i = err (session_disabled i)
  slot_to_post (full session) i = ok session

  unfoldable pub post_session : Sessions K S → SessionStatus → ℕ → Result S PostErr
  unfolding slot_to_post inactive
  post_session sessions status i = elim (from_session_index i status.current_index) [
    | none ↦ err (
        if ltb i status.current_index then session_no_longer_active i else session_not_active_yet i)
    | some rel_index ↦
        if allow_requests_and_replies status.phase rel_index
        then slot_to_post (index sessions rel_index) i
        else err (inactive rel_index i)
  ]
