-- ===== src/Mixnet/Examples.antt =====
-- Runs of the code of src/core/mod.rs on sessions. Numbers stand for key pairs and sessions.
use mixnet.Base.{ℕ, ◌≡◌, ◌↔◌, refl, some, arith, inl, inr, true, ok, err}
use mixnet.Sessions.{
  SessionStatus, Sessions, cover_to_current, requests_to_current, cover_to_prev, full, need_prev,
}
use mixnet.Mixnet.{Mixnet, set_session_status, no_events, post_session, session_no_longer_active}
use mixnet.Mixnet.Status.{
  IsValid, slot_at, set_session_status-IsValid, current_slot-ahead, prev_slot-ahead,
}
use mixnet.Mixnet.Posting.{IsOpen, Holds, post_session-ok, post_session-closed}

abbrev two_sessions : Sessions ℕ ℕ
two_sessions = record { current_slot = full 20; prev_slot = full 10 }

abbrev running : Mixnet ℕ ℕ
running = record {
  session_status = record { current_index = 5; phase = requests_to_current };
  sessions = two_sessions;
  next_kx_pair = some 30;
  events = no_events;
}

abbrev next_status : SessionStatus
next_status = record { current_index = 6; phase = cover_to_current }

abbrev late_status : SessionStatus
late_status = record { current_index = 5; phase = cover_to_prev }

needed_now : need_prev requests_to_current ≡ true
unfolding need_prev
needed_now = refl

needed_next : need_prev next_status.phase ≡ true
unfolding need_prev
needed_next = refl

set_session_status-IsValid_example : IsValid (set_session_status running next_status)
set_session_status-IsValid_example =
    set_session_status-IsValid running next_status (inr (needed_now, omega arith))

current_slot-ahead_example :
    (set_session_status running next_status).sessions.current_slot ≡ slot_at running 6
current_slot-ahead_example = current_slot-ahead running next_status (omega arith)

prev_slot-ahead_example :
    (set_session_status running next_status).sessions.prev_slot ≡ slot_at running 5
prev_slot-ahead_example = prev_slot-ahead running next_status (omega arith) needed_next

post_session-ok_example :
    (post_session two_sessions running.session_status 4 ≡ ok 10)
    ↔ Holds two_sessions running.session_status 4 10
post_session-ok_example = post_session-ok two_sessions running.session_status 4 10

closed_late : ¬ IsOpen late_status 4
closed_late o = elim o [ inl (h, k) ↦ omega arith | inr (h, k) ↦ omega arith ]

post_session-closed_example :
    post_session two_sessions late_status 4 ≡ err (session_no_longer_active 4)
post_session-closed_example = post_session-closed two_sessions late_status 4 closed_late
