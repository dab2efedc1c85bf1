-- ===== src/Mixnet/Status.antt =====
-- src/core/mod.rs: `set_session_status` keeps every session at its index.
use mixnet.Base.{
  eq→==, eq-or-ne, ne→not-==, Bool-cases, ℕ, ◌+◌, ◌-◌, ◌<◌, ◌≡◌, refl, Bool, true, false, Option,
  ◌==◌, if◌then◌else◌, arith, ◌⊎◌, inl, inr,
}
use mathlib.Core.Bool.{false≢true, not, ◌&&◌, ◌||◌}
use mixnet.Sessions.{
  SessionStatus, SessionSlot, empty, kx_pair, disabled, full, Sessions, need_prev, is_empty,
  slot_is_empty,
}
use mixnet.Mixnet.{
  note_status, reset, Mixnet, new, shift, change_index, drop_prev, set_session_status, slot_of,
  same_status,
}

module _ {K S : Type 0} where
  -- The slot of an absolute session index: the current one, the one before, and the one after,
  -- which can have a key pair only. Of any other session nothing is known.
  abbrev pub slot_at : Mixnet K S → ℕ → SessionSlot K S
  slot_at m i =
      let c = m.session_status.current_index in
      if i == c
      then m.sessions.current_slot
      else (if i + 1 == c
          then m.sessions.prev_slot
          else (if i == c + 1 then slot_of m.next_kx_pair else empty))

  -- The previous slot is disabled, or the phase needs the previous session and it has an index.
  abbrev pub IsValid : Mixnet K S → Type 0
  IsValid m =
      (m.sessions.prev_slot ≡ disabled)
      ⊎ (need_prev m.session_status.phase ≡ true) × (0 < m.session_status.current_index)

  -- In particular there is no session with index -1.
  pub new-IsValid : (pair : Option K) → IsValid (new pair)
  unfolding new
  new-IsValid pair = inl refl

  slot_is_empty_lem : (s : SessionSlot K S) → slot_is_empty s ≡ true → s ≡ empty
  unfolding slot_is_empty
  slot_is_empty_lem empty h = refl
  slot_is_empty_lem (kx_pair pair) h = absurd (false≢true h)
  slot_is_empty_lem disabled h = absurd (false≢true h)
  slot_is_empty_lem (full session) h = absurd (false≢true h)

  reset_lem :
      (sessions : Sessions K S) (next_session : SessionSlot K S)
      → ((reset sessions next_session).current_slot ≡ empty)
        × ((reset sessions next_session).prev_slot ≡ empty)
  unfolding reset is_empty
  reset_lem sessions next_session =
      go (slot_is_empty sessions.current_slot) (slot_is_empty sessions.prev_slot)
        (slot_is_empty_lem sessions.current_slot) (slot_is_empty_lem sessions.prev_slot)
        (slot_is_empty next_session)
    where
      go :
          (a b : Bool)
          → (a ≡ true → sessions.current_slot ≡ empty)
          → (b ≡ true → sessions.prev_slot ≡ empty)
          → (c : Bool)
          → let s : Sessions K S =
              (if not (a && b) || not c
                then record { current_slot = empty; prev_slot = empty }
                else sessions) in
            (s.current_slot ≡ empty) × (s.prev_slot ≡ empty)
      go true true f g true = (f refl, g refl)
      go true true f g false = (refl, refl)
      go true false f g c = (refl, refl)
      go false b f g c = (refl, refl)

  -- A status that differs is noted, after the sessions were moved.
  status_changed :
      (m : Mixnet K S) (status : SessionStatus)
      → same_status m.session_status status ≡ false
      → set_session_status m status
        ≡ note_status (drop_prev (change_index m status.current_index) status) status
  unfolding set_session_status
  status_changed m status h = rw (h)

  drop_prev_dropped :
      (m : Mixnet K S) (status : SessionStatus)
      → need_prev status.phase ≡ false ⊎ status.current_index ≡ 0
      → (drop_prev m status).sessions.prev_slot ≡ disabled
  unfolding drop_prev
  drop_prev_dropped m status (inl h) = rw (h)
  drop_prev_dropped m status (inr h) = elim (Bool-cases (need_prev status.phase)) [
    | inl k ↦ rw (k, h)
    | inr k ↦ rw (k)
  ]

  drop_prev_kept :
      (m : Mixnet K S) (status : SessionStatus)
      → need_prev status.phase ≡ true
      → 0 < status.current_index
      → drop_prev m status ≡ m
  unfolding drop_prev
  drop_prev_kept m status h k = rw (h, ne→not-== status.current_index 0 (omega arith))

  -- The slots once the index has grown: those of the state before, by their absolute indices.
  change_index-ahead :
      (m : Mixnet K S) (c : ℕ)
      → m.session_status.current_index < c
      → ((change_index m c).sessions.current_slot ≡ slot_at m c)
        × ((change_index m c).sessions.prev_slot ≡ slot_at m (c - 1))
  unfolding change_index shift
  change_index-ahead m c h =
      let i = m.session_status.current_index in
      elim (eq-or-ne c (i + 1)) [
        | inl h1 ↦
            rw
              (
                ne→not-== i c (omega arith),
                eq→== (c - i) 1 (omega arith),
                ne→not-== c i (omega arith),
                ne→not-== (c + 1) i (omega arith),
                eq→== c (i + 1) h1,
                eq→== (c - 1) i (omega arith),
              )
              (refl, refl)
        | inr h1 ↦ elim (eq-or-ne c (i + 2)) [
          | inl h2 ↦
              rw
                (
                  ne→not-== i c (omega arith),
                  ne→not-== (c - i) 1 (omega arith),
                  eq→== (c - i) 2 (omega arith),
                  ne→not-== c i (omega arith),
                  ne→not-== (c + 1) i (omega arith),
                  ne→not-== c (i + 1) h1,
                  ne→not-== (c - 1) i (omega arith),
                  ne→not-== (c - 1 + 1) i (omega arith),
                  eq→== (c - 1) (i + 1) (omega arith),
                )
                (refl, refl)
          | inr h2 ↦
              rw
                (
                  ne→not-== i c (omega arith),
                  ne→not-== (c - i) 1 (omega arith),
                  ne→not-== (c - i) 2 (omega arith),
                  ne→not-== c i (omega arith),
                  ne→not-== (c + 1) i (omega arith),
                  ne→not-== c (i + 1) h1,
                  ne→not-== (c - 1) i (omega arith),
                  ne→not-== (c - 1 + 1) i (omega arith),
                  ne→not-== (c - 1) (i + 1) (omega arith),
                )
                (reset_lem m.sessions (slot_of m.next_kx_pair))
        ]
      ]

  drop_prev_current :
      (m : Mixnet K S) (status : SessionStatus)
      → (drop_prev m status).sessions.current_slot ≡ m.sessions.current_slot
  unfolding drop_prev
  drop_prev_current m status =
      elim (Bool-cases (not (need_prev status.phase) || (status.current_index == 0))) [
        | inl h ↦ rw (h)
        | inr h ↦ rw (h)
      ]

  -- A status with another index differs.
  ahead-differs :
      (m : Mixnet K S) (status : SessionStatus)
      → m.session_status.current_index < status.current_index
      → same_status m.session_status status ≡ false
  unfolding same_status
  ahead-differs m status h =
      rw (ne→not-== m.session_status.current_index status.current_index (omega arith))

  -- When the current index grows, the current slot is that of the session with the new index: the
  -- key pair of the next session where the index grows by 1, and the empty slot otherwise.
  pub current_slot-ahead :
      (m : Mixnet K S) (status : SessionStatus)
      → m.session_status.current_index < status.current_index
      → (set_session_status m status).sessions.current_slot ≡ slot_at m status.current_index
  unfolding note_status
  current_slot-ahead m status h =
      rw
        (
          status_changed m status (ahead-differs m status h),
          drop_prev_current (change_index m status.current_index) status,
        )
        ((change_index-ahead m status.current_index h).0)

  -- When the current index grows to a phase that needs the previous session, the previous slot is
  -- the one which the state before had for that session.
  pub prev_slot-ahead :
      (m : Mixnet K S) (status : SessionStatus)
      → m.session_status.current_index < status.current_index
      → need_prev status.phase ≡ true
      → (set_session_status m status).sessions.prev_slot ≡ slot_at m (status.current_index - 1)
  unfolding note_status
  prev_slot-ahead m status h need =
      rw
        (
          status_changed m status (ahead-differs m status h),
          drop_prev_kept (change_index m status.current_index) status need (omega arith),
        )
        ((change_index-ahead m status.current_index h).1)

  -- Every status change keeps that the previous slot is disabled unless the phase needs a previous
  -- session and the current index is positive.
  pub set_session_status-IsValid :
      (m : Mixnet K S) (status : SessionStatus) → IsValid m → IsValid (set_session_status m status)
  unfolding set_session_status note_status
  set_session_status-IsValid m status v = elim (Bool-cases (same_status m.session_status status)) [
    | inl same ↦ rw (set_session_status, same) v
    | inr differs ↦ rw (status_changed m status differs) (
        let m' = change_index m status.current_index in
        elim (Bool-cases (need_prev status.phase)) [
          | inr dropped ↦ inl (drop_prev_dropped m' status (inl dropped))
          | inl needed ↦ elim (eq-or-ne status.current_index 0) [
            | inl first ↦ inl (drop_prev_dropped m' status (inr first))
            | inr later ↦ inr (needed, omega arith)
          ]
        ])
  ]
