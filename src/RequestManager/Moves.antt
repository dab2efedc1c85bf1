-- ===== src/RequestManager/Moves.antt =====
-- src/request_manager/mod.rs: how `update_session_status` moves the requests between the queues.
use mixnet.Base.{
  ℕ, ◌-◌, ◌≡◌, refl, ap, sym, ◌∙◌, List, [], ◌++◌, length-append, append_assoc, append-nil, arith,
  inl, inr, Bool-cases, ◌==◌,
}
use mixnet.Sessions.{current, prev, SessionPhase, SessionStatus, allow_requests_and_replies}
use mixnet.RequestManager.PostQueues.{PostQueues, total}
use mixnet.RequestManager.Updating.{
  append_prev, append_current, swap_queues, shift_queues, drop_current, drop_prev, move_queues,
}

module _ {T : Type 0} where
  -- The default queue has grown at its back, and no request was lost.
  abbrev pub IsMoved : List T → ℕ → PostQueues T → Type 0
  IsMoved kept n queues =
      ((extra : List T) × (queues.default_queue ≡ kept ++ extra)) × (total queues ≡ n)

  append-IsMoved :
      (kept xs : List T) (n : ℕ) (queues : PostQueues T) (ys : List T)
      → IsMoved kept n queues
      → queues.default_queue ++ ys ≡ xs
      → (extra : List T) × (xs ≡ kept ++ extra)
  append-IsMoved kept xs n queues ys ((extra, e), c) h =
      (extra ++ ys, sym h ∙ ap (λ zs. zs ++ ys) e ∙ append_assoc kept extra ys)

  append_prev-IsMoved :
      (kept : List T) (n : ℕ) (queues : PostQueues T)
      → IsMoved kept n queues
      → IsMoved kept n (append_prev queues)
  unfolding append_prev total
  append_prev-IsMoved kept n queues m = (
    append-IsMoved kept _ n queues queues.prev_queue m refl,
    omega (arith, length-append queues.default_queue queues.prev_queue, m.1),
  )

  append_current-IsMoved :
      (kept : List T) (n : ℕ) (queues : PostQueues T)
      → IsMoved kept n queues
      → IsMoved kept n (append_current queues)
  unfolding append_current total
  append_current-IsMoved kept n queues m = (
    append-IsMoved kept _ n queues queues.current_queue m refl,
    omega (arith, length-append queues.default_queue queues.current_queue, m.1),
  )

  swap_queues-IsMoved :
      (kept : List T) (n : ℕ) (queues : PostQueues T)
      → IsMoved kept n queues
      → IsMoved kept n (swap_queues queues)
  unfolding swap_queues total
  swap_queues-IsMoved kept n queues m = (m.0, omega (arith, m.1))

  shift_queues-IsMoved :
      (kept : List T) (n old new : ℕ) (queues : PostQueues T)
      → IsMoved kept n queues
      → IsMoved kept n (shift_queues old new queues)
  unfolding shift_queues
  shift_queues-IsMoved kept n old new queues m =
      let cleared = append_prev-IsMoved kept n queues m in
      elim (Bool-cases (old == new)) [
        | inl same ↦ rw (same, shift_queues) m
        | inr other ↦ elim (Bool-cases (new - old == 1)) [
          | inl next ↦
              rw (other, shift_queues, next, shift_queues) (swap_queues-IsMoved kept n _ cleared)
          | inr jump ↦
              rw (other, shift_queues, jump, shift_queues) (append_current-IsMoved kept n _ cleared)
        ]
      ]

  drop_current-IsMoved :
      (kept : List T) (n : ℕ) (phase : SessionPhase) (queues : PostQueues T)
      → IsMoved kept n queues
      → IsMoved kept n (drop_current phase queues)
  unfolding drop_current
  drop_current-IsMoved kept n phase queues m =
      elim (Bool-cases (allow_requests_and_replies phase current)) [
        | inl allowed ↦ rw (allowed, drop_current) m
        | inr refused ↦ rw (refused, drop_current) (append_current-IsMoved kept n queues m)
      ]

  drop_prev-IsMoved :
      (kept : List T) (n : ℕ) (phase : SessionPhase) (queues : PostQueues T)
      → IsMoved kept n queues
      → IsMoved kept n (drop_prev phase queues)
  unfolding drop_prev
  drop_prev-IsMoved kept n phase queues m =
      elim (Bool-cases (allow_requests_and_replies phase prev)) [
        | inl allowed ↦ rw (allowed, drop_prev) m
        | inr refused ↦ rw (refused, drop_prev) (append_prev-IsMoved kept n queues m)
      ]

  pub move_queues-IsMoved :
      (old new : SessionStatus) (queues : PostQueues T)
      → IsMoved queues.default_queue (total queues) (move_queues old new queues)
  unfolding move_queues
  move_queues-IsMoved old new queues =
      let kept = queues.default_queue in
      let n = total queues in
      let shifted = shift_queues old.current_index new.current_index queues in
      drop_prev-IsMoved kept n new.phase (drop_current new.phase shifted) (
        drop_current-IsMoved kept n new.phase shifted (
          shift_queues-IsMoved kept n old.current_index new.current_index queues
            (([], sym (append-nil kept)), refl)))
