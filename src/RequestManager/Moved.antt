-- ===== src/RequestManager/Moved.antt =====
-- src/request_manager/mod.rs: after `update_session_status` every request is where it belongs under
-- the new status.
use mixnet.Base.{
  ℕ, zero, suc, ◌-◌, ◌≡◌, refl, ap, sym, subst, true, List, [], ◌∷◌, ◌++◌, none, some, length,
  arith, inl, inr, AllOf, AllOf-weaken, Bool-cases, ==_iff, ◌==◌,
}
use mixnet.Sessions.{
  RelSessionIndex, current, prev, SessionPhase, SessionStatus, allow_requests_and_replies,
}
use mixnet.RequestManager.{RequestState, World, new_destination}
use mixnet.RequestManager.PostQueues.{PostQueues, index}
use mixnet.RequestManager.Updating.{
  append_prev, append_current, swap_queues, shift_queues, drop_current, drop_prev, move_queues,
  renew_from,
}
use mixnet.RequestManager.Retrying.{renew}
use mixnet.RequestManager.Placement.{IndexAt, Placed, IsPlaced}

module _ {R : Type 0} where
  -- The request was posted to the session last.
  abbrev pub Indexed : ℕ → RelSessionIndex → RequestState R → Type 0
  Indexed c rel st = (i : ℕ) × (st.session_index ≡ some i) × IndexAt c rel i

  Placed-Indexed :
      (status : SessionStatus) (rel : RelSessionIndex) (st : RequestState R)
      → Placed status (some rel) st
      → Indexed status.current_index rel st
  Placed-Indexed status rel st (i, own, at) = (i, own, at.0)

  Indexed-Placed :
      (status : SessionStatus) (rel : RelSessionIndex)
      → allow_requests_and_replies status.phase rel ≡ true
      → (st : RequestState R) → Indexed status.current_index rel st
      → Placed status (some rel) st
  Indexed-Placed status rel h st (i, own, at) = (i, own, (at, h))

  -- The current session of before is the previous one, one index later.
  next-Indexed :
      (old new : ℕ)
      → new - old ≡ 1
      → (st : RequestState R) → Indexed old current st
      → Indexed new prev st
  next-Indexed old new h st (i, own, at) = (i, own, omega arith)

  shift_queues-Indexed :
      (old new : ℕ) (queues : PostQueues (RequestState R))
      → AllOf (Indexed old current) queues.current_queue
      → AllOf (Indexed old prev) queues.prev_queue
      → AllOf (Indexed new current) (shift_queues old new queues).current_queue
        × AllOf (Indexed new prev) (shift_queues old new queues).prev_queue
  unfolding shift_queues append_prev append_current swap_queues
  shift_queues-Indexed old new queues c p = elim (Bool-cases (old == new)) [
    | inl same ↦
        rw (same, shift_queues)
          (
            subst (λ n. AllOf (Indexed n current) queues.current_queue) ((==_iff old new).0 same) c,
            subst (λ n. AllOf (Indexed n prev) queues.prev_queue) ((==_iff old new).0 same) p,
          )
    | inr other ↦ elim (Bool-cases (new - old == 1)) [
      | inl next ↦
          rw (other, shift_queues, next, shift_queues)
            (
              tt,
              AllOf-weaken (Indexed old current) (Indexed new prev) queues.current_queue
                  (next-Indexed old new ((==_iff (new - old) 1).0 next)) c,
            )
      | inr jump ↦ rw (other, shift_queues, jump, shift_queues) (tt, tt)
    ]
  ]

  drop_current-Placed :
      (status : SessionStatus) (queues : PostQueues (RequestState R))
      → AllOf (Indexed status.current_index current) queues.current_queue
      → AllOf (Placed status (some current)) (drop_current status.phase queues).current_queue
  unfolding drop_current append_current
  drop_current-Placed status queues h =
      elim (Bool-cases (allow_requests_and_replies status.phase current)) [
        | inl allowed ↦
            rw (allowed, drop_current)
              (AllOf-weaken (Indexed status.current_index current) (Placed status (some current))
                queues.current_queue (Indexed-Placed status current allowed) h)
        | inr refused ↦ rw (refused, drop_current) tt
      ]

  drop_prev-Placed :
      (status : SessionStatus) (queues : PostQueues (RequestState R))
      → AllOf (Indexed status.current_index prev) queues.prev_queue
      → AllOf (Placed status (some prev)) (drop_prev status.phase queues).prev_queue
  unfolding drop_prev append_prev
  drop_prev-Placed status queues h =
      elim (Bool-cases (allow_requests_and_replies status.phase prev)) [
        | inl allowed ↦
            rw (allowed, drop_prev)
              (AllOf-weaken (Indexed status.current_index prev) (Placed status (some prev))
                queues.prev_queue (Indexed-Placed status prev allowed) h)
        | inr refused ↦ rw (refused, drop_prev) tt
      ]

  prev-drop_current :
      (phase : SessionPhase) (queues : PostQueues (RequestState R))
      → (drop_current phase queues).prev_queue ≡ queues.prev_queue
  unfolding drop_current append_current
  prev-drop_current phase queues = elim (Bool-cases (allow_requests_and_replies phase current)) [
    | inl allowed ↦ rw (allowed, drop_current) refl
    | inr refused ↦ rw (refused, drop_current) refl
  ]

  current-drop_prev :
      (phase : SessionPhase) (queues : PostQueues (RequestState R))
      → (drop_prev phase queues).current_queue ≡ queues.current_queue
  unfolding drop_prev append_prev
  current-drop_prev phase queues = elim (Bool-cases (allow_requests_and_replies phase prev)) [
    | inl allowed ↦ rw (allowed, drop_prev) refl
    | inr refused ↦ rw (refused, drop_prev) refl
  ]

  pub move_queues-Placed :
      (old new : SessionStatus) (queues : PostQueues (RequestState R))
      → IsPlaced old queues
      → AllOf (Placed new (some current)) (move_queues old new queues).current_queue
        × AllOf (Placed new (some prev)) (move_queues old new queues).prev_queue
  unfolding move_queues index
  move_queues-Placed old new queues h =
      let shifted = shift_queues old.current_index new.current_index queues in
      let dropped = drop_current new.phase shifted in
      let (c, p) =
        shift_queues-Indexed old.current_index new.current_index queues
          (AllOf-weaken (Placed old (some current)) (Indexed old.current_index current)
            queues.current_queue (Placed-Indexed old current) (h (some current)))
          (AllOf-weaken (Placed old (some prev)) (Indexed old.current_index prev) queues.prev_queue
            (Placed-Indexed old prev) (h (some prev))) in
      (
        subst (AllOf (Placed new (some current))) (sym (current-drop_prev new.phase dropped))
            (drop_current-Placed new shifted c),
        drop_prev-Placed new dropped (
            subst (AllOf (Indexed new.current_index prev))
              (sym (prev-drop_current new.phase shifted)) p),
      )

module _ {R : Type 0} (w : World) (past : ℕ) where
  pub length-renew_from :
      (n : ℕ) (queue : List (RequestState R)) (world : w.State)
      → length (renew_from w past n queue world).0 ≡ length queue
  unfolding renew_from
  length-renew_from n [] world = refl
  length-renew_from zero (st ∷ queue) world = ap suc (length-renew_from zero queue _)
  length-renew_from (suc n) (st ∷ queue) world = ap suc (length-renew_from n queue world)

  -- The requests that are kept were posted to no session, and the others forget theirs.
  pub renew_from-Placed :
      (status : SessionStatus) (kept extra : List (RequestState R)) (world : w.State)
      → AllOf (Placed status none) kept
      → AllOf (Placed status none) (renew_from w past (length kept) (kept ++ extra) world).0
  unfolding renew_from renew new_destination
  renew_from-Placed status [] [] world h = tt
  renew_from-Placed status [] (st ∷ extra) world h = (refl, renew_from-Placed status [] extra _ tt)
  renew_from-Placed status (st ∷ kept) extra world h =
      (h.0, renew_from-Placed status kept extra world h.1)
