-- ===== src/RequestManager/Placement.antt =====
-- src/request_manager/mod.rs: where the requests stand, and that a step of the loop keeps it.
use mixnet.Base.{
  ℕ, suc, ◌≤◌, ◌≡◌, refl, true, List, [], ◌∷◌, Option, none, some, length, arith, AllOf, inl, inr,
  lt-or-le, lt→ltb, le→not-ltb,
}
use mixnet.Sessions.{RelSessionIndex, current, prev, SessionStatus, allow_requests_and_replies}
use mixnet.RequestManager.{RequestState}
use mixnet.RequestManager.PostQueues
use mixnet.RequestManager.PostQueues.{index, set_index, total}
use mixnet.RequestManager.Posting.{insert_retry}

-- The absolute index of a session.
abbrev pub IndexAt : ℕ → RelSessionIndex → ℕ → Type 0
IndexAt c current i = i ≡ c
IndexAt c prev i = suc i ≡ c

-- The session is the given one, and the phase allows requests to it.
abbrev pub Serves : SessionStatus → RelSessionIndex → ℕ → Type 0
Serves status rel i =
    IndexAt status.current_index rel i × (allow_requests_and_replies status.phase rel ≡ true)

module _ {R : Type 0} where
  -- A request in the queue of a session was posted to this session last, and one in the default
  -- queue to none.
  abbrev pub Placed : SessionStatus → Option RelSessionIndex → RequestState R → Type 0
  Placed status none st = st.session_index ≡ none
  Placed status (some rel) st = (i : ℕ) × (st.session_index ≡ some i) × Serves status rel i

  abbrev pub IsPlaced : SessionStatus → PostQueues.PostQueues (RequestState R) → Type 0
  IsPlaced status queues =
      (rel : Option RelSessionIndex) → AllOf (Placed status rel) (index queues rel)

  -- The retry deadlines do not fall.
  abbrev pub AllFrom : ℕ → List (RequestState R) → Type 0
  AllFrom d [] = Unit {0}
  AllFrom d (st ∷ queue) = (d ≤ st.retry_deadline) × AllFrom d queue

  abbrev pub IsSorted : List (RequestState R) → Type 0
  IsSorted [] = Unit {0}
  IsSorted (st ∷ queue) = AllFrom st.retry_deadline queue × IsSorted queue

  AllFrom-weaken :
      (d e : ℕ) (queue : List (RequestState R)) → d ≤ e → AllFrom e queue → AllFrom d queue
  AllFrom-weaken d e [] h a = tt
  AllFrom-weaken d e (st ∷ queue) h a = (omega (arith, a.0), AllFrom-weaken d e queue h a.1)

  insert_retry-AllFrom :
      (d : ℕ) (st : RequestState R) (queue : List (RequestState R))
      → d ≤ st.retry_deadline
      → AllFrom d queue
      → AllFrom d (insert_retry st queue)
  unfolding insert_retry
  insert_retry-AllFrom d st [] h a = (h, tt)
  insert_retry-AllFrom d st (first ∷ rest) h a =
      elim (lt-or-le first.retry_deadline st.retry_deadline) [
        | inl l ↦ rw (lt→ltb _ _ l) (a.0, insert_retry-AllFrom d st rest h a.1)
        | inr l ↦ rw (le→not-ltb _ _ l) (h, a)
      ]

  pub insert_retry-IsSorted :
      (st : RequestState R) (queue : List (RequestState R))
      → IsSorted queue
      → IsSorted (insert_retry st queue)
  unfolding insert_retry
  insert_retry-IsSorted st [] s = (tt, tt)
  insert_retry-IsSorted st (first ∷ rest) s =
      elim (lt-or-le first.retry_deadline st.retry_deadline) [
        | inl l ↦ rw (lt→ltb _ _ l) (
          insert_retry-AllFrom first.retry_deadline st rest (omega arith) s.0,
          insert_retry-IsSorted st rest s.1,
        )
        | inr l ↦
            rw (le→not-ltb _ _ l)
              ((l, AllFrom-weaken st.retry_deadline first.retry_deadline rest l s.0), s)
      ]

  pub length-insert_retry :
      (st : RequestState R) (queue : List (RequestState R))
      → length (insert_retry st queue) ≡ suc (length queue)
  unfolding insert_retry
  length-insert_retry st [] = refl
  length-insert_retry st (first ∷ rest) = elim (lt-or-le first.retry_deadline st.retry_deadline) [
    | inl l ↦ rw (lt→ltb _ _ l) (omega (arith, length-insert_retry st rest))
    | inr l ↦ rw (le→not-ltb _ _ l)
  ]
