-- ===== src/RequestManager/Retrying.antt =====
-- src/request_manager/mod.rs: `retry`, and `insert` and `pop_next_retry`, which end in it. `none` is a
-- panic.
use mixnet.Base.{
  ℕ, Bool, true, false, ◌&&◌, List, [], ◌∷◌, ◌++◌, Option, none, some, ◌>>=◌, if◌then◌else◌,
  checked_sub, replicate,
}
use mixnet.Fragment.{message_id_size}
use mixnet.Sessions.{
  RelSessionIndex, SessionStatus, from_session_index, default_request_session,
  allow_requests_and_replies,
}
use mixnet.RequestManager.{
  Request, retry_limit_reached, World, RequestState, RequestManager, Run, new_destination,
}
use mixnet.RequestManager.PostQueues
use mixnet.RequestManager.Posting.{same_rel, push_back, process_post_queue}

unfoldable pub queue_is_empty : {A : Type 0} → List A → Bool
queue_is_empty [] = true
queue_is_empty (a ∷ xs) = false

-- Whether the phase allows requests to the session, if there is one.
unfoldable pub allows : SessionStatus → Option RelSessionIndex → Bool
allows status none = false
allows status (some i) = allow_requests_and_replies status.phase i

module _ {R : Type 0} where
  unfoldable pub session_post_queues_empty : RequestManager R → Option RelSessionIndex → Bool
  unfolding queue_is_empty
  session_post_queues_empty m (some i) =
      let own = queue_is_empty (PostQueues.index m.post_queues (some i)) in
      let rest =
        (if same_rel i (default_request_session m.session_status.phase)
          then queue_is_empty m.post_queues.default_queue
          else true) in
      own && rest
  session_post_queues_empty m none =
      queue_is_empty (PostQueues.index m.post_queues none)
      && queue_is_empty
          (PostQueues.index m.post_queues (some (default_request_session m.session_status.phase)))

  unfoldable pub next_retry_deadline : RequestManager R → Option ℕ
  next_retry_deadline m = elim (m.retry_queue) [ [] ↦ none | st ∷ rest ↦ some st.retry_deadline ]

  -- `next_retry_deadline_changed`, which clears the flag.
  unfoldable pub take_deadline_changed : RequestManager R → Bool × RequestManager R
  take_deadline_changed m =
      (m.next_retry_deadline_changed, record m { next_retry_deadline_changed = false })

module _ {R : Type 0} (w : World) where
  -- `new_destination`, with an id from the world.
  unfoldable pub renew : ℕ → RequestState R → w.State → RequestState R × w.State
  renew past st world = let id = w.random_id world in (new_destination st id.0 past, id.1)

  -- One attempt less, or one destination less; inside, `none` if there is neither.
  unfoldable pub next_attempt :
      RequestManager R → RequestState R → w.State → Option (Option (RequestState R × w.State))
  next_attempt m st world = elim (checked_sub st.attempts_remaining 1) [
    | some attempts_remaining ↦
        some (some (record st { attempts_remaining = attempts_remaining }, world))
    | none ↦ elim (checked_sub st.destinations_remaining 1) [
      | none ↦ some none
      | some destinations_remaining ↦ do
        attempts_remaining ← checked_sub m.config.num_attempts_per_destination 1
        some (
            some (
              renew m.created_at
                (record st {
                  destinations_remaining = destinations_remaining;
                  attempts_remaining = attempts_remaining;
                })
                world))
    ]
  ]

  -- The queue for the request: that of its session, if requests to it are allowed still.
  unfoldable pub choose_queue :
      RequestManager R
      → RequestState R
      → w.State
      → Option RelSessionIndex × (RequestState R × w.State)
  choose_queue m st world = elim (st.session_index) [
    | none ↦ (none, (st, world))
    | some session_index ↦
        let rel = from_session_index session_index m.session_status.current_index in
        if allows m.session_status rel
        then (rel, (st, world))
        else (none, renew m.created_at st world)
  ]

module _ {R : Type 0} (q : Request R) (w : World) where
  -- What may be possible to post after a push to a queue, with the queue of the default session as
  -- well, which requests of the default queue go to.
  unfoldable pub process_pushed : Option RelSessionIndex → Run R w → Option (Run R w)
  process_pushed none run = do
    run₁ ← process_post_queue q w none run
    process_post_queue q w (some (default_request_session run₁.manager.session_status.phase)) run₁
  process_pushed (some i) run = process_post_queue q w (some i) run

  -- The request goes to the back of a queue, which is processed if none was waiting.
  unfoldable pub enqueue : Option RelSessionIndex → RequestState R → Run R w → Option (Run R w)
  enqueue rel st run =
      let empty = session_post_queues_empty run.manager rel in
      let run' = record run { manager = push_back run.manager rel st } in
      if empty then process_pushed rel run' else some run'

  unfoldable pub retry : RequestState R → Run R w → Option (Run R w)
  retry st run = do
    attempt ← next_attempt w run.manager st run.world
    elim attempt [
      | none ↦ some (record run { outcomes = run.outcomes ++ retry_limit_reached st.request ∷ [] })
      | some next ↦ do
        posts_remaining ← checked_sub run.manager.config.num_posts_per_attempt 1
        let placed =
            choose_queue w run.manager (record (next.0) { posts_remaining = posts_remaining })
              next.1
        enqueue placed.0 placed.1.0 (record run { world = placed.1.1 })
    ]

  unfoldable pub insert : R → Run R w → Option (Run R w)
  insert request run =
      retry
        (record {
          request = request;
          destinations_remaining = run.manager.config.num_destinations;
          attempts_remaining = 0;
          posts_remaining = 0;
          message_id = replicate message_id_size 0;
          session_index = none;
          destination_index = none;
          retry_deadline = run.manager.created_at;
        })
        run

  -- The arms for the front of the retry queue.
  unfoldable pub retry_front : List (RequestState R) → Run R w → Option (Bool × Run R w)
  retry_front [] run = some (false, run)
  retry_front (st ∷ rest) run = do
    run' ← retry st (record run {
      manager = record (run.manager) { retry_queue = rest; next_retry_deadline_changed = true };
    })
    some (true, run')

  -- Whether there was a request in the retry queue, and the run after its retry.
  unfoldable pub pop_next_retry : Run R w → Option (Bool × Run R w)
  pop_next_retry run = retry_front run.manager.retry_queue run
