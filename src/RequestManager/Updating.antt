-- ===== src/RequestManager/Updating.antt =====
-- src/request_manager/mod.rs: `update_session_status` and `remove`.
use mixnet.Base.{
  ℕ, zero, suc, ◌-◌, Bool, true, false, ◌||◌, List, [], ◌∷◌, ◌++◌, Option, none, some, ◌==◌,
  if◌then◌else◌, length,
}
use mixnet.Fragment.{MessageId}
use mixnet.Sessions.{
  RelSessionIndex, current, prev, SessionPhase, SessionStatus, allow_requests_and_replies,
}
use mixnet.Mixnet.{same_status}
use mixnet.RequestManager.{Request, World, RequestState, RequestManager, Run}
use mixnet.RequestManager.PostQueues
use mixnet.RequestManager.Posting.{process_post_queues}
use mixnet.RequestManager.Retrying.{renew}

module _ {T : Type 0} where
  -- `default.append(&mut prev)` and `default.append(&mut current)`.
  unfoldable pub append_prev : PostQueues.PostQueues T → PostQueues.PostQueues T
  append_prev queues = record queues {
    default_queue = queues.default_queue ++ queues.prev_queue;
    prev_queue = [];
  }

  unfoldable pub append_current : PostQueues.PostQueues T → PostQueues.PostQueues T
  append_current queues = record queues {
    default_queue = queues.default_queue ++ queues.current_queue;
    current_queue = [];
  }

  unfoldable pub swap_queues : PostQueues.PostQueues T → PostQueues.PostQueues T
  swap_queues queues = record queues {
    current_queue = queues.prev_queue;
    prev_queue = queues.current_queue;
  }

  -- The queues after a change of the current index.
  unfoldable pub shift_queues : ℕ → ℕ → PostQueues.PostQueues T → PostQueues.PostQueues T
  shift_queues old_index new_index queues =
      let cleared = append_prev queues in
      if old_index == new_index
      then queues
      else (if new_index - old_index == 1 then swap_queues cleared else append_current cleared)

  unfoldable pub drop_current : SessionPhase → PostQueues.PostQueues T → PostQueues.PostQueues T
  drop_current phase queues =
      if allow_requests_and_replies phase current then queues else append_current queues

  unfoldable pub drop_prev : SessionPhase → PostQueues.PostQueues T → PostQueues.PostQueues T
  drop_prev phase queues =
      if allow_requests_and_replies phase prev then queues else append_prev queues

  -- All moves of requests between the queues.
  unfoldable pub move_queues :
      SessionStatus → SessionStatus → PostQueues.PostQueues T → PostQueues.PostQueues T
  move_queues old new queues =
      drop_prev new.phase
        (drop_current new.phase (shift_queues old.current_index new.current_index queues))

module _ {R : Type 0} (w : World) where
  -- `new_destination` for all but the first requests of a queue.
  unfoldable pub renew_from :
      ℕ → ℕ → List (RequestState R) → w.State → List (RequestState R) × w.State
  renew_from past n [] world = ([], world)
  renew_from past zero (st ∷ queue) world =
      let renewed = renew w past st world in
      let rest = renew_from past zero queue renewed.1 in (renewed.0 ∷ rest.0, rest.1)
  renew_from past (suc n) (st ∷ queue) world =
      let rest = renew_from past n queue world in (st ∷ rest.0, rest.1)

  -- All of `update_session_status` but the posting at its end.
  unfoldable pub set_status : SessionStatus → Run R w → Run R w
  set_status status run =
      let m = run.manager in
      let moved = move_queues m.session_status status m.post_queues in
      let renewed =
        renew_from m.created_at (length m.post_queues.default_queue) moved.default_queue
          run.world in
      record run {
        manager = record m {
          session_status = status;
          post_queues = record moved { default_queue = renewed.0 };
        };
        world = renewed.1;
      }

module _ {R : Type 0} (q : Request R) (w : World) where
  unfoldable pub update_session_status : Run R w → Option (Run R w)
  update_session_status run =
      let status = w.session_status run.world in
      if same_status run.manager.session_status status
      then some run
      else process_post_queues q w (set_status w status run)

module _ {R : Type 0} (dec : Discrete MessageId) where
  -- The first request with the id, and the queue without it.
  unfoldable pub take_id :
      MessageId → List (RequestState R) → Option (RequestState R × List (RequestState R))
  take_id id [] = none
  take_id id (st ∷ queue) =
      let rest = take_id id queue in
      elim (dec st.message_id id) [
        | yes same ↦ some (st, queue)
        | no other ↦ elim rest [ none ↦ none | some (found, others) ↦ some (found, st ∷ others) ]
      ]

  -- Whether the first request has the id.
  unfoldable pub id_is_first : MessageId → List (RequestState R) → Bool
  id_is_first id [] = false
  id_is_first id (st ∷ queue) = elim (dec st.message_id id) [ yes same ↦ true | no other ↦ false ]

  unfoldable pub remove_posting :
      MessageId → RequestManager R → List (Option RelSessionIndex) → Option (R × RequestManager R)
  remove_posting id m [] = none
  remove_posting id m (i ∷ indices) =
      let rest = remove_posting id m indices in
      elim (take_id id (PostQueues.index m.post_queues i)) [
        | none ↦ rest
        | some (st, others) ↦
            some
              (st.request, record m { post_queues = PostQueues.set_index m.post_queues i others })
      ]

  unfoldable pub remove_retrying : MessageId → RequestManager R → Option (R × RequestManager R)
  remove_retrying id m = elim (take_id id m.retry_queue) [
    | none ↦ none
    | some (st, others) ↦ some (
      st.request,
      record m {
        retry_queue = others;
        next_retry_deadline_changed = m.next_retry_deadline_changed || id_is_first id m.retry_queue;
      },
    )
  ]

  -- The request with the id, if there is one, and the manager without it.
  unfoldable pub remove : MessageId → RequestManager R → Option (R × RequestManager R)
  remove id m = elim (remove_posting id m (some current ∷ some prev ∷ none ∷ [])) [
    | some found ↦ some found
    | none ↦ remove_retrying id m
  ]
