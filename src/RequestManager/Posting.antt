-- ===== src/RequestManager/Posting.antt =====
-- src/request_manager/mod.rs: `process_post_queue`, `process_post_queues` and `retry`. `none` is a panic,
-- or an end of fuel, of which there is enough.
use mixnet.Base.{
  ℕ, zero, suc, ◌+◌, max, Bool, true, false, ◌&&◌, ◌||◌, not, List, [], ◌∷◌, ◌++◌, Option, none,
  some, ◌>>=◌, Result, ok, err, ltb, ◌==◌, if◌then◌else◌, checked_sub,
}
use mixnet.Sessions.{RelSessionIndex, current, prev, add_index, default_request_session}
use mixnet.Mixnet.{PostErr, not_enough_space_in_queue}
use mixnet.RequestManager.{
  Request, post_failed, World, RequestMetrics, estimate_rtt, RequestState, RequestManager, Run,
}
use mixnet.RequestManager.PostQueues

abbrev pub same_rel : RelSessionIndex → RelSessionIndex → Bool
same_rel current current = true
same_rel prev prev = true
same_rel current prev = false
same_rel prev current = false

abbrev pub unwrap_or : Option RelSessionIndex → RelSessionIndex → RelSessionIndex
unwrap_or none other = other
unwrap_or (some i) other = i

-- Is it the error after which the request stays in its queue?
abbrev pub is_full_queue : PostErr → Bool
is_full_queue not_enough_space_in_queue = true
is_full_queue _ = false

module _ {R : Type 0} where
  -- The position of `partition_point`, and the insertion there.
  unfoldable pub insert_retry : RequestState R → List (RequestState R) → List (RequestState R)
  insert_retry st [] = st ∷ []
  insert_retry st (first ∷ rest) =
      let later = insert_retry st rest in
      if ltb first.retry_deadline st.retry_deadline then first ∷ later else st ∷ first ∷ rest

  -- Whether that position is 0.
  unfoldable pub goes_first : RequestState R → List (RequestState R) → Bool
  goes_first st [] = true
  goes_first st (first ∷ rest) = not (ltb first.retry_deadline st.retry_deadline)

  unfoldable pub push_back :
      RequestManager R → Option RelSessionIndex → RequestState R → RequestManager R
  push_back m i st = record m {
    post_queues =
        PostQueues.set_index m.post_queues i (PostQueues.index m.post_queues i ++ st ∷ []);
  }

  unfoldable pub push_retry : RequestManager R → RequestState R → RequestManager R
  push_retry m st = record m {
    retry_queue = insert_retry st m.retry_queue;
    next_retry_deadline_changed = m.next_retry_deadline_changed || goes_first st m.retry_queue;
  }

  -- What is left to do for a request that was posted.
  unfoldable pub keep_posted :
      RequestManager R → RelSessionIndex → RequestState R → RequestManager R
  keep_posted m i st = elim (checked_sub st.posts_remaining 1) [
    | some posts_remaining ↦ push_back m (some i) (record st { posts_remaining = posts_remaining })
    | none ↦ push_retry m st
  ]

  -- As many more turns of the loop as the requests of a queue can take.
  unfoldable pub turns : List (RequestState R) → ℕ
  turns [] = 0
  turns (st ∷ queue) = suc st.posts_remaining + turns queue

module _ {R : Type 0} (q : Request R) (w : World) where
  -- The arm for a successful post.
  unfoldable pub posted : RelSessionIndex → ℕ → RequestState R → RequestMetrics → Run R w → Run R w
  posted i session_index st metrics run =
      let rtt = estimate_rtt metrics (q.handling_delay st.request st.message_id) in
      let clock = w.now run.world in
      let st' : RequestState R = record st {
        session_index = some session_index;
        retry_deadline = max st.retry_deadline (clock.0 + rtt);
      } in
      record run { manager = keep_posted run.manager i st'; world = clock.1 }

  -- The arms of the match on the result, and whether the loop goes on.
  unfoldable pub handle_result :
      Option RelSessionIndex
      → RelSessionIndex
      → ℕ
      → RequestState R
      → Result RequestMetrics PostErr
      → Run R w
      → Bool × Run R w
  handle_result rel i session_index st (ok metrics) run =
      (true, posted i session_index st metrics run)
  handle_result rel i session_index st (err e) run =
      if is_full_queue e
      then (
        false,
        record run {
          manager = record (run.manager) {
            post_queues =
                PostQueues.set_index run.manager.post_queues rel
                  (st ∷ PostQueues.index run.manager.post_queues rel);
          };
        },
      )
      else (true, record run { outcomes = run.outcomes ++ post_failed st.request e ∷ [] })

  -- The loop body, for a request that was popped.
  unfoldable pub visit :
      Option RelSessionIndex → RelSessionIndex → ℕ → RequestState R → Run R w → Bool × Run R w
  visit rel i session_index st run =
      let res =
        w.post_request run.world session_index st.destination_index st.message_id
          (q.message_data st.request) (q.num_surbs st.request) in
      handle_result rel i session_index (record st { destination_index = res.1.0 }) res.0
        (record run { world = res.1.1 })

  unfoldable pub process_loop :
      ℕ → Option RelSessionIndex → RelSessionIndex → ℕ → Run R w → Option (Run R w)
  process_loop zero rel i session_index run = none
  process_loop (suc fuel) rel i session_index run =
      elim (PostQueues.index run.manager.post_queues rel) [
        | [] ↦ some run
        | st ∷ queue ↦
            let popped = record run {
              manager = record (run.manager) {
                post_queues = PostQueues.set_index run.manager.post_queues rel queue;
              };
            } in
            let visited = visit rel i session_index st popped in
            let rest = process_loop fuel rel i session_index visited.1 in
            if visited.0 then rest else some visited.1
      ]

  unfoldable pub process_post_queue : Option RelSessionIndex → Run R w → Option (Run R w)
  process_post_queue rel run =
      let status = run.manager.session_status in
      let i = unwrap_or rel (default_request_session status.phase) in
      if same_rel i prev && status.current_index == 0 then some run else (do
        session_index ← add_index i status.current_index
        process_loop (suc (turns (PostQueues.index run.manager.post_queues rel))) rel i
            session_index run)

  unfoldable pub process_post_queues : Run R w → Option (Run R w)
  process_post_queues run = do
    run₁ ← process_post_queue none run
    run₂ ← process_post_queue (some current) run₁
    process_post_queue (some prev) run₂
