-- ===== src/RequestManager/Kept.antt =====
-- src/request_manager/mod.rs: which requests the manager holds, apart from their order, when it posts
-- and retries them.
use mixnet.Base.{
  not, true, sym, Bool, ◌<◌, err, ok, ◌==◌, inr, ◌&&◌, inl, List-cases, ap, Result, Option-cases,
  Bool-cases, subst, ℕ, zero, suc, ◌+◌, ◌≡◌, refl, List, [], ◌∷◌, Option, none, some, arith,
}
use mixnet.Sessions.{add_index, default_request_session, RelSessionIndex, prev}
use mixnet.RequestManager.{
  Config, SessionStatus, PostErr, RequestMetrics, Request, post_failed, retry_limit_reached, World,
  RequestState, Run,
}
use mathlib.Core.Option.{none-ne-some, some-injective}
use mixnet.RequestManager.PostQueues.{index}
use mixnet.RequestManager.Posting.{
  unwrap_or, same_rel, push_back, posted, is_full_queue, handle_result, visit, process_loop,
  process_post_queue,
}
use mixnet.RequestManager.Retrying.{
  process_pushed, session_post_queues_empty, enqueue, retry, retry_front, pop_next_retry,
  queue_is_empty,
}
use mixnet.RequestManager.Loop.{popped}
use mixnet.RequestManager.Choice.{retry-budget}
use mixnet.RequestManager.Steps.{Keeps}
use mixnet.RequestManager.Processing.{process_post_queue-Keeps}
use mixnet.RequestManager.Attempts.{pop_next_retry-Keeps}
use mixnet.RequestManager.Weights.{
  weigh, weight, weigh_outcomes-append, weigh-set_index, weigh-push_back, weigh-keep_posted, Weighs,
  Weighs-some, Weighs-bind,
}

module _ {R : Type 0} (f : R → ℕ) (q : Request R) (w : World) where
  -- A request that was popped is put back or becomes an outcome.
  weight-handle_result :
      (rel : Option RelSessionIndex) (i : RelSessionIndex) (session_index : ℕ) (st : RequestState R)
      (r : Result RequestMetrics PostErr) (run : Run R w)
      → weight f (handle_result q w rel i session_index st r run).1 ≡ weight f run + f st.request
  unfolding handle_result posted
  weight-handle_result rel i session_index st (ok metrics) run =
      omega (arith, weigh-keep_posted f run.manager i _)
  weight-handle_result rel i session_index st (err x) run = elim (Bool-cases (is_full_queue x)) [
    | inl full ↦
        rw (full, handle_result)
          (omega (
            arith,
            weigh-set_index f run.manager.post_queues rel (st ∷ index run.manager.post_queues rel),
          ))
    | inr other ↦
        rw (other, handle_result)
          (omega (arith, weigh_outcomes-append f run.outcomes (post_failed st.request x ∷ [])))
  ]

  weight-visit :
      (rel : Option RelSessionIndex) (i : RelSessionIndex) (session_index : ℕ) (st : RequestState R)
      (queue : List (RequestState R)) (run : Run R w)
      → index run.manager.post_queues rel ≡ st ∷ queue
      → weight f (visit q w rel i session_index st (popped q w rel queue run)).1 ≡ weight f run
  unfolding visit
  weight-visit rel i session_index st queue run waiting =
      let res =
        w.post_request run.world session_index st.destination_index st.message_id
          (q.message_data st.request) (q.num_surbs st.request) in
      omega (
        arith,
        weight-handle_result rel i session_index (record st { destination_index = res.1.0 }) res.0
            (record (popped q w rel queue run) { world = res.1.1 }),
        weigh-set_index f run.manager.post_queues rel queue,
        ap (weigh f) waiting,
      )

  Weighs-process_loop :
      (fuel : ℕ) (rel : Option RelSessionIndex) (i : RelSessionIndex) (session_index : ℕ)
      (run : Run R w)
      → Weighs f (weight f run) (process_loop q w fuel rel i session_index run)
  unfolding process_loop
  Weighs-process_loop zero rel i session_index run = λ run' h. absurd (none-ne-some run' h)
  Weighs-process_loop (suc fuel) rel i session_index run =
      elim (List-cases (index run.manager.post_queues rel)) [
        | inl none_left ↦ rw (none_left, process_loop) (Weighs-some f _ run refl)
        | inr (st, queue, waiting) ↦
            let visited = visit q w rel i session_index st (popped q w rel queue run) in
            let same = weight-visit rel i session_index st queue run waiting in
            elim (Bool-cases visited.0) [
              | inl goes_on ↦
                  rw (waiting, process_loop, goes_on, process_loop)
                    (subst (λ n. Weighs f n (process_loop q w fuel rel i session_index visited.1))
                      same (Weighs-process_loop fuel rel i session_index visited.1))
              | inr stops ↦
                  rw (waiting, process_loop, stops, process_loop) (Weighs-some f _ visited.1 same)
            ]
      ]

  Weighs-process_post_queue :
      (rel : Option RelSessionIndex) (run : Run R w)
      → Weighs f (weight f run) (process_post_queue q w rel run)
  unfolding process_post_queue
  Weighs-process_post_queue rel run =
      let status = run.manager.session_status in
      let i = unwrap_or rel (default_request_session status.phase) in
      elim (Bool-cases (same_rel i prev && status.current_index == 0)) [
        | inl missing ↦ rw (missing, process_post_queue) (Weighs-some f _ run refl)
        | inr exists ↦
            rw (exists, process_post_queue)
              (Weighs-bind f _ (add_index i status.current_index) _
                (λ session_index e. Weighs-process_loop _ rel i session_index run))
      ]

  Weighs-process_pushed :
      (rel : Option RelSessionIndex) (run : Run R w)
      → Weighs f (weight f run) (process_pushed q w rel run)
  unfolding process_pushed
  Weighs-process_pushed (some i) run = Weighs-process_post_queue (some i) run
  Weighs-process_pushed none run = Weighs-bind f _ (process_post_queue q w none run) _ λ run₁ e.
      let default = some (default_request_session run₁.manager.session_status.phase) in
      subst (λ n. Weighs f n (process_post_queue q w default run₁))
        (Weighs-process_post_queue none run run₁ e) (Weighs-process_post_queue default run₁)

  Weighs-enqueue :
      (rel : Option RelSessionIndex) (st : RequestState R) (run : Run R w)
      → Weighs f (weight f run + f st.request) (enqueue q w rel st run)
  unfolding enqueue
  Weighs-enqueue rel st run =
      let run' : Run R w = record run { manager = push_back run.manager rel st } in
      let same : weight f run' ≡ weight f run + f st.request =
        omega (arith, weigh-push_back f run.manager rel st) in
      elim (Bool-cases (session_post_queues_empty run.manager rel)) [
        | inl idle ↦
            rw (idle, enqueue)
              (subst (λ n. Weighs f n (process_pushed q w rel run')) same
                (Weighs-process_pushed rel run'))
        | inr busy ↦ rw (busy, enqueue) (Weighs-some f _ run' same)
      ]

  Weighs-retry :
      (st : RequestState R) (run : Run R w)
      → 0 < run.manager.config.num_attempts_per_destination
      → 0 < run.manager.config.num_posts_per_attempt
      → Weighs f (weight f run + f st.request) (retry q w st run)
  Weighs-retry st run h j = elim (retry-budget q w st run h j) [
    | inl (over, e) ↦ rw (e) (
        Weighs-some f _ _ (
          omega
            (arith, weigh_outcomes-append f run.outcomes (retry_limit_reached st.request ∷ []))))
    | inr (rel, st', world', e, same, less, left, p) ↦ rw (e) (
        subst
          (λ r. Weighs f (weight f run + f r) (enqueue q w rel st' (record run { world = world' })))
          same (Weighs-enqueue rel st' (record run { world = world' })))
  ]

  weight-retry_front :
      (queue : List (RequestState R)) (run : Run R w) (b : Bool) (run' : Run R w)
      → run.manager.retry_queue ≡ queue
      → 0 < run.manager.config.num_attempts_per_destination
      → 0 < run.manager.config.num_posts_per_attempt
      → retry_front q w queue run ≡ some (b, run')
      → weight f run' ≡ weight f run
  unfolding retry_front
  weight-retry_front [] run b run' waiting h j e =
      ap (λ r. weight f r.1) (sym (some-injective _ _ e))
  weight-retry_front (st ∷ rest) run b run' waiting h j e =
      let popped : Run R w = record run {
        manager = record (run.manager) { retry_queue = rest; next_retry_deadline_changed = true };
      } in
      elim (Option-cases (retry q w st popped)) [
        | inl panics ↦ absurd (none-ne-some _ (rw (panics) at e))
        | inr (run₁, done) ↦
            let same : run₁ ≡ run' = ap (λ r. r.1) (some-injective _ _ (rw (done) at e)) in
            omega (
              arith,
              Weighs-retry st popped h j run₁ done,
              ap (weigh f) waiting,
              ap (weight f) same,
            )
      ]

module _ {R : Type 0} (q : Request R) (w : World) (status : SessionStatus) (config : Config) (n : ℕ)
    (f : R → ℕ) where
  -- Posting from a queue of a manager that is valid ends with the fuel it has and without a panic,
  -- whatever the core answers. Whatever weights are given to the requests, their sum over the post
  -- queues, the retry queue and the outcomes is as before, so that no request is lost, doubled or
  -- replaced by another. The manager is valid: a request in the queue of a session was posted to it
  -- last, and the phase allows requests to it, one in the default queue was posted to none, and the
  -- retry queue is sorted by deadline.
  pub process_post_queue-Kept :
      (rel : Option RelSessionIndex) (run : Run R w)
      → Keeps q w status config n run
      → (run' : Run R w) × (process_post_queue q w rel run ≡ some run')
        × Keeps q w status config n run'
        × (weight f run' ≡ weight f run)
  process_post_queue-Kept rel run k =
      let (run', done, k') = process_post_queue-Keeps q w status config n rel run k in
      (run', done, k', Weighs-process_post_queue f q w rel run run' done)

  -- For a valid manager whose configuration allows an attempt and a post, popping the next retry
  -- ends without a panic, says whether there was a request to retry, and leaves a valid manager.
  -- Whatever weights are given to the requests, their sum over the post queues, the retry queue and
  -- the outcomes is as before, so that no request is lost, doubled or replaced by another.
  pub pop_next_retry-Kept :
      (run : Run R w)
      → 0 < config.num_attempts_per_destination
      → 0 < config.num_posts_per_attempt
      → Keeps q w status config n run
      → (run' : Run R w) × (pop_next_retry q w run
          ≡ some (not (queue_is_empty run.manager.retry_queue), run'))
        × Keeps q w status config n run'
        × (weight f run' ≡ weight f run)
  unfolding pop_next_retry
  pop_next_retry-Kept run h j k =
      let (run', done, k') = pop_next_retry-Keeps q w status config n run h j k in
      let own = sym k.1.own_config in
      (
        run',
        done,
        k',
        weight-retry_front f q w run.manager.retry_queue run _ run' refl
            (subst (λ config. 0 < config.num_attempts_per_destination) own h)
            (subst (λ config. 0 < config.num_posts_per_attempt) own j) done,
      )
