-- ===== src/RequestManager/Loop.antt =====
-- src/request_manager/mod.rs: the loop of `process_post_queue` ends, and keeps the number of requests
-- and where they may be.
use mixnet.Base.{
  List-cases, ◌∙◌, ◌-◌, checked_sub_le, checked_sub_lt, lt-or-le, ℕ, zero, suc, ◌+◌, ◌≤◌, ◌<◌, ◌≡◌,
  refl, true, false, List, [], ◌∷◌, ◌++◌, Option, none, some, Result, ok, err, length, arith,
  Bool-cases, inl, inr, subst, sym, ap,
}
use mathlib.Core.Bool.{true≢false}
use mixnet.Sessions.{RelSessionIndex, current, prev, SessionStatus}
use mixnet.RequestManager.{
  PostErr, Config, Request, World, RequestMetrics, RequestState, RequestManager, Run,
}
use mixnet.RequestManager.PostQueues.{index, set_index}
use mixnet.RequestManager.Queues.{index-set_index, turns-append}
use mixnet.RequestManager.Posting.{
  turns, unwrap_or, keep_posted, push_back, push_retry, posted, handle_result, visit, is_full_queue,
  process_loop,
}
use mixnet.RequestManager.Placement.{Serves}
use mixnet.RequestManager.Steps.{pop_front-IsValid, Keeps, visit-Keeps}

module _ {R : Type 0} where
  turns-push_back_own :
      (m : RequestManager R) (i : RelSessionIndex) (st : RequestState R)
      → turns (index (push_back m (some i) st).post_queues (some i))
        ≤ suc st.posts_remaining + turns (index m.post_queues (some i))
  unfolding push_back
  turns-push_back_own m i st =
      rw
        (
          index-set_index m.post_queues (some i) (index m.post_queues (some i) ++ st ∷ []),
          turns-append (index m.post_queues (some i)) st,
        )
        (omega arith)

  turns-push_back :
      (m : RequestManager R) (rel : Option RelSessionIndex) (d i : RelSessionIndex)
      (st : RequestState R)
      → i ≡ unwrap_or rel d
      → turns (index (push_back m (some i) st).post_queues rel)
        ≤ suc st.posts_remaining + turns (index m.post_queues rel)
  unfolding push_back index set_index
  turns-push_back m none d current st e = omega arith
  turns-push_back m none d prev st e = omega arith
  turns-push_back m (some j) d i st e =
      subst
        (λ j.
          turns (index (push_back m (some i) st).post_queues (some j))
          ≤ suc st.posts_remaining + turns (index m.post_queues (some j)))
        e (turns-push_back_own m i st)

  -- A request that stays in the queues has one post less to go.
  turns-keep_posted :
      (m : RequestManager R) (rel : Option RelSessionIndex) (d i : RelSessionIndex)
      (st : RequestState R)
      → i ≡ unwrap_or rel d
      → turns (index (keep_posted m i st).post_queues rel)
        ≤ st.posts_remaining + turns (index m.post_queues rel)
  unfolding keep_posted push_back push_retry
  turns-keep_posted m rel d i st e = elim (lt-or-le st.posts_remaining 1) [
    | inl l ↦ rw (checked_sub_lt st.posts_remaining 1 l, keep_posted) (omega arith)
    | inr l ↦
        rw (checked_sub_le st.posts_remaining 1 l, keep_posted)
          (let moved = record st { posts_remaining = st.posts_remaining - 1 } in
            omega (arith, turns-push_back m rel d i moved e))
  ]

module _ {R : Type 0} (q : Request R) (w : World) where
  goes_on-handle_result :
      (rel : Option RelSessionIndex) (i : RelSessionIndex) (session_index : ℕ) (st : RequestState R)
      (x : PostErr) (run : Run R w)
      → is_full_queue x ≡ true
      → (handle_result q w rel i session_index st (err x) run).0 ≡ false
  unfolding handle_result
  goes_on-handle_result rel i session_index st x run full = rw (full, handle_result) refl

  turns-handle_result :
      (rel : Option RelSessionIndex) (d i : RelSessionIndex) (session_index : ℕ)
      (st : RequestState R) (r : Result RequestMetrics PostErr) (run : Run R w)
      → i ≡ unwrap_or rel d
      → (handle_result q w rel i session_index st r run).0 ≡ true
      → turns (index (handle_result q w rel i session_index st r run).1.manager.post_queues rel)
        ≤ st.posts_remaining + turns (index run.manager.post_queues rel)
  unfolding handle_result posted
  turns-handle_result rel d i session_index st (ok metrics) run e h =
      turns-keep_posted run.manager rel d i _ e
  turns-handle_result rel d i session_index st (err x) run e h =
      elim (Bool-cases (is_full_queue x)) [
        | inl full ↦
            absurd (true≢false (sym h ∙ goes_on-handle_result rel i session_index st x run full))
        | inr other ↦ rw (other, handle_result) (omega arith)
      ]

  -- The manager without the requests of a queue before the given ones.
  abbrev pub popped : Option RelSessionIndex → List (RequestState R) → Run R w → Run R w
  popped rel queue run = record run {
    manager = record (run.manager) { post_queues = set_index run.manager.post_queues rel queue };
  }

  turns-visit :
      (rel : Option RelSessionIndex) (d i : RelSessionIndex) (session_index : ℕ)
      (st : RequestState R) (queue : List (RequestState R)) (run : Run R w)
      → i ≡ unwrap_or rel d
      → index run.manager.post_queues rel ≡ st ∷ queue
      → (visit q w rel i session_index st (popped rel queue run)).0 ≡ true
      → turns (
          index (visit q w rel i session_index st (popped rel queue run)).1.manager.post_queues rel)
        < turns (index run.manager.post_queues rel)
  unfolding visit turns
  turns-visit rel d i session_index st queue run e waiting h =
      let res =
        w.post_request run.world session_index st.destination_index st.message_id
          (q.message_data st.request) (q.num_surbs st.request) in
      let stays =
        turns-handle_result rel d i session_index (record st { destination_index = res.1.0 }) res.0
          (record (popped rel queue run) { world = res.1.1 }) e h in
      omega (
        arith,
        stays,
        ap turns waiting,
        ap turns (index-set_index run.manager.post_queues rel queue),
      )

  module _ (status : SessionStatus) (config : Config) (n : ℕ) where
    visit_popped-Keeps :
        (rel : Option RelSessionIndex) (i : RelSessionIndex) (session_index : ℕ)
        (st : RequestState R) (queue : List (RequestState R)) (run : Run R w)
        → Serves status i session_index
        → Keeps q w status config n run
        → index run.manager.post_queues rel ≡ st ∷ queue
        → Keeps q w status config n (visit q w rel i session_index st (popped rel queue run)).1
    visit_popped-Keeps rel i session_index st queue run s (k, v, e) waiting =
        let (k', less, p, v') =
          pop_front-IsValid status config k run.manager rel st queue v waiting in
        subst
          (λ n.
            Keeps q w status config n (visit q w rel i session_index st (popped rel queue run)).1)
          (omega arith)
          (visit-Keeps q w status config (k' + length run.outcomes) rel i session_index st
            (popped rel queue run) (k', v', refl) p s)

    -- The loop ends with the given fuel, and without a panic.
    pub process_loop-Keeps :
        (fuel : ℕ) (rel : Option RelSessionIndex) (d i : RelSessionIndex) (session_index : ℕ)
        (run : Run R w)
        → i ≡ unwrap_or rel d
        → Serves status i session_index
        → Keeps q w status config n run
        → turns (index run.manager.post_queues rel) < fuel
        → (run' : Run R w) × (process_loop q w fuel rel i session_index run ≡ some run')
          × Keeps q w status config n run'
    unfolding process_loop
    process_loop-Keeps zero rel d i session_index run e s k h = absurd (omega arith)
    process_loop-Keeps (suc fuel) rel d i session_index run e s k h =
        elim (List-cases (index run.manager.post_queues rel)) [
          | inl none_left ↦ rw (none_left, process_loop) (run, refl, k)
          | inr (st, queue, waiting) ↦
              let visited = visit q w rel i session_index st (popped rel queue run) in
              let kept = visit_popped-Keeps rel i session_index st queue run s k waiting in
              elim (Bool-cases visited.0) [
                | inl goes_on ↦
                    rw (waiting, process_loop, goes_on, process_loop)
                      (process_loop-Keeps fuel rel d i session_index visited.1 e s kept (
                        omega (
                          arith,
                          turns-visit rel d i session_index st queue run e waiting goes_on,
                        )))
                | inr stops ↦
                    rw (waiting, process_loop, stops, process_loop) (visited.1, refl, kept)
              ]
        ]
