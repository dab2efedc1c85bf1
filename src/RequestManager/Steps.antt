-- ===== src/RequestManager/Steps.antt =====
-- src/request_manager/mod.rs: what the loop of `process_post_queue` keeps, step by step.
use mixnet.Base.{
  ◌-◌, checked_sub_le, checked_sub_lt, ◌∙◌, lt-or-le, ℕ, suc, ◌+◌, ◌≡◌, refl, List, [], ◌∷◌, ◌++◌,
  Option, none, some, Result, ok, err, length, length-append, arith, AllOf, AllOf-append,
  Bool-cases, inl, inr, subst, ap,
}
use mixnet.Sessions.{RelSessionIndex, SessionStatus}
use mixnet.Mixnet.{PostErr}
use mixnet.RequestManager.{
  Config, Request, post_failed, World, RequestMetrics, RequestState, RequestManager, Run, len,
}
use mixnet.RequestManager.PostQueues.{index, set_index, total}
use mixnet.RequestManager.Queues.{AllOf-set_index, total-set_index, total-push}
use mixnet.RequestManager.Posting.{
  push_back, push_retry, keep_posted, posted, handle_result, visit, is_full_queue,
}
use mixnet.RequestManager.Placement.{
  Serves, Placed, IsPlaced, IsSorted, insert_retry-IsSorted, length-insert_retry,
}

module _ {R : Type 0} where
  -- What holds of a manager with the given status and configuration, and `n` requests.
  pub record IsValid (status : SessionStatus) (config : Config) (n : ℕ) (m : RequestManager R)
      : Type 0 where
    pub own_status : m.session_status ≡ status
    pub own_config : m.config ≡ config
    pub placed : IsPlaced status m.post_queues
    pub sorted : IsSorted m.retry_queue
    pub counted : len m ≡ n

  module _ (status : SessionStatus) (config : Config) where
    pub push_back-IsValid :
        (n : ℕ) (m : RequestManager R) (rel : Option RelSessionIndex) (st : RequestState R)
        → IsValid status config n m
        → Placed status rel st
        → IsValid status config (suc n) (push_back m rel st)
    unfolding push_back len
    push_back-IsValid n m rel st v p = record {
      own_status = v.own_status;
      own_config = v.own_config;
      placed =
          AllOf-set_index (Placed status) m.post_queues rel (index m.post_queues rel ++ st ∷ [])
            v.placed
            (AllOf-append (Placed status rel) (index m.post_queues rel) (st ∷ []) (v.placed rel)
              (p, tt));
      sorted = v.sorted;
      counted = omega (arith, total-push m.post_queues rel st, v.counted);
    }

    push_front-IsValid :
        (n : ℕ) (m : RequestManager R) (rel : Option RelSessionIndex) (st : RequestState R)
        → IsValid status config n m
        → Placed status rel st
        → IsValid status config
            (suc n)
            (record m { post_queues = set_index m.post_queues rel (st ∷ index m.post_queues rel) })
    unfolding len
    push_front-IsValid n m rel st v p = record {
      own_status = v.own_status;
      own_config = v.own_config;
      placed =
          AllOf-set_index (Placed status) m.post_queues rel (st ∷ index m.post_queues rel) v.placed
            (p, v.placed rel);
      sorted = v.sorted;
      counted =
          omega
            (arith, total-set_index m.post_queues rel (st ∷ index m.post_queues rel), v.counted);
    }

    -- Taking the first request of a queue.
    pub pop_front-IsValid :
        (n : ℕ) (m : RequestManager R) (rel : Option RelSessionIndex) (st : RequestState R)
        (queue : List (RequestState R))
        → IsValid status config n m
        → index m.post_queues rel ≡ st ∷ queue
        → (k : ℕ) × (n ≡ suc k)
          × Placed status rel st
          × IsValid status config k (record m { post_queues = set_index m.post_queues rel queue })
    unfolding len
    pop_front-IsValid n m rel st queue v e =
        let both = subst (AllOf (Placed status rel)) e (v.placed rel) in
        (
          total (set_index m.post_queues rel queue) + length m.retry_queue,
          omega (arith, total-set_index m.post_queues rel queue, ap length e, v.counted),
          both.0,
          record {
            own_status = v.own_status;
            own_config = v.own_config;
            placed = AllOf-set_index (Placed status) m.post_queues rel queue v.placed both.1;
            sorted = v.sorted;
            counted = refl;
          },
        )

    push_retry-IsValid :
        (n : ℕ) (m : RequestManager R) (st : RequestState R)
        → IsValid status config n m
        → IsValid status config (suc n) (push_retry m st)
    unfolding push_retry len
    push_retry-IsValid n m st v = record {
      own_status = v.own_status;
      own_config = v.own_config;
      placed = v.placed;
      sorted = insert_retry-IsSorted st m.retry_queue v.sorted;
      counted = omega (arith, length-insert_retry st m.retry_queue, v.counted);
    }

    keep_posted-IsValid :
        (n : ℕ) (m : RequestManager R) (i : RelSessionIndex) (st : RequestState R)
        → IsValid status config n m
        → Placed status (some i) st
        → IsValid status config (suc n) (keep_posted m i st)
    unfolding keep_posted
    keep_posted-IsValid n m i st v p = elim (lt-or-le st.posts_remaining 1) [
      | inl l ↦
          rw (checked_sub_lt st.posts_remaining 1 l, keep_posted) (push_retry-IsValid n m st v)
      | inr l ↦
          rw (checked_sub_le st.posts_remaining 1 l, keep_posted)
            (push_back-IsValid n m (some i) (record st { posts_remaining = st.posts_remaining - 1 })
              v p)
    ]

Placed-same :
    {R : Type 0} (status : SessionStatus) (rel : Option RelSessionIndex) (st st' : RequestState R)
    → st'.session_index ≡ st.session_index
    → Placed status rel st
    → Placed status rel st'
Placed-same status none st st' e p = e ∙ p
Placed-same status (some rel) st st' e (i, h, s) = (i, e ∙ h, s)

module _ {R : Type 0} (q : Request R) (w : World) (status : SessionStatus) (config : Config) where
  -- The requests of the manager and the outcomes are `n` together.
  abbrev pub Keeps : ℕ → Run R w → Type 0
  Keeps n run = (k : ℕ) × IsValid status config k run.manager × (k + length run.outcomes ≡ n)

  handle_result-Keeps :
      (n : ℕ) (rel : Option RelSessionIndex) (i : RelSessionIndex) (session_index : ℕ)
      (st : RequestState R) (r : Result RequestMetrics PostErr) (run : Run R w)
      → Keeps n run
      → Placed status rel st
      → Serves status i session_index
      → Keeps (suc n) (handle_result q w rel i session_index st r run).1
  unfolding handle_result posted
  handle_result-Keeps n rel i session_index st (ok metrics) run (k, v, e) p s = (
    suc k,
    keep_posted-IsValid status config k run.manager i _ v (session_index, refl, s),
    omega arith,
  )
  handle_result-Keeps n rel i session_index st (err x) run (k, v, e) p s =
      elim (Bool-cases (is_full_queue x)) [
        | inl full ↦
            rw (full, handle_result)
              (suc k, push_front-IsValid status config k run.manager rel st v p, omega arith)
        | inr other ↦
            rw (other, handle_result)
              (k, v, omega (arith, length-append run.outcomes (post_failed st.request x ∷ [])))
      ]

  -- A popped request is posted, put back or an outcome.
  pub visit-Keeps :
      (n : ℕ) (rel : Option RelSessionIndex) (i : RelSessionIndex) (session_index : ℕ)
      (st : RequestState R) (run : Run R w)
      → Keeps n run
      → Placed status rel st
      → Serves status i session_index
      → Keeps (suc n) (visit q w rel i session_index st run).1
  unfolding visit
  visit-Keeps n rel i session_index st run h p s =
      let res =
        w.post_request run.world session_index st.destination_index st.message_id
          (q.message_data st.request) (q.num_surbs st.request) in
      handle_result-Keeps n rel i session_index (record st { destination_index = res.1.0 }) res.0
        (record run { world = res.1.1 }) h (Placed-same status rel st _ refl p) s
