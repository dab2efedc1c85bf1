-- ===== src/RequestManager/Attempts.antt =====
-- src/request_manager/mod.rs: `retry`, and `insert` and `pop_next_retry` over it.
use mixnet.Base.{
  ltb→lt, ap, not, ◌≤◌, ℕ, zero, suc, ◌+◌, ◌<◌, ◌≡◌, refl, true, List, [], ◌∷◌, Option, none, some,
  length, length-append, arith, inl, inr, Bool-cases, sym, subst,
}
use mixnet.Sessions.{
  rel_of_difference, RelSessionIndex, current, prev, SessionStatus, default_request_session,
}
use mixnet.RequestManager.{
  has_space, len, Config, Request, retry_limit_reached, World, RequestState, Run,
}
use mixnet.RequestManager.PostQueues.{total}
use mixnet.RequestManager.Posting.{push_back}
use mixnet.RequestManager.Retrying.{
  retry_front, queue_is_empty, process_pushed, session_post_queues_empty, enqueue, retry, insert,
  pop_next_retry,
}
use mixnet.RequestManager.Placement.{IndexAt, Placed, IsSorted}
use mixnet.RequestManager.Choice.{retry-budget}
use mixnet.RequestManager.Steps.{IsValid, push_back-IsValid, Keeps}
use mixnet.RequestManager.Processing.{process_post_queue-Keeps}

rel_of_difference-IndexAt :
    (n s c : ℕ) (i : RelSessionIndex)
    → n + s ≡ c
    → rel_of_difference (some n) ≡ some i
    → IndexAt c i s
unfolding rel_of_difference
rel_of_difference-IndexAt zero s c current e h = omega arith
rel_of_difference-IndexAt zero s c prev e h = ground arith
rel_of_difference-IndexAt (suc zero) s c current e h = ground arith
rel_of_difference-IndexAt (suc zero) s c prev e h = omega arith
rel_of_difference-IndexAt (suc (suc n)) s c i e h = ground arith

module _ {R : Type 0} (q : Request R) (w : World) (config : Config) (n : ℕ) where
  process_pushed-Keeps :
      (status : SessionStatus) (rel : Option RelSessionIndex) (run : Run R w)
      → Keeps q w status config n run
      → (run' : Run R w) × (process_pushed q w rel run ≡ some run') × Keeps q w status config n run'
  unfolding process_pushed
  process_pushed-Keeps status none run k =
      let (run₁, e₁, k₁) = process_post_queue-Keeps q w status config n none run k in
      let default = default_request_session run₁.manager.session_status.phase in
      let (run₂, e₂, k₂) = process_post_queue-Keeps q w status config n (some default) run₁ k₁ in
      (run₂, rw (e₁, process_pushed) e₂, k₂)
  process_pushed-Keeps status (some i) run k =
      process_post_queue-Keeps q w status config n (some i) run k

module _ {R : Type 0} (q : Request R) (w : World) (config : Config) (n : ℕ) where
  -- The queue of the given kind takes the request, and is processed if it was empty.
  enqueue-Keeps :
      (rel : Option RelSessionIndex) (st : RequestState R) (run : Run R w)
      → Keeps q w run.manager.session_status config n run
      → Placed run.manager.session_status rel st
      → (run' : Run R w) × (enqueue q w rel st run ≡ some run')
        × Keeps q w run.manager.session_status config (suc n) run'
  unfolding enqueue
  enqueue-Keeps rel st run (k, v, e) p =
      let status = run.manager.session_status in
      let run' : Run R w = record run { manager = push_back run.manager rel st } in
      let k' : Keeps q w status config (suc n) run' =
        (suc k, push_back-IsValid status config k run.manager rel st v p, omega arith) in
      elim (Bool-cases (session_post_queues_empty run.manager rel)) [
        | inl idle ↦ rw (idle, enqueue) (process_pushed-Keeps q w config (suc n) status rel run' k')
        | inr busy ↦ rw (busy, enqueue) (run', refl, k')
      ]

  -- `retry` for the manager's own status and configuration.
  retry_own :
      (st : RequestState R) (run : Run R w)
      → 0 < run.manager.config.num_attempts_per_destination
      → 0 < run.manager.config.num_posts_per_attempt
      → Keeps q w run.manager.session_status config n run
      → (run' : Run R w) × (retry q w st run ≡ some run')
        × Keeps q w run.manager.session_status config (suc n) run'
  retry_own st run h j (k, v, e) = elim (retry-budget q w st run h j) [
    | inl (spent, over) ↦ rw (over) (
      _,
      refl,
      (k, v, omega (arith, length-append run.outcomes (retry_limit_reached st.request ∷ []))),
    )
    | inr (rel, st', world', more, same, less, left, p) ↦
        rw (more) (enqueue-Keeps rel st' (record run { world = world' }) (k, v, e) p)
  ]

module _ {R : Type 0} (q : Request R) (w : World) (status : SessionStatus) (config : Config)
    (n : ℕ) where
  pub retry-Keeps :
      (st : RequestState R) (run : Run R w)
      → 0 < config.num_attempts_per_destination
      → 0 < config.num_posts_per_attempt
      → Keeps q w status config n run
      → (run' : Run R w) × (retry q w st run ≡ some run') × Keeps q w status config (suc n) run'
  retry-Keeps st run h j k =
      subst
        (λ status.
          Keeps q w status config n run
          → (run' : Run R w) × (retry q w st run ≡ some run')
            × Keeps q w status config (suc n) run')
        k.1.own_status
        (retry_own q w config n st run
          (subst (λ config. 0 < config.num_attempts_per_destination) (sym k.1.own_config) h)
          (subst (λ config. 0 < config.num_posts_per_attempt) (sym k.1.own_config) j))
        k

  pub insert-Keeps :
      (request : R) (run : Run R w)
      → 0 < config.num_attempts_per_destination
      → 0 < config.num_posts_per_attempt
      → Keeps q w status config n run
      → (run' : Run R w) × (insert q w request run ≡ some run')
        × Keeps q w status config (suc n) run'
  unfolding insert
  insert-Keeps request run h j k = retry-Keeps _ run h j k

  -- The manager without its first request to retry.
  abbrev pub popped_retry : List (RequestState R) → Run R w → Run R w
  popped_retry rest run = record run {
    manager = record (run.manager) { retry_queue = rest; next_retry_deadline_changed = true };
  }

  popped_retry-Keeps :
      (st : RequestState R) (rest : List (RequestState R)) (run : Run R w)
      → run.manager.retry_queue ≡ st ∷ rest
      → Keeps q w status config n run
      → (n' : ℕ) × (suc n' ≡ n) × Keeps q w status config n' (popped_retry rest run)
  unfolding len
  popped_retry-Keeps st rest run waiting (k, v, e) =
      let k' = total run.manager.post_queues + length rest in
      (
        k' + length run.outcomes,
        omega (arith, v.counted, ap length waiting),
        (
          k',
          record {
            own_status = v.own_status;
            own_config = v.own_config;
            placed = v.placed;
            sorted = (subst IsSorted waiting v.sorted).1;
            counted = refl;
          },
          refl,
        ),
      )

module _ {R : Type 0} (q : Request R) (w : World) (status : SessionStatus) (config : Config)
    (n : ℕ) where
  retry_front-Keeps :
      (queue : List (RequestState R)) (run : Run R w)
      → run.manager.retry_queue ≡ queue
      → 0 < config.num_attempts_per_destination
      → 0 < config.num_posts_per_attempt
      → Keeps q w status config n run
      → (run' : Run R w) × (retry_front q w queue run ≡ some (not (queue_is_empty queue), run'))
        × Keeps q w status config n run'
  unfolding retry_front queue_is_empty
  retry_front-Keeps [] run e h j k = (run, refl, k)
  retry_front-Keeps (st ∷ rest) run e h j k =
      let (n', less, k') = popped_retry-Keeps q w status config n st rest run e k in
      let (run', done, k₂) =
        retry-Keeps q w status config n' st (popped_retry q w status config n rest run) h j k' in
      rw (done, retry_front) (run', refl, subst (λ n. Keeps q w status config n run') less k₂)

  pub pop_next_retry-Keeps :
      (run : Run R w)
      → 0 < config.num_attempts_per_destination
      → 0 < config.num_posts_per_attempt
      → Keeps q w status config n run
      → (run' : Run R w) × (pop_next_retry q w run
          ≡ some (not (queue_is_empty run.manager.retry_queue), run'))
        × Keeps q w status config n run'
  unfolding pop_next_retry
  pop_next_retry-Keeps run h j k = retry_front-Keeps run.manager.retry_queue run refl h j k

module _ {R : Type 0} (q : Request R) (w : World) (status : SessionStatus) (config : Config)
    (n : ℕ) where
  -- An insertion into a valid manager that has space, whose configuration allows an attempt and a
  -- post, ends without a panic. If there were no outcomes, the requests and the outcomes are then
  -- one more than the requests before, and the manager is valid and within its capacity.
  pub insert-bounded :
      (request : R) (run : Run R w)
      → 0 < config.num_attempts_per_destination
      → 0 < config.num_posts_per_attempt
      → IsValid status config n run.manager
      → run.outcomes ≡ []
      → has_space run.manager ≡ true
      → (run' : Run R w) × (k : ℕ) × (insert q w request run ≡ some run')
        × IsValid status config k run'.manager
        × (k + length run'.outcomes ≡ suc n)
        × (k ≤ config.capacity)
  unfolding has_space
  insert-bounded request run h j v e space =
      let (run', done, (k, v', sum)) =
        insert-Keeps q w status config n request run h j (n, v, omega (arith, ap length e)) in
      let below : len run.manager < config.capacity =
        subst (λ config. len run.manager < config.capacity) v.own_config (ltb→lt _ _ space) in
      (run', k, done, v', sum, omega (arith, v.counted))
