-- ===== src/RequestManager/Processing.antt =====
-- src/request_manager/mod.rs: `process_post_queue` and `process_post_queues` end without a panic, and
-- keep the number of requests.
use mixnet.Base.{
  checked_sub, zero, AllOf, [], arith, subst, checked_sub_le, false, ◌==◌, ◌&&◌, true, ℕ, suc, ◌≡◌,
  refl, Option, none, some, inl, inr, List-cases, Bool-cases,
}
use mathlib.Core.Bool.{true≢false}
use mixnet.Sessions.{
  default_request_session, add_index, allow_requests_and_replies, RelSessionIndex, current, prev,
  SessionStatus, SessionPhase, cover_to_current, requests_to_current, cover_to_prev,
  disconnect_from_prev,
}
use mixnet.RequestManager.{Config, Request, World, RequestState, Run}
use mixnet.RequestManager.PostQueues.{index}
use mixnet.RequestManager.Posting.{
  turns, unwrap_or, same_rel, process_loop, process_post_queue, process_post_queues,
}
use mixnet.RequestManager.Placement.{IndexAt, Placed}
use mixnet.RequestManager.Steps.{Keeps}
use mixnet.RequestManager.Loop.{process_loop-Keeps}

allow-default_request_session :
    (phase : SessionPhase) → allow_requests_and_replies phase (default_request_session phase) ≡ true
unfolding allow_requests_and_replies default_request_session
allow-default_request_session cover_to_current = refl
allow-default_request_session requests_to_current = refl
allow-default_request_session cover_to_prev = refl
allow-default_request_session disconnect_from_prev = refl

-- A session that exists has an absolute index.
add_index-IndexAt :
    (i : RelSessionIndex) (c : ℕ)
    → (same_rel i prev && c == 0) ≡ false
    → (s : ℕ) × (add_index i c ≡ some s) × IndexAt c i s
unfolding add_index
add_index-IndexAt current c h = (c, refl, refl)
add_index-IndexAt prev zero h = absurd (true≢false h)
add_index-IndexAt prev (suc c) h = (
  c,
  subst (λ x. checked_sub (suc c) 1 ≡ some x) (omega arith)
      (checked_sub_le (suc c) 1 (omega arith)),
  refl,
)

module _ {R : Type 0} (status : SessionStatus) where
  -- The session of a queue that is not empty allows requests.
  allow-Placed :
      (rel : Option RelSessionIndex) (st : RequestState R)
      → Placed status rel st
      → allow_requests_and_replies status.phase
          (unwrap_or rel (default_request_session status.phase))
        ≡ true
  allow-Placed none st p = allow-default_request_session status.phase
  allow-Placed (some i) st p = p.2.1

module _ {R : Type 0} (q : Request R) (w : World) (config : Config) (n : ℕ) where
  -- Nothing to post.
  process_loop_empty :
      (fuel : ℕ) (rel : Option RelSessionIndex) (i : RelSessionIndex) (session_index : ℕ)
      (run : Run R w)
      → index run.manager.post_queues rel ≡ []
      → process_loop q w (suc fuel) rel i session_index run ≡ some run
  unfolding process_loop
  process_loop_empty fuel rel i session_index run h = rw (h, process_loop) refl

  -- `process_post_queue` with the status read once.
  process_own :
      (rel : Option RelSessionIndex) (run : Run R w)
      → Keeps q w run.manager.session_status config n run
      → (run' : Run R w) × (process_post_queue q w rel run ≡ some run')
        × Keeps q w run.manager.session_status config n run'
  unfolding process_post_queue
  process_own rel run (k, v, e) =
      let status = run.manager.session_status in
      let i = unwrap_or rel (default_request_session status.phase) in
      let queue = index run.manager.post_queues rel in
      elim (Bool-cases (same_rel i prev && status.current_index == 0)) [
        | inl missing ↦ rw (missing, process_post_queue) (run, refl, (k, v, e))
        | inr exists ↦
            let (session_index, sum, at) = add_index-IndexAt i status.current_index exists in
            rw (exists, process_post_queue, sum, process_post_queue)
              (elim (List-cases queue) [
                | inl none_left ↦ (
                  run,
                  process_loop_empty (turns queue) rel i session_index run none_left,
                  (k, v, e),
                )
                | inr (st, rest, waiting) ↦
                    let p = (subst (AllOf (Placed status rel)) waiting (v.placed rel)).0 in
                    process_loop-Keeps q w status config n (suc (turns queue)) rel
                      (default_request_session status.phase) i session_index run refl
                      (at, allow-Placed status rel st p) (k, v, e) (omega arith)
              ])
      ]

module _ {R : Type 0} (q : Request R) (w : World) (status : SessionStatus) (config : Config)
    (n : ℕ) where
  pub process_post_queue-Keeps :
      (rel : Option RelSessionIndex) (run : Run R w)
      → Keeps q w status config n run
      → (run' : Run R w) × (process_post_queue q w rel run ≡ some run')
        × Keeps q w status config n run'
  process_post_queue-Keeps rel run k =
      subst
        (λ status.
          Keeps q w status config n run
          → (run' : Run R w) × (process_post_queue q w rel run ≡ some run')
            × Keeps q w status config n run')
        k.1.own_status (process_own q w config n rel run) k

  pub process_post_queues-Keeps :
      (run : Run R w)
      → Keeps q w status config n run
      → (run' : Run R w) × (process_post_queues q w run ≡ some run')
        × Keeps q w status config n run'
  unfolding process_post_queues
  process_post_queues-Keeps run k =
      let (run₁, e₁, k₁) = process_post_queue-Keeps none run k in
      let (run₂, e₂, k₂) = process_post_queue-Keeps (some current) run₁ k₁ in
      let (run₃, e₃, k₃) = process_post_queue-Keeps (some prev) run₂ k₂ in
      (run₃, rw (e₁, process_post_queues, e₂, process_post_queues) e₃, k₃)
