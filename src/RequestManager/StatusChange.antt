-- ===== src/RequestManager/StatusChange.antt =====
-- src/request_manager/mod.rs: `update_session_status` as a whole.
use mixnet.Base.{
  ◌∙◌, tests, ℕ, ◌≡◌, refl, sym, subst, true, none, some, length, arith, inl, inr, AllOf,
  Bool-cases, ==_iff,
}
use mixnet.Sessions.{current, prev, SessionPhase, SessionStatus, rank}
use mixnet.Mixnet.{same_status}
use mixnet.RequestManager.{Config, Request, World, Run, len}
use mixnet.RequestManager.PostQueues.{index, total}
use mixnet.RequestManager.Updating.{move_queues, renew_from, set_status, update_session_status}
use mixnet.RequestManager.Placement.{Placed, IsPlaced}
use mixnet.RequestManager.Steps.{IsValid, Keeps}
use mixnet.RequestManager.Processing.{process_post_queues-Keeps}
use mixnet.RequestManager.Moves.{move_queues-IsMoved}
use mixnet.RequestManager.Moved.{move_queues-Placed, length-renew_from, renew_from-Placed}

rank-injective : (a b : SessionPhase) → rank a ≡ rank b → a ≡ b
rank-injective a b h = ground arith

status-path : (a b : SessionStatus) → a.current_index ≡ b.current_index → a.phase ≡ b.phase → a ≡ b
status-path a b c p = cc (c, p)

same_status_lem : (a b : SessionStatus) → same_status a b ≡ true → a ≡ b
unfolding same_status
same_status_lem a b h =
    let fields : (a.current_index ≡ b.current_index) × (rank a.phase ≡ rank b.phase) =
      grind (tests, ==_iff, same_status) in
    status-path a b fields.0 (rank-injective a.phase b.phase fields.1)

module _ {R : Type 0} (w : World) where
  set_status-IsPlaced :
      (new : SessionStatus) (run : Run R w)
      → IsPlaced run.manager.session_status run.manager.post_queues
      → IsPlaced new (set_status w new run).manager.post_queues
  unfolding set_status index
  set_status-IsPlaced new run h (some current) =
      (move_queues-Placed run.manager.session_status new run.manager.post_queues h).0
  set_status-IsPlaced new run h (some prev) =
      (move_queues-Placed run.manager.session_status new run.manager.post_queues h).1
  set_status-IsPlaced new run h none =
      let m = run.manager in
      let ((extra, grown), _) = move_queues-IsMoved m.session_status new m.post_queues in
      let kept = m.post_queues.default_queue in
      subst (λ xs. AllOf (Placed new none) (renew_from w m.created_at (length kept) xs run.world).0)
        (sym grown) (renew_from-Placed w m.created_at new kept extra run.world (h none))

  set_status-len :
      (new : SessionStatus) (run : Run R w) → len (set_status w new run).manager ≡ len run.manager
  unfolding set_status len total
  set_status-len new run =
      let m = run.manager in
      let moved = move_queues m.session_status new m.post_queues in
      omega (
        arith,
        length-renew_from w m.created_at (length m.post_queues.default_queue) moved.default_queue
            run.world,
        (move_queues-IsMoved m.session_status new m.post_queues).1,
      )

  set_status-IsValid :
      (config : Config) (n : ℕ) (new : SessionStatus) (run : Run R w)
      → IsValid run.manager.session_status config n run.manager
      → IsValid new config n (set_status w new run).manager
  unfolding set_status
  set_status-IsValid config n new run v = record {
    own_status = refl;
    own_config = v.own_config;
    placed = set_status-IsPlaced new run v.placed;
    sorted = v.sorted;
    counted = set_status-len new run ∙ v.counted;
  }

module _ {R : Type 0} (q : Request R) (w : World) (config : Config) (n : ℕ) where
  update_own :
      (run : Run R w)
      → Keeps q w run.manager.session_status config n run
      → (run' : Run R w) × (update_session_status q w run ≡ some run')
        × Keeps q w (w.session_status run.world) config n run'
  unfolding update_session_status set_status
  update_own run (k, v, e) =
      let new = w.session_status run.world in
      elim (Bool-cases (same_status run.manager.session_status new)) [
        | inl same ↦
            rw (same, update_session_status)
              (
                run,
                refl,
                subst (λ status. Keeps q w status config n run)
                    (same_status_lem run.manager.session_status new same) (k, v, e),
              )
        | inr other ↦
            rw (other, update_session_status)
              (process_post_queues-Keeps q w new config n (set_status w new run)
                (k, set_status-IsValid w config k new run v, e))
      ]

  -- An update of the session status of a valid manager ends without a panic, the requests and the
  -- outcomes are as many as before, and the manager is valid for the status of the core: it has
  -- this status, every request in the queue of a session was posted to it last, under the new
  -- indices, the new phase allows requests to it, and a request that lost its session is in the
  -- default queue and has none.
  pub update_session_status-Keeps :
      (status : SessionStatus) (run : Run R w)
      → Keeps q w status config n run
      → (run' : Run R w) × (update_session_status q w run ≡ some run')
        × Keeps q w (w.session_status run.world) config n run'
  update_session_status-Keeps status run k =
      update_own run (subst (λ status. Keeps q w status config n run) (sym k.1.own_status) k)
