-- ===== src/RequestManager/Choice.antt =====
-- src/request_manager/mod.rs: what `retry` chooses, the next attempt and the queue for it.
use mixnet.Base.{
  ◌∙◌, [], ◌∷◌, ◌++◌, ◌≤◌, ◌⊎◌, ℕ, zero, suc, ◌+◌, ◌-◌, ◌*◌, ◌<◌, ◌≡◌, refl, true, Option, none,
  some, arith, inl, inr, lt-or-le, Bool-cases, Option-cases, checked_sub_lt, checked_sub_le, sym,
}
use mathlib.Core.Bool.{true≢false}
use mathlib.Core.Option.{none-ne-some}
use mixnet.Sessions.{
  rel_of_difference, RelSessionIndex, current, prev, SessionStatus, from_session_index,
}
use mixnet.RequestManager.{
  new_destination, Config, World, RequestState, RequestManager, Request, Run, retry_limit_reached,
}
use mixnet.RequestManager.Retrying.{renew, next_attempt, choose_queue, allows, retry, enqueue}
use mixnet.RequestManager.Placement.{IndexAt, Placed}

rel_of_difference-IndexAt :
    (n s c : ℕ) (i : RelSessionIndex)
    → n + s ≡ c
    → rel_of_difference (some n) ≡ some i
    → IndexAt c i s
unfolding rel_of_difference
rel_of_difference-IndexAt zero s c current e h = omega arith
rel_of_difference-IndexAt zero s c prev e h = ground arith
rel_of_difference-IndexAt (suc zero) s c current e h = ground arith
rel_of_difference-IndexAt (suc zero) s c prev e h = omega arith
rel_of_difference-IndexAt (suc (suc n)) s c i e h = ground arith

no_budget : (d a b : ℕ) → d < 1 → b < 1 → d * a + b ≡ 0
no_budget zero a b h k = grind arith
no_budget (suc d) a b h k = absurd (omega arith)

less_budget : (d a b : ℕ) → 1 ≤ d → 0 < a → b < 1 → suc ((d - 1) * a + (a - 1)) ≡ d * a + b
less_budget zero a b h j k = absurd (omega arith)
less_budget (suc d) a b h j k = grind arith

-- The session with this absolute index.
from_session_index-IndexAt :
    (s c : ℕ) (i : RelSessionIndex) → from_session_index s c ≡ some i → IndexAt c i s
unfolding from_session_index
from_session_index-IndexAt s c i h = elim (lt-or-le c s) [
  | inl l ↦ absurd (none-ne-some i (rw (checked_sub_lt c s l) at h))
  | inr l ↦ rel_of_difference-IndexAt (c - s) s c i (omega arith) (rw (checked_sub_le c s l) at h)
]

module _ {R : Type 0} (w : World) where
  allows-Placed :
      (status : SessionStatus) (rel : Option RelSessionIndex) (st : RequestState R) (s : ℕ)
      → st.session_index ≡ some s
      → from_session_index s status.current_index ≡ rel
      → allows status rel ≡ true
      → Placed status rel st
  unfolding allows
  allows-Placed status none st s own e h = absurd (true≢false (sym h))
  allows-Placed status (some i) st s own e h =
      (s, own, (from_session_index-IndexAt s status.current_index i e, h))

  -- A request goes to the queue of its session, or to the default queue without one.
  pub choose_queue-Placed :
      (m : RequestManager R) (st : RequestState R) (world : w.State)
      → let chosen = choose_queue w m st world in Placed m.session_status chosen.0 chosen.1.0
  unfolding choose_queue renew new_destination
  choose_queue-Placed m st world = elim (Option-cases st.session_index) [
    | inl missing ↦ rw (missing, choose_queue) missing
    | inr (s, own) ↦
        let rel = from_session_index s m.session_status.current_index in
        elim (Bool-cases (allows m.session_status rel)) [
          | inl allowed ↦
              rw (own, choose_queue, allowed, choose_queue)
                (allows-Placed m.session_status rel st s own refl allowed)
          | inr refused ↦ rw (own, choose_queue, refused, choose_queue) refl
        ]
  ]

  -- The attempts that a request has left.
  abbrev pub budget : Config → RequestState R → ℕ
  budget config st =
      st.destinations_remaining * config.num_attempts_per_destination + st.attempts_remaining

  -- If a destination gets at least one attempt, then there is a next attempt exactly when any are
  -- left, over all destinations, and it leaves one attempt less.
  pub next_attempt-budget :
      (m : RequestManager R) (st : RequestState R) (world : w.State)
      → 0 < m.config.num_attempts_per_destination
      → ((next_attempt w m st world ≡ some none) × (budget m.config st ≡ 0))
        ⊎ ((next : RequestState R × w.State) × (next_attempt w m st world ≡ some (some next))
            × (suc (budget m.config next.0) ≡ budget m.config st)
            × (next.0.request ≡ st.request))
  unfolding next_attempt renew new_destination
  next_attempt-budget m st world h = elim (lt-or-le st.attempts_remaining 1) [
    | inr more ↦
        rw (checked_sub_le st.attempts_remaining 1 more, next_attempt)
          (inr (_, refl, omega arith, refl))
    | inl last ↦ elim (lt-or-le st.destinations_remaining 1) [
      | inl over ↦
          rw
            (
              checked_sub_lt st.attempts_remaining 1 last,
              next_attempt,
              checked_sub_lt st.destinations_remaining 1 over,
              next_attempt,
            )
            (inl (
              refl,
              (no_budget st.destinations_remaining m.config.num_attempts_per_destination
                  st.attempts_remaining over last),
            ))
      | inr other ↦
          rw
            (
              checked_sub_lt st.attempts_remaining 1 last,
              next_attempt,
              checked_sub_le st.destinations_remaining 1 other,
              next_attempt,
              checked_sub_le m.config.num_attempts_per_destination 1 h,
              next_attempt,
            )
            (inr (
              _,
              refl,
              (less_budget st.destinations_remaining m.config.num_attempts_per_destination
                  st.attempts_remaining other h last),
              refl,
            ))
    ]
  ]

  -- The choice of a queue leaves a request with what it has left.
  choose_queue_same :
      (m : RequestManager R) (st : RequestState R) (world : w.State)
      → let st' = (choose_queue w m st world).1.0 in
        (st'.request ≡ st.request)
        × (st'.posts_remaining ≡ st.posts_remaining)
        × (budget m.config st' ≡ budget m.config st)
  unfolding choose_queue renew new_destination
  choose_queue_same m st world = elim (Option-cases st.session_index) [
    | inl missing ↦ rw (missing, choose_queue) (refl, refl, refl)
    | inr (s, own) ↦
        let rel = from_session_index s m.session_status.current_index in
        elim (Bool-cases (allows m.session_status rel)) [
          | inl allowed ↦ rw (own, choose_queue, allowed, choose_queue) (refl, refl, refl)
          | inr refused ↦ rw (own, choose_queue, refused, choose_queue) (refl, refl, refl)
        ]
  ]

module _ {R : Type 0} (q : Request R) (w : World) where
  pub retry-budget :
      (st : RequestState R) (run : Run R w)
      → 0 < run.manager.config.num_attempts_per_destination
      → 0 < run.manager.config.num_posts_per_attempt
      → ((budget w run.manager.config st ≡ 0)
          × (retry q w st run
              ≡ some
                  (record run { outcomes = run.outcomes ++ retry_limit_reached st.request ∷ [] })))
        ⊎ ((rel : Option RelSessionIndex) × (st' : RequestState R) × (world' : w.State) × (retry q w
                st run
              ≡ enqueue q w rel st' (record run { world = world' }))
            × (st'.request ≡ st.request)
            × (suc (budget w run.manager.config st') ≡ budget w run.manager.config st)
            × (suc st'.posts_remaining ≡ run.manager.config.num_posts_per_attempt)
            × Placed run.manager.session_status rel st')
  unfolding retry
  retry-budget st run h j = elim (next_attempt-budget w run.manager st run.world h) [
    | inl (over, spent) ↦ inl (spent, rw (over, retry) refl)
    | inr (next, more, less, own) ↦
        let m = run.manager in
        let posts = m.config.num_posts_per_attempt in
        let st' : RequestState R = record (next.0) { posts_remaining = posts - 1 } in
        let chosen = choose_queue w m st' next.1 in
        let (request, left, same) = choose_queue_same w m st' next.1 in
        inr (
          chosen.0,
          chosen.1.0,
          chosen.1.1,
          rw (more, retry, checked_sub_le posts 1 j, retry) refl,
          request ∙ own,
          omega (arith, less, same),
          omega (arith, left),
          choose_queue-Placed w m st' next.1,
        )
  ]
