-- ===== src/RequestManager/Weights.antt =====
-- src/request_manager/mod.rs: the requests in the queues and the outcomes, apart from their order.
use mixnet.Base.{
  inr, inl, checked_sub, ltb, Option-cases, Bool-cases, ◌>>=◌, subst, ℕ, ◌+◌, ◌≡◌, refl, List, [],
  ◌∷◌, ◌++◌, Option, none, some, arith,
}
use mixnet.Sessions.{RelSessionIndex, current, prev}
use mixnet.RequestManager.{
  Outcome, post_failed, retry_limit_reached, World, RequestState, RequestManager, Run,
}
use mathlib.Core.Option.{none-ne-some, some-injective}
use mixnet.RequestManager.PostQueues.{PostQueues, index, set_index}
use mixnet.RequestManager.Posting.{insert_retry, push_back, push_retry, keep_posted}

-- The sum of the weights of requests: in a queue, in the post queues, in the outcomes, and in all.
-- The weight that is 1 for one request and 0 for others counts how often it is there.
module _ {R : Type 0} (f : R → ℕ) where
  abbrev pub weigh : List (RequestState R) → ℕ
  weigh [] = 0
  weigh (st ∷ queue) = f st.request + weigh queue

  abbrev pub weigh_queues : PostQueues (RequestState R) → ℕ
  weigh_queues queues =
      weigh queues.current_queue + weigh queues.prev_queue + weigh queues.default_queue

  abbrev pub weigh_outcome : Outcome R → ℕ
  weigh_outcome (post_failed request e) = f request
  weigh_outcome (retry_limit_reached request) = f request

  abbrev pub weigh_outcomes : List (Outcome R) → ℕ
  weigh_outcomes [] = 0
  weigh_outcomes (o ∷ outcomes) = weigh_outcome o + weigh_outcomes outcomes

  abbrev pub weigh_manager : RequestManager R → ℕ
  weigh_manager m = weigh_queues m.post_queues + weigh m.retry_queue

  abbrev pub weight : {w : World} → Run R w → ℕ
  weight run = weigh_manager run.manager + weigh_outcomes run.outcomes

  pub weigh-append : (xs ys : List (RequestState R)) → weigh (xs ++ ys) ≡ weigh xs + weigh ys
  weigh-append [] ys = omega arith
  weigh-append (st ∷ xs) ys = omega (arith, weigh-append xs ys)

  pub weigh_outcomes-append :
      (xs ys : List (Outcome R)) → weigh_outcomes (xs ++ ys) ≡ weigh_outcomes xs + weigh_outcomes ys
  weigh_outcomes-append [] ys = omega arith
  weigh_outcomes-append (o ∷ xs) ys = omega (arith, weigh_outcomes-append xs ys)

  pub weigh-set_index :
      (queues : PostQueues (RequestState R)) (i : Option RelSessionIndex)
      (xs : List (RequestState R))
      → weigh_queues (set_index queues i xs) + weigh (index queues i)
        ≡ weigh_queues queues + weigh xs
  unfolding index set_index
  weigh-set_index queues (some current) xs = omega arith
  weigh-set_index queues (some prev) xs = omega arith
  weigh-set_index queues none xs = omega arith

  pub weigh-insert_retry :
      (st : RequestState R) (queue : List (RequestState R))
      → weigh (insert_retry st queue) ≡ f st.request + weigh queue
  unfolding insert_retry
  weigh-insert_retry st [] = refl
  weigh-insert_retry st (first ∷ rest) =
      elim (Bool-cases (ltb first.retry_deadline st.retry_deadline)) [
        | inl later ↦ rw (later, insert_retry) (omega (arith, weigh-insert_retry st rest))
        | inr sooner ↦ rw (sooner, insert_retry) refl
      ]

  pub weigh-push_back :
      (m : RequestManager R) (i : Option RelSessionIndex) (st : RequestState R)
      → weigh_manager (push_back m i st) ≡ weigh_manager m + f st.request
  unfolding push_back
  weigh-push_back m i st = omega (
    arith,
    weigh-set_index m.post_queues i (index m.post_queues i ++ st ∷ []),
    weigh-append (index m.post_queues i) (st ∷ []),
  )

  pub weigh-keep_posted :
      (m : RequestManager R) (i : RelSessionIndex) (st : RequestState R)
      → weigh_manager (keep_posted m i st) ≡ weigh_manager m + f st.request
  unfolding keep_posted push_retry
  weigh-keep_posted m i st = elim (Option-cases (checked_sub st.posts_remaining 1)) [
    | inl over ↦ rw (over, keep_posted) (omega (arith, weigh-insert_retry st m.retry_queue))
    | inr (posts_remaining, more) ↦
        rw (more, keep_posted)
          (weigh-push_back m (some i) (record st { posts_remaining = posts_remaining }))
  ]

-- Every run that is returned has the weight.
module _ {R : Type 0} (f : R → ℕ) {w : World} where
  abbrev pub Weighs : ℕ → Option (Run R w) → Type 0
  Weighs n result = (run : Run R w) → result ≡ some run → weight f run ≡ n

  pub Weighs-some : (n : ℕ) (run : Run R w) → weight f run ≡ n → Weighs n (some run)
  Weighs-some n run e run' h = subst (λ r. weight f r ≡ n) (some-injective _ _ h) e

  pub Weighs-bind :
      {A : Type 0} (n : ℕ) (o : Option A) (g : A → Option (Run R w))
      → ((a : A) → o ≡ some a → Weighs n (g a))
      → Weighs n (o >>= g)
  Weighs-bind n none g h run e = absurd (none-ne-some run e)
  Weighs-bind n (some a) g h run e = h a refl run e
