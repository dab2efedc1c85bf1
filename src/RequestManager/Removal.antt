-- ===== src/RequestManager/Removal.antt =====
-- src/request_manager/mod.rs: what `remove` finds and leaves.
use mixnet.Base.{
  ◌||◌, Dec-cases, ℕ, suc, ◌+◌, ◌≡◌, ◌≢◌, ◌⊎◌, refl, ap, List, [], ◌∷◌, Option, none, some, length,
  arith, inl, inr, AllOf,
}
use mixnet.Fragment.{MessageId}
use mixnet.Sessions.{RelSessionIndex, current, prev, SessionStatus}
use mixnet.RequestManager.{Config, RequestState, RequestManager, len}
use mixnet.RequestManager.PostQueues.{index, set_index, total}
use mixnet.RequestManager.Queues.{AllOf-set_index, total-set_index}
use mixnet.RequestManager.Updating.{take_id, remove_posting, remove_retrying, remove, id_is_first}
use mixnet.RequestManager.Placement.{Placed, AllFrom, IsSorted}
use mixnet.RequestManager.Steps.{IsValid}

-- The second list is the first without one place of `x`.
pub data Without {A : Type 0} (x : A) : List A → List A → Type 0 where
  here : {xs : List A} → Without x (x ∷ xs) xs
  there : {y : A} {xs ys : List A} → Without x xs ys → Without x (y ∷ xs) (y ∷ ys)

module _ {A : Type 0} {x : A} where
  length-Without : {xs ys : List A} → Without x xs ys → length xs ≡ suc (length ys)
  length-Without here = refl
  length-Without (there w) = ap suc (length-Without w)

  AllOf-Without : (P : A → Type 0) {xs ys : List A} → Without x xs ys → AllOf P xs → AllOf P ys
  AllOf-Without P here h = h.1
  AllOf-Without P (there w) h = (h.0, AllOf-Without P w h.1)

module _ {R : Type 0} {st : RequestState R} where
  AllFrom-Without :
      (d : ℕ) {xs ys : List (RequestState R)} → Without st xs ys → AllFrom d xs → AllFrom d ys
  AllFrom-Without d here h = h.1
  AllFrom-Without d (there w) h = (h.0, AllFrom-Without d w h.1)

  IsSorted-Without : {xs ys : List (RequestState R)} → Without st xs ys → IsSorted xs → IsSorted ys
  IsSorted-Without here h = h.1
  IsSorted-Without (there {y = y} w) h =
      (AllFrom-Without y.retry_deadline w h.0, IsSorted-Without w h.1)

module _ {R : Type 0} (dec : Discrete MessageId) (id : MessageId) where
  abbrev pub Lacks : List (RequestState R) → Type 0
  Lacks = AllOf (λ st. st.message_id ≢ id)

  take_id-Without :
      (queue : List (RequestState R))
      → ((take_id dec id queue ≡ none) × Lacks queue)
        ⊎ ((st : RequestState R) × (others : List (RequestState R)) × (take_id dec id queue
              ≡ some (st, others))
            × (st.message_id ≡ id)
            × Without st queue others)
  unfolding take_id
  take_id-Without [] = inl (refl, tt)
  take_id-Without (st ∷ queue) = elim (Dec-cases (dec st.message_id id)) [
    | inl (same, e) ↦ rw (e, take_id) (inr (st, queue, refl, same, here))
    | inr (other, e) ↦ elim (take_id-Without queue) [
      | inl (missing, lacks) ↦ rw (e, take_id, missing, take_id) (inl (refl, (other, lacks)))
      | inr (found, others, taken, same, w) ↦
          rw (e, take_id, taken, take_id) (inr (found, st ∷ others, refl, same, there w))
    ]
  ]

  -- The request and the manager that a removal from a queue to post gives.
  remove_posting-Without :
      (m : RequestManager R) (indices : List (Option RelSessionIndex))
      → ((remove_posting dec id m indices ≡ none)
          × AllOf (λ rel. Lacks (index m.post_queues rel)) indices)
        ⊎ ((rel : Option RelSessionIndex) × (st : RequestState R) × (others : List (RequestState R))
            × (remove_posting dec id m indices
                ≡ some (st.request, record m { post_queues = set_index m.post_queues rel others }))
            × (st.message_id ≡ id)
            × Without st (index m.post_queues rel) others)
  unfolding remove_posting
  remove_posting-Without m [] = inl (refl, tt)
  remove_posting-Without m (rel ∷ indices) = elim (take_id-Without (index m.post_queues rel)) [
    | inr (st, others, taken, same, w) ↦
        rw (taken, remove_posting) (inr (rel, st, others, refl, same, w))
    | inl (missing, lacks) ↦ elim (remove_posting-Without m indices) [
      | inl (nowhere, all) ↦ rw (missing, remove_posting) (inl (nowhere, (lacks, all)))
      | inr found ↦ rw (missing, remove_posting) (inr found)
    ]
  ]

  remove_retrying-Without :
      (m : RequestManager R)
      → ((remove_retrying dec id m ≡ none) × Lacks m.retry_queue)
        ⊎ ((st : RequestState R) × (others : List (RequestState R)) × (remove_retrying dec id m
              ≡ some (
                st.request,
                record m {
                  retry_queue = others;
                  next_retry_deadline_changed =
                      m.next_retry_deadline_changed || id_is_first dec id m.retry_queue;
                },
              ))
            × (st.message_id ≡ id)
            × Without st m.retry_queue others)
  unfolding remove_retrying
  remove_retrying-Without m = elim (take_id-Without m.retry_queue) [
    | inl (missing, lacks) ↦ inl (rw (missing, remove_retrying) refl, lacks)
    | inr (st, others, taken, same, w) ↦ inr (st, others, rw (taken, remove_retrying) refl, same, w)
  ]

  -- No request of the manager has the id.
  abbrev pub LacksAll : RequestManager R → Type 0
  LacksAll m =
      ((rel : Option RelSessionIndex) → Lacks (index m.post_queues rel)) × Lacks m.retry_queue

  -- The second manager is the first without one place of the request in one of its queues. The flag
  -- for the next retry is set if the place was the first of the retry queue.
  abbrev pub Loses : RequestState R → RequestManager R → RequestManager R → Type 0
  Loses st m m' =
      ((rel : Option RelSessionIndex) × (others : List (RequestState R)) × Without st
          (index m.post_queues rel) others
        × (m' ≡ record m { post_queues = set_index m.post_queues rel others }))
      ⊎ ((others : List (RequestState R)) × Without st m.retry_queue others
          × (m' ≡ record m {
            retry_queue = others;
            next_retry_deadline_changed =
                m.next_retry_deadline_changed || id_is_first dec id m.retry_queue;
          }))

  -- A request with the id is returned and has gone from its queue, and nothing else.
  abbrev pub Taken : SessionStatus → Config → ℕ → RequestManager R → Type 0
  Taken status config n m =
      (st : RequestState R) × (m' : RequestManager R) × (n' : ℕ) × (remove dec id m
        ≡ some (st.request, m'))
      × (st.message_id ≡ id)
      × Loses st m m'
      × (suc n' ≡ n)
      × IsValid status config n' m'

  Taken-posting :
      (status : SessionStatus) (config : Config) (n : ℕ) (m : RequestManager R)
      (rel : Option RelSessionIndex) (st : RequestState R) (others : List (RequestState R))
      → IsValid status config n m
      → Without st (index m.post_queues rel) others
      → (n' : ℕ) × (suc n' ≡ n)
        × IsValid status config n' (record m { post_queues = set_index m.post_queues rel others })
  unfolding len
  Taken-posting status config n m rel st others v w = (
    total (set_index m.post_queues rel others) + length m.retry_queue,
    omega (arith, total-set_index m.post_queues rel others, length-Without w, v.counted),
    record {
      own_status = v.own_status;
      own_config = v.own_config;
      placed =
          AllOf-set_index (Placed status) m.post_queues rel others v.placed
            (AllOf-Without (Placed status rel) w (v.placed rel));
      sorted = v.sorted;
      counted = refl;
    },
  )

  index-Lacks :
      (m : RequestManager R)
      → AllOf (λ rel. Lacks (index m.post_queues rel)) (some current ∷ some prev ∷ none ∷ [])
      → (rel : Option RelSessionIndex) → Lacks (index m.post_queues rel)
  index-Lacks m h (some current) = h.0
  index-Lacks m h (some prev) = h.1.0
  index-Lacks m h none = h.1.1.0

  -- In a valid manager, a removal by message id either finds nothing, and then no request in any
  -- queue has the id, or it returns the request of a state that has this id and that is in one of
  -- the queues. The manager that it leaves is the one before without that state in that queue, with
  -- the flag for the next retry set if it was the first to retry, and is valid, with one request
  -- less.
  pub remove-IsValid :
      (status : SessionStatus) (config : Config) (n : ℕ) (m : RequestManager R)
      → IsValid status config n m
      → ((remove dec id m ≡ none) × LacksAll m) ⊎ Taken status config n m
  unfolding remove len
  remove-IsValid status config n m v =
      elim (remove_posting-Without m (some current ∷ some prev ∷ none ∷ [])) [
        | inr (rel, st, others, taken, same, w) ↦
            let (n', less, v') = Taken-posting status config n m rel st others v w in
            inr (st, _, n', rw (taken, remove) refl, same, inl (rel, others, w, refl), less, v')
        | inl (missing, lacks) ↦ elim (remove_retrying-Without m) [
          | inl (nowhere, lacks') ↦
              inl (rw (missing, remove) nowhere, (index-Lacks m lacks, lacks'))
          | inr (st, others, taken, same, w) ↦
              let m' : RequestManager R = record m {
                retry_queue = others;
                next_retry_deadline_changed =
                    m.next_retry_deadline_changed || id_is_first dec id m.retry_queue;
              } in
              inr (
                st,
                m',
                total m.post_queues + length others,
                rw (missing, remove) taken,
                same,
                inr (others, w, refl),
                omega (arith, length-Without w, v.counted),
                record {
                  own_status = v.own_status;
                  own_config = v.own_config;
                  placed = v.placed;
                  sorted = IsSorted-Without w v.sorted;
                  counted = refl;
                },
              )
        ]
      ]
