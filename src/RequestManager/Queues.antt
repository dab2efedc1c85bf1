-- ===== src/RequestManager/Queues.antt =====
-- src/request_manager/post_queues.rs: reading, writing and counting the post queues.
use mixnet.Base.{
  suc, ◌+◌, ◌≡◌, refl, List, [], ◌∷◌, ◌++◌, Option, none, some, length, length-append, arith, AllOf,
}
use mixnet.Sessions.{RelSessionIndex, current, prev}
use mixnet.RequestManager.PostQueues.{PostQueues, index, set_index, total}
use mixnet.RequestManager.{RequestState}
use mixnet.RequestManager.Posting.{turns}

module _ {T : Type 0} where
  pub index-set_index :
      (queues : PostQueues T) (i : Option RelSessionIndex) (xs : List T)
      → index (set_index queues i xs) i ≡ xs
  unfolding index set_index
  index-set_index queues (some current) xs = refl
  index-set_index queues (some prev) xs = refl
  index-set_index queues none xs = refl

  -- A write keeps what holds of the other queues.
  pub AllOf-set_index :
      (P : Option RelSessionIndex → T → Type 0) (queues : PostQueues T) (i : Option RelSessionIndex)
      (xs : List T)
      → ((j : Option RelSessionIndex) → AllOf (P j) (index queues j))
      → AllOf (P i) xs
      → (j : Option RelSessionIndex) → AllOf (P j) (index (set_index queues i xs) j)
  unfolding index set_index
  AllOf-set_index P queues (some current) xs h a (some current) = a
  AllOf-set_index P queues (some current) xs h a (some prev) = h (some prev)
  AllOf-set_index P queues (some current) xs h a none = h none
  AllOf-set_index P queues (some prev) xs h a (some current) = h (some current)
  AllOf-set_index P queues (some prev) xs h a (some prev) = a
  AllOf-set_index P queues (some prev) xs h a none = h none
  AllOf-set_index P queues none xs h a (some current) = h (some current)
  AllOf-set_index P queues none xs h a (some prev) = h (some prev)
  AllOf-set_index P queues none xs h a none = a

  pub total-set_index :
      (queues : PostQueues T) (i : Option RelSessionIndex) (xs : List T)
      → total (set_index queues i xs) + length (index queues i) ≡ total queues + length xs
  unfolding index set_index total
  total-set_index queues (some current) xs = omega arith
  total-set_index queues (some prev) xs = omega arith
  total-set_index queues none xs = omega arith

  pub total-push :
      (queues : PostQueues T) (i : Option RelSessionIndex) (x : T)
      → total (set_index queues i (index queues i ++ x ∷ [])) ≡ suc (total queues)
  total-push queues i x = omega (
    arith,
    total-set_index queues i (index queues i ++ x ∷ []),
    length-append (index queues i) (x ∷ []),
  )

module _ {R : Type 0} where
  pub turns-append :
      (xs : List (RequestState R)) (st : RequestState R)
      → turns (xs ++ st ∷ []) ≡ turns xs + suc st.posts_remaining
  unfolding turns
  turns-append [] st = omega arith
  turns-append (x ∷ xs) st = omega (arith, turns-append xs st)
