-- ===== src/RequestManager/PostQueues.antt =====
-- src/request_manager/post_queues.rs: the three queues of requests to post, with their fronts first.
use mixnet.Base.{ℕ, ◌+◌, List, [], Option, none, some, length}
use mixnet.Sessions.{RelSessionIndex, current, prev}

pub record PostQueues (T : Type 0) : Type 0 where
  pub current_queue : List T
  pub prev_queue : List T
  pub default_queue : List T

module _ {T : Type 0} where
  unfoldable pub new : PostQueues T
  new = record { current_queue = []; prev_queue = []; default_queue = [] }

  -- `post_queues[index]`.
  unfoldable pub index : PostQueues T → Option RelSessionIndex → List T
  index queues (some current) = queues.current_queue
  index queues (some prev) = queues.prev_queue
  index queues none = queues.default_queue

  -- `post_queues[index] = queue`.
  unfoldable pub set_index : PostQueues T → Option RelSessionIndex → List T → PostQueues T
  set_index queues (some current) queue = record queues { current_queue = queue }
  set_index queues (some prev) queue = record queues { prev_queue = queue }
  set_index queues none queue = record queues { default_queue = queue }

  -- The sum of the lengths that `iter` goes over.
  unfoldable pub total : PostQueues T → ℕ
  total queues =
      length queues.current_queue + length queues.prev_queue + length queues.default_queue
