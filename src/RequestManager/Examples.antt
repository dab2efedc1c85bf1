-- ===== src/RequestManager/Examples.antt =====
-- src/request_manager/mod.rs: runs of the request manager, in a world that takes as many messages as
-- its state says.
use mixnet.Base.{
  ◌==◌, if◌then◌else◌, ℕ_discrete, ◌⊎◌, ◌≤◌, not, ◌+◌, ◌>>=◌, ℕ, zero, suc, ◌≡◌, refl, List, [],
  ◌∷◌, Option, none, some, Result, ok, err, length, replicate, arith,
}
use mixnet.Fragment.{MessageId, message_id_size}
use mixnet.Sessions.{
  rel_of_difference, from_session_index, allow_requests_and_replies, add_index,
  default_request_session, current, prev, SessionStatus, requests_to_current, cover_to_prev,
}
use mixnet.Mixnet.{PostErr, not_enough_space_in_queue}
use mixnet.Sphinx.{MixnodeIndex}
use mixnet.RequestManager.{
  default_config, Request, World, RequestState, RequestManager, Run, new, new_destination, len,
  has_space, RequestMetrics, estimate_rtt,
}
use mixnet.RequestManager.PostQueues.{index, set_index, total}
use mixnet.RequestManager.Posting.{
  posted, turns, visit, push_back, process_loop, goes_first, handle_result, insert_retry,
  keep_posted, push_retry, process_post_queue,
}
use mixnet.RequestManager.Retrying.{
  allows, process_pushed, renew, choose_queue, session_post_queues_empty, enqueue, retry,
  retry_front, queue_is_empty, insert, pop_next_retry, next_attempt,
}
use mixnet.RequestManager.Updating.{update_session_status, remove}
use mixnet.RequestManager.Placement.{IsPlaced}
use mixnet.RequestManager.Steps.{IsValid, Keeps}
use mixnet.RequestManager.Kept.{process_post_queue-Kept, pop_next_retry-Kept}
use mixnet.RequestManager.Weights.{weight}
use mixnet.RequestManager.Attempts.{insert-bounded}
use mixnet.RequestManager.StatusChange.{update_session_status-Keeps}
use mixnet.RequestManager.Removal.{Taken, LacksAll, remove-IsValid}

abbrev first_status : SessionStatus
first_status = record { current_index = 1; phase = requests_to_current }

abbrev metrics : RequestMetrics
metrics = record {
  num_hops = 4;
  per_hop_net_delay = 10;
  forwarding_delay = 20;
  authored_packet_queue_delay = 5;
}

abbrev post : ℕ → Result RequestMetrics PostErr × (Option MixnodeIndex × ℕ)
post zero = (err not_enough_space_in_queue, (none, zero))
post (suc n) = (ok metrics, (some 7, n))

abbrev world : World
world = record {
  State = ℕ;
  session_status = λ s. first_status;
  now = λ s. (100, s);
  random_id = λ s. (replicate message_id_size 9, s);
  post_request = λ s i d m message n. post s;
}

abbrev requests : Request ℕ
requests = record {
  message_data = λ r. record { len = 1; first_slice = r ∷ []; mid_slices = []; last_slice = [] };
  num_surbs = λ r. 1;
  handling_delay = λ r m. 30;
}

abbrev managed : RequestManager ℕ
managed = record (new default_config 0) { session_status = first_status }

abbrev start : Run ℕ world
start = record { manager = managed; world = 3; outcomes = [] }

-- The requests, those to retry, and the messages that the world still takes.
abbrev counts : Option (Run ℕ world) → Option (ℕ × ℕ × ℕ)
counts none = none
counts (some run) = some (len run.manager, length run.manager.retry_queue, run.world)

abbrev steps : List (Option (ℕ × ℕ × ℕ))
steps =
    let once = insert requests world 4 start in
    let twice = once >>= insert requests world 5 in
    let retried = twice >>= pop_next_retry requests world in
    counts once ∷ counts twice ∷ counts (retried >>= (λ r. some r.1)) ∷ []

-- Two posts, and the first request waits for its reply. The second gets one post only, and waits in
-- the current queue, where the first joins it for its next attempt.
steps_run : steps ≡ some (1, 1, 1) ∷ some (2, 1, 0) ∷ some (2, 0, 0) ∷ []
unfolding insert pop_next_retry retry_front retry next_attempt new default_config enqueue
    session_post_queues_empty choose_queue renew new_destination index default_request_session
    process_pushed process_post_queue push_back add_index process_loop set_index replicate
    goes_first handle_result insert_retry keep_posted posted push_retry turns visit allows
    queue_is_empty estimate_rtt allow_requests_and_replies from_session_index rel_of_difference len
    total
steps_run = refl

managed-IsPlaced : IsPlaced first_status managed.post_queues
unfolding new index
managed-IsPlaced none = tt
managed-IsPlaced (some current) = tt
managed-IsPlaced (some prev) = tt

managed-IsValid : IsValid first_status default_config 0 managed
unfolding len new
managed-IsValid = record {
  own_status = refl;
  own_config = refl;
  placed = managed-IsPlaced;
  sorted = tt;
  counted = refl;
}

insert-bounded_example :
    (run' : Run ℕ world) × (k : ℕ) × (insert requests world 4 start ≡ some run')
    × IsValid first_status default_config k run'.manager
    × (k + length run'.outcomes ≡ 1)
    × (k ≤ default_config.capacity)
unfolding has_space len new default_config
insert-bounded_example =
    insert-bounded requests world first_status default_config 0 4 start (omega arith) (omega arith)
      managed-IsValid refl refl

abbrev posted_state : RequestState ℕ
posted_state = record {
  request = 4;
  destinations_remaining = 2;
  attempts_remaining = 1;
  posts_remaining = 0;
  message_id = replicate message_id_size 9;
  session_index = some 1;
  destination_index = some 7;
  retry_deadline = 195;
}

abbrev queued_state : RequestState ℕ
queued_state = record posted_state { request = 5; posts_remaining = 1; retry_deadline = 200 }

-- One request to retry, and one in the current queue.
abbrev waiting : Run ℕ world
waiting = record start {
  manager = record managed {
    post_queues = record (managed.post_queues) { current_queue = queued_state ∷ [] };
    retry_queue = posted_state ∷ [];
  };
}

waiting-IsPlaced : IsPlaced first_status waiting.manager.post_queues
unfolding new index allow_requests_and_replies
waiting-IsPlaced none = tt
waiting-IsPlaced (some current) = ((1, refl, (refl, refl)), tt)
waiting-IsPlaced (some prev) = tt

waiting-IsValid : IsValid first_status default_config 2 waiting.manager
unfolding len new
waiting-IsValid = record {
  own_status = refl;
  own_config = refl;
  placed = waiting-IsPlaced;
  sorted = (tt, tt);
  counted = refl;
}

abbrev waiting-Keeps : Keeps requests world first_status default_config 2 waiting
waiting-Keeps = (2, waiting-IsValid, refl)

-- The weight that counts the request 4.
abbrev is_four : ℕ → ℕ
is_four r = if r == 4 then 1 else 0

pop_next_retry-Kept_example :
    (run' : Run ℕ world) × (pop_next_retry requests world waiting
      ≡ some (not (queue_is_empty waiting.manager.retry_queue), run'))
    × Keeps requests world first_status default_config 2 run'
    × (weight is_four run' ≡ weight is_four waiting)
unfolding default_config
pop_next_retry-Kept_example =
    pop_next_retry-Kept requests world first_status default_config 2 is_four waiting (omega arith)
      (omega arith) waiting-Keeps

process_post_queue-Kept_example :
    (run' : Run ℕ world) × (process_post_queue requests world (some current) waiting ≡ some run')
    × Keeps requests world first_status default_config 2 run'
    × (weight is_four run' ≡ weight is_four waiting)
process_post_queue-Kept_example =
    process_post_queue-Kept requests world first_status default_config 2 is_four (some current)
      waiting waiting-Keeps

-- The world after its session index has grown.
abbrev next_status : SessionStatus
next_status = record { current_index = 2; phase = cover_to_prev }

abbrev next_world : World
next_world = record world { session_status = λ s. next_status }

abbrev waiting_next : Run ℕ next_world
waiting_next = record { manager = waiting.manager; world = 3; outcomes = [] }

update_session_status-Keeps_example :
    (run' : Run ℕ next_world) × (update_session_status requests next_world waiting_next ≡ some run')
    × Keeps requests next_world next_status default_config 2 run'
update_session_status-Keeps_example =
    update_session_status-Keeps requests next_world default_config 2 first_status waiting_next
      (2, waiting-IsValid, refl)

ids : Discrete MessageId
ids = hlevel ℕ_discrete

abbrev some_id : MessageId
some_id = replicate message_id_size 9

remove-IsValid_example :
    ((remove ids some_id waiting.manager ≡ none) × LacksAll ids some_id waiting.manager)
    ⊎ Taken ids some_id first_status default_config 2 waiting.manager
remove-IsValid_example =
    remove-IsValid ids some_id first_status default_config 2 waiting.manager waiting-IsValid
