-- ===== src/RequestManager.antt =====
-- src/request_manager/mod.rs and config.rs: the state of the request manager, and what it takes from
-- the mixnet core and the requests.
pub mod PostQueues
pub mod Posting
pub mod Retrying
pub mod Updating
pub mod Queues
pub mod Placement
pub mod Steps
pub mod Loop
pub mod Processing
pub mod Choice
pub mod Attempts
pub mod Moves
pub mod Moved
pub mod StatusChange
pub mod Removal
pub mod Weights
pub mod Kept
mod Examples
use mixnet.Base.{
  ℕ, ◌+◌, ◌*◌, ◌%◌, ◌^◌, ◌<◌, Bool, false, List, [], Option, none, some, Result, ltb, length,
}
use mixnet.Sphinx.{MixnodeIndex}
use mixnet.Scattered.{Scattered}
use mixnet.Fragment.{MessageId}
use mixnet.Sessions.{SessionStatus, cover_to_current}
use mixnet.Mixnet.{PostErr}

pub record Config : Type 0 where
  pub capacity : ℕ
  pub num_destinations : ℕ
  pub num_attempts_per_destination : ℕ
  pub num_posts_per_attempt : ℕ

-- `Config::default`.
unfoldable pub default_config : Config
default_config = record {
  capacity = 20;
  num_destinations = 3;
  num_attempts_per_destination = 2;
  num_posts_per_attempt = 2;
}

-- src/core/mod.rs: `RequestMetrics`. A duration is a number, of nanoseconds.
pub record RequestMetrics : Type 0 where
  pub num_hops : ℕ
  pub per_hop_net_delay : ℕ
  pub forwarding_delay : ℕ
  pub authored_packet_queue_delay : ℕ

unfoldable pub estimate_rtt : RequestMetrics → ℕ → ℕ
estimate_rtt metrics handling_delay =
    let net_delay = metrics.per_hop_net_delay * (metrics.num_hops % 2 ^ 32) in
    metrics.forwarding_delay + metrics.authored_packet_queue_delay + net_delay + handling_delay

-- The trait `Request`, for a fixed context. Its two handlers consume the request, and are recorded
-- as outcomes.
pub record Request (R : Type 0) : Type 0 where
  pub message_data : R → Scattered ℕ
  pub num_surbs : R → ℕ
  pub handling_delay : R → MessageId → ℕ

pub data Outcome (R : Type 0) : Type 0 where
  post_failed : R → PostErr → Outcome R
  retry_limit_reached : R → Outcome R

-- What the manager calls: the mixnet core, the clock and the random generator.
pub record World : Type 1 where
  pub State : Type 0
  pub session_status : State → SessionStatus
  -- `Instant::now()`
  pub now : State → ℕ × State
  -- a message id from `fill_bytes`
  pub random_id : State → MessageId × State
  -- `Mixnet::post_request`: the answer, the destination index and the next state
  pub post_request :
      State
      → ℕ
      → Option MixnodeIndex
      → MessageId
      → Scattered ℕ
      → ℕ
      → Result RequestMetrics PostErr × (Option MixnodeIndex × State)

pub record RequestState (R : Type 0) : Type 0 where
  pub request : R
  pub destinations_remaining : ℕ
  pub attempts_remaining : ℕ
  pub posts_remaining : ℕ
  pub message_id : MessageId
  pub session_index : Option ℕ
  pub destination_index : Option MixnodeIndex
  pub retry_deadline : ℕ

pub record RequestManager (R : Type 0) : Type 0 where
  pub config : Config
  pub created_at : ℕ
  pub session_status : SessionStatus
  pub post_queues : PostQueues.PostQueues (RequestState R)
  pub retry_queue : List (RequestState R)
  pub next_retry_deadline_changed : Bool

module _ {R : Type 0} where
  unfoldable pub new : Config → ℕ → RequestManager R
  unfolding PostQueues.new
  new config now = record {
    config = config;
    created_at = now;
    session_status = record { current_index = 0; phase = cover_to_current };
    post_queues = PostQueues.new;
    retry_queue = [];
    next_retry_deadline_changed = false;
  }

  -- The number of requests in the manager.
  unfoldable pub len : RequestManager R → ℕ
  unfolding PostQueues.total
  len m = PostQueues.total m.post_queues + length m.retry_queue

  unfoldable pub has_space : RequestManager R → Bool
  unfolding len
  has_space m = ltb (len m) m.config.capacity

  -- `RequestState::new_destination`, with the random message id.
  unfoldable pub new_destination : RequestState R → MessageId → ℕ → RequestState R
  new_destination st id past = record st {
    message_id = id;
    session_index = none;
    destination_index = none;
    retry_deadline = past;
  }

-- A manager with the world around it, and the outcomes so far.
pub record Run (R : Type 0) (w : World) : Type 0 where
  pub manager : RequestManager R
  pub world : w.State
  pub outcomes : List (Outcome R)
