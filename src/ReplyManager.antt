-- ===== src/ReplyManager.antt =====
-- src/reply_manager.rs: the cache of replies, over the linked hash map of hashlink. SURBs are a type
-- parameter, and a duration or an instant is a number.
pub mod Entries
pub mod Steps
pub mod Repeats
mod Examples
use mixnet.Base.{
  ℕ, zero, suc, ◌+◌, ◌-◌, ◌*◌, ◌^◌, min, Bool, true, false, List, [], ◌∷◌, Option, none, some,
  Result, ok, err, ltb, if◌then◌else◌,
}
use mixnet.Fragment.{MessageId}
use mixnet.LinkedHashMap.Front.{drop_front}
use mixnet.LinkedHashMap.{LinkedHashMap}
use mixnet.Mixnet.{PostErr}
use mixnet.Scattered.{Scattered, of_slice}

-- Without the target of the log messages.
pub record Config : Type 0 where
  pub capacity : ℕ
  pub max_posts : ℕ
  pub cooldown : ℕ

-- A duration in nanoseconds.
unfoldable pub default_config : Config
default_config = record { capacity = 400; max_posts = 2; cooldown = 10 * 1000000000 }

-- src/core/mod.rs: `RequestMessage`.
pub record RequestMessage (Surb : Type 0) : Type 0 where
  pub session_index : ℕ
  pub id : MessageId
  pub contents : List ℕ
  pub surbs : List Surb

pub record Reply : Type 0 where
  pub message_id : MessageId
  pub contents : List ℕ

pub record ReplyContext (Surb : Type 0) : Type 0 where
  pub session_index : ℕ
  pub message_id : MessageId
  pub surbs : List Surb

pub data ReplyState : Type 0 where
  pending : ReplyState
  complete : Reply → ℕ → ReplyState

-- What the manager calls: the clock, the random generator and `Mixnet::post_reply`, with the SURBs
-- that are left after it.
pub record World (Surb : Type 0) : Type 1 where
  pub State : Type 0
  pub now : State → ℕ × State
  pub random_id : State → MessageId × State
  pub post_reply :
      State
      → List Surb
      → ℕ
      → MessageId
      → Scattered ℕ
      → Result (Unit {0}) PostErr × (List Surb × State)

module _ {Surb : Type 0} (w : World Surb) where
  -- `Reply::new`.
  unfoldable pub new_reply : List ℕ → w.State → Reply × w.State
  new_reply contents world =
      let id = w.random_id world in (record { message_id = id.0; contents = contents }, id.1)

  -- `ReplyContext::post_reply`, with the number of posts to go.
  unfoldable pub post_copies : ℕ → Reply → List Surb → ℕ → w.State → List Surb × w.State
  post_copies zero reply surbs session_index world = (surbs, world)
  post_copies (suc posts) reply surbs session_index world =
      let posted =
        w.post_reply world surbs session_index reply.message_id (of_slice reply.contents) in
      let rest = post_copies posts reply posted.1.0 session_index posted.1.1 in
      elim (posted.0) [ ok done ↦ rest | err e ↦ posted.1 ]

  unfoldable pub post_reply : Config → Reply → ReplyContext Surb → w.State → w.State
  post_reply config reply reply_context world =
      (post_copies config.max_posts reply reply_context.surbs reply_context.session_index world).1

module _ {dec : Discrete MessageId} (hm : LinkedHashMap dec ReplyState) where
  pub record ReplyManager : Type 0 where
    pub config : Config
    pub states : hm.Map

  -- `capacity.saturating_add(1)`.
  unfoldable pub new : Config → ReplyManager
  new config = record {
    config = config;
    states = hm.with_capacity (min (config.capacity + 1) (2 ^ 64 - 1));
  }

  unfoldable pub maybe_evict : ReplyManager → ReplyManager
  maybe_evict m =
      if ltb m.config.capacity (hm.len m.states)
      then record m { states = drop_front hm m.states }
      else m

  unfoldable pub set_state : ReplyManager → MessageId → ReplyState → ReplyManager
  set_state m id state = record m { states = hm.set_value m.states id state }

  unfoldable pub add_pending : ReplyManager → MessageId → ReplyManager
  add_pending m id = record m { states = hm.insert m.states id pending }

  unfoldable pub abandon_state : ReplyManager → MessageId → Option ReplyState → ReplyManager
  abandon_state m id none = m
  abandon_state m id (some pending) = record m { states = hm.remove_entry m.states id }
  abandon_state m id (some (complete reply last_post)) = m

  unfoldable pub abandon : {Surb : Type 0} → ReplyManager → ReplyContext Surb → ReplyManager
  abandon m reply_context =
      abandon_state m reply_context.message_id (hm.get m.states reply_context.message_id)

  module _ {Surb : Type 0} (w : World Surb) where
    -- A repeat of a request that was replied to: within the cooldown it is ignored.
    unfoldable pub repeat_reply :
        ReplyManager → ReplyContext Surb → Reply → ℕ → w.State → ReplyManager × w.State
    repeat_reply m reply_context reply last_post world =
        let clock = w.now world in
        if ltb (clock.0 - last_post) m.config.cooldown then (m, clock.1) else (
          set_state m reply_context.message_id (complete reply clock.0),
          post_reply w m.config reply reply_context clock.1,
        )

    -- The arms for the entry of the message id.
    unfoldable pub insert_state :
        ReplyManager
        → ReplyContext Surb
        → List ℕ
        → w.State
        → Option ReplyState
        → Option (ReplyContext Surb × List ℕ) × (ReplyManager × w.State)
    insert_state m reply_context contents world (some pending) = (none, (m, world))
    insert_state m reply_context contents world (some (complete reply last_post)) =
        (none, repeat_reply m reply_context reply last_post world)
    insert_state m reply_context contents world none = (
      some (reply_context, contents),
      (maybe_evict (add_pending m reply_context.message_id), world),
    )

    unfoldable pub insert :
        ReplyManager
        → RequestMessage Surb
        → w.State
        → Option (ReplyContext Surb × List ℕ) × (ReplyManager × w.State)
    insert m message world =
        insert_state m
          (record {
            session_index = message.session_index;
            message_id = message.id;
            surbs = message.surbs;
          })
          message.contents world (hm.get m.states message.id)

    -- The reply to a pending request is posted and kept.
    unfoldable pub finish :
        ReplyManager → ReplyContext Surb → List ℕ → w.State → ReplyManager × w.State
    finish m reply_context contents world =
        let made = new_reply w contents world in
        let clock = w.now (post_reply w m.config made.0 reply_context made.1) in
        (maybe_evict (set_state m reply_context.message_id (complete made.0 clock.0)), clock.1)

    unfoldable pub complete_state :
        ReplyManager
        → ReplyContext Surb
        → List ℕ
        → w.State
        → Option ReplyState
        → ReplyManager × w.State
    complete_state m reply_context contents world (some pending) =
        finish m reply_context contents world
    complete_state m reply_context contents world (some (complete reply last_post)) = (m, world)
    complete_state m reply_context contents world none =
        finish (add_pending m reply_context.message_id) reply_context contents world

    -- `complete`.
    unfoldable pub complete_request :
        ReplyManager → ReplyContext Surb → List ℕ → w.State → ReplyManager × w.State
    complete_request m reply_context contents world =
        complete_state m reply_context contents world (hm.get m.states reply_context.message_id)
