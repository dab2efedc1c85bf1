-- ===== src/ReplyManager/Steps.antt =====
-- src/reply_manager.rs: sequences of operations on a reply manager.
use mixnet.Base.{
  ◌^◌, min, ltb, ℕ, suc, ◌+◌, ◌-◌, ◌≤◌, ◌≡◌, ◌∙◌, refl, ap, sym, List, [], ◌∷◌, Option, none, some,
  length, length-append, arith, inl, inr, Bool-cases,
}
use mixnet.Fragment.{MessageId}
use mixnet.LinkedHashMap.Assoc.{length-replace, length-remove}
use mixnet.LinkedHashMap.{LinkedHashMap}
use mixnet.ReplyManager.{
  Config, World, RequestMessage, ReplyContext, ReplyState, pending, complete, ReplyManager, new,
  maybe_evict, set_state, add_pending, abandon_state, abandon, repeat_reply, insert_state, insert,
  finish, complete_state, complete_request,
}
use mixnet.ReplyManager.Entries.{entries_of, maybe_evict-IsValid, config-maybe_evict}

module _ {dec : Discrete MessageId} (hm : LinkedHashMap dec ReplyState) (config : Config) where
  -- The manager has the configuration, and at most so many requests more than its capacity.
  abbrev pub Within : ℕ → ReplyManager hm → Type 0
  Within n m = (m.config ≡ config) × (length (entries_of hm m) ≤ config.capacity + n)

  maybe_evict-Within : (m : ReplyManager hm) → Within 1 m → Within 0 (maybe_evict hm m)
  maybe_evict-Within m (c, h) =
      let capacity = ap (λ config. config.capacity) c in
      let fits = maybe_evict-IsValid hm m (omega (arith, capacity)) in
      let c' = config-maybe_evict hm m ∙ c in
      (c', omega (arith, fits, ap (λ config. config.capacity) c'))

  set_state-Within :
      (n : ℕ) (m : ReplyManager hm) (id : MessageId) (state : ReplyState)
      → Within n m
      → Within n (set_state hm m id state)
  unfolding set_state
  set_state-Within n m id state (c, h) = (
    c,
    omega (
      arith,
      ap length (hm.entries-set_value m.states id state),
      length-replace dec id state (entries_of hm m),
    ),
  )

  add_pending-Within :
      (n : ℕ) (m : ReplyManager hm) (id : MessageId)
      → hm.get m.states id ≡ none
      → Within n m
      → Within (suc n) (add_pending hm m id)
  unfolding add_pending
  add_pending-Within n m id e (c, h) = (
    c,
    omega (
      arith,
      ap length (hm.entries-insert m.states id pending (sym (hm.get_lem m.states id) ∙ e)),
      length-append (entries_of hm m) ((id, pending) ∷ []),
    ),
  )

  abandon_state-Within :
      (m : ReplyManager hm) (id : MessageId) (o : Option ReplyState)
      → hm.get m.states id ≡ o
      → Within 0 m
      → Within 0 (abandon_state hm m id o)
  unfolding abandon_state
  abandon_state-Within m id none e b = b
  abandon_state-Within m id (some pending) e (c, v) = (
    c,
    omega (
      arith,
      ap length (hm.entries-remove_entry m.states id),
      length-remove dec id pending (entries_of hm m) (sym (hm.get_lem m.states id) ∙ e),
    ),
  )
  abandon_state-Within m id (some (complete reply last_post)) e b = b

  module _ {Surb : Type 0} (w : World Surb) where
    insert_state-Within :
        (m : ReplyManager hm) (ctx : ReplyContext Surb) (contents : List ℕ) (world : w.State)
        (o : Option ReplyState)
        → hm.get m.states ctx.message_id ≡ o
        → Within 0 m
        → Within 0 (insert_state hm w m ctx contents world o).1.0
    unfolding insert_state repeat_reply
    insert_state-Within m ctx contents world none e b =
        maybe_evict-Within (add_pending hm m ctx.message_id)
          (add_pending-Within 0 m ctx.message_id e b)
    insert_state-Within m ctx contents world (some pending) e b = b
    insert_state-Within m ctx contents world (some (complete reply last_post)) e b =
        elim (Bool-cases (ltb ((w.now world).0 - last_post) m.config.cooldown)) [
          | inl soon ↦ rw (soon, repeat_reply) b
          | inr late ↦ rw (late, repeat_reply) (set_state-Within 0 m ctx.message_id _ b)
        ]

    finish-Within :
        (m : ReplyManager hm) (ctx : ReplyContext Surb) (contents : List ℕ) (world : w.State)
        → Within 1 m
        → Within 0 (finish hm w m ctx contents world).0
    unfolding finish
    finish-Within m ctx contents world b =
        maybe_evict-Within _ (set_state-Within 1 m ctx.message_id _ b)

    complete_state-Within :
        (m : ReplyManager hm) (ctx : ReplyContext Surb) (contents : List ℕ) (world : w.State)
        (o : Option ReplyState)
        → hm.get m.states ctx.message_id ≡ o
        → Within 0 m
        → Within 0 (complete_state hm w m ctx contents world o).0
    unfolding complete_state
    complete_state-Within m ctx contents world none e b =
        finish-Within (add_pending hm m ctx.message_id) ctx contents world
          (add_pending-Within 0 m ctx.message_id e b)
    complete_state-Within m ctx contents world (some pending) e (c, v) =
        finish-Within m ctx contents world (c, omega (arith, v))
    complete_state-Within m ctx contents world (some (complete reply last_post)) e b = b

-- The calls of the user of a reply manager.
pub data Call (Surb : Type 0) : Type 0 where
  inserts : RequestMessage Surb → Call Surb
  abandons : ReplyContext Surb → Call Surb
  completes : ReplyContext Surb → List ℕ → Call Surb

module _ {dec : Discrete MessageId} (hm : LinkedHashMap dec ReplyState) {Surb : Type 0}
    (w : World Surb) where
  unfoldable pub step : Call Surb → ReplyManager hm × w.State → ReplyManager hm × w.State
  step (inserts message) (m, world) = (insert hm w m message world).1
  step (abandons ctx) (m, world) = (abandon hm m ctx, world)
  step (completes ctx contents) (m, world) = complete_request hm w m ctx contents world

  unfoldable pub steps : List (Call Surb) → ReplyManager hm × w.State → ReplyManager hm × w.State
  steps [] run = run
  steps (call ∷ calls) run = steps calls (step call run)

  step-Within :
      (config : Config) (call : Call Surb) (run : ReplyManager hm × w.State)
      → Within hm config 0 run.0
      → Within hm config 0 (step call run).0
  unfolding step insert abandon complete_request
  step-Within config (inserts message) (m, world) b =
      insert_state-Within hm config w m _ message.contents world _ refl b
  step-Within config (abandons ctx) (m, world) b =
      abandon_state-Within hm config m ctx.message_id _ refl b
  step-Within config (completes ctx contents) (m, world) b =
      complete_state-Within hm config w m ctx contents world _ refl b

  steps-Within :
      (config : Config) (calls : List (Call Surb)) (run : ReplyManager hm × w.State)
      → Within hm config 0 run.0
      → Within hm config 0 (steps calls run).0
  unfolding steps
  steps-Within config [] run b = b
  steps-Within config (call ∷ calls) run b =
      steps-Within config calls (step call run) (step-Within config call run b)

  -- A reply manager never remembers more requests than its capacity, whatever sequence of calls it
  -- gets after its creation.
  pub steps-bounded :
      (config : Config) (calls : List (Call Surb)) (world : w.State)
      → hm.len (steps calls (new hm config, world)).0.states ≤ config.capacity
  unfolding new
  steps-bounded config calls world =
      let empty : Within hm config 0 (new hm config) = (
        refl,
        omega
            (arith, ap length (hm.entries-with_capacity (min (config.capacity + 1) (2 ^ 64 - 1)))),
      ) in
      let m = (steps calls (new hm config, world)).0 in
      omega (arith, hm.len_lem m.states, (steps-Within config calls (new hm config, world) empty).1)
