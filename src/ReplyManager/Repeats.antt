-- ===== src/ReplyManager/Repeats.antt =====
-- src/reply_manager.rs: what happens to repeats of a request.
use mixnet.Base.{
  ℕ, ◌-◌, ◌≤◌, ◌<◌, ◌≡◌, ◌≢◌, ◌∙◌, refl, ap, sym, subst, List, [], ◌∷◌, ◌++◌, Option, none, some,
  lookup, length, arith, ltb, if◌then◌else◌,
}
use mixnet.Fragment.{MessageId}
use mixnet.LinkedHashMap.Assoc.{replace, length-replace, lookup-replace_self, lookup-remove_self}
use mixnet.LinkedHashMap.{LinkedHashMap}
use mixnet.ReplyManager.{
  Config, World, RequestMessage, Reply, ReplyContext, ReplyState, pending, complete, ReplyManager,
  maybe_evict, set_state, add_pending, abandon_state, abandon, repeat_reply, insert_state, insert,
  finish, complete_state, complete_request, post_reply, new_reply,
}
use mixnet.ReplyManager.Entries.{
  entries_of, IsValid, entries-maybe_evict, trim, trim_fits, lookup-trim_back, entries-add_pending,
  entries-set_state, entries-set_added,
}

-- The context of a reply to the message.
abbrev pub context_of : {Surb : Type 0} → RequestMessage Surb → ReplyContext Surb
context_of message = record {
  session_index = message.session_index;
  message_id = message.id;
  surbs = message.surbs;
}

module _ {dec : Discrete MessageId} (hm : LinkedHashMap dec ReplyState) where
  get_back :
      (m : ReplyManager hm) (es : List (MessageId × ReplyState)) (id : MessageId)
      (state : ReplyState)
      → 0 < m.config.capacity
      → lookup dec id es ≡ none
      → entries_of hm m ≡ es ++ (id, state) ∷ []
      → hm.get (maybe_evict hm m).states id ≡ some state
  get_back m es id state h fresh e =
      hm.get_lem (maybe_evict hm m).states id
      ∙ ap (lookup dec id) (entries-maybe_evict hm m ∙ ap (trim hm m.config.capacity) e)
      ∙ lookup-trim_back hm m.config.capacity es id state h fresh

  get-abandon :
      (m : ReplyManager hm) (id : MessageId)
      → hm.get m.states id ≡ some pending
      → hm.get (abandon_state hm m id (hm.get m.states id)).states id ≡ none
  unfolding abandon_state
  get-abandon m id h =
      rw (h, abandon_state, hm.get_lem, hm.entries-remove_entry m.states id)
        (lookup-remove_self dec id (entries_of hm m) (hm.distinct m.states))

  module _ {Surb : Type 0} (w : World Surb) where
    insert_lem :
        (m : ReplyManager hm) (message : RequestMessage Surb) (world : w.State)
        (o : Option ReplyState)
        → hm.get m.states message.id ≡ o
        → insert hm w m message world
          ≡ insert_state hm w m (context_of message) message.contents world o
    unfolding insert
    insert_lem m message world o h =
        ap (insert_state hm w m (context_of message) message.contents world) h

    -- The manager after an insertion of a new request.
    abbrev pub handling : ReplyManager hm → RequestMessage Surb → ReplyManager hm
    handling m message = maybe_evict hm (add_pending hm m message.id)

    get-handling :
        (m : ReplyManager hm) (message : RequestMessage Surb)
        → 0 < m.config.capacity
        → hm.get m.states message.id ≡ none
        → hm.get (handling m message).states message.id ≡ some pending
    unfolding add_pending
    get-handling m message h new =
        let fresh = sym (hm.get_lem m.states message.id) ∙ new in
        get_back (add_pending hm m message.id) (entries_of hm m) message.id pending h fresh
          (entries-add_pending hm m message.id fresh)

    -- The first insertion of a request, of which the manager has no entry, gives it to the caller with
    -- its context, if the capacity is not 0. If the next call to the manager is for a repeat with the
    -- same id, whatever its contents and the state of the world then, it is not given out, changes
    -- nothing and posts nothing. Calls in between are not covered: they may evict the entry.
    pub insert-insert :
        (m : ReplyManager hm) (message repeat : RequestMessage Surb) (world later : w.State)
        → 0 < m.config.capacity
        → hm.get m.states message.id ≡ none
        → repeat.id ≡ message.id
        → (insert hm w m message world
            ≡ (some (context_of message, message.contents), (handling m message, world)))
          × (insert hm w (handling m message) repeat later ≡ (none, (handling m message, later)))
    unfolding insert insert_state
    insert-insert m message repeat world later h new same =
        (rw (new, insert_state) refl, rw (same, get-handling m message h new, insert_state) refl)

    -- If the capacity is not 0 and the manager has no entry of the request, then after its insertion and
    -- an abandon a repeat is given to the caller, with its own SURBs and contents.
    pub insert-abandon :
        (m : ReplyManager hm) (message repeat : RequestMessage Surb) (world later : w.State)
        → 0 < m.config.capacity
        → hm.get m.states message.id ≡ none
        → repeat.id ≡ message.id
        → (insert hm w
            (abandon hm (insert hm w m message world).1.0 (context_of message))
            repeat
            later).0
          ≡ some (context_of repeat, repeat.contents)
    unfolding insert insert_state abandon
    insert-abandon m message repeat world later h new same =
        let first : (insert hm w m message world).1.0 ≡ handling m message =
          ap (λ r. r.1.0) (insert_lem m message world none new) in
        let gone =
          ap (hm.get (abandon hm (handling m message) (context_of message)).states) same
          ∙ get-abandon (handling m message) message.id (get-handling m message h new) in
        subst
          (λ m'.
            (insert hm w (abandon hm m' (context_of message)) repeat later).0
            ≡ some (context_of repeat, repeat.contents))
          (sym first)
          (ap (λ r. r.0)
            (insert_lem (abandon hm (handling m message) (context_of message)) repeat later none
              gone))

    -- The reply that is made of the contents, and the time after it was posted.
    abbrev pub reply_for : List ℕ → w.State → Reply
    reply_for contents world = (new_reply w contents world).0

    abbrev pub posted_at : Config → ReplyContext Surb → List ℕ → w.State → ℕ
    posted_at config ctx contents world =
        (w.now
          (post_reply w config (reply_for contents world) ctx (new_reply w contents world).1)).0

    get-complete_new :
        (m : ReplyManager hm) (ctx : ReplyContext Surb) (contents : List ℕ) (world : w.State)
        → 0 < m.config.capacity
        → hm.get m.states ctx.message_id ≡ none
        → hm.get
            (finish hm w (add_pending hm m ctx.message_id) ctx contents world).0.states
            ctx.message_id
          ≡ some (complete (reply_for contents world) (posted_at m.config ctx contents world))
    unfolding finish set_state add_pending
    get-complete_new m ctx contents world h new =
        let fresh = sym (hm.get_lem m.states ctx.message_id) ∙ new in
        let state = complete (reply_for contents world) (posted_at m.config ctx contents world) in
        get_back (set_state hm (add_pending hm m ctx.message_id) ctx.message_id state)
          (entries_of hm m) ctx.message_id state h fresh
          (entries-set_added hm m ctx.message_id state fresh)

    get-complete_pending :
        (m : ReplyManager hm) (ctx : ReplyContext Surb) (contents : List ℕ) (world : w.State)
        → IsValid hm m
        → hm.get m.states ctx.message_id ≡ some pending
        → hm.get (finish hm w m ctx contents world).0.states ctx.message_id
          ≡ some (complete (reply_for contents world) (posted_at m.config ctx contents world))
    unfolding finish set_state
    get-complete_pending m ctx contents world v there =
        let id = ctx.message_id in
        let state = complete (reply_for contents world) (posted_at m.config ctx contents world) in
        let m' = set_state hm m id state in
        let shown : entries_of hm m' ≡ replace dec id state (entries_of hm m) =
          entries-set_state hm m id state in
        let fits : length (entries_of hm m') ≤ m'.config.capacity =
          omega (arith, ap length shown, length-replace dec id state (entries_of hm m)) in
        hm.get_lem (maybe_evict hm m').states id
        ∙ ap (lookup dec id) (
            entries-maybe_evict hm m'
            ∙ trim_fits hm m'.config.capacity (entries_of hm m') fits
            ∙ shown)
        ∙ lookup-replace_self dec id pending state (entries_of hm m)
            (sym (hm.get_lem m.states id) ∙ there)

    get-complete_state :
        (m : ReplyManager hm) (ctx : ReplyContext Surb) (contents : List ℕ) (world : w.State)
        (o : Option ReplyState)
        → IsValid hm m
        → 0 < m.config.capacity
        → hm.get m.states ctx.message_id ≡ o
        → ((reply : Reply) (t : ℕ) → o ≢ some (complete reply t))
        → hm.get (complete_state hm w m ctx contents world o).0.states ctx.message_id
          ≡ some (complete (reply_for contents world) (posted_at m.config ctx contents world))
    unfolding complete_state
    get-complete_state m ctx contents world none v h e n = get-complete_new m ctx contents world h e
    get-complete_state m ctx contents world (some pending) v h e n =
        get-complete_pending m ctx contents world v e
    get-complete_state m ctx contents world (some (complete reply t)) v h e n =
        absurd (n reply t refl)

    -- Let the manager be valid, with a capacity that is not 0, and the request not be completed. Then
    -- after its completion, a repeat is not given out. Within the cooldown after the posts of the
    -- reply it changes nothing but that the clock was read; later the same reply is posted again, with
    -- the SURBs of the repeat, and the time is noted.
    pub complete-insert :
        (m : ReplyManager hm) (ctx : ReplyContext Surb) (contents : List ℕ) (world : w.State)
        (repeat : RequestMessage Surb) (later : w.State)
        → IsValid hm m
        → 0 < m.config.capacity
        → ((reply : Reply) (t : ℕ) → hm.get m.states ctx.message_id ≢ some (complete reply t))
        → repeat.id ≡ ctx.message_id
        → let m' = (complete_request hm w m ctx contents world).0 in
          let reply = reply_for contents world in
          let clock = w.now later in
          insert hm w m' repeat later ≡ (
            none,
            if ltb (clock.0 - posted_at m.config ctx contents world) m'.config.cooldown
                then (m', clock.1)
                else (
                  set_state hm m' repeat.id (complete reply clock.0),
                  post_reply w m'.config reply (context_of repeat) clock.1,
                ),
          )
    unfolding insert insert_state repeat_reply complete_request
    complete-insert m ctx contents world repeat later v h n same =
        let done = get-complete_state m ctx contents world _ v h refl n in
        let m' = (complete_request hm w m ctx contents world).0 in
        insert_lem m' repeat later _ (ap (hm.get m'.states) same ∙ done)
