-- ===== src/ReplyManager/Examples.antt =====
-- src/reply_manager.rs: runs of the reply manager, with numbers for SURBs. The world is the time, in
-- seconds of the clock, and the number of messages that were posted.
use mixnet.Base.{
  ℕ, suc, ◌≡◌, ◌≢◌, ◌≤◌, refl, List, [], ◌∷◌, none, some, Result, ok, err, lookup, arith,
  ℕ_discrete, ltb, if◌then◌else◌, ◌-◌, replicate,
}
use mathlib.Core.Option.{none-ne-some}
use mixnet.Scattered.{of_slice}
use mixnet.LinkedHashMap.Assoc.{replace}
use mixnet.LinkedHashMap.Front.{drop_front}
use mixnet.Fragment.{MessageId, message_id_size}
use mixnet.LinkedHashMap.{LinkedHashMap}
use mixnet.LinkedHashMap.Instance.{assoc_map}
use mixnet.Mixnet.{PostErr, too_many_fragments}
use mixnet.ReplyManager.{
  insert_state, complete_state, finish, maybe_evict, add_pending, repeat_reply, post_copies,
  new_reply, Config, World, RequestMessage, Reply, ReplyState, complete, ReplyManager, new, insert,
  complete_request, set_state, post_reply,
}
use mixnet.ReplyManager.Entries.{IsValid}
use mixnet.ReplyManager.Steps.{Call, inserts, abandons, completes, steps, steps-bounded}
use mixnet.ReplyManager.Repeats.{
  context_of, handling, reply_for, posted_at, insert-insert, complete-insert,
}

ids : Discrete MessageId
ids = hlevel ℕ_discrete

abbrev id_map : LinkedHashMap ids ReplyState
id_map = assoc_map ids ReplyState

abbrev post : ℕ × ℕ → List ℕ → Result (Unit {0}) PostErr × (List ℕ × (ℕ × ℕ))
post world [] = (err too_many_fragments, ([], world))
post (time, posts) (surb ∷ surbs) = (ok tt, (surbs, (time, suc posts)))

abbrev world : World ℕ
world = record {
  State = ℕ × ℕ;
  now = λ s. (s.0, s);
  random_id = λ s. (replicate message_id_size 9, s);
  post_reply = λ s surbs session id contents. post s surbs;
}

abbrev small : Config
small = record { capacity = 2; max_posts = 2; cooldown = 10 }

abbrev message : RequestMessage ℕ
message = record { session_index = 1; id = 5 ∷ []; contents = 7 ∷ []; surbs = 1 ∷ 2 ∷ 3 ∷ [] }

-- One SURB only.
abbrev repeat : RequestMessage ℕ
repeat = record message { surbs = 4 ∷ [] }

abbrev manager : ReplyManager id_map
manager = new id_map small

insert-insert_example :
    (insert id_map world manager message (0, 0)
      ≡ (some (context_of message, 7 ∷ []), (handling id_map world manager message, (0, 0))))
    × (insert id_map world (handling id_map world manager message) repeat (3, 0)
        ≡ (none, (handling id_map world manager message, (3, 0))))
unfolding new lookup
insert-insert_example =
    insert-insert id_map world manager message repeat (0, 0) (3, 0) (omega arith) refl refl

not_complete :
    (reply : Reply) (t : ℕ) → id_map.get manager.states (5 ∷ []) ≢ some (complete reply t)
unfolding new lookup
not_complete reply t h = none-ne-some (complete reply t) h

manager-IsValid : IsValid id_map manager
unfolding new
manager-IsValid = omega arith

-- A completion at time 1, and a repeat at time 20.
abbrev completed : ReplyManager id_map
completed = (complete_request id_map world manager (context_of message) (8 ∷ []) (1, 0)).0

complete-insert_example : insert id_map world completed repeat (20, 2) ≡ (
  none,
  if ltb
        (20 - posted_at id_map world small (context_of message) (8 ∷ []) (1, 0))
        completed.config.cooldown
      then (completed, (20, 2))
      else (
        set_state id_map completed (5 ∷ []) (complete (reply_for id_map world (8 ∷ []) (1, 0)) 20),
        post_reply world completed.config
            (reply_for id_map world (8 ∷ []) (1, 0))
            (context_of repeat)
            (20, 2),
      ),
)
unfolding new
complete-insert_example =
    complete-insert id_map world manager (context_of message) (8 ∷ []) (1, 0) repeat (20, 2)
      manager-IsValid (omega arith) not_complete refl

-- Three requests for a capacity of two, a completion and an abandon.
abbrev calls : List (Call ℕ)
calls =
    inserts message
    ∷ inserts (record message { id = 6 ∷ [] })
    ∷ inserts (record message { id = 7 ∷ [] })
    ∷ completes (context_of message) (8 ∷ [])
    ∷ inserts repeat
    ∷ abandons (record (context_of message) { message_id = 7 ∷ [] })
    ∷ []

steps-bounded_example : id_map.len (steps id_map world calls (manager, (0, 0))).0.states ≤ 2
steps-bounded_example = steps-bounded id_map world small calls (0, 0)

-- The reply goes out twice on completion, and once more with the one SURB of a late repeat.
abbrev posts : ℕ
posts =
    let done = complete_request id_map world manager (context_of message) (8 ∷ []) (1, 0) in
    let early = insert id_map world done.0 repeat (5, done.1.1) in
    (insert id_map world early.1.0 repeat (11, early.1.1.1)).1.1.1

posts_run : posts ≡ 3
unfolding insert insert_state lookup complete_request complete_state new finish maybe_evict
    set_state add_pending replace ids ℕ_discrete repeat_reply post_reply post_copies new_reply
    drop_front of_slice
posts_run = refl
