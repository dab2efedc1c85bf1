-- ===== src/Fragment/Assembler/Eviction.antt =====
-- src/core/fragment.rs: `maybe_evict`, called after each insertion.
use mixnet.Base.{
  ℕ, suc, ◌+◌, ◌≤◌, ◌<◌, ◌≡◌, refl, true, false, List, [], ◌∷◌, Option, none, some, subst, ap, sym,
  Bool-cases, inl, inr, length, checked_sub_le, arith,
}
use mixnet.Fragment.Check.{IsChecked}
use mixnet.Fragment.{Fragment, MessageId, num_fragments, message_id, fragment_index}
use mixnet.Fragment.Message.{IncompleteMessage}
use mixnet.Fragment.Assembler.{FragmentAssembler, need_eviction, maybe_evict}
use mixnet.LinkedHashMap.{LinkedHashMap}
use mixnet.LinkedHashMap.Assoc.{All, sum_values}

-- The number of filled slots.
abbrev pub count_some {ℓ} : {A : Type ℓ} → List (Option A) → ℕ
count_some [] = 0
count_some (none ∷ slots) = count_some slots
count_some (some _ ∷ slots) = suc (count_some slots)

-- A stored fragment passed the check, and belongs to the message and to its slot.
pub record Belongs (id : MessageId) (n i : ℕ) (fragment : Fragment) : Type 0 where
  pub checked : IsChecked fragment
  pub same_id : message_id fragment ≡ id
  pub same_num : num_fragments fragment ≡ n
  pub own_index : fragment_index fragment ≡ i

abbrev pub Fills : MessageId → ℕ → ℕ → Option Fragment → Type 0
Fills id n i none = Unit {0}
Fills id n i (some fragment) = Belongs id n i fragment

abbrev pub AllFill : MessageId → ℕ → ℕ → List (Option Fragment) → Type 0
AllFill id n i [] = Unit {0}
AllFill id n i (slot ∷ slots) = Fills id n i slot × AllFill id n (suc i) slots

-- What holds of each incomplete message.
pub record IsPartial (max_per_message : ℕ) (id : MessageId) (im : IncompleteMessage) : Type 0 where
  pub counted : im.num_received_fragments ≡ count_some im.fragments
  pub started : 0 < im.num_received_fragments
  pub unfinished : im.num_received_fragments < length im.fragments
  pub allowed : length im.fragments ≤ max_per_message
  pub filled : AllFill id (length im.fragments) 0 im.fragments

abbrev pub received : List (MessageId × IncompleteMessage) → ℕ
received = sum_values (λ im. im.num_received_fragments)

module _ {dec : Discrete MessageId} (hm : LinkedHashMap dec IncompleteMessage) where
  -- The invariant of the assembler, but for the limits.
  pub record IsCounted (fa : FragmentAssembler hm) : Type 0 where
    pub partial : All (IsPartial fa.max_fragments_per_message) (hm.entries fa.incomplete_messages)
    pub counted : fa.num_incomplete_fragments ≡ received (hm.entries fa.incomplete_messages)

  -- With the limits.
  pub record IsValid (fa : FragmentAssembler hm) : Type 0 where
    pub state : IsCounted fa
    pub few_messages : length (hm.entries fa.incomplete_messages) ≤ fa.max_incomplete_messages
    pub few_fragments : fa.num_incomplete_fragments ≤ fa.max_incomplete_fragments

  -- The limits never change.
  pub record SameLimits (fa fa' : FragmentAssembler hm) : Type 0 where
    pub messages : fa'.max_incomplete_messages ≡ fa.max_incomplete_messages
    pub fragments : fa'.max_incomplete_fragments ≡ fa.max_incomplete_fragments
    pub per_message : fa'.max_fragments_per_message ≡ fa.max_fragments_per_message

  length-le-received :
      (n : ℕ) (es : List (MessageId × IncompleteMessage))
      → All (IsPartial n) es
      → length es ≤ received es
  length-le-received n [] a = omega arith
  length-le-received n ((k, im) ∷ es) a = omega (arith, length-le-received n es a.1, a.0.started)

  -- One eviction is enough when the limits were passed by at most one.
  abbrev Evicted : FragmentAssembler hm → Option (FragmentAssembler hm) → Type 0
  Evicted fa r = (fa' : FragmentAssembler hm) × (r ≡ some fa') × IsValid fa' × SameLimits fa fa'

  module _ (fa : FragmentAssembler hm) (v : IsCounted fa) where
    evict_front :
        (e : MessageId × IncompleteMessage) (es : List (MessageId × IncompleteMessage))
        → length (hm.entries fa.incomplete_messages) ≤ fa.max_incomplete_messages + 1
        → fa.num_incomplete_fragments ≤ fa.max_incomplete_fragments + 1
        → need_eviction hm fa ≡ true
        → hm.entries fa.incomplete_messages ≡ e ∷ es
        → Evicted fa (maybe_evict hm fa)
    unfolding maybe_evict
    evict_front (k, im) es hl hf need h =
        let (m', popped, rest) = hm.pop_front_cons fa.incomplete_messages (k, im) es h in
        let a = subst (All (IsPartial fa.max_fragments_per_message)) h v.partial in
        let counts = ap received h in
        rw
          (
            need,
            popped,
            checked_sub_le fa.num_incomplete_fragments im.num_received_fragments
                (omega (arith, v.counted, counts)),
          )
          (
            _,
            refl,
            record {
              state = record {
                partial = subst (All (IsPartial fa.max_fragments_per_message)) (sym rest) a.1;
                counted = rw rest (omega (arith, v.counted, counts));
              };
              few_messages = omega (arith, ap length rest, ap length h);
              few_fragments = omega (arith, a.0.started);
            },
            record { messages = refl; fragments = refl; per_message = refl },
          )

    within_limits :
        need_eviction hm fa ≡ false
        → (length (hm.entries fa.incomplete_messages) ≤ fa.max_incomplete_messages)
          × (fa.num_incomplete_fragments ≤ fa.max_incomplete_fragments)
    unfolding need_eviction
    within_limits h = ground (arith, hm.len_lem fa.incomplete_messages)

    evict_empty : hm.entries fa.incomplete_messages ≡ [] → need_eviction hm fa ≡ false
    unfolding need_eviction
    evict_empty h =
        ground
          (arith, hm.len_lem fa.incomplete_messages, v.counted, ap (length {0}) h, ap received h)

    maybe_evict_cases :
        (es : List (MessageId × IncompleteMessage))
        → hm.entries fa.incomplete_messages ≡ es
        → length (hm.entries fa.incomplete_messages) ≤ fa.max_incomplete_messages + 1
        → fa.num_incomplete_fragments ≤ fa.max_incomplete_fragments + 1
        → need_eviction hm fa ≡ true
        → Evicted fa (maybe_evict hm fa)
    maybe_evict_cases [] h hl hf need = absurd (cc (evict_empty h))
    maybe_evict_cases (e ∷ es) h hl hf need = evict_front e es hl hf need h

    pub maybe_evict-IsValid :
        length (hm.entries fa.incomplete_messages) ≤ fa.max_incomplete_messages + 1
        → fa.num_incomplete_fragments ≤ fa.max_incomplete_fragments + 1
        → Evicted fa (maybe_evict hm fa)
    unfolding maybe_evict
    maybe_evict-IsValid hl hf = elim (Bool-cases (need_eviction hm fa)) [
      | inl need ↦ maybe_evict_cases _ refl hl hf need
      | inr fine ↦
          let (l, f) = within_limits fine in
          rw fine (
            fa,
            refl,
            record { state = v; few_messages = l; few_fragments = f },
            record { messages = refl; fragments = refl; per_message = refl },
          )
    ]
