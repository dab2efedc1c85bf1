-- ===== src/Fragment/Assembler/Invariant.antt =====
-- src/core/fragment.rs: `FragmentAssembler::insert` never panics and keeps the counts and limits.
use mixnet.Base.{
  ℕ, ◌+◌, ◌≤◌, ◌≡◌, ◌≢◌, refl, [], ◌∷◌, none, some, min, eq-or-ne, lt-or-le, inl, inr, length,
  lookup, Option-cases, Result-cases, arith, ap, length-append, lt→ltb, le→not-ltb, eq→==,
  ne→not-==,
}
use mixnet.Fragment.{Fragment, MessageId, check_fragment, num_fragments, message_id, fragment_size}
use mixnet.Fragment.Check.{IsChecked, num_fragments-pos}
use mixnet.Fragment.Message.{GenericMessage, IncompleteMessage, from_fragments}
use mixnet.Fragment.Assembler.{
  FragmentAssembler, new, usize_max, insert, insert_checked, insert_vacant,
}
use mixnet.Fragment.Assembler.Eviction.{IsPartial, received, IsValid}
use mixnet.Fragment.Assembler.Slots.{insert_first, from_fragments_total}
use mixnet.LinkedHashMap.{LinkedHashMap}
use mixnet.LinkedHashMap.Assoc.{All-append, sum_values-append}
use mixnet.Fragment.Assembler.Occupied.{Returns, SameLimits-refl, settle, occupied-Returns}

module _ {dec : Discrete MessageId} (hm : LinkedHashMap dec IncompleteMessage) where
  module _ (fa : FragmentAssembler hm) (v : IsValid hm fa) (fragment : Fragment) where
    vacant-Returns :
        IsChecked fragment
        → num_fragments fragment ≤ fa.max_fragments_per_message
        → num_fragments fragment ≢ 1
        → lookup dec (message_id fragment) (hm.entries fa.incomplete_messages) ≡ none
        → Returns hm fa (insert_vacant hm fa (message_id fragment) fragment)
    unfolding insert_vacant
    vacant-Returns c few more h =
        let id = message_id fragment in
        let (im, e, l, k, s) = insert_first fragment c in
        let es = hm.entries fa.incomplete_messages in
        let back = hm.entries-insert fa.incomplete_messages id im h in
        let part : IsPartial fa.max_fragments_per_message id im = record {
          counted = s.counted;
          started = omega arith;
          unfinished = omega (arith, num_fragments-pos fragment);
          allowed = omega arith;
          filled = s.filled;
        } in
        rw e (
          settle hm fa v fragment (hm.insert fa.incomplete_messages id im)
            (record {
              partial = rw back (All-append _ es _ v.state.partial (part, tt));
              counted = omega (
                arith,
                ap received back,
                sum_values-append {K = MessageId}
                    (λ (m : IncompleteMessage). m.num_received_fragments) es ((id, im) ∷ []),
                v.state.counted,
              );
            })
            (omega (arith, ap length back, length-append es ((id, im) ∷ []), v.few_messages)))

    pub single-Returns :
        IsChecked fragment
        → (message : GenericMessage) × (from_fragments (fragment ∷ []) ≡ some message)
    single-Returns c =
        let (message, e, _) =
          from_fragments_total (message_id fragment) (num_fragments fragment) _ (fragment ∷ [])
            (record { checked = c; same_id = refl; same_num = refl; own_index = refl }, tt)
            (omega arith) in
        (message, e)

    checked-Returns : IsChecked fragment → Returns hm fa (insert_checked hm fa fragment)
    unfolding insert_checked
    checked-Returns c = elim (lt-or-le fa.max_fragments_per_message (num_fragments fragment)) [
      | inl l ↦ rw (lt→ltb _ _ l) (fa, none, refl, v, SameLimits-refl hm fa)
      | inr l ↦ rw (le→not-ltb _ _ l) (elim (eq-or-ne (num_fragments fragment) 1) [
        | inl one ↦
            let (message, e) = single-Returns c in
            rw (eq→== _ _ one, e) (fa, some message, refl, v, SameLimits-refl hm fa)
        | inr more ↦
            rw (ne→not-== _ _ more, hm.get_lem fa.incomplete_messages (message_id fragment))
              (elim (Option-cases
                (lookup dec (message_id fragment) (hm.entries fa.incomplete_messages))) [
                  | inl h ↦ rw h (vacant-Returns c l more h)
                  | inr (im, h) ↦ rw h (occupied-Returns hm fa v fragment im c h)
                ])
      ])
    ]

    -- A fragment of the right length never makes the assembler panic, and a valid assembler stays
    -- valid: each count is the number of filled slots, no message is kept without a fragment or
    -- complete, and after the eviction of at most one message both limits hold again.
    pub insert-Returns : length fragment ≡ fragment_size → Returns hm fa (insert hm fa fragment)
    unfolding insert
    insert-Returns sized = elim (Result-cases (check_fragment fragment)) [
      | inl passed ↦
          rw (passed, insert) (checked-Returns (record { sized = sized; passed = passed }))
      | inr (e, failed) ↦ rw (failed, insert) (fa, none, refl, v, SameLimits-refl hm fa)
    ]

  -- A new assembler is valid.
  pub new-IsValid : (a b c : ℕ) → IsValid hm (new hm a b c)
  unfolding new
  new-IsValid a b c =
      let e = hm.entries-with_capacity (min (a + 1) usize_max) in
      record {
        state = record { partial = rw e tt; counted = rw e refl };
        few_messages = omega (arith, ap length e);
        few_fragments = omega arith;
      }
