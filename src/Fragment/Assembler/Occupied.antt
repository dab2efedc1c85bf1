-- ===== src/Fragment/Assembler/Occupied.antt =====
-- src/core/fragment.rs: `FragmentAssembler::insert` for a fragment of a known message.
use mixnet.Base.{
  ◌+◌, ◌≤◌, ◌≡◌, ◌≢◌, refl, List, [], ◌∷◌, ◌++◌, Option, none, some, Result, ◌∙◌, eq-or-ne, ◌>>=◌,
  inl, inr, length, lookup, checked_sub_le, arith, sym, ap, subst, length-append, length-set,
}
use mixnet.Fragment.{Fragment, MessageId, message_id}
use mixnet.Fragment.Check.{IsChecked}
use mixnet.Fragment.Message.{
  GenericMessage, IncompleteMessage, IncompleteMessageInsertErr, expect_all,
}
use mixnet.Fragment.Assembler.{
  FragmentAssembler, insert_occupied, after_insert, finish_message, keep_message, maybe_evict,
}
use mixnet.Fragment.Assembler.Eviction.{
  IsPartial, received, IsCounted, IsValid, SameLimits, maybe_evict-IsValid,
}
use mixnet.Fragment.Assembler.Slots.{
  IsStored, Inserts, refused, inserted, insert_incomplete-Inserts, expect_all_full,
  complete_fragments_full, complete_fragments_open, stored-le, from_fragments_total,
}
use mixnet.LinkedHashMap.{LinkedHashMap}
use mixnet.LinkedHashMap.Assoc.{
  All, All-append, All-lookup, All-remove, sum_values-append, sum_values-remove, remove,
  lookup-replace_self, remove-replace, length-remove,
}

module _ {dec : Discrete MessageId} (hm : LinkedHashMap dec IncompleteMessage) where
  -- A call returns: a valid state under the same limits, and maybe a message.
  abbrev pub Returns :
      FragmentAssembler hm → Option (FragmentAssembler hm × Option GenericMessage) → Type 0
  Returns fa r =
      (fa' : FragmentAssembler hm) × (m : Option GenericMessage) × (r ≡ some (fa', m))
      × IsValid hm fa'
      × SameLimits hm fa fa'

  pub SameLimits-refl : (fa : FragmentAssembler hm) → SameLimits hm fa fa
  SameLimits-refl fa = record { messages = refl; fragments = refl; per_message = refl }

  module _ (fa : FragmentAssembler hm) (v : IsValid hm fa) (fragment : Fragment) where
    -- After an insertion the limits may be passed by one, and the eviction mends that.
    pub settle :
        (map : hm.Map)
        → IsCounted hm (record fa {
          incomplete_messages = map;
          num_incomplete_fragments = fa.num_incomplete_fragments + 1;
        })
        → length (hm.entries map) ≤ fa.max_incomplete_messages + 1
        → Returns fa (do
          fa' ← maybe_evict hm (record fa {
            incomplete_messages = map;
            num_incomplete_fragments = fa.num_incomplete_fragments + 1;
          })
          some (fa', none))
    settle map s l =
        let (fa', e, v', same) = maybe_evict-IsValid hm _ s l (omega (arith, v.few_fragments)) in
        rw e (
          fa',
          none,
          refl,
          v',
          record {
            messages = same.messages;
            fragments = same.fragments;
            per_message = same.per_message;
          },
        )

    module _ (im : IncompleteMessage)
        (h : lookup dec (message_id fragment) (hm.entries fa.incomplete_messages) ≡ some im) where
      part : IsPartial fa.max_fragments_per_message (message_id fragment) im
      part =
          All-lookup dec (IsPartial fa.max_fragments_per_message) (message_id fragment) im
            (hm.entries fa.incomplete_messages) h v.state.partial

      -- The other entries.
      abbrev others : List (MessageId × IncompleteMessage)
      others = remove dec (message_id fragment) (hm.entries fa.incomplete_messages)

      received-others : im.num_received_fragments + received others ≡ fa.num_incomplete_fragments
      received-others =
          sum_values-remove dec (λ (m : IncompleteMessage). m.num_received_fragments)
            (message_id fragment) im (hm.entries fa.incomplete_messages) h
          ∙ sym v.state.counted

      module _ (im' : IncompleteMessage) (size : length im'.fragments ≡ length im.fragments)
          (more : im'.num_received_fragments ≡ im.num_received_fragments + 1)
          (s : IsStored (message_id fragment) im') where
        abbrev map' : hm.Map
        map' = hm.set_value fa.incomplete_messages (message_id fragment) im'

        remove-map' : remove dec (message_id fragment) (hm.entries map') ≡ others
        remove-map' =
            rw (hm.entries-set_value fa.incomplete_messages (message_id fragment) im')
              (remove-replace dec (message_id fragment) im' (hm.entries fa.incomplete_messages))

        lookup-map' : lookup dec (message_id fragment) (hm.entries map') ≡ some im'
        lookup-map' = rw (hm.entries-set_value fa.incomplete_messages (message_id fragment) im') (
            lookup-replace_self dec (message_id fragment) im im' (hm.entries fa.incomplete_messages)
              h)

        finish-Returns :
            im'.num_received_fragments ≡ length im'.fragments
            → Returns fa
                (finish_message hm fa map' (message_id fragment) im' (expect_all im'.fragments))
        unfolding finish_message
        finish-Returns full =
            let (fragments, e, l, b) =
              expect_all_full (message_id fragment) (length im'.fragments) 0 im'.fragments s.filled
                (omega (arith, s.counted)) in
            let (message, e', _) =
              from_fragments_total (message_id fragment) (length im'.fragments) 0 fragments b
                (omega arith) in
            let out = hm.entries-remove_entry map' (message_id fragment) ∙ remove-map' in
            rw
              (
                e,
                e',
                checked_sub_le (fa.num_incomplete_fragments + 1) im'.num_received_fragments
                    (omega (arith, received-others)),
              )
              (
                _,
                some message,
                refl,
                record {
                  state = record {
                    partial = subst (All (IsPartial fa.max_fragments_per_message)) (sym out) (
                        All-remove dec (IsPartial fa.max_fragments_per_message)
                          (message_id fragment) _ v.state.partial);
                    counted = rw out (omega (arith, received-others));
                  };
                  few_messages = omega (
                    arith,
                    ap length out,
                    length-remove dec (message_id fragment) im _ h,
                    v.few_messages,
                  );
                  few_fragments = omega (arith, received-others, v.few_fragments);
                },
                record { messages = refl; fragments = refl; per_message = refl },
              )

        keep-Returns :
            im'.num_received_fragments ≢ length im'.fragments
            → Returns fa (keep_message hm fa map' (message_id fragment))
        unfolding keep_message
        keep-Returns open_slots =
            let id = message_id fragment in
            let out : hm.entries (hm.to_back map' id) ≡ others ++ ((id, im') ∷ []) =
              hm.entries-to_back map' id im' lookup-map'
              ∙ ap (λ es. es ++ ((id, im') ∷ [])) remove-map' in
            settle (hm.to_back map' id)
              (record {
                partial = rw out (
                    All-append (IsPartial fa.max_fragments_per_message) others ((id, im') ∷ [])
                      (All-remove dec (IsPartial fa.max_fragments_per_message) id _ v.state.partial)
                      (
                        record {
                          counted = s.counted;
                          started = omega arith;
                          unfinished = omega (arith, stored-le id im' s);
                          allowed = omega (arith, part.allowed);
                          filled = s.filled;
                        },
                        tt,
                      ));
                counted = omega (
                  arith,
                  ap received out,
                  received-others,
                  sum_values-append {K = MessageId}
                      (λ (m : IncompleteMessage). m.num_received_fragments) others ((id, im') ∷ []),
                );
              })
              (omega (
                arith,
                ap length out,
                length-append others ((id, im') ∷ []),
                length-remove dec id im _ h,
                v.few_messages,
              ))

      after_insert-Returns :
          {r : Option (Result IncompleteMessage IncompleteMessageInsertErr)}
          → Inserts (message_id fragment) im fragment r
          → Returns fa (r >>= after_insert hm fa (message_id fragment))
      unfolding after_insert
      after_insert-Returns (refused e) = (fa, none, refl, v, SameLimits-refl fa)
      after_insert-Returns (inserted im' n open_slot fs k s) =
          let size : length im'.fragments ≡ length im.fragments =
            ap length fs ∙ length-set im.fragments _ _ in
          elim (eq-or-ne im'.num_received_fragments (length im'.fragments)) [
            | inl full ↦
                rw (complete_fragments_full im' full, after_insert)
                  (finish-Returns im' size k s full)
            | inr open_slots ↦
                rw (complete_fragments_open im' open_slots, after_insert)
                  (keep-Returns im' size k s open_slots)
          ]

    pub occupied-Returns :
        (im : IncompleteMessage)
        → IsChecked fragment
        → lookup dec (message_id fragment) (hm.entries fa.incomplete_messages) ≡ some im
        → Returns fa (insert_occupied hm fa (message_id fragment) im fragment)
    unfolding insert_occupied
    occupied-Returns im c h =
        let p = part im h in
        after_insert-Returns im h (
          insert_incomplete-Inserts (message_id fragment) im fragment
            (record { counted = p.counted; filled = p.filled }) c refl)
