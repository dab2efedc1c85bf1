-- ===== src/Fragment/Examples.antt =====
-- Runs of the code of src/core/fragment.rs on small messages.
use mixnet.Base.{
  ◌⊎◌, err, ℕ, ◌≡◌, ◌≤◌, ◌<◌, ◌-◌, ◌+◌, refl, [], ◌∷◌, some, none, Bytes, List, replicate, length,
  length-replicate, arith, slice_split_at, take, flatten, ok, ℕ_discrete,
}
use mixnet.Sphinx.{surb_size}
use mixnet.Scattered
use mixnet.Scattered.{Scattered}
use mixnet.Scattered.Contents
use mixnet.LinkedHashMap.Instance.{assoc_map}
use mixnet.LinkedHashMap.{LinkedHashMap}
use mixnet.Fragment.{
  Fragment, MessageId, fragment_size, fragment_payload_size, check_fragment, index, payload_size,
  message_id_size,
}
use mixnet.Fragment.Check.{laid_out, check_fragment_lem}
use mixnet.Fragment.Message.{from_fragments, IncompleteMessage}
use mixnet.Fragment.Assembler
use mixnet.Fragment.Assembler.{FragmentAssembler, usize_max}
use mixnet.Fragment.Assembler.Occupied.{Returns}
use mixnet.Fragment.Assembler.Invariant.{insert-Returns, new-IsValid}
use mixnet.Fragment.Blueprint.{
  FragmentBlueprint, fragment_blueprints, count, div_ceil, blueprints_from, fragment_index_max,
  write_except_surbs, write_surbs,
}
use mixnet.Fragment.Blueprint.Count.{Room}
use mixnet.Fragment.Blueprint.Spread.{
  Spreads, IsPart, fragment_blueprints-Spreads, fragment_blueprints_least,
  fragment_blueprints_too_many,
}
use mixnet.Fragment.Blueprint.Write.{Carries, write-Carries}
use mixnet.Fragment.RoundTrip.{round_trip, write_all}

-- A message with three bytes and one SURB.
abbrev message_id : MessageId
message_id = replicate 16 7

abbrev message_data : Scattered ℕ
message_data = Scattered.of_slice (1 ∷ 2 ∷ 3 ∷ [])

abbrev surb : Bytes
surb = replicate surb_size 9

abbrev message_blueprint : FragmentBlueprint
message_blueprint = record {
  message_id = message_id;
  last_index = 0;
  index = 0;
  contents = message_data;
  num_surbs = 1;
}

abbrev message_blueprints : List FragmentBlueprint
message_blueprints = message_blueprint ∷ []

message_blueprints_lem :
    fragment_blueprints message_id message_data 1 ≡ some (some message_blueprints)
unfolding fragment_blueprints count div_ceil blueprints_from Scattered.split_at Scattered.find_mid
    Scattered.of_slice slice_split_at take
message_blueprints_lem = refl

message_data_few : message_data.len ≤ usize_max
unfolding Scattered.of_slice
message_data_few = omega arith

message-Room : Room (fragment_index_max + 1) message_data.len 1
unfolding Scattered.of_slice
message-Room = (omega arith, omega arith)

round_trip_example :
    (fragments : List Fragment) × (write_all message_blueprints ((surb ∷ []) ∷ []) ≡ some fragments)
    × (from_fragments fragments
        ≡ some (record {
          id = message_id;
          payload = Scattered.to_vec message_data;
          surbs = flatten ((surb ∷ []) ∷ []);
        }))
round_trip_example =
    round_trip message_id message_data 1 message_blueprints ((surb ∷ []) ∷ [])
      (Contents.of_slice_lem (1 ∷ 2 ∷ 3 ∷ [])).0 message_data_few (omega arith)
      (length-replicate 16 7) message_blueprints_lem (refl, (length-replicate surb_size 9, tt), tt)

fragment_blueprints-Spreads_example :
    (bps : List FragmentBlueprint) × (fragment_blueprints message_id message_data 1
      ≡ some (some bps))
    × Spreads message_id (length bps - 1) 0 (Scattered.to_vec message_data) 1 bps
    × (0 < length bps)
    × (length bps ≤ fragment_index_max + 1)
fragment_blueprints-Spreads_example =
    fragment_blueprints-Spreads message_id message_data 1 (Contents.of_slice_lem (1 ∷ 2 ∷ 3 ∷ [])).0
      message_data_few (omega arith) message-Room

fragment_blueprints_least_example : length message_blueprints ≤ 2
unfolding Scattered.of_slice
fragment_blueprints_least_example =
    fragment_blueprints_least message_id message_data 1 message_blueprints 2
      (Contents.of_slice_lem (1 ∷ 2 ∷ 3 ∷ [])).0 message_data_few (omega arith)
      message_blueprints_lem (omega arith) (omega arith, omega arith)

not-Room : ¬ Room (fragment_index_max + 1) message_data.len 589825
not-Room r = omega (arith, r.0)

fragment_blueprints_too_many_example :
    fragment_blueprints message_id message_data 589825 ≡ some none
fragment_blueprints_too_many_example =
    fragment_blueprints_too_many message_id message_data 589825 message_data_few (omega arith)
      not-Room

message_blueprint-IsPart : IsPart message_id 0 0 message_blueprint
unfolding Scattered.of_slice
message_blueprint-IsPart = record {
  own_id = refl;
  own_last = refl;
  own_index = refl;
  contents_valid = (Contents.of_slice_lem (1 ∷ 2 ∷ 3 ∷ [])).0;
  few_surbs = omega arith;
  fits = omega arith;
}

write-Carries_example :
    (written : Fragment) × (write_except_surbs message_blueprint (replicate fragment_size 0)
      ≡ some written)
    × Carries message_blueprint (surb ∷ []) (write_surbs (surb ∷ []) written)
write-Carries_example =
    write-Carries message_id 0 0 message_blueprint (surb ∷ []) (replicate fragment_size 0)
      message_blueprint-IsPart (length-replicate 16 7) (omega arith) (omega arith) refl
      (length-replicate surb_size 9, tt) (length-replicate fragment_size 0)

-- The third of three fragments, whose 2048 bytes of data are more than a payload has room for.
check_fragment_lem_example :
    let checked = check_fragment (laid_out (replicate message_id_size 7) 2 0 2 0 0 8 1 []) in
    ((2 < 2) × (checked ≡ err (index 2 2)))
    ⊎ ((2 ≤ 2)
        × (fragment_payload_size < 2048 + surb_size)
        × (checked ≡ err (payload_size (2048 + surb_size) fragment_payload_size)))
    ⊎ ((2 ≤ 2) × (2048 + surb_size ≤ fragment_payload_size) × (checked ≡ ok tt))
check_fragment_lem_example =
    check_fragment_lem (replicate message_id_size 7) 2 0 2 0 0 8 1 []
      (length-replicate message_id_size 7)

abbrev ids : Discrete MessageId
ids = hlevel ℕ_discrete

abbrev message_map : LinkedHashMap ids IncompleteMessage
message_map = assoc_map ids IncompleteMessage

abbrev assembler : FragmentAssembler message_map
assembler = Assembler.new message_map 2 3 4

insert-Returns_example :
    Returns message_map assembler
      (Assembler.insert message_map assembler (replicate fragment_size 0))
insert-Returns_example =
    insert-Returns message_map assembler (new-IsValid message_map 2 3 4) (replicate fragment_size 0)
      (length-replicate fragment_size 0)
