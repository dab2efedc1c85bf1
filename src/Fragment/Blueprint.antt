-- ===== src/Fragment/Blueprint.antt =====
-- src/core/fragment.rs: `fragment_blueprints` and `FragmentBlueprint`. `none` is a panic.
pub mod Count
pub mod Spread
pub mod Write
use mixnet.Base.{
  ℕ, zero, suc, ◌+◌, ◌-◌, ◌*◌, ◌/◌, ◌%◌, ◌^◌, ◌≤◌, min, max, List, [], ◌∷◌, ◌++◌, Option, none,
  some, Bytes, ◌>>=◌, ◌==◌, leb, if◌then◌else◌, checked_sub, slice_split_at, take, drop,
  to_le_bytes, write_rchunks,
}
use mixnet.Sphinx.{surb_size}
use mixnet.Fragment.{
  MessageId, Fragment, fragment_payload_size, fragment_header_size, max_surbs_per_fragment,
  fragment_data_size_size, fragment_index_size, fragment_num_surbs_size,
}
use mixnet.Scattered
use mixnet.Scattered.{Scattered}
use mixnet.Fragment.Assembler.{usize_max}

-- `FragmentIndex::MAX`.
abbrev pub fragment_index_max : ℕ
fragment_index_max = 2 ^ 16 - 1

pub record FragmentBlueprint : Type 0 where
  pub message_id : MessageId
  pub last_index : ℕ
  pub index : ℕ
  pub contents : Scattered ℕ
  pub num_surbs : ℕ

unfoldable pub div_ceil : ℕ → ℕ → ℕ
div_ceil x y = if x == 0 then 0 else (x - 1) / y + 1

abbrev pub saturating_mul : ℕ → ℕ → ℕ
saturating_mul a b = min (a * b) usize_max

abbrev pub saturating_add : ℕ → ℕ → ℕ
saturating_add a b = min (a + b) usize_max

-- How many fragments the data size and the number of SURBs need.
unfoldable pub count : ℕ → ℕ → Option ℕ
unfolding div_ceil
count data_len num_surbs = do
  let num_fragments_for_surbs = div_ceil num_surbs max_surbs_per_fragment
  surb_fragments_unused_size ←
      checked_sub (saturating_mul num_fragments_for_surbs fragment_payload_size)
        (saturating_mul num_surbs surb_size)
  let remaining_data_size = data_len - surb_fragments_unused_size
  let num_fragments_for_remaining_data = div_ceil remaining_data_size fragment_payload_size
  some (max (saturating_add num_fragments_for_surbs num_fragments_for_remaining_data) 1)

-- The items of the iterator: `n` more of them, from `index` on.
unfoldable pub blueprints_from :
    (n index : ℕ) → MessageId → ℕ → Scattered ℕ → ℕ → Option (List FragmentBlueprint)
blueprints_from zero index message_id last_index contents num_surbs = some []
blueprints_from (suc n) index message_id last_index contents num_surbs = do
  let fragment_num_surbs = min num_surbs max_surbs_per_fragment
  fragment_unused_size ← checked_sub fragment_payload_size (fragment_num_surbs * surb_size)
  (fragment_data, remaining_data) ←
      Scattered.split_at contents (min (contents.len) fragment_unused_size)
  rest ←
      blueprints_from n (index + 1) message_id last_index remaining_data
        (num_surbs - fragment_num_surbs)
  some (
      record {
        message_id = message_id;
        last_index = last_index % 2 ^ 16;
        index = index % 2 ^ 16;
        contents = fragment_data;
        num_surbs = fragment_num_surbs % 2 ^ 8;
      }
      ∷ rest)

-- Inside, `none` is the answer that more fragments would be needed than can be numbered.
unfoldable pub fragment_blueprints :
    MessageId → Scattered ℕ → ℕ → Option (Option (List FragmentBlueprint))
fragment_blueprints message_id contents num_surbs = do
  num_fragments ← count (contents.len) num_surbs
  let last_index = num_fragments - 1
  if leb last_index fragment_index_max
      then (do
        blueprints ← blueprints_from num_fragments 0 message_id last_index contents num_surbs
        some (some blueprints))
      else some none

-- The fragment after `write_except_surbs`.
pub write_except_surbs : FragmentBlueprint → Fragment → Option Fragment
write_except_surbs blueprint fragment = do
  let size = blueprint.contents.len
  (dst, rest) ← slice_split_at (drop fragment_header_size fragment) size
  copied ← Scattered.copy_to_slice blueprint.contents dst
  some (
      blueprint.message_id
      ++ (to_le_bytes fragment_index_size blueprint.last_index
          ++ (to_le_bytes fragment_index_size blueprint.index
              ++ (to_le_bytes fragment_data_size_size (size % 2 ^ 16)
                  ++ (to_le_bytes fragment_num_surbs_size blueprint.num_surbs
                      ++ (copied ++ rest))))))

-- The fragment after the given SURBs were written to the places that `surbs` yields, in order.
pub write_surbs : List Bytes → Fragment → Fragment
write_surbs surbs fragment =
    take fragment_header_size fragment
    ++ write_rchunks surb_size surbs (drop fragment_header_size fragment)
