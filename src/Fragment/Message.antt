-- ===== src/Fragment/Message.antt =====
-- src/core/fragment.rs: `GenericMessage::from_fragments` and `IncompleteMessage`. `none` is a panic.
use mixnet.Base.{
  ℕ, ◌+◌, Bytes, List, [], ◌∷◌, ◌++◌, Option, none, some, length, take, replicate, get_elem?, set,
  rchunks_exact, slice_split_at, ◌>>=◌, ◌==◌, if◌then◌else◌, Result, ok, err,
}
use mixnet.Sphinx.{surb_size}
use mixnet.Fragment.{
  Fragment, MessageId, message_id, num_fragments, fragment_index, fragment_data_size,
  fragment_num_surbs, fragment_payload,
}

pub record GenericMessage : Type 0 where
  pub id : MessageId
  pub payload : Bytes
  pub surbs : List Bytes

-- The data bytes of one fragment; the slice panics if there are fewer in the payload.
unfoldable pub data_of : Fragment → Option Bytes
data_of fragment = do
  (bytes, _) ← slice_split_at (fragment_payload fragment) (fragment_data_size fragment)
  some bytes

unfoldable pub surbs_of : Fragment → List Bytes
surbs_of fragment =
    take (fragment_num_surbs fragment) (rchunks_exact surb_size (fragment_payload fragment))

-- The loop of `from_fragments`, over what `data` and `surbs` hold so far.
unfoldable pub extend_fragments : List Fragment → Bytes → List Bytes → Option (Bytes × List Bytes)
extend_fragments [] bytes surbs = some (bytes, surbs)
extend_fragments (fragment ∷ fragments) bytes surbs = do
  more ← data_of fragment
  extend_fragments fragments (bytes ++ more) (surbs ++ surbs_of fragment)

unfoldable pub from_fragments : List Fragment → Option GenericMessage
from_fragments [] = none
from_fragments (fragment ∷ fragments) = do
  (bytes, surbs) ← extend_fragments (fragment ∷ fragments) [] []
  some (record { id = message_id fragment; payload = bytes; surbs = surbs })

pub data IncompleteMessageInsertErr : Type 0 where
  inconsistent_num_fragments : ℕ → ℕ → IncompleteMessageInsertErr
  already_have : IncompleteMessageInsertErr

pub record IncompleteMessage : Type 0 where
  pub fragments : List (Option Fragment)
  pub num_received_fragments : ℕ

unfoldable pub new_incomplete : ℕ → IncompleteMessage
new_incomplete n = record { fragments = replicate n none; num_received_fragments = 0 }

-- The write into the slot that the index of the fragment names.
fill_slot :
    IncompleteMessage
    → Fragment
    → Option Fragment
    → Result IncompleteMessage IncompleteMessageInsertErr
fill_slot im fragment (some _) = err already_have
fill_slot im fragment none = ok (record {
  fragments = set im.fragments (fragment_index fragment) (some fragment);
  num_received_fragments = im.num_received_fragments + 1;
})

-- An index past the slots panics.
unfoldable pub insert_incomplete :
    IncompleteMessage → Fragment → Option (Result IncompleteMessage IncompleteMessageInsertErr)
unfolding fill_slot
insert_incomplete im fragment =
    if num_fragments fragment == length im.fragments
    then (do
      slot ← get_elem? im.fragments (fragment_index fragment)
      some (fill_slot im fragment slot))
    else some (err (inconsistent_num_fragments (num_fragments fragment) (length im.fragments)))

-- The iterator of `complete_fragments` panics at an empty slot.
unfoldable pub expect_all : List (Option Fragment) → Option (List Fragment)
expect_all [] = some []
expect_all (none ∷ slots) = none
expect_all (some fragment ∷ slots) = do fragments ← expect_all slots; some (fragment ∷ fragments)

-- Whether the message is complete; then its fragments, or a panic.
unfoldable pub complete_fragments : IncompleteMessage → Option (Option (List Fragment))
complete_fragments im =
    if im.num_received_fragments == length im.fragments
    then some (expect_all im.fragments)
    else none
