-- ===== src/Fragment.antt =====
-- src/core/fragment.rs: the layout of a fragment and the check of a received one.
pub mod Message
pub mod Check
pub mod Assembler
pub mod Blueprint
pub mod RoundTrip
mod Examples
use mixnet.Base.{
  ℕ, ◌+◌, ◌-◌, ◌*◌, ◌/◌, ◌≤◌, ◌<◌, ◌≡◌, refl, Bytes, from_le_bytes, take, drop, length, Result, ok,
  err, if◌then◌else◌, leb, ltb,
}
use mixnet.Sphinx.{payload_data_size, surb_size}

abbrev pub message_id_size : ℕ
message_id_size = 16

abbrev pub MessageId : Type 0
MessageId = Bytes

abbrev pub fragment_index_size : ℕ
fragment_index_size = 2

abbrev pub fragment_data_size_size : ℕ
fragment_data_size_size = 2

abbrev pub fragment_num_surbs_size : ℕ
fragment_num_surbs_size = 1

abbrev pub fragment_header_size : ℕ
fragment_header_size =
    message_id_size + fragment_index_size + fragment_index_size + fragment_data_size_size
    + fragment_num_surbs_size

abbrev pub fragment_size : ℕ
fragment_size = payload_data_size

abbrev pub Fragment : Type 0
Fragment = Bytes

abbrev pub fragment_payload_size : ℕ
fragment_payload_size = fragment_size - fragment_header_size

abbrev pub max_surbs_per_fragment : ℕ
max_surbs_per_fragment = fragment_payload_size / surb_size

-- The six parts of a fragment.
pub record Split : Type 0 where
  pub id : Bytes
  pub last_index : Bytes
  pub index : Bytes
  pub data_size : Bytes
  pub num_surbs : Bytes
  pub payload : Bytes

-- The first `n` bytes and the rest, at each step.
pub split_fragment : Fragment → Split
split_fragment fragment =
    let rest₁ = drop message_id_size fragment in
    let rest₂ = drop fragment_index_size rest₁ in
    let rest₃ = drop fragment_index_size rest₂ in
    let rest₄ = drop fragment_data_size_size rest₃ in
    let rest₅ = drop fragment_num_surbs_size rest₄ in
    record {
      id = take message_id_size fragment;
      last_index = take fragment_index_size rest₁;
      index = take fragment_index_size rest₂;
      data_size = take fragment_data_size_size rest₃;
      num_surbs = take fragment_num_surbs_size rest₄;
      payload = take fragment_payload_size rest₅;
    }

pub message_id : Fragment → MessageId
message_id fragment = (split_fragment fragment).id

pub num_fragments : Fragment → ℕ
num_fragments fragment = from_le_bytes (split_fragment fragment).last_index + 1

pub fragment_index : Fragment → ℕ
fragment_index fragment = from_le_bytes (split_fragment fragment).index

pub fragment_data_size : Fragment → ℕ
fragment_data_size fragment = from_le_bytes (split_fragment fragment).data_size

pub fragment_num_surbs : Fragment → ℕ
fragment_num_surbs fragment = from_le_bytes (split_fragment fragment).num_surbs

pub fragment_payload : Fragment → Bytes
fragment_payload fragment = (split_fragment fragment).payload

pub data CheckFragmentErr : Type 0 where
  -- the index and the largest one allowed
  index : ℕ → ℕ → CheckFragmentErr
  -- the size and the largest one allowed
  payload_size : ℕ → ℕ → CheckFragmentErr

pub check_fragment : Fragment → Result (Unit {0}) CheckFragmentErr
check_fragment fragment =
    if leb (num_fragments fragment) (fragment_index fragment)
    then err (index (fragment_index fragment) (num_fragments fragment - 1))
    else (let size = fragment_data_size fragment + fragment_num_surbs fragment * surb_size in
        if ltb fragment_payload_size size
        then err (payload_size size fragment_payload_size)
        else ok tt)
