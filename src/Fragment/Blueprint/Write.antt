-- ===== src/Fragment/Blueprint/Write.antt =====
-- src/core/fragment.rs: what a receiver reads from a fragment written from a blueprint.
use mixnet.Base.{
  rchunks_exact-write_rchunks, take-write_rchunks, ◌^◌, length-write_rchunks, ℕ, ◌+◌, ◌*◌, ◌%◌, ◌≤◌,
  ◌<◌, ◌≡◌, refl, sym, ◌∙◌, ap, List, ◌++◌, some, arith, Bytes, length, take, drop,
  slice_split_at_le, copy_from_slice_eq, to_le_bytes, from_le_bytes, length-to_le_bytes,
  length-append, length-take, length-drop, take-append_self, drop-append_self, take_all,
  from_le_bytes-to_le_bytes_u16, write_rchunks, rchunks_exact, AllLength, append_assoc,
}
use mixnet.Sphinx.{surb_size}
use mixnet.Scattered
use mixnet.Scattered.{Scattered}
use mixnet.Fragment.Message.{data_of, surbs_of}
use mixnet.Scattered.Contents
use mixnet.Scattered.Copy.{copy_to_slice_lem}
use mixnet.Fragment.{
  MessageId, Fragment, Split, split_fragment, message_id, num_fragments, fragment_index,
  fragment_data_size, fragment_num_surbs, fragment_payload, fragment_payload_size, fragment_size,
  fragment_header_size, message_id_size,
}
use mixnet.Fragment.Blueprint.{FragmentBlueprint, write_except_surbs, write_surbs}
use mixnet.Fragment.Blueprint.Spread.{IsPart}

-- A fragment by its parts.
abbrev layout : Bytes → ℕ → ℕ → ℕ → ℕ → Bytes → Fragment
layout id last index size surbs payload =
    id
    ++ (to_le_bytes 2 last
        ++ (to_le_bytes 2 index ++ (to_le_bytes 2 size ++ (to_le_bytes 1 surbs ++ payload))))

-- `split_fragment` takes such a fragment apart.
split_fragment-layout :
    (id : Bytes) (last index size surbs : ℕ) (payload : Bytes)
    → length id ≡ message_id_size
    → length payload ≡ fragment_payload_size
    → split_fragment (layout id last index size surbs payload) ≡ record {
      id = id;
      last_index = to_le_bytes 2 last;
      index = to_le_bytes 2 index;
      data_size = to_le_bytes 2 size;
      num_surbs = to_le_bytes 1 surbs;
      payload = payload;
    }
unfolding split_fragment
split_fragment-layout id last index size surbs payload hi hp = rw (
  take-append_self 16 id _ hi,
  drop-append_self 16 id _ hi,
  take-append_self 2 (to_le_bytes 2 last) _ (length-to_le_bytes 2 last),
  drop-append_self 2 (to_le_bytes 2 last) _ (length-to_le_bytes 2 last),
  take-append_self 2 (to_le_bytes 2 index) _ (length-to_le_bytes 2 index),
  drop-append_self 2 (to_le_bytes 2 index) _ (length-to_le_bytes 2 index),
  take-append_self 2 (to_le_bytes 2 size) _ (length-to_le_bytes 2 size),
  drop-append_self 2 (to_le_bytes 2 size) _ (length-to_le_bytes 2 size),
  take-append_self 1 (to_le_bytes 1 surbs) _ (length-to_le_bytes 1 surbs),
  drop-append_self 1 (to_le_bytes 1 surbs) _ (length-to_le_bytes 1 surbs),
  take_all 2025 payload (omega arith),
)

header : Bytes → ℕ → ℕ → ℕ → ℕ → Bytes
header id last index size surbs =
    id
    ++ (to_le_bytes 2 last ++ (to_le_bytes 2 index ++ (to_le_bytes 2 size ++ to_le_bytes 1 surbs)))

layout-header :
    (id : Bytes) (last index size surbs : ℕ) (payload : Bytes)
    → layout id last index size surbs payload ≡ header id last index size surbs ++ payload
unfolding header
layout-header id last index size surbs payload = simp append_assoc

length-header :
    (id : Bytes) (last index size surbs : ℕ)
    → length id ≡ message_id_size
    → length (header id last index size surbs) ≡ fragment_header_size
unfolding header
length-header id last index size surbs h = omega (
  arith,
  length-append id
      (to_le_bytes 2 last ++ (to_le_bytes 2 index ++ (to_le_bytes 2 size ++ to_le_bytes 1 surbs))),
  length-append (to_le_bytes 2 last)
      (to_le_bytes 2 index ++ (to_le_bytes 2 size ++ to_le_bytes 1 surbs)),
  length-append (to_le_bytes 2 index) (to_le_bytes 2 size ++ to_le_bytes 1 surbs),
  length-append (to_le_bytes 2 size) (to_le_bytes 1 surbs),
  length-to_le_bytes 2 last,
  length-to_le_bytes 2 index,
  length-to_le_bytes 2 size,
  length-to_le_bytes 1 surbs,
)

write_surbs-layout :
    (id : Bytes) (last index size n : ℕ) (payload : Bytes) (surbs : List Bytes)
    → length id ≡ message_id_size
    → write_surbs surbs (layout id last index size n payload)
      ≡ layout id last index size n (write_rchunks surb_size surbs payload)
unfolding write_surbs
write_surbs-layout id last index size n payload surbs h =
    let k = length-header id last index size n h in
    rw
      (
        layout-header id last index size n payload,
        take-append_self 23 (header id last index size n) payload k,
        drop-append_self 23 (header id last index size n) payload k,
      )
      (sym (layout-header id last index size n (write_rchunks surb_size surbs payload)))

-- A fragment that carries the blueprint's part of the message and the SURBs.
pub record Carries (bp : FragmentBlueprint) (surbs : List Bytes) (fragment : Fragment)
    : Type 0 where
  pub sized : length fragment ≡ fragment_size
  pub same_id : message_id fragment ≡ bp.message_id
  pub same_num : num_fragments fragment ≡ bp.last_index + 1
  pub same_index : fragment_index fragment ≡ bp.index
  pub same_size : fragment_data_size fragment ≡ bp.contents.len
  pub same_surbs : fragment_num_surbs fragment ≡ bp.num_surbs
  pub contents : data_of fragment ≡ some (Scattered.to_vec bp.contents)
  pub replies : surbs_of fragment ≡ surbs

from_le_bytes-to_le_bytes_u8 : (n : ℕ) → n < 256 → from_le_bytes (to_le_bytes 1 n) ≡ n
unfolding from_le_bytes to_le_bytes
from_le_bytes-to_le_bytes_u8 n h = omega arith

-- What the accessors read from a fragment given by its parts.
record Reads (id : Bytes) (last index size surbs : ℕ) (payload : Bytes) (f : Fragment)
    : Type 0 where
  id_read : message_id f ≡ id
  num_read : num_fragments f ≡ last + 1
  index_read : fragment_index f ≡ index
  size_read : fragment_data_size f ≡ size
  surbs_read : fragment_num_surbs f ≡ surbs
  payload_read : fragment_payload f ≡ payload

layout-Reads :
    (id : Bytes) (last index size surbs : ℕ) (payload : Bytes)
    → length id ≡ message_id_size
    → length payload ≡ fragment_payload_size
    → last < 65536
    → index < 65536
    → size < 65536
    → surbs < 256
    → Reads id last index size surbs payload (layout id last index size surbs payload)
unfolding message_id num_fragments fragment_index fragment_data_size fragment_num_surbs
    fragment_payload
layout-Reads id last index size surbs payload hid hp hl hi hs hk =
    let e = split_fragment-layout id last index size surbs payload hid hp in
    record {
      id_read = ap (λ (p : Split). p.id) e;
      num_read =
          ap (λ (p : Split). from_le_bytes p.last_index + 1) e
          ∙ ap (λ (n : ℕ). n + 1) (from_le_bytes-to_le_bytes_u16 last hl);
      index_read =
          ap (λ (p : Split). from_le_bytes p.index) e ∙ from_le_bytes-to_le_bytes_u16 index hi;
      size_read =
          ap (λ (p : Split). from_le_bytes p.data_size) e ∙ from_le_bytes-to_le_bytes_u16 size hs;
      surbs_read =
          ap (λ (p : Split). from_le_bytes p.num_surbs) e ∙ from_le_bytes-to_le_bytes_u8 surbs hk;
      payload_read = ap (λ (p : Split). p.payload) e;
    }

layout-Carries :
    (bp : FragmentBlueprint) (surbs : List Bytes) (rest : Bytes)
    → Contents.IsValid bp.contents
    → length bp.message_id ≡ message_id_size
    → bp.last_index < 65536
    → bp.index < 65536
    → bp.num_surbs < 256
    → length surbs ≡ bp.num_surbs
    → AllLength surb_size surbs
    → bp.contents.len + bp.num_surbs * surb_size ≤ fragment_payload_size
    → bp.contents.len + length rest ≡ fragment_payload_size
    → Carries bp surbs (
        layout bp.message_id bp.last_index bp.index bp.contents.len bp.num_surbs
          (write_rchunks surb_size surbs (Scattered.to_vec bp.contents ++ rest)))
unfolding data_of surbs_of
layout-Carries bp surbs rest v hid hl hi hk hs all fits room =
    let bytes = Scattered.to_vec bp.contents in
    let p = write_rchunks surb_size surbs (bytes ++ rest) in
    let whole : length (bytes ++ rest) ≡ 2025 =
      omega (arith, v.counted, length-append bytes rest) in
    let lp : length p ≡ 2025 =
      length-write_rchunks surb_size surbs (bytes ++ rest) all (omega arith) ∙ whole in
    let r =
      layout-Reads bp.message_id bp.last_index bp.index bp.contents.len bp.num_surbs p hid lp hl hi
        (omega arith) hk in
    record {
      sized = omega (
        arith,
        ap length
            (layout-header bp.message_id bp.last_index bp.index bp.contents.len bp.num_surbs p),
        length-append (header bp.message_id bp.last_index bp.index bp.contents.len bp.num_surbs) p,
        length-header bp.message_id bp.last_index bp.index bp.contents.len bp.num_surbs hid,
      );
      same_id = r.id_read;
      same_num = r.num_read;
      same_index = r.index_read;
      same_size = r.size_read;
      same_surbs = r.surbs_read;
      contents =
          rw (r.payload_read, r.size_read, slice_split_at_le p bp.contents.len (omega arith))
            (ap some (
              take-write_rchunks surb_size surbs (bytes ++ rest) bp.contents.len all (omega arith)
              ∙ take-append_self bp.contents.len bytes rest (sym v.counted)));
      replies =
          rw (r.payload_read, r.surbs_read)
            (ap (λ (n : ℕ). take n (rchunks_exact surb_size p)) (sym hs)
              ∙ rchunks_exact-write_rchunks surb_size surbs (bytes ++ rest) all (omega arith)
                  (omega arith));
    }

-- Writing a part of a message into a zeroed fragment does not panic, and with its SURBs filled in
-- the fragment carries that part.
pub write-Carries :
    (id : MessageId) (last i : ℕ) (bp : FragmentBlueprint) (surbs : List Bytes)
    (fragment : Fragment)
    → IsPart id last i bp
    → length id ≡ message_id_size
    → last < 65536
    → i < 65536
    → length surbs ≡ bp.num_surbs
    → AllLength surb_size surbs
    → length fragment ≡ fragment_size
    → (written : Fragment) × (write_except_surbs bp fragment ≡ some written)
      × Carries bp surbs (write_surbs surbs written)
unfolding write_except_surbs
write-Carries id last i bp surbs fragment part hid hl hi hs all sized =
    let tail = drop fragment_header_size fragment in
    let room : length tail ≡ 2025 = omega (arith, length-drop 23 fragment) in
    let len = bp.contents.len in
    let few : len ≤ length tail = omega (arith, part.fits) in
    let valid = part.contents_valid in
    let wrap : len % 2 ^ 16 ≡ len = omega (arith, part.fits) in
    rw
      (
        slice_split_at_le tail len few,
        copy_to_slice_lem bp.contents (take len tail),
        copy_from_slice_eq (take len tail) (Scattered.to_vec bp.contents)
            (omega (arith, length-take len tail, valid.counted)),
        wrap,
      )
      (
        layout bp.message_id bp.last_index bp.index len bp.num_surbs
            (Scattered.to_vec bp.contents ++ drop len tail),
        refl,
        rw
            (write_surbs-layout bp.message_id bp.last_index bp.index len bp.num_surbs
              (Scattered.to_vec bp.contents ++ drop len tail) surbs (ap length part.own_id ∙ hid))
            (layout-Carries bp surbs (drop len tail) valid (ap length part.own_id ∙ hid)
              (omega (arith, part.own_last)) (omega (arith, part.own_index))
              (omega (arith, part.few_surbs)) hs all part.fits
              (omega (arith, length-drop len tail))),
      )
