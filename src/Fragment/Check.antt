-- ===== src/Fragment/Check.antt =====
-- src/core/fragment.rs: what `check_fragment` assures of a fragment of the right length.
use mixnet.Base.{
  inr, ◌∙◌, inl, refl, lt-or-le, ltb, ◌-◌, leb, if◌then◌else◌, ◌⊎◌, drop-append_self, err,
  from_le_bytes, drop, ◌∷◌, Result, ◌++◌, Bytes, ℕ, ◌+◌, ◌*◌, ◌≤◌, ◌<◌, ◌≡◌, some, ok, length, take,
  length-take, length-drop, slice_split_at_le, arith,
}
use mixnet.Sphinx.{surb_size}
use mixnet.Fragment.{
  payload_size, index, CheckFragmentErr, message_id_size, Fragment, check_fragment, num_fragments,
  fragment_index, fragment_data_size, fragment_num_surbs, fragment_payload, fragment_size,
  fragment_payload_size, split_fragment,
}
use mixnet.Fragment.Message.{data_of}

-- A fragment that fills its array and passed the check.
pub record IsChecked (fragment : Fragment) : Type 0 where
  pub sized : length fragment ≡ fragment_size
  pub passed : check_fragment fragment ≡ ok tt

pub length-fragment_payload :
    (fragment : Fragment)
    → length fragment ≡ fragment_size
    → length (fragment_payload fragment) ≡ fragment_payload_size
unfolding fragment_payload split_fragment
length-fragment_payload fragment h = omega (arith, length-take {0}, length-drop {0})

-- The slot of a fragment that passes the check exists, and the payload holds what the header
-- announces.
pub check_fragment-bounds :
    (fragment : Fragment)
    → check_fragment fragment ≡ ok tt
    → (fragment_index fragment < num_fragments fragment)
      × (fragment_data_size fragment + fragment_num_surbs fragment * surb_size
          ≤ fragment_payload_size)
unfolding check_fragment
check_fragment-bounds fragment h = ground arith

pub check_fragment-passes :
    (fragment : Fragment)
    → fragment_index fragment < num_fragments fragment
    → fragment_data_size fragment + fragment_num_surbs fragment * surb_size ≤ fragment_payload_size
    → check_fragment fragment ≡ ok tt
unfolding check_fragment
check_fragment-passes fragment h k = ground arith

-- A number of two bytes, the low one first.
abbrev pub of_bytes : ℕ → ℕ → ℕ
of_bytes low high = low + 256 * high

-- The bytes of a fragment after its message id.
abbrev pub laid_out :
    (id : Bytes) (last₀ last₁ index₀ index₁ size₀ size₁ surbs : ℕ) (payload : Bytes) → Fragment
laid_out id last₀ last₁ index₀ index₁ size₀ size₁ surbs payload =
    id ++ last₀ ∷ last₁ ∷ index₀ ∷ index₁ ∷ size₀ ∷ size₁ ∷ surbs ∷ payload

module _ (id : Bytes) (last₀ last₁ index₀ index₁ size₀ size₁ surbs : ℕ) (payload : Bytes)
    (h : length id ≡ message_id_size) where
  abbrev whole : Fragment
  whole = laid_out id last₀ last₁ index₀ index₁ size₀ size₁ surbs payload

  after_id :
      drop message_id_size whole ≡ last₀ ∷ last₁ ∷ index₀ ∷ index₁ ∷ size₀ ∷ size₁ ∷ surbs ∷ payload
  after_id = drop-append_self message_id_size id _ h

  num_fragments-laid_out : num_fragments whole ≡ of_bytes last₀ last₁ + 1
  unfolding num_fragments split_fragment from_le_bytes take
  num_fragments-laid_out = rw (after_id) (omega arith)

  fragment_index-laid_out : fragment_index whole ≡ of_bytes index₀ index₁
  unfolding fragment_index split_fragment from_le_bytes take drop
  fragment_index-laid_out = rw (after_id) (omega arith)

  fragment_data_size-laid_out : fragment_data_size whole ≡ of_bytes size₀ size₁
  unfolding fragment_data_size split_fragment from_le_bytes take drop
  fragment_data_size-laid_out = rw (after_id) (omega arith)

  fragment_num_surbs-laid_out : fragment_num_surbs whole ≡ surbs
  unfolding fragment_num_surbs split_fragment from_le_bytes take drop
  fragment_num_surbs-laid_out = rw (after_id) (omega arith)

-- Both tests, for the numbers of a header.
verdict :
    (l i size : ℕ) (checked : Result (Unit {0}) CheckFragmentErr)
    → checked ≡ (
        if leb (l + 1) i
        then err (index i (l + 1 - 1))
        else (if ltb fragment_payload_size size
            then err (payload_size size fragment_payload_size)
            else ok tt))
    → ((l < i) × (checked ≡ err (index i l)))
      ⊎ ((i ≤ l)
          × (fragment_payload_size < size)
          × (checked ≡ err (payload_size size fragment_payload_size)))
      ⊎ ((i ≤ l) × (size ≤ fragment_payload_size) × (checked ≡ ok tt))
verdict l i size checked e = elim (lt-or-le l i) [
  | inl above ↦ inl (above, e ∙ ground arith)
  | inr within ↦ elim (lt-or-le fragment_payload_size size) [
    | inl large ↦ inr (inl (within, large, e ∙ ground arith))
    | inr fits ↦ inr (inr (within, fits, e ∙ ground arith))
  ]
]

-- The answer of the check, read off the bytes of a fragment whose message id has its 16 bytes. After
-- the id come the last index and the index, of two bytes with the low one first, the data size, in
-- the same form, and the number of SURBs, of one byte. An index above the last one is an error that
-- names both. Otherwise, if the data and the SURBs take more than the room of the payload, the error
-- names their size and this room; and if not, the fragment passes.
pub check_fragment_lem :
    (id : Bytes) (last₀ last₁ index₀ index₁ size₀ size₁ surbs : ℕ) (payload : Bytes)
    → length id ≡ message_id_size
    → let checked =
        check_fragment (laid_out id last₀ last₁ index₀ index₁ size₀ size₁ surbs payload) in
      let last_index = of_bytes last₀ last₁ in
      let own_index = of_bytes index₀ index₁ in
      let size = of_bytes size₀ size₁ + surbs * surb_size in
      ((last_index < own_index) × (checked ≡ err (index own_index last_index)))
      ⊎ ((own_index ≤ last_index)
          × (fragment_payload_size < size)
          × (checked ≡ err (payload_size size fragment_payload_size)))
      ⊎ ((own_index ≤ last_index) × (size ≤ fragment_payload_size) × (checked ≡ ok tt))
unfolding check_fragment
check_fragment_lem id last₀ last₁ index₀ index₁ size₀ size₁ surbs payload h =
    let f = laid_out id last₀ last₁ index₀ index₁ size₀ size₁ surbs payload in
    let e₁ = num_fragments-laid_out id last₀ last₁ index₀ index₁ size₀ size₁ surbs payload h in
    let e₂ = fragment_index-laid_out id last₀ last₁ index₀ index₁ size₀ size₁ surbs payload h in
    let e₃ = fragment_data_size-laid_out id last₀ last₁ index₀ index₁ size₀ size₁ surbs payload h in
    let e₄ = fragment_num_surbs-laid_out id last₀ last₁ index₀ index₁ size₀ size₁ surbs payload h in
    verdict (of_bytes last₀ last₁) (of_bytes index₀ index₁)
      (of_bytes size₀ size₁ + surbs * surb_size) (check_fragment f) (rw (e₁, e₂, e₃, e₄) refl)

pub data_of_checked :
    (fragment : Fragment)
    → IsChecked fragment
    → data_of fragment ≡ some (take (fragment_data_size fragment) (fragment_payload fragment))
unfolding data_of
data_of_checked fragment c = rw (
    slice_split_at_le (fragment_payload fragment) (fragment_data_size fragment) (
      omega
        (arith, check_fragment-bounds fragment c.passed, length-fragment_payload fragment c.sized)))

pub num_fragments-pos : (fragment : Fragment) → 0 < num_fragments fragment
unfolding num_fragments
num_fragments-pos fragment = omega arith
