-- ===== src/ReplayFilter.antt =====
-- src/core/replay_filter.rs: the Bloom filter of the packets that were seen. The array of words has a
-- fixed length, and each index is reduced to it, so it is a function of the index. The keyed hash of
-- the package blake2 is a parameter.
pub mod Replays
mod Examples
use mixnet.Base.{
  ℕ, zero, suc, ◌+◌, ◌*◌, ◌/◌, ◌%◌, ◌^◌, Bool, true, false, List, [], ◌∷◌, ◌++◌, Option, none, some,
  Bytes, from_le_bytes, bit_and, bit_or, ◌==◌, if◌then◌else◌,
}

abbrev pub num_bits : ℕ
num_bits = 64 * 1024 * 1024

abbrev pub num_words : ℕ
num_words = num_bits / 64

abbrev pub num_tag_bits : ℕ
num_tag_bits = 8

pub record ReplayTag : Type 0 where
  pub base : ℕ
  pub inc : ℕ

abbrev pub Words : Type 0
Words = ℕ → ℕ

pub record ReplayFilter : Type 0 where
  pub key : Bytes
  pub words : Option Words

unfoldable pub new_with_key : Bytes → ReplayFilter
new_with_key key = record { key = key; words = none }

-- `tag`, over the hash of the key, which is joined to the shared secret.
unfoldable pub tag : (Bytes → Bytes) → ReplayFilter → Bytes → ReplayTag
tag mac filter shared_secret =
    let tag = from_le_bytes (mac (filter.key ++ shared_secret)) in
    record { base = tag % 2 ^ 32; inc = tag / 2 ^ 32 % 2 ^ 32 }

-- The array that is allocated on demand.
unfoldable pub words_or_zero : Option Words → Words
words_or_zero none = λ j. 0
words_or_zero (some words) = words

abbrev pub word_index : ℕ → ℕ
word_index i = i / 2 ^ 6 % num_words

-- `1 << (i & 63)`.
abbrev pub bit : ℕ → ℕ
bit i = 2 ^ bit_and i 63

unfoldable pub set_bit : Words → ℕ → Words
set_bit words i j = if j == word_index i then bit_or (words j) (bit i) else words j

-- The loop of `insert`, with the number of bits to go.
unfoldable pub insert_bits : ℕ → ℕ → ℕ → Words → Words
insert_bits zero i inc words = words
insert_bits (suc n) i inc words = insert_bits n ((i + inc) % 2 ^ 32) inc (set_bit words i)

unfoldable pub insert : ReplayFilter → ReplayTag → ReplayFilter
insert filter tag = record filter {
  words = some (insert_bits num_tag_bits tag.base tag.inc (words_or_zero filter.words));
}

-- The loop of `contains`.
unfoldable pub contains_bits : ℕ → ℕ → ℕ → Words → Bool
contains_bits zero i inc words = true
contains_bits (suc n) i inc words =
    let rest = contains_bits n ((i + inc) % 2 ^ 32) inc words in
    if bit_and (words (word_index i)) (bit i) == 0 then false else rest

unfoldable pub contains : ReplayFilter → ReplayTag → Bool
contains filter tag = elim (filter.words) [
  | none ↦ false
  | some words ↦ contains_bits num_tag_bits tag.base tag.inc words
]
