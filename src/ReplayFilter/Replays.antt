-- ===== src/ReplayFilter/Replays.antt =====
-- src/core/replay_filter.rs: a tag that was inserted is found from then on.
use mixnet.Base.{
  sym, subst, ℕ, zero, suc, ◌+◌, ◌%◌, ◌^◌, ◌≤◌, ◌<◌, ◌≡◌, refl, true, List, [], ◌∷◌, some, arith,
  inl, inr, eq-or-ne, eq→==, ne→not-==, bit_and, bit_and-bit_or_keeps, bit_and-bit_or_sets,
  pow-positive,
}
use mixnet.ReplayFilter.{
  Words, ReplayTag, ReplayFilter, word_index, bit, set_bit, insert_bits, insert, contains_bits,
  contains, num_tag_bits, words_or_zero,
}

-- The bit that `contains` looks at, in its place.
abbrev pub has_bit : Words → ℕ → ℕ
has_bit words i = bit_and (words (word_index i)) (bit i)

set_bit_keeps : (words : Words) (i j : ℕ) → has_bit words j ≤ has_bit (set_bit words i) j
unfolding set_bit
set_bit_keeps words i j = elim (eq-or-ne (word_index j) (word_index i)) [
  | inl same ↦ rw (eq→== _ _ same) (bit_and-bit_or_keeps (words (word_index j)) (bit i) (bit j))
  | inr other ↦ rw (ne→not-== _ _ other) (omega arith)
]

set_bit_sets : (words : Words) (i : ℕ) → 0 < has_bit (set_bit words i) i
unfolding set_bit
set_bit_sets words i =
    rw (eq→== (word_index i) (word_index i) refl) (
      omega
        (arith, pow-positive (bit_and i 63), bit_and-bit_or_sets (words (word_index i)) (bit i)))

insert_bits_keeps :
    (n i inc : ℕ) (words : Words) (j : ℕ) → has_bit words j ≤ has_bit (insert_bits n i inc words) j
unfolding insert_bits
insert_bits_keeps zero i inc words j = omega arith
insert_bits_keeps (suc n) i inc words j = omega (
  arith,
  set_bit_keeps words i j,
  insert_bits_keeps n ((i + inc) % 2 ^ 32) inc (set_bit words i) j,
)

-- All bits of a tag are set.
abbrev pub AllSet : ℕ → ℕ → ℕ → Words → Type 0
AllSet zero i inc words = Unit {0}
AllSet (suc n) i inc words = (0 < has_bit words i) × AllSet n ((i + inc) % 2 ^ 32) inc words

AllSet-weaken :
    (n i inc : ℕ) (words more : Words)
    → ((j : ℕ) → has_bit words j ≤ has_bit more j)
    → AllSet n i inc words
    → AllSet n i inc more
AllSet-weaken zero i inc words more h a = tt
AllSet-weaken (suc n) i inc words more h a =
    (omega (arith, h i, a.0), AllSet-weaken n ((i + inc) % 2 ^ 32) inc words more h a.1)

insert_bits-AllSet : (n i inc : ℕ) (words : Words) → AllSet n i inc (insert_bits n i inc words)
unfolding insert_bits
insert_bits-AllSet zero i inc words = tt
insert_bits-AllSet (suc n) i inc words =
    let next = (i + inc) % 2 ^ 32 in
    (
      omega (arith, set_bit_sets words i, insert_bits_keeps n next inc (set_bit words i) i),
      insert_bits-AllSet n next inc (set_bit words i),
    )

contains_bits-AllSet :
    (n i inc : ℕ) (words : Words) → AllSet n i inc words → contains_bits n i inc words ≡ true
unfolding contains_bits
contains_bits-AllSet zero i inc words a = refl
contains_bits-AllSet (suc n) i inc words a =
    rw (ne→not-== (has_bit words i) 0 (λ e. omega (arith, a.0, e)))
      (contains_bits-AllSet n ((i + inc) % 2 ^ 32) inc words a.1)

-- Insertions one after the other.
abbrev pub insert_all : ReplayFilter → List ReplayTag → ReplayFilter
insert_all filter [] = filter
insert_all filter (tag ∷ tags) = insert_all (insert filter tag) tags

insert_all-AllSet :
    (tag : ReplayTag) (tags : List ReplayTag) (filter : ReplayFilter) (words : Words)
    → filter.words ≡ some words
    → AllSet num_tag_bits tag.base tag.inc words
    → contains (insert_all filter tags) tag ≡ true
unfolding contains insert words_or_zero
insert_all-AllSet tag [] filter words e a =
    rw (e, contains) (contains_bits-AllSet num_tag_bits tag.base tag.inc words a)
insert_all-AllSet tag (other ∷ tags) filter words e a =
    insert_all-AllSet tag tags (insert filter other) _ refl (
      AllSet-weaken num_tag_bits tag.base tag.inc words
        (insert_bits num_tag_bits other.base other.inc (words_or_zero filter.words))
        (λ j.
          subst
            (λ o.
              has_bit words j
              ≤ has_bit (insert_bits num_tag_bits other.base other.inc (words_or_zero o)) j)
            (sym e) (insert_bits_keeps num_tag_bits other.base other.inc words j))
        a)

-- The filter has no false negatives: a tag that was inserted into any filter is found, whatever
-- tags are inserted after it.
pub insert-contains :
    (filter : ReplayFilter) (tag : ReplayTag) (tags : List ReplayTag)
    → contains (insert_all (insert filter tag) tags) tag ≡ true
unfolding insert
insert-contains filter tag tags =
    insert_all-AllSet tag tags (insert filter tag) _ refl
      (insert_bits-AllSet num_tag_bits tag.base tag.inc (words_or_zero filter.words))
