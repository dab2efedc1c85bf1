-- ===== src/ReplayFilter/Examples.antt =====
-- src/core/replay_filter.rs: a run of the filter, with the bytes themselves for their hash.
use mixnet.Base.{◌+◌, ◌≡◌, refl, true, false, Bool, List, [], ◌∷◌, from_le_bytes}
use mixnet.ReplayFilter.{
  ReplayTag, ReplayFilter, new_with_key, tag, insert, contains, insert_bits, contains_bits, set_bit,
  words_or_zero,
}
use mixnet.ReplayFilter.Replays.{insert_all, insert-contains}

abbrev empty_filter : ReplayFilter
empty_filter = new_with_key (7 ∷ [])

abbrev first_tag : ReplayTag
first_tag = record { base = 4294967290; inc = 67 }

abbrev other_tag : ReplayTag
other_tag = record { base = 100; inc = 3 }

insert-contains_example :
    contains (insert_all (insert empty_filter first_tag) (other_tag ∷ [])) first_tag ≡ true
insert-contains_example = insert-contains empty_filter first_tag (other_tag ∷ [])

abbrev found : List Bool
found =
    contains empty_filter first_tag
    ∷ contains (insert empty_filter first_tag) first_tag
    ∷ contains (insert empty_filter first_tag) other_tag
    ∷ []

found_run : found ≡ false ∷ true ∷ false ∷ []
unfolding new_with_key insert contains insert_bits contains_bits set_bit words_or_zero
found_run = refl

abbrev tag_of : ReplayTag
tag_of = tag (λ bytes. bytes) empty_filter (1 ∷ 0 ∷ 0 ∷ 2 ∷ [])

tag_run : tag_of ≡ record { base = 7 + 256; inc = 2 }
unfolding tag new_with_key from_le_bytes
tag_run = refl
