-- ===== src/Fragment/Blueprint/Spread.antt =====
-- src/core/fragment.rs: how the blueprints spread the data and the SURBs.
use mixnet.Base.{
  subst, ◌⊎◌, ℕ, zero, suc, ◌+◌, ◌-◌, ◌*◌, ◌≤◌, ◌<◌, ◌≡◌, refl, sym, ap, min, List, [], ◌∷◌, ◌++◌,
  none, some, arith, checked_sub_le, length, length-zero, take-append-drop, inl, inr, lt-or-le,
  le→leb, lt→not-leb,
}
use mixnet.Sphinx.{surb_size}
use mixnet.Scattered
use mixnet.Scattered.{Scattered}
use mixnet.Scattered.Contents
use mixnet.Scattered.Split.{split_at-Cuts}
use mixnet.Fragment.{MessageId, fragment_payload_size, max_surbs_per_fragment}
use mixnet.Fragment.Assembler.{usize_max}
use mixnet.Fragment.Blueprint.{
  FragmentBlueprint, blueprints_from, fragment_blueprints, count, fragment_index_max,
}
use mixnet.Fragment.Blueprint.Count.{Room, count_least}

abbrev pub all_data : List FragmentBlueprint → List ℕ
all_data [] = []
all_data (bp ∷ bps) = Scattered.to_vec bp.contents ++ all_data bps

abbrev pub all_surbs : List FragmentBlueprint → ℕ
all_surbs [] = 0
all_surbs (bp ∷ bps) = bp.num_surbs + all_surbs bps

-- One blueprint of the message: its place in it, and contents that fit in a payload.
pub record IsPart (id : MessageId) (last i : ℕ) (bp : FragmentBlueprint) : Type 0 where
  pub own_id : bp.message_id ≡ id
  pub own_last : bp.last_index ≡ last
  pub own_index : bp.index ≡ i
  pub contents_valid : Contents.IsValid bp.contents
  pub few_surbs : bp.num_surbs ≤ max_surbs_per_fragment
  pub fits : bp.contents.len + bp.num_surbs * surb_size ≤ fragment_payload_size

abbrev pub AllParts : MessageId → ℕ → ℕ → List FragmentBlueprint → Type 0
AllParts id last i [] = Unit {0}
AllParts id last i (bp ∷ bps) = IsPart id last i bp × AllParts id last (i + 1) bps

-- The blueprints `bps` are those of a message.
pub record Spreads (id : MessageId) (last i : ℕ) (d : List ℕ) (s : ℕ) (bps : List FragmentBlueprint)
    : Type 0 where
  pub parts : AllParts id last i bps
  pub data_kept : all_data bps ≡ d
  pub surbs_kept : all_surbs bps ≡ s

empty_of_len : (d : Scattered ℕ) → Contents.IsValid d → d.len ≡ 0 → Scattered.to_vec d ≡ []
empty_of_len d v h = length-zero (Scattered.to_vec d) (omega (arith, v.counted))

blueprints_from-Spreads :
    (n i last : ℕ) (id : MessageId) (d : Scattered ℕ) (s : ℕ)
    → Contents.IsValid d
    → Room n d.len s
    → i + n ≤ 65536
    → last < 65536
    → (bps : List FragmentBlueprint) × (blueprints_from n i id last d s ≡ some bps)
      × (length bps ≡ n)
      × Spreads id last i (Scattered.to_vec d) s bps
unfolding blueprints_from
blueprints_from-Spreads zero i last id d s v room hi hl = (
  [],
  refl,
  refl,
  record { parts = tt; data_kept = sym (empty_of_len d v (omega arith)); surbs_kept = omega arith },
)
blueprints_from-Spreads (suc n) i last id d s v room hi hl =
    let k = min s max_surbs_per_fragment in
    let size = min d.len (fragment_payload_size - k * surb_size) in
    let (left, right, cut, parts) = split_at-Cuts d size v (omega arith) in
    let (rest, e, l, spread) =
      blueprints_from-Spreads n (i + 1) last id right (s - k) parts.right_valid
        (omega (arith, parts.right_len), omega (arith, parts.right_len)) (omega arith) hl in
    rw (checked_sub_le fragment_payload_size (k * surb_size) (omega arith), cut, e)
      (
        _,
        refl,
        ap suc l,
        record {
          parts = (
            record {
              own_id = refl;
              own_last = omega arith;
              own_index = omega arith;
              contents_valid = parts.left_valid;
              few_surbs = omega arith;
              fits = omega (arith, parts.left_len);
            },
            spread.parts,
          );
          data_kept =
              rw (spread.data_kept, parts.left_elems, parts.right_elems)
                (take-append-drop size (Scattered.to_vec d));
          surbs_kept = omega (arith, spread.surbs_kept);
        },
      )

least_above :
    (n l d s : ℕ)
    → l ≡ n
    → n ≤ fragment_index_max + 1
    → ((m : ℕ) → 0 < m → m ≤ fragment_index_max + 1 → Room m d s → n ≤ m)
    → (m : ℕ) → 0 < m
    → Room m d s
    → l ≤ m
least_above n l d s e few least m h room = elim (lt-or-le 65536 m) [
  | inl far ↦ omega arith
  | inr near ↦ rw e (least m h (omega arith) room)
]

fragment_blueprints_counted :
    (n : ℕ) (id : MessageId) (d : Scattered ℕ) (s : ℕ)
    → Contents.IsValid d
    → count d.len s ≡ some n
    → 0 < n
    → (n ≤ fragment_index_max + 1 → Room n d.len s)
    → ((m : ℕ) → 0 < m → m ≤ fragment_index_max + 1 → Room m d.len s → n ≤ m)
    → n ≤ fragment_index_max + 1
    → (bps : List FragmentBlueprint) × (fragment_blueprints id d s ≡ some (some bps))
      × Spreads id (length bps - 1) 0 (Scattered.to_vec d) s bps
      × (0 < length bps)
      × (length bps ≤ fragment_index_max + 1)
      × ((m : ℕ) → 0 < m → Room m d.len s → length bps ≤ m)
unfolding fragment_blueprints
fragment_blueprints_counted n id d s v e pos enough least few =
    let (bps, e', l, spread) =
      blueprints_from-Spreads n 0 (n - 1) id d s v (enough few) (omega arith) (omega arith) in
    rw (e, le→leb (n - 1) fragment_index_max (omega arith), e')
      (bps, refl, rw l spread, rw l pos, rw l few, least_above n (length bps) d.len s l few least)

fragment_blueprints_lem :
    (id : MessageId) (d : Scattered ℕ) (s : ℕ)
    → Contents.IsValid d
    → d.len ≤ usize_max
    → s ≤ usize_max
    → Room (fragment_index_max + 1) d.len s
    → (bps : List FragmentBlueprint) × (fragment_blueprints id d s ≡ some (some bps))
      × Spreads id (length bps - 1) 0 (Scattered.to_vec d) s bps
      × (0 < length bps)
      × (length bps ≤ fragment_index_max + 1)
      × ((m : ℕ) → 0 < m → Room m d.len s → length bps ≤ m)
fragment_blueprints_lem id d s v hd hs room =
    let (n, e, pos, enough, least) = count_least d.len s hd hs in
    fragment_blueprints_counted n id d s v e pos enough least
      (least 65536 (omega arith) (omega arith) room)

-- A message with room in 65536 fragments gets blueprints, with no panic: at least one of them, and
-- no more than can be numbered. In order they hold all its data and ask for all its SURBs, each
-- fits in a payload, and each is numbered by its place and by the last one.
pub fragment_blueprints-Spreads :
    (id : MessageId) (d : Scattered ℕ) (s : ℕ)
    → Contents.IsValid d
    → d.len ≤ usize_max
    → s ≤ usize_max
    → Room (fragment_index_max + 1) d.len s
    → (bps : List FragmentBlueprint) × (fragment_blueprints id d s ≡ some (some bps))
      × Spreads id (length bps - 1) 0 (Scattered.to_vec d) s bps
      × (0 < length bps)
      × (length bps ≤ fragment_index_max + 1)
fragment_blueprints-Spreads id d s v hd hs room =
    let (bps, e, spread, pos, few, _) = fragment_blueprints_lem id d s v hd hs room in
    (bps, e, spread, pos, few)

-- A message without room in 65536 fragments gets no blueprints, and there is no panic either.
pub fragment_blueprints_too_many :
    (id : MessageId) (d : Scattered ℕ) (s : ℕ)
    → d.len ≤ usize_max
    → s ≤ usize_max
    → ¬ Room (fragment_index_max + 1) d.len s
    → fragment_blueprints id d s ≡ some none
unfolding fragment_blueprints
fragment_blueprints_too_many id d s hd hs none_fits =
    let (n, e, pos, enough, least) = count_least d.len s hd hs in
    elim (lt-or-le fragment_index_max (n - 1)) [
      | inl many ↦ rw (e, lt→not-leb (n - 1) fragment_index_max many)
      | inr few ↦
          let (hs', hd') = enough (omega arith) in absurd (none_fits (omega arith, omega arith))
    ]

pub Room-cases :
    (d s : ℕ) → Room (fragment_index_max + 1) d s ⊎ (¬ Room (fragment_index_max + 1) d s)
Room-cases d s = elim (lt-or-le 589824 s) [
  | inl many ↦ inr (λ r. omega (arith, r.0))
  | inr few ↦ elim (lt-or-le 132710400 (d + s * surb_size)) [
    | inl large ↦ inr (λ r. omega (arith, r.1))
    | inr small ↦ inl (omega arith, omega arith)
  ]
]

-- The blueprints of a message are no more than any positive number of fragments that has room for
-- its data and its SURBs.
pub fragment_blueprints_least :
    (id : MessageId) (d : Scattered ℕ) (s : ℕ) (bps : List FragmentBlueprint) (m : ℕ)
    → Contents.IsValid d
    → d.len ≤ usize_max
    → s ≤ usize_max
    → fragment_blueprints id d s ≡ some (some bps)
    → 0 < m
    → Room m d.len s
    → length bps ≤ m
fragment_blueprints_least id d s bps m v hd hs e pos room = elim (Room-cases d.len s) [
  | inl fits ↦
      let (bps', e', _, _, _, least) = fragment_blueprints_lem id d s v hd hs fits in
      let same : bps' ≡ bps = cc in subst (λ b. length b ≤ m) same (least m pos room)
  | inr full ↦ absurd (cc (fragment_blueprints_too_many id d s hd hs full))
]
