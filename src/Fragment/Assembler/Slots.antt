-- ===== src/Fragment/Assembler/Slots.antt =====
-- src/core/fragment.rs: `IncompleteMessage`, when its slots hold fragments of its own message.
use mixnet.Base.{
  ℕ, zero, suc, ◌+◌, ◌≤◌, ◌<◌, ◌≡◌, ◌≢◌, refl, List, [], ◌∷◌, Option, none, some, Result, ok, err,
  eq-or-ne, inl, inr, length, get_elem?, set, replicate, get_elem?_lt, length-set, length-replicate,
  eq→==, ne→not-==, arith, Bytes, ap, sym, subst, ◌∙◌, get_elem?-replicate,
}
use mixnet.Fragment.{Fragment, MessageId, num_fragments, message_id, fragment_index}
use mixnet.Fragment.Check.{IsChecked, check_fragment-bounds, data_of_checked}
use mixnet.Fragment.Message.{
  IncompleteMessage, IncompleteMessageInsertErr, GenericMessage, already_have, insert_incomplete,
  new_incomplete, complete_fragments, expect_all, from_fragments, extend_fragments,
}
use mixnet.Fragment.Assembler.Eviction.{count_some, Belongs, AllFill}

-- What an incomplete message may hold, complete or not.
pub record IsStored (id : MessageId) (im : IncompleteMessage) : Type 0 where
  pub counted : im.num_received_fragments ≡ count_some im.fragments
  pub filled : AllFill id (length im.fragments) 0 im.fragments

count_some-le {ℓ} : {A : Type ℓ} (slots : List (Option A)) → count_some slots ≤ length slots
count_some-le [] = omega arith
count_some-le (none ∷ slots) = omega (arith, count_some-le slots)
count_some-le (some x ∷ slots) = omega (arith, count_some-le slots)

count_some-set {ℓ} :
    {A : Type ℓ} (slots : List (Option A)) (i : ℕ) (x : A)
    → get_elem? slots i ≡ some none
    → count_some (set slots i (some x)) ≡ suc (count_some slots)
unfolding get_elem? set
count_some-set [] i x h = absurd (cc)
count_some-set (none ∷ slots) zero x h = refl
count_some-set (some y ∷ slots) zero x h = absurd (cc)
count_some-set (none ∷ slots) (suc i) x h = count_some-set slots i x h
count_some-set (some y ∷ slots) (suc i) x h = ap suc (count_some-set slots i x h)

count_some-replicate : (n : ℕ) → count_some {A = Fragment} (replicate n none) ≡ 0
unfolding replicate
count_some-replicate zero = refl
count_some-replicate (suc n) = count_some-replicate n

AllFill-set :
    (id : MessageId) (n i j : ℕ) (fragment : Fragment) (slots : List (Option Fragment))
    → AllFill id n i slots
    → Belongs id n (i + j) fragment
    → AllFill id n i (set slots j (some fragment))
unfolding set
AllFill-set id n i j fragment [] a b = tt
AllFill-set id n i zero fragment (slot ∷ slots) a b =
    let e : i + 0 ≡ i = omega arith in (subst (λ k. Belongs id n k fragment) e b, a.1)
AllFill-set id n i (suc j) fragment (slot ∷ slots) a b =
    let e : i + suc j ≡ suc i + j = omega arith in
    (a.0, AllFill-set id n (suc i) j fragment slots a.1 (subst (λ k. Belongs id n k fragment) e b))

AllFill-replicate : (id : MessageId) (n i m : ℕ) → AllFill id n i (replicate m none)
unfolding replicate
AllFill-replicate id n i zero = tt
AllFill-replicate id n i (suc m) = (tt, AllFill-replicate id n (suc i) m)

pub new_incomplete-IsStored : (id : MessageId) (n : ℕ) → IsStored id (new_incomplete n)
unfolding new_incomplete
new_incomplete-IsStored id n = record {
  counted = sym (count_some-replicate n);
  filled = AllFill-replicate id _ 0 n;
}

-- What an insertion may do to a stored message: nothing but an error, or one more filled slot.
pub data Inserts (id : MessageId) (im : IncompleteMessage) (fragment : Fragment)
    : Option (Result IncompleteMessage IncompleteMessageInsertErr) → Type 0 where
  refused : (e : IncompleteMessageInsertErr) → Inserts id im fragment (some (err e))
  inserted :
      (im' : IncompleteMessage)
      → num_fragments fragment ≡ length im.fragments
      → get_elem? im.fragments (fragment_index fragment) ≡ some none
      → im'.fragments ≡ set im.fragments (fragment_index fragment) (some fragment)
      → im'.num_received_fragments ≡ im.num_received_fragments + 1
      → IsStored id im'
      → Inserts id im fragment (some (ok im'))

-- An insertion into an empty slot of the message.
pub insert_open :
    (id : MessageId) (im : IncompleteMessage) (fragment : Fragment)
    → IsStored id im
    → IsChecked fragment
    → message_id fragment ≡ id
    → num_fragments fragment ≡ length im.fragments
    → get_elem? im.fragments (fragment_index fragment) ≡ some none
    → (im' : IncompleteMessage) × (insert_incomplete im fragment ≡ some (ok im'))
      × (im'.fragments ≡ set im.fragments (fragment_index fragment) (some fragment))
      × (im'.num_received_fragments ≡ im.num_received_fragments + 1)
      × IsStored id im'
unfolding insert_incomplete
insert_open id im fragment s c e n h = (
  record {
    fragments = set im.fragments (fragment_index fragment) (some fragment);
    num_received_fragments = im.num_received_fragments + 1;
  },
  rw (eq→== _ _ n, h, insert_incomplete),
  refl,
  refl,
  record {
    counted =
        omega (arith, s.counted, count_some-set im.fragments (fragment_index fragment) fragment h);
    filled = rw (length-set im.fragments (fragment_index fragment) (some fragment)) (
        AllFill-set id (length im.fragments) 0 (fragment_index fragment) fragment im.fragments
          s.filled (record { checked = c; same_id = e; same_num = n; own_index = omega arith }));
  },
)

-- The first fragment of a message always goes in.
pub insert_first :
    (fragment : Fragment)
    → IsChecked fragment
    → (im : IncompleteMessage) × (insert_incomplete
          (new_incomplete (num_fragments fragment))
          fragment
        ≡ some (ok im))
      × (length im.fragments ≡ num_fragments fragment)
      × (im.num_received_fragments ≡ 1)
      × IsStored (message_id fragment) im
unfolding new_incomplete
insert_first fragment c =
    let n = num_fragments fragment in
    let (im, e, fs, k, s) =
      insert_open (message_id fragment) (new_incomplete n) fragment
        (new_incomplete-IsStored (message_id fragment) n) c refl
        (sym (length-replicate {A = Option Fragment} n none))
        (get_elem?-replicate n none (fragment_index fragment)
          (check_fragment-bounds fragment c.passed).0) in
    (
      im,
      e,
      ap length fs
          ∙ length-set (replicate n none) (fragment_index fragment) (some fragment)
          ∙ length-replicate n none,
      k,
      s,
    )

insert_slot :
    (id : MessageId) (im : IncompleteMessage) (fragment : Fragment)
    → IsStored id im
    → IsChecked fragment
    → message_id fragment ≡ id
    → num_fragments fragment ≡ length im.fragments
    → (slot : Option Fragment) → get_elem? im.fragments (fragment_index fragment) ≡ some slot
    → Inserts id im fragment (insert_incomplete im fragment)
unfolding insert_incomplete
insert_slot id im fragment s c e n (some f) h =
    rw (eq→== _ _ n, h, insert_incomplete) (refused already_have)
insert_slot id im fragment s c e n none h =
    let (im', e', fs, k, s') = insert_open id im fragment s c e n h in
    rw e' (inserted im' n h fs k s')

-- No insertion of a checked fragment panics.
pub insert_incomplete-Inserts :
    (id : MessageId) (im : IncompleteMessage) (fragment : Fragment)
    → IsStored id im
    → IsChecked fragment
    → message_id fragment ≡ id
    → Inserts id im fragment (insert_incomplete im fragment)
unfolding insert_incomplete
insert_incomplete-Inserts id im fragment s c e =
    elim (eq-or-ne (num_fragments fragment) (length im.fragments)) [
      | inl n ↦
          let (slot, h) =
            get_elem?_lt im.fragments (fragment_index fragment)
              (omega (arith, n, check_fragment-bounds fragment c.passed)) in
          insert_slot id im fragment s c e n slot h
      | inr n ↦ rw (ne→not-== _ _ n) (refused _)
    ]

-- A fragment of each slot, in order.
abbrev pub AllBelong : MessageId → ℕ → ℕ → List Fragment → Type 0
AllBelong id n i [] = Unit {0}
AllBelong id n i (fragment ∷ fragments) = Belongs id n i fragment × AllBelong id n (suc i) fragments

pub expect_all_full :
    (id : MessageId) (n i : ℕ) (slots : List (Option Fragment))
    → AllFill id n i slots
    → count_some slots ≡ length slots
    → (fragments : List Fragment) × (expect_all slots ≡ some fragments)
      × (length fragments ≡ length slots)
      × AllBelong id n i fragments
unfolding expect_all
expect_all_full id n i [] a h = ([], refl, refl, tt)
expect_all_full id n i (none ∷ slots) a h = absurd (omega (arith, count_some-le slots))
expect_all_full id n i (some fragment ∷ slots) a h =
    let (fragments, e, l, b) = expect_all_full id n (suc i) slots a.1 (omega arith) in
    (fragment ∷ fragments, rw e, ap suc l, (a.0, b))

pub extend_fragments_total :
    (id : MessageId) (n i : ℕ) (fragments : List Fragment) (bytes : Bytes) (surbs : List Bytes)
    → AllBelong id n i fragments
    → (r : Bytes × List Bytes) × (extend_fragments fragments bytes surbs ≡ some r)
unfolding extend_fragments
extend_fragments_total id n i [] bytes surbs a = ((bytes, surbs), refl)
extend_fragments_total id n i (fragment ∷ fragments) bytes surbs a =
    rw (data_of_checked fragment a.0.checked)
      (extend_fragments_total id n (suc i) fragments _ _ a.1)

-- Reassembly of one or more checked fragments does not panic, and gives the id of the message.
pub from_fragments_total :
    (id : MessageId) (n i : ℕ) (fragments : List Fragment)
    → AllBelong id n i fragments
    → 0 < length fragments
    → (message : GenericMessage) × (from_fragments fragments ≡ some message) × (message.id ≡ id)
unfolding from_fragments
from_fragments_total id n i [] a h = absurd (omega arith)
from_fragments_total id n i (fragment ∷ fragments) a h =
    let ((bytes, surbs), e) = extend_fragments_total id n i (fragment ∷ fragments) [] [] a in
    (record { id = message_id fragment; payload = bytes; surbs = surbs }, rw e, a.0.same_id)

pub complete_fragments_full :
    (im : IncompleteMessage)
    → im.num_received_fragments ≡ length im.fragments
    → complete_fragments im ≡ some (expect_all im.fragments)
unfolding complete_fragments
complete_fragments_full im h = rw (eq→== _ _ h)

pub complete_fragments_open :
    (im : IncompleteMessage)
    → im.num_received_fragments ≢ length im.fragments
    → complete_fragments im ≡ none
unfolding complete_fragments
complete_fragments_open im h = rw (ne→not-== _ _ h)

pub stored-le :
    (id : MessageId) (im : IncompleteMessage)
    → IsStored id im
    → im.num_received_fragments ≤ length im.fragments
stored-le id im s = omega (arith, s.counted, count_some-le im.fragments)
