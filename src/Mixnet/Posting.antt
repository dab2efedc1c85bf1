-- ===== src/Mixnet/Posting.antt =====
-- src/core/mod.rs: which session a message may be posted to.
use mixnet.Base.{
  lt→ltb, le→not-ltb, ltb, Bool-cases, refl, ℕ, ◌+◌, ◌≤◌, ◌<◌, ◌≡◌, ◌↔◌, ◌⊎◌, inl, inr, Bool,
  if◌then◌else◌, true, false, none, some, Result, ok, err, arith,
}
use mixnet.Sessions.{
  current, prev, full, empty, kx_pair, disabled, rank, SessionStatus, Sessions, SessionSlot,
  from_session_index, rel_of_difference, allow_requests_and_replies, index,
}
use mixnet.Mixnet.{
  SessionPhase, kx_pair, PostErr, post_session, slot_to_post, inactive, session_no_longer_active,
  session_not_active_yet,
}

-- The session `i` exists and the phase allows requests and replies to it.
abbrev pub IsOpen : SessionStatus → ℕ → Type 0
IsOpen status i =
    (i ≡ status.current_index) × (1 ≤ rank status.phase)
    ⊎ (i + 1 ≡ status.current_index) × (rank status.phase < 2)

module _ {K S : Type 0} where
  -- The slot of the session `i`, in the same two cases.
  abbrev pub Holds : Sessions K S → SessionStatus → ℕ → S → Type 0
  Holds sessions status i s =
      (i ≡ status.current_index) × (1 ≤ rank status.phase) × (sessions.current_slot ≡ full s)
      ⊎ (i + 1 ≡ status.current_index) × (rank status.phase < 2) × (sessions.prev_slot ≡ full s)

from_session_index_cases :
    (i c : ℕ)
    → (i ≡ c) × (from_session_index i c ≡ some current)
      ⊎ (i + 1 ≡ c) × (from_session_index i c ≡ some prev)
      ⊎ (i + 1 < c) × (from_session_index i c ≡ none)
      ⊎ (c < i) × (from_session_index i c ≡ none)
unfolding from_session_index rel_of_difference
from_session_index_cases i c = ground arith

slot_to_post_iff :
    {K S : Type 0} (slot : SessionSlot K S) (i : ℕ) (s : S)
    → (slot_to_post slot i ≡ ok s) ↔ (slot ≡ full s)
unfolding slot_to_post
slot_to_post_iff empty i s = (λ h. cc, λ h. cc)
slot_to_post_iff (kx_pair pair) i s = (λ h. cc, λ h. cc)
slot_to_post_iff disabled i s = (λ h. cc, λ h. cc)
slot_to_post_iff (full t) i s = (λ h. cc, λ h. cc)

if-ok :
    {S : Type 0} (b : Bool) (r : Result S PostErr) (e : PostErr) (s : S)
    → ((if b then r else err e) ≡ ok s) ↔ ((b ≡ true) × (r ≡ ok s))
if-ok true r e s = (λ h. (refl, h), λ h. h.1)
if-ok false r e s = (λ h. cc, λ h. cc)

allow-current :
    (phase : SessionPhase) → (allow_requests_and_replies phase current ≡ true) ↔ (1 ≤ rank phase)
unfolding allow_requests_and_replies
allow-current phase = ground arith

allow-prev :
    (phase : SessionPhase) → (allow_requests_and_replies phase prev ≡ true) ↔ (rank phase < 2)
unfolding allow_requests_and_replies
allow-prev phase = ground arith

closed-current :
    (status : SessionStatus) (i : ℕ)
    → i ≡ status.current_index
    → ¬ IsOpen status i
    → allow_requests_and_replies status.phase current ≡ false
closed-current status i h closed =
    elim (Bool-cases (allow_requests_and_replies status.phase current)) [
      | inl k ↦ absurd (closed (inl (h, (allow-current status.phase).0 k)))
      | inr k ↦ k
    ]

closed-prev :
    (status : SessionStatus) (i : ℕ)
    → i + 1 ≡ status.current_index
    → ¬ IsOpen status i
    → allow_requests_and_replies status.phase prev ≡ false
closed-prev status i h closed = elim (Bool-cases (allow_requests_and_replies status.phase prev)) [
  | inl k ↦ absurd (closed (inr (h, (allow-prev status.phase).0 k)))
  | inr k ↦ k
]

module _ {K S : Type 0} where
  -- A session is returned exactly if it is open for requests and replies and its slot holds it.
  pub post_session-ok :
      (sessions : Sessions K S) (status : SessionStatus) (i : ℕ) (s : S)
      → (post_session sessions status i ≡ ok s) ↔ Holds sessions status i s
  unfolding post_session index
  post_session-ok sessions status i s = elim (from_session_index_cases i status.current_index) [
    | inl (h, e) ↦
        rw (post_session, e)
          (
            λ k.
                let both =
                  (if-ok (allow_requests_and_replies status.phase current)
                      (slot_to_post sessions.current_slot i) (session_not_active_yet i) s).0
                    k in
                inl (
                  h,
                  (allow-current status.phase).0 both.0,
                  (slot_to_post_iff sessions.current_slot i s).0 both.1,
                ),
            λ k. elim k [
              | inl (h', p, q) ↦
                  (if-ok (allow_requests_and_replies status.phase current)
                      (slot_to_post sessions.current_slot i) (session_not_active_yet i) s).1
                    (
                      (allow-current status.phase).1 p,
                      (slot_to_post_iff sessions.current_slot i s).1 q,
                    )
              | inr (h', p, q) ↦ absurd (omega arith)
            ],
          )
    | inr (inl (h, e)) ↦
        rw (post_session, e)
          (
            λ k.
                let both =
                  (if-ok (allow_requests_and_replies status.phase prev)
                      (slot_to_post sessions.prev_slot i) (session_no_longer_active i) s).0
                    k in
                inr (
                  h,
                  (allow-prev status.phase).0 both.0,
                  (slot_to_post_iff sessions.prev_slot i s).0 both.1,
                ),
            λ k. elim k [
              | inr (h', p, q) ↦
                  (if-ok (allow_requests_and_replies status.phase prev)
                      (slot_to_post sessions.prev_slot i) (session_no_longer_active i) s).1
                    ((allow-prev status.phase).1 p, (slot_to_post_iff sessions.prev_slot i s).1 q)
              | inl (h', p, q) ↦ absurd (omega arith)
            ],
          )
    | inr (inr (inl (h, e))) ↦
        rw (post_session, e)
          (
            λ k. cc,
            λ k. elim k [
              | inl (h', p, q) ↦ absurd (omega arith)
              | inr (h', p, q) ↦ absurd (omega arith)
            ],
          )
    | inr (inr (inr (h, e))) ↦
        rw (post_session, e)
          (
            λ k. cc,
            λ k. elim k [
              | inl (h', p, q) ↦ absurd (omega arith)
              | inr (h', p, q) ↦ absurd (omega arith)
            ],
          )
  ]

  -- A session that is not open for requests and replies is refused: as no longer active if its
  -- index is below the current one, and as not active yet otherwise.
  pub post_session-closed :
      (sessions : Sessions K S) (status : SessionStatus) (i : ℕ)
      → ¬ IsOpen status i
      → post_session sessions status i
        ≡ err (
            if ltb i status.current_index
            then session_no_longer_active i
            else session_not_active_yet i)
  unfolding post_session inactive
  post_session-closed sessions status i closed =
      elim (from_session_index_cases i status.current_index) [
        | inl (h, e) ↦
            let shut = closed-current status i h closed in
            rw (post_session, e, shut, le→not-ltb i status.current_index (omega arith))
        | inr (inl (h, e)) ↦
            let shut = closed-prev status i h closed in
            rw (post_session, e, shut, lt→ltb i status.current_index (omega arith))
        | inr (inr (inl (h, e))) ↦ rw (post_session, e)
        | inr (inr (inr (h, e))) ↦ rw (post_session, e)
      ]
