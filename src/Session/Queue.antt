-- ===== src/Session/Queue.antt =====
-- The queue of unused sessions: `initialize_unused_session` of src/init.c, and `get_new_session`,
-- `add_unused_session` and `pop_unused_session` of src/octopus.c.
use native.Mathlib.Nat.{mod-add-mod, mod-eq_of_lt, mod-eq-sub-mod}
use octopuslb.Base.{
  ◌∙◌, ◌⊎◌, ◌-◌, ltb, ℕ, ◌+◌, ◌%◌, ◌<◌, ◌≤◌, ◌≡◌, refl, inl, inr, true, arith, ◌==◌, if◌then◌else◌,
  Bool-cases, update, for_range, for_range-carries,
}
use octopuslb.Session.{Session, UnusedSessionQueue, is_unused}

-- NULL, the division by the zero `head`, or the session and the queue after it.
pub data NewSession : Type 0 where
  null_session division_by_zero : NewSession
  supplied : ℕ → UnusedSessionQueue → NewSession

-- As written: the new head is taken modulo the old head, not modulo the session limit.
unfoldable pub get_new_session : UnusedSessionQueue → NewSession
get_new_session q =
    if q.head == q.rear
    then null_session
    else if q.head == 0
    then division_by_zero
    else (let next = (q.head + 1) % q.head in
        supplied (q.unused_sessions next) (record q { head = next }))

unfoldable pub add_unused_session : ℕ → ℕ → UnusedSessionQueue → UnusedSessionQueue
add_unused_session limit session q =
    let next = (q.rear + 1) % limit in
    record q { rear = next; unused_sessions = update q.unused_sessions next session }

-- Moves the head on also when the queue is empty, where the code only logs.
pub pop_unused_session : ℕ → UnusedSessionQueue → UnusedSessionQueue
pop_unused_session limit q = record q { head = (q.head + 1) % limit }

-- One round of the loop of `initialize_unused_session`.
pub enqueue_unused : ℕ → (ℕ → Session) → ℕ → UnusedSessionQueue → UnusedSessionQueue
enqueue_unused limit sessions i q =
    if is_unused (sessions i).state
    then record q {
      unused_sessions = update q.unused_sessions q.rear i;
      rear = (q.rear + 1) % limit;
    }
    else q

pub initialize_unused_session : ℕ → (ℕ → Session) → (ℕ → ℕ) → UnusedSessionQueue
initialize_unused_session limit sessions memory =
    for_range limit 0 (enqueue_unused limit sessions)
      (record { unused_sessions = memory; head = 0; rear = 0 })

-- After `i` rounds over unused sessions: the first `i` places hold the first `i` sessions.
record Filled (limit i : ℕ) (q : UnusedSessionQueue) : Type 0 where
  at_start : q.head ≡ 0
  count : q.rear ≡ i % limit
  entries : (j : ℕ) → j < i → q.unused_sessions j ≡ j

enqueue_unused-Filled :
    (limit : ℕ) (sessions : ℕ → Session) (i : ℕ) (q : UnusedSessionQueue)
    → i < limit
    → is_unused (sessions i).state ≡ true
    → Filled limit i q
    → Filled limit (i + 1) (enqueue_unused limit sessions i q)
unfolding enqueue_unused
enqueue_unused-Filled limit sessions i q lt u f = rw u (record {
  at_start = f.at_start;
  count = rw f.count (mod-add-mod i limit 1);
  entries =
      λ j h. let e : q.rear ≡ i = f.count ∙ mod-eq_of_lt lt in rw e (ground (arith, f.entries j));
})

initialize_unused_session-Filled :
    (limit : ℕ) (sessions : ℕ → Session) (memory : ℕ → ℕ)
    → ((i : ℕ) → i < limit → is_unused (sessions i).state ≡ true)
    → Filled limit limit (initialize_unused_session limit sessions memory)
unfolding initialize_unused_session
initialize_unused_session-Filled limit sessions memory unused =
    for_range-carries (Filled limit) (enqueue_unused limit sessions) limit 0 limit _ (omega arith)
      (record { at_start = refl; count = omega arith; entries = λ j h. absurd (omega arith) })
      (λ k q hi f. enqueue_unused-Filled limit sessions k q hi (unused k hi) f)

-- Start-up over `limit` unused sessions puts session `i` at place `i`; but the rear comes round to
-- the head, so that `get_new_session` takes the queue for empty and supplies no session.
pub get_new_session-initialize_unused_session :
    (limit : ℕ) (sessions : ℕ → Session) (memory : ℕ → ℕ)
    → ((i : ℕ) → i < limit → is_unused (sessions i).state ≡ true)
    → ((j : ℕ)
        → j < limit
        → (initialize_unused_session limit sessions memory).unused_sessions j ≡ j)
      × (get_new_session (initialize_unused_session limit sessions memory) ≡ null_session)
unfolding get_new_session
get_new_session-initialize_unused_session limit sessions memory unused =
    let f = initialize_unused_session-Filled limit sessions memory unused in
    let self : limit % limit ≡ 0 = grind arith in
    (f.entries, rw (f.at_start, f.count, get_new_session) (rw self))

wrap_head : (h : ℕ) → 2 ≤ h → (h + 1) % h ≡ 1
wrap_head h le = omega (
  arith,
  mod-eq-sub-mod {n = h + 1} {m = h} (omega arith),
  mod-eq_of_lt {n = h + 1 - h} {m = h} (omega arith),
)

supplied_head :
    (q q' : UnusedSessionQueue) (s : ℕ)
    → get_new_session q ≡ supplied s q'
    → ((q.head ≡ 1) × (q'.head ≡ 0)) ⊎ ((2 ≤ q.head) × (q'.head ≡ 1))
unfolding get_new_session
supplied_head q q' s e = elim (Bool-cases (ltb 1 q.head)) [
  | inl big ↦ inr (ground arith, ground (arith, wrap_head q.head))
  | inr small ↦ inl (ground arith, ground arith)
]

-- From any state two sessions at most are supplied, whatever is added in between: after the second
-- one the head is at 0.
pub get_new_session_twice :
    (limit added : ℕ) (q q₁ q₂ : UnusedSessionQueue) (s₁ s₂ : ℕ)
    → get_new_session q ≡ supplied s₁ q₁
    → get_new_session (add_unused_session limit added q₁) ≡ supplied s₂ q₂
    → q₂.head ≡ 0
unfolding add_unused_session
get_new_session_twice limit added q q₁ q₂ s₁ s₂ h k =
    ground
      (arith, supplied_head q q₁ s₁ h, supplied_head (add_unused_session limit added q₁) q₂ s₂ k)
