-- ===== src/Loop/Recycling.antt =====
-- How a session can be given back twice in one round of the main loop of src/octopus.c.
use native.Mathlib.Nat.{mod-lt, mod-eq_of_lt, mod_self}
use octopuslb.Base.{
  ℕ, ◌+◌, ◌%◌, ◌<◌, ◌≤◌, ◌≡◌, ◌≢◌, ◌⊎◌, inl, inr, refl, subst, sym, true, false, some, pos_part,
  Floats, ap, ◌∙◌, arith, ltb, Bool-cases,
}
use octopuslb.Session.{Session, Process, UnusedSessionQueue}
use octopuslb.Session.Queue.{add_unused_session}
use octopuslb.Session.Disconnect.{delete_session}
use octopuslb.Session.Disconnect.Deleted.{delete_session-queue}
use octopuslb.Traffic.{read_failed, eof, write_failed}
use octopuslb.Traffic.Client.{client_read, client_write}
use octopuslb.Loop.{Answers, Ready, client_event}

next_apart : (i limit : ℕ) → i < limit → 2 ≤ limit → (i + 1) % limit ≢ i
next_apart i limit lt two = elim (Bool-cases (ltb (i + 1) limit)) [
  | inl e ↦ λ h. let m = mod-eq_of_lt {n = i + 1} {m = limit} (ground arith) in omega (arith, m, h)
  | inr e ↦ λ h.
      let at : i + 1 ≡ limit = ground (arith, e, lt) in
      let m : (i + 1) % limit ≡ 0 = ap (λ k. k % limit) at ∙ mod_self limit in
      omega (arith, m, h, at, two)
]

-- Two different places of the ring, of which the later one is its rear, hold the session.
pub SuppliesTwice : (limit self : ℕ) → (before after : UnusedSessionQueue) → Type 0
SuppliesTwice limit self before after =
    let first = (before.rear + 1) % limit in
    (after.rear ≡ (first + 1) % limit)
    × (after.rear ≢ first)
    × (after.unused_sessions first ≡ self)
    × (after.unused_sessions after.rear ≡ self)

add_twice :
    (limit self : ℕ) (q : UnusedSessionQueue)
    → 2 ≤ limit
    → SuppliesTwice limit self q (add_unused_session limit self (add_unused_session limit self q))
unfolding SuppliesTwice add_unused_session
add_twice limit self q two =
    let first = (q.rear + 1) % limit in
    let apart = next_apart first limit (mod-lt (q.rear + 1) (omega (arith, two))) two in
    (refl, apart, ground arith, ground arith)

client_read-ended :
    (f : Floats) (a : Answers) (self : ℕ) (s : Session) (p : Process)
    → (a.read ≡ eof) ⊎ (a.read ≡ read_failed)
    → client_read f a.member_dial a.clone_dial self a.read s p ≡ some (delete_session self s p)
unfolding client_read
client_read-ended f a self s p (inl h) =
    ap (λ r. client_read f a.member_dial a.clone_dial self r s p) h
client_read-ended f a self s p (inr h) =
    ap (λ r. client_read f a.member_dial a.clone_dial self r s p) h

client_write-failed :
    (a : Answers) (self : ℕ) (s : Session) (p : Process)
    → a.write ≡ write_failed
    → client_write self a.write s p ≡ delete_session self s p
unfolding client_write
client_write-failed a self s p h = ap (λ r. client_write self r s p) h

-- When an event for the client says both EPOLLIN and EPOLLOUT and no error, the read finds the end of
-- the connection or fails, and the write that still follows fails too, the session is deleted twice:
-- with room for at least two sessions, two different places at the rear of the queue of unused
-- sessions then hold this one session.
pub client_event_twice :
    (f : Floats) (a : Answers) (r : Ready) (self : ℕ) (s : Session) (p : Process)
    → r.err ≡ false
    → r.hup ≡ false
    → r.input ≡ true
    → r.output ≡ true
    → (a.read ≡ eof) ⊎ (a.read ≡ read_failed)
    → a.write ≡ write_failed
    → 2 ≤ pos_part p.balancer.session_limit
    → (out : Session × Process) × (client_event f a r self s p ≡ some out)
      × SuppliesTwice (pos_part p.balancer.session_limit) self p.queue out.1.queue
unfolding client_event
client_event_twice f a r self s p err hup inp out read write two =
    let limit = pos_part p.balancer.session_limit in
    let one = delete_session-queue self s p in
    let first = delete_session self s p in
    let again = delete_session-queue self first.0 first.1 in
    let queue =
      again.0
      ∙ ap (λ b. add_unused_session (pos_part b.session_limit) self first.1.queue) one.1
      ∙ ap (λ q. add_unused_session limit self q) one.0 in
    (
      delete_session self first.0 first.1,
      ground (
        arith,
        client_read-ended f a self s p read,
        client_write-failed a self first.0 first.1 write,
      ),
      subst (SuppliesTwice limit self p.queue) (sym queue) (add_twice limit self p.queue two),
    )
