-- ===== src/Loop/Invariant.antt =====
-- The invariant of the main loop of src/octopus.c: the connection counts of the servers are the
-- numbers of sessions that are connected to them.
use octopuslb.Base.{
  ℕ, ◌+◌, ◌<◌, ◌≡◌, refl, inl, inr, ◌&&◌, Option, none, some, List, [], ◌∷◌, arith, ltb, ◌==◌,
  if_split, Bool-cases, Option-cases, update, ℤ, pos, pos_part, neg_part, ◌+ℤ◌, int_laws, sum_below,
  sum_below_change, Floats, ap, subst,
}
use octopuslb.Session.{Session, Process, UnusedSessionQueue}
use octopuslb.Session.Queue.{NewSession, null_session, division_by_zero, supplied, get_new_session}
use octopuslb.Session.Disconnect.Accounting.{IsLinked, member_share, clone_share}
use octopuslb.Connect.Outcome.{Follows}
use octopuslb.Traffic.Client.Links.{FollowsIf}
use octopuslb.Loop.Events.{Dials, session_event-FollowsIf, welcome-FollowsIf}
use octopuslb.Loop.{
  World, Answers, Ready, Accepted, Event, incoming, ready, session_event, put, at_session, dispatch,
  welcome, enter, accept_client, step, run,
}

-- The connections of every event do.
abbrev pub AllDial : List Event → Type 0
AllDial [] = Unit {0}
AllDial (incoming a c ∷ es) = Dials a × AllDial es
AllDial (ready a r fd ∷ es) = Dials a × AllDial es

-- How many sessions are connected to member `m`, and to clone `m`.
abbrev pub member_connections : World → ℕ → ℕ
member_connections w m = sum_below (λ i. member_share (w.sessions i) m) w.nsessions

abbrev pub clone_connections : World → ℕ → ℕ
clone_connections w m = sum_below (λ i. clone_share (w.sessions i) m) w.nsessions

-- Every session of the array is linked, and the counts are exact.
pub record IsSound (w : World) : Type 0 where
  pub linked : (i : ℕ) → i < w.nsessions → IsLinked (w.sessions i)
  pub members : (m : ℕ) → (w.process.balancer.members m).c ≡ pos (member_connections w m)
  pub clones : (m : ℕ) → (w.process.balancer.clones m).c ≡ pos (clone_connections w m)

new_count :
    (x y : ℤ) (a b total total' : ℕ)
    → y ≡ pos total
    → x +ℤ pos a ≡ y +ℤ pos b
    → total' + a ≡ total + b
    → x ≡ pos total'
new_count x y a b total total' e h k =
    let e' : pos_part y ≡ total = ap pos_part e in
    let n' : neg_part y ≡ 0 = ap neg_part e in omega (int_laws, ap pos_part h, ap neg_part h)

-- The session at `self` is replaced by one that a handler makes of it.
put-IsSound :
    (w : World) (self : ℕ) (r : Session × Process)
    → self < w.nsessions
    → IsSound w
    → Follows (w.sessions self) w.process r
    → IsSound (record w { sessions = update w.sessions self r.0; process = r.1 })
put-IsSound w self (s, p) lt sound f = record {
  linked = λ i below. elim (Bool-cases (self == i)) [
    | inl e ↦ rw e f.0
    | inr e ↦ rw e (sound.linked i below)
  ];
  members = λ m.
      new_count _ _ (member_share (w.sessions self) m) (member_share s m) (member_connections w m) _
        (sound.members m) (f.1.members m)
        (ground (
          arith,
          sum_below_change (λ i. member_share (w.sessions i) m)
              (λ i. member_share (update w.sessions self s i) m) self w.nsessions lt
              (λ j ne. rw ne refl),
        ));
  clones = λ m.
      new_count _ _ (clone_share (w.sessions self) m) (clone_share s m) (clone_connections w m) _
        (sound.clones m) (f.1.clones m)
        (ground (
          arith,
          sum_below_change (λ i. clone_share (w.sessions i) m)
              (λ i. clone_share (update w.sessions self s i) m) self w.nsessions lt
              (λ j ne. rw ne refl),
        ));
}

-- What is sound, if there was no crash.
abbrev pub IsSoundIf : Option World → Type 0
IsSoundIf none = Unit {0}
IsSoundIf (some w) = IsSound w

at_session-IsSoundIf :
    (w : World) (self : ℕ) (g : Session → Process → Option (Session × Process))
    → IsSound w
    → (self < w.nsessions → FollowsIf (w.sessions self) w.process (g (w.sessions self) w.process))
    → IsSoundIf (at_session w self g)
at_session-IsSoundIf w self g sound f = elim (Bool-cases (ltb self w.nsessions)) [
  | inr e ↦ rw e tt
  | inl e ↦ rw e (keep (g (w.sessions self) w.process) (ground arith) (f (ground arith)))
]
  where
    keep :
        (o : Option (Session × Process))
        → self < w.nsessions
        → FollowsIf (w.sessions self) w.process o
        → IsSoundIf (put w self o)
    keep none lt f = tt
    keep (some r) lt f = put-IsSound w self r lt sound f

dispatch-IsSoundIf :
    (f : Floats) (a : Answers) (r : Ready) (fd : ℕ) (w : World)
    → IsSound w
    → Dials a
    → IsSoundIf (dispatch f a r fd w)
unfolding dispatch
dispatch-IsSoundIf f a r fd w sound d = elim (Option-cases (w.process.fds fd)) [
  | inl e ↦ rw (e, dispatch) tt
  | inr (self, e) ↦
      rw (e, dispatch)
        (at_session-IsSoundIf w self (session_event f a r fd self) sound (λ lt.
          session_event-FollowsIf f a r fd self (w.sessions self) w.process (sound.linked self lt)
            d))
]

-- The queue and the descriptors say nothing of the connections.
rewire :
    (w : World) (fds : ℕ → Option ℕ) (q : UnusedSessionQueue)
    → IsSound w
    → IsSound (record w { process = record (w.process) { fds = fds; queue = q } })
rewire w fds q sound = record {
  linked = sound.linked;
  members = sound.members;
  clones = sound.clones;
}

enter-IsSoundIf :
    (f : Floats) (a : Answers) (c : Accepted) (fd : ℕ) (n : NewSession) (w : World)
    → IsSound w
    → Dials a
    → IsSoundIf (enter f a c fd n w)
unfolding enter
enter-IsSoundIf f a c fd null_session w sound d =
    rewire w (update w.process.fds fd none) w.process.queue sound
enter-IsSoundIf f a c fd division_by_zero w sound d = tt
enter-IsSoundIf f a c fd (supplied self q) w sound d =
    let r = rewire w (update w.process.fds fd (some self)) q sound in
    at_session-IsSoundIf _ self (welcome f a c fd self) r
      (λ lt. welcome-FollowsIf f a c fd self (w.sessions self) _ (sound.linked self lt) d)

accept_client-IsSoundIf :
    (f : Floats) (a : Answers) (c : Accepted) (w : World)
    → IsSound w
    → Dials a
    → IsSoundIf (accept_client f a c w)
unfolding accept_client
accept_client-IsSoundIf f a c w sound d = elim (Option-cases c.fd) [
  | inl e ↦ rw (e, accept_client) sound
  | inr (fd, e) ↦
      rw (e, accept_client)
        (if_split IsSoundIf (c.nonblock && c.nodelay)
          (enter f a c fd (get_new_session w.process.queue) w) (some w)
          (λ h. enter-IsSoundIf f a c fd (get_new_session w.process.queue) w sound d) (λ h. sound))
]

step-IsSoundIf :
    (f : Floats) (e : Event) (es : List Event) (w : World)
    → IsSound w
    → AllDial (e ∷ es)
    → IsSoundIf (step f e w)
unfolding step
step-IsSoundIf f (incoming a c) es w sound d = accept_client-IsSoundIf f a c w sound d.0
step-IsSoundIf f (ready a r fd) es w sound d = dispatch-IsSoundIf f a r fd w sound d.0

rest : (e : Event) (es : List Event) → AllDial (e ∷ es) → AllDial es
rest (incoming a c) es d = d.1
rest (ready a r fd) es d = d.1

IsSound-of : (o : Option World) (w : World) → IsSoundIf o → o ≡ some w → IsSound w
IsSound-of none w s h = absurd (cc)
IsSound-of (some v) w s h = subst IsSoundIf h s

run_on :
    (f : Floats) (es : List Event) (o : Option World) (w' : World)
    → ((v : World) → IsSound v → run f es v ≡ some w' → IsSound w')
    → IsSoundIf o
    → (elim o [ none ↦ none | some v ↦ run f es v ]) ≡ some w'
    → IsSound w'
run_on f es none w' keep s h = absurd (cc)
run_on f es (some v) w' keep s h = keep v s h

-- Whatever events arrive and whatever the system calls answer, save that no EPOLL_CTL_ADD of a
-- connection fails: from a state where every session is linked and the servers' counts are exact,
-- after every event that does not crash the process each server's count is the number of sessions
-- that are connected to it.
pub run-IsSound :
    (f : Floats) (es : List Event) (w w' : World)
    → IsSound w
    → AllDial es
    → run f es w ≡ some w'
    → IsSound w'
unfolding run
run-IsSound f [] w w' sound d r = IsSound-of (some w) w' sound r
run-IsSound f (e ∷ es) w w' sound d r =
    run_on f es (step f e w) w' (λ v s h. run-IsSound f es v w' s (rest e es d) h)
      (step-IsSoundIf f e es w sound d) r
