-- ===== src/Loop.antt =====
-- The main loop of src/octopus.c: what one event of epoll does. The answers of the system calls are
-- arguments, and `none` stands for a crash: the NULL of `strtok` given to `strlen`, a division by
-- zero, a NULL session, or a session pointer outside the array of sessions.
pub mod Events
pub mod Examples
pub mod Invariant
pub mod Recycling
use octopuslb.Base.{
  ℕ, Bool, true, false, not, ◌&&◌, ◌||◌, Option, none, some, List, [], ◌∷◌, ltb, ◌==◌,
  if◌then◌else◌, update, Floats,
}
use octopuslb.Balancer.{Server, Balancer, Algorithm, rr, lc, ll, hash, static}
use octopuslb.Session.{Flags, Session, Process, UnusedSessionQueue, Interest, ro_ev}
use octopuslb.Session.Epoll.{epoll_add}
use octopuslb.Session.Queue.{NewSession, null_session, division_by_zero, supplied, get_new_session}
use octopuslb.Session.Disconnect.{disconnect_clone, disconnect_member, delete_session}
use octopuslb.Connect.{MemberDial, CloneDial, Connected, is_rejected, choose_server}
use octopuslb.Traffic.{ReadResult, WriteResult}
use octopuslb.Traffic.Client.{clear_fresh, client_read, client_write}
use octopuslb.Traffic.Member.{member_read, member_write}
use octopuslb.Traffic.Clone.{clone_read, clone_write}

-- The process with its array of sessions.
pub record World : Type 0 where
  pub nsessions : ℕ
  pub sessions : ℕ → Session
  pub process : Process

-- What the system calls of one event answer.
pub record Answers : Type 0 where
  pub member_dial : MemberDial
  pub clone_dial : CloneDial
  pub read : ReadResult
  pub write : WriteResult

-- EPOLLERR, EPOLLHUP, EPOLLIN and EPOLLOUT.
pub record Ready : Type 0 where
  pub err : Bool
  pub hup : Bool
  pub input : Bool
  pub output : Bool

-- The descriptor that `accept` returns, and whether O_NONBLOCK, TCP_NODELAY and EPOLL_CTL_ADD succeed.
pub record Accepted : Type 0 where
  pub fd : Option ℕ
  pub nonblock : Bool
  pub nodelay : Bool
  pub watched : Bool

abbrev pub then_write :
    (Session → Process → Session × Process)
    → Option (Session × Process)
    → Option (Session × Process)
then_write f none = none
then_write f (some (s, p)) = some (f s p)

pub client_event : Floats → Answers → Ready → ℕ → Session → Process → Option (Session × Process)
client_event f a r self s p =
    if r.err || r.hup
    then some (delete_session self s p)
    else (let after =
          if r.input
          then client_read f a.member_dial a.clone_dial self a.read s p
          else some (s, p) in
        if r.output then then_write (client_write self a.write) after else after)

pub member_event : Answers → Ready → ℕ → Session → Process → Session × Process
member_event a r self s p =
    if r.err || r.hup
    then disconnect_member s p
    else (let after = if r.input then member_read self a.read s p else (s, p) in
        if r.output then member_write a.write after.0 after.1 else after)

pub clone_event : Answers → Ready → Session → Process → Session × Process
clone_event a r s p =
    if r.err || r.hup
    then disconnect_clone s p
    else (let after = if r.input then clone_read a.read s p else (s, p) in
        if r.output then clone_write a.write after.0 after.1 else after)

abbrev pub is_fd : Option ℕ → ℕ → Bool
is_fd none fd = false
is_fd (some i) fd = i == fd

-- A descriptor belongs to the first side of its session that holds it; one that none holds is only
-- logged.
pub session_event :
    Floats → Answers → Ready → ℕ → ℕ → Session → Process → Option (Session × Process)
session_event f a r fd self s p =
    if is_fd s.clientfd fd
    then client_event f a r self s p
    else if is_fd s.memberfd fd
    then some (member_event a r self s p)
    else if is_fd s.clonefd fd
    then some (clone_event a r s p)
    else some (s, p)

abbrev pub put : World → ℕ → Option (Session × Process) → Option World
put w self none = none
put w self (some (s, p)) = some (record w { sessions = update w.sessions self s; process = p })

abbrev pub at_session : World → ℕ → (Session → Process → Option (Session × Process)) → Option World
at_session w self f =
    if ltb self w.nsessions then put w self (f (w.sessions self) w.process) else none

pub dispatch : Floats → Answers → Ready → ℕ → World → Option World
dispatch f a r fd w = elim (w.process.fds fd) [
  | none ↦ none
  | some self ↦ at_session w self (session_event f a r fd self)
]

-- HASH and STATIC wait for the request.
abbrev pub waits_for_request : Algorithm → Bool
waits_for_request hash = true
waits_for_request static = true
waits_for_request _ = false

abbrev pub settle : ℕ → Option (Connected × (Session × Process)) → Option (Session × Process)
settle self none = none
settle self (some (status, (s, p))) =
    if is_rejected status then some (delete_session self s p) else some (clear_fresh s, p)

abbrev pub greeted : ℕ → Session → Session
greeted fd s = record s {
  state = record (s.state) { cli_connected = true; cli_read_ready = true };
  clientfd = some fd;
}

-- A session for the client that was accepted on `fd`.
pub welcome : Floats → Answers → Accepted → ℕ → ℕ → Session → Process → Option (Session × Process)
welcome f a c fd self s p =
    let s' = greeted fd s in
    if c.watched
    then (let p' = record p { epoll = epoll_add fd ro_ev p.epoll } in
        if waits_for_request p.balancer.algorithm
        then some (s', p')
        else settle self (choose_server f a.member_dial a.clone_dial self s' p'))
    else some (delete_session self s' p)

-- The session that the queue gives is entered for the descriptor.
pub enter : Floats → Answers → Accepted → ℕ → NewSession → World → Option World
enter f a c fd null_session w =
    some (record w { process = record (w.process) { fds = update w.process.fds fd none } })
enter f a c fd division_by_zero w = none
enter f a c fd (supplied self q) w =
    at_session
      (record w {
        process = record (w.process) { fds = update w.process.fds fd (some self); queue = q };
      })
      self (welcome f a c fd self)

pub accept_client : Floats → Answers → Accepted → World → Option World
accept_client f a c w = elim c.fd [
  | none ↦ some w
  | some fd ↦
      if c.nonblock && c.nodelay then enter f a c fd (get_new_session w.process.queue) w else some w
]

-- An event on the listener, or on the descriptor of a session.
pub data Event : Type 0 where
  incoming : Answers → Accepted → Event
  ready : Answers → Ready → ℕ → Event

pub step : Floats → Event → World → Option World
step f (incoming a c) w = accept_client f a c w
step f (ready a r fd) w = dispatch f a r fd w

pub run : Floats → List Event → World → Option World
run f [] w = some w
run f (e ∷ es) w = elim (step f e w) [ none ↦ none | some w' ↦ run f es w' ]
