-- ===== src/Connect.antt =====
-- Connecting a session to its member and its clone: `connect_server` of src/connect.c, and
-- `choose_server` of src/algorithms.c, which calls it. What the system calls answer is an argument.
pub mod Outcome
pub mod Examples
pub mod Links
use octopuslb.Base.{ℕ, Bool, true, false, ◌&&◌, Option, none, some, if◌then◌else◌, update, Floats}
use octopuslb.Balancer.{Server, Balancer}
use octopuslb.Select.{Selection}
use octopuslb.Select.Choose.{Choice, no_server, fault, chosen, choose}
use octopuslb.Session.{Flags, Session, Process, Interest, ro_ev, at_server, connect_count}
use octopuslb.Session.Epoll.{epoll_add}

-- The answers for the member: the descriptor of `socket`, and whether `fcntl`, `bind`, `connect`
-- (EINPROGRESS counts as success) and EPOLL_CTL_ADD succeed. That TCP_NODELAY or SO_REUSEADDR cannot
-- be set is only logged.
pub record MemberDial : Type 0 where
  pub socket : Option ℕ
  pub nonblock : Bool
  pub bind : Bool
  pub connect : Bool
  pub watched : Bool

-- The answers for the clone; `options` says that SO_SNDBUF, SO_RCVBUF, SO_REUSEADDR and SO_KEEPALIVE
-- are all set.
pub record CloneDial : Type 0 where
  pub socket : Option ℕ
  pub nonblock : Bool
  pub options : Bool
  pub bind : Bool
  pub connect : Bool
  pub watched : Bool

-- The results 0, 1 and -1.
pub data Connected : Type 0 where
  both_connected clone_failed rejected : Connected

-- The flags and the count that follow a successful EPOLL_CTL_ADD.
abbrev pub join_member : ℕ → Session × Process → Session × Process
join_member fd (s, p) = (
  record s { state = record (s.state) { mem_connected = true; mem_read_ready = true } },
  record p {
    balancer = record (p.balancer) {
      members = at_server connect_count s.member p.balancer.members;
    };
    epoll = epoll_add fd ro_ev p.epoll;
  },
)

abbrev pub join_clone : ℕ → Session × Process → Session × Process
join_clone fd (s, p) = (
  record s { state = record (s.state) { clo_connected = true; clo_read_ready = true } },
  record p {
    balancer = record (p.balancer) { clones = at_server connect_count s.clone p.balancer.clones };
    epoll = epoll_add fd ro_ev p.epoll;
  },
)

-- The session and its descriptor are tied to each other and to the server before EPOLL_CTL_ADD.
abbrev pub tie_member : ℕ → ℕ → Session → Process → Session × Process
tie_member self fd s p = (
  record s { member = some p.selection.next_member; memberfd = some fd },
  record p { fds = update p.fds fd (some self) },
)

abbrev pub tie_clone : ℕ → ℕ → Session → Process → Session × Process
tie_clone self fd s p = (
  record s { clone = some p.selection.next_clone; clonefd = some fd },
  record p { fds = update p.fds fd (some self) },
)

-- By the session's descriptor and the answer of `socket`. A session that has a member descriptor
-- keeps it.
pub attach_member :
    MemberDial → ℕ → Session → Process → Option ℕ → Option ℕ → Bool × (Session × Process)
attach_member d self s p (some _) _ = (true, (s, p))
attach_member d self s p none none = (false, (s, p))
attach_member d self s p none (some fd) =
    if d.nonblock && d.bind && d.connect
    then if d.watched
      then (true, join_member fd (tie_member self fd s p))
      else (false, tie_member self fd s p)
    else (false, (s, p))

-- False where the function returns -1.
pub connect_member : MemberDial → ℕ → Session → Process → Bool × (Session × Process)
connect_member d self s p = attach_member d self s p s.memberfd d.socket

pub attach_clone :
    CloneDial → ℕ → Session → Process → Option ℕ → Option ℕ → Connected × (Session × Process)
attach_clone d self s p (some _) _ = (both_connected, (s, p))
attach_clone d self s p none none = (clone_failed, (s, p))
attach_clone d self s p none (some fd) =
    if d.nonblock && d.options
    then if d.bind
      then if d.connect
        then if d.watched
          then (both_connected, join_clone fd (tie_clone self fd s p))
          else (clone_failed, tie_clone self fd s p)
        else (clone_failed, (s, p))
      else (rejected, (s, p))
    else (clone_failed, (s, p))

pub connect_clone : CloneDial → ℕ → Session → Process → Connected × (Session × Process)
connect_clone d self s p =
    if p.selection.use_clone
    then attach_clone d self s p s.clonefd d.socket
    else (both_connected, (s, p))

pub connect_server :
    MemberDial → CloneDial → ℕ → Session → Process → Connected × (Session × Process)
connect_server d e self s p =
    let (ok, (s', p')) = connect_member d self s p in
    if ok then connect_clone e self s' p' else (rejected, (s', p'))

-- `none` stands for the call of `strlen` with NULL; with no server to take the session it is -1.
pub choose_server :
    Floats
    → MemberDial
    → CloneDial
    → ℕ
    → Session
    → Process
    → Option (Connected × (Session × Process))
choose_server f d e self s p = elim (choose f p.balancer p.selection s.client_read_buffer) [
  | no_server sel ↦ some (rejected, (s, record p { selection = sel }))
  | fault ↦ none
  | chosen b sel ↦ some (connect_server d e self s (record p { balancer = b; selection = sel }))
]

abbrev pub is_rejected : Connected → Bool
is_rejected rejected = true
is_rejected _ = false
