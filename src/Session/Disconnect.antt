-- ===== src/Session/Disconnect.antt =====
-- `disconnect_client`, `disconnect_member`, `disconnect_clone` and `delete_session` of
-- src/octopus.c. (That `shutdown` or `close` may fail is only logged.)
pub mod Accounting
pub mod Deleted
pub mod Kept
use octopuslb.Base.{ℕ, Bool, true, false, Option, none, some, if◌then◌else◌, pos_part}
use octopuslb.Balancer.{Server, Balancer}
use octopuslb.Session.{
  Flags, Session, Process, state_unused, at_server, connect_count, disconnect_count,
}
use octopuslb.Session.Epoll.{epoll_close}
use octopuslb.Session.Queue.{add_unused_session}

unfoldable pub disconnect_clone : Session → Process → Session × Process
disconnect_clone s p = elim s.clonefd [
  | none ↦ (s, p)
  | some fd ↦ (
    record s { state = record (s.state) { clo_connected = false }; clonefd = none },
    record p {
      balancer = record (p.balancer) {
        clones = at_server disconnect_count s.clone p.balancer.clones;
      };
      epoll = epoll_close fd p.epoll;
    },
  )
]

unfoldable pub disconnect_member : Session → Process → Session × Process
disconnect_member s p = elim s.memberfd [
  | none ↦ (s, p)
  | some fd ↦ (
    record s { state = record (s.state) { mem_connected = false }; memberfd = none },
    record p {
      balancer = record (p.balancer) {
        members = at_server disconnect_count s.member p.balancer.members;
      };
      epoll = epoll_close fd p.epoll;
    },
  )
]

pub disconnect_client : Session → Process → Session × Process
disconnect_client s p = elim s.clientfd [
  | none ↦ (s, p)
  | some fd ↦ (
    record s { state = record (s.state) { cli_connected = false }; clientfd = none },
    record p { epoll = epoll_close fd p.epoll },
  )
]

abbrev pub drop_client : Session × Process → Session × Process
drop_client (s, p) = if s.state.cli_connected then disconnect_client s p else (s, p)

abbrev pub drop_member : Session × Process → Session × Process
drop_member (s, p) = if s.state.mem_connected then disconnect_member s p else (s, p)

abbrev pub drop_clone : Session × Process → Session × Process
drop_clone (s, p) = if s.state.clo_connected then disconnect_clone s p else (s, p)

-- `self` is the session's place in the array of sessions, which its pointer stands for.
abbrev pub recycle : ℕ → Session × Process → Session × Process
recycle self (s, p) = (
  record s {
    state = state_unused;
    client_used_buffer = 0;
    member_used_buffer = 0;
    clone_used_buffer = 0;
  },
  record p { queue = add_unused_session (pos_part p.balancer.session_limit) self p.queue },
)

pub delete_session : ℕ → Session → Process → Session × Process
delete_session self s p = recycle self (drop_clone (drop_member (drop_client (s, p))))
