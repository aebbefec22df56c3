-- ===== src/Traffic.antt =====
-- The six handlers of src/octopus.c that move bytes between a client, its member and its clone.
-- What `read` and `write` answer is an argument.
pub mod Client
pub mod Member
pub mod Clone
pub mod Buffered
pub mod Examples
pub mod Links
pub mod Pace
use octopuslb.Base.{
  ℕ, ◌-◌, ◌≤◌, Bool, true, false, Option, none, some, List, length, leb, if◌then◌else◌,
}
use octopuslb.Session.{Session, Process, Interest, message_size_limit}
use octopuslb.Session.Epoll.{epoll_mod, mask}

-- A negative result, 0, or the bytes that arrived.
pub data ReadResult : Type 0 where
  read_failed eof : ReadResult
  got : List ℕ → ReadResult

-- A negative result, or the number of bytes that were sent.
pub data WriteResult : Type 0 where
  write_failed : WriteResult
  wrote : ℕ → WriteResult

-- What `read` and `write` promise: no more bytes than there is room for, at least one if any; and no
-- more sent than were offered, at least one if any were.
abbrev pub ReadOf : ℕ → ReadResult → Type 0
ReadOf room (got bytes) = (1 ≤ length bytes) × (length bytes ≤ room)
ReadOf room _ = Unit {0}

abbrev pub WriteOf : ℕ → WriteResult → Type 0
WriteOf offered (wrote n) = (n ≤ offered) × (1 ≤ offered → 1 ≤ n)
WriteOf offered write_failed = Unit {0}

-- A new mask for a descriptor of the session.
abbrev pub watch : Option ℕ → Interest → Process → Process
watch fd i p = record p { epoll = epoll_mod fd i p.epoll }

-- The part `SESSION SOCKET MAINTAIN` for the client and for the member: read or write or both, or
-- nothing.
abbrev pub watch_client : Session → Process → Process
watch_client s p = watch s.clientfd (mask s.state.cli_read_ready s.state.cli_write_ready) p

abbrev pub watch_member : Session → Process → Process
watch_member s p = watch s.memberfd (mask s.state.mem_read_ready s.state.mem_write_ready) p
