-- ===== src/Session.antt =====
-- The per-connection state of src/octopus.h (`SESSION`, the STATE_ flags, `FD`, the queue of unused
-- sessions) and the process-wide state that the handlers of src/octopus.c work on.
pub mod Buffer
pub mod Epoll
pub mod Queue
pub mod Disconnect
pub mod Examples
use octopuslb.Base.{
  ℕ, Bool, true, false, not, ◌&&◌, Option, none, some, List, ℤ, pos, ◌+ℤ◌, ◌-ℤ◌, add_ulong, update,
  if◌then◌else◌,
}
use octopuslb.Balancer.{Server, Balancer}
use octopuslb.Select.{Selection}

-- The word `state`, one field for each STATE_ bit: setting a bit is `|=`, clearing it `&= ~`.
pub record Flags : Type 0 where
  pub mem_connected : Bool
  pub cli_connected : Bool
  pub clo_connected : Bool
  pub fresh : Bool
  pub mem_read_ready : Bool
  pub cli_read_ready : Bool
  pub clo_read_ready : Bool
  pub mem_write_ready : Bool
  pub cli_write_ready : Bool
  pub clo_write_ready : Bool
  pub mem_buff_full : Bool
  pub cli_buff_full : Bool

-- STATE_UNUSED, the word 0.
abbrev pub state_unused : Flags
state_unused = record {
  mem_connected = false;
  cli_connected = false;
  clo_connected = false;
  fresh = false;
  mem_read_ready = false;
  cli_read_ready = false;
  clo_read_ready = false;
  mem_write_ready = false;
  cli_write_ready = false;
  clo_write_ready = false;
  mem_buff_full = false;
  cli_buff_full = false;
}

-- `state == STATE_UNUSED`.
pub is_unused : Flags → Bool
is_unused f =
    not f.mem_connected
    && not f.cli_connected
    && not f.clo_connected
    && not f.fresh
    && not f.mem_read_ready
    && not f.cli_read_ready
    && not f.clo_read_ready
    && not f.mem_write_ready
    && not f.cli_write_ready
    && not f.clo_write_ready
    && not f.mem_buff_full
    && not f.cli_buff_full

-- MESSAGE_SIZE_LIMIT.
abbrev pub message_size_limit : ℕ
message_size_limit = 4096

-- A descriptor is `none` where the source holds -1; a pointer to a server is its index, or `none`
-- where the source holds NULL.
pub record Session : Type 0 where
  pub id : ℕ
  pub state : Flags
  pub clientfd : Option ℕ
  pub memberfd : Option ℕ
  pub clonefd : Option ℕ
  pub member_read_buffer : List ℕ
  pub client_read_buffer : List ℕ
  pub clone_write_buffer : List ℕ
  pub member_used_buffer : ℕ
  pub client_used_buffer : ℕ
  pub clone_used_buffer : ℕ
  pub member : Option ℕ
  pub clone : Option ℕ

-- UNUSED_SESSION_QUEUE; an entry is the index of a session.
pub record UnusedSessionQueue : Type 0 where
  pub unused_sessions : ℕ → ℕ
  pub head : ℕ
  pub rear : ℕ

-- The four event masks that the process uses with epoll.
pub data Interest : Type 0 where
  null_ev ro_ev wr_ev rw_ev : Interest

-- `memcpy(buf, buf + n, rest)` on areas that overlap: what it leaves of `buf` is up to the C library.
abbrev pub Overlap : Type 0
Overlap = List ℕ → ℕ → ℕ → List ℕ

-- The globals. `fds` gives the session of a descriptor and `epoll` the mask under which the kernel
-- watches it, if it does. `overlap` is the C library's, and never changes.
pub record Process : Type 0 where
  pub balancer : Balancer
  pub selection : Selection
  pub queue : UnusedSessionQueue
  pub fds : ℕ → Option ℕ
  pub epoll : ℕ → Option Interest
  pub overlap : Overlap

-- A change of the server that a pointer addresses. The NULL pointer is never followed: see
-- `Disconnect.IsLinked`.
abbrev pub at_server : (Server → Server) → Option ℕ → (ℕ → Server) → ℕ → Server
at_server f none slots = slots
at_server f (some i) slots = update slots i (f (slots i))

-- `c += 1`; and `c -= 1` with `completed_c ++`.
abbrev pub connect_count : Server → Server
connect_count s = record s { c = s.c +ℤ pos 1 }

abbrev pub disconnect_count : Server → Server
disconnect_count s = record s { c = s.c -ℤ pos 1; completed_c = add_ulong s.completed_c 1 }
