-- ===== src/Traffic/Member.antt =====
-- `member_read` and `member_write` of src/octopus.c.
pub mod Flow
pub mod Links
use octopuslb.Base.{
  ℕ, ◌+◌, ◌-◌, Bool, true, false, Option, none, some, List, length, ◌==◌, if◌then◌else◌, add_ulong,
}
use octopuslb.Balancer.{Server, Balancer}
use octopuslb.Session.{Overlap, Flags, Session, Process, at_server, message_size_limit}
use octopuslb.Session.Epoll.{mask}
use octopuslb.Session.Buffer.{write_at, shift_down}
use octopuslb.Session.Disconnect.{disconnect_member, delete_session}
use octopuslb.Traffic.{
  ReadResult, read_failed, eof, got, WriteResult, write_failed, wrote, watch, watch_member,
}

-- The traffic counters of a server.
abbrev pub received : ℕ → Server → Server
received n s = record s { brecv = add_ulong s.brecv n }

abbrev pub sent : ℕ → Server → Server
sent n s = record s { bsent = add_ulong s.bsent n }

abbrev pub count_member : (Server → Server) → Session → Process → Process
count_member f s p = record p {
  balancer = record (p.balancer) { members = at_server f s.member p.balancer.members };
}

-- The new bytes behind those that wait for the client; a full buffer stops the reading.
unfoldable pub receive : List ℕ → Session → Session
receive bytes s =
    let used = s.member_used_buffer + length bytes in
    let full = used == message_size_limit in
    record s {
      member_read_buffer = write_at s.member_read_buffer s.member_used_buffer bytes;
      member_used_buffer = used;
      state = record (s.state) {
        cli_write_ready = true;
        mem_buff_full = if full then true else s.state.mem_buff_full;
        mem_read_ready = if full then false else s.state.mem_read_ready;
      };
    }

-- On an error and at the end of the stream the session is deleted, unless bytes for the client wait.
unfoldable pub member_gone : ℕ → Session → Process → Session × Process
member_gone self s p =
    if s.state.cli_write_ready then disconnect_member s p else delete_session self s p

unfoldable pub member_read : ℕ → ReadResult → Session → Process → Session × Process
member_read self (got bytes) s p =
    let s' = receive bytes s in
    (
      s',
      watch_member s' (
          watch s'.clientfd (mask s'.state.cli_read_ready true)
            (count_member (received (length bytes)) s p)),
    )
member_read self read_failed s p = member_gone self s p
member_read self eof s p = member_gone self s p

-- The bytes that were not sent move to the front; a full buffer has room again.
unfoldable pub sent_to_member : Overlap → ℕ → Session → Session
sent_to_member o n s =
    let rest = s.client_used_buffer - n in
    record s {
      client_used_buffer = rest;
      client_read_buffer =
          if rest == 0 then s.client_read_buffer else shift_down o s.client_read_buffer n rest;
      state = record (s.state) {
        mem_read_ready = true;
        mem_write_ready = if rest == 0 then false else s.state.mem_write_ready;
        cli_read_ready = if s.state.cli_buff_full then true else s.state.cli_read_ready;
        cli_buff_full = false;
      };
    }

unfoldable pub member_write : WriteResult → Session → Process → Session × Process
member_write write_failed s p = disconnect_member s p
member_write (wrote n) s p =
    let s' = sent_to_member p.overlap n s in
    (
      s',
      watch_member s'
          (watch s'.clientfd (mask true s'.state.cli_write_ready) (count_member (sent n) s p)),
    )
