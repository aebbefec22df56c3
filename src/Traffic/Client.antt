-- ===== src/Traffic/Client.antt =====
-- `client_read` and `client_write` of src/octopus.c.
pub mod Flow
pub mod Links
use octopuslb.Base.{
  ℕ, ◌+◌, ◌-◌, Bool, true, false, Option, none, some, List, length, ltb, ◌==◌, if◌then◌else◌,
  Floats,
}
use octopuslb.Session.{Overlap, Flags, Session, Process, Interest, rw_ev, message_size_limit}
use octopuslb.Session.Epoll.{mask}
use octopuslb.Session.Buffer.{write_at, shift_down, strncpy}
use octopuslb.Session.Disconnect.{disconnect_clone, delete_session}
use octopuslb.Connect.{MemberDial, CloneDial, Connected, rejected, is_rejected, choose_server}
use octopuslb.Traffic.{
  ReadResult, read_failed, eof, got, WriteResult, write_failed, wrote, watch, watch_client,
  watch_member,
}

-- The new bytes behind those that wait for the member.
unfoldable pub receive : List ℕ → Session → Session
receive bytes s = record s {
  client_read_buffer = write_at s.client_read_buffer s.client_used_buffer bytes;
  client_used_buffer = s.client_used_buffer + length bytes;
}

-- The new bytes for the clone; a clone whose buffer has no room for them is cut loose.
unfoldable pub feed_clone : List ℕ → Session → Process → Session × Process
feed_clone bytes s p =
    if s.state.clo_connected
    then if ltb (message_size_limit - s.clone_used_buffer) (length bytes)
      then disconnect_clone s p
      else (
        record s {
          clone_write_buffer = write_at s.clone_write_buffer s.clone_used_buffer (strncpy bytes);
          clone_used_buffer = s.clone_used_buffer + length bytes;
        },
        p,
      )
    else (s, p)

-- The servers are wanted for writing, and a full buffer stops the reading.
unfoldable pub note_read : Session → Session
note_read s =
    let full = s.client_used_buffer == message_size_limit in
    record s {
      state = record (s.state) {
        mem_write_ready = true;
        clo_write_ready = true;
        cli_buff_full = if full then true else s.state.cli_buff_full;
        cli_read_ready = if full then false else s.state.cli_read_ready;
      };
    }

-- The masks at the end of `client_read`.
unfoldable pub watch_after_read : Session → Process → Process
watch_after_read s p =
    let p' = watch s.memberfd (mask s.state.mem_read_ready true) (watch_client s p) in
    if s.state.clo_connected then watch s.clonefd rw_ev p' else p'

unfoldable pub after_read : List ℕ → Session → Process → Session × Process
after_read bytes s p =
    let (s', p') = feed_clone bytes s p in (note_read s', watch_after_read (note_read s') p')

pub clear_fresh : Session → Session
clear_fresh s = record s { state = record (s.state) { fresh = false } }

-- A fresh session is connected first; -1 deletes it.
unfoldable pub client_read :
    Floats
    → MemberDial
    → CloneDial
    → ℕ
    → ReadResult
    → Session
    → Process
    → Option (Session × Process)
client_read f d e self (got bytes) s p =
    let s' = receive bytes s in
    if s'.state.fresh
    then elim (choose_server f d e self s' p) [
      | none ↦ none
      | some (status, (s'', p'')) ↦
          if is_rejected status
          then some (delete_session self s'' p'')
          else some (after_read bytes (clear_fresh s'') p'')
    ]
    else some (after_read bytes s' p)
client_read f d e self read_failed s p = some (delete_session self s p)
client_read f d e self eof s p = some (delete_session self s p)

-- The bytes that were not sent move to the front; a full buffer has room again.
unfoldable pub sent_to_client : Overlap → ℕ → Session → Session
sent_to_client o n s =
    let rest = s.member_used_buffer - n in
    record s {
      member_used_buffer = rest;
      member_read_buffer =
          if rest == 0 then s.member_read_buffer else shift_down o s.member_read_buffer n rest;
      state = record (s.state) {
        cli_write_ready = if rest == 0 then false else s.state.cli_write_ready;
        mem_read_ready = if s.state.mem_buff_full then true else s.state.mem_read_ready;
        mem_buff_full = false;
      };
    }

abbrev pub drained : Session → Session
drained s = record s {
  member_used_buffer = 0;
  state = record (s.state) { cli_write_ready = false };
}

-- When all is sent and the member is gone, the session is done with.
unfoldable pub client_write : ℕ → WriteResult → Session → Process → Session × Process
client_write self write_failed s p = delete_session self s p
client_write self (wrote n) s p =
    let s' = sent_to_client p.overlap n s in
    if s'.member_used_buffer == 0
    then if s.state.mem_connected
      then (s', watch_member s' (watch_client s' p))
      else delete_session self (drained s) p
    else (s', watch_member s' (watch_client s' p))
