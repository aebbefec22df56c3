-- ===== src/Traffic/Clone.antt =====
-- `clone_read` and `clone_write` of src/octopus.c.
pub mod Flow
pub mod Links
use octopuslb.Base.{ℕ, ◌-◌, Bool, true, false, List, length, ◌==◌, if◌then◌else◌}
use octopuslb.Balancer.{Server, Balancer}
use octopuslb.Session.{Overlap, Flags, Session, Process, at_server}
use octopuslb.Session.Epoll.{mask}
use octopuslb.Session.Buffer.{shift_down}
use octopuslb.Session.Disconnect.{disconnect_clone}
use octopuslb.Traffic.{ReadResult, read_failed, eof, got, WriteResult, write_failed, wrote, watch}
use octopuslb.Traffic.Member.{received, sent}

abbrev pub count_clone : (Server → Server) → Session → Process → Process
count_clone f s p = record p {
  balancer = record (p.balancer) { clones = at_server f s.clone p.balancer.clones };
}

-- What the clone answers is counted and thrown away.
pub clone_read : ReadResult → Session → Process → Session × Process
clone_read (got bytes) s p = (s, count_clone (received (length bytes)) s p)
clone_read read_failed s p = disconnect_clone s p
clone_read eof s p = disconnect_clone s p

pub sent_to_clone : Overlap → ℕ → Session → Session
sent_to_clone o n s =
    let rest = s.clone_used_buffer - n in
    record s {
      clone_used_buffer = rest;
      clone_write_buffer =
          if rest == 0 then s.clone_write_buffer else shift_down o s.clone_write_buffer n rest;
      state = record (s.state) {
        clo_read_ready = true;
        clo_write_ready = if rest == 0 then false else s.state.clo_write_ready;
      };
    }

pub clone_write : WriteResult → Session → Process → Session × Process
clone_write write_failed s p = disconnect_clone s p
clone_write (wrote n) s p =
    let s' = sent_to_clone p.overlap n s in
    (s', watch s'.clonefd (mask true s'.state.clo_write_ready) (count_clone (sent n) s p))
