-- ===== src/Session/Disconnect/Kept.antt =====
-- What the disconnections of src/octopus.c leave as it was: the buffers and the other sides.
use octopuslb.Base.{◌≡◌, false, arith}
use octopuslb.Session.{Session, Process}
use octopuslb.Session.Disconnect.{disconnect_clone, disconnect_member}
use octopuslb.Session.Disconnect.Accounting.{IsLinked}

-- The buffers of the two sessions are the same.
pub record SameBytes (s s' : Session) : Type 0 where
  pub client : s'.client_read_buffer ≡ s.client_read_buffer
  pub client_used : s'.client_used_buffer ≡ s.client_used_buffer
  pub member : s'.member_read_buffer ≡ s.member_read_buffer
  pub member_used : s'.member_used_buffer ≡ s.member_used_buffer
  pub clone : s'.clone_write_buffer ≡ s.clone_write_buffer
  pub clone_used : s'.clone_used_buffer ≡ s.clone_used_buffer

pub disconnect_clone-SameBytes : (s : Session) (p : Process) → SameBytes s (disconnect_clone s p).0
unfolding disconnect_clone
disconnect_clone-SameBytes s p = ground arith

pub disconnect_clone_down :
    (s : Session) (p : Process) → IsLinked s → (disconnect_clone s p).0.state.clo_connected ≡ false
unfolding disconnect_clone
disconnect_clone_down s p l = ground (arith, l.clone_fd)

pub disconnect_member-SameBytes :
    (s : Session) (p : Process) → SameBytes s (disconnect_member s p).0
unfolding disconnect_member
disconnect_member-SameBytes s p = ground arith
