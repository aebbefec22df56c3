-- ===== src/Traffic/Clone/Flow.antt =====
-- `clone_read` and `clone_write` of src/octopus.c against queues of bytes.
use octopuslb.Base.{ℕ, ◌-◌, ◌≡◌, refl, drop}
use octopuslb.Session.{Session, Process}
use octopuslb.Session.Buffer.{Moves}
use octopuslb.Session.Disconnect.Kept.{SameBytes, disconnect_clone-SameBytes}
use octopuslb.Traffic.{ReadResult, read_failed, eof, got, write_failed, wrote, WriteOf}
use octopuslb.Traffic.Buffered.{IsBuffered, for_member, for_client, for_clone, Fits-less_sent}
use octopuslb.Traffic.Clone.{clone_read, sent_to_clone, clone_write}

-- A write to the clone that sends `n` of the waiting bytes takes these off the front of its queue
-- and leaves the other queues, where `memcpy` moves the rest.
pub clone_write_lem :
    (n : ℕ) (s : Session) (p : Process)
    → IsBuffered s
    → WriteOf s.clone_used_buffer (wrote n)
    → Moves p.overlap s.clone_write_buffer n (s.clone_used_buffer - n)
    → let s' = (clone_write (wrote n) s p).0 in
      IsBuffered s'
      × (for_clone s' ≡ drop n (for_clone s))
      × (for_member s' ≡ for_member s)
      × (for_client s' ≡ for_client s)
unfolding clone_write sent_to_clone
clone_write_lem n s p b io moves =
    let r =
      Fits-less_sent p.overlap s.clone_write_buffer s.clone_used_buffer n b.clone io.0 moves in
    (record { client = b.client; member = b.member; clone = r.0 }, r.1, refl, refl)

same_bytes : (s : Session) → SameBytes s s
same_bytes s = record {
  client = refl;
  client_used = refl;
  member = refl;
  member_used = refl;
  clone = refl;
  clone_used = refl;
}

-- Whatever a clone answers, and also when it fails, the waiting bytes of the session stay as they
-- are.
pub clone_read_lem :
    (r : ReadResult) (s : Session) (p : Process)
    → (SameBytes s (clone_read r s p).0) × (SameBytes s (clone_write write_failed s p).0)
unfolding clone_read clone_write
clone_read_lem (got bytes) s p = (same_bytes s, disconnect_clone-SameBytes s p)
clone_read_lem read_failed s p = (disconnect_clone-SameBytes s p, disconnect_clone-SameBytes s p)
clone_read_lem eof s p = (disconnect_clone-SameBytes s p, disconnect_clone-SameBytes s p)
