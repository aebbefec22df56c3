-- ===== src/Traffic/Member/Flow.antt =====
-- `member_read` and `member_write` of src/octopus.c against queues of bytes.
use octopuslb.Base.{ℕ, ◌-◌, ◌≡◌, refl, true, false, List, ◌++◌, arith, drop}
use octopuslb.Session.{Session, Process, message_size_limit}
use octopuslb.Session.Buffer.{Moves}
use octopuslb.Session.Disconnect.{disconnect_member}
use octopuslb.Traffic.{ReadResult, read_failed, eof, got, wrote, ReadOf, WriteOf}
use octopuslb.Traffic.Buffered.{
  IsBuffered, for_member, for_client, for_clone, Fits-write_at, Fits-less_sent,
}
use octopuslb.Traffic.Member.{receive, member_gone, member_read, sent_to_member, member_write}

-- A read of bytes that fit from the member: they go behind those that wait for the client, the other
-- queues stay, the client is to be written to, and a buffer that is now full stops the reading.
pub member_read_lem :
    (self : ℕ) (bytes : List ℕ) (s : Session) (p : Process)
    → IsBuffered s
    → ReadOf (message_size_limit - s.member_used_buffer) (got bytes)
    → let s' = (member_read self (got bytes) s p).0 in
      IsBuffered s'
      × (for_client s' ≡ for_client s ++ bytes)
      × (for_member s' ≡ for_member s)
      × (for_clone s' ≡ for_clone s)
      × (s'.state.cli_write_ready ≡ true)
      × (s'.member_used_buffer ≡ message_size_limit → s'.state.mem_read_ready ≡ false)
unfolding member_read receive
member_read_lem self bytes s p b io =
    let r = Fits-write_at s.member_read_buffer bytes s.member_used_buffer b.member io.1 in
    (
      record { client = b.client; member = r.0; clone = b.clone },
      r.1,
      refl,
      refl,
      refl,
      λ h. ground arith,
    )

-- If the bytes that are left do not overlap with the place to which `memcpy` copies them, or if it
-- copies such bytes as `memmove` does: a write to the member that sends `n` of the waiting bytes takes
-- these off the front of the queue and leaves the other queues; with none left the member is no
-- longer marked as ready to be written to, and a client whose buffer was full is marked as ready to
-- be read.
pub member_write_lem :
    (n : ℕ) (s : Session) (p : Process)
    → IsBuffered s
    → WriteOf s.client_used_buffer (wrote n)
    → Moves p.overlap s.client_read_buffer n (s.client_used_buffer - n)
    → let s' = (member_write (wrote n) s p).0 in
      IsBuffered s'
      × (for_member s' ≡ drop n (for_member s))
      × (for_client s' ≡ for_client s)
      × (for_clone s' ≡ for_clone s)
      × (s'.client_used_buffer ≡ 0 → s'.state.mem_write_ready ≡ false)
      × (s.state.cli_buff_full ≡ true → s'.state.cli_read_ready ≡ true)
unfolding member_write sent_to_member
member_write_lem n s p b io moves =
    let r =
      Fits-less_sent p.overlap s.client_read_buffer s.client_used_buffer n b.client io.0 moves in
    (
      record { client = r.0; member = b.member; clone = b.clone },
      r.1,
      refl,
      refl,
      λ h. ground arith,
      λ h. ground arith,
    )

-- A write to the member makes it readable also while the buffer for the client is full. A read then
-- has no room, so that it answers 0 or an error; the code takes either for the end of the member
-- and, as bytes for the client wait, disconnects it.
pub member_write_reopens :
    (self n : ℕ) (s : Session) (p : Process) (r : ReadResult)
    → s.member_used_buffer ≡ message_size_limit
    → s.state.cli_write_ready ≡ true
    → ReadOf (message_size_limit - s.member_used_buffer) r
    → let (s', p') = member_write (wrote n) s p in
      (s'.state.mem_read_ready ≡ true) × (member_read self r s' p' ≡ disconnect_member s' p')
unfolding member_write sent_to_member member_read member_gone
member_write_reopens self n s p read_failed full wait io = (refl, rw wait refl)
member_write_reopens self n s p eof full wait io = (refl, rw wait refl)
member_write_reopens self n s p (got bytes) full wait io = absurd (omega arith)
