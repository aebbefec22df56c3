-- ===== src/Traffic/Client/Flow.antt =====
-- `client_read` and `client_write` of src/octopus.c against queues of bytes.
use octopuslb.Base.{
  ℕ, ◌-◌, ◌≤◌, ◌<◌, ◌≡◌, ◌∙◌, refl, true, false, ◌⊎◌, some, List, ◌++◌, arith, ◌==◌, if_split,
  length, drop, Floats, ltb, ap,
}
use octopuslb.Session.{Overlap, Session, Process, message_size_limit}
use octopuslb.Session.Buffer.{Moves, strncpy, length-strncpy}
use octopuslb.Session.Disconnect.{disconnect_clone, delete_session}
use octopuslb.Session.Disconnect.Accounting.{IsLinked}
use octopuslb.Session.Disconnect.Kept.{SameBytes, disconnect_clone-SameBytes, disconnect_clone_down}
use octopuslb.Connect.{MemberDial, CloneDial}
use octopuslb.Traffic.{got, wrote, ReadOf, WriteOf}
use octopuslb.Traffic.Buffered.{
  IsBuffered, for_member, for_client, for_clone, Fits-write_at, Fits-less_sent,
}
use octopuslb.Traffic.Client.{
  receive, feed_clone, note_read, after_read, client_read, sent_to_client, client_write,
}

-- What a read from the client makes of the three queues.
pub record Arrived (bytes : List ℕ) (s s' : Session) : Type 0 where
  pub buffered : IsBuffered s'
  pub member_gets : for_member s' ≡ for_member s ++ bytes
  pub client_same : for_client s' ≡ for_client s
  pub clone_gets : s'.state.clo_connected ≡ true → for_clone s' ≡ for_clone s ++ strncpy bytes

receive-Arrived :
    (bytes : List ℕ) (s : Session)
    → IsBuffered s
    → length bytes ≤ message_size_limit - s.client_used_buffer
    → IsBuffered (receive bytes s) × (for_member (receive bytes s) ≡ for_member s ++ bytes)
unfolding receive
receive-Arrived bytes s b room =
    let r = Fits-write_at s.client_read_buffer bytes s.client_used_buffer b.client room in
    (record { client = r.0; member = b.member; clone = b.clone }, r.1)

-- A clone that is cut loose, or is not there.
skip_clone :
    (bytes : List ℕ) (s₀ s s' : Session)
    → IsBuffered s
    → for_member s ≡ for_member s₀ ++ bytes
    → for_client s ≡ for_client s₀
    → SameBytes s s'
    → s'.state.clo_connected ≡ false
    → Arrived bytes s₀ (note_read s')
unfolding note_read
skip_clone bytes s₀ s s' b m c e down = record {
  buffered = record {
    client = rw (e.client, e.client_used) b.client;
    member = rw (e.member, e.member_used) b.member;
    clone = rw (e.clone, e.clone_used) b.clone;
  };
  member_gets = rw (e.client, e.client_used) m;
  client_same = rw (e.member, e.member_used) c;
  clone_gets = λ h. absurd (cc);
}

-- The clone that stays connected gets the bytes as `strncpy` copies them.
feed_clone-Arrived :
    (bytes : List ℕ) (s₀ s : Session) (p : Process)
    → IsLinked s
    → IsBuffered s
    → for_member s ≡ for_member s₀ ++ bytes
    → for_client s ≡ for_client s₀
    → for_clone s ≡ for_clone s₀
    → Arrived bytes s₀ (note_read (feed_clone bytes s p).0)
unfolding feed_clone note_read
feed_clone-Arrived bytes s₀ s p l b m c k =
    if_split Q s.state.clo_connected _ (s, p)
      (λ on.
        if_split Q (ltb (message_size_limit - s.clone_used_buffer) (length bytes))
          (disconnect_clone s p) _
          (λ full.
            skip_clone bytes s₀ s _ b m c (disconnect_clone-SameBytes s p)
              (disconnect_clone_down s p l))
          (λ room.
            let r =
              Fits-write_at s.clone_write_buffer (strncpy bytes) s.clone_used_buffer b.clone
                (ground (arith, length-strncpy bytes)) in
            record {
              buffered = record {
                client = b.client;
                member = b.member;
                clone = rw (length-strncpy bytes) at r.0;
              };
              member_gets = m;
              client_same = c;
              clone_gets = λ h. (rw (length-strncpy bytes) at r.1) ∙ ap (λ q. q ++ strncpy bytes) k;
            }))
      (λ down. skip_clone bytes s₀ s s b m c same down)
  where
    Q : Session × Process → Type 0
    Q r = Arrived bytes s₀ (note_read r.0)

    same : SameBytes s s
    same = record {
      client = refl;
      client_used = refl;
      member = refl;
      member_used = refl;
      clone = refl;
      clone_used = refl;
    }

receive-IsLinked : (bytes : List ℕ) (s : Session) → IsLinked s → IsLinked (receive bytes s)
unfolding receive
receive-IsLinked bytes s l = record {
  client_fd = l.client_fd;
  member_fd = l.member_fd;
  clone_fd = l.clone_fd;
  member_set = l.member_set;
  clone_set = l.clone_set;
}

-- A read of bytes that fit from the client of a linked session that is not fresh succeeds: the bytes
-- go behind those that wait for the member and, as `strncpy` copies them, behind those of a clone
-- that is still connected; what waits for the client stays, and all stays within the buffers.
pub client_read_lem :
    (f : Floats) (d : MemberDial) (e : CloneDial) (self : ℕ) (bytes : List ℕ) (s : Session)
    (p : Process)
    → IsLinked s
    → IsBuffered s
    → s.state.fresh ≡ false
    → ReadOf (message_size_limit - s.client_used_buffer) (got bytes)
    → (r : Session × Process) × (client_read f d e self (got bytes) s p ≡ some r)
      × Arrived bytes s r.0
unfolding client_read after_read receive
client_read_lem f d e self bytes s p l b fresh io =
    let r = receive-Arrived bytes s b io.1 in
    (
      after_read bytes (receive bytes s) p,
      rw fresh refl,
      feed_clone-Arrived bytes s (receive bytes s) p (receive-IsLinked bytes s l) r.0 r.1 refl refl,
    )

-- What a write to the client makes of the three queues.
pub record Sent (n : ℕ) (s s' : Session) : Type 0 where
  pub buffered : IsBuffered s'
  pub client_less : for_client s' ≡ drop n (for_client s)
  pub member_same : for_member s' ≡ for_member s
  pub clone_same : for_clone s' ≡ for_clone s

sent_to_client-Sent :
    (o : Overlap) (n : ℕ) (s : Session)
    → IsBuffered s
    → n ≤ s.member_used_buffer
    → Moves o s.member_read_buffer n (s.member_used_buffer - n)
    → Sent n s (sent_to_client o n s)
unfolding sent_to_client
sent_to_client-Sent o n s b le moves =
    let r = Fits-less_sent o s.member_read_buffer s.member_used_buffer n b.member le moves in
    record {
      buffered = record { client = b.client; member = r.0; clone = b.clone };
      client_less = r.1;
      member_same = refl;
      clone_same = refl;
    }

used_up :
    (o : Overlap) (n : ℕ) (s : Session)
    → n ≡ s.member_used_buffer
    → ((sent_to_client o n s).member_used_buffer == 0) ≡ true
unfolding sent_to_client
used_up o n s h = ground arith

not_gone :
    (o : Overlap) (n : ℕ) (s : Session)
    → ((sent_to_client o n s).member_used_buffer == 0) ≡ true
    → s.state.mem_connected ≡ false
    → ¬ ((n < s.member_used_buffer) ⊎ (s.state.mem_connected ≡ true))
unfolding sent_to_client
not_gone o n s e m h = ground arith

-- If the bytes that are left do not overlap with the place to which `memcpy` copies them, or if it
-- copies such bytes as `memmove` does: a write to the client that sends `n` of the waiting bytes takes
-- these off the front of the queue and leaves the other queues; but when nothing is left and the member is gone, the session is
-- deleted.
pub client_write_lem :
    (self n : ℕ) (s : Session) (p : Process)
    → IsBuffered s
    → WriteOf s.member_used_buffer (wrote n)
    → Moves p.overlap s.member_read_buffer n (s.member_used_buffer - n)
    → ((n < s.member_used_buffer) ⊎ (s.state.mem_connected ≡ true)
        → Sent n s (client_write self (wrote n) s p).0)
      × (n ≡ s.member_used_buffer
          → s.state.mem_connected ≡ false
          → (s' : Session) × (client_write self (wrote n) s p ≡ delete_session self s' p)
            × (s'.clientfd ≡ s.clientfd)
            × (s'.memberfd ≡ s.memberfd)
            × (s'.clonefd ≡ s.clonefd))
unfolding client_write
client_write_lem self n s p b io moves = (
  λ h.
      if_split (λ (r : Session × Process). Sent n s r.0)
        ((sent_to_client p.overlap n s).member_used_buffer == 0) _ _
        (λ e.
          if_split (λ (r : Session × Process). Sent n s r.0) s.state.mem_connected _ _
            (λ m. sent_to_client-Sent p.overlap n s b io.0 moves)
            (λ m. absurd (not_gone p.overlap n s e m h)))
        (λ e. sent_to_client-Sent p.overlap n s b io.0 moves),
  λ h m. rw (used_up p.overlap n s h, m) (_, refl, refl, refl, refl),
)
