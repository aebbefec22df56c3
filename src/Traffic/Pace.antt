-- ===== src/Traffic/Pace.antt =====
-- The client's side of a session in src/octopus.c: reading stops exactly while its buffer is full, and
-- epoll watches its descriptor as the flags say.
pub mod Client
pub mod Examples
use octopuslb.Base.{
  ℕ, ◌+◌, ◌-◌, ◌<◌, ◌≤◌, ◌≡◌, ◌≢◌, ◌⊎◌, refl, sym, ap, ◌∙◌, inl, inr, Bool, true, false, not,
  Option, none, some, List, arith, ◌==◌, ltb, length, if◌then◌else◌, if_split, update, Floats,
  Option-cases,
}
use octopuslb.Session.{
  Overlap, Flags, Session, Process, Interest, message_size_limit, rw_ev, at_server,
}
use octopuslb.Session.Epoll.{epoll_mod, mask, epoll_mod_self, epoll_mod_ne, epoll_close}
use octopuslb.Session.Disconnect.{disconnect_clone, delete_session}
use octopuslb.Connect.{MemberDial, CloneDial}
use octopuslb.Traffic.{
  ReadResult, got, WriteResult, wrote, ReadOf, WriteOf, watch, watch_client, watch_member,
}
use octopuslb.Traffic.Client.{
  receive, feed_clone, note_read, watch_after_read, after_read, client_read, sent_to_client,
  client_write, drained,
}
use octopuslb.Traffic.Member.{member_read, sent_to_member, member_write}

-- The flags of the client's side, for a buffer with `used` bytes waiting.
pub record Paced (s : Session) : Type 0 where
  pub full : s.state.cli_buff_full ≡ (s.client_used_buffer == message_size_limit)
  pub reading : s.state.cli_read_ready ≡ not (s.client_used_buffer == message_size_limit)
  pub within : s.client_used_buffer ≤ message_size_limit

-- The client's descriptor is `fd`, no other side has it, and epoll watches it for what is wanted.
pub record Watched (fd : ℕ) (s : Session) (p : Process) : Type 0 where
  pub mine : s.clientfd ≡ some fd
  pub not_member : s.memberfd ≢ some fd
  pub not_clone : s.clonefd ≢ some fd
  pub interest : p.epoll fd ≡ some (mask s.state.cli_read_ready s.state.cli_write_ready)

-- A new mask for another side.
pub epoll_mod_other :
    (o : Option ℕ) (fd : ℕ) (i : Interest) (set : ℕ → Option Interest)
    → o ≢ some fd
    → epoll_mod o i set fd ≡ set fd
unfolding epoll_mod
epoll_mod_other none fd i set h = refl
epoll_mod_other (some k) fd i set h = epoll_mod_ne k fd i set (λ e. h (ap some e))

pub epoll_mod_mine :
    (o : Option ℕ) (fd : ℕ) (i j : Interest) (set : ℕ → Option Interest)
    → o ≡ some fd
    → set fd ≡ some j
    → epoll_mod o i set fd ≡ some i
epoll_mod_mine o fd i j set h e = rw h (epoll_mod_self fd i j set e)

sent_to_member-Paced :
    (o : Overlap) (n : ℕ) (s : Session)
    → Paced s
    → WriteOf s.client_used_buffer (wrote n)
    → Paced (sent_to_member o n s)
unfolding sent_to_member
sent_to_member-Paced o n s p io = record {
  full = ground (arith, p.full, p.reading);
  reading = ground (arith, p.full, p.reading);
  within = omega (arith, p.within);
}

-- A write to the member keeps the client's side in pace: its reading flag is off exactly while its
-- buffer is full, and epoll watches it for exactly what its flags say.
pub member_write-Watched :
    (fd n : ℕ) (s : Session) (p : Process)
    → Paced s
    → Watched fd s p
    → WriteOf s.client_used_buffer (wrote n)
    → Paced (member_write (wrote n) s p).0
      × Watched fd (member_write (wrote n) s p).0 (member_write (wrote n) s p).1
unfolding member_write sent_to_member
member_write-Watched fd n s p pace w io =
    let after = sent_to_member-Paced p.overlap n s pace io in
    let reads : (if s.state.cli_buff_full then true else s.state.cli_read_ready) ≡ true =
      ground (arith, pace.full, pace.reading) in
    (
      record { full = after.full; reading = after.reading; within = after.within },
      record {
        mine = w.mine;
        not_member = w.not_member;
        not_clone = w.not_clone;
        interest =
            epoll_mod_other s.memberfd fd _ _ w.not_member
            ∙ epoll_mod_mine s.clientfd fd (mask true s.state.cli_write_ready) _ p.epoll w.mine
                w.interest
            ∙ ap (λ r. some (mask r s.state.cli_write_ready)) (sym reads);
      },
    )

abbrev InPace : ℕ → Session × Process → Type 0
InPace fd (s, p) = Paced s × Watched fd s p

sent_to_client-InPace :
    (fd n : ℕ) (s : Session) (p : Process)
    → Paced s
    → Watched fd s p
    → InPace fd (
      sent_to_client p.overlap n s,
      watch_member (sent_to_client p.overlap n s) (watch_client (sent_to_client p.overlap n s) p),
    )
unfolding sent_to_client
sent_to_client-InPace fd n s p pace w = (
  record { full = pace.full; reading = pace.reading; within = pace.within },
  record {
    mine = w.mine;
    not_member = w.not_member;
    not_clone = w.not_clone;
    interest =
        epoll_mod_other s.memberfd fd _ _ w.not_member
        ∙ epoll_mod_mine s.clientfd fd
            (mask s.state.cli_read_ready (sent_to_client p.overlap n s).state.cli_write_ready) _
            p.epoll w.mine w.interest;
  },
)

-- While the member is connected, a read from the member and a write to the client keep the client's
-- side in pace: its reading flag is off exactly while its buffer is full, and epoll watches it for
-- exactly what its flags say.
pub member_read-Watched :
    (fd self n : ℕ) (bytes : List ℕ) (s : Session) (p : Process)
    → Paced s
    → Watched fd s p
    → s.state.mem_connected ≡ true
    → (Paced (member_read self (got bytes) s p).0
        × Watched fd (member_read self (got bytes) s p).0 (member_read self (got bytes) s p).1)
      × (Paced (client_write self (wrote n) s p).0
          × Watched fd (client_write self (wrote n) s p).0 (client_write self (wrote n) s p).1)
unfolding member_read client_write sent_to_client octopuslb.Traffic.Member.receive
member_read-Watched fd self n bytes s p pace w up = (
  (
    record { full = pace.full; reading = pace.reading; within = pace.within },
    record {
      mine = w.mine;
      not_member = w.not_member;
      not_clone = w.not_clone;
      interest =
          epoll_mod_other s.memberfd fd _ _ w.not_member
          ∙ epoll_mod_mine s.clientfd fd (mask s.state.cli_read_ready true) _ p.epoll w.mine
              w.interest;
    },
  ),
  if_split (InPace fd) ((sent_to_client p.overlap n s).member_used_buffer == 0)
      (if s.state.mem_connected
        then (
          sent_to_client p.overlap n s,
          watch_member (sent_to_client p.overlap n s)
              (watch_client (sent_to_client p.overlap n s) p),
        )
        else delete_session self (drained s) p)
      (
        sent_to_client p.overlap n s,
        watch_member (sent_to_client p.overlap n s) (watch_client (sent_to_client p.overlap n s) p),
      )
      (λ z.
        if_split (InPace fd) s.state.mem_connected _ (delete_session self (drained s) p)
          (λ m. sent_to_client-InPace fd n s p pace w) (λ m. absurd (cc)))
      (λ z. sent_to_client-InPace fd n s p pace w),
)
