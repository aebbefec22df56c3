-- ===== src/Traffic/Pace/Client.antt =====
-- A read from the client in src/octopus.c: the clone is fed and the masks are set on the way.
use octopuslb.Base.{
  ℕ, ◌-◌, ◌≡◌, ◌≢◌, refl, ◌∙◌, true, false, some, List, arith, ltb, length, if_split, Floats,
}
use octopuslb.Session.{Session, Process, Interest, message_size_limit, rw_ev}
use octopuslb.Session.Epoll.{mask}
use octopuslb.Session.Disconnect.{disconnect_clone}
use octopuslb.Connect.{MemberDial, CloneDial}
use octopuslb.Traffic.{got, ReadOf}
use octopuslb.Traffic.Client.{
  receive, feed_clone, note_read, watch_after_read, after_read, client_read,
}
use octopuslb.Traffic.Pace.{Paced, Watched, epoll_mod_other, epoll_mod_mine}

receive-Paced :
    (bytes : List ℕ) (s : Session)
    → Paced s
    → ReadOf (message_size_limit - s.client_used_buffer) (got bytes)
    → Paced (note_read (receive bytes s))
unfolding receive note_read
receive-Paced bytes s p io = record {
  full = ground (arith, p.full, p.reading);
  reading = ground (arith, p.full, p.reading);
  within = omega arith;
}

-- The clone's side does not touch the client's.
disconnect_clone-Watched :
    (fd : ℕ) (s : Session) (p : Process)
    → Watched fd s p
    → Watched fd (disconnect_clone s p).0 (disconnect_clone s p).1
unfolding disconnect_clone
disconnect_clone-Watched fd s p w = record {
  mine = ground (arith, w.mine);
  not_member = ground (arith, w.not_member);
  not_clone = ground (arith, w.not_clone);
  interest = ground (arith, w.interest, w.not_clone);
}

feed_clone-Watched :
    (fd : ℕ) (bytes : List ℕ) (s : Session) (p : Process)
    → Watched fd s p
    → Watched fd (feed_clone bytes s p).0 (feed_clone bytes s p).1
unfolding feed_clone
feed_clone-Watched fd bytes s p w =
    if_split Still s.state.clo_connected _ (s, p)
      (λ on.
        if_split Still (ltb (message_size_limit - s.clone_used_buffer) (length bytes))
          (disconnect_clone s p) _ (λ h. disconnect_clone-Watched fd s p w)
          (λ h. record {
            mine = w.mine;
            not_member = w.not_member;
            not_clone = w.not_clone;
            interest = w.interest;
          }))
      (λ off. w)
  where
    Still : Session × Process → Type 0
    Still r = Watched fd r.0 r.1

-- The clone's side has no say in the client's flags.
feed_clone-Paced :
    (bytes : List ℕ) (s : Session) (p : Process)
    → Paced (note_read s)
    → Paced (note_read (feed_clone bytes s p).0)
unfolding feed_clone disconnect_clone note_read
feed_clone-Paced bytes s p pace = record {
  full = ground (arith, pace.full);
  reading = ground (arith, pace.reading);
  within = ground (arith, pace.within);
}

-- The masks at the end of `client_read`, whatever the flags were before.
watch_after_read-interest :
    (fd : ℕ) (s : Session) (p : Process) (j : Interest)
    → s.clientfd ≡ some fd
    → s.memberfd ≢ some fd
    → s.clonefd ≢ some fd
    → p.epoll fd ≡ some j
    → (watch_after_read s p).epoll fd ≡ some (mask s.state.cli_read_ready s.state.cli_write_ready)
unfolding watch_after_read
watch_after_read-interest fd s p j mine not_member not_clone old =
    let base =
      epoll_mod_other s.memberfd fd (mask s.state.mem_read_ready true) _ not_member
      ∙ epoll_mod_mine s.clientfd fd (mask s.state.cli_read_ready s.state.cli_write_ready) j p.epoll
          mine old in
    if_split
      (λ (q : Process). q.epoll fd ≡ some (mask s.state.cli_read_ready s.state.cli_write_ready))
      s.state.clo_connected _ _ (λ h. epoll_mod_other s.clonefd fd rw_ev _ not_clone ∙ base)
      (λ h. base)

after_read-Watched :
    (fd : ℕ) (bytes : List ℕ) (s : Session) (p : Process)
    → Watched fd s p
    → Watched fd (after_read bytes s p).0 (after_read bytes s p).1
unfolding after_read note_read
after_read-Watched fd bytes s p w =
    let v = feed_clone-Watched fd bytes s p w in
    let t = feed_clone bytes s p in
    record {
      mine = v.mine;
      not_member = v.not_member;
      not_clone = v.not_clone;
      interest =
          watch_after_read-interest fd (note_read t.0) t.1 _ v.mine v.not_member v.not_clone
            v.interest;
    }

-- A read of bytes that fit from the client of a session that is not fresh keeps the client's side in
-- pace: its reading flag is off exactly while its buffer is full, and epoll watches it for exactly
-- what its flags say.
pub client_read-Watched :
    (f : Floats) (d : MemberDial) (e : CloneDial) (fd self : ℕ) (bytes : List ℕ) (s : Session)
    (p : Process)
    → Paced s
    → Watched fd s p
    → s.state.fresh ≡ false
    → ReadOf (message_size_limit - s.client_used_buffer) (got bytes)
    → (r : Session × Process) × (client_read f d e self (got bytes) s p ≡ some r)
      × Paced r.0
      × Watched fd r.0 r.1
unfolding client_read receive after_read
client_read-Watched f d e fd self bytes s p pace w fresh io = (
  after_read bytes (receive bytes s) p,
  rw fresh refl,
  feed_clone-Paced bytes (receive bytes s) p (receive-Paced bytes s pace io),
  after_read-Watched fd bytes (receive bytes s) p (record {
    mine = w.mine;
    not_member = w.not_member;
    not_clone = w.not_clone;
    interest = w.interest;
  }),
)
