-- ===== src/Connect/Links.antt =====
-- Steps of src/octopus.c that leave a session's connections as they are, and `choose_server`.
use octopuslb.Base.{ℕ, ◌≡◌, ◌≢◌, refl, true, Option, none, some, Floats}
use octopuslb.Balancer.{Balancer}
use octopuslb.Select.Hash.Counts.{SameCounts, SameCounts-refl}
use octopuslb.Select.Choose.{Choice, no_server, fault, chosen, choose}
use octopuslb.Select.Choose.Kept.{choose-SameCounts}
use octopuslb.Session.{Session, Process}
use octopuslb.Session.Disconnect.Accounting.{IsLinked, Balanced, Balanced-trans}
use octopuslb.Connect.{MemberDial, CloneDial, Connected, rejected, connect_server, choose_server}
use octopuslb.Connect.Outcome.{Follows, connect_server_lem}

-- The same connections and the same pointers.
pub record SameLinks (s s' : Session) : Type 0 where
  pub cli : s'.state.cli_connected ≡ s.state.cli_connected
  pub mem : s'.state.mem_connected ≡ s.state.mem_connected
  pub clo : s'.state.clo_connected ≡ s.state.clo_connected
  pub clientfd : s'.clientfd ≡ s.clientfd
  pub memberfd : s'.memberfd ≡ s.memberfd
  pub clonefd : s'.clonefd ≡ s.clonefd
  pub member : s'.member ≡ s.member
  pub clone : s'.clone ≡ s.clone

pub SameLinks-refl : (s : Session) → SameLinks s s
SameLinks-refl s = record {
  cli = refl;
  mem = refl;
  clo = refl;
  clientfd = refl;
  memberfd = refl;
  clonefd = refl;
  member = refl;
  clone = refl;
}

SameLinks-Balanced :
    (s s' : Session) (b b' : Balancer) → SameLinks s s' → SameCounts b b' → Balanced s b s' b'
SameLinks-Balanced s s' b b' l c = record {
  members = λ m. rw (l.mem, l.member, c.members m) refl;
  clones = λ m. rw (l.clo, l.clone, c.clones m) refl;
}

-- Such a step keeps a linked session linked, and its servers' counts need not change.
pub still :
    (s s' : Session) (p p' : Process)
    → SameLinks s s'
    → SameCounts p.balancer p'.balancer
    → IsLinked s
    → Follows s p (s', p')
still s s' p p' e c l = (
  record {
    client_fd = rw (e.cli, e.clientfd) l.client_fd;
    member_fd = rw (e.mem, e.memberfd) l.member_fd;
    clone_fd = rw (e.clo, e.clonefd) l.clone_fd;
    member_set = rw (e.mem, e.member) l.member_set;
    clone_set = rw (e.clo, e.clone) l.clone_set;
  },
  SameLinks-Balanced s s' p.balancer p'.balancer e c,
)

-- One step after another.
pub Follows-trans :
    (s : Session) (p : Process) (q r : Session × Process)
    → Follows s p q
    → Follows q.0 q.1 r
    → Follows s p r
Follows-trans s p q r a b = (b.0, Balanced-trans a.1 b.1)

-- What `choose_server` answers with, if it does, follows the connections.
abbrev pub ServedIf : Session → Process → Option (Connected × (Session × Process)) → Type 0
ServedIf s p none = Unit {0}
ServedIf s p (some r) = Follows s p r.1 × (r.0 ≢ rejected → r.1.0.state.mem_connected ≡ true)

choose_server_by :
    (f : Floats) (d : MemberDial) (e : CloneDial) (self : ℕ) (s : Session) (p : Process)
    (o : Choice)
    → choose f p.balancer p.selection s.client_read_buffer ≡ o
    → IsLinked s
    → d.watched ≡ true
    → e.watched ≡ true
    → ServedIf s p (choose_server f d e self s p)
unfolding choose_server
choose_server_by f d e self s p fault h l add add' = rw (h, choose_server) tt
choose_server_by f d e self s p (no_server sel) h l add add' =
    rw (h, choose_server)
      (
        still s s p (record p { selection = sel }) (SameLinks-refl s) (SameCounts-refl p.balancer)
            l,
        λ k. absurd (k refl),
      )
choose_server_by f d e self s p (chosen b sel) h l add add' =
    let p' : Process = record p { balancer = b; selection = sel } in
    let counts = choose-SameCounts f p.balancer p.selection s.client_read_buffer b sel h in
    let r = connect_server_lem d e self s p' l add add' in
    rw (h, choose_server)
      (
        Follows-trans s p (s, p') (connect_server d e self s p').1
            (still s s p p' (SameLinks-refl s) counts l) (r.linked, r.balanced),
        r.has_member,
      )

-- When no EPOLL_CTL_ADD fails, `choose_server` on a linked session, whichever server is chosen and
-- whatever the other calls answer, leaves it linked, the counts of the servers follow its
-- connections, and unless the result is -1 the session is connected to a member.
pub choose_server_lem :
    (f : Floats) (d : MemberDial) (e : CloneDial) (self : ℕ) (s : Session) (p : Process)
    → IsLinked s
    → d.watched ≡ true
    → e.watched ≡ true
    → ServedIf s p (choose_server f d e self s p)
choose_server_lem f d e self s p =
    choose_server_by f d e self s p (choose f p.balancer p.selection s.client_read_buffer) refl
