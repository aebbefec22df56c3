-- ===== src/Loop/Events.antt =====
-- The parts of the main loop of src/octopus.c that handle one session keep it linked, and the
-- counts of the servers follow its connections.
use octopuslb.Base.{
  ℕ, ◌≡◌, refl, true, ◌||◌, Option, none, some, if◌then◌else◌, if_split, pos, ◌+ℤ◌, Floats, ap,
}
use octopuslb.Balancer.{Balancer}
use octopuslb.Select.Hash.Counts.{SameCounts-refl}
use octopuslb.Session.{Session, Process, ro_ev}
use octopuslb.Session.Epoll.{epoll_add}
use octopuslb.Session.Disconnect.{disconnect_clone, disconnect_member, delete_session}
use octopuslb.Session.Disconnect.Accounting.{IsLinked, member_share, clone_share}
use octopuslb.Connect.{Connected, is_rejected, choose_server}
use octopuslb.Connect.Outcome.{Follows}
use octopuslb.Connect.Links.{SameLinks-refl, still, Follows-trans, ServedIf, choose_server_lem}
use octopuslb.Traffic.Links.{
  delete_session-Follows, disconnect_clone-Follows, disconnect_member-Follows,
}
use octopuslb.Traffic.Client.{client_read, client_write, clear_fresh}
use octopuslb.Traffic.Client.Links.{
  FollowsIf, client_read-FollowsIf, client_write-Follows, clear_fresh-SameLinks,
}
use octopuslb.Traffic.Member.{member_read, member_write}
use octopuslb.Traffic.Member.Links.{member_read-Follows, member_write-Follows}
use octopuslb.Traffic.Clone.{clone_read, clone_write}
use octopuslb.Traffic.Clone.Links.{clone_read-Follows, clone_write-Follows}
use octopuslb.Loop.{
  Answers, Ready, Accepted, then_write, client_event, member_event, clone_event, is_fd,
  session_event, settle, greeted, welcome, waits_for_request,
}

-- Every EPOLL_CTL_ADD of the connections of an event succeeds.
abbrev pub Dials : Answers → Type 0
Dials a = (a.member_dial.watched ≡ true) × (a.clone_dial.watched ≡ true)

then_write-FollowsIf :
    (g : Session → Process → Session × Process) (s : Session) (p : Process)
    (o : Option (Session × Process))
    → ((s' : Session) (p' : Process) → IsLinked s' → Follows s' p' (g s' p'))
    → FollowsIf s p o
    → FollowsIf s p (then_write g o)
then_write-FollowsIf g s p none keep h = tt
then_write-FollowsIf g s p (some (s', p')) keep h =
    Follows-trans s p (s', p') (g s' p') h (keep s' p' h.0)

same : (s : Session) (p : Process) → IsLinked s → Follows s p (s, p)
same s p l = still s s p p (SameLinks-refl s) (SameCounts-refl p.balancer) l

client_event-FollowsIf :
    (f : Floats) (a : Answers) (r : Ready) (self : ℕ) (s : Session) (p : Process)
    → IsLinked s
    → Dials a
    → FollowsIf s p (client_event f a r self s p)
unfolding client_event
client_event-FollowsIf f a r self s p l d =
    if_split (FollowsIf s p) (r.err || r.hup) (some (delete_session self s p)) _
      (λ h. delete_session-Follows self s p l)
      (λ h.
        if_split (FollowsIf s p) r.output (then_write (client_write self a.write) after) after
          (λ o.
            then_write-FollowsIf (client_write self a.write) s p after
              (client_write-Follows self a.write) read)
          (λ o. read))
  where
    after : Option (Session × Process)
    after =
        if r.input then client_read f a.member_dial a.clone_dial self a.read s p else some (s, p)

    read : FollowsIf s p after
    read =
        if_split (FollowsIf s p) r.input _ (some (s, p))
          (λ i. client_read-FollowsIf f a.member_dial a.clone_dial self a.read s p l d.0 d.1)
          (λ i. same s p l)

member_event-Follows :
    (a : Answers) (r : Ready) (self : ℕ) (s : Session) (p : Process)
    → IsLinked s
    → Follows s p (member_event a r self s p)
unfolding member_event
member_event-Follows a r self s p l =
    if_split (Follows s p) (r.err || r.hup) (disconnect_member s p) _
      (λ h. disconnect_member-Follows s p l)
      (λ h.
        if_split (Follows s p) r.output (member_write a.write after.0 after.1) after
          (λ o.
            Follows-trans s p after (member_write a.write after.0 after.1) read
              (member_write-Follows a.write after.0 after.1 read.0))
          (λ o. read))
  where
    after : Session × Process
    after = if r.input then member_read self a.read s p else (s, p)

    read : Follows s p after
    read =
        if_split (Follows s p) r.input (member_read self a.read s p) (s, p)
          (λ i. member_read-Follows self a.read s p l) (λ i. same s p l)

clone_event-Follows :
    (a : Answers) (r : Ready) (s : Session) (p : Process)
    → IsLinked s
    → Follows s p (clone_event a r s p)
unfolding clone_event
clone_event-Follows a r s p l =
    if_split (Follows s p) (r.err || r.hup) (disconnect_clone s p) _
      (λ h. disconnect_clone-Follows s p l)
      (λ h.
        if_split (Follows s p) r.output (clone_write a.write after.0 after.1) after
          (λ o.
            Follows-trans s p after (clone_write a.write after.0 after.1) read
              (clone_write-Follows a.write after.0 after.1 read.0))
          (λ o. read))
  where
    after : Session × Process
    after = if r.input then clone_read a.read s p else (s, p)

    read : Follows s p after
    read =
        if_split (Follows s p) r.input (clone_read a.read s p) (s, p)
          (λ i. clone_read-Follows a.read s p l) (λ i. same s p l)

pub session_event-FollowsIf :
    (f : Floats) (a : Answers) (r : Ready) (fd self : ℕ) (s : Session) (p : Process)
    → IsLinked s
    → Dials a
    → FollowsIf s p (session_event f a r fd self s p)
unfolding session_event
session_event-FollowsIf f a r fd self s p l d =
    if_split (FollowsIf s p) (is_fd s.clientfd fd) (client_event f a r self s p) _
      (λ h. client_event-FollowsIf f a r self s p l d)
      (λ h.
        if_split (FollowsIf s p) (is_fd s.memberfd fd) (some (member_event a r self s p)) _
          (λ k. member_event-Follows a r self s p l)
          (λ k.
            if_split (FollowsIf s p) (is_fd s.clonefd fd) (some (clone_event a r s p)) (some (s, p))
              (λ c. clone_event-Follows a r s p l) (λ c. same s p l)))

settle-FollowsIf :
    (self : ℕ) (s : Session) (p : Process) (o : Option (Connected × (Session × Process)))
    → ServedIf s p o
    → FollowsIf s p (settle self o)
settle-FollowsIf self s p none v = tt
settle-FollowsIf self s p (some (status, (s', p'))) v =
    if_split (FollowsIf s p) (is_rejected status) (some (delete_session self s' p'))
      (some (clear_fresh s', p'))
      (λ h.
        Follows-trans s p (s', p') (delete_session self s' p') v.0
          (delete_session-Follows self s' p' v.0.0))
      (λ h.
        Follows-trans s p (s', p') (clear_fresh s', p') v.0
          (still s' (clear_fresh s') p' p' (clear_fresh-SameLinks s') (SameCounts-refl p'.balancer)
            v.0.0))

-- The client's side is set: the servers' sides stay.
greeted-Follows :
    (fd : ℕ) (s : Session) (p p' : Process)
    → p'.balancer ≡ p.balancer
    → IsLinked s
    → Follows s p (greeted fd s, p')
greeted-Follows fd s p p' e l = (
  record {
    client_fd = refl;
    member_fd = l.member_fd;
    clone_fd = l.clone_fd;
    member_set = l.member_set;
    clone_set = l.clone_set;
  },
  record {
    members = λ m. ap (λ (b : Balancer). (b.members m).c +ℤ pos (member_share s m)) e;
    clones = λ m. ap (λ (b : Balancer). (b.clones m).c +ℤ pos (clone_share s m)) e;
  },
)

pub welcome-FollowsIf :
    (f : Floats) (a : Answers) (c : Accepted) (fd self : ℕ) (s : Session) (p : Process)
    → IsLinked s
    → Dials a
    → FollowsIf s p (welcome f a c fd self s p)
unfolding welcome
welcome-FollowsIf f a c fd self s p l d =
    if_split (FollowsIf s p) c.watched _ (some (delete_session self s' p))
      (λ h.
        if_split (FollowsIf s p) (waits_for_request p.balancer.algorithm) (some (s', p'))
          (settle self (choose_server f a.member_dial a.clone_dial self s' p')) (λ k. start p' refl)
          (λ k.
            let v =
              choose_server_lem f a.member_dial a.clone_dial self s' p' (start p' refl).0 d.0 d.1 in
            join (settle self (choose_server f a.member_dial a.clone_dial self s' p')) (
              settle-FollowsIf self s' p' (choose_server f a.member_dial a.clone_dial self s' p')
                v)))
      (λ h.
        Follows-trans s p (s', p) (delete_session self s' p) (start p refl)
          (delete_session-Follows self s' p (start p refl).0))
  where
    s' : Session
    s' = greeted fd s

    p' : Process
    p' = record p { epoll = epoll_add fd ro_ev p.epoll }

    start : (q : Process) → q.balancer ≡ p.balancer → Follows s p (s', q)
    start q e = greeted-Follows fd s p q e l

    join : (o : Option (Session × Process)) → FollowsIf s' p' o → FollowsIf s p o
    join none h = tt
    join (some r) h = Follows-trans s p (s', p') r (start p' refl) h
