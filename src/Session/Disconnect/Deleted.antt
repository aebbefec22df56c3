-- ===== src/Session/Disconnect/Deleted.antt =====
-- What `delete_session` of src/octopus.c leaves behind.
use octopuslb.Base.{ℕ, ◌≡◌, refl, Option, none, some, arith, if_split, ◌+ℤ◌, pos, pos_part}
use octopuslb.Balancer.{Balancer}
use octopuslb.Session.{Session, Process, Interest, state_unused}
use octopuslb.Session.Queue.{add_unused_session}
use octopuslb.Session.Disconnect.{
  disconnect_clone, disconnect_member, disconnect_client, drop_client, drop_member, drop_clone,
  delete_session,
}
use octopuslb.Session.Disconnect.Accounting.{
  IsLinked, Balanced, Balanced-trans, Balanced-refl, disconnect_client-Balanced,
  disconnect_client-IsLinked, disconnect_member-Balanced, disconnect_member-IsLinked,
  disconnect_clone-Balanced, disconnect_clone-IsLinked, member_share, clone_share,
}

-- The descriptor is no longer watched.
abbrev pub Unwatched : Option ℕ → (ℕ → Option Interest) → Type 0
Unwatched none set = Unit {0}
Unwatched (some fd) set = set fd ≡ none

-- A step of the disconnection from one pair to another: the links hold and the counts follow.
abbrev Goes : Session × Process → (Session → Type 0) → Session × Process → Type 0
Goes (s, p) P (s', p') = IsLinked s' × Balanced s p.balancer s' p'.balancer × P s'

drop_client_lem :
    (s : Session) (p : Process)
    → IsLinked s
    → Goes (s, p) (λ s'. s'.clientfd ≡ none) (drop_client (s, p))
unfolding disconnect_client
drop_client_lem s p l =
    if_split (Goes (s, p) (λ s'. s'.clientfd ≡ none)) s.state.cli_connected (disconnect_client s p)
      (s, p) (λ e. (disconnect_client-IsLinked s p l, disconnect_client-Balanced s p, ground arith))
      (λ e. (l, Balanced-refl s p.balancer, ground (arith, l.client_fd)))

drop_member_lem :
    (s : Session) (p : Process)
    → IsLinked s
    → s.clientfd ≡ none
    → Goes (s, p) (λ s'. (s'.clientfd ≡ none) × (s'.memberfd ≡ none)) (drop_member (s, p))
unfolding disconnect_member
drop_member_lem s p l c =
    if_split (Goes (s, p) (λ s'. (s'.clientfd ≡ none) × (s'.memberfd ≡ none))) s.state.mem_connected
      (disconnect_member s p) (s, p)
      (λ e. (disconnect_member-IsLinked s p l, disconnect_member-Balanced s p l, ground arith))
      (λ e. (l, Balanced-refl s p.balancer, ground (arith, l.member_fd)))

drop_clone_lem :
    (s : Session) (p : Process)
    → IsLinked s
    → (s.clientfd ≡ none) × (s.memberfd ≡ none)
    → Goes
        (s, p)
        (λ s'. (s'.clientfd ≡ none) × (s'.memberfd ≡ none) × (s'.clonefd ≡ none))
        (drop_clone (s, p))
unfolding disconnect_clone
drop_clone_lem s p l c =
    if_split (Goes (s, p) (λ s'. (s'.clientfd ≡ none) × (s'.memberfd ≡ none) × (s'.clonefd ≡ none)))
      s.state.clo_connected (disconnect_clone s p) (s, p)
      (λ e. (disconnect_clone-IsLinked s p l, disconnect_clone-Balanced s p l, ground arith))
      (λ e. (l, Balanced-refl s p.balancer, ground (arith, l.clone_fd)))

-- The three disconnections of a linked session.
drops_lem :
    (s : Session) (p : Process)
    → IsLinked s
    → Goes
        (s, p)
        (λ s'. (s'.clientfd ≡ none) × (s'.memberfd ≡ none) × (s'.clonefd ≡ none))
        (drop_clone (drop_member (drop_client (s, p))))
drops_lem s p l =
    let a = drop_client_lem s p l in
    let b = drop_member_lem _ _ a.0 a.2 in
    let c = drop_clone_lem _ _ b.0 b.2 in (c.0, Balanced-trans a.1 (Balanced-trans b.1 c.1), c.2)

-- What a deleted session looks like.
pub record Blank (s : Session) : Type 0 where
  pub no_client : s.clientfd ≡ none
  pub no_member : s.memberfd ≡ none
  pub no_clone : s.clonefd ≡ none
  pub state_zero : s.state ≡ state_unused
  pub client_empty : s.client_used_buffer ≡ 0
  pub member_empty : s.member_used_buffer ≡ 0
  pub clone_empty : s.clone_used_buffer ≡ 0

drops_queue :
    (s : Session) (p : Process) → (drop_clone (drop_member (drop_client (s, p)))).1.queue ≡ p.queue
unfolding disconnect_client disconnect_member disconnect_clone
drops_queue s p = ground arith

no_share :
    (s : Session) (b : Balancer) (s' : Session) (b' : Balancer)
    → IsLinked s'
    → (s'.clientfd ≡ none) × (s'.memberfd ≡ none) × (s'.clonefd ≡ none)
    → Balanced s b s' b'
    → ((m : ℕ) → (b'.members m).c +ℤ pos (member_share s m) ≡ (b.members m).c +ℤ pos 0)
      × ((m : ℕ) → (b'.clones m).c +ℤ pos (clone_share s m) ≡ (b.clones m).c +ℤ pos 0)
no_share s b s' b' l n v =
    (λ m. ground (arith, v.members m, l.member_fd), λ m. ground (arith, v.clones m, l.clone_fd))

-- Deleting a linked session leaves it blank, takes exactly its own connections off the counts of the
-- members and of the clones, and puts its index at the new rear of the queue of unused sessions.
pub delete_session_lem :
    (self : ℕ) (s : Session) (p : Process)
    → IsLinked s
    → Blank (delete_session self s p).0
      × ((m : ℕ)
          → ((delete_session self s p).1.balancer.members m).c +ℤ pos (member_share s m)
            ≡ (p.balancer.members m).c +ℤ pos 0)
      × ((m : ℕ)
          → ((delete_session self s p).1.balancer.clones m).c +ℤ pos (clone_share s m)
            ≡ (p.balancer.clones m).c +ℤ pos 0)
      × ((delete_session self s p).1.queue.unused_sessions (delete_session self s p).1.queue.rear
          ≡ self)
unfolding delete_session add_unused_session
delete_session_lem self s p l =
    let d = drops_lem s p l in
    let n = no_share s p.balancer _ _ d.0 d.2 d.1 in
    (
      record {
        no_client = d.2.0;
        no_member = d.2.1;
        no_clone = d.2.2;
        state_zero = refl;
        client_empty = refl;
        member_empty = refl;
        clone_empty = refl;
      },
      n.0,
      n.1,
      ground arith,
    )

pub delete_session-IsLinked :
    (self : ℕ) (s : Session) (p : Process) → IsLinked s → IsLinked (delete_session self s p).0
unfolding delete_session
delete_session-IsLinked self s p l =
    let d = drops_lem s p l in
    record {
      client_fd = rw d.2.0 refl;
      member_fd = rw d.2.1 refl;
      clone_fd = rw d.2.2 refl;
      member_set = λ h. absurd (cc);
      clone_set = λ h. absurd (cc);
    }

pub delete_session-Balanced :
    (self : ℕ) (s : Session) (p : Process)
    → IsLinked s
    → Balanced s p.balancer (delete_session self s p).0 (delete_session self s p).1.balancer
unfolding delete_session
delete_session-Balanced self s p l =
    let r = delete_session_lem self s p l in record { members = r.1; clones = r.2 }

drops_settings :
    (s : Session) (p : Process)
    → (drop_clone (drop_member (drop_client (s, p)))).1.balancer.settings ≡ p.balancer.settings
unfolding disconnect_client disconnect_member disconnect_clone
drops_settings s p = ground arith

-- The deletion touches the queue once, and no setting.
pub delete_session-queue :
    (self : ℕ) (s : Session) (p : Process)
    → ((delete_session self s p).1.queue
        ≡ add_unused_session (pos_part p.balancer.session_limit) self p.queue)
      × ((delete_session self s p).1.balancer.settings ≡ p.balancer.settings)
unfolding delete_session
delete_session-queue self s p = (rw (drops_settings s p, drops_queue s p) refl, drops_settings s p)
