-- ===== src/Connect/Outcome.antt =====
-- What `connect_server` of src/connect.c does to the session and to the connection counts.
use octopuslb.Base.{
  ℕ, ◌≡◌, ◌≢◌, refl, inl, inr, Bool, true, false, ◌&&◌, Option, none, some, arith, if◌then◌else◌,
  if_split, Bool-cases, ◌+ℤ◌, pos, ℤ, int_laws, ap, ◌∙◌,
}
use octopuslb.Session.{Session, Process}
use octopuslb.Session.Disconnect.Accounting.{IsLinked, Balanced, Balanced-trans, Balanced-refl}
use octopuslb.Connect.{
  MemberDial, CloneDial, Connected, both_connected, rejected, connect_member, connect_clone,
  connect_server, join_member, tie_member, join_clone, tie_clone, attach_member, attach_clone,
}

add_zero_one : (z : ℤ) → z +ℤ pos 1 +ℤ pos 0 ≡ z +ℤ pos 1
add_zero_one z = omega int_laws

-- The links hold, and the counts follow.
abbrev pub Follows : Session → Process → Session × Process → Type 0
Follows s p (s', p') = IsLinked s' × Balanced s p.balancer s' p'.balancer

join_member-Follows :
    (self fd : ℕ) (s : Session) (p : Process)
    → IsLinked s
    → s.memberfd ≡ none
    → Follows s p (join_member fd (tie_member self fd s p))
join_member-Follows self fd s p l h = (
  ground arith,
  record {
    members = λ m. ground (arith, l.member_fd, add_zero_one (p.balancer.members m).c);
    clones = λ m. ground arith;
  },
)

join_clone-Follows :
    (self fd : ℕ) (s : Session) (p : Process)
    → IsLinked s
    → s.clonefd ≡ none
    → Follows s p (join_clone fd (tie_clone self fd s p))
join_clone-Follows self fd s p l h = (
  ground arith,
  record {
    members = λ m. ground arith;
    clones = λ m. ground (arith, l.clone_fd, add_zero_one (p.balancer.clones m).c);
  },
)

-- With `attach_member`, whatever the calls but EPOLL_CTL_ADD answer.
attach_member_lem :
    (d : MemberDial) (self : ℕ) (s : Session) (p : Process) (o socket : Option ℕ)
    → IsLinked s
    → d.watched ≡ true
    → s.memberfd ≡ o
    → Follows s p (attach_member d self s p o socket).1
      × ((attach_member d self s p o socket).0 ≡ true
          → (attach_member d self s p o socket).1.0.state.mem_connected ≡ true)
unfolding attach_member
attach_member_lem d self s p (some fd) _ l add e =
    ((l, Balanced-refl s p.balancer), λ h. ground (arith, l.member_fd))
attach_member_lem d self s p none none l add e = ((l, Balanced-refl s p.balancer), λ h. absurd (cc))
attach_member_lem d self s p none (some fd) l add e =
    rw (add, attach_member)
      (if_split
        (λ (r : Bool × (Session × Process)).
          Follows s p r.1 × (r.0 ≡ true → r.1.0.state.mem_connected ≡ true))
        (d.nonblock && d.bind && d.connect) (true, join_member fd (tie_member self fd s p))
        (false, (s, p)) (λ h. (join_member-Follows self fd s p l e, λ k. refl))
        (λ h. ((l, Balanced-refl s p.balancer), λ k. absurd (cc))))

attach_clone_lem :
    (d : CloneDial) (self : ℕ) (s : Session) (p : Process) (o socket : Option ℕ)
    → IsLinked s
    → d.watched ≡ true
    → s.clonefd ≡ o
    → Follows s p (attach_clone d self s p o socket).1
      × ((attach_clone d self s p o socket).1.0.state.mem_connected ≡ s.state.mem_connected)
      × ((attach_clone d self s p o socket).0 ≡ both_connected
          → (attach_clone d self s p o socket).1.0.state.clo_connected ≡ true)
unfolding attach_clone
attach_clone_lem d self s p (some fd) _ l add e =
    ((l, Balanced-refl s p.balancer), refl, λ h. ground (arith, l.clone_fd))
attach_clone_lem d self s p none none l add e =
    ((l, Balanced-refl s p.balancer), refl, λ h. absurd (cc))
attach_clone_lem d self s p none (some fd) l add e =
    rw (add, attach_clone)
      (elim (Bool-cases (d.nonblock && d.options)) [
        | inr h ↦ rw h ((l, Balanced-refl s p.balancer), refl, λ k. absurd (cc))
        | inl h ↦ rw h (elim (Bool-cases d.bind) [
          | inr k ↦ rw k ((l, Balanced-refl s p.balancer), refl, λ k. absurd (cc))
          | inl k ↦ rw k (elim (Bool-cases d.connect) [
            | inr c ↦ rw c ((l, Balanced-refl s p.balancer), refl, λ k. absurd (cc))
            | inl c ↦ rw c (join_clone-Follows self fd s p l e, refl, λ k. refl)
          ])
        ])
      ])

use_clone-attach_member :
    (d : MemberDial) (self : ℕ) (s : Session) (p : Process) (o socket : Option ℕ)
    → (attach_member d self s p o socket).1.1.selection ≡ p.selection
unfolding attach_member
use_clone-attach_member d self s p (some fd) _ = refl
use_clone-attach_member d self s p none none = refl
use_clone-attach_member d self s p none (some fd) = ground arith

-- What the result of `connect_server` says, and what it keeps.
pub record Served (s : Session) (p : Process) (r : Connected × (Session × Process)) : Type 0 where
  pub linked : IsLinked r.1.0
  pub balanced : Balanced s p.balancer r.1.0 r.1.1.balancer
  pub has_member : r.0 ≢ rejected → r.1.0.state.mem_connected ≡ true
  pub has_clone :
      p.selection.use_clone ≡ true → r.0 ≡ both_connected → r.1.0.state.clo_connected ≡ true

connect_clone_lem :
    (s₀ : Session) (p₀ : Process) (e : CloneDial) (self : ℕ) (s : Session) (p : Process)
    → Follows s₀ p₀ (s, p)
    → s.state.mem_connected ≡ true
    → p.selection ≡ p₀.selection
    → e.watched ≡ true
    → Served s₀ p₀ (connect_clone e self s p)
unfolding connect_clone
connect_clone_lem s₀ p₀ e self s p f m sel add =
    let a = attach_clone_lem e self s p s.clonefd e.socket f.0 add refl in
    if_split (Served s₀ p₀) p.selection.use_clone (attach_clone e self s p s.clonefd e.socket)
      (both_connected, (s, p))
      (λ h. record {
        linked = a.0.0;
        balanced = Balanced-trans f.1 a.0.1;
        has_member = λ k. a.1 ∙ m;
        has_clone = λ k. a.2;
      })
      (λ h. record {
        linked = f.0;
        balanced = f.1;
        has_member = λ k. m;
        has_clone = λ k. absurd (cc);
      })

-- When no EPOLL_CTL_ADD fails, then after `connect_server` on a linked session, whatever the other
-- calls answer, the session is linked and the counts of the servers follow its connections; unless
-- the result is -1 it is connected to a member, and if clones are used and the result is 0, to a
-- clone.
pub connect_server_lem :
    (d : MemberDial) (e : CloneDial) (self : ℕ) (s : Session) (p : Process)
    → IsLinked s
    → d.watched ≡ true
    → e.watched ≡ true
    → Served s p (connect_server d e self s p)
unfolding connect_server connect_member
connect_server_lem d e self s p l add add' =
    let a = attach_member_lem d self s p s.memberfd d.socket l add refl in
    let r = attach_member d self s p s.memberfd d.socket in
    if_split (Served s p) r.0 (connect_clone e self r.1.0 r.1.1) (rejected, r.1)
      (λ h.
        connect_clone_lem s p e self r.1.0 r.1.1 a.0 (a.1 h)
          (use_clone-attach_member d self s p s.memberfd d.socket) add')
      (λ h. record {
        linked = a.0.0;
        balanced = a.0.1;
        has_member = λ k. absurd (k refl);
        has_clone = λ k c. absurd (cc);
      })

stays_down :
    (e : CloneDial) (self : ℕ) (s : Session) (p : Process) (o socket : Option ℕ)
    → (attach_clone e self s p o socket).1.0.state.mem_connected ≡ s.state.mem_connected
unfolding attach_clone
stays_down e self s p (some fd) _ = refl
stays_down e self s p none none = refl
stays_down e self s p none (some fd) = ground arith

mem_connected-connect_clone :
    (e : CloneDial) (self : ℕ) (s : Session) (p : Process)
    → (connect_clone e self s p).1.0.state.mem_connected ≡ s.state.mem_connected
unfolding connect_clone
mem_connected-connect_clone e self s p =
    if_split
      (λ (r : Connected × (Session × Process)). r.1.0.state.mem_connected ≡ s.state.mem_connected)
      p.selection.use_clone (attach_clone e self s p s.clonefd e.socket) (both_connected, (s, p))
      (λ h. stays_down e self s p s.clonefd e.socket) (λ h. refl)

-- A session with a member descriptor but without MEM_CONNECTED, as a failed EPOLL_CTL_ADD leaves it,
-- is never connected to a member by `connect_server`, which still goes on to the clone and does not
-- return -1 for want of a member.
pub connect_server_stuck :
    (d : MemberDial) (e : CloneDial) (self fd : ℕ) (s : Session) (p : Process)
    → s.memberfd ≡ some fd
    → s.state.mem_connected ≡ false
    → (connect_server d e self s p ≡ connect_clone e self s p)
      × ((connect_server d e self s p).1.0.state.mem_connected ≡ false)
unfolding connect_server connect_member attach_member
connect_server_stuck d e self fd s p h down =
    let same : connect_server d e self s p ≡ connect_clone e self s p =
      ap (λ o. connect_result o) h in
    (
      same,
      ap (λ (r : Connected × (Session × Process)). r.1.0.state.mem_connected) same
          ∙ mem_connected-connect_clone e self s p
          ∙ down,
    )
  where
    connect_result : Option ℕ → Connected × (Session × Process)
    connect_result o =
        let (ok, (s', p')) = attach_member d self s p o d.socket in
        if ok then connect_clone e self s' p' else (rejected, (s', p'))
