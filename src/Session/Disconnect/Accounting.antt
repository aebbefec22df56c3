-- ===== src/Session/Disconnect/Accounting.antt =====
-- The connection counts of the servers against the sessions (src/octopus.c, src/connect.c).
use octopuslb.Base.{
  ℕ, ◌≡◌, refl, ap, Bool, true, false, ◌&&◌, Option, none, some, arith, ◌==◌, if◌then◌else◌, ℤ, pos,
  ◌+ℤ◌, ◌-ℤ◌, int_laws, pos_part, neg_part,
}
use octopuslb.Balancer.{Balancer}
use octopuslb.Session.{Session, Process}
use octopuslb.Session.Disconnect.{disconnect_clone, disconnect_member, disconnect_client}

abbrev pub is_some {ℓ} : {A : Type ℓ} → Option A → Bool
is_some none = false
is_some (some _) = true

abbrev pub points_to : Option ℕ → ℕ → Bool
points_to none m = false
points_to (some i) m = i == m

-- How many of the connections of member `m`, or of clone `m`, belong to the session.
abbrev pub member_share : Session → ℕ → ℕ
member_share s m = if s.state.mem_connected && points_to s.member m then 1 else 0

abbrev pub clone_share : Session → ℕ → ℕ
clone_share s m = if s.state.clo_connected && points_to s.clone m then 1 else 0

-- A side of the session is connected exactly when it has a descriptor, and a connected server side
-- has its pointer set.
pub record IsLinked (s : Session) : Type 0 where
  pub client_fd : s.state.cli_connected ≡ is_some s.clientfd
  pub member_fd : s.state.mem_connected ≡ is_some s.memberfd
  pub clone_fd : s.state.clo_connected ≡ is_some s.clonefd
  pub member_set : s.state.mem_connected ≡ true → is_some s.member ≡ true
  pub clone_set : s.state.clo_connected ≡ true → is_some s.clone ≡ true

shift_counts :
    (x y z : ℤ) (a b c : ℕ)
    → y +ℤ pos a ≡ x +ℤ pos b
    → z +ℤ pos b ≡ y +ℤ pos c
    → z +ℤ pos a ≡ x +ℤ pos c
shift_counts x y z a b c h k =
    omega (int_laws, ap pos_part h, ap neg_part h, ap pos_part k, ap neg_part k)

-- Between the two states every server's count changes by what the session's share changes.
pub record Balanced (s : Session) (b : Balancer) (s' : Session) (b' : Balancer) : Type 0 where
  pub members :
      (m : ℕ)
      → (b'.members m).c +ℤ pos (member_share s m) ≡ (b.members m).c +ℤ pos (member_share s' m)
  pub clones :
      (m : ℕ) → (b'.clones m).c +ℤ pos (clone_share s m) ≡ (b.clones m).c +ℤ pos (clone_share s' m)

pub Balanced-trans :
    {s s' s'' : Session} {b b' b'' : Balancer}
    → Balanced s b s' b'
    → Balanced s' b' s'' b''
    → Balanced s b s'' b''
Balanced-trans {s} {s'} {s''} v w = record {
  members = λ m.
      shift_counts _ _ _ (member_share s m) (member_share s' m) (member_share s'' m) (v.members m)
        (w.members m);
  clones = λ m.
      shift_counts _ _ _ (clone_share s m) (clone_share s' m) (clone_share s'' m) (v.clones m)
        (w.clones m);
}

pub Balanced-refl : (s : Session) (b : Balancer) → Balanced s b s b
Balanced-refl s b = record { members = λ m. refl; clones = λ m. refl }

sub_one : (z : ℤ) → z -ℤ pos 1 +ℤ pos 1 ≡ z +ℤ pos 0
sub_one z = omega int_laws

pub disconnect_member-Balanced :
    (s : Session) (p : Process)
    → IsLinked s
    → Balanced s p.balancer (disconnect_member s p).0 (disconnect_member s p).1.balancer
unfolding disconnect_member
disconnect_member-Balanced s p l = record {
  members = λ m. ground (arith, sub_one (p.balancer.members m).c);
  clones = λ m. ground arith;
}

pub disconnect_member-IsLinked :
    (s : Session) (p : Process) → IsLinked s → IsLinked (disconnect_member s p).0
unfolding disconnect_member
disconnect_member-IsLinked s p l = ground arith

pub disconnect_clone-Balanced :
    (s : Session) (p : Process)
    → IsLinked s
    → Balanced s p.balancer (disconnect_clone s p).0 (disconnect_clone s p).1.balancer
unfolding disconnect_clone
disconnect_clone-Balanced s p l = record {
  members = λ m. ground arith;
  clones = λ m. ground (arith, sub_one (p.balancer.clones m).c);
}

pub disconnect_clone-IsLinked :
    (s : Session) (p : Process) → IsLinked s → IsLinked (disconnect_clone s p).0
unfolding disconnect_clone
disconnect_clone-IsLinked s p l = ground arith

pub disconnect_client-Balanced :
    (s : Session) (p : Process)
    → Balanced s p.balancer (disconnect_client s p).0 (disconnect_client s p).1.balancer
unfolding disconnect_client
disconnect_client-Balanced s p = record { members = λ m. ground arith; clones = λ m. ground arith }

pub disconnect_client-IsLinked :
    (s : Session) (p : Process) → IsLinked s → IsLinked (disconnect_client s p).0
unfolding disconnect_client
disconnect_client-IsLinked s p l = ground arith
