-- ===== src/Traffic/Links.antt =====
-- The connections of a session and the counts of the servers through the six handlers of
-- src/octopus.c.
use octopuslb.Base.{ℕ, ◌≡◌, refl, Option, none, some, arith}
use octopuslb.Balancer.{Server}
use octopuslb.Select.Hash.Counts.{SameCounts}
use octopuslb.Session.{Session, Process, at_server}
use octopuslb.Session.Disconnect.{disconnect_clone, disconnect_member, delete_session}
use octopuslb.Session.Disconnect.Accounting.{
  IsLinked, disconnect_clone-Balanced, disconnect_clone-IsLinked, disconnect_member-Balanced,
  disconnect_member-IsLinked,
}
use octopuslb.Session.Disconnect.Deleted.{delete_session-IsLinked, delete_session-Balanced}
use octopuslb.Connect.Outcome.{Follows}
use octopuslb.Traffic.Member.{count_member}
use octopuslb.Traffic.Clone.{count_clone}

pub delete_session-Follows :
    (self : ℕ) (s : Session) (p : Process) → IsLinked s → Follows s p (delete_session self s p)
delete_session-Follows self s p l =
    (delete_session-IsLinked self s p l, delete_session-Balanced self s p l)

pub disconnect_member-Follows :
    (s : Session) (p : Process) → IsLinked s → Follows s p (disconnect_member s p)
disconnect_member-Follows s p l =
    (disconnect_member-IsLinked s p l, disconnect_member-Balanced s p l)

pub disconnect_clone-Follows :
    (s : Session) (p : Process) → IsLinked s → Follows s p (disconnect_clone s p)
disconnect_clone-Follows s p l = (disconnect_clone-IsLinked s p l, disconnect_clone-Balanced s p l)

-- A traffic counter is no connection count.
pub count_member-SameCounts :
    (f : ℕ → Server → Server) (n : ℕ) (s : Session) (p : Process)
    → ((t : Server) → (f n t).c ≡ t.c)
    → SameCounts p.balancer (count_member (f n) s p).balancer
count_member-SameCounts f n s p h = record { members = λ m. keep s.member m; clones = λ m. refl }
  where
    keep :
        (o : Option ℕ) (m : ℕ)
        → (at_server (f n) o p.balancer.members m).c ≡ (p.balancer.members m).c
    keep none m = refl
    keep (some i) m = ground (arith, h (p.balancer.members i))

pub count_clone-SameCounts :
    (f : ℕ → Server → Server) (n : ℕ) (s : Session) (p : Process)
    → ((t : Server) → (f n t).c ≡ t.c)
    → SameCounts p.balancer (count_clone (f n) s p).balancer
count_clone-SameCounts f n s p h = record { members = λ m. refl; clones = λ m. keep s.clone m }
  where
    keep :
        (o : Option ℕ) (m : ℕ) → (at_server (f n) o p.balancer.clones m).c ≡ (p.balancer.clones m).c
    keep none m = refl
    keep (some i) m = ground (arith, h (p.balancer.clones i))
