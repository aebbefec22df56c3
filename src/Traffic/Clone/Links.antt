-- ===== src/Traffic/Clone/Links.antt =====
-- `clone_read` and `clone_write` of src/octopus.c: the connections and the counts.
use octopuslb.Base.{ℕ, refl, arith, length}
use octopuslb.Session.{Overlap, Session, Process}
use octopuslb.Session.Disconnect.Accounting.{IsLinked}
use octopuslb.Connect.Outcome.{Follows}
use octopuslb.Connect.Links.{SameLinks, SameLinks-refl, still}
use octopuslb.Traffic.{ReadResult, read_failed, eof, got, WriteResult, write_failed, wrote}
use octopuslb.Traffic.Links.{disconnect_clone-Follows, count_clone-SameCounts}
use octopuslb.Traffic.Member.{received, sent}
use octopuslb.Traffic.Clone.{clone_read, sent_to_clone, clone_write}

pub clone_read-Follows :
    (r : ReadResult) (s : Session) (p : Process) → IsLinked s → Follows s p (clone_read r s p)
unfolding clone_read
clone_read-Follows (got bytes) s p l =
    still s s p (clone_read (got bytes) s p).1 (SameLinks-refl s)
      (count_clone-SameCounts received (length bytes) s p (λ t. refl)) l
clone_read-Follows read_failed s p l = disconnect_clone-Follows s p l
clone_read-Follows eof s p l = disconnect_clone-Follows s p l

sent_to_clone-SameLinks : (o : Overlap) (n : ℕ) (s : Session) → SameLinks s (sent_to_clone o n s)
unfolding sent_to_clone
sent_to_clone-SameLinks o n s = ground arith

pub clone_write-Follows :
    (r : WriteResult) (s : Session) (p : Process) → IsLinked s → Follows s p (clone_write r s p)
unfolding clone_write
clone_write-Follows write_failed s p l = disconnect_clone-Follows s p l
clone_write-Follows (wrote n) s p l =
    let c = count_clone-SameCounts sent n s p (λ t. refl) in
    still s (sent_to_clone p.overlap n s) p (clone_write (wrote n) s p).1
      (sent_to_clone-SameLinks p.overlap n s) (record { members = c.members; clones = c.clones }) l
