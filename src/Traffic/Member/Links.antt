-- ===== src/Traffic/Member/Links.antt =====
-- `member_read` and `member_write` of src/octopus.c: the connections and the counts.
use octopuslb.Base.{ℕ, refl, List, arith, length, if_split}
use octopuslb.Session.{Overlap, Session, Process}
use octopuslb.Session.Disconnect.{disconnect_member, delete_session}
use octopuslb.Session.Disconnect.Accounting.{IsLinked}
use octopuslb.Connect.Outcome.{Follows}
use octopuslb.Connect.Links.{SameLinks, still}
use octopuslb.Traffic.{ReadResult, read_failed, eof, got, WriteResult, write_failed, wrote}
use octopuslb.Traffic.Links.{
  delete_session-Follows, disconnect_member-Follows, count_member-SameCounts,
}
use octopuslb.Traffic.Member.{
  received, sent, receive, member_gone, member_read, sent_to_member, member_write,
}

member_gone-Follows :
    (self : ℕ) (s : Session) (p : Process) → IsLinked s → Follows s p (member_gone self s p)
unfolding member_gone
member_gone-Follows self s p l =
    if_split (Follows s p) s.state.cli_write_ready (disconnect_member s p) (delete_session self s p)
      (λ h. disconnect_member-Follows s p l) (λ h. delete_session-Follows self s p l)

receive-SameLinks : (bytes : List ℕ) (s : Session) → SameLinks s (receive bytes s)
unfolding receive
receive-SameLinks bytes s = ground arith

sent_to_member-SameLinks : (o : Overlap) (n : ℕ) (s : Session) → SameLinks s (sent_to_member o n s)
unfolding sent_to_member
sent_to_member-SameLinks o n s = ground arith

pub member_read-Follows :
    (self : ℕ) (r : ReadResult) (s : Session) (p : Process)
    → IsLinked s
    → Follows s p (member_read self r s p)
unfolding member_read
member_read-Follows self (got bytes) s p l =
    let c = count_member-SameCounts received (length bytes) s p (λ t. refl) in
    still s (receive bytes s) p (member_read self (got bytes) s p).1 (receive-SameLinks bytes s)
      (record { members = c.members; clones = c.clones }) l
member_read-Follows self read_failed s p l = member_gone-Follows self s p l
member_read-Follows self eof s p l = member_gone-Follows self s p l

pub member_write-Follows :
    (r : WriteResult) (s : Session) (p : Process) → IsLinked s → Follows s p (member_write r s p)
unfolding member_write
member_write-Follows write_failed s p l = disconnect_member-Follows s p l
member_write-Follows (wrote n) s p l =
    let c = count_member-SameCounts sent n s p (λ t. refl) in
    still s (sent_to_member p.overlap n s) p (member_write (wrote n) s p).1
      (sent_to_member-SameLinks p.overlap n s) (record { members = c.members; clones = c.clones }) l
