-- ===== src/Traffic/Client/Links.antt =====
-- `client_read` and `client_write` of src/octopus.c: the connections and the counts.
use octopuslb.Base.{
  ℕ, ◌-◌, ◌≡◌, true, Option, none, some, List, arith, ◌==◌, ltb, length, if_split, if◌then◌else◌,
  Floats,
}
use octopuslb.Select.Hash.Counts.{SameCounts, SameCounts-refl}
use octopuslb.Session.{Overlap, Session, Process, message_size_limit}
use octopuslb.Session.Disconnect.{disconnect_clone, delete_session}
use octopuslb.Session.Disconnect.Accounting.{IsLinked}
use octopuslb.Connect.{MemberDial, CloneDial, Connected, is_rejected, choose_server}
use octopuslb.Connect.Outcome.{Follows}
use octopuslb.Connect.Links.{
  SameLinks, SameLinks-refl, still, Follows-trans, ServedIf, choose_server_lem,
}
use octopuslb.Traffic.{
  ReadResult, read_failed, eof, got, WriteResult, write_failed, wrote, watch_client, watch_member,
}
use octopuslb.Traffic.Links.{delete_session-Follows, disconnect_clone-Follows}
use octopuslb.Traffic.Client.{
  receive, feed_clone, note_read, watch_after_read, after_read, clear_fresh, client_read,
  sent_to_client, client_write, drained,
}

receive-SameLinks : (bytes : List ℕ) (s : Session) → SameLinks s (receive bytes s)
unfolding receive
receive-SameLinks bytes s = ground arith

note_read-SameLinks : (s : Session) → SameLinks s (note_read s)
unfolding note_read
note_read-SameLinks s = ground arith

pub clear_fresh-SameLinks : (s : Session) → SameLinks s (clear_fresh s)
unfolding clear_fresh
clear_fresh-SameLinks s = ground arith

sent_to_client-SameLinks : (o : Overlap) (n : ℕ) (s : Session) → SameLinks s (sent_to_client o n s)
unfolding sent_to_client
sent_to_client-SameLinks o n s = ground arith

watch_after_read-SameCounts :
    (s : Session) (p : Process) → SameCounts p.balancer (watch_after_read s p).balancer
unfolding watch_after_read
watch_after_read-SameCounts s p =
    if_split (λ (q : Process). SameCounts p.balancer q.balancer) s.state.clo_connected _ _
      (λ h. SameCounts-refl p.balancer) (λ h. SameCounts-refl p.balancer)

feed_clone-Follows :
    (bytes : List ℕ) (s : Session) (p : Process) → IsLinked s → Follows s p (feed_clone bytes s p)
unfolding feed_clone
feed_clone-Follows bytes s p l =
    let same = still s s p p (SameLinks-refl s) (SameCounts-refl p.balancer) l in
    if_split (Follows s p) s.state.clo_connected _ (s, p)
      (λ on.
        if_split (Follows s p) (ltb (message_size_limit - s.clone_used_buffer) (length bytes))
          (disconnect_clone s p) _ (λ full. disconnect_clone-Follows s p l)
          (λ room. still s _ p p (ground arith) (SameCounts-refl p.balancer) l))
      (λ down. same)

after_read-Follows :
    (bytes : List ℕ) (s : Session) (p : Process) → IsLinked s → Follows s p (after_read bytes s p)
unfolding after_read
after_read-Follows bytes s p l =
    let a = feed_clone-Follows bytes s p l in
    let r = feed_clone bytes s p in
    Follows-trans s p r (after_read bytes s p) a (
      still r.0 (note_read r.0) r.1 (watch_after_read (note_read r.0) r.1) (note_read-SameLinks r.0)
        (watch_after_read-SameCounts (note_read r.0) r.1) a.0)

-- What a handler that may crash leaves, if it does not.
abbrev pub FollowsIf : Session → Process → Option (Session × Process) → Type 0
FollowsIf s p none = Unit {0}
FollowsIf s p (some r) = Follows s p r

-- What follows the choice of a server for a fresh session.
abbrev pub greet :
    ℕ → List ℕ → Option (Connected × (Session × Process)) → Option (Session × Process)
greet self bytes o = elim o [
  | none ↦ none
  | some (status, (s'', p'')) ↦
      if is_rejected status
      then some (delete_session self s'' p'')
      else some (after_read bytes (clear_fresh s'') p'')
]

greet-FollowsIf :
    (self : ℕ) (bytes : List ℕ) (s : Session) (p : Process)
    (o : Option (Connected × (Session × Process)))
    → ServedIf s p o
    → FollowsIf s p (greet self bytes o)
greet-FollowsIf self bytes s p none v = tt
greet-FollowsIf self bytes s p (some (status, (s', p'))) v =
    if_split (FollowsIf s p) (is_rejected status) _ _
      (λ h.
        Follows-trans s p (s', p') (delete_session self s' p') v.0
          (delete_session-Follows self s' p' v.0.0))
      (λ h.
        let c =
          still s' (clear_fresh s') p' p' (clear_fresh-SameLinks s') (SameCounts-refl p'.balancer)
            v.0.0 in
        let r = after_read bytes (clear_fresh s') p' in
        Follows-trans s p (s', p') r v.0
          (Follows-trans s' p' (clear_fresh s', p') r c
            (after_read-Follows bytes (clear_fresh s') p' c.0)))

pub client_read-FollowsIf :
    (f : Floats) (d : MemberDial) (e : CloneDial) (self : ℕ) (r : ReadResult) (s : Session)
    (p : Process)
    → IsLinked s
    → d.watched ≡ true
    → e.watched ≡ true
    → FollowsIf s p (client_read f d e self r s p)
unfolding client_read
client_read-FollowsIf f d e self read_failed s p l add add' = delete_session-Follows self s p l
client_read-FollowsIf f d e self eof s p l add add' = delete_session-Follows self s p l
client_read-FollowsIf f d e self (got bytes) s p l add add' =
    let s' = receive bytes s in
    let a = still s s' p p (receive-SameLinks bytes s) (SameCounts-refl p.balancer) l in
    let v = choose_server_lem f d e self s' p a.0 add add' in
    if_split (FollowsIf s p) s'.state.fresh _ (some (after_read bytes s' p))
      (λ h.
        after s s' p (greet self bytes (choose_server f d e self s' p)) a
          (greet-FollowsIf self bytes s' p (choose_server f d e self s' p) v))
      (λ h. Follows-trans s p (s', p) (after_read bytes s' p) a (after_read-Follows bytes s' p a.0))
  where
    after :
        (s s' : Session) (p : Process) (o : Option (Session × Process))
        → Follows s p (s', p)
        → FollowsIf s' p o
        → FollowsIf s p o
    after s s' p none a h = tt
    after s s' p (some r) a h = Follows-trans s p (s', p) r a h

pub client_write-Follows :
    (self : ℕ) (r : WriteResult) (s : Session) (p : Process)
    → IsLinked s
    → Follows s p (client_write self r s p)
unfolding client_write
client_write-Follows self write_failed s p l = delete_session-Follows self s p l
client_write-Follows self (wrote n) s p l =
    let s' = sent_to_client p.overlap n s in
    let go =
      still s s' p (watch_member s' (watch_client s' p)) (sent_to_client-SameLinks p.overlap n s)
        (SameCounts-refl p.balancer) l in
    if_split (Follows s p) ((sent_to_client p.overlap n s).member_used_buffer == 0) _ _
      (λ e.
        if_split (Follows s p) s.state.mem_connected _ _ (λ m. go)
          (λ m.
            let c = still s (drained s) p p (ground arith) (SameCounts-refl p.balancer) l in
            Follows-trans s p (drained s, p) (delete_session self (drained s) p) c
              (delete_session-Follows self (drained s) p c.0)))
      (λ e. go)
