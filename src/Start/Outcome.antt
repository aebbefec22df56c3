-- ===== src/Start/Outcome.antt =====
-- What the start of src/init.c establishes for the main loop and the monitor.
use octopuslb.Base.{
  ℕ, ◌<◌, ◌≡◌, ◌≤ℤ◌, refl, sym, ap, ◌∙◌, inl, arith, ltb, lt→ltb, if◌then◌else◌, ℤ, pos, pos_part,
  eq_ℤ, sum_below-eq_zero, count_below-eq_zero,
}
use octopuslb.Balancer.{Balancer, hash_table_size}
use octopuslb.Session.{Overlap, Session}
use octopuslb.Session.Disconnect.Accounting.{IsLinked, member_share, clone_share}
use octopuslb.Loop.Invariant.{IsSound}
use octopuslb.Monitor.Shape.{IsMonitored}
use octopuslb.Start.{
  initialize_balancer, initialize_sessions, limit_sessions, supportable_sessions, unused_session,
}

-- The balancer of a new process is well-formed, no slot of its hash table is taken and none is
-- counted, and the mode of cloning is right: the monitor's invariant holds from the start.
pub initialize_balancer-IsMonitored : (debug : ℤ) → IsMonitored (initialize_balancer debug)
unfolding initialize_balancer
initialize_balancer-IsMonitored debug = record {
  well_formed = record {
    members_ok = record {
      in_bounds = omega arith;
      beyond = λ i h. refl;
      named = λ i h. absurd (h refl);
    };
    clones_ok = record {
      in_bounds = omega arith;
      beyond = λ i h. refl;
      named = λ i h. absurd (h refl);
    };
  };
  accounted = record {
    exact = λ m. sym (
        count_below-eq_zero (eq_ℤ (pos m)) hash_table_size (initialize_balancer debug).hash_table
          (λ i lt. ground arith));
    entries = λ j. inl refl;
  };
  mode = λ h. absurd (h refl);
}

unused-IsLinked : (i : ℕ) → IsLinked (unused_session i)
unused-IsLinked i = record {
  client_fd = refl;
  member_fd = refl;
  clone_fd = refl;
  member_set = λ h. absurd (cc);
  clone_set = λ h. absurd (cc);
}

limit_sessions-members :
    (b : Balancer)
    → ((limit_sessions b).members ≡ b.members) × ((limit_sessions b).clones ≡ b.clones)
unfolding limit_sessions
limit_sessions-members b = (ground arith, ground arith)

pub session_limit-limit_sessions :
    (b : Balancer) → (limit_sessions b).session_limit ≤ℤ supportable_sessions b
unfolding limit_sessions
session_limit-limit_sessions b = ground arith

-- From a balancer whose servers count no connection yet, the start of the sessions, whatever lay in
-- memory before, gives a sound state: every session of the array is unused and linked, the counts of
-- the servers are the numbers of their connections, and there are no more sessions than a third of
-- the descriptors, less four.
pub initialize_sessions-IsSound :
    (overlap : Overlap) (memory : ℕ → Session) (queue : ℕ → ℕ) (b : Balancer)
    → ((m : ℕ) → (b.members m).c ≡ pos 0)
    → ((m : ℕ) → (b.clones m).c ≡ pos 0)
    → IsSound (initialize_sessions overlap memory queue b)
      × ((i : ℕ)
          → i < (initialize_sessions overlap memory queue b).nsessions
          → (initialize_sessions overlap memory queue b).sessions i ≡ unused_session i)
      × ((initialize_sessions overlap memory queue b).process.balancer.session_limit
          ≤ℤ supportable_sessions b)
unfolding initialize_sessions
initialize_sessions-IsSound overlap memory queue b ms cs =
    let same = limit_sessions-members b in
    (
      record {
        linked = λ i lt. rw (lt→ltb i n lt) (unused-IsLinked i);
        members = λ m.
            ap (λ slots. (slots m).c) same.0
            ∙ ms m
            ∙ ap pos (
                sym (
                  sum_below-eq_zero (λ i. member_share (sessions i) m) n
                    (λ j lt. rw (lt→ltb j n lt) refl)));
        clones = λ m.
            ap (λ slots. (slots m).c) same.1
            ∙ cs m
            ∙ ap pos (
                sym (
                  sum_below-eq_zero (λ i. clone_share (sessions i) m) n
                    (λ j lt. rw (lt→ltb j n lt) refl)));
      },
      λ i lt. rw (lt→ltb i n lt) refl,
      session_limit-limit_sessions b,
    )
  where
    n : ℕ
    n = pos_part (limit_sessions b).session_limit

    sessions : ℕ → Session
    sessions i = if ltb i n then unused_session i else memory i
