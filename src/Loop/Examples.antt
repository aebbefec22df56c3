-- ===== src/Loop/Examples.antt =====
-- Runs of the main loop of src/octopus.c on one session.
use octopuslb.Base.{
  ℕ, ◌≡◌, refl, true, false, none, some, [], ◌∷◌, arith, update, ◌==◌, sum_below, inl, inr,
  Bool-cases,
}
use octopuslb.Balancer.Examples.{sample, sample_server}
use octopuslb.Session.{Session, Process, disconnect_count}
use octopuslb.Session.Disconnect.{disconnect_member}
use octopuslb.Session.Disconnect.Accounting.{IsLinked}
use octopuslb.Session.Examples.{
  blank_session, busy_session, sample_process, busy-IsLinked, blank-IsLinked,
}
use octopuslb.Select.Examples.{floats}
use octopuslb.Connect.Examples.{good_member, good_clone}
use octopuslb.Traffic.{eof, write_failed}
use octopuslb.Loop.Recycling.{SuppliesTwice, client_event_twice}
use octopuslb.Loop.{
  client_event, World, Answers, Ready, ready, run, step, dispatch, session_event, member_event,
}
use octopuslb.Loop.Invariant.{IsSound, run-IsSound}

-- The client is gone.
abbrev closing : Answers
closing = record {
  member_dial = good_member;
  clone_dial = good_clone;
  read = eof;
  write = write_failed;
}

abbrev both_ready : Ready
both_ready = record { err = false; hup = false; input = true; output = true }

client_event_twice_example :
    (out : Session × Process) × (client_event floats closing both_ready 0 busy_session
        sample_process
      ≡ some out)
    × SuppliesTwice 8 0 sample_process.queue out.1.queue
client_event_twice_example =
    client_event_twice floats closing both_ready 0 busy_session sample_process refl refl refl refl
      (inl refl) refl (omega arith)

-- Two sessions, of which the first is connected to member 1; no other connection is counted.
abbrev world : World
world = record {
  nsessions = 2;
  sessions = update blank_session 0 busy_session;
  process = record sample_process {
    balancer = record sample {
      members = update (update sample.members 0 (sample_server 0 0)) 1 (sample_server 1 1);
    };
  };
}

world-IsSound : IsSound world
unfolding sum_below
world-IsSound = record {
  linked = λ i below. linked i;
  members = λ m. ground arith;
  clones = λ m. ground arith;
}
  where
    linked : (i : ℕ) → IsLinked (update blank_session 0 busy_session i)
    linked i = elim (Bool-cases (0 == i)) [
      | inl e ↦ rw e busy-IsLinked
      | inr e ↦ rw e (blank-IsLinked i)
    ]

abbrev hung_up : Ready
hung_up = record { err = false; hup = true; input = false; output = false }

-- The member of the first session hangs up.
abbrev after : World
after = record world {
  sessions = update world.sessions 0 (record busy_session {
    state = record (busy_session.state) { mem_connected = false };
    memberfd = none;
  });
  process = record (world.process) {
    balancer = record (world.process.balancer) {
      members = update world.process.balancer.members 1 (disconnect_count (sample_server 1 1));
    };
    epoll = update world.process.epoll 6 none;
  };
}

run_sample : run floats (ready closing hung_up 6 ∷ []) world ≡ some after
unfolding run step dispatch session_event member_event disconnect_member
run_sample = refl

run-IsSound_example : IsSound after
run-IsSound_example =
    run-IsSound floats (ready closing hung_up 6 ∷ []) world after world-IsSound ((refl, refl), tt)
      run_sample
