-- ===== src/Session/Examples.antt =====
-- Sessions, and runs of the queue of unused sessions and of `delete_session` (src/octopus.c,
-- src/init.c).
use octopuslb.Base.{
  ℕ, ◌<◌, ◌≡◌, refl, true, false, none, some, List, [], pos, ◌+ℤ◌, replicate, update,
}
use octopuslb.Balancer.Examples.{sample}
use octopuslb.Select.{Selection}
use octopuslb.Session.{
  Session, Process, UnusedSessionQueue, state_unused, is_unused, message_size_limit,
}
use octopuslb.Session.Queue.{
  null_session, supplied, get_new_session, add_unused_session, initialize_unused_session,
  get_new_session-initialize_unused_session,
}
use octopuslb.Session.Disconnect.{delete_session}
use octopuslb.Session.Disconnect.Accounting.{IsLinked, member_share, clone_share}
use octopuslb.Session.Disconnect.Deleted.{Blank, delete_session_lem}
use octopuslb.Session.Buffer.{moved}

abbrev pub empty_buffer : List ℕ
empty_buffer = replicate message_size_limit 0

abbrev pub blank_session : ℕ → Session
blank_session i = record {
  id = i;
  state = state_unused;
  clientfd = none;
  memberfd = none;
  clonefd = none;
  member_read_buffer = empty_buffer;
  client_read_buffer = empty_buffer;
  clone_write_buffer = empty_buffer;
  member_used_buffer = 0;
  client_used_buffer = 0;
  clone_used_buffer = 0;
  member = none;
  clone = none;
}

-- A client on descriptor 5 that is connected to member 1 on descriptor 6.
abbrev pub busy_session : Session
busy_session = record (blank_session 0) {
  state = record state_unused {
    cli_connected = true;
    mem_connected = true;
    cli_read_ready = true;
    mem_read_ready = true;
  };
  clientfd = some 5;
  memberfd = some 6;
  member = some 1;
}

abbrev pub sample_queue : ℕ → UnusedSessionQueue
sample_queue start = record { unused_sessions = λ j. j; head = start; rear = 3 }

abbrev pub sample_selection : Selection
sample_selection = record {
  next_member = 0;
  next_clone = 0;
  available_members = [];
  available_clones = [];
  use_clone = true;
  using_member_standby = false;
  using_clone_standby = false;
}

abbrev pub sample_process : Process
sample_process = record {
  balancer = sample;
  selection = sample_selection;
  queue = sample_queue 2;
  fds = λ fd. some 0;
  epoll = λ fd. none;
  overlap = moved;
}

pub busy-IsLinked : IsLinked busy_session
busy-IsLinked = record {
  client_fd = refl;
  member_fd = refl;
  clone_fd = refl;
  member_set = λ h. refl;
  clone_set = λ h. absurd (cc);
}

pub blank-IsLinked : (i : ℕ) → IsLinked (blank_session i)
blank-IsLinked i = record {
  client_fd = refl;
  member_fd = refl;
  clone_fd = refl;
  member_set = λ h. absurd (cc);
  clone_set = λ h. absurd (cc);
}

delete_session_lem_example :
    Blank (delete_session 0 busy_session sample_process).0
    × ((m : ℕ)
        → ((delete_session 0 busy_session sample_process).1.balancer.members m).c
            +ℤ pos (member_share busy_session m)
          ≡ (sample.members m).c +ℤ pos 0)
    × ((m : ℕ)
        → ((delete_session 0 busy_session sample_process).1.balancer.clones m).c
            +ℤ pos (clone_share busy_session m)
          ≡ (sample.clones m).c +ℤ pos 0)
    × ((delete_session 0 busy_session sample_process).1.queue.unused_sessions
          (delete_session 0 busy_session sample_process).1.queue.rear
        ≡ 0)
delete_session_lem_example = delete_session_lem 0 busy_session sample_process busy-IsLinked

blank_unused : (i : ℕ) → i < 3 → is_unused (blank_session i).state ≡ true
unfolding is_unused
blank_unused i h = refl

get_new_session-initialize_unused_session_example :
    ((j : ℕ) → j < 3 → (initialize_unused_session 3 blank_session (λ j. 9)).unused_sessions j ≡ j)
    × (get_new_session (initialize_unused_session 3 blank_session (λ j. 9)) ≡ null_session)
get_new_session-initialize_unused_session_example =
    get_new_session-initialize_unused_session 3 blank_session (λ j. 9) blank_unused

abbrev second_queue : UnusedSessionQueue
second_queue = record { unused_sessions = update (λ j. j) 4 5; head = 0; rear = 4 }

first_supplied : get_new_session (sample_queue 2) ≡ supplied 1 (sample_queue 1)
unfolding get_new_session
first_supplied = refl

second_supplied :
    get_new_session (add_unused_session 8 5 (sample_queue 1)) ≡ supplied 0 second_queue
unfolding get_new_session add_unused_session
second_supplied = refl
