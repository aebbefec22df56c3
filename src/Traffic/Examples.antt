-- ===== src/Traffic/Examples.antt =====
-- Runs of the six handlers of src/octopus.c on the sample session.
use octopuslb.Base.{
  ℕ, ◌≤◌, ◌<◌, ◌≡◌, ◌⊎◌, refl, true, false, none, some, [], ◌∷◌, ◌++◌, arith, drop,
  length-replicate,
}
use octopuslb.Session.{Session, Process, message_size_limit}
use octopuslb.Session.Disconnect.{disconnect_member, delete_session}
use octopuslb.Session.Examples.{busy_session, sample_process, busy-IsLinked}
use octopuslb.Select.Examples.{floats}
use octopuslb.Connect.Examples.{good_member, good_clone}
use octopuslb.Traffic.{eof, got, wrote}
use octopuslb.Traffic.Buffered.{Fits, IsBuffered, for_member, for_client, for_clone}
use octopuslb.Traffic.Client.{client_read, client_write}
use octopuslb.Traffic.Client.Flow.{Arrived, Sent, client_read_lem, client_write_lem}
use octopuslb.Traffic.Member.{member_read, member_write}
use octopuslb.Traffic.Member.Flow.{member_read_lem, member_write_lem, member_write_reopens}

-- Ten bytes wait for the client, for the member and for the clone.
abbrev waiting_session : Session
waiting_session = record busy_session {
  member_used_buffer = 10;
  client_used_buffer = 10;
  clone_used_buffer = 10;
}

some_fit : (used : ℕ) → used ≤ message_size_limit → Fits busy_session.client_read_buffer used
some_fit used le = record { size = length-replicate {A = ℕ} message_size_limit 0; within = le }

waiting-IsBuffered : IsBuffered waiting_session
waiting-IsBuffered = record {
  client = some_fit 10 (omega arith);
  member = some_fit 10 (omega arith);
  clone = some_fit 10 (omega arith);
}

busy-IsBuffered : IsBuffered busy_session
busy-IsBuffered = record {
  client = some_fit 0 (omega arith);
  member = some_fit 0 (omega arith);
  clone = some_fit 0 (omega arith);
}

client_read_lem_example :
    (r : Session × Process) × (client_read floats good_member good_clone 0
        (got (71 ∷ 69 ∷ []))
        busy_session
        sample_process
      ≡ some r)
    × Arrived (71 ∷ 69 ∷ []) busy_session r.0
client_read_lem_example =
    client_read_lem floats good_member good_clone 0 (71 ∷ 69 ∷ []) busy_session sample_process
      busy-IsLinked busy-IsBuffered refl (omega arith, omega arith)

client_write_lem_example :
    ((4 < 10) ⊎ (true ≡ true)
      → Sent 4 waiting_session (client_write 0 (wrote 4) waiting_session sample_process).0)
    × (4 ≡ waiting_session.member_used_buffer
        → true ≡ false
        → (s' : Session) × (client_write 0 (wrote 4) waiting_session sample_process
            ≡ delete_session 0 s' sample_process)
          × (s'.clientfd ≡ some 5)
          × (s'.memberfd ≡ some 6)
          × (s'.clonefd ≡ none))
client_write_lem_example =
    client_write_lem 0 4 waiting_session sample_process waiting-IsBuffered
      (omega arith, λ h. omega arith) (λ far. refl)

member_read_lem_example :
    let s' = (member_read 0 (got (72 ∷ [])) waiting_session sample_process).0 in
    IsBuffered s'
    × (for_client s' ≡ for_client waiting_session ++ (72 ∷ []))
    × (for_member s' ≡ for_member waiting_session)
    × (for_clone s' ≡ for_clone waiting_session)
    × (s'.state.cli_write_ready ≡ true)
    × (s'.member_used_buffer ≡ message_size_limit → s'.state.mem_read_ready ≡ false)
member_read_lem_example =
    member_read_lem 0 (72 ∷ []) waiting_session sample_process waiting-IsBuffered
      (omega arith, omega arith)

member_write_lem_example :
    let s' = (member_write (wrote 4) waiting_session sample_process).0 in
    IsBuffered s'
    × (for_member s' ≡ drop 4 (for_member waiting_session))
    × (for_client s' ≡ for_client waiting_session)
    × (for_clone s' ≡ for_clone waiting_session)
    × (s'.client_used_buffer ≡ 0 → s'.state.mem_write_ready ≡ false)
    × (waiting_session.state.cli_buff_full ≡ true → s'.state.cli_read_ready ≡ true)
member_write_lem_example =
    member_write_lem 4 waiting_session sample_process waiting-IsBuffered
      (omega arith, λ h. omega arith) (λ far. refl)

-- The buffer for the client is full.
abbrev full_session : Session
full_session = record busy_session {
  member_used_buffer = message_size_limit;
  state = record (busy_session.state) {
    cli_write_ready = true;
    mem_buff_full = true;
    mem_read_ready = false;
  };
}

member_write_reopens_example :
    let (s', p') = member_write (wrote 0) full_session sample_process in
    (s'.state.mem_read_ready ≡ true) × (member_read 0 eof s' p' ≡ disconnect_member s' p')
member_write_reopens_example = member_write_reopens 0 0 full_session sample_process eof refl refl tt
