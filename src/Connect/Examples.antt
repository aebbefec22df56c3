-- ===== src/Connect/Examples.antt =====
-- Runs of `connect_server` (src/connect.c) on the sample sessions.
use octopuslb.Base.{refl, true, some}
use octopuslb.Session.{Session}
use octopuslb.Session.Examples.{blank_session, sample_process, blank-IsLinked}
use octopuslb.Connect.{MemberDial, CloneDial, connect_server}
use octopuslb.Connect.Outcome.{Served, connect_server_lem}

-- All calls succeed, on descriptors 6 and 7.
abbrev pub good_member : MemberDial
good_member = record {
  socket = some 6;
  nonblock = true;
  bind = true;
  connect = true;
  watched = true;
}

abbrev pub good_clone : CloneDial
good_clone = record {
  socket = some 7;
  nonblock = true;
  options = true;
  bind = true;
  connect = true;
  watched = true;
}

connect_server_lem_example :
    Served
      (blank_session 0)
      sample_process
      (connect_server good_member good_clone 0 (blank_session 0) sample_process)
connect_server_lem_example =
    connect_server_lem good_member good_clone 0 (blank_session 0) sample_process (blank-IsLinked 0)
      refl refl

-- What a failed EPOLL_CTL_ADD leaves.
abbrev stuck_session : Session
stuck_session = record (blank_session 0) { memberfd = some 6; member = some 1 }
