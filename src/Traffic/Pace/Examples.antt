-- ===== src/Traffic/Pace/Examples.antt =====
-- Runs of the handlers of src/octopus.c on a session whose client is read.
use octopuslb.Base.{◌≡◌, refl, some, [], ◌∷◌, arith, update}
use octopuslb.Select.Examples.{floats}
use octopuslb.Session.{Session, Process, ro_ev}
use octopuslb.Session.Examples.{busy_session, sample_process}
use octopuslb.Connect.Examples.{good_member, good_clone}
use octopuslb.Traffic.{got}
use octopuslb.Traffic.Client.{client_read}
use octopuslb.Traffic.Pace.Client.{client_read-Watched}
use octopuslb.Traffic.Pace.{Paced, Watched}

abbrev watched_process : Process
watched_process = record sample_process { epoll = update sample_process.epoll 5 (some ro_ev) }

busy-Paced : Paced busy_session
busy-Paced = record { full = refl; reading = refl; within = omega arith }

busy-Watched : Watched 5 busy_session watched_process
busy-Watched = record {
  mine = refl;
  not_member = λ h. ground arith;
  not_clone = λ h. cc;
  interest = refl;
}

client_read-Watched_example :
    (r : Session × Process) × (client_read floats good_member good_clone 0
        (got (71 ∷ []))
        busy_session
        watched_process
      ≡ some r)
    × Paced r.0
    × Watched 5 r.0 r.1
client_read-Watched_example =
    client_read-Watched floats good_member good_clone 5 0 (71 ∷ []) busy_session watched_process
      busy-Paced busy-Watched refl (omega arith, omega arith)
