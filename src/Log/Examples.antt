-- ===== src/Log/Examples.antt =====
-- Messages of src/logging.c and the end of the master (src/signals.c).
use octopuslb.Base.{◌≡◌, ◌≤◌, ◌+◌, refl, true, false, none, List, [], ◌∷◌, pos}
use octopuslb.Text.{codes}
use octopuslb.Log.{
  Journal, in_background, Deed, to_file, terminates, write_std, Entry, message, monitor_round,
  write_entries, std_lines,
}
use octopuslb.Log.Exit.{
  Failures, stops, write_fatal, send_term, signal_handler, clean_exit, exit_monitor, fatal_lines,
}
use octopuslb.Log.Quiet.{audible, lines_of, rejections, round_count, write_entries_lem}
use octopuslb.Log.Fatal.{Ends, front_of, write_fatal-Ends}

-- A daemon whose master is process 100 and whose monitor is process 101.
abbrev daemon : Journal
daemon = record {
  suppress = false;
  foreground = in_background;
  syslog = false;
  log_file = true;
  monitor_pid = pos 101;
  master_pid = pos 100;
  alive = true;
  shm = true;
  debug = false;
}

abbrev no_failures : Failures
no_failures = record { wait = none; unlink = none; memory = none; segment = none; detach = none }

abbrev rejected : Entry
rejected = message (record { loud = false; reject = true; text = codes "no server" })

abbrev busy : List Entry
busy = rejected ∷ rejected ∷ monitor_round ∷ rejected ∷ rejected ∷ []

write_entries_lem_example :
    ((write_entries busy daemon).0 ≡ lines_of (audible false busy) daemon)
    × (rejections (audible false busy) ≤ 1 + round_count busy)
write_entries_lem_example = write_entries_lem busy daemon

two_lines :
    (write_entries busy daemon).0 ≡ to_file (codes "no server") ∷ to_file (codes "no server") ∷ []
unfolding write_entries write_std std_lines
two_lines = refl

write_fatal-Ends_example :
    Ends
      (front_of (codes "bad") daemon)
      false
      daemon
      (write_fatal (pos 100) no_failures (codes "bad") daemon)
write_fatal-Ends_example = write_fatal-Ends (pos 100) no_failures (codes "bad") daemon refl

-- The monitor ends itself before the signal to the master.
monitor_alone :
    write_fatal (pos 101) no_failures (codes "bad") daemon
    ≡ stops (to_file (codes "bad") ∷ terminates (pos 101) ∷ Deed.detaches ∷ []) (pos 0) daemon
unfolding write_fatal send_term signal_handler clean_exit exit_monitor fatal_lines
monitor_alone = refl
