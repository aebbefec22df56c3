-- ===== src/Start/Launching/Examples.antt =====
-- A start of the process (src/octopus.c) from a sample file.
use octopuslb.Base.{◌++◌, ◌∷◌, some, true, false, pos, [], List, ℕ}
use octopuslb.Text.{codes}
use octopuslb.Config.Examples.{sample_library, sample_file}
use octopuslb.Config.Range.{Kept}
use octopuslb.Start.{unused_session}
use octopuslb.Start.Launching.{Launch, startup}
use octopuslb.Start.Launching.Outcome.{Startable, startup-Startable}
use octopuslb.Session.Buffer.{moved}

-- A log file, a directory for the shared memory, and one server.
abbrev whole_file : List ℕ
whole_file = codes "log_file=/tmp/log" ++ (10 ∷ (codes "shm_run_dir=/tmp" ++ (10 ∷ sample_file)))

abbrev sample_launch : Launch
sample_launch = record {
  file = some whole_file;
  debug_level = pos 0;
  debug_level_override = false;
  foreground = true;
  opens = λ path. true;
  descriptors = some (pos 1024);
  stack_ip = 0;
  stack_name = [];
  overlap = moved;
  session_memory = unused_session;
  queue_memory = λ j. 0;
}

startup-Startable_example : Kept Startable (startup sample_library sample_launch)
startup-Startable_example = startup-Startable sample_library sample_launch
