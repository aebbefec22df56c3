-- ===== src/Start/Launching.antt =====
-- The start of the process in the order of `main` (src/octopus.c): the defaults, the two passes over
-- the configuration file, the descriptors and the sessions.
pub mod Outcome
pub mod Examples
use octopuslb.Base.{ℕ, Bool, true, false, Option, none, some, List, ℤ, pos, is_empty, if◌then◌else◌}
use octopuslb.Balancer.{Balancer}
use octopuslb.Session.{Overlap, Session}
use octopuslb.Loop.{World}
use octopuslb.Config.{Options, Config, Library, Reading, reads, exits, fault, after}
use octopuslb.Config.File.{Logging, initialize_logging, parse_config_file}
use octopuslb.Start.{initialize_balancer, initialize_fds, initialize_sessions}

-- The other fields as `initialize_balancer` sets them.
abbrev pub initial_options : Options
initial_options = record {
  snmp_community_pw = none;
  shm_run_dir = none;
  shm_perms = pos 420;
  connect_timeout = pos 5;
  use_syslog = pos 0;
  binding_port = pos 1080;
  binding_ip = 0;
  member_outbound_ip = 0;
  clone_outbound_ip = 0;
  use_member_outbound_ip = false;
  use_clone_outbound_ip = false;
}

-- What the process starts from: the command line (the configuration file, `none` if it cannot be
-- opened; the debug level, and whether it was given; the foreground), what the system answers, and
-- what lies on the stack and in the memory of the sessions.
pub record Launch : Type 0 where
  pub file : Option (List ℕ)
  pub debug_level : ℤ
  pub debug_level_override : Bool
  pub foreground : Bool
  pub opens : List ℕ → Bool
  pub descriptors : Option ℤ
  pub stack_ip : ℕ
  pub stack_name : List ℕ
  pub overlap : Overlap
  pub session_memory : ℕ → Session
  pub queue_memory : ℕ → ℕ

abbrev pub first_logging : Launch → Logging
first_logging l = record {
  log_file_path = none;
  debug_level = l.debug_level;
  errno = false;
  foreground = l.foreground;
  debug_level_override = l.debug_level_override;
}

-- `initialize_shm` ends the process if no `shm_run_dir` was given.
pub serve : Launch → Config → Reading World
serve l c = elim c.options.shm_run_dir [
  | none ↦ exits
  | some dir ↦ reads (
      initialize_sessions l.overlap l.session_memory l.queue_memory
        (initialize_fds l.descriptors c.balancer))
]

pub startup : Library → Launch → Reading World
unfolding serve
startup lib l = after (initialize_logging lib.memory l.opens l.file (first_logging l)) (λ logging.
    after
      (parse_config_file lib l.file l.stack_ip l.stack_name initial_options
        (initialize_balancer logging.debug_level))
      (serve l))
