-- ===== src/Start.antt =====
-- The start of the process in src/init.c: `initialize_balancer`, `initialize_fds` and
-- `initialize_sessions`.
pub mod Examples
pub mod Outcome
pub mod Launching
use octopuslb.Base.{
  ℕ, Bool, true, false, Option, none, some, List, ltb, if◌then◌else◌, ◌==◌, ℤ, pos, negsuc,
  pos_part, ltb_ℤ, eq_ℤ, ◌-ℤ◌, div_ℤ, replicate, [],
}
use octopuslb.Balancer.{
  Server, Balancer, Settings, lc, off, relaxed, snmp_disabled, hash_val_free, zeroed,
}
use octopuslb.Select.{Selection}
use octopuslb.Session.{
  Overlap, Session, Process, UnusedSessionQueue, Interest, state_unused, message_size_limit,
}
use octopuslb.Session.Queue.{initialize_unused_session}
use octopuslb.Loop.{World}

-- The bits of 0.1 and of 4.0.
abbrev pub default_session_weight : ℕ
default_session_weight = 0x3dcc_cccd

abbrev pub default_maxl : ℕ
default_maxl = 0x4080_0000

-- As built with SNMP. The debug level is that of the command line.
unfoldable pub initialize_balancer : ℤ → Balancer
initialize_balancer debug = record {
  hash_table = λ j. hash_val_free;
  nmembers = 0;
  nclones = 0;
  members = λ i. zeroed;
  clones = λ i. zeroed;
  algorithm = lc;
  clone_mode = off;
  overload_mode = relaxed;
  snmp_status = snmp_disabled;
  overall_load = negsuc 0;
  settings = record {
    monitor_interval = 5;
    session_weight = default_session_weight;
    hash_rebalance_threshold = pos 30;
    hash_rebalance_size = pos 5;
    hash_rebalance_interval = pos 30;
    default_maxc = pos 500;
    default_maxl = default_maxl;
    fd_limit = pos 0;
    session_limit = pos 0;
    debug_level = debug;
  };
}

-- The limit that `getrlimit` answers, or 0 when it fails.
unfoldable pub initialize_fds : Option ℤ → Balancer → Balancer
initialize_fds none b = record b { settings = record (b.settings) { fd_limit = pos 0 } }
initialize_fds (some limit) b = record b { settings = record (b.settings) { fd_limit = limit } }

-- Three descriptors for a session, and four for the process.
abbrev pub supportable_sessions : Balancer → ℤ
supportable_sessions b = div_ℤ (b.fd_limit -ℤ pos 4) 3

-- 0 asks for as many sessions as can be supported.
unfoldable pub limit_sessions : Balancer → Balancer
limit_sessions b =
    if eq_ℤ b.session_limit (pos 0)
    then record b { settings = record (b.settings) { session_limit = supportable_sessions b } }
    else if ltb_ℤ (supportable_sessions b) b.session_limit
    then record b { settings = record (b.settings) { session_limit = supportable_sessions b } }
    else b

abbrev pub unused_session : ℕ → Session
unused_session i = record {
  id = i;
  state = state_unused;
  clientfd = none;
  memberfd = none;
  clonefd = none;
  member_read_buffer = replicate message_size_limit 0;
  client_read_buffer = replicate message_size_limit 0;
  clone_write_buffer = replicate message_size_limit 0;
  member_used_buffer = 0;
  client_used_buffer = 0;
  clone_used_buffer = 0;
  member = none;
  clone = none;
}

-- The globals `next_member` and so on as they start.
abbrev pub first_selection : Selection
first_selection = record {
  next_member = 0;
  next_clone = 0;
  available_members = [];
  available_clones = [];
  use_clone = false;
  using_member_standby = false;
  using_clone_standby = false;
}

-- `overlap` is the C library's; `memory` and `queue` are what lies in memory outside the arrays; with no descriptor watched yet.
-- (When `malloc` fails the process exits.)
unfoldable pub initialize_sessions : Overlap → (ℕ → Session) → (ℕ → ℕ) → Balancer → World
initialize_sessions overlap memory queue b =
    let b' = limit_sessions b in
    let n = pos_part b'.session_limit in
    let sessions : ℕ → Session = λ i. if ltb i n then unused_session i else memory i in
    record {
      nsessions = n;
      sessions = sessions;
      process = record {
        balancer = b';
        selection = first_selection;
        queue = initialize_unused_session n sessions queue;
        fds = λ fd. none;
        epoll = λ fd. none;
        overlap = overlap;
      };
    }
