-- ===== src/Log.antt =====
-- `write_log` of src/logging.c for messages that do not end the process. The child Log/Exit has the
-- others, with src/signals.c.
pub mod Exit
pub mod Quiet
pub mod Fatal
pub mod Examples
use octopuslb.Base.{
  ℕ, Bool, true, false, not, ◌&&◌, Option, none, some, List, [], ◌∷◌, ◌++◌, if◌then◌else◌, ℤ,
}

-- FOREGROUND_OFF, FOREGROUND_ON, FOREGROUND_INIT.
pub data Foreground : Type 0 where
  in_background in_foreground starting : Foreground

abbrev pub is_foreground : Foreground → Bool
is_foreground in_foreground = true
is_foreground _ = false

-- The fields of BALANCER that logging and the end of a process use: `suppress` holds if
-- `connection_rejected_log_suppress` is SUPPRESS_CONN_REJECT, `syslog` if `use_syslog` is 1, `log_file`
-- if it is not NULL, `shm` if `shmid` is not -1, and `debug` if `debug_level` is above 0.
pub record Journal : Type 0 where
  pub suppress : Bool
  pub foreground : Foreground
  pub syslog : Bool
  pub log_file : Bool
  pub monitor_pid : ℤ
  pub master_pid : ℤ
  pub alive : Bool
  pub shm : Bool
  pub debug : Bool

-- What a process does, in order: lines written, SIGTERM sent to a process, a wait for a process,
-- and the calls at the end of the process.
pub data Deed : Type 0 where
  to_stderr to_syslog to_file : List ℕ → Deed
  terminates waits_for : ℤ → Deed
  unlinks removes_segment detaches closes_log : Deed

abbrev pub only_if : Bool → Deed → List Deed
only_if true d = d ∷ []
only_if false d = []

-- The lines of a message that is not fatal; `loud` is OCTOPUS_LOG_SYSLOG.
unfoldable pub std_lines : (loud : Bool) → List ℕ → Option Journal → List Deed
std_lines loud text none = to_stderr text ∷ []
std_lines loud text (some j) =
    only_if (loud && j.syslog) (to_syslog text)
    ++ (if not j.log_file
        then to_stderr text ∷ []
        else if is_foreground j.foreground
        then to_stderr text ∷ []
        else to_file text ∷ [])

-- `reject` is SUPPRESS_CONN_REJECT.
pub record Message : Type 0 where
  pub loud : Bool
  pub reject : Bool
  pub text : List ℕ

unfoldable pub write_std : Message → Journal → List Deed × Journal
write_std m j = if m.reject && j.suppress then ([], j) else (
  std_lines m.loud m.text (some j),
  record j { suppress = if m.reject then true else j.suppress },
)

-- The messages of the server, and the rounds of the monitor, each of which sets the flag to
-- SUPPRESS_OFF.
pub data Entry : Type 0 where
  message : Message → Entry
  monitor_round : Entry

unfoldable pub write_entries : List Entry → Journal → List Deed × Journal
write_entries [] j = ([], j)
write_entries (message m ∷ es) j =
    let first = write_std m j in let rest = write_entries es first.1 in (first.0 ++ rest.0, rest.1)
write_entries (monitor_round ∷ es) j = write_entries es (record j { suppress = false })
