-- ===== src/Log/Exit.antt =====
-- The end of a process: `clean_exit` and `signal_handler` of src/signals.c, and the fatal messages of
-- `write_log` (src/logging.c).
use octopuslb.Base.{
  ℕ, Bool, true, false, ◌&&◌, Option, none, some, List, [], ◌∷◌, ◌++◌, if◌then◌else◌, ℤ, pos,
  negsuc, eq_ℤ, ltb_ℤ,
}
use octopuslb.Text.{codes}
use octopuslb.Log.{
  Foreground, in_background, Journal, Deed, to_stderr, to_syslog, to_file, terminates, waits_for,
  unlinks, removes_segment, detaches, closes_log, only_if, Message, write_std,
}

-- The process goes on, or it exits with a status, or it closes a log file that is NULL.
pub data Written : Type 0 where
  goes_on : List Deed → Journal → Written
  stops : List Deed → ℤ → Journal → Written
  crash : Written

abbrev pub prefixed : List Deed → Written → Written
prefixed deeds (goes_on more j) = goes_on (deeds ++ more) j
prefixed deeds (stops more status j) = stops (deeds ++ more) status j
prefixed deeds crash = crash

abbrev pub and_then : Written → (Journal → Written) → Written
and_then (goes_on deeds j) k = prefixed deeds (k j)
and_then (stops deeds status j) k = stops deeds status j
and_then crash k = crash

-- The messages for the calls that may fail, `none` if the call succeeds: `waitpid` (but for ECHILD),
-- `unlink`, `malloc`, `shmctl` and `shmdt`.
pub record Failures : Type 0 where
  pub wait : Option (List ℕ)
  pub unlink : Option (List ℕ)
  pub memory : Option (List ℕ)
  pub segment : Option (List ℕ)
  pub detach : Option (List ℕ)

-- A message with SUPPRESS_OFF.
abbrev pub note : Bool → List ℕ → Journal → List Deed
note loud text j = (write_std (record { loud = loud; reject = false; text = text }) j).0

abbrev pub note_error : Option (List ℕ) → Journal → List Deed
note_error none j = []
note_error (some text) j = note false text j

abbrev pub note_debug : List ℕ → Journal → List Deed
note_debug text j = if j.debug then note false text j else []

-- With the segment marked for deletion; `fclose` of NULL crashes.
unfoldable pub close_master : Journal → Written
close_master j =
    if j.log_file
    then goes_on
        (note_debug (codes "NOTICE: signal_handler: master: marked SHM segment for deletion") j
          ++ closes_log ∷ [])
        j
    else crash

unfoldable pub mark_segment : Failures → Journal → Written
mark_segment f j = elim f.memory [
  | some text ↦ stops (note false text j) (negsuc 0) j
  | none ↦ elim f.segment [
    | some text ↦ stops (removes_segment ∷ note false text j) (negsuc 0) j
    | none ↦ prefixed (removes_segment ∷ []) (close_master j)
  ]
]

abbrev pub unlink_file : Failures → Journal → List Deed
unlink_file f j =
    unlinks ∷ note_error f.unlink j
    ++ note_debug (codes "NOTICE: signal_handler: master: marking SHM segment for deletion") j

unfoldable pub remove_shm : Failures → Journal → Written
remove_shm f j =
    if j.shm
    then prefixed (unlink_file f j) (mark_segment f j)
    else goes_on
        (note false
          (codes
            "NOTICE: signal_handler: master: termination signal received, no SHM segment detected so not detaching")
          j)
        j

-- What the master does until the monitor has ended.
abbrev pub wait_for_monitor : Failures → Journal → List Deed
wait_for_monitor f j =
    note true (codes "NOTICE: signal_handler: master: received signal SIGTERM. Shutting down...") j
    ++ waits_for (negsuc 0) ∷ note_error f.wait j
    ++ note false (codes "NOTICE: signal_handler: master: killed monitoring process") j

-- The part of the master.
unfoldable pub exit_master : Failures → Journal → Written
exit_master f j = prefixed (wait_for_monitor f j) (remove_shm f (record j { alive = false }))

unfoldable pub exit_monitor : Failures → Journal → List Deed
exit_monitor f j =
    if j.shm
    then note_debug
        (codes "NOTICE: signal_handler: monitor: received signal SIGTERM. Shutting down...") j
      ++ detaches ∷ note_error f.detach j
    else note false
        (codes
          "NOTICE: signal_handler: monitor: termination signal received, no SHM segment detected so not detaching")
        j

-- `own` is what `getpid` gives.
unfoldable pub clean_exit : ℤ → Failures → Journal → Written
clean_exit own f j =
    and_then (if eq_ℤ own j.master_pid then exit_master f j else goes_on [] j)
      (λ j'. stops (if eq_ℤ own j'.monitor_pid then exit_monitor f j' else []) (pos 0) j')

-- The signals that the handler is installed for; the last are SIGCHLD, SIGUSR1 and SIGALRM.
pub data Signal : Type 0 where
  sigterm sigint sigsegv ignored : Signal

unfoldable pub signal_handler : ℤ → Failures → Signal → Journal → Written
signal_handler own f sigterm j = clean_exit own f j
signal_handler own f sigint j = clean_exit own f j
signal_handler own f sigsegv j =
    prefixed (note true (codes "ERROR! Received signal SIGSEGV!!") j) (clean_exit own f j)
signal_handler own f ignored j = goes_on [] j

-- `kill(pid, SIGTERM)` if the number is above 0. A process that sends it to itself handles it before
-- `kill` returns.
unfoldable pub send_term : ℤ → Failures → ℤ → Journal → Written
send_term own f pid j =
    if ltb_ℤ (pos 0) pid
    then prefixed (terminates pid ∷ [])
        (if eq_ℤ own pid then signal_handler own f sigterm j else goes_on [] j)
    else goes_on [] j

abbrev pub is_noticed : Foreground → Bool
is_noticed in_background = false
is_noticed _ = true

unfoldable pub fatal_lines : List ℕ → Journal → List Deed
fatal_lines text j =
    only_if (is_noticed j.foreground) (to_stderr text)
    ++ only_if j.syslog (to_syslog text)
    ++ only_if j.log_file (to_file text)

-- `write_log` with OCTOPUS_LOG_EXIT and SUPPRESS_OFF, once there is a balancer.
unfoldable pub write_fatal : ℤ → Failures → List ℕ → Journal → Written
write_fatal own f text j = prefixed (fatal_lines text j) (
    and_then (send_term own f j.monitor_pid j) (λ j'.
      and_then (prefixed (waits_for j'.monitor_pid ∷ []) (send_term own f j'.master_pid j'))
        (λ j''. stops (waits_for j''.master_pid ∷ []) (negsuc 0) j'')))

-- `write_log`, once there is a balancer; `fatal` is OCTOPUS_LOG_EXIT.
unfoldable pub write_log : ℤ → Failures → (fatal : Bool) → Message → Journal → Written
write_log own f fatal m j =
    if m.reject && j.suppress
    then goes_on [] j
    else if fatal
    then write_fatal own f m.text (record j { suppress = if m.reject then true else j.suppress })
    else goes_on (write_std m j).0 (write_std m j).1
