-- ===== src/Admin/Prompt.antt =====
-- `command_prompt` of src/admin.c: a line of input, its words, and the command they name.
pub mod Ended
pub mod ReadOnly
pub mod Kept
pub mod Session
pub mod Line
pub mod Number
pub mod Examples
use octopuslb.Base.{
  ℕ, zero, suc, Bool, true, false, not, Option, none, some, List, [], ◌∷◌, ◌==◌, leb, if◌then◌else◌,
  ℤ, pos, length,
}
use octopuslb.Text.{strtol, strtok, starts_with, codes}
use octopuslb.Config.{Library, read_int}
use octopuslb.Admin.{
  Answer, starts, letter_a, cmd_standby, cmd_delete, cmd_maxl, cmd_maxc, cmd_enable, cmd_disable,
  cmd_reset, Admin,
}
use octopuslb.Admin.Console.{
  Errno, clear, erange, Console, Round, next, quit, scans, kills, crash, with_admin, accept,
  writable, answer,
}
use octopuslb.Admin.Settings.{
  errno_of, cmd_hri, cmd_hrs, cmd_hrt, cmd_monitor, cmd_debug, cmd_algorithm, cmd_clone_mode,
  cmd_overload_mode, cmd_snmp, cmd_create,
}

-- The number of a server; `errno` is 0 before the call, so that only ERANGE can refuse it.
abbrev pub read_id : List ℕ → Option ℤ
read_id id = let n = strtol 10 id in if n.erange then none else some n.value

-- `errno` after `set_subject`, which clears it first.
abbrev pub subject_errno : List ℕ → Console → Errno
subject_errno id c =
    if c.readonly
    then clear
    else if starts letter_a id
    then clear
    else errno_of (strtol 10 id) clear

-- A command on servers, with `errno` at its end.
abbrev pub on_servers :
    ((List ℕ → Option ℤ) → (type id : List ℕ) → Admin → Answer)
    → (Errno → Errno)
    → (type id : List ℕ) → Console
    → Round
on_servers f last type id c =
    let e = subject_errno id c in answer e (last e) (f read_id type id c.admin) c

abbrev pub unchanged : Errno → Errno
unchanged e = e

-- What a command does with the words after its name.
abbrev pub Command : Type 0
Command = List (List ℕ) → Console → Round

-- One argument, or else the command is not run.
abbrev pub with_value : (List ℕ → Console → Round) → Command
with_value f (value ∷ []) c = f value c
with_value f _ c = next c

-- The type may be left out; MEMBER_ARG is "m".
abbrev pub with_server : ((type id : List ℕ) → Console → Round) → Command
with_server f (id ∷ []) c = f (codes "m") id c
with_server f (type ∷ id ∷ []) c = f type id c
with_server f _ c = next c

abbrev pub with_server_value : ((type id value : List ℕ) → Console → Round) → Command
with_server_value f (id ∷ value ∷ []) c = f (codes "m") id value c
with_server_value f (type ∷ id ∷ value ∷ []) c = f type id value c
with_server_value f _ c = next c

abbrev pub with_address : ((type name ip port : List ℕ) → Console → Round) → Command
with_address f (name ∷ ip ∷ port ∷ []) c = f (codes "m") name ip port c
with_address f (type ∷ name ∷ ip ∷ port ∷ []) c = f type name ip port c
with_address f _ c = next c

abbrev pub run_maxl : Library → (type id value : List ℕ) → Console → Round
run_maxl lib type id value =
    let r = lib.atof value in
    on_servers (λ read t i a. cmd_maxl read t i a r.0) (λ e. if r.1 then erange else e) type id

abbrev pub run_maxc : (type id value : List ℕ) → Console → Round
run_maxc type id value =
    on_servers (λ read t i a. cmd_maxc read t i a (read_int 10 value)) (errno_of (strtol 10 value))
      type id

abbrev pub cmd_kill : Command
cmd_kill _ c = writable c (kills c)

-- It only prints, and returns 0.
abbrev pub cmd_print : Command
cmd_print _ c = accept c

abbrev pub cmd_quit : Command
cmd_quit _ c = quit (pos 0) c

abbrev pub toggle_extended : Command
toggle_extended _ c = next (record c { extended = not c.extended })

abbrev pub cmd_scan : Command
cmd_scan _ c = scans (with_admin (λ a. record a { readonly = false }) c)

-- The tests of the first word, in the order of the code.
unfoldable pub commands : Library → List (List ℕ × Command)
commands lib =
    (codes "scan", cmd_scan)
    ∷ (codes "standby", with_server (on_servers cmd_standby unchanged))
    ∷ (codes "snmp", cmd_snmp)
    ∷ (codes "clone", with_value cmd_clone_mode)
    ∷ (codes "s", cmd_print)
    ∷ (codes "?", cmd_print)
    ∷ (codes "exit", cmd_quit)
    ∷ (codes "q", cmd_quit)
    ∷ (codes "x", toggle_extended)
    ∷ (codes "ex", cmd_print)
    ∷ (codes "delete", with_server (on_servers cmd_delete unchanged))
    ∷ (codes "monitor", with_value cmd_monitor)
    ∷ (codes "debug", with_value cmd_debug)
    ∷ (codes "hrt", with_value cmd_hrt)
    ∷ (codes "hrs", with_value cmd_hrs)
    ∷ (codes "hri", with_value cmd_hri)
    ∷ (codes "i", cmd_print)
    ∷ (codes "a", with_value cmd_algorithm)
    ∷ (codes "kill", cmd_kill)
    ∷ (codes "c", with_address (cmd_create lib))
    ∷ (codes "maxl", with_server_value (run_maxl lib))
    ∷ (codes "maxc", with_server_value run_maxc)
    ∷ (codes "r", with_server (on_servers cmd_reset unchanged))
    ∷ (codes "e", with_server (on_servers cmd_enable unchanged))
    ∷ (codes "d", with_server (on_servers cmd_disable unchanged))
    ∷ (codes "o", with_value cmd_overload_mode)
    ∷ []

-- The first test that holds decides; a word that fails them all is passed over.
unfoldable pub run_command : List (List ℕ × Command) → List ℕ → Command
run_command [] word args c = next c
run_command ((key, run) ∷ more) word args c =
    let rest = run_command more word args c in if starts_with word key then run args c else rest

-- At most so many words.
unfoldable pub split_words : ℕ → List ℕ → List (List ℕ)
split_words zero s = []
split_words (suc n) s = elim (strtok (codes " ") s) [
  | none ↦ []
  | some (word, rest) ↦ word ∷ split_words n rest
]

abbrev pub is_newline : List ℕ → Bool
is_newline (x ∷ []) = x == 10
is_newline _ = false

-- `strcmp` reads the first word, which may be NULL.
unfoldable pub run_words : Library → List (List ℕ) → Console → Round
run_words lib [] c = crash
run_words lib (word ∷ args) c =
    let r = run_command (commands lib) word args c in if is_newline word then next c else r

-- ADMIN_MAX_INPUT - 1.
abbrev pub input_limit : ℕ
input_limit = 127

-- A line that was read; `alive` is that of the server by then.
unfoldable pub read_line : Library → Bool → List ℕ → Console → Round
read_line lib alive input c =
    if alive
    then if leb input_limit (length input)
      then quit (pos 1) c
      else run_words lib (split_words 5 input) c
    else quit (pos 0) c

-- The loop goes round, if the command did not end it.
abbrev pub on_next : (Console → Round) → Round → Round
on_next k (next c) = k c
on_next k (quit s c) = quit s c
on_next k (scans c) = scans c
on_next k (kills c) = kills c
on_next k crash = crash

abbrev pub leave : Console → Round
leave c = quit c.status c

-- With the option -e: one line, and then the exit with what its command returned.
unfoldable pub run_once : Library → Bool → List ℕ → Console → Round
run_once lib alive input c =
    if leb input_limit (length input)
    then quit (pos 1) c
    else on_next leave (read_line lib alive input c)

-- An interactive session: a list of lines, while no other process changes the balancer.
unfoldable pub run_lines : Library → List (List ℕ) → Console → Round
run_lines lib [] c = next c
run_lines lib (input ∷ more) c = on_next (run_lines lib more) (read_line lib true input c)
