-- ===== src/Config/File.antt =====
-- The loops of `parse_config_file` (src/config.c) and `initialize_logging` (src/init.c) over the lines
-- of the configuration file.
use octopuslb.Base.{
  ℕ, Bool, false, not, ◌&&◌, ◌||◌, Option, none, some, List, [], ◌∷◌, if◌then◌else◌, ltb_ℤ, leb_ℤ,
  ℤ, pos,
}
use octopuslb.Balancer.{Status, Balancer}
use octopuslb.Text.{starts_with, strtok, strtol, codes}
use octopuslb.Text.Lines.{fgets_lines}
use octopuslb.Config.{
  Config, Section, Options, Library, Reading, reads, exits, fault, after, chain, when_directive,
  require, read_int,
}
use octopuslb.Config.Server.{server_directives, begin_section, end_section}
use octopuslb.Config.Settings.{balancer_directives}
use octopuslb.Config.Trim.{trim_white_space}

-- The directive up to the first `=`, and the value up to the next space or `=`; `none` for NULL.
unfoldable pub tokens : List ℕ → Option (List ℕ) × Option (List ℕ)
tokens line = elim (strtok (codes "=") line) [
  | none ↦ (none, none)
  | some (directive, rest) ↦ elim (strtok (codes " =") rest) [
    | none ↦ (some (trim_white_space directive), none)
    | some (value, _) ↦ (some (trim_white_space directive), some (trim_white_space value))
  ]
]

abbrev pub in_section : Library → List ℕ → Option (List ℕ) → Config → Reading Config
in_section lib directive value c =
    if c.section.in_server_section then chain (server_directives lib directive value) c else reads c

abbrev pub in_file : Library → List ℕ → Option (List ℕ) → Config → Reading Config
in_file lib directive value c =
    if starts_with directive (codes "[/")
    then end_section lib c
    else if starts_with directive (codes "[")
    then begin_section directive c
    else chain (balancer_directives lib directive value) c

abbrev pub parse_tokens : Library → Option (List ℕ) × Option (List ℕ) → Config → Reading Config
parse_tokens lib (none, value) c = fault
parse_tokens lib (some directive, value) c =
    after (in_section lib directive value c) (in_file lib directive value)

-- One round of the loop.
unfoldable pub parse_line : Library → List ℕ → Config → Reading Config
parse_line lib line c = parse_tokens lib (tokens line) c

unfoldable pub parse_lines : Library → List (List ℕ) → Config → Reading Config
parse_lines lib [] c = reads c
parse_lines lib (line ∷ lines) c = after (parse_line lib line c) (parse_lines lib lines)

-- How the locals start; `ip` and `name` are what lies on the stack.
abbrev pub first_section : ℕ → List ℕ → Balancer → Section
first_section ip name b = record {
  in_server_section = false;
  server_status = Status.enabled;
  server_clone = false;
  standby_state = false;
  server_port = pos 80;
  server_maxc = b.default_maxc;
  server_maxl = b.default_maxl;
  server_ip = ip;
  server_name = name;
}

-- `none` for a file that cannot be opened.
unfoldable pub parse_config_file :
    Library → Option (List ℕ) → ℕ → List ℕ → Options → Balancer → Reading Config
parse_config_file lib none ip name o b = exits
parse_config_file lib (some file) ip name o b =
    parse_lines lib (fgets_lines 1000 file)
      (record { balancer = b; options = o; section = first_section ip name b; errno = false })

-- What `initialize_logging` sets. `foreground` is FOREGROUND_ON, and `debug_level_override` says that
-- the level is that of the command line.
pub record Logging : Type 0 where
  pub log_file_path : Option (List ℕ)
  pub debug_level : ℤ
  pub errno : Bool
  pub foreground : Bool
  pub debug_level_override : Bool

unfoldable pub set_log_file : Bool → List ℕ → Logging → Reading Logging
set_log_file memory value l = require memory (reads (record l { log_file_path = some value }))

unfoldable pub set_debug_level : List ℕ → Logging → Reading Logging
set_debug_level value l =
    let level = read_int 10 value in
    let error = l.errno || (strtol 10 value).erange in
    let written = ltb_ℤ (pos 0) level && l.foreground in
    require (not error) (
      require (leb_ℤ (pos 0) level && leb_ℤ level (pos 6))
        (reads (record l { debug_level = level; errno = if written then false else error })))

-- An overridden level is passed over before the value is read.
abbrev pub log_directives : Bool → List ℕ → Option (List ℕ) → List (Logging → Reading Logging)
log_directives memory directive value =
    when_directive (codes "log_file") directive value (set_log_file memory)
    ∷ (λ l.
        if l.debug_level_override
        then reads l
        else when_directive (codes "debug_level") directive value set_debug_level l)
    ∷ []

unfoldable pub log_line : Bool → List ℕ → Logging → Reading Logging
log_line memory line l = elim (tokens line).0 [
  | none ↦ fault
  | some directive ↦ chain (log_directives memory directive (tokens line).1) l
]

unfoldable pub log_lines : Bool → List (List ℕ) → Logging → Reading Logging
log_lines memory [] l = reads l
log_lines memory (line ∷ lines) l = after (log_line memory line l) (log_lines memory lines)

-- `opens` says whether a log file can be opened for writing.
abbrev pub open_log : (List ℕ → Bool) → Logging → Reading Logging
open_log opens l = elim l.log_file_path [
  | none ↦ exits
  | some path ↦ if opens path then reads (record l { errno = false }) else exits
]

unfoldable pub initialize_logging :
    Bool → (List ℕ → Bool) → Option (List ℕ) → Logging → Reading Logging
initialize_logging memory opens none l = exits
initialize_logging memory opens (some file) l =
    after (log_lines memory (fgets_lines 100 file) (record l { errno = false })) (open_log opens)
