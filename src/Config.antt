-- ===== src/Config.antt =====
-- The configuration file: `trim_white_space` and the state that `parse_config_file` of src/config.c
-- works on. The children model the lines of a server's section, the other directives, and the loop.
pub mod Trim
pub mod Written
pub mod Server
pub mod Settings
pub mod File
pub mod Range
pub mod Examples
use octopuslb.Base.{
  ℕ, ◌+◌, ◌-◌, Bool, true, false, not, Option, none, some, List, [], ◌∷◌, if◌then◌else◌, ltb_ℤ, ℤ,
  pos, Floats, length,
}
use octopuslb.Balancer.{Status, Balancer}
use octopuslb.Text.{starts_with, strtol, Number, to_int}

-- The fields of BALANCER that only the start of the process reads. A boolean stands for an `int`
-- that is 0 or 1.
pub record Options : Type 0 where
  pub snmp_community_pw : Option (List ℕ)
  pub shm_run_dir : Option (List ℕ)
  pub shm_perms : ℤ
  pub connect_timeout : ℤ
  pub use_syslog : ℤ
  pub binding_port : ℤ
  pub binding_ip : ℕ
  pub member_outbound_ip : ℕ
  pub clone_outbound_ip : ℕ
  pub use_member_outbound_ip : Bool
  pub use_clone_outbound_ip : Bool

-- The local variables of `parse_config_file`; `server_ip` and `server_name` hold whatever is on the
-- stack until they are set.
pub record Section : Type 0 where
  pub in_server_section : Bool
  pub server_status : Status
  pub server_clone : Bool
  pub standby_state : Bool
  pub server_port : ℤ
  pub server_maxc : ℤ
  pub server_maxl : ℕ
  pub server_ip : ℕ
  pub server_name : List ℕ

-- `errno` tells whether it is not 0.
pub record Config : Type 0 where
  pub balancer : Balancer
  pub options : Options
  pub section : Section
  pub errno : Bool

-- What the parsing of one line leads to: on with the next, the end of the process, or a read
-- through NULL or a write past the end of an array.
pub data Reading (A : Type 0) : Type 0 where
  reads : A → Reading A
  exits : Reading A
  fault : Reading A

abbrev pub after : {A B : Type 0} → Reading A → (A → Reading B) → Reading B
after (reads c) f = f c
after exits f = exits
after fault f = fault

-- `if` upon `if`: each looks at what those before it have left.
abbrev pub chain : {A : Type 0} → List (A → Reading A) → A → Reading A
chain [] c = reads c
chain (f ∷ fs) c = after (f c) (chain fs)

-- The library functions whose results the parser takes as they are: `atof`, with whether it sets
-- `errno`, `inet_aton`, which may fail, and whether `malloc` succeeds.
pub record Library : Type 0 where
  pub floats : Floats
  pub atof : List ℕ → ℕ × Bool
  pub inet_aton : List ℕ → Option ℕ
  pub memory : Bool

-- The directive acts on the value, which may not be NULL.
abbrev pub given : {A : Type 0} → Option (List ℕ) → (List ℕ → A → Reading A) → A → Reading A
given none set c = fault
given (some value) set c = set value c

-- `if (!strncmp(directive, key, strlen(key)))`.
abbrev pub when_directive :
    {A : Type 0} → List ℕ → List ℕ → Option (List ℕ) → (List ℕ → A → Reading A) → A → Reading A
when_directive key directive value set c =
    if starts_with directive key then given value set c else reads c

-- A debug line, if one is written (without an error), leaves `errno` 0.
abbrev pub debug : Config → Reading Config
debug c =
    reads (record c { errno = if ltb_ℤ (pos 0) c.balancer.debug_level then false else c.errno })

-- `write_log(OCTOPUS_LOG_EXIT, ...)` unless the test holds.
abbrev pub require : {A : Type 0} → Bool → Reading A → Reading A
require true r = r
require false r = exits

abbrev pub set_errno : Bool → Config → Config
set_errno e c = record c { errno = if e then true else c.errno }

-- `strtol` and the conversion to `int`.
abbrev pub read_int : ℕ → List ℕ → ℤ
read_int base value = to_int (strtol base value).value

abbrev pub with_section : (Section → Section) → Config → Config
with_section f c = record c { section = f c.section }

abbrev pub with_balancer : (Balancer → Balancer) → Config → Config
with_balancer f c = record c { balancer = f c.balancer }

abbrev pub with_options : (Options → Options) → Config → Config
with_options f c = record c { options = f c.options }
