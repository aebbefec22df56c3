-- ===== src/Config/Written.antt =====
-- A server as a section of the configuration file, and that `parse_config_file` of src/config.c reads
-- it back.
pub mod Lines
pub mod RoundTrip
pub mod Whole
use octopuslb.Base.{
  ℕ, ◌<◌, ◌≡◌, ◌≢◌, Bool, true, false, Option, some, List, [], ◌∷◌, ◌++◌, if◌then◌else◌, pos,
  length, get_or,
}
use octopuslb.Balancer.{Status}
use octopuslb.Balancer.Create.{Request}
use octopuslb.Text.{codes, starts_with}
use octopuslb.Text.Decimal.{decimal}
use octopuslb.Config.{Section, Library}
use octopuslb.Config.Trim.Words.{IsWord, Plain, setting}

-- What a section says; the address and the load limit are texts that the library reads.
pub record Described : Type 0 where
  pub name : List ℕ
  pub clone : Bool
  pub standby : Bool
  pub enabled : Bool
  pub port : ℕ
  pub maxc : ℕ
  pub maxl_text : List ℕ
  pub ip_text : List ℕ

abbrev pub yes_no : Bool → List ℕ
yes_no b = if b then codes "true" else codes "false"

abbrev pub status_word : Bool → List ℕ
status_word b = if b then codes "enabled" else codes "disabled"

abbrev pub bracketed : List ℕ → List ℕ
bracketed name = b'[' ∷ (name ++ (b']' ∷ []))

-- The section, a directive to a line.
pub section_lines : Described → List (List ℕ)
section_lines d =
    (bracketed d.name ++ (10 ∷ []))
    ∷ setting (codes "clone") (yes_no d.clone)
    ∷ setting (codes "standby") (yes_no d.standby)
    ∷ setting (codes "status") (status_word d.enabled)
    ∷ setting (codes "port") (decimal d.port)
    ∷ setting (codes "maxc") (decimal d.maxc)
    ∷ setting (codes "maxl") d.maxl_text
    ∷ setting (codes "ip") d.ip_text
    ∷ (codes "[/server]" ++ (10 ∷ []))
    ∷ []

-- The section is one that can be read: names and texts are words, the name fits into its array and
-- is not taken for the end of a section, the numbers are in range, and the library reads the texts.
pub record Readable (lib : Library) (d : Described) (ip maxl : ℕ) : Type 0 where
  pub name_word : IsWord d.name
  pub name_fits : length d.name < 17
  pub no_slash : starts_with d.name (codes "/") ≡ false
  pub port_lo : 0 < d.port
  pub port_hi : d.port < 65536
  pub maxc_hi : d.maxc < 2147483648
  pub ip_word : IsWord d.ip_text
  pub maxl_word : IsWord d.maxl_text
  pub ip_read : lib.inet_aton d.ip_text ≡ some ip
  pub maxl_read : lib.atof d.maxl_text ≡ (maxl, false)
  pub maxl_pos : lib.floats.lt 0 maxl ≡ true

-- The request for the server, and the locals when it is made.
abbrev pub asked : Described → ℕ → ℕ → Request
asked d ip maxl = record {
  clone = d.clone;
  name = d.name;
  status = if d.enabled then Status.enabled else Status.disabled;
  standby = d.standby;
  port = pos d.port;
  ip = ip;
  maxc = pos d.maxc;
  maxl = maxl;
}

abbrev pub written : Described → ℕ → ℕ → Section
written d ip maxl = record {
  in_server_section = false;
  server_status = if d.enabled then Status.enabled else Status.disabled;
  server_clone = d.clone;
  standby_state = d.standby;
  server_port = pos d.port;
  server_maxc = pos d.maxc;
  server_maxl = maxl;
  server_ip = ip;
  server_name = d.name;
}
