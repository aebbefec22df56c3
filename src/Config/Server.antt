-- ===== src/Config/Server.antt =====
-- The directives of a server's section in `parse_config_file` of src/config.c, and the section's
-- begin and end.
use octopuslb.Base.{
  ℕ, ◌-◌, true, false, not, ◌&&◌, Option, none, some, List, [], ◌∷◌, if◌then◌else◌, ltb, leb, ltb_ℤ,
  leb_ℤ, pos, length, take, drop, float_zero,
}
use octopuslb.Balancer.{Status, Balancer, servername_max_length}
use octopuslb.Balancer.Create.{
  Request, Created, created, no_memory, invalid_port, out_of_bounds, create_balancer_server,
}
use octopuslb.Text.{starts_with, strtol, codes}
use octopuslb.Config.{
  Config, Section, Library, Reading, with_section, reads, exits, fault, after, debug,
  when_directive, require, set_errno, read_int,
}

unfoldable pub set_port : List ℕ → Config → Reading Config
set_port value c =
    let port = read_int 10 value in
    require (not (strtol 10 value).erange) (
      require (ltb_ℤ (pos 0) port && ltb_ℤ port (pos 65536))
        (debug (record c { section = record (c.section) { server_port = port }; errno = false })))

unfoldable pub set_maxc : List ℕ → Config → Reading Config
set_maxc value c =
    let maxc = read_int 10 value in
    require (not (strtol 10 value).erange) (
      require (leb_ℤ (pos 0) maxc)
        (debug (record c { section = record (c.section) { server_maxc = maxc }; errno = false })))

unfoldable pub set_maxl : Library → List ℕ → Config → Reading Config
set_maxl lib value c =
    let r = lib.atof value in
    require (lib.floats.lt float_zero r.0)
      (debug (set_errno r.1 (with_section (λ s. record s { server_maxl = r.0 }) c)))

-- A value that is no word of the two is passed over, unless `errno` has been set before.
abbrev pub pass_over : Config → Reading Config
pass_over c = require (not c.errno) (reads c)

unfoldable pub set_status : List ℕ → Config → Reading Config
set_status value c =
    if starts_with value (codes "enabled")
    then debug (with_section (λ s. record s { server_status = Status.enabled }) c)
    else if starts_with value (codes "disabled")
    then debug (with_section (λ s. record s { server_status = Status.disabled }) c)
    else pass_over c

unfoldable pub set_standby : List ℕ → Config → Reading Config
set_standby value c =
    if starts_with value (codes "true")
    then debug (with_section (λ s. record s { standby_state = true }) c)
    else if starts_with value (codes "false")
    then debug (with_section (λ s. record s { standby_state = false }) c)
    else pass_over c

unfoldable pub set_ip : Library → List ℕ → Config → Reading Config
set_ip lib value c = elim (lib.inet_aton value) [
  | none ↦ exits
  | some ip ↦ debug (with_section (λ s. record s { server_ip = ip }) c)
]

-- The value `false` clears the standby state, not the clone flag.
unfoldable pub set_clone : List ℕ → Config → Reading Config
set_clone value c =
    if starts_with value (codes "true")
    then debug (with_section (λ s. record s { server_clone = true }) c)
    else if starts_with value (codes "false")
    then debug (with_section (λ s. record s { standby_state = false }) c)
    else pass_over c

-- The tests of the directive inside a server's section, in the order of the code; that for the
-- status compares five bytes.
unfoldable pub server_directives :
    Library → List ℕ → Option (List ℕ) → List (Config → Reading Config)
server_directives lib directive value =
    when_directive (codes "port") directive value set_port
    ∷ when_directive (codes "maxc") directive value set_maxc
    ∷ when_directive (codes "maxl") directive value (set_maxl lib)
    ∷ when_directive (codes "statu") directive value set_status
    ∷ when_directive (codes "standby") directive value set_standby
    ∷ when_directive (codes "ip") directive value (set_ip lib)
    ∷ when_directive (codes "clone") directive value set_clone
    ∷ []

abbrev pub request_of : Section → Request
request_of s = record {
  clone = s.server_clone;
  name = s.server_name;
  status = s.server_status;
  standby = s.standby_state;
  port = s.server_port;
  ip = s.server_ip;
  maxc = s.server_maxc;
  maxl = s.server_maxl;
}

-- The values for the next server. The address and the name stay.
abbrev pub reset_section : Balancer → Section → Section
reset_section b s = record s {
  server_port = pos 80;
  server_clone = false;
  server_maxc = b.default_maxc;
  server_maxl = b.default_maxl;
  server_status = Status.enabled;
  standby_state = false;
}

abbrev pub next_section : Config → Created → Reading Config
next_section c (created b) = reads (record c { balancer = b; section = reset_section b c.section })
next_section c no_memory = exits
next_section c invalid_port = exits
next_section c out_of_bounds = fault

-- `[/`: the server is created.
unfoldable pub end_section : Library → Config → Reading Config
end_section lib c = after (debug c) (λ c'.
    let left = with_section (λ s. record s { in_server_section = false }) c' in
    next_section left (create_balancer_server lib.memory (request_of left.section) left.balancer))

-- `[`: the name is what stands between the brackets. A lone bracket makes the number of bytes wrap
-- around, and a name of more than 16 bytes is written past the end of the array.
unfoldable pub begin_section : List ℕ → Config → Reading Config
begin_section directive c =
    let n = length directive - 2 in
    let named =
      with_section
        (λ s. record s { in_server_section = true; server_name = take n (drop 1 directive) }) c in
    if ltb (length directive) 2
    then fault
    else if leb n servername_max_length
    then debug named
    else fault
