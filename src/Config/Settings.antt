-- ===== src/Config/Settings.antt =====
-- The directives of `parse_config_file` of src/config.c for the balancer itself, as built with SNMP.
use octopuslb.Base.{
  ℕ, Bool, true, not, ◌&&◌, Option, none, some, List, [], ◌∷◌, if◌then◌else◌, ltb_ℤ, leb_ℤ, ℤ, pos,
  float_zero, to_ushort,
}
use octopuslb.Balancer.{
  Settings, Algorithm, rr, lc, ll, hash, static, off, on, strict, relaxed, snmp_enabled,
  snmp_disabled,
}
use octopuslb.Text.{starts_with, strtol, codes}
use octopuslb.Config.{
  Config, Options, Library, Reading, exits, debug, when_directive, require, set_errno, read_int,
  with_section, with_balancer, with_options,
}

abbrev pub with_settings : (Settings → Settings) → Config → Config
with_settings f c = with_balancer (λ b. record b { settings = f b.settings }) c

unfoldable pub set_snmp_community_pw : Library → List ℕ → Config → Reading Config
set_snmp_community_pw lib value c =
    require lib.memory (debug (with_options (λ o. record o { snmp_community_pw = some value }) c))

unfoldable pub set_snmp_enable : List ℕ → Config → Reading Config
set_snmp_enable value c =
    if starts_with value (codes "on")
    then debug (with_balancer (λ b. record b { snmp_status = snmp_enabled }) c)
    else debug (with_balancer (λ b. record b { snmp_status = snmp_disabled }) c)

unfoldable pub set_shm_run_dir : Library → List ℕ → Config → Reading Config
set_shm_run_dir lib value c =
    require lib.memory (debug (with_options (λ o. record o { shm_run_dir = some value }) c))

unfoldable pub set_session_weight : Library → List ℕ → Config → Reading Config
set_session_weight lib value c =
    let r = lib.atof value in
    require (lib.floats.le float_zero r.0)
      (debug (set_errno r.1 (with_settings (λ s. record s { session_weight = r.0 }) c)))

abbrev pub algorithm_of : List ℕ → Option Algorithm
algorithm_of value =
    if starts_with value (codes "RR")
    then some rr
    else if starts_with value (codes "LC")
    then some lc
    else if starts_with value (codes "LL")
    then some ll
    else if starts_with value (codes "HASH")
    then some hash
    else if starts_with value (codes "STATIC")
    then some static
    else none

-- The debug line comes before the assignment.
unfoldable pub set_algorithm : List ℕ → Config → Reading Config
set_algorithm value c = elim (algorithm_of value) [
  | none ↦ exits
  | some a ↦ debug (with_balancer (λ b. record b { algorithm = a }) c)
]

unfoldable pub set_clone_mode : List ℕ → Config → Reading Config
set_clone_mode value c =
    if starts_with value (codes "disabled")
    then debug (with_balancer (λ b. record b { clone_mode = off }) c)
    else if starts_with value (codes "enabled")
    then debug (with_balancer (λ b. record b { clone_mode = on }) c)
    else exits

-- Five bytes of RELAXED are compared.
unfoldable pub set_overload_mode : List ℕ → Config → Reading Config
set_overload_mode value c =
    if starts_with value (codes "STRIC")
    then debug (with_balancer (λ b. record b { overload_mode = strict }) c)
    else if starts_with value (codes "RELAX")
    then debug (with_balancer (λ b. record b { overload_mode = relaxed }) c)
    else exits

-- `errno` is not cleared first.
unfoldable pub set_default_maxc : List ℕ → Config → Reading Config
set_default_maxc value c =
    let maxc = read_int 10 value in
    let c' =
      set_errno (strtol 10 value).erange
        (with_settings (λ s. record s { default_maxc = maxc }) c) in
    require (not c'.errno) (debug (with_section (λ s. record s { server_maxc = maxc }) c'))

unfoldable pub set_default_maxl : Library → List ℕ → Config → Reading Config
set_default_maxl lib value c =
    let r = lib.atof value in
    let c' = set_errno r.1 (with_settings (λ s. record s { default_maxl = r.0 }) c) in
    require (lib.floats.le float_zero r.0)
      (debug (with_section (λ s. record s { server_maxl = r.0 }) c'))

-- A whole number that has to pass a test.
unfoldable pub set_number :
    ℕ → (ℤ → Bool) → (ℤ → Config → Config) → List ℕ → Config → Reading Config
set_number base test assign value c = require (strtol base value).found (
    require (test (read_int base value))
      (debug (assign (read_int base value) (set_errno (strtol base value).erange c))))

-- `0 ≤ v < 100`.
abbrev pub below_hundred : ℤ → Bool
below_hundred v = leb_ℤ (pos 0) v && ltb_ℤ v (pos 100)

unfoldable pub set_hash_rebalance_threshold : List ℕ → Config → Reading Config
set_hash_rebalance_threshold =
    set_number 10 below_hundred
      (λ v. with_settings (λ s. record s { hash_rebalance_threshold = v }))

unfoldable pub set_hash_rebalance_size : List ℕ → Config → Reading Config
set_hash_rebalance_size =
    set_number 10 below_hundred (λ v. with_settings (λ s. record s { hash_rebalance_size = v }))

unfoldable pub set_hash_rebalance_interval : List ℕ → Config → Reading Config
set_hash_rebalance_interval =
    set_number 10 (leb_ℤ (pos 0))
      (λ v. with_settings (λ s. record s { hash_rebalance_interval = v }))

-- The bound is 777 in decimal.
unfoldable pub set_shm_perms : List ℕ → Config → Reading Config
set_shm_perms =
    set_number 8 (λ v. ltb_ℤ (pos 0) v && ltb_ℤ v (pos 777))
      (λ v. with_options (λ o. record o { shm_perms = v }))

unfoldable pub set_monitor_interval : List ℕ → Config → Reading Config
set_monitor_interval =
    set_number 10 (leb_ℤ (pos 0))
      (λ v. with_settings (λ s. record s { monitor_interval = to_ushort v }))

unfoldable pub set_connect_timeout : List ℕ → Config → Reading Config
set_connect_timeout =
    set_number 10 (ltb_ℤ (pos 0)) (λ v. with_options (λ o. record o { connect_timeout = v }))

unfoldable pub set_session_limit : List ℕ → Config → Reading Config
set_session_limit =
    set_number 10 (leb_ℤ (pos 0)) (λ v. with_settings (λ s. record s { session_limit = v }))

unfoldable pub set_fd_limit : List ℕ → Config → Reading Config
set_fd_limit = set_number 10 (leb_ℤ (pos 0)) (λ v. with_settings (λ s. record s { fd_limit = v }))

unfoldable pub set_use_syslog : List ℕ → Config → Reading Config
set_use_syslog =
    set_number 10 (λ v. leb_ℤ (pos 0) v && leb_ℤ v (pos 1))
      (λ v. with_options (λ o. record o { use_syslog = v }))

unfoldable pub set_binding_port : List ℕ → Config → Reading Config
set_binding_port =
    set_number 10 (ltb_ℤ (pos 0)) (λ v. with_options (λ o. record o { binding_port = v }))

abbrev pub set_address : Library → (ℕ → Options → Options) → List ℕ → Config → Reading Config
set_address lib assign value c = elim (lib.inet_aton value) [
  | none ↦ exits
  | some ip ↦ debug (with_options (assign ip) c)
]

unfoldable pub set_binding_ip : Library → List ℕ → Config → Reading Config
set_binding_ip lib = set_address lib (λ ip o. record o { binding_ip = ip })

unfoldable pub set_member_outbound_ip : Library → List ℕ → Config → Reading Config
set_member_outbound_ip lib =
    set_address lib (λ ip o. record o { member_outbound_ip = ip; use_member_outbound_ip = true })

unfoldable pub set_clone_outbound_ip : Library → List ℕ → Config → Reading Config
set_clone_outbound_ip lib =
    set_address lib (λ ip o. record o { clone_outbound_ip = ip; use_clone_outbound_ip = true })

-- The tests of the directive, in the order of the code.
unfoldable pub balancer_directives :
    Library → List ℕ → Option (List ℕ) → List (Config → Reading Config)
balancer_directives lib directive value =
    when_directive (codes "snmp_community_pw") directive value (set_snmp_community_pw lib)
    ∷ when_directive (codes "snmp_enable") directive value set_snmp_enable
    ∷ when_directive (codes "shm_run_dir") directive value (set_shm_run_dir lib)
    ∷ when_directive (codes "session_weight") directive value (set_session_weight lib)
    ∷ when_directive (codes "algorithm") directive value set_algorithm
    ∷ when_directive (codes "clone_mode") directive value set_clone_mode
    ∷ when_directive (codes "overload_mode") directive value set_overload_mode
    ∷ when_directive (codes "default_maxc") directive value set_default_maxc
    ∷ when_directive (codes "default_maxl") directive value (set_default_maxl lib)
    ∷ when_directive (codes "hash_rebalance_threshold") directive value set_hash_rebalance_threshold
    ∷ when_directive (codes "hash_rebalance_size") directive value set_hash_rebalance_size
    ∷ when_directive (codes "hash_rebalance_interval") directive value set_hash_rebalance_interval
    ∷ when_directive (codes "shm_perms") directive value set_shm_perms
    ∷ when_directive (codes "monitor_interval") directive value set_monitor_interval
    ∷ when_directive (codes "connect_timeout") directive value set_connect_timeout
    ∷ when_directive (codes "session_limit") directive value set_session_limit
    ∷ when_directive (codes "fd_limit") directive value set_fd_limit
    ∷ when_directive (codes "use_syslog") directive value set_use_syslog
    ∷ when_directive (codes "binding_port") directive value set_binding_port
    ∷ when_directive (codes "binding_ip") directive value (set_binding_ip lib)
    ∷ when_directive (codes "member_outbound_ip") directive value (set_member_outbound_ip lib)
    ∷ when_directive (codes "clone_outbound_ip") directive value (set_clone_outbound_ip lib)
    ∷ []
