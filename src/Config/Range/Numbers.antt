-- ===== src/Config/Range/Numbers.antt =====
-- The directives for the balancer keep the settings in range.
use octopuslb.Base.{
  ℕ, ◌≡◌, Bool, true, Option, none, some, List, ℤ, arith, if_split, Option-cases, inl, inr, not,
  float_zero, if◌then◌else◌,
}
use octopuslb.Text.{starts_with, strtol, codes}
use octopuslb.Config.{Config, Options, Library, Reading, exits, debug, read_int, set_errno}
use octopuslb.Config.Settings.{
  set_snmp_community_pw, set_snmp_enable, set_shm_run_dir, set_session_weight, algorithm_of,
  set_algorithm, set_clone_mode, set_overload_mode, set_default_maxc, set_default_maxl, set_number,
  set_hash_rebalance_threshold, set_hash_rebalance_size, set_hash_rebalance_interval, set_shm_perms,
  set_monitor_interval, set_connect_timeout, set_session_limit, set_fd_limit, set_use_syslog,
  set_binding_port, set_address, set_binding_ip, set_member_outbound_ip, set_clone_outbound_ip,
  balancer_directives,
}
use octopuslb.Config.Range.{Sound, Kept, Keeps, require-Kept, when-Kept, ◌&◌, none_left}

-- A handler that keeps what is sound.
abbrev pub Sure : (List ℕ → Config → Reading Config) → Type 0
Sure set = (value : List ℕ) (c : Config) → Sound c → Kept Sound (set value c)

set_number-Sure :
    (base : ℕ) (test : ℤ → Bool) (assign : ℤ → Config → Config)
    → ((v : ℤ) (c : Config) → test v ≡ true → Sound c → Sound (assign v c))
    → Sure (set_number base test assign)
unfolding set_number
set_number-Sure base test assign k value c h =
    require-Kept Sound (strtol base value).found _ (λ found.
      require-Kept Sound (test (read_int base value)) _
        (λ ok. k (read_int base value) (set_errno (strtol base value).erange c) ok h))

set_address-Sure :
    (lib : Library) (assign : ℕ → Options → Options)
    → ((ip : ℕ) (c : Config) → Sound c → Sound (record c { options = assign ip c.options }))
    → Sure (set_address lib assign)
set_address-Sure lib assign k value c h =
    elim (lib.inet_aton value)
      as (λ z. Kept Sound (elim z as (λ x. Reading Config) [
        | none ↦ exits
        | some ip ↦ debug (record c { options = assign ip c.options })
      ])) [ none ↦ tt | some ip ↦ k ip c h ]

module _ (lib : Library) where
  set_snmp_community_pw-Sure : Sure (set_snmp_community_pw lib)
  unfolding set_snmp_community_pw
  set_snmp_community_pw-Sure value c h =
      require-Kept Sound lib.memory _ (λ m. (ground arith, h.1, h.2))

  set_shm_run_dir-Sure : Sure (set_shm_run_dir lib)
  unfolding set_shm_run_dir
  set_shm_run_dir-Sure value c h = require-Kept Sound lib.memory _ (λ m. (ground arith, h.1, h.2))

  set_session_weight-Sure : Sure (set_session_weight lib)
  unfolding set_session_weight
  set_session_weight-Sure value c h =
      require-Kept Sound (lib.floats.le float_zero (lib.atof value).0) _
        (λ m. (ground arith, h.1, h.2))

  set_default_maxl-Sure : Sure (set_default_maxl lib)
  unfolding set_default_maxl
  set_default_maxl-Sure value c h =
      require-Kept Sound (lib.floats.le float_zero (lib.atof value).0) _
        (λ m. (ground arith, h.1, h.2))

  set_binding_ip-Sure : Sure (set_binding_ip lib)
  unfolding set_binding_ip
  set_binding_ip-Sure = set_address-Sure lib _ (λ ip c h. (ground arith, h.1, h.2))

  set_member_outbound_ip-Sure : Sure (set_member_outbound_ip lib)
  unfolding set_member_outbound_ip
  set_member_outbound_ip-Sure = set_address-Sure lib _ (λ ip c h. (ground arith, h.1, h.2))

  set_clone_outbound_ip-Sure : Sure (set_clone_outbound_ip lib)
  unfolding set_clone_outbound_ip
  set_clone_outbound_ip-Sure = set_address-Sure lib _ (λ ip c h. (ground arith, h.1, h.2))

set_snmp_enable-Sure : Sure set_snmp_enable
unfolding set_snmp_enable
set_snmp_enable-Sure value c h =
    if_split (Kept Sound) (starts_with value (codes "on")) _ _ (λ e. h) (λ e. h)

set_algorithm-Sure : Sure set_algorithm
unfolding set_algorithm starts_with
set_algorithm-Sure value c h = elim (Option-cases (algorithm_of value)) [
  | inl e ↦ rw e tt
  | inr (a, e) ↦ rw e h
]

set_clone_mode-Sure : Sure set_clone_mode
unfolding set_clone_mode
set_clone_mode-Sure value c h =
    if_split (Kept Sound) (starts_with value (codes "disabled")) _ _ (λ e. h)
      (λ e. if_split (Kept Sound) (starts_with value (codes "enabled")) _ _ (λ e. h) (λ e. tt))

set_overload_mode-Sure : Sure set_overload_mode
unfolding set_overload_mode
set_overload_mode-Sure value c h =
    if_split (Kept Sound) (starts_with value (codes "STRIC")) _ _ (λ e. h)
      (λ e. if_split (Kept Sound) (starts_with value (codes "RELAX")) _ _ (λ e. h) (λ e. tt))

set_default_maxc-Sure : Sure set_default_maxc
unfolding set_default_maxc
set_default_maxc-Sure value c h =
    require-Kept Sound (not (if (strtol 10 value).erange then true else c.errno)) _
      (λ m. (ground arith, h.1, h.2))

set_hash_rebalance_threshold-Sure : Sure set_hash_rebalance_threshold
unfolding set_hash_rebalance_threshold
set_hash_rebalance_threshold-Sure = set_number-Sure 10 _ _ (λ v c t h. (ground arith, h.1, h.2))

set_hash_rebalance_size-Sure : Sure set_hash_rebalance_size
unfolding set_hash_rebalance_size
set_hash_rebalance_size-Sure = set_number-Sure 10 _ _ (λ v c t h. (ground arith, h.1, h.2))

set_hash_rebalance_interval-Sure : Sure set_hash_rebalance_interval
unfolding set_hash_rebalance_interval
set_hash_rebalance_interval-Sure = set_number-Sure 10 _ _ (λ v c t h. (ground arith, h.1, h.2))

set_shm_perms-Sure : Sure set_shm_perms
unfolding set_shm_perms
set_shm_perms-Sure = set_number-Sure 8 _ _ (λ v c t h. (ground arith, h.1, h.2))

set_monitor_interval-Sure : Sure set_monitor_interval
unfolding set_monitor_interval
set_monitor_interval-Sure = set_number-Sure 10 _ _ (λ v c t h. (ground arith, h.1, h.2))

set_connect_timeout-Sure : Sure set_connect_timeout
unfolding set_connect_timeout
set_connect_timeout-Sure = set_number-Sure 10 _ _ (λ v c t h. (ground arith, h.1, h.2))

set_session_limit-Sure : Sure set_session_limit
unfolding set_session_limit
set_session_limit-Sure = set_number-Sure 10 _ _ (λ v c t h. (ground arith, h.1, h.2))

set_fd_limit-Sure : Sure set_fd_limit
unfolding set_fd_limit
set_fd_limit-Sure = set_number-Sure 10 _ _ (λ v c t h. (ground arith, h.1, h.2))

set_use_syslog-Sure : Sure set_use_syslog
unfolding set_use_syslog
set_use_syslog-Sure = set_number-Sure 10 _ _ (λ v c t h. (ground arith, h.1, h.2))

set_binding_port-Sure : Sure set_binding_port
unfolding set_binding_port
set_binding_port-Sure = set_number-Sure 10 _ _ (λ v c t h. (ground arith, h.1, h.2))

pub balancer_directives-Keeps :
    (lib : Library) (directive : List ℕ) (value : Option (List ℕ))
    → Keeps Sound (balancer_directives lib directive value)
unfolding balancer_directives
balancer_directives-Keeps lib directive value =
    when-Kept Sound _ directive value _ (set_snmp_community_pw-Sure lib)
    & when-Kept Sound _ directive value _ set_snmp_enable-Sure
    & when-Kept Sound _ directive value _ (set_shm_run_dir-Sure lib)
    & when-Kept Sound _ directive value _ (set_session_weight-Sure lib)
    & when-Kept Sound _ directive value _ set_algorithm-Sure
    & when-Kept Sound _ directive value _ set_clone_mode-Sure
    & when-Kept Sound _ directive value _ set_overload_mode-Sure
    & when-Kept Sound _ directive value _ set_default_maxc-Sure
    & when-Kept Sound _ directive value _ (set_default_maxl-Sure lib)
    & when-Kept Sound _ directive value _ set_hash_rebalance_threshold-Sure
    & when-Kept Sound _ directive value _ set_hash_rebalance_size-Sure
    & when-Kept Sound _ directive value _ set_hash_rebalance_interval-Sure
    & when-Kept Sound _ directive value _ set_shm_perms-Sure
    & when-Kept Sound _ directive value _ set_monitor_interval-Sure
    & when-Kept Sound _ directive value _ set_connect_timeout-Sure
    & when-Kept Sound _ directive value _ set_session_limit-Sure
    & when-Kept Sound _ directive value _ set_fd_limit-Sure
    & when-Kept Sound _ directive value _ set_use_syslog-Sure
    & when-Kept Sound _ directive value _ set_binding_port-Sure
    & when-Kept Sound _ directive value _ (set_binding_ip-Sure lib)
    & when-Kept Sound _ directive value _ (set_member_outbound_ip-Sure lib)
    & when-Kept Sound _ directive value _ (set_clone_outbound_ip-Sure lib)
    & none_left
