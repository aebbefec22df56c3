-- ===== src/Balancer.antt =====
-- The shared-memory state of src/octopus.h: `SERVER`, the parts of `BALANCER` that the server, the
-- monitor and the admin read and write, and the constants for states, modes and algorithms.
pub mod Create
pub mod Examples
pub mod Cloning
use octopuslb.Base.{ℕ, ◌≤◌, ◌≡◌, ◌≢◌, Bool, true, false, List, [], ℤ, pos, float_zero}

-- SERVER_STATE_FREE to SERVER_STATE_ENABLED.
pub data Status : Type 0 where
  free deleted failed disabled enabled : Status

-- ALGORITHM_RR to ALGORITHM_STATIC.
pub data Algorithm : Type 0 where
  rr lc ll hash static : Algorithm

-- CLONE_MODE_OFF, CLONE_MODE_ON, CLONE_MODE_FAILED.
pub data CloneMode : Type 0 where
  off on broken : CloneMode

-- OVERLOAD_MODE_RELAXED, OVERLOAD_MODE_STRICT.
pub data OverloadMode : Type 0 where
  relaxed strict : OverloadMode

-- SNMP_NOT_INCLUDED, SNMP_DISABLED, SNMP_ENABLED.
pub data SnmpStatus : Type 0 where
  snmp_not_included snmp_disabled snmp_enabled : SnmpStatus

abbrev pub is_enabled : Status → Bool
is_enabled Status.enabled = true
is_enabled _ = false

abbrev pub is_free : Status → Bool
is_free Status.free = true
is_free _ = false

abbrev pub is_strict : OverloadMode → Bool
is_strict strict = true
is_strict relaxed = false

abbrev pub max_servers : ℕ
max_servers = 512

abbrev pub hash_table_size : ℕ
hash_table_size = 65535

-- HASH_VAL_FREE, which is -1.
abbrev pub hash_val_free : ℤ
hash_val_free = ℤ.negsuc 0

-- SERVERNAME_MAX_LENGTH.
abbrev pub servername_max_length : ℕ
servername_max_length = 16

-- `standby` holds when `standby_state` is STANDBY_STATE_TRUE. `sin_port` is the port in host order.
-- `load` and `maxl` are the bit patterns of floats.
pub record Server : Type 0 where
  pub id : ℕ
  pub name : List ℕ
  pub status : Status
  pub standby : Bool
  pub port : ℤ
  pub sin_port : ℕ
  pub sin_addr : ℕ
  pub c : ℤ
  pub maxc : ℤ
  pub completed_c : ℕ
  pub bsent : ℕ
  pub brecv : ℕ
  pub load : ℕ
  pub maxl : ℕ
  pub e_load : ℤ
  pub hash_table_usage : ℕ

-- What `memset(s, '\0', sizeof(SERVER))` leaves: status FREE and, as STANDBY_STATE_TRUE is 0,
-- a standby.
abbrev pub zeroed : Server
zeroed = record {
  id = 0;
  name = [];
  status = Status.free;
  standby = true;
  port = pos 0;
  sin_port = 0;
  sin_addr = 0;
  c = pos 0;
  maxc = pos 0;
  completed_c = 0;
  bsent = 0;
  brecv = 0;
  load = float_zero;
  maxl = float_zero;
  e_load = pos 0;
  hash_table_usage = 0;
}

-- The numbers that an operator sets; the balancing code only reads them.
pub record Settings : Type 0 where
  pub monitor_interval : ℕ
  pub session_weight : ℕ
  pub hash_rebalance_threshold : ℤ
  pub hash_rebalance_size : ℤ
  pub hash_rebalance_interval : ℤ
  pub default_maxc : ℤ
  pub default_maxl : ℕ
  pub fd_limit : ℤ
  pub session_limit : ℤ
  pub debug_level : ℤ

pub record Balancer : Type 0 where
  pub hash_table : ℕ → ℤ
  pub nmembers : ℕ
  pub nclones : ℕ
  pub members : ℕ → Server
  pub clones : ℕ → Server
  pub algorithm : Algorithm
  pub clone_mode : CloneMode
  pub overload_mode : OverloadMode
  pub snmp_status : SnmpStatus
  pub overall_load : ℤ
  pub settings : Settings
  pub open settings use *

-- An array of servers: the count is within the array, the slots from the count on are free, and a
-- slot in use holds its own index.
pub record WellFormed (slots : ℕ → Server) (n : ℕ) : Type 0 where
  pub in_bounds : n ≤ max_servers
  pub beyond : (i : ℕ) → n ≤ i → (slots i).status ≡ Status.free
  pub named : (i : ℕ) → (slots i).status ≢ Status.free → (slots i).id ≡ i

pub record IsWellFormed (b : Balancer) : Type 0 where
  pub members_ok : WellFormed b.members b.nmembers
  pub clones_ok : WellFormed b.clones b.nclones
