-- ===== src/Monitor/Load.antt =====
-- `calc_effective_load` of src/monitor.c, and the queries before it.
pub mod Outcome
use octopuslb.Base.{
  ℕ, Bool, true, false, not, ◌||◌, if◌then◌else◌, update, pos, ℤ, Floats, float_zero, float_hundred,
  for_range,
}
use octopuslb.Balancer.{Server, Balancer}
use octopuslb.Monitor.Check.{SnmpAnswer, check_server_snmp}

-- The load in percent of the maximum, as an integer.
abbrev pub percent : Floats → Server → ℤ
percent f s = f.to_int (f.mul (f.div s.load s.maxl) float_hundred)

abbrev pub has_load : Floats → Server → Bool
has_load f s = not (f.le s.load float_zero || f.le s.maxl float_zero)

pub member_load : Floats → Server → Server
member_load f s = record s { e_load = if has_load f s then percent f s else pos 0 }

-- A clone with load 0 is not excepted.
pub clone_load : Floats → Server → Server
clone_load f s = record s {
  e_load = if f.lt s.load float_zero || f.le s.maxl float_zero then pos 0 else percent f s;
}

-- The sums over the members that have a load, in the order of the loop.
pub sum_loads : Floats → (Server → ℕ) → (ℕ → Server) → ℕ → ℕ
sum_loads f value slots n =
    for_range n 0 (λ i total. if has_load f (slots i) then f.add total (value (slots i)) else total)
      float_zero

-- Every server of an array below `n`.
pub each_below : (Server → Server) → ℕ → (ℕ → Server) → ℕ → Server
each_below g n slots = for_range n 0 (λ i c. update c i (g (c i))) slots

pub calc_effective_load : Floats → Balancer → Balancer
calc_effective_load f b =
    let total = sum_loads f (λ s. s.load) b.members b.nmembers in
    let most = sum_loads f (λ s. s.maxl) b.members b.nmembers in
    record b {
      members = each_below (member_load f) b.nmembers b.members;
      clones = each_below (clone_load f) b.nclones b.clones;
      overall_load =
          if f.lt float_zero total
          then f.to_int (f.mul (f.div total most) float_hundred)
          else b.overall_load;
    }

-- All servers are asked for their load.
pub ask_servers : (ℕ → SnmpAnswer) → (ℕ → SnmpAnswer) → Balancer → Balancer
ask_servers members clones b = record b {
  members =
      for_range b.nmembers 0 (λ i c. update c i (check_server_snmp (members i) (c i))) b.members;
  clones = for_range b.nclones 0 (λ i c. update c i (check_server_snmp (clones i) (c i))) b.clones;
}
