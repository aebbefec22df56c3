-- ===== src/Monitor/Round.antt =====
-- One round of the loop in `initialize_monitor` of src/monitor.c.
pub mod Invariant
use octopuslb.Base.{
  ℕ, ◌+◌, ◌*◌, ◌%◌, ◌/◌, ◌^◌, Bool, true, false, ◌&&◌, List, [], ◌∷◌, if◌then◌else◌, ◌==◌, ℤ, pos,
  pos_part, ltb_ℤ, Floats,
}
use octopuslb.Balancer.{Server, Balancer, Settings, SnmpStatus, snmp_enabled, Algorithm, hash}
use octopuslb.Monitor.Check.{Probe, SnmpAnswer, check_servers}
use octopuslb.Monitor.Load.{calc_effective_load, ask_servers}
use octopuslb.Monitor.Delete.{handle_delete_servers}
use octopuslb.Monitor.Rebalance.{rebalance_hash}

-- What the checks and the queries of one round answer, by the index of the server; and whether the
-- SNMP password is set.
pub record Health : Type 0 where
  pub member_probe : ℕ → Probe
  pub clone_probe : ℕ → Probe
  pub member_snmp : ℕ → SnmpAnswer
  pub clone_snmp : ℕ → SnmpAnswer
  pub has_password : Bool

abbrev pub snmp_on : SnmpStatus → Bool
snmp_on snmp_enabled = true
snmp_on _ = false

abbrev pub is_hash : Algorithm → Bool
is_hash hash = true
is_hash _ = false

-- The interval of the rebalancing is at least that of the monitor.
pub raise_interval : ℕ → Balancer → Balancer
raise_interval interval b =
    if ltb_ℤ b.hash_rebalance_interval (pos interval)
    then record b { settings = record (b.settings) { hash_rebalance_interval = pos interval } }
    else b

-- Rebalancing is for the algorithm HASH, with its three settings above 0.
pub wants_rebalance : Balancer → Bool
wants_rebalance b =
    is_hash b.algorithm
    && ltb_ℤ (pos 0) b.hash_rebalance_interval
    && ltb_ℤ (pos 0) b.hash_rebalance_threshold
    && ltb_ℤ (pos 0) b.hash_rebalance_size

-- `j` counts the rounds since the last rebalancing.
pub count_round : (List Server → List Server) → ℕ → ℕ → Balancer → ℕ × Balancer
count_round sort interval j b =
    let next = (j + 1) % 2 ^ 16 in
    if next % (pos_part b.hash_rebalance_interval / interval) == 0
    then (0, rebalance_hash sort b)
    else (next, b)

pub rebalance_round : (List Server → List Server) → ℕ → ℕ × Balancer → ℕ × Balancer
rebalance_round sort interval (j, b) =
    if wants_rebalance b then count_round sort interval j (raise_interval interval b) else (j, b)

-- Built with SNMP. With an interval of 0 the monitor only sleeps.
pub round : Floats → (List Server → List Server) → Health → ℕ × Balancer → ℕ × Balancer
round f sort h (j, b) =
    if b.monitor_interval == 0
    then (j, b)
    else (let b' = check_servers h.member_probe h.clone_probe (handle_delete_servers b) in
        if snmp_on b.snmp_status && h.has_password
        then rebalance_round sort b.monitor_interval
            (j, calc_effective_load f (ask_servers h.member_snmp h.clone_snmp b'))
        else (j, b'))

-- Rounds one after another, each with its own answers.
pub run_rounds : Floats → (List Server → List Server) → List Health → ℕ × Balancer → ℕ × Balancer
run_rounds f sort [] s = s
run_rounds f sort (h ∷ hs) s = run_rounds f sort hs (round f sort h s)
