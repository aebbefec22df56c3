-- ===== src/Monitor/Round/Invariant.antt =====
-- The rounds of the monitor (src/monitor.c) keep the invariant of the balancer.
use octopuslb.Base.{
  ℕ, ◌+◌, ◌%◌, ◌/◌, ◌^◌, ◌&&◌, List, [], ◌∷◌, if◌then◌else◌, if_split, ◌==◌, pos, ltb_ℤ, pos_part,
  Floats,
}
use octopuslb.Balancer.{Server, Balancer}
use octopuslb.Monitor.Check.{check_servers}
use octopuslb.Monitor.Check.Outcome.{Sound, Sound-trans, check_servers-Sound}
use octopuslb.Monitor.Load.{calc_effective_load, ask_servers}
use octopuslb.Monitor.Load.Outcome.{calc_effective_load-Sound, ask_servers-Sound}
use octopuslb.Monitor.Delete.{handle_delete_servers}
use octopuslb.Monitor.Delete.Outcome.{handle_delete_servers-IsMonitored}
use octopuslb.Monitor.Rebalance.{rebalance_hash}
use octopuslb.Monitor.Rebalance.Outcome.{IsSort, rebalance_hash-IsMonitored}
use octopuslb.Monitor.Shape.{IsMonitored, SameServers-IsWellFormed, SameServers-IsAccounted}
use octopuslb.Monitor.Round.{
  Health, snmp_on, raise_interval, wants_rebalance, count_round, rebalance_round, round, run_rounds,
}

Sound-IsMonitored : (b c : Balancer) → Sound b c → IsMonitored b → IsMonitored c
Sound-IsMonitored b c s a = record {
  well_formed = SameServers-IsWellFormed b c s.0 a.well_formed;
  accounted = SameServers-IsAccounted b c s.0 a.accounted;
  mode = s.1 a.mode;
}

raise_interval-IsMonitored :
    (interval : ℕ) (b : Balancer) → IsMonitored b → IsMonitored (raise_interval interval b)
unfolding raise_interval
raise_interval-IsMonitored interval b a =
    if_split IsMonitored (ltb_ℤ b.hash_rebalance_interval (pos interval)) _ b
      (λ h. record {
        well_formed = record {
          members_ok = a.well_formed.members_ok;
          clones_ok = a.well_formed.clones_ok;
        };
        accounted = record { exact = a.accounted.exact; entries = a.accounted.entries };
        mode = λ n. a.mode n;
      })
      (λ h. a)

count_round-IsMonitored :
    (sort : List Server → List Server) (interval j : ℕ) (b : Balancer)
    → IsSort sort
    → IsMonitored b
    → IsMonitored (count_round sort interval j b).1
unfolding count_round
count_round-IsMonitored sort interval j b q a =
    if_split (λ (s : ℕ × Balancer). IsMonitored s.1)
      ((j + 1) % 2 ^ 16 % (pos_part b.hash_rebalance_interval / interval) == 0)
      (0, rebalance_hash sort b) ((j + 1) % 2 ^ 16, b) (λ z. rebalance_hash-IsMonitored sort b q a)
      (λ z. a)

rebalance_round-IsMonitored :
    (sort : List Server → List Server) (interval j : ℕ) (b : Balancer)
    → IsSort sort
    → IsMonitored b
    → IsMonitored (rebalance_round sort interval (j, b)).1
unfolding rebalance_round
rebalance_round-IsMonitored sort interval j b q a =
    if_split (λ (s : ℕ × Balancer). IsMonitored s.1) (wants_rebalance b)
      (count_round sort interval j (raise_interval interval b)) (j, b)
      (λ h. count_round-IsMonitored sort interval j _ q (raise_interval-IsMonitored interval b a))
      (λ h. a)

round-IsMonitored :
    (f : Floats) (sort : List Server → List Server) (h : Health) (j : ℕ) (b : Balancer)
    → IsSort sort
    → IsMonitored b
    → IsMonitored (round f sort h (j, b)).1
unfolding round
round-IsMonitored f sort h j b q a =
    if_split Fine (b.monitor_interval == 0) (j, b) active (λ z. a)
      (λ z.
        if_split Fine (snmp_on b.snmp_status && h.has_password)
          (rebalance_round sort b.monitor_interval (j, calc_effective_load f asked)) (j, checked)
          (λ s. rebalance_round-IsMonitored sort b.monitor_interval j _ q measured) (λ s. after))
  where
    Fine : ℕ × Balancer → Type 0
    Fine s = IsMonitored s.1

    checked : Balancer
    checked = check_servers h.member_probe h.clone_probe (handle_delete_servers b)

    asked : Balancer
    asked = ask_servers h.member_snmp h.clone_snmp checked

    active : ℕ × Balancer
    active =
        if snmp_on b.snmp_status && h.has_password
        then rebalance_round sort b.monitor_interval (j, calc_effective_load f asked)
        else (j, checked)

    after : IsMonitored checked
    after =
        Sound-IsMonitored _ checked
          (check_servers-Sound h.member_probe h.clone_probe (handle_delete_servers b))
          (handle_delete_servers-IsMonitored b a)

    measured : IsMonitored (calc_effective_load f asked)
    measured =
        Sound-IsMonitored checked _
          (Sound-trans checked asked _ (ask_servers-Sound h.member_snmp h.clone_snmp checked)
            (calc_effective_load-Sound f asked))
          after

-- However many rounds the monitor runs and whatever the servers answer, with a sorting function as
-- `qsort` promises it: the arrays of servers stay well-formed, each usage counter is the number of
-- slots that name its member, and the mode of cloning tells whether a clone is enabled.
pub run_rounds-IsMonitored :
    (f : Floats) (sort : List Server → List Server) (hs : List Health) (j : ℕ) (b : Balancer)
    → IsSort sort
    → IsMonitored b
    → IsMonitored (run_rounds f sort hs (j, b)).1
unfolding run_rounds
run_rounds-IsMonitored f sort [] j b q a = a
run_rounds-IsMonitored f sort (h ∷ hs) j b q a =
    run_rounds-IsMonitored f sort hs _ _ q (round-IsMonitored f sort h j b q a)
