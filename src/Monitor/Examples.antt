-- ===== src/Monitor/Examples.antt =====
-- Rounds of the monitor (src/monitor.c) over the sample balancer.
use octopuslb.Base.{
  ◌<◌, ◌≤◌, ◌≡◌, ◌↔◌, refl, true, false, ◌&&◌, ◌||◌, [], ◌∷◌, arith, ltb, if◌then◌else◌, pos,
  update,
}
use octopuslb.Balancer.{Status, Balancer, zeroed}
use octopuslb.Balancer.Examples.{sample, sample-IsWellFormed}
use octopuslb.Select.Examples.{floats, nothing_hashed}
use octopuslb.Monitor.Check.{Probe, variables}
use octopuslb.Monitor.Load.{calc_effective_load, percent, has_load}
use octopuslb.Monitor.Load.Outcome.{calc_effective_load_lem}
use octopuslb.Monitor.Delete.{is_leaving, handle_delete_servers}
use octopuslb.Monitor.Delete.Outcome.{handle_delete_servers_lem}
use octopuslb.Monitor.Round.{Health, run_rounds}
use octopuslb.Monitor.Round.Invariant.{run_rounds-IsMonitored}
use octopuslb.Monitor.Shape.{IsMonitored}
use octopuslb.Monitor.Sorting.{insertion_sort, insertion_sort-IsSort}

pub sample-IsMonitored : IsMonitored sample
sample-IsMonitored = record {
  well_formed = sample-IsWellFormed;
  accounted = nothing_hashed;
  mode = λ h. (λ e. (0, omega arith, refl), λ e. refl);
}

-- A server that refuses connections.
abbrev refusing : Probe
refusing = record {
  socket = true;
  nonblock = true;
  nodelay = true;
  connecting = true;
  ready = true;
  read_failed = true;
  err = false;
}

abbrev health : Health
health = record {
  member_probe = λ i. refusing;
  clone_probe = λ i. refusing;
  member_snmp = λ i. variables [];
  clone_snmp = λ i. variables [];
  has_password = true;
}

run_rounds-IsMonitored_example :
    IsMonitored (run_rounds floats insertion_sort (health ∷ health ∷ []) (0, sample)).1
run_rounds-IsMonitored_example =
    run_rounds-IsMonitored floats insertion_sort (health ∷ health ∷ []) 0 sample
      insertion_sort-IsSort sample-IsMonitored

calc_effective_load_lem_example :
    (1 < 2
      → (calc_effective_load floats sample).members 1 ≡ record (sample.members 1) {
        e_load =
            if has_load floats (sample.members 1) then percent floats (sample.members 1) else pos 0;
      })
    × (2 ≤ 1 → (calc_effective_load floats sample).members 1 ≡ sample.members 1)
    × (1 < sample.nclones
        → (calc_effective_load floats sample).clones 1 ≡ record (sample.clones 1) {
          e_load =
              if floats.lt (sample.clones 1).load 0 || floats.le (sample.clones 1).maxl 0
              then pos 0
              else percent floats (sample.clones 1);
        })
    × (sample.nclones ≤ 1 → (calc_effective_load floats sample).clones 1 ≡ sample.clones 1)
calc_effective_load_lem_example = calc_effective_load_lem floats sample 1

-- Member 0 is deleted and has no connections.
abbrev leaving : Balancer
leaving = record sample {
  members =
      update sample.members 0 (record (sample.members 0) { status = Status.deleted; c = pos 0 });
  hash_table = update sample.hash_table 0 (pos 0);
}

handle_delete_servers_lem_example :
    ((handle_delete_servers leaving).members 0
      ≡ (if ltb 0 2 && is_leaving (leaving.members 0) then zeroed else leaving.members 0))
    × (((handle_delete_servers leaving).hash_table 0 ≡ pos 0)
        ↔ ((leaving.hash_table 0 ≡ pos 0) × (ltb 0 2 && is_leaving (leaving.members 0) ≡ false)))
handle_delete_servers_lem_example = handle_delete_servers_lem leaving 0 0
