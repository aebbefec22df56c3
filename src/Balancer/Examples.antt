-- ===== src/Balancer/Examples.antt =====
-- A balancer with two members and a clone, and runs of `create_balancer_server` and
-- `set_cloned_state` (src/octopus.h) on it.
use octopuslb.Base.{ℕ, ◌≡◌, ◌≢◌, ◌⊎◌, ◌↔◌, refl, true, false, [], pos, arith, update, float_zero}
use octopuslb.Balancer.{
  Status, Server, Balancer, Settings, zeroed, lc, on, off, relaxed, snmp_disabled, hash_val_free,
  max_servers, IsWellFormed,
}
use octopuslb.Balancer.Create.{
  created, out_of_bounds, Request, new_server, place, create_balancer_server, InUse, PlacedAt,
  first_free,
}
use octopuslb.Balancer.Create.Outcome.{create_balancer_server_lem}
use octopuslb.Balancer.Cloning.{set_cloned_state, HasClone, set_cloned_state_lem}

abbrev pub sample_server : ℕ → ℕ → Server
sample_server i connections = record zeroed {
  id = i;
  status = Status.enabled;
  standby = false;
  port = pos 80;
  sin_port = 80;
  c = pos connections;
  maxc = pos 10;
}

abbrev pub sample_settings : Settings
sample_settings = record {
  monitor_interval = 5;
  session_weight = float_zero;
  hash_rebalance_threshold = pos 50;
  hash_rebalance_size = pos 10;
  hash_rebalance_interval = pos 60;
  default_maxc = pos 512;
  default_maxl = float_zero;
  fd_limit = pos 64;
  session_limit = pos 8;
  debug_level = pos 0;
}

-- Member 0 has three connections and member 1 has one.
abbrev pub sample : Balancer
sample = record {
  hash_table = λ j. hash_val_free;
  nmembers = 2;
  nclones = 1;
  members = update (update (λ i. zeroed) 0 (sample_server 0 3)) 1 (sample_server 1 1);
  clones = update (λ i. zeroed) 0 (sample_server 0 0);
  algorithm = lc;
  clone_mode = on;
  overload_mode = relaxed;
  snmp_status = snmp_disabled;
  overall_load = pos 0;
  settings = sample_settings;
}

pub sample-IsWellFormed : IsWellFormed sample
sample-IsWellFormed = record {
  members_ok = record {
    in_bounds = omega arith;
    beyond = λ i h. ground arith;
    named = λ i h. ground arith;
  };
  clones_ok = record {
    in_bounds = omega arith;
    beyond = λ i h. ground arith;
    named = λ i h. ground arith;
  };
}

abbrev request : Request
request = record {
  clone = false;
  name = [];
  status = Status.enabled;
  standby = false;
  port = pos 8080;
  ip = 0;
  maxc = pos 10;
  maxl = float_zero;
}

abbrev widened : Balancer
widened = record sample {
  nmembers = 3;
  members = update sample.members 2 (record (new_server request) { id = 2 });
}

widened_created : create_balancer_server true request sample ≡ created widened
unfolding create_balancer_server place first_free new_server
widened_created = refl

create_balancer_server_lem_example :
    (request.clone ≡ false
      → ((slots : ℕ → Server) × (n k : ℕ) × (create_balancer_server true request sample
            ≡ created (record sample { members = slots; nmembers = n }))
          × PlacedAt sample.members 2 (new_server request) slots n k)
        ⊎ ((create_balancer_server true request sample ≡ out_of_bounds)
            × InUse sample.members max_servers))
    × (request.clone ≡ true
        → ((slots : ℕ → Server) × (n k : ℕ) × (create_balancer_server true request sample
              ≡ created (record sample { clones = slots; nclones = n }))
            × PlacedAt sample.clones 1 (new_server request) slots n k)
          ⊎ ((create_balancer_server true request sample ≡ out_of_bounds)
              × InUse sample.clones max_servers))
create_balancer_server_lem_example =
    create_balancer_server_lem request sample sample-IsWellFormed (λ h. absurd (cc))

set_cloned_state_lem_example :
    (sample.clone_mode ≢ off → ((set_cloned_state sample).clone_mode ≡ on) ↔ HasClone sample)
    × (sample.clone_mode ≡ off → set_cloned_state sample ≡ sample)
    × (set_cloned_state sample
        ≡ record sample { clone_mode = (set_cloned_state sample).clone_mode })
set_cloned_state_lem_example = set_cloned_state_lem sample
