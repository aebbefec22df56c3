-- ===== src/Start/Examples.antt =====
-- Starts of the process (src/init.c) with sample limits.
use octopuslb.Base.{ℕ, ◌≡◌, refl, some, pos}
use octopuslb.Balancer.{Balancer}
use octopuslb.Start.{initialize_balancer, initialize_fds}

-- With 1024 descriptors.
abbrev started : Balancer
started = initialize_fds (some (pos 1024)) (initialize_balancer (pos 0))

no_members : (m : ℕ) → (started.members m).c ≡ pos 0
unfolding initialize_fds initialize_balancer
no_members m = refl

no_clones : (m : ℕ) → (started.clones m).c ≡ pos 0
unfolding initialize_fds initialize_balancer
no_clones m = refl
