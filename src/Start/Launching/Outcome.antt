-- ===== src/Start/Launching/Outcome.antt =====
-- What the start of the process in src/octopus.c establishes for the main loop.
use octopuslb.Base.{
  ◌≡◌, ◌≤ℤ◌, Option, none, some, refl, ℤ, pos, arith, Option-cases, inl, inr, subst, sym,
}
use octopuslb.Balancer.{Balancer}
use octopuslb.Loop.{World}
use octopuslb.Loop.Invariant.{IsSound}
use octopuslb.Config.{Config, Library, Reading, reads, exits, fault, after}
use octopuslb.Config.File.{Logging, initialize_logging, parse_config_file}
use octopuslb.Config.Range.{Ranges, Idle, Sound, Kept}
use octopuslb.Config.Range.File.{parse_config_file-Kept}
use octopuslb.Start.{
  initialize_balancer, initialize_fds, initialize_sessions, limit_sessions, supportable_sessions,
}
use octopuslb.Start.Outcome.{initialize_sessions-IsSound}
use octopuslb.Start.Launching.{initial_options, Launch, serve, startup, first_logging}

pub initialize_balancer-Ranges :
    (level : ℤ) → Ranges (initialize_balancer level).settings initial_options (pos 80)
unfolding initialize_balancer
initialize_balancer-Ranges level = omega arith

-- No slot is in use.
pub initialize_balancer-Idle :
    (level : ℤ)
    → Idle (initialize_balancer level).members (initialize_balancer level).nmembers
      × Idle (initialize_balancer level).clones (initialize_balancer level).nclones
unfolding initialize_balancer
initialize_balancer-Idle level = (
  record {
    well_formed = record {
      in_bounds = omega arith;
      beyond = λ i h. refl;
      named = λ i h. absurd (h refl);
    };
    unconnected = λ i. refl;
    port_lo = λ i h. absurd (h refl);
    port_hi = λ i h. absurd (h refl);
  },
  record {
    well_formed = record {
      in_bounds = omega arith;
      beyond = λ i h. refl;
      named = λ i h. absurd (h refl);
    };
    unconnected = λ i. refl;
    port_lo = λ i h. absurd (h refl);
    port_hi = λ i h. absurd (h refl);
  },
)

-- A state that the main loop can start from.
pub record Startable (w : World) : Type 0 where
  pub sound : IsSound w
  pub members : Idle w.process.balancer.members w.process.balancer.nmembers
  pub clones : Idle w.process.balancer.clones w.process.balancer.nclones
  pub enough : w.process.balancer.session_limit ≤ℤ supportable_sessions w.process.balancer

initialize_fds_servers :
    (d : Option ℤ) (b : Balancer)
    → initialize_fds d b ≡ record b { settings = (initialize_fds d b).settings }
unfolding initialize_fds
initialize_fds_servers none b = refl
initialize_fds_servers (some limit) b = refl

limit_sessions_servers :
    (b : Balancer) → limit_sessions b ≡ record b { settings = (limit_sessions b).settings }
unfolding limit_sessions
limit_sessions_servers b = ground arith

limit_sessions_fds : (b : Balancer) → (limit_sessions b).fd_limit ≡ b.fd_limit
unfolding limit_sessions
limit_sessions_fds b = ground arith

abbrev sessions_of : Launch → Balancer → World
sessions_of l b = initialize_sessions l.overlap l.session_memory l.queue_memory b

initialize_sessions-Startable :
    (l : Launch) (b : Balancer)
    → Idle b.members b.nmembers
    → Idle b.clones b.nclones
    → Startable (sessions_of l b)
unfolding initialize_sessions
initialize_sessions-Startable l b ms cs =
    let r =
      initialize_sessions-IsSound l.overlap l.session_memory l.queue_memory b ms.unconnected
        cs.unconnected in
    let same = sym (limit_sessions_servers b) in
    record {
      sound = r.0;
      members = subst (λ (c : Balancer). Idle c.members c.nmembers) same ms;
      clones = subst (λ (c : Balancer). Idle c.clones c.nclones) same cs;
      enough = rw (limit_sessions_fds b) r.2;
    }

serve-Startable : (l : Launch) (c : Config) → Sound c → Kept Startable (serve l c)
unfolding serve
serve-Startable l c (ranges, ms, cs) = elim (Option-cases c.options.shm_run_dir) [
  | inl e ↦ rw (Kept, e) tt
  | inr (dir, e) ↦
      rw (Kept, e)
        (let same = sym (initialize_fds_servers l.descriptors c.balancer) in
          initialize_sessions-Startable l (initialize_fds l.descriptors c.balancer)
            (subst (λ (b : Balancer). Idle b.members b.nmembers) same ms)
            (subst (λ (b : Balancer). Idle b.clones b.nclones) same cs))
]

then-Startable :
    (l : Launch) (r : Reading Config) → Kept Sound r → Kept Startable (after r (serve l))
then-Startable l (reads c) h = serve-Startable l c h
then-Startable l exits h = tt
then-Startable l fault h = tt

after-Startable :
    (r : Reading Logging) (f : Logging → Reading World)
    → ((g : Logging) → Kept Startable (f g))
    → Kept Startable (after r f)
after-Startable (reads g) f h = h g
after-Startable exits f h = tt
after-Startable fault f h = tt

-- Whatever the command line, the configuration file and the system say: if the start comes to the
-- main loop, its state is sound, no connection is counted, every server in use has a port from 1 to
-- 65535 and a place of its own, and there are no more sessions than a third of the descriptors,
-- less four.
pub startup-Startable : (lib : Library) (l : Launch) → Kept Startable (startup lib l)
unfolding startup
startup-Startable lib l =
    after-Startable (initialize_logging lib.memory l.opens l.file (first_logging l)) _ (λ g.
      let idle = initialize_balancer-Idle g.debug_level in
      then-Startable l
        (parse_config_file lib l.file l.stack_ip l.stack_name initial_options
          (initialize_balancer g.debug_level))
        (parse_config_file-Kept lib l.file l.stack_ip l.stack_name initial_options
          (initialize_balancer g.debug_level) (initialize_balancer-Ranges g.debug_level) idle.0
          idle.1))
