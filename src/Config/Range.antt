-- ===== src/Config/Range.antt =====
-- What holds of the balancer and the settings after any number of lines of the configuration file.
pub mod Servers
pub mod Numbers
pub mod File
use octopuslb.Base.{
  ℕ, ◌<◌, ◌≡◌, ◌≢◌, ◌≤ℤ◌, ◌<ℤ◌, Bool, true, false, Option, none, some, List, [], ◌∷◌, refl, ℤ, pos,
  if◌then◌else◌, if_split,
}
use octopuslb.Balancer.{Server, Balancer, Settings, Status, WellFormed}
use octopuslb.Text.{starts_with}
use octopuslb.Config.{
  Config, Options, Reading, reads, exits, fault, after, chain, given, when_directive, require,
}

-- The numbers that the parser checks, with the port of the section.
pub record Ranges (s : Settings) (o : Options) (port : ℤ) : Type 0 where
  pub threshold_lo : pos 0 ≤ℤ s.hash_rebalance_threshold
  pub threshold_hi : s.hash_rebalance_threshold ≤ℤ pos 100
  pub size_lo : pos 0 ≤ℤ s.hash_rebalance_size
  pub size_hi : s.hash_rebalance_size ≤ℤ pos 100
  pub interval : pos 0 ≤ℤ s.hash_rebalance_interval
  pub monitor : s.monitor_interval < 65536
  pub sessions : pos 0 ≤ℤ s.session_limit
  pub fds : pos 0 ≤ℤ s.fd_limit
  pub perms_lo : pos 0 <ℤ o.shm_perms
  pub perms_hi : o.shm_perms <ℤ pos 777
  pub timeout : pos 0 <ℤ o.connect_timeout
  pub syslog_lo : pos 0 ≤ℤ o.use_syslog
  pub syslog_hi : o.use_syslog ≤ℤ pos 1
  pub listen : pos 0 <ℤ o.binding_port
  pub port_lo : pos 0 <ℤ port
  pub port_hi : port <ℤ pos 65536

-- An array of servers before any connection: well-formed, no connection is counted, and each server
-- in use has a port.
pub record Idle (slots : ℕ → Server) (n : ℕ) : Type 0 where
  pub well_formed : WellFormed slots n
  pub unconnected : (i : ℕ) → (slots i).c ≡ pos 0
  pub port_lo : (i : ℕ) → (slots i).status ≢ Status.free → pos 0 <ℤ (slots i).port
  pub port_hi : (i : ℕ) → (slots i).status ≢ Status.free → (slots i).port <ℤ pos 65536

abbrev pub Sound : Config → Type 0
Sound c =
    Ranges c.balancer.settings c.options c.section.server_port
    × Idle c.balancer.members c.balancer.nmembers
    × Idle c.balancer.clones c.balancer.nclones

-- What holds if the parsing goes on.
abbrev pub Kept : {A : Type 0} → (A → Type 0) → Reading A → Type 0
Kept P (reads c) = P c
Kept P exits = Unit
Kept P fault = Unit

-- Each function of the list keeps the predicate.
infixr 20 ◌&◌
pub data Keeps {A : Type 0} (P : A → Type 0) : List (A → Reading A) → Type 0 where
  none_left : Keeps P []
  ◌&◌ :
      {f : A → Reading A} {fs : List (A → Reading A)}
      → ((c : A) → P c → Kept P (f c))
      → Keeps P fs
      → Keeps P (f ∷ fs)

module _ {A : Type 0} (P : A → Type 0) where
  pub require-Kept :
      (test : Bool) (r : Reading A) → (test ≡ true → Kept P r) → Kept P (require test r)
  require-Kept true r h = h refl
  require-Kept false r h = tt

  pub after-Kept :
      (r : Reading A) (f : A → Reading A)
      → Kept P r
      → ((c : A) → P c → Kept P (f c))
      → Kept P (after r f)
  after-Kept (reads c) f h k = k c h
  after-Kept exits f h k = tt
  after-Kept fault f h k = tt

  pub chain-Kept : {fs : List (A → Reading A)} (c : A) → Keeps P fs → P c → Kept P (chain fs c)
  chain-Kept c none_left h = h
  chain-Kept c (◌&◌ {f} {fs} k ks) h = after-Kept (f c) (chain fs) (k c h) (λ d. chain-Kept d ks)

  given-Kept :
      (value : Option (List ℕ)) (set : List ℕ → A → Reading A) (c : A)
      → ((v : List ℕ) (d : A) → P d → Kept P (set v d))
      → P c
      → Kept P (given value set c)
  given-Kept none set c k h = tt
  given-Kept (some v) set c k h = k v c h

  pub when-Kept :
      (key directive : List ℕ) (value : Option (List ℕ)) (set : List ℕ → A → Reading A)
      → ((v : List ℕ) (d : A) → P d → Kept P (set v d))
      → (c : A) → P c
      → Kept P (when_directive key directive value set c)
  when-Kept key directive value set k c h =
      if_split (Kept P) (starts_with directive key) (given value set c) (reads c)
        (λ e. given-Kept value set c k h) (λ e. h)
