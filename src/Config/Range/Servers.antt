-- ===== src/Config/Range/Servers.antt =====
-- The directives of a server's section, and its begin and end, keep the balancer sound.
use octopuslb.Base.{
  ℕ, ◌-◌, ◌≡◌, ◌<ℤ◌, ◌&&◌, Option, none, some, List, refl, pos, arith, if_split, Option-cases, inl,
  inr, leb_ℤ, ltb_ℤ, leb, ltb, ◌==◌, not, float_zero, to_ushort, length,
}
use octopuslb.Balancer.{Server, servername_max_length}
use octopuslb.Balancer.Create.{
  Created, created, no_memory, invalid_port, out_of_bounds, create_balancer_server, place,
  place_lem, PlacedAt, PlacedAt-WellFormed, new_server,
}
use octopuslb.Text.{starts_with, strtol, codes}
use octopuslb.Config.{Config, Library, read_int}
use octopuslb.Config.Server.{
  set_port, set_maxc, set_maxl, set_status, set_standby, set_ip, set_clone, pass_over,
  server_directives, request_of, next_section, end_section, begin_section,
}
use octopuslb.Config.Range.{
  Ranges, Idle, Sound, Kept, Keeps, none_left, ◌&◌, require-Kept, when-Kept,
}
use octopuslb.Config.Range.Numbers.{Sure}

set_port-Sure : Sure set_port
unfolding set_port
set_port-Sure value c h = require-Kept Sound (not (strtol 10 value).erange) _ (λ e.
    require-Kept Sound (ltb_ℤ (pos 0) (read_int 10 value) && ltb_ℤ (read_int 10 value) (pos 65536))
      _ (λ ok. (ground arith, h.1, h.2)))

set_maxc-Sure : Sure set_maxc
unfolding set_maxc
set_maxc-Sure value c h =
    require-Kept Sound (not (strtol 10 value).erange) _
      (λ e. require-Kept Sound (leb_ℤ (pos 0) (read_int 10 value)) _ (λ ok. h))

set_maxl-Sure : (lib : Library) → Sure (set_maxl lib)
unfolding set_maxl
set_maxl-Sure lib value c h =
    require-Kept Sound (lib.floats.lt float_zero (lib.atof value).0) _ (λ ok. h)

pass_over-Kept : (c : Config) → Sound c → Kept Sound (pass_over c)
pass_over-Kept c h = require-Kept Sound (not c.errno) _ (λ ok. h)

set_status-Sure : Sure set_status
unfolding set_status
set_status-Sure value c h =
    if_split (Kept Sound) (starts_with value (codes "enabled")) _ _ (λ e. h)
      (λ e.
        if_split (Kept Sound) (starts_with value (codes "disabled")) _ _ (λ e. h)
          (λ e. pass_over-Kept c h))

set_standby-Sure : Sure set_standby
unfolding set_standby
set_standby-Sure value c h =
    if_split (Kept Sound) (starts_with value (codes "true")) _ _ (λ e. h)
      (λ e.
        if_split (Kept Sound) (starts_with value (codes "false")) _ _ (λ e. h)
          (λ e. pass_over-Kept c h))

set_ip-Sure : (lib : Library) → Sure (set_ip lib)
unfolding set_ip starts_with
set_ip-Sure lib value c h = elim (Option-cases (lib.inet_aton value)) [
  | inl e ↦ rw (Kept, e) tt
  | inr (ip, e) ↦ rw (Kept, e) h
]

set_clone-Sure : Sure set_clone
unfolding set_clone
set_clone-Sure value c h =
    if_split (Kept Sound) (starts_with value (codes "true")) _ _ (λ e. h)
      (λ e.
        if_split (Kept Sound) (starts_with value (codes "false")) _ _ (λ e. h)
          (λ e. pass_over-Kept c h))

pub server_directives-Keeps :
    (lib : Library) (directive : List ℕ) (value : Option (List ℕ))
    → Keeps Sound (server_directives lib directive value)
unfolding server_directives
server_directives-Keeps lib directive value =
    when-Kept Sound _ directive value _ set_port-Sure
    & when-Kept Sound _ directive value _ set_maxc-Sure
    & when-Kept Sound _ directive value _ (set_maxl-Sure lib)
    & when-Kept Sound _ directive value _ set_status-Sure
    & when-Kept Sound _ directive value _ set_standby-Sure
    & when-Kept Sound _ directive value _ (set_ip-Sure lib)
    & when-Kept Sound _ directive value _ set_clone-Sure
    & none_left

pub begin_section-Kept :
    (directive : List ℕ) (c : Config) → Sound c → Kept Sound (begin_section directive c)
unfolding begin_section
begin_section-Kept directive c h =
    if_split (Kept Sound) (ltb (length directive) 2) _ _ (λ e. tt)
      (λ e.
        if_split (Kept Sound) (leb (length directive - 2) servername_max_length) _ _ (λ e. h)
          (λ e. tt))

-- A server whose port was checked may stand in an idle array.
PlacedAt-Idle :
    {slots : ℕ → Server} {n : ℕ} {s : Server} {slots' : ℕ → Server} {n' k : ℕ}
    → Idle slots n
    → s.c ≡ pos 0
    → pos 0 <ℤ s.port
    → s.port <ℤ pos 65536
    → PlacedAt slots n s slots' n' k
    → Idle slots' n'
PlacedAt-Idle {slots} {n} {s} {slots'} {n'} {k} idle c lo hi p = record {
  well_formed = PlacedAt-WellFormed idle.well_formed p;
  unconnected = λ i. rw p.written (ground (arith, idle.unconnected i));
  port_lo = λ i used. rw p.written (ground (arith, idle.port_lo i, rw p.written at used));
  port_hi = λ i used. rw p.written (ground (arith, idle.port_hi i, rw p.written at used));
}

module _ (c : Config) (ranges : Ranges c.balancer.settings c.options c.section.server_port) where
  reset-Ranges : Ranges c.balancer.settings c.options (pos 80)
  reset-Ranges = ground arith

  abbrev Goes : Created → Type 0
  Goes r = Kept Sound (next_section c r)

  placed_member :
      Idle c.balancer.members c.balancer.nmembers
      → Idle c.balancer.clones c.balancer.nclones
      → Goes
          (elim (place c.balancer.members c.balancer.nmembers (new_server (request_of c.section))) [
            | some (slots, n) ↦ created (record (c.balancer) { members = slots; nmembers = n })
            | none ↦ out_of_bounds
          ])
  unfolding place new_server
  placed_member members clones =
      elim (place_lem c.balancer.members c.balancer.nmembers (new_server (request_of c.section))
        members.well_formed) [
          | inl (slots, n, k, e, p) ↦
              rw e
                (reset-Ranges, PlacedAt-Idle members refl ranges.port_lo ranges.port_hi p, clones)
          | inr (e, _) ↦ rw e tt
        ]

  placed_clone :
      Idle c.balancer.members c.balancer.nmembers
      → Idle c.balancer.clones c.balancer.nclones
      → Goes
          (elim (place c.balancer.clones c.balancer.nclones (new_server (request_of c.section))) [
            | some (slots, n) ↦ created (record (c.balancer) { clones = slots; nclones = n })
            | none ↦ out_of_bounds
          ])
  unfolding place new_server
  placed_clone members clones =
      elim (place_lem c.balancer.clones c.balancer.nclones (new_server (request_of c.section))
        clones.well_formed) [
          | inl (slots, n, k, e, p) ↦
              rw e
                (reset-Ranges, members, PlacedAt-Idle clones refl ranges.port_lo ranges.port_hi p)
          | inr (e, _) ↦ rw e tt
        ]

next_section-Kept :
    (lib : Library) (c : Config)
    → Sound c
    → Kept Sound
        (next_section c (create_balancer_server lib.memory (request_of c.section) c.balancer))
unfolding create_balancer_server
next_section-Kept lib c (ranges, members, clones) =
    if_split (Goes c ranges) lib.memory _ no_memory
      (λ m.
        if_split (Goes c ranges) (to_ushort c.section.server_port == 0) invalid_port _ (λ z. tt)
          (λ z.
            if_split (Goes c ranges) c.section.server_clone _ _
              (λ t. placed_clone c ranges members clones)
              (λ t. placed_member c ranges members clones)))
      (λ m. tt)

pub end_section-Kept : (lib : Library) (c : Config) → Sound c → Kept Sound (end_section lib c)
unfolding end_section
end_section-Kept lib c h = next_section-Kept lib _ h
