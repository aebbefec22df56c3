-- ===== src/Config/Range/File.antt =====
-- The whole configuration file keeps the balancer sound, and what the first pass finds for the log.
use octopuslb.Base.{
  ℕ, ◌≡◌, ◌≤ℤ◌, Bool, true, false, ◌&&◌, ◌||◌, not, Option, none, some, List, [], ◌∷◌, refl, pos,
  arith, if_split, Option-cases, inl, inr, leb_ℤ, if◌then◌else◌,
}
use octopuslb.Balancer.{Balancer}
use octopuslb.Text.{starts_with, codes, strtol}
use octopuslb.Text.Lines.{fgets_lines}
use octopuslb.Config.{
  Config, Options, Library, Reading, reads, exits, fault, after, given, when_directive, read_int,
}
use octopuslb.Config.File.{
  tokens, in_section, in_file, parse_tokens, parse_line, parse_lines, parse_config_file, Logging,
  set_log_file, set_debug_level, log_line, log_lines, open_log, initialize_logging,
}
use octopuslb.Config.Range.{
  Ranges, Idle, Sound, Kept, none_left, ◌&◌, after-Kept, chain-Kept, require-Kept, when-Kept,
}
use octopuslb.Config.Range.Numbers.{balancer_directives-Keeps}
use octopuslb.Config.Range.Servers.{server_directives-Keeps, begin_section-Kept, end_section-Kept}

module _ (lib : Library) where
  in_section-Kept :
      (directive : List ℕ) (value : Option (List ℕ)) (c : Config)
      → Sound c
      → Kept Sound (in_section lib directive value c)
  in_section-Kept directive value c h =
      if_split (Kept Sound) c.section.in_server_section _ _
        (λ e. chain-Kept Sound c (server_directives-Keeps lib directive value) h) (λ e. h)

  in_file-Kept :
      (directive : List ℕ) (value : Option (List ℕ)) (c : Config)
      → Sound c
      → Kept Sound (in_file lib directive value c)
  in_file-Kept directive value c h =
      if_split (Kept Sound) (starts_with directive (codes "[/")) _ _ (λ e. end_section-Kept lib c h)
        (λ e.
          if_split (Kept Sound) (starts_with directive (codes "[")) _ _
            (λ o. begin_section-Kept directive c h)
            (λ o. chain-Kept Sound c (balancer_directives-Keeps lib directive value) h))

  parse_tokens-Kept :
      (t : Option (List ℕ) × Option (List ℕ)) (c : Config)
      → Sound c
      → Kept Sound (parse_tokens lib t c)
  parse_tokens-Kept (none, value) c h = tt
  parse_tokens-Kept (some directive, value) c h =
      after-Kept Sound (in_section lib directive value c) _ (in_section-Kept directive value c h)
        (in_file-Kept directive value)

  parse_line-Kept : (line : List ℕ) (c : Config) → Sound c → Kept Sound (parse_line lib line c)
  unfolding parse_line
  parse_line-Kept line c h = parse_tokens-Kept (tokens line) c h

  parse_lines-Kept :
      (lines : List (List ℕ)) (c : Config) → Sound c → Kept Sound (parse_lines lib lines c)
  unfolding parse_lines
  parse_lines-Kept [] c h = h
  parse_lines-Kept (line ∷ lines) c h =
      after-Kept Sound (parse_line lib line c) (parse_lines lib lines) (parse_line-Kept line c h)
        (parse_lines-Kept lines)

-- Whatever the file says, what lies on the stack and what the library functions return: if the
-- parsing comes to its end, the rebalancing threshold and size are from 0 to 100, the interval, the
-- session limit and the descriptor limit are not negative, the other checked numbers are in their
-- ranges, both arrays of servers are well-formed with no connection counted, and every server has a
-- port from 1 to 65535, provided that all this held before.
pub parse_config_file-Kept :
    (lib : Library) (file : Option (List ℕ)) (ip : ℕ) (name : List ℕ) (o : Options) (b : Balancer)
    → Ranges b.settings o (pos 80)
    → Idle b.members b.nmembers
    → Idle b.clones b.nclones
    → Kept Sound (parse_config_file lib file ip name o b)
unfolding parse_config_file
parse_config_file-Kept lib none ip name o b ranges members clones = tt
parse_config_file-Kept lib (some file) ip name o b ranges members clones =
    parse_lines-Kept lib (fgets_lines 1000 file) _ (ranges, members, clones)

-- The debug level is one of the seven, or as it was.
abbrev Leveled : Logging → Logging → Type 0
Leveled l r =
    (r.debug_level_override ≡ l.debug_level_override)
    × (l.debug_level_override ≡ true → r.debug_level ≡ l.debug_level)
    × ((pos 0 ≤ℤ l.debug_level) × (l.debug_level ≤ℤ pos 6)
        → (pos 0 ≤ℤ r.debug_level) × (r.debug_level ≤ℤ pos 6))

module _ (memory : Bool) (start : Logging) where
  set_log_file-Leveled :
      (value : List ℕ) (l : Logging)
      → Leveled start l
      → Kept (Leveled start) (set_log_file memory value l)
  unfolding set_log_file
  set_log_file-Leveled value l h = require-Kept (Leveled start) memory _ (λ m. h)

  set_debug_level-Leveled :
      (value : List ℕ) (l : Logging)
      → l.debug_level_override ≡ false
      → Leveled start l
      → Kept (Leveled start) (set_debug_level value l)
  unfolding set_debug_level
  set_debug_level-Leveled value l off h =
      require-Kept (Leveled start) (not (l.errno || (strtol 10 value).erange)) _ (λ e.
        require-Kept (Leveled start)
          (leb_ℤ (pos 0) (read_int 10 value) && leb_ℤ (read_int 10 value) (pos 6)) _
          (λ ok. (h.0, λ on. cc (h.0, off, on), λ before. ground arith)))

  level_directive-Leveled :
      (directive : List ℕ) (value : Option (List ℕ)) (l : Logging)
      → Leveled start l
      → Kept (Leveled start) (
          if l.debug_level_override
          then reads l
          else when_directive (codes "debug_level") directive value set_debug_level l)
  level_directive-Leveled directive value l h =
      if_split (Kept (Leveled start)) l.debug_level_override _ _ (λ on. h)
        (λ off.
          if_split (Kept (Leveled start)) (starts_with directive (codes "debug_level")) _ (reads l)
            (λ e. elim value as (λ v. Kept (Leveled start) (given v set_debug_level l)) [
              | none ↦ tt
              | some v ↦ set_debug_level-Leveled v l off h
            ])
            (λ e. h))

  log_line-Leveled :
      (line : List ℕ) (l : Logging)
      → Leveled start l
      → Kept (Leveled start) (log_line memory line l)
  unfolding log_line
  log_line-Leveled line l h = elim (Option-cases (tokens line).0) [
    | inl e ↦ rw (Kept, e) tt
    | inr (directive, e) ↦
        rw (Kept, e)
          (chain-Kept (Leveled start) l
            (when-Kept (Leveled start) _ directive (tokens line).1 _ set_log_file-Leveled
              & level_directive-Leveled directive (tokens line).1
              & none_left)
            h)
  ]

  log_lines-Leveled :
      (lines : List (List ℕ)) (l : Logging)
      → Leveled start l
      → Kept (Leveled start) (log_lines memory lines l)
  unfolding log_lines
  log_lines-Leveled [] l h = h
  log_lines-Leveled (line ∷ lines) l h =
      after-Kept (Leveled start) (log_line memory line l) (log_lines memory lines)
        (log_line-Leveled line l h) (log_lines-Leveled lines)

-- The log that is open at the end of `initialize_logging`.
abbrev pub Opened : (List ℕ → Bool) → Logging → Logging → Type 0
Opened opens l r =
    ((path : List ℕ) × (r.log_file_path ≡ some path) × (opens path ≡ true))
    × (l.debug_level_override ≡ true → r.debug_level ≡ l.debug_level)
    × ((pos 0 ≤ℤ l.debug_level) × (l.debug_level ≤ℤ pos 6)
        → (pos 0 ≤ℤ r.debug_level) × (r.debug_level ≤ℤ pos 6))

open_log-Opened :
    (opens : List ℕ → Bool) (l r : Logging) → Leveled l r → Kept (Opened opens l) (open_log opens r)
open_log-Opened opens l r h = elim (Option-cases r.log_file_path) [
  | inl e ↦ rw (Kept, e) tt
  | inr (path, e) ↦
      rw (Kept, e)
        (if_split (Kept (Opened opens l)) (opens path) _ _ (λ o. ((path, e, o), h.1, h.2))
          (λ o. tt))
]

after-Opened :
    (opens : List ℕ → Bool) (l : Logging) (r : Reading Logging)
    → Kept (Leveled l) r
    → Kept (Opened opens l) (after r (open_log opens))
after-Opened opens l (reads r) h = open_log-Opened opens l r h
after-Opened opens l exits h = tt
after-Opened opens l fault h = tt

-- Whatever the file says: if `initialize_logging` comes to its end, a log file was named and could
-- be opened, a debug level of the command line is unchanged, and the level is from 0 to 6 if it was
-- before.
pub initialize_logging-Opened :
    (memory : Bool) (opens : List ℕ → Bool) (file : Option (List ℕ)) (l : Logging)
    → Kept (Opened opens l) (initialize_logging memory opens file l)
unfolding initialize_logging
initialize_logging-Opened memory opens none l = tt
initialize_logging-Opened memory opens (some file) l =
    after-Opened opens l (log_lines memory (fgets_lines 100 file) (record l { errno = false })) (
      log_lines-Leveled memory l (fgets_lines 100 file) (record l { errno = false })
        (refl, λ on. refl, λ before. before))
