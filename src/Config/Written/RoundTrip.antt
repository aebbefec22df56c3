-- ===== src/Config/Written/RoundTrip.antt =====
-- Reading a written section back (src/config.c).
use octopuslb.Base.{
  ℕ, ◌+◌, ◌-◌, ◌<◌, ◌≡◌, refl, ap, ◌∙◌, true, false, none, List, [], ◌∷◌, ◌++◌, arith, ltb, leb,
  if◌then◌else◌, length, length-append, take,
}
use octopuslb.Balancer.{servername_max_length}
use octopuslb.Balancer.Create.{create_balancer_server}
use octopuslb.Text.{codes, starts_with}
use octopuslb.Config.{Config, Library, Reading, reads, exits, fault, after, chain, debug}
use octopuslb.Config.Server.{
  server_directives, begin_section, end_section, next_section, request_of,
}
use octopuslb.Config.File.{in_file, parse_line, parse_lines}
use octopuslb.Config.Trim.Words.{IsWord, tokens_word, take_front}
use octopuslb.Config.Written.{Described, Readable, bracketed, section_lines, asked, written}
use octopuslb.Config.Written.Lines.{
  Plain-append, debug_quiet, parse_line-tokens, clone_line, standby_line, status_line, port_line,
  maxc_line, maxl_line, ip_line,
}

bracketed-IsWord : (name : List ℕ) → IsWord name → IsWord (bracketed name)
bracketed-IsWord name w =
    ((refl, refl, Plain-append name (b']' ∷ []) w.0 (refl, refl, tt)), omega arith)

not_end :
    (name : List ℕ)
    → IsWord name
    → starts_with name (codes "/") ≡ false
    → starts_with (bracketed name) (codes "[/") ≡ false
unfolding starts_with
not_end [] w h = absurd (omega (arith, w.1))
not_end (x ∷ xs) w h = ground (arith, h)

begin_section-bracketed :
    (c : Config) (name : List ℕ)
    → c.errno ≡ false
    → length name < 17
    → begin_section (bracketed name) c
      ≡ reads (record c {
        section = record (c.section) { in_server_section = true; server_name = name };
      })
unfolding begin_section
begin_section-bracketed c name quiet fits =
    let size : length (bracketed name) ≡ length name + 2 =
      omega (arith, length-append name (b']' ∷ [])) in
    let enough : ltb (length (bracketed name)) 2 ≡ false = ground (arith, size) in
    let bytes : length (bracketed name) - 2 ≡ length name = omega (arith, size) in
    let room : leb (length (bracketed name) - 2) servername_max_length ≡ true =
      ground (arith, bytes) in
    let rest : take (length (bracketed name) - 2) (name ++ (b']' ∷ [])) ≡ name =
      ap (λ k. take k (name ++ (b']' ∷ []))) bytes ∙ take_front name (b']' ∷ []) in
    let named : List ℕ → Config = λ m. record c {
      section = record (c.section) { in_server_section = true; server_name = m };
    } in
    let found : List ℕ = take (length (bracketed name) - 2) (name ++ (b']' ∷ [])) in
    ap
      (λ b.
        if b
        then fault
        else if leb (length (bracketed name) - 2) servername_max_length
        then debug (named found)
        else fault)
      enough
    ∙ ap (λ b. if b then debug (named found) else fault) room
    ∙ debug_quiet (named found) quiet
    ∙ ap (λ m. reads (named m)) rest

begin_line :
    (lib : Library) (c : Config) (name : List ℕ)
    → c.errno ≡ false
    → c.section.in_server_section ≡ false
    → IsWord name
    → length name < 17
    → starts_with name (codes "/") ≡ false
    → parse_line lib (bracketed name ++ (10 ∷ [])) c
      ≡ reads (record c {
        section = record (c.section) { in_server_section = true; server_name = name };
      })
unfolding starts_with
begin_line lib c name quiet outside word fits no_slash =
    parse_line-tokens lib (bracketed name ++ (10 ∷ [])) (bracketed name) none c
      (tokens_word (bracketed name) (bracketed-IsWord name word))
    ∙ ap
        (λ b.
          after (if b then chain (server_directives lib (bracketed name) none) c else reads c)
            (in_file lib (bracketed name) none))
        outside
    ∙ ap (λ b. if b then end_section lib c else begin_section (bracketed name) c)
        (not_end name word no_slash)
    ∙ begin_section-bracketed c name quiet fits

end_line :
    (lib : Library) (c : Config)
    → c.errno ≡ false
    → c.section.in_server_section ≡ true
    → parse_line lib (codes "[/server]" ++ (10 ∷ [])) c
      ≡ next_section
          (record c { section = record (c.section) { in_server_section = false } })
          (create_balancer_server lib.memory (request_of c.section) c.balancer)
unfolding starts_with server_directives end_section
end_line lib c quiet inside =
    parse_line-tokens lib (codes "[/server]" ++ (10 ∷ [])) (codes "[/server]") none c
      (tokens_word (codes "[/server]") (ground arith))
    ∙ ap
        (λ b.
          after (if b then chain (server_directives lib (codes "[/server]") none) c else reads c)
            (in_file lib (codes "[/server]") none))
        inside
    ∙ ap
        (λ r. after r (λ c'.
          next_section (record c' { section = record (c'.section) { in_server_section = false } })
            (create_balancer_server lib.memory (request_of c'.section) c'.balancer)))
        (debug_quiet c quiet)

step :
    (lib : Library) (line : List ℕ) (lines : List (List ℕ)) (c c' : Config)
    → parse_line lib line c ≡ reads c'
    → parse_lines lib (line ∷ lines) c ≡ parse_lines lib lines c'
unfolding parse_lines
step lib line lines c c' e = ap (λ r. after r (parse_lines lib lines)) e

after_end : (lib : Library) (r : Reading Config) → after r (parse_lines lib []) ≡ r
unfolding parse_lines
after_end lib (reads c) = refl
after_end lib exits = refl
after_end lib fault = refl

last_step :
    (lib : Library) (line : List ℕ) (c : Config) (r : Reading Config)
    → parse_line lib line c ≡ r
    → parse_lines lib (line ∷ []) c ≡ r
unfolding parse_lines
last_step lib line c r e = after_end lib (parse_line lib line c) ∙ e

-- Outside a section, with `errno` 0 and the locals as they are reset: the lines of a section that
-- can be read lead to the creation of the server that they describe, and nothing else changes but
-- what the creation and the reset for the next section do.
pub parse_lines-section_lines :
    (lib : Library) (d : Described) (ip maxl : ℕ) (c : Config)
    → Readable lib d ip maxl
    → c.errno ≡ false
    → c.section.in_server_section ≡ false
    → c.section.server_clone ≡ false
    → c.section.standby_state ≡ false
    → parse_lines lib (section_lines d) c
      ≡ next_section
          (record c { section = written d ip maxl })
          (create_balancer_server lib.memory (asked d ip maxl) c.balancer)
unfolding section_lines
parse_lines-section_lines lib d ip maxl c ok quiet outside no_clone no_standby =
    step lib _ _ c _ (begin_line lib c d.name quiet outside ok.name_word ok.name_fits ok.no_slash)
    ∙ step lib _ _ _ _ (clone_line lib _ quiet refl d.clone no_clone no_standby)
    ∙ step lib _ _ _ _ (standby_line lib _ quiet refl d.standby)
    ∙ step lib _ _ _ _ (status_line lib _ quiet refl d.enabled)
    ∙ step lib _ _ _ _ (port_line lib _ quiet refl d.port ok.port_lo ok.port_hi)
    ∙ step lib _ _ _ _ (maxc_line lib _ quiet refl d.maxc ok.maxc_hi)
    ∙ step lib _ _ _ _
        (maxl_line lib _ quiet refl d.maxl_text maxl ok.maxl_word ok.maxl_read ok.maxl_pos)
    ∙ step lib _ _ _ _ (ip_line lib _ quiet refl d.ip_text ip ok.ip_word ok.ip_read)
    ∙ last_step lib _ _ _ (end_line lib _ quiet refl)
