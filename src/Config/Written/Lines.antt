-- ===== src/Config/Written/Lines.antt =====
-- What each line of a written section does to the state of the parser.
use octopuslb.Base.{
  ℕ, zero, suc, ◌+◌, ◌/◌, ◌%◌, ◌<◌, ◌≡◌, refl, sym, ap, ◌∙◌, Bool, true, false, ◌&&◌, Option, some,
  List, [], ◌∷◌, ◌++◌, append-nil, arith, ltb, ltb_ℤ, leb_ℤ, if◌then◌else◌, pos, Bool-cases, inl,
  inr, if_split,
}
use octopuslb.Balancer.{Status}
use octopuslb.Text.{codes, starts_with, strtol, to_int}
use octopuslb.Text.Decimal.{decimal, digits, digits-head, strtol-decimal}
use octopuslb.Config.{Config, Library, reads, after, chain, debug, require}
use octopuslb.Config.Server.{
  server_directives, set_port, set_maxc, set_maxl, set_status, set_standby, set_ip, set_clone,
}
use octopuslb.Config.Settings.{balancer_directives}
use octopuslb.Config.File.{tokens, in_section, in_file, parse_tokens, parse_line}
use octopuslb.Config.Trim.Words.{Plain, IsWord, setting, tokens-setting}
use octopuslb.Config.Written.{yes_no, status_word}

pub Plain-append : (xs ys : List ℕ) → Plain xs → Plain ys → Plain (xs ++ ys)
Plain-append [] ys p q = q
Plain-append (x ∷ xs) ys (a, b, p) q = (a, b, Plain-append xs ys p q)

digits-Plain : (fuel n : ℕ) → Plain (digits fuel n)
unfolding digits
digits-Plain zero n = tt
digits-Plain (suc fuel) n = elim (Bool-cases (ltb n 10)) [
  | inl small ↦ rw small (ground arith, ground arith, tt)
  | inr large ↦ rw large (
      Plain-append (digits fuel (n / 10)) ((b'0' + n % 10) ∷ []) (digits-Plain fuel (n / 10))
        (ground arith, ground arith, tt))
]

pub decimal-IsWord : (n : ℕ) → IsWord (decimal n)
decimal-IsWord n = let r = digits-head 18 n in (digits-Plain 19 n, rw r.2 (omega arith))

strtol-decimal_end :
    (n : ℕ)
    → n < 2147483648
    → strtol 10 (decimal n) ≡ record { value = pos n; found = true; erange = false }
strtol-decimal_end n h =
    ap (strtol 10) (sym (append-nil (decimal n))) ∙ strtol-decimal n [] (omega arith) refl

to_int-pos : (n : ℕ) → n < 2147483648 → to_int (pos n) ≡ pos n
to_int-pos n h = ground arith

-- With `errno` 0, a debug line or none makes no difference.
pub debug_quiet : (c : Config) → c.errno ≡ false → debug c ≡ reads c
debug_quiet c h =
    ap (λ e. reads (record c { errno = e }))
      (if_split (λ e. e ≡ c.errno) (ltb_ℤ (pos 0) c.balancer.debug_level) false c.errno (λ t. sym h)
        (λ t. refl))

pub parse_line-tokens :
    (lib : Library) (line directive : List ℕ) (value : Option (List ℕ)) (c : Config)
    → tokens line ≡ (some directive, value)
    → parse_line lib line c ≡ after (in_section lib directive value c) (in_file lib directive value)
unfolding parse_line
parse_line-tokens lib line directive value c e = ap (λ t. parse_tokens lib t c) e

-- A line of the section whose directive acts once.
section_line :
    (lib : Library) (key value : List ℕ) (c c' : Config)
    → IsWord key
    → IsWord value
    → c.section.in_server_section ≡ true
    → chain (server_directives lib key (some value)) c ≡ reads c'
    → in_file lib key (some value) c' ≡ reads c'
    → parse_line lib (setting key value) c ≡ reads c'
section_line lib key value c c' k v inside acts passes =
    parse_line-tokens lib (setting key value) key (some value) c (tokens-setting key value k v)
    ∙ ap
        (λ b.
          after (if b then chain (server_directives lib key (some value)) c else reads c)
            (in_file lib key (some value)))
        inside
    ∙ ap (λ r. after r (in_file lib key (some value))) acts
    ∙ passes

-- The flags of the section, `clone` before `standby`.
clone_false :
    (c : Config)
    → c.section.server_clone ≡ false
    → c.section.standby_state ≡ false
    → record c { section = record (c.section) { standby_state = false } }
      ≡ record c { section = record (c.section) { server_clone = false } }
clone_false c a b = ground (arith, a, b)

module _ (lib : Library) (c : Config) (quiet : c.errno ≡ false)
    (inside : c.section.in_server_section ≡ true) where
  pub clone_line :
      (b : Bool)
      → c.section.server_clone ≡ false
      → c.section.standby_state ≡ false
      → parse_line lib (setting (codes "clone") (yes_no b)) c
        ≡ reads (record c { section = record (c.section) { server_clone = b } })
  unfolding starts_with balancer_directives server_directives set_clone
  clone_line true a b =
      section_line lib (codes "clone") (codes "true") c _ (ground arith) (ground arith) inside
        (ap (λ r. after r reads) (debug_quiet _ quiet)) refl
  clone_line false a b =
      section_line lib (codes "clone") (codes "false") c _ (ground arith) (ground arith) inside
        (ap (λ r. after r reads) (debug_quiet _ quiet)) refl
      ∙ ap reads (clone_false c a b)

  pub standby_line :
      (b : Bool)
      → parse_line lib (setting (codes "standby") (yes_no b)) c
        ≡ reads (record c { section = record (c.section) { standby_state = b } })
  unfolding starts_with balancer_directives server_directives set_standby
  standby_line true =
      section_line lib (codes "standby") (codes "true") c _ (ground arith) (ground arith) inside
        (ap (λ r. after r reads) (debug_quiet _ quiet)) refl
  standby_line false =
      section_line lib (codes "standby") (codes "false") c _ (ground arith) (ground arith) inside
        (ap (λ r. after r reads) (debug_quiet _ quiet)) refl

  pub status_line :
      (b : Bool)
      → parse_line lib (setting (codes "status") (status_word b)) c
        ≡ reads (record c {
          section = record (c.section) {
            server_status = if b then Status.enabled else Status.disabled;
          };
        })
  unfolding starts_with balancer_directives server_directives set_status
  status_line true =
      section_line lib (codes "status") (codes "enabled") c _ (ground arith) (ground arith) inside
        (ap (λ r. after r reads) (debug_quiet _ quiet)) refl
  status_line false =
      section_line lib (codes "status") (codes "disabled") c _ (ground arith) (ground arith) inside
        (ap (λ r. after r reads) (debug_quiet _ quiet)) refl

  port_test :
      (n : ℕ) → 0 < n → n < 65536 → (ltb_ℤ (pos 0) (pos n) && ltb_ℤ (pos n) (pos 65536)) ≡ true
  port_test n lo hi = ground arith

  set_port-decimal :
      (n : ℕ)
      → 0 < n
      → n < 65536
      → set_port (decimal n) c
        ≡ reads (record c { section = record (c.section) { server_port = pos n } })
  unfolding set_port
  set_port-decimal n lo hi =
      rw (strtol-decimal_end n (omega arith), to_int-pos n (omega arith))
        (ap
            (λ t. require t (
              debug
                (record c { section = record (c.section) { server_port = pos n }; errno = false })))
            (port_test n lo hi)
          ∙ debug_quiet _ refl
          ∙ ap
              (λ e.
                reads
                  (record c { section = record (c.section) { server_port = pos n }; errno = e }))
              (sym quiet))

  pub port_line :
      (n : ℕ)
      → 0 < n
      → n < 65536
      → parse_line lib (setting (codes "port") (decimal n)) c
        ≡ reads (record c { section = record (c.section) { server_port = pos n } })
  unfolding starts_with balancer_directives server_directives
  port_line n lo hi =
      section_line lib (codes "port") (decimal n) c _ (ground arith) (decimal-IsWord n) inside
        (ap (λ r. after r reads) (set_port-decimal n lo hi)) refl

  set_maxc-decimal :
      (n : ℕ)
      → n < 2147483648
      → set_maxc (decimal n) c
        ≡ reads (record c { section = record (c.section) { server_maxc = pos n } })
  unfolding set_maxc
  set_maxc-decimal n hi =
      let ok : leb_ℤ (pos 0) (pos n) ≡ true = ground arith in
      rw (strtol-decimal_end n hi, to_int-pos n hi)
        (ap
            (λ t. require t (
              debug
                (record c { section = record (c.section) { server_maxc = pos n }; errno = false })))
            ok
          ∙ debug_quiet _ refl
          ∙ ap
              (λ e.
                reads
                  (record c { section = record (c.section) { server_maxc = pos n }; errno = e }))
              (sym quiet))

  pub maxc_line :
      (n : ℕ)
      → n < 2147483648
      → parse_line lib (setting (codes "maxc") (decimal n)) c
        ≡ reads (record c { section = record (c.section) { server_maxc = pos n } })
  unfolding starts_with balancer_directives server_directives
  maxc_line n hi =
      section_line lib (codes "maxc") (decimal n) c _ (ground arith) (decimal-IsWord n) inside
        (ap (λ r. after r reads) (set_maxc-decimal n hi)) refl

  set_maxl-read :
      (text : List ℕ) (maxl : ℕ)
      → lib.atof text ≡ (maxl, false)
      → lib.floats.lt 0 maxl ≡ true
      → set_maxl lib text c
        ≡ reads (record c { section = record (c.section) { server_maxl = maxl } })
  unfolding set_maxl
  set_maxl-read text maxl e above = rw (e, above) (debug_quiet _ quiet)

  pub maxl_line :
      (text : List ℕ) (maxl : ℕ)
      → IsWord text
      → lib.atof text ≡ (maxl, false)
      → lib.floats.lt 0 maxl ≡ true
      → parse_line lib (setting (codes "maxl") text) c
        ≡ reads (record c { section = record (c.section) { server_maxl = maxl } })
  unfolding starts_with balancer_directives server_directives
  maxl_line text maxl word e above =
      section_line lib (codes "maxl") text c _ (ground arith) word inside
        (ap (λ r. after r reads) (set_maxl-read text maxl e above)) refl

  set_ip-read :
      (text : List ℕ) (ip : ℕ)
      → lib.inet_aton text ≡ some ip
      → set_ip lib text c ≡ reads (record c { section = record (c.section) { server_ip = ip } })
  unfolding set_ip
  set_ip-read text ip e = rw (e, set_ip) (debug_quiet _ quiet)

  pub ip_line :
      (text : List ℕ) (ip : ℕ)
      → IsWord text
      → lib.inet_aton text ≡ some ip
      → parse_line lib (setting (codes "ip") text) c
        ≡ reads (record c { section = record (c.section) { server_ip = ip } })
  unfolding starts_with balancer_directives server_directives
  ip_line text ip word e =
      section_line lib (codes "ip") text c _ (ground arith) word inside
        (ap (λ r. after r reads) (set_ip-read text ip e)) refl
