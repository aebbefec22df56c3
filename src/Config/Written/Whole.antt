-- ===== src/Config/Written/Whole.antt =====
-- A configuration file that describes one server, from its bytes to the server (src/config.c).
use octopuslb.Base.{
  ℕ, zero, suc, ◌+◌, ◌/◌, ◌%◌, ◌<◌, ◌≤◌, ◌≡◌, refl, sym, ap, ◌∙◌, Bool, true, false, some, List, [],
  ◌∷◌, ◌++◌, append_assoc, arith, ltb, length, length-append, Bool-cases, inl, inr,
}
use octopuslb.Balancer.{Balancer}
use octopuslb.Balancer.Create.{create_balancer_server}
use octopuslb.Text.{codes}
use octopuslb.Text.Decimal.{decimal, digits}
use octopuslb.Text.Lines.{concat}
use octopuslb.Text.Lines.Whole.{NoNewline, NoNewline-append, IsLine, AreLines, fgets_lines-concat}
use octopuslb.Config.{Config, Options, Library}
use octopuslb.Config.Server.{next_section}
use octopuslb.Config.File.{parse_lines, parse_config_file, first_section}
use octopuslb.Config.Trim.Words.{Plain, setting}
use octopuslb.Config.Written.{
  Described, Readable, yes_no, status_word, bracketed, section_lines, asked, written,
}
use octopuslb.Config.Written.Lines.{decimal-IsWord}
use octopuslb.Config.Written.RoundTrip.{parse_lines-section_lines}

Plain-NoNewline : (xs : List ℕ) → Plain xs → NoNewline xs
Plain-NoNewline [] p = tt
Plain-NoNewline (x ∷ xs) (a, b, p) = (ground arith, Plain-NoNewline xs p)

length-digits : (fuel n : ℕ) → length (digits fuel n) ≤ fuel
unfolding digits
length-digits zero n = omega arith
length-digits (suc fuel) n = elim (Bool-cases (ltb n 10)) [
  | inl small ↦ rw small (omega arith)
  | inr large ↦ rw large (
      omega (
        arith,
        length-append (digits fuel (n / 10)) ((b'0' + n % 10) ∷ []),
        length-digits fuel (n / 10),
      ))
]

-- A setting whose key and value are words is a line.
setting-IsLine :
    (key value : List ℕ)
    → Plain key
    → Plain value
    → length key + length value < 998
    → IsLine 1000 (setting key value)
setting-IsLine key value k v h = record {
  body = key ++ (b'=' ∷ value);
  ends = sym (append_assoc key (b'=' ∷ value) (10 ∷ []));
  no_newline =
      NoNewline-append key (b'=' ∷ value) (Plain-NoNewline key k) (refl, Plain-NoNewline value v);
  fits = omega (arith, length-append key (b'=' ∷ value));
}

section_lines-AreLines :
    (lib : Library) (d : Described) (ip maxl : ℕ)
    → Readable lib d ip maxl
    → length d.ip_text < 900
    → length d.maxl_text < 900
    → AreLines 1000 (section_lines d)
unfolding section_lines
section_lines-AreLines lib d ip maxl ok short_ip short_maxl = (
  record {
    body = bracketed d.name;
    ends = refl;
    no_newline = (
      refl,
      NoNewline-append d.name (b']' ∷ []) (Plain-NoNewline d.name ok.name_word.0) (refl, tt),
    );
    fits = omega (arith, length-append d.name (b']' ∷ []), ok.name_fits);
  },
  (
    flag (codes "clone") d.clone (ground arith) (omega arith),
    (
      flag (codes "standby") d.standby (ground arith) (omega arith),
      (
        status d.enabled,
        (
          number (codes "port") d.port (ground arith) (omega arith),
          (
            number (codes "maxc") d.maxc (ground arith) (omega arith),
            (
              setting-IsLine (codes "maxl") d.maxl_text (ground arith) ok.maxl_word.0 (omega arith),
              (
                setting-IsLine (codes "ip") d.ip_text (ground arith) ok.ip_word.0 (omega arith),
                (
                  record {
                    body = codes "[/server]";
                    ends = refl;
                    no_newline = ground arith;
                    fits = omega arith;
                  },
                  tt,
                ),
              ),
            ),
          ),
        ),
      ),
    ),
  ),
)
  where
    number :
        (key : List ℕ) (n : ℕ) → Plain key → length key < 10 → IsLine 1000 (setting key (decimal n))
    number key n k h =
        setting-IsLine key (decimal n) k (decimal-IsWord n).0 (omega (arith, length-digits 19 n))

    flag :
        (key : List ℕ) (b : Bool)
        → Plain key
        → length key < 10
        → IsLine 1000 (setting key (yes_no b))
    flag key true k h = setting-IsLine key (codes "true") k (ground arith) (omega arith)
    flag key false k h = setting-IsLine key (codes "false") k (ground arith) (omega arith)

    status : (b : Bool) → IsLine 1000 (setting (codes "status") (status_word b))
    status true =
        setting-IsLine (codes "status") (codes "enabled") (ground arith) (ground arith)
          (omega arith)
    status false =
        setting-IsLine (codes "status") (codes "disabled") (ground arith) (ground arith)
          (omega arith)

-- A file that describes one server, with words for its name and texts, its name no longer than its
-- array, numbers in range and texts that the library reads: whatever lies on the stack, the parsing
-- comes down to the creation of exactly that server, and the reset for the next section.
pub parse_config_file-section_lines :
    (lib : Library) (d : Described) (ip maxl stack_ip : ℕ) (stack_name : List ℕ) (o : Options)
    (b : Balancer)
    → Readable lib d ip maxl
    → length d.ip_text < 900
    → length d.maxl_text < 900
    → parse_config_file lib (some (concat (section_lines d))) stack_ip stack_name o b
      ≡ next_section
          (record { balancer = b; options = o; section = written d ip maxl; errno = false })
          (create_balancer_server lib.memory (asked d ip maxl) b)
unfolding parse_config_file
parse_config_file-section_lines lib d ip maxl stack_ip stack_name o b ok short_ip short_maxl =
    let start : Config = record {
      balancer = b;
      options = o;
      section = first_section stack_ip stack_name b;
      errno = false;
    } in
    ap (λ ls. parse_lines lib ls start)
      (fgets_lines-concat 1000 (section_lines d)
        (section_lines-AreLines lib d ip maxl ok short_ip short_maxl))
    ∙ parse_lines-section_lines lib d ip maxl start ok refl refl refl refl
