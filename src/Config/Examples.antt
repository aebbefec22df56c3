-- ===== src/Config/Examples.antt =====
-- Sample configuration files, read by the parser of src/config.c and the first pass of src/init.c.
use octopuslb.Base.{ℕ, ◌≡◌, ◌++◌, refl, true, false, none, some, List, [], ◌∷◌, pos, negsuc, arith}
use octopuslb.Balancer.Create.{create_balancer_server}
use octopuslb.Select.Examples.{floats}
use octopuslb.Start.{initialize_balancer}
use octopuslb.Start.Launching.{initial_options}
use octopuslb.Start.Launching.Outcome.{initialize_balancer-Ranges, initialize_balancer-Idle}
use octopuslb.Text.{codes, strtol, starts_with, skip_space, read_digits}
use octopuslb.Text.Lines.{concat}
use octopuslb.Config.{Library}
use octopuslb.Config.Server.{next_section}
use octopuslb.Config.File.{parse_config_file, Logging, initialize_logging}
use octopuslb.Config.Range.{Sound, Kept}
use octopuslb.Config.Range.File.{parse_config_file-Kept, Opened, initialize_logging-Opened}
use octopuslb.Config.Trim.{trim_white_space}
use octopuslb.Config.Trim.Outcome.{Blank, Tight, trim_white_space_lem}
use octopuslb.Config.Written.{Described, Readable, section_lines, asked, written}
use octopuslb.Config.Written.Whole.{parse_config_file-section_lines}

-- `atof` reads 1.0, and `inet_aton` 127.0.0.1.
abbrev pub sample_library : Library
sample_library = record {
  floats = floats;
  atof = λ text. (0x3f80_0000, false);
  inet_aton = λ text. some 0x0100_007f;
  memory = true;
}

abbrev described : Described
described = record {
  name = codes "web1";
  clone = false;
  standby = true;
  enabled = true;
  port = 8080;
  maxc = 200;
  maxl_text = codes "1.0";
  ip_text = codes "127.0.0.1";
}

described-Readable : Readable sample_library described 0x0100_007f 0x3f80_0000
unfolding starts_with
described-Readable = record {
  name_word = ground arith;
  name_fits = omega arith;
  no_slash = refl;
  port_lo = omega arith;
  port_hi = omega arith;
  maxc_hi = omega arith;
  ip_word = ground arith;
  maxl_word = ground arith;
  ip_read = refl;
  maxl_read = refl;
  maxl_pos = refl;
}

abbrev pub sample_file : List ℕ
sample_file = concat (section_lines described)

parse_config_file-section_lines_example :
    parse_config_file sample_library
      (some sample_file)
      0
      []
      initial_options
      (initialize_balancer (pos 0))
    ≡ next_section
        (record {
          balancer = initialize_balancer (pos 0);
          options = initial_options;
          section = written described 0x0100_007f 0x3f80_0000;
          errno = false;
        })
        (create_balancer_server true
          (asked described 0x0100_007f 0x3f80_0000)
          (initialize_balancer (pos 0)))
parse_config_file-section_lines_example =
    parse_config_file-section_lines sample_library described 0x0100_007f 0x3f80_0000 0 []
      initial_options (initialize_balancer (pos 0)) described-Readable (omega arith) (omega arith)

parse_config_file-Kept_example : Kept Sound (
    parse_config_file sample_library
      (some sample_file)
      0
      []
      initial_options
      (initialize_balancer (pos 0)))
parse_config_file-Kept_example =
    parse_config_file-Kept sample_library (some sample_file) 0 [] initial_options
      (initialize_balancer (pos 0)) (initialize_balancer-Ranges (pos 0))
      (initialize_balancer-Idle (pos 0)).0 (initialize_balancer-Idle (pos 0)).1

abbrev padded : List ℕ
padded = codes "  session_limit  "

trim_white_space_lem_example :
    (front back : List ℕ) × (padded ≡ front ++ (trim_white_space padded ++ back))
    × Blank front
    × Blank back
    × Tight (trim_white_space padded)
trim_white_space_lem_example = trim_white_space_lem padded

trimmed : trim_white_space padded ≡ codes "session_limit"
unfolding trim_white_space skip_space
trimmed = refl

abbrev log_file : List ℕ
log_file = codes "log_file = /var/log/octopus.log" ++ (10 ∷ (codes "debug_level = 3" ++ (10 ∷ [])))

abbrev sample_logging : Logging
sample_logging = record {
  log_file_path = none;
  debug_level = pos 0;
  errno = false;
  foreground = true;
  debug_level_override = false;
}

initialize_logging-Opened_example :
    Kept
      (Opened (λ path. true) sample_logging)
      (initialize_logging true (λ path. true) (some log_file) sample_logging)
initialize_logging-Opened_example =
    initialize_logging-Opened true (λ path. true) (some log_file) sample_logging

-- Numbers with space, a sign and more behind them.
number_read : strtol 10 (codes " -12x") ≡ record { value = negsuc 11; found = true; erange = false }
unfolding strtol skip_space read_digits
number_read = refl

-- A word is no number.
no_number : strtol 10 (codes "x") ≡ record { value = pos 0; found = false; erange = false }
unfolding strtol skip_space read_digits
no_number = refl
