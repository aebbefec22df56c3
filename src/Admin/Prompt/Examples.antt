-- ===== src/Admin/Prompt/Examples.antt =====
-- Sessions of src/admin.c on the sample balancer.
use octopuslb.Base.{
  some, is_empty, contains, ℕ, ◌≡◌, ◌⊎◌, ◌<◌, ◌≤◌, refl, true, false, none, List, [], ◌∷◌, ◌++◌,
  pos, negsuc, arith,
}
use octopuslb.Balancer.Examples.{sample, sample_settings}
use octopuslb.Monitor.Examples.{sample-IsMonitored}
use octopuslb.Text.{
  codes, strtok, split_at, starts_with, strtol, strtol_signed, strtol_body, skip_space, read_digits,
}
use octopuslb.Config.Examples.{sample_library}
use octopuslb.Admin.{Admin}
use octopuslb.Admin.Console.{
  clear, erange, Console, next, quit, crash, accept, decline, on_settings,
}
use octopuslb.Admin.Scan.{Instance, granted, cmd_scan_for_instances}
use octopuslb.Admin.Scan.Outcome.{ScanEnds, cmd_scan_for_instances-Ends}
use octopuslb.Admin.Steady.{Stable}
use octopuslb.Admin.Prompt.{
  split_words, read_line, run_lines, run_once, run_words, run_command, commands,
}
use octopuslb.Admin.Settings.{cmd_hri, cmd_number, cmd_debug}
use octopuslb.Admin.Prompt.Ended.{NoBlank}
use octopuslb.Admin.Prompt.ReadOnly.{Untouched, run_lines-Untouched}
use octopuslb.Admin.Prompt.Kept.{Kept}
use octopuslb.Admin.Prompt.Session.{run_lines-Kept}
use octopuslb.Admin.Prompt.Line.{AllSolid, join, number_line, split_words-join}
use octopuslb.Admin.Prompt.Number.{percentage_line_lem}

abbrev fresh_admin : Admin
fresh_admin = record { readonly = false; subject = λ i. none; subject_count = 0; balancer = sample }

abbrev fresh : Console
fresh = record { admin = fresh_admin; errno = clear; extended = true; status = pos 0 }

abbrev watching : Console
watching = record fresh { admin = record fresh_admin { readonly = true } }

fresh-Stable : Stable fresh_admin
fresh-Stable = (
  record {
    well_formed = sample-IsMonitored.well_formed;
    accounted = sample-IsMonitored.accounted;
    vacant = λ i h. ground arith;
    in_range = record {
      threshold_lo = omega arith;
      threshold_hi = omega arith;
      size_lo = omega arith;
      size_hi = omega arith;
      interval = omega arith;
    };
  },
  λ i t e. absurd (cc),
)

abbrev typed : List (List ℕ)
typed =
    (codes "disable m 1" ++ 10 ∷ [])
    ∷ (codes "create web3 10.0.0.3 80" ++ 10 ∷ [])
    ∷ (codes "hrs 30" ++ 10 ∷ [])
    ∷ []

run_lines-Kept_example : Kept (run_lines sample_library typed fresh)
run_lines-Kept_example = run_lines-Kept sample_library typed fresh fresh-Stable

has_word : (line : List (List ℕ)) → is_empty line ≡ false → line ≡ [] → ⊥
has_word [] h e = absurd (cc)
has_word (word ∷ args) h e = absurd (cc)

typed-NoBlank : NoBlank ⊥ typed
unfolding split_words strtok split_at contains
typed-NoBlank = (has_word _ refl, (has_word _ refl, (has_word _ refl, tt)))

run_lines-Untouched_example : Untouched sample (run_lines sample_library typed watching)
run_lines-Untouched_example = run_lines-Untouched sample_library typed watching refl typed-NoBlank

abbrev delete_words : List (List ℕ)
delete_words = codes "delete" ∷ codes "c" ∷ (codes "0" ++ 10 ∷ []) ∷ []

delete_words-AllSolid : AllSolid delete_words
delete_words-AllSolid = ground arith

split_words-join_example : split_words 5 (join delete_words) ≡ delete_words
split_words-join_example = split_words-join 5 delete_words delete_words-AllSolid

-- `errno` of a number out of range stays, and the next number is refused for it.
stuck :
    run_lines sample_library
      ((codes "hri 99999999999999999999" ++ 10 ∷ []) ∷ (codes "debug 3" ++ 10 ∷ []) ∷ [])
      fresh
    ≡ next (record fresh { errno = erange; status = negsuc 0 })
unfolding run_lines read_line run_words split_words strtok split_at contains run_command commands
    starts_with cmd_hri cmd_number cmd_debug strtol strtol_signed strtol_body skip_space read_digits
stuck = refl

-- An interval above the greatest `int` becomes negative.
negative_interval :
    run_once sample_library true (codes "hri 4294967295") fresh
    ≡ quit (pos 0) (record fresh {
      admin = record fresh_admin {
        balancer = record sample {
          settings = record sample_settings { hash_rebalance_interval = negsuc 0 };
        };
      };
    })
unfolding run_once read_line run_words split_words strtok split_at contains run_command commands
    starts_with cmd_hri cmd_number strtol strtol_signed strtol_body skip_space read_digits
negative_interval = refl

-- With the wrong number of arguments the exit status is 0.
too_few : run_once sample_library true (codes "enable") fresh ≡ quit (pos 0) fresh
unfolding run_once read_line run_words split_words strtok split_at contains run_command commands
    starts_with
too_few = refl

blank : run_once sample_library true (codes "  ") fresh ≡ crash
unfolding run_once read_line run_words split_words strtok contains
blank = refl

percentage_line_lem_example :
    (30 ≤ 100
      → (fresh.errno ≡ clear) ⊎ (0 < 30)
      → (read_line sample_library true (number_line (codes "hrs") 30) fresh
          ≡ accept (on_settings (λ s. record s { hash_rebalance_size = pos 30 }) fresh))
        × (read_line sample_library true (number_line (codes "hrt") 30) fresh
            ≡ accept (on_settings (λ s. record s { hash_rebalance_threshold = pos 30 }) fresh)))
    × (100 < 30
        → (read_line sample_library true (number_line (codes "hrs") 30) fresh ≡ decline fresh)
          × (read_line sample_library true (number_line (codes "hrt") 30) fresh ≡ decline fresh))
percentage_line_lem_example = percentage_line_lem sample_library 30 fresh refl (omega arith)

abbrev instance_file : Instance
instance_file = record {
  is_there = true;
  has_key = true;
  segment = granted;
  attach = λ readonly. some (record { balancer = sample; same_version = true; alive = true });
}

cmd_scan_for_instances-Ends_example :
    ScanEnds false
      (instance_file ∷ instance_file ∷ [])
      (codes "2")
      fresh
      (cmd_scan_for_instances false (instance_file ∷ instance_file ∷ []) (codes "2") clear fresh)
cmd_scan_for_instances-Ends_example =
    cmd_scan_for_instances-Ends false (instance_file ∷ instance_file ∷ []) (codes "2") clear fresh
