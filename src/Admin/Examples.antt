-- ===== src/Admin/Examples.antt =====
-- Commands of src/admin.c on the sample balancer.
use octopuslb.Base.{ℕ, ◌-◌, ◌≡◌, refl, true, false, Option, none, some, List, [], ◌∷◌, ℤ, pos}
use octopuslb.Balancer.Examples.{sample}
use octopuslb.Monitor.Examples.{sample-IsMonitored}
use octopuslb.Admin.{
  Target, member_at, clone_at, Admin, refused, fault, done, strays, change, delete, cmd_one,
  cmd_enable, cmd_disable, enable, disable, names_slot, starts, letter_m, letter_a, letter_c,
}
use octopuslb.Admin.Outcome.{Kept, cmd_enable-Kept}
use octopuslb.Admin.Filled.{ReadsOutside}
use octopuslb.Admin.All.{Everywhere, cmd_enable-Everywhere}
use octopuslb.Admin.Single.{aimed, cmd_one_lem}

-- `strtol` on words of one digit.
abbrev digit : List ℕ → Option ℤ
digit (x ∷ []) = some (pos (x - 48))
digit _ = none

abbrev word_one : List ℕ
word_one = 49 ∷ []

abbrev word_all : List ℕ
word_all = letter_a ∷ []

abbrev word_m : List ℕ
word_m = letter_m ∷ []

-- An earlier command acted on member 0.
abbrev sample_admin : Admin
sample_admin = record {
  readonly = false;
  subject = λ i. some (member_at 0);
  subject_count = 1;
  balancer = sample;
}

cmd_enable-Kept_example :
    Kept
      (ReadsOutside digit word_all word_all)
      sample
      (cmd_enable digit word_all word_all sample_admin)
    × Kept
        (ReadsOutside digit word_all word_all)
        sample
        (cmd_disable digit word_all word_all sample_admin)
cmd_enable-Kept_example = cmd_enable-Kept digit word_all word_all sample_admin sample-IsMonitored

cmd_one_lem_example :
    (starts letter_m word_m ≡ true
      → strays word_m (pos 1) ≡ false
      → (names_slot sample.members sample.nmembers (pos 1) ≡ true
          → cmd_one digit word_m word_one sample_admin delete
            ≡ done (record (aimed (member_at 1) sample_admin) {
              balancer = change delete (member_at 1) sample;
            }))
        × (names_slot sample.members sample.nmembers (pos 1) ≡ false
            → cmd_one digit word_m word_one sample_admin delete
              ≡ refused (record sample_admin { subject_count = 0 })))
    × (starts letter_c word_m ≡ true
        → strays word_m (pos 1) ≡ false
        → (names_slot sample.clones sample.nclones (pos 1) ≡ true
            → cmd_one digit word_m word_one sample_admin delete
              ≡ done (record (aimed (clone_at 1) sample_admin) {
                balancer = change delete (clone_at 1) sample;
              }))
          × (names_slot sample.clones sample.nclones (pos 1) ≡ false
              → cmd_one digit word_m word_one sample_admin delete
                ≡ refused (record sample_admin { subject_count = 0 })))
    × (strays word_m (pos 1) ≡ true → cmd_one digit word_m word_one sample_admin delete ≡ fault)
    × ((t : Target)
        → starts letter_a word_m ≡ true
        → sample_admin.subject 0 ≡ some t
        → cmd_one digit word_m word_one sample_admin delete
          ≡ done (record sample_admin { subject_count = 0; balancer = change delete t sample }))
cmd_one_lem_example = cmd_one_lem digit word_m word_one (pos 1) sample_admin delete refl refl refl

cmd_enable-Everywhere_example :
    Everywhere enable sample (cmd_enable digit word_m word_all sample_admin)
    × Everywhere disable sample (cmd_disable digit word_m word_all sample_admin)
cmd_enable-Everywhere_example =
    cmd_enable-Everywhere digit word_m word_all sample_admin sample-IsMonitored.well_formed refl
      refl refl
