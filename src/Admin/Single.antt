-- ===== src/Admin/Single.antt =====
-- The commands of src/admin.c on one server: which server they reach.
use octopuslb.Base.{
  ℕ, ◌≡◌, ◌∙◌, refl, ap, Bool, if◌then◌else◌, true, false, Option, none, some, List, [], ◌∷◌, arith,
  update, ℤ,
}
use octopuslb.Balancer.{Server}
use octopuslb.Admin.{
  Target, member_at, clone_at, Admin, refused, fault, done, when_found, change_first, strays,
  set_members, set_clones, find_subjects, set_subject, change, cmd_one, names_slot, slot_index,
  starts, letter_m, letter_a, letter_c,
}

pub if_false {ℓ} : {A : Type ℓ} (c : Bool) (x y : A) → c ≡ false → (if c then x else y) ≡ y
if_false c x y h = rw h refl

starts_one :
    (type : List ℕ) (c d : ℕ)
    → starts c type ≡ true
    → (c ≡ d → true ≡ false)
    → starts d type ≡ false
starts_one [] c d h ne = refl
starts_one (x ∷ xs) c d h ne = ground arith

-- `subject[0]` is the one subject.
abbrev pub aimed : Target → Admin → Admin
aimed t a = record a { subject = update a.subject 0 (some t); subject_count = 1 }

module _ (strtol : List ℕ → Option ℤ) (type id : List ℕ) (v : ℤ) (a : Admin) (f : Server → Server)
    (free : a.readonly ≡ false) (one : starts letter_a id ≡ false) (read : strtol id ≡ some v) where
  found_lem :
      strays type v ≡ false
      → set_subject strtol type id true false a
        ≡ some (find_subjects type (some v) (record a { subject_count = 0 }))
  unfolding set_subject
  found_lem near = if_false a.readonly _ _ free ∙ rw (one, read, near) refl

  stray_lem : strays type v ≡ true → cmd_one strtol type id a f ≡ fault
  unfolding cmd_one set_subject
  stray_lem far =
      ap (when_found (change_first f)) {y = none}
        (if_false a.readonly _ _ free ∙ rw (one, read, far) refl)

  member_lem :
      starts letter_m type ≡ true
      → strays type v ≡ false
      → (names_slot a.balancer.members a.balancer.nmembers v ≡ true
          → cmd_one strtol type id a f
            ≡ done (record (aimed (member_at (slot_index v)) a) {
              balancer = change f (member_at (slot_index v)) a.balancer;
            }))
        × (names_slot a.balancer.members a.balancer.nmembers v ≡ false
            → cmd_one strtol type id a f ≡ refused (record a { subject_count = 0 }))
  unfolding cmd_one find_subjects set_members set_clones
  member_lem m near =
      let not_c = starts_one type letter_m letter_c m (λ e. ground arith) in
      (λ h. rw (found_lem near, m, h, not_c) refl, λ h. rw (found_lem near, m, h) refl)

  clone_lem :
      starts letter_c type ≡ true
      → strays type v ≡ false
      → (names_slot a.balancer.clones a.balancer.nclones v ≡ true
          → cmd_one strtol type id a f
            ≡ done (record (aimed (clone_at (slot_index v)) a) {
              balancer = change f (clone_at (slot_index v)) a.balancer;
            }))
        × (names_slot a.balancer.clones a.balancer.nclones v ≡ false
            → cmd_one strtol type id a f ≡ refused (record a { subject_count = 0 }))
  unfolding cmd_one find_subjects set_members set_clones
  clone_lem c near =
      let not_m = starts_one type letter_c letter_m c (λ e. ground arith) in
      (λ h. rw (found_lem near, not_m, c, h) refl, λ h. rw (found_lem near, not_m, c, h) refl)

  stale_lem :
      (t : Target)
      → starts letter_a type ≡ true
      → a.subject 0 ≡ some t
      → cmd_one strtol type id a f
        ≡ done (record a { subject_count = 0; balancer = change f t a.balancer })
  unfolding cmd_one find_subjects set_members set_clones
  stale_lem t all old =
      let not_m = starts_one type letter_a letter_m all (λ e. ground arith) in
      let not_c = starts_one type letter_a letter_c all (λ e. ground arith) in
      rw (found_lem (ground (arith, not_m, not_c)), not_m, not_c, all, old) refl

-- With a number that `strtol` reads and an admin that may write: the type `m` or `c` makes a command
-- on one server change exactly the server of that number, if it is in use and below the count;
-- another number of the array is refused and changes no server, and one outside the array is a read
-- outside it. But with the type `a` the command changes the server that an earlier command left in
-- `subject[0]`, whatever the number is.
pub cmd_one_lem :
    (strtol : List ℕ → Option ℤ) (type id : List ℕ) (v : ℤ) (a : Admin) (f : Server → Server)
    → a.readonly ≡ false
    → starts letter_a id ≡ false
    → strtol id ≡ some v
    → (starts letter_m type ≡ true
        → strays type v ≡ false
        → (names_slot a.balancer.members a.balancer.nmembers v ≡ true
            → cmd_one strtol type id a f
              ≡ done (record (aimed (member_at (slot_index v)) a) {
                balancer = change f (member_at (slot_index v)) a.balancer;
              }))
          × (names_slot a.balancer.members a.balancer.nmembers v ≡ false
              → cmd_one strtol type id a f ≡ refused (record a { subject_count = 0 })))
      × (starts letter_c type ≡ true
          → strays type v ≡ false
          → (names_slot a.balancer.clones a.balancer.nclones v ≡ true
              → cmd_one strtol type id a f
                ≡ done (record (aimed (clone_at (slot_index v)) a) {
                  balancer = change f (clone_at (slot_index v)) a.balancer;
                }))
            × (names_slot a.balancer.clones a.balancer.nclones v ≡ false
                → cmd_one strtol type id a f ≡ refused (record a { subject_count = 0 })))
      × (strays type v ≡ true → cmd_one strtol type id a f ≡ fault)
      × ((t : Target)
          → starts letter_a type ≡ true
          → a.subject 0 ≡ some t
          → cmd_one strtol type id a f
            ≡ done (record a { subject_count = 0; balancer = change f t a.balancer }))
cmd_one_lem strtol type id v a f free one read = (
  member_lem strtol type id v a f free one read,
  clone_lem strtol type id v a f free one read,
  stray_lem strtol type id v a f free one read,
  stale_lem strtol type id v a f free one read,
)
