-- ===== src/Admin/Outcome.antt =====
-- What the commands of src/admin.c do to the servers.
use octopuslb.Base.{
  ℕ, ◌≡◌, ◌==◌, refl, sym, true, Option, none, some, List, arith, Bool-cases, inl, inr, ℤ,
  for_range-carries, subst,
}
use octopuslb.Balancer.{Server, Balancer}
use octopuslb.Balancer.Cloning.{set_cloned_state}
use octopuslb.Monitor.Shape.{
  SamePlace, SamePlace-refl, SameServers, SameServers-refl, SameServers-trans, IsMonitored,
  SameServers-IsWellFormed, SameServers-IsAccounted, set_cloned_state-SameServers,
  set_cloned_state-ModeRight,
}
use octopuslb.Admin.Filled.{
  Filled, find_subjects-Filled, change_each-carries, ReadsOutside, when_found-carries,
}
use octopuslb.Admin.{
  Target, member_at, clone_at, Admin, Answer, refused, fault, done, take_member, take_clone,
  set_members, set_clones, find_subjects, change, change_each, cmd_many, cmd_enable, cmd_disable,
  enable, disable,
}

set_members_balancer :
    (type : List ℕ) (v : Option ℤ) (a : Admin) → (set_members type v a).0.balancer ≡ a.balancer
unfolding set_members
set_members_balancer type none a =
    for_range-carries (λ i (t : Admin). t.balancer ≡ a.balancer) take_member a.balancer.nmembers 0
      a.balancer.nmembers a (omega arith) refl (λ i t lt h. ground (arith, h))
set_members_balancer type (some v) a = ground arith

set_clones_balancer :
    (type : List ℕ) (v : Option ℤ) (a : Admin) → (set_clones type v a).0.balancer ≡ a.balancer
unfolding set_clones
set_clones_balancer type none a =
    for_range-carries (λ i (t : Admin). t.balancer ≡ a.balancer) take_clone a.balancer.nclones 0
      a.balancer.nclones a (omega arith) refl (λ i t lt h. ground (arith, h))
set_clones_balancer type (some v) a = ground arith

pub find_subjects_balancer :
    (type : List ℕ) (v : Option ℤ) (a : Admin) → (find_subjects type v a).0.balancer ≡ a.balancer
unfolding find_subjects
find_subjects_balancer type v a =
    ground
      (arith, set_members_balancer type v a, set_clones_balancer type v (set_members type v a).0)

change-SameServers :
    (f : Server → Server) (t : Target) (b : Balancer)
    → ((s : Server) → SamePlace s (f s))
    → SameServers b (change f t b)
change-SameServers f (member_at i) b same = record {
  nmembers = refl;
  nclones = refl;
  table = refl;
  members = λ j. elim (Bool-cases (i == j)) [
    | inl e ↦ let e' : i ≡ j = ground arith in rw (e, ← e') (same (b.members i))
    | inr e ↦ rw e (SamePlace-refl (b.members j))
  ];
  clones = λ j. SamePlace-refl (b.clones j);
}
change-SameServers f (clone_at i) b same = record {
  nmembers = refl;
  nclones = refl;
  table = refl;
  members = λ j. SamePlace-refl (b.members j);
  clones = λ j. elim (Bool-cases (i == j)) [
    | inl e ↦ let e' : i ≡ j = ground arith in rw (e, ← e') (same (b.clones i))
    | inr e ↦ rw e (SamePlace-refl (b.clones j))
  ];
}

change_each-SameServers :
    (f : Server → Server) (a : Admin)
    → ((s : Server) → SamePlace s (f s))
    → Filled a
    → (c : Admin) × (change_each f a ≡ some c) × SameServers a.balancer c.balancer
change_each-SameServers f a same filled =
    change_each-carries (λ k c. SameServers a.balancer c.balancer) f a filled
      (SameServers-refl a.balancer)
      (λ k c t e h. SameServers-trans _ _ _ h (change-SameServers f t c.balancer same))

enable-SamePlace : (s : Server) → SamePlace s (enable s)
enable-SamePlace s = record { id = ground arith; free = ground arith; usage = ground arith }

disable-SamePlace : (s : Server) → SamePlace s (disable s)
disable-SamePlace s = record { id = ground arith; free = ground arith; usage = ground arith }

-- A refused command leaves the balancer as it was, one that is done leaves what the monitor keeps, and
-- a fault is of this kind.
pub Kept : Type 0 → Balancer → Answer → Type 0
Kept Fault b (refused a) = a.balancer ≡ b
Kept Fault b fault = Fault
Kept Fault b (done a) = IsMonitored a.balancer

set_cloned_state-IsMonitored :
    (b b' : Balancer) → SameServers b b' → IsMonitored b → IsMonitored (set_cloned_state b')
set_cloned_state-IsMonitored b b' same w =
    let all = SameServers-trans b b' (set_cloned_state b') same (set_cloned_state-SameServers b') in
    record {
      well_formed = SameServers-IsWellFormed b (set_cloned_state b') all w.well_formed;
      accounted = SameServers-IsAccounted b (set_cloned_state b') all w.accounted;
      mode = set_cloned_state-ModeRight b';
    }

cmd_many-Kept :
    (strtol : List ℕ → Option ℤ) (type id : List ℕ) (a : Admin) (f : Server → Server)
    → ((s : Server) → SamePlace s (f s))
    → IsMonitored a.balancer
    → Kept (ReadsOutside strtol type id) a.balancer (cmd_many strtol type id a f set_cloned_state)
unfolding cmd_many Kept
cmd_many-Kept strtol type id a f same w =
    let fresh : Admin = record a { subject_count = 0 } in
    when_found-carries (λ r. Filled r × (r.balancer ≡ a.balancer))
      (Kept (ReadsOutside strtol type id) a.balancer) _ strtol type id true true a
      (λ i lt. absurd (omega (arith, lt)), refl)
      (λ v. (
        find_subjects-Filled type v fresh (λ i lt. absurd (omega (arith, lt))),
        find_subjects_balancer type v fresh,
      ))
      (λ out. out)
      (λ r (filled, e).
        let (c, at, servers) = change_each-SameServers f r same filled in
        rw at (
          set_cloned_state-IsMonitored r.balancer c.balancer servers (subst IsMonitored (sym e) w)))
      (λ r (filled, e). e)

-- On a balancer that is well-formed, with exact usage counters and the mode of cloning right,
-- whatever the words say and whatever an earlier command left, `enable` and `disable` never read
-- through NULL: the only fault is a number outside the array of members, with the type `m`, or of
-- clones, with `c`. A refused one leaves the balancer as it was, and one that is done leaves it
-- well-formed, with exact usage counters and the mode of cloning that the clones call for.
pub cmd_enable-Kept :
    (strtol : List ℕ → Option ℤ) (type id : List ℕ) (a : Admin)
    → IsMonitored a.balancer
    → Kept (ReadsOutside strtol type id) a.balancer (cmd_enable strtol type id a)
      × Kept (ReadsOutside strtol type id) a.balancer (cmd_disable strtol type id a)
cmd_enable-Kept strtol type id a w = (
  cmd_many-Kept strtol type id a enable enable-SamePlace w,
  cmd_many-Kept strtol type id a disable disable-SamePlace w,
)
