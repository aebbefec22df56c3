-- ===== src/Monitor/Shape.antt =====
-- Steps of src/monitor.c that leave the servers in their places, and the invariant of its rounds.
use octopuslb.Base.{ℕ, ◌≡◌, ◌≢◌, ◌↔◌, refl, sym, ◌∙◌, ap, subst, arith}
use octopuslb.Balancer.{Server, Balancer, off, on, is_free, WellFormed, IsWellFormed}
use octopuslb.Balancer.Cloning.{HasClone, set_cloned_state, set_cloned_state_lem}
use octopuslb.Select.Hash.Accounting.{IsAccounted, slots_of}

-- The same index, and both free or both in use.
pub record SamePlace (s s' : Server) : Type 0 where
  pub id : s'.id ≡ s.id
  pub free : is_free s'.status ≡ is_free s.status
  pub usage : s'.hash_table_usage ≡ s.hash_table_usage

pub SamePlace-refl : (s : Server) → SamePlace s s
SamePlace-refl s = record { id = refl; free = refl; usage = refl }

pub SamePlace-trans : (s t u : Server) → SamePlace s t → SamePlace t u → SamePlace s u
SamePlace-trans s t u a b = record {
  id = b.id ∙ a.id;
  free = b.free ∙ a.free;
  usage = b.usage ∙ a.usage;
}

-- The servers of both arrays keep their places, and the hash table is the same.
pub record SameServers (b b' : Balancer) : Type 0 where
  pub nmembers : b'.nmembers ≡ b.nmembers
  pub nclones : b'.nclones ≡ b.nclones
  pub table : b'.hash_table ≡ b.hash_table
  pub members : (i : ℕ) → SamePlace (b.members i) (b'.members i)
  pub clones : (i : ℕ) → SamePlace (b.clones i) (b'.clones i)

pub SameServers-refl : (b : Balancer) → SameServers b b
SameServers-refl b = record {
  nmembers = refl;
  nclones = refl;
  table = refl;
  members = λ i. SamePlace-refl (b.members i);
  clones = λ i. SamePlace-refl (b.clones i);
}

pub SameServers-trans : (b c d : Balancer) → SameServers b c → SameServers c d → SameServers b d
SameServers-trans b c d x y = record {
  nmembers = y.nmembers ∙ x.nmembers;
  nclones = y.nclones ∙ x.nclones;
  table = y.table ∙ x.table;
  members = λ i. SamePlace-trans _ _ _ (x.members i) (y.members i);
  clones = λ i. SamePlace-trans _ _ _ (x.clones i) (y.clones i);
}

SamePlace-WellFormed :
    (slots slots' : ℕ → Server) (n n' : ℕ)
    → n' ≡ n
    → ((i : ℕ) → SamePlace (slots i) (slots' i))
    → WellFormed slots n
    → WellFormed slots' n'
SamePlace-WellFormed slots slots' n n' e same w = record {
  in_bounds = rw e w.in_bounds;
  beyond = λ i h. ground (arith, (same i).free, w.beyond i);
  named = λ i h. (same i).id ∙ w.named i (λ f. ground (arith, (same i).free));
}

pub SameServers-IsWellFormed :
    (b b' : Balancer) → SameServers b b' → IsWellFormed b → IsWellFormed b'
SameServers-IsWellFormed b b' e w = record {
  members_ok =
      SamePlace-WellFormed b.members b'.members b.nmembers b'.nmembers e.nmembers e.members
        w.members_ok;
  clones_ok =
      SamePlace-WellFormed b.clones b'.clones b.nclones b'.nclones e.nclones e.clones w.clones_ok;
}

pub SameServers-IsAccounted : (b b' : Balancer) → SameServers b b' → IsAccounted b → IsAccounted b'
SameServers-IsAccounted b b' e a = record {
  exact = λ m. (e.members m).usage ∙ a.exact m ∙ ap (slots_of m) (sym e.table);
  entries = λ j. rw e.table (a.entries j);
}

-- The mode of cloning tells whether a clone is enabled.
abbrev pub ModeRight : Balancer → Type 0
ModeRight b = b.clone_mode ≢ off → (b.clone_mode ≡ on) ↔ HasClone b

-- What the rounds of the monitor keep.
pub record IsMonitored (b : Balancer) : Type 0 where
  pub well_formed : IsWellFormed b
  pub accounted : IsAccounted b
  pub mode : ModeRight b

pub set_cloned_state-SameServers : (b : Balancer) → SameServers b (set_cloned_state b)
set_cloned_state-SameServers b =
    let only_mode = (set_cloned_state_lem b).2 in
    rw only_mode (record {
      nmembers = refl;
      nclones = refl;
      table = refl;
      members = λ i. SamePlace-refl (b.members i);
      clones = λ i. SamePlace-refl (b.clones i);
    })

-- The update makes the mode right, whatever it was.
pub set_cloned_state-ModeRight : (b : Balancer) → ModeRight (set_cloned_state b)
set_cloned_state-ModeRight b nonoff =
    let l = set_cloned_state_lem b in
    let was : b.clone_mode ≢ off = λ h. nonoff (ap (λ (c : Balancer). c.clone_mode) (l.1 h) ∙ h) in
    let same : HasClone (set_cloned_state b) ≡ HasClone b = ap HasClone l.2 in
    (λ h. subst (λ X. X) (sym same) ((l.0 was).0 h), λ h. (l.0 was).1 (subst (λ X. X) same h))
