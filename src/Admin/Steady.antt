-- ===== src/Admin/Steady.antt =====
-- What a session of src/admin.c keeps of the balancer and of the array of subjects.
pub mod Subjects
pub mod Create
use octopuslb.Base.{
  ℕ, ◌<◌, ◌≡◌, ◌≤ℤ◌, refl, sym, subst, Bool, false, Option, some, arith, ◌==◌, Bool-cases, inl, inr,
  pos, ◌∙◌,
}
use octopuslb.Balancer.{Status, Server, Balancer, Settings, is_free, IsWellFormed}
use octopuslb.Balancer.Cloning.{set_cloned_state, set_cloned_state_settings}
use octopuslb.Select.Hash.Accounting.{IsAccounted}
use octopuslb.Monitor.Shape.{
  SamePlace, SamePlace-refl, SameServers, SameServers-refl, SameServers-trans,
  SameServers-IsWellFormed, SameServers-IsAccounted, set_cloned_state-SameServers,
}
use octopuslb.Admin.{Target, member_at, clone_at, Admin, change}

-- The settings that the admin checks.
pub record InRange (s : Settings) : Type 0 where
  pub threshold_lo : pos 0 ≤ℤ s.hash_rebalance_threshold
  pub threshold_hi : s.hash_rebalance_threshold ≤ℤ pos 100
  pub size_lo : pos 0 ≤ℤ s.hash_rebalance_size
  pub size_hi : s.hash_rebalance_size ≤ℤ pos 100
  pub interval : s.monitor_interval < 65536

-- Well-formed, with exact usage counters, no hash values for a slot that is free, and settings in
-- range.
pub record Steady (b : Balancer) : Type 0 where
  pub well_formed : IsWellFormed b
  pub accounted : IsAccounted b
  pub vacant : (i : ℕ) → (b.members i).status ≡ Status.free → (b.members i).hash_table_usage ≡ 0
  pub in_range : InRange b.settings

abbrev pub server_at : Target → Balancer → Server
server_at (member_at i) b = b.members i
server_at (clone_at i) b = b.clones i

abbrev pub IsUsed : Balancer → Target → Type 0
IsUsed b t = is_free (server_at t b).status ≡ false

-- The array of subjects points to no free slot.
abbrev pub Aims : Balancer → (ℕ → Option Target) → Type 0
Aims b subject = (i : ℕ) (t : Target) → subject i ≡ some t → IsUsed b t

abbrev pub Stable : Admin → Type 0
Stable a = Steady a.balancer × Aims a.balancer a.subject

IsUsed-SameServers : (b b' : Balancer) (t : Target) → SameServers b b' → IsUsed b t → IsUsed b' t
IsUsed-SameServers b b' (member_at i) same u = (same.members i).free ∙ u
IsUsed-SameServers b b' (clone_at i) same u = (same.clones i).free ∙ u

free_of : (s s' : Server) → SamePlace s s' → s'.status ≡ Status.free → s.status ≡ Status.free
free_of s s' same h = let e = same.free in ground (arith, e, h)

-- The same servers in their places, and settings in range.
pub SameServers-Stable :
    (a : Admin) (b : Balancer)
    → SameServers a.balancer b
    → InRange b.settings
    → Stable a
    → Stable (record a { balancer = b })
SameServers-Stable a b same range (w, aims) = (
  record {
    well_formed = SameServers-IsWellFormed a.balancer b same w.well_formed;
    accounted = SameServers-IsAccounted a.balancer b same w.accounted;
    vacant = λ i h.
        (same.members i).usage
        ∙ w.vacant i (free_of (a.balancer.members i) (b.members i) (same.members i) h);
    in_range = range;
  },
  λ i t e. IsUsed-SameServers a.balancer b t same (aims i t e),
)

-- A change of a server that keeps one in use in its place.
abbrev pub Gentle : (Server → Server) → Type 0
Gentle f = (s : Server) → is_free s.status ≡ false → SamePlace s (f s)

change-SameServers :
    (f : Server → Server) (t : Target) (b : Balancer)
    → Gentle f
    → IsUsed b t
    → SameServers b (change f t b)
change-SameServers f (member_at i) b gentle used = record {
  nmembers = refl;
  nclones = refl;
  table = refl;
  members = λ j. elim (Bool-cases (i == j)) [
    | inl e ↦ let e' : i ≡ j = ground arith in rw (e, ← e') (gentle (b.members i) used)
    | inr e ↦ rw e (SamePlace-refl (b.members j))
  ];
  clones = λ j. SamePlace-refl (b.clones j);
}
change-SameServers f (clone_at i) b gentle used = record {
  nmembers = refl;
  nclones = refl;
  table = refl;
  members = λ j. SamePlace-refl (b.members j);
  clones = λ j. elim (Bool-cases (i == j)) [
    | inl e ↦ let e' : i ≡ j = ground arith in rw (e, ← e') (gentle (b.clones i) used)
    | inr e ↦ rw e (SamePlace-refl (b.clones j))
  ];
}

change_settings :
    (f : Server → Server) (t : Target) (b : Balancer) → (change f t b).settings ≡ b.settings
change_settings f (member_at i) b = refl
change_settings f (clone_at i) b = refl

pub change-Stable :
    (f : Server → Server) (t : Target) (a : Admin)
    → Gentle f
    → IsUsed a.balancer t
    → Stable a
    → Stable (record a { balancer = change f t a.balancer })
change-Stable f t a gentle used h =
    SameServers-Stable a (change f t a.balancer) (change-SameServers f t a.balancer gentle used)
      (subst InRange (sym (change_settings f t a.balancer)) h.0.in_range) h

-- Settings of the admin's choice, and then the mode of cloning or not.
pub set_cloned_state-Stable :
    (a : Admin) (b : Balancer)
    → SameServers a.balancer b
    → InRange b.settings
    → Stable a
    → Stable (record a { balancer = set_cloned_state b })
set_cloned_state-Stable a b same range h =
    SameServers-Stable a (set_cloned_state b)
      (SameServers-trans a.balancer b (set_cloned_state b) same (set_cloned_state-SameServers b))
      (subst InRange (sym (set_cloned_state_settings b)) range) h
