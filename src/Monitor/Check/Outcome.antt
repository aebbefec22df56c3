-- ===== src/Monitor/Check/Outcome.antt =====
-- What the health checks of src/monitor.c do to the servers and to the mode of cloning.
use octopuslb.Base.{
  ℕ, ◌≡◌, refl, inl, inr, true, ◌&&◌, arith, ◌==◌, if_split, Bool-cases, update, for_range,
  for_range-carries,
}
use octopuslb.Balancer.{Server, Balancer}
use octopuslb.Balancer.Cloning.{set_cloned_state}
use octopuslb.Monitor.Check.{
  Probe, is_checked, is_probed, judged, check_member, check_clone, check_servers,
}
use octopuslb.Monitor.Shape.{
  SamePlace, SamePlace-refl, SameServers, SameServers-refl, SameServers-trans, ModeRight,
  set_cloned_state-SameServers, set_cloned_state-ModeRight,
}

judged-SamePlace : (p : Probe) (s : Server) → is_checked s.status ≡ true → SamePlace s (judged p s)
unfolding judged
judged-SamePlace p s h = ground arith

pub at_place :
    (slots : ℕ → Server) (i : ℕ) (s : Server)
    → SamePlace (slots i) s
    → (j : ℕ) → SamePlace (slots j) (update slots i s j)
at_place slots i s same j = elim (Bool-cases (i == j)) [
  | inl e ↦
      let e' : i ≡ j = ground arith in rw (← e') (ground (arith, same.id, same.free, same.usage))
  | inr e ↦ rw e (SamePlace-refl (slots j))
]

-- The places stay, and a mode that was right is right.
abbrev pub Sound : Balancer → Balancer → Type 0
Sound b b' = SameServers b b' × (ModeRight b → ModeRight b')

pub Sound-refl : (b : Balancer) → Sound b b
Sound-refl b = (SameServers-refl b, λ h. h)

pub Sound-trans : (b c d : Balancer) → Sound b c → Sound c d → Sound b d
Sound-trans b c d x y = (SameServers-trans b c d x.0 y.0, λ h. y.1 (x.1 h))

-- A verdict is followed by the update of the mode.
settled : (b c : Balancer) → SameServers b c → Sound b (set_cloned_state c)
settled b c same = (
  SameServers-trans b c (set_cloned_state c) same (set_cloned_state-SameServers c),
  λ h. set_cloned_state-ModeRight c,
)

check_member-Sound : (p : Probe) (i : ℕ) (b : Balancer) → Sound b (check_member p i b)
unfolding check_member
check_member-Sound p i b =
    if_split (Sound b) (is_checked (b.members i).status && is_probed p) _ b
      (λ h. settled b _ (record {
        nmembers = refl;
        nclones = refl;
        table = refl;
        members = at_place b.members i _ (judged-SamePlace p (b.members i) (ground arith));
        clones = λ j. SamePlace-refl (b.clones j);
      }))
      (λ h. Sound-refl b)

check_clone-Sound : (p : Probe) (i : ℕ) (b : Balancer) → Sound b (check_clone p i b)
unfolding check_clone
check_clone-Sound p i b =
    if_split (Sound b) (is_checked (b.clones i).status && is_probed p) _ b
      (λ h. settled b _ (record {
        nmembers = refl;
        nclones = refl;
        table = refl;
        members = λ j. SamePlace-refl (b.members j);
        clones = at_place b.clones i _ (judged-SamePlace p (b.clones i) (ground arith));
      }))
      (λ h. Sound-refl b)

pub check_servers-Sound : (ms cs : ℕ → Probe) (b : Balancer) → Sound b (check_servers ms cs b)
unfolding check_servers
check_servers-Sound ms cs b =
    for_range-carries (λ i c. Sound b c) (λ i c. check_clone (cs i) i c) b₁.nclones 0 b₁.nclones b₁
      (omega arith)
      (for_range-carries (λ i c. Sound b c) (λ i c. check_member (ms i) i c) b.nmembers 0 b.nmembers
        b (omega arith) (Sound-refl b)
        (λ i c lt h. Sound-trans b c _ h (check_member-Sound (ms i) i c)))
      (λ i c lt h. Sound-trans b c _ h (check_clone-Sound (cs i) i c))
  where
    b₁ : Balancer
    b₁ = for_range b.nmembers 0 (λ i c. check_member (ms i) i c) b
