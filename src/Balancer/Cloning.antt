-- ===== src/Balancer/Cloning.antt =====
-- `set_cloned_state` of src/octopus.h: the cloning mode follows the states of the clones.
use octopuslb.Base.{
  ℕ, ◌<◌, ◌≡◌, ◌≢◌, ◌↔◌, ◌⊎◌, inl, inr, true, not, arith, if◌then◌else◌, ◌==◌, Bool-cases,
  count_below, count_below_cases, count_below_full, exists_below, exists_below-witness,
  exists_below_intro, refl,
}
use octopuslb.Balancer.{Server, Balancer, CloneMode, off, on, broken, is_enabled}

-- In mode ON the loop counts the clones that are not enabled; in mode FAILED it stops at the first
-- enabled one.
pub set_cloned_state : Balancer → Balancer
set_cloned_state b = elim b.clone_mode [
  | off ↦ b
  | on ↦
      if count_below (λ (s : Server). not (is_enabled s.status)) b.nclones b.clones == b.nclones
      then record b { clone_mode = broken }
      else b
  | broken ↦
      if exists_below (λ i. is_enabled (b.clones i).status) b.nclones 0
      then record b { clone_mode = on }
      else b
]

pub CloneMode-cases : (m : CloneMode) → (m ≡ off) ⊎ ((m ≡ on) ⊎ (m ≡ broken))
CloneMode-cases off = inl refl
CloneMode-cases on = inr (inl refl)
CloneMode-cases broken = inr (inr refl)

-- There is an enabled clone.
abbrev pub HasClone : Balancer → Type 0
HasClone b = (i : ℕ) × (i < b.nclones) × (is_enabled (b.clones i).status ≡ true)

abbrev down_clones : Balancer → ℕ
down_clones b = count_below (λ (s : Server). not (is_enabled s.status)) b.nclones b.clones

on-HasClone :
    (b : Balancer) → b.clone_mode ≢ off → (set_cloned_state b).clone_mode ≡ on → HasClone b
unfolding set_cloned_state
on-HasClone b h e = elim (CloneMode-cases b.clone_mode) [
  | inl m ↦ absurd (h m)
  | inr (inl m) ↦
      elim (count_below_cases (λ (s : Server). not (is_enabled s.status)) b.nclones b.clones) [
        | inl all ↦ ground arith
        | inr (i, lt, up) ↦ (i, lt, ground arith)
      ]
  | inr (inr m) ↦
      elim (Bool-cases (exists_below (λ i. is_enabled (b.clones i).status) b.nclones 0)) [
        | inl f ↦
            let r = exists_below-witness (λ i. is_enabled (b.clones i).status) b.nclones 0 f in
            (r.0, omega arith, r.3)
        | inr f ↦ ground arith
      ]
]

HasClone-on :
    (b : Balancer) → b.clone_mode ≢ off → HasClone b → (set_cloned_state b).clone_mode ≡ on
unfolding set_cloned_state
HasClone-on b h (i, lt, up) = elim (CloneMode-cases b.clone_mode) [
  | inl m ↦ absurd (h m)
  | inr (inl m) ↦
      ground
        (arith, count_below_full (λ (s : Server). not (is_enabled s.status)) b.nclones b.clones i)
  | inr (inr m) ↦ ground (
    arith,
    exists_below_intro (λ i. is_enabled (b.clones i).status) b.nclones 0 i (omega arith)
        (omega arith) up,
  )
]

-- After the update the mode of a balancer whose cloning is not off is ON exactly when one of the
-- clones is enabled; cloning that is off stays off, and nothing but the mode changes.
pub set_cloned_state_lem :
    (b : Balancer)
    → (b.clone_mode ≢ off → ((set_cloned_state b).clone_mode ≡ on) ↔ HasClone b)
      × (b.clone_mode ≡ off → set_cloned_state b ≡ b)
      × (set_cloned_state b ≡ record b { clone_mode = (set_cloned_state b).clone_mode })
unfolding set_cloned_state
set_cloned_state_lem b = (λ h. (on-HasClone b h, HasClone-on b h), λ h. ground arith, ground arith)

-- The settings are left alone.
pub set_cloned_state_settings : (b : Balancer) → (set_cloned_state b).settings ≡ b.settings
unfolding set_cloned_state
set_cloned_state_settings b = ground arith

-- And so are the servers.
pub set_cloned_state_servers :
    (b : Balancer)
    → ((set_cloned_state b).members ≡ b.members) × ((set_cloned_state b).clones ≡ b.clones)
unfolding set_cloned_state
set_cloned_state_servers b = (ground arith, ground arith)
