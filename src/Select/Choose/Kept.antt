-- ===== src/Select/Choose/Kept.antt =====
-- A choice by src/algorithms.c leaves the connection counts as they are.
use octopuslb.Base.{ℕ, ◌≡◌, refl, inl, inr, Option, none, some, List, arith, Bool-cases, ap}
use octopuslb.Balancer.{Balancer, Algorithm, rr, lc, ll, hash, static}
use octopuslb.Select.{Selection, get_available_servers}
use octopuslb.Select.Uri.{Uri-cases, request_uri}
use octopuslb.Select.Hash.{set_hash_server, set_static_server}
use octopuslb.Select.Choose.{
  Choice, no_server, fault, chosen, of_hash, of_static, run_algorithm, choose,
}
use octopuslb.Select.Hash.Counts.{SameCounts, SameCounts-refl, set_hash_slot-SameCounts}
use octopuslb.Base.{Floats}

-- Of the outcomes of a choice, only a server that is chosen has a balancer.
abbrev Keeps : Balancer → Choice → Type 0
Keeps b (chosen b' s') = SameCounts b b'
Keeps b _ = Unit {0}

of_hash-Keeps :
    (b : Balancer) (s : Selection) (buffer : List ℕ)
    → Keeps b (of_hash (set_hash_server b s buffer))
unfolding set_hash_server
of_hash-Keeps b s buffer = elim (Uri-cases (request_uri buffer)) [
  | inl e ↦ rw (e, set_hash_server) (SameCounts-refl b)
  | inr (inl e) ↦ rw (e, set_hash_server) tt
  | inr (inr (inl e)) ↦ rw (e, set_hash_server) tt
  | inr (inr (inr (h, e))) ↦ rw (e, set_hash_server) (set_hash_slot-SameCounts h b s)
]

of_static-Keeps : (b : Balancer) (o : Option Selection) → Keeps b (of_static b o)
of_static-Keeps b none = tt
of_static-Keeps b (some s) = SameCounts-refl b

run_algorithm-Keeps :
    (f : Floats) (b₀ b : Balancer) (s : Selection) (buffer : List ℕ) (a : Algorithm)
    → b.algorithm ≡ a
    → SameCounts b₀ b
    → Keeps b₀ (of_hash (set_hash_server b s buffer))
    → Keeps b₀ (of_static b (set_static_server b s buffer))
    → Keeps b₀ (run_algorithm f b s buffer)
unfolding run_algorithm
run_algorithm-Keeps f b₀ b s buffer rr e same h t = rw (e, run_algorithm) same
run_algorithm-Keeps f b₀ b s buffer ll e same h t = rw (e, run_algorithm) same
run_algorithm-Keeps f b₀ b s buffer lc e same h t = rw (e, run_algorithm) same
run_algorithm-Keeps f b₀ b s buffer hash e same h t = rw (e, run_algorithm) h
run_algorithm-Keeps f b₀ b s buffer static e same h t = rw (e, run_algorithm) t

Keeps-chosen :
    (b b' : Balancer) (s' : Selection) (o : Choice) → Keeps b o → o ≡ chosen b' s' → SameCounts b b'
Keeps-chosen b b' s' (chosen b₀ s₀) k e = let q : b₀ ≡ b' = ap (λ o. of_chosen b₀ o) e in rw q at k
  where
    of_chosen : Balancer → Choice → Balancer
    of_chosen d (chosen c _) = c
    of_chosen d _ = d
Keeps-chosen b b' s' fault k e = absurd (cc)
Keeps-chosen b b' s' (no_server _) k e = absurd (cc)

pub choose-SameCounts :
    (f : Floats) (b : Balancer) (s : Selection) (buffer : List ℕ) (b' : Balancer) (s' : Selection)
    → choose f b s buffer ≡ chosen b' s'
    → SameCounts b b'
unfolding choose
choose-SameCounts f b s buffer b' s' e = elim (Bool-cases (get_available_servers b s).0) [
  | inr no_members ↦ absurd (ground arith)
  | inl found ↦
      Keeps-chosen b b' s' _
        (run_algorithm-Keeps f b b (get_available_servers b s).1 buffer b.algorithm refl
          (SameCounts-refl b) (of_hash-Keeps b _ buffer) (of_static-Keeps b _))
        (rw (found, choose) at e)
]
