-- ===== src/Select/Hash/Counts.antt =====
-- The HASH algorithm of src/algorithms.c leaves the connection counts as they are.
use octopuslb.Base.{ℕ, ◌≡◌, refl, arith}
use octopuslb.Balancer.{Balancer}
use octopuslb.Select.{Selection}
use octopuslb.Select.Hash.{assign, reassign, set_hash_slot}

-- The members' connection counts and the clones are the same.
pub record SameCounts (b b' : Balancer) : Type 0 where
  pub members : (m : ℕ) → (b'.members m).c ≡ (b.members m).c
  pub clones : (m : ℕ) → (b'.clones m).c ≡ (b.clones m).c

pub SameCounts-refl : (b : Balancer) → SameCounts b b
SameCounts-refl b = record { members = λ m. refl; clones = λ m. refl }

pub set_hash_slot-SameCounts :
    (h : ℕ) (b : Balancer) (s : Selection) → SameCounts b (set_hash_slot h b s).0
unfolding set_hash_slot assign reassign
set_hash_slot-SameCounts h b s = record { members = λ m. ground arith; clones = λ m. ground arith }
