-- ===== src/Monitor/Rebalance/Extremes.antt =====
-- Between which members `rebalance_hash` of src/monitor.c moves slots of the hash table, and how many.
use octopuslb.Base.{
  ℕ, ◌≡◌, ◌≢◌, ◌⊎◌, Bool, true, false, not, ◌&&◌, List, ℤ, pos, leb_ℤ, ◌-ℤ◌, ◌*ℤ◌, div_ℤ, length,
  ◌≤ℤ◌,
}
use octopuslb.Balancer.{Server, Balancer, is_enabled, IsWellFormed}
use octopuslb.Monitor.Rebalance.{subjects, move_hashes}
use octopuslb.Monitor.Rebalance.Counting.{count_if}
use octopuslb.Monitor.Rebalance.Outcome.{IsSort, IsSubject}

-- All that `qsort` promises: in ascending order, and each element as often as before.
pub record IsExactSort (sort : List Server → List Server) : Type 0 where
  pub sorts : IsSort sort
  pub same_length : (xs : List Server) → length (sort xs) ≡ length xs
  pub counts :
      (test : Server → Bool) (xs : List Server) → count_if test (sort xs) ≡ count_if test xs

-- Two members that take part, of which one has the least load and the other the most.
pub record AreExtreme (b : Balancer) (low high : ℕ) : Type 0 where
  pub low_subject : IsSubject b (b.members low)
  pub high_subject : IsSubject b (b.members high)
  pub apart : low ≢ high
  pub least : (s : Server) → IsSubject b s → (b.members low).e_load ≤ℤ s.e_load
  pub most : (s : Server) → IsSubject b s → s.e_load ≤ℤ (b.members high).e_load

module _ (sort : List Server → List Server) (b : Balancer) (q : IsExactSort sort)
    (w : IsWellFormed b) where
  sorted : List Server
  sorted = sort (subjects b)

  takes_part : ℕ → Bool
  takes_part i = is_enabled (b.members i).status && not (b.members i).standby

-- A slot of the table is as it was, or it was `high`'s and is now `low`'s.
abbrev pub Passed : (low high : ℕ) → (old new : ℕ → ℤ) → Type 0
Passed low high old new = (i : ℕ) → (new i ≡ old i) ⊎ ((old i ≡ pos high) × (new i ≡ pos low))

-- What the rebalancing makes of a balancer on which at least two members take part.
pub record Rebalanced (b b' : Balancer) (low high : ℕ) : Type 0 where
  pub extreme : AreExtreme b low high
  pub below_threshold :
      leb_ℤ b.hash_rebalance_threshold ((b.members high).e_load -ℤ (b.members low).e_load) ≡ false
      → b' ≡ b
  pub above_threshold :
      leb_ℤ b.hash_rebalance_threshold ((b.members high).e_load -ℤ (b.members low).e_load) ≡ true
      → b'
        ≡ move_hashes low high
            (div_ℤ (pos (b.members high).hash_table_usage *ℤ b.hash_rebalance_size) 100)
            b
  pub passed : Passed low high b.hash_table b'.hash_table
