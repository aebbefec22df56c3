-- ===== src/Monitor/Rebalance.antt =====
-- `rebalance_hash` of src/monitor.c. The order that `qsort` puts the members in is an argument.
pub mod Counting
pub mod Extremes
pub mod Outcome
use octopuslb.Base.{
  ℕ, suc, ◌+◌, ◌-◌, Bool, true, false, not, ◌&&◌, List, [], ◌∷◌, if◌then◌else◌, ◌==◌, leb, update,
  ℤ, pos, eq_ℤ, leb_ℤ, ◌-ℤ◌, ◌*ℤ◌, div_ℤ, to_short, inc_ushort, dec_ushort, length, get_or, map,
  indices, for_range,
}
use octopuslb.Balancer.{Status, Server, Balancer, is_enabled, zeroed, hash_table_size}
use octopuslb.Select.Hash.{gain_hash, lose_hash, modify}

-- The enabled members that are no standbys, in the order of the array.
pub subjects : Balancer → List Server
subjects b =
    map b.members
      (indices (λ i. is_enabled (b.members i).status && not (b.members i).standby) b.nmembers 0)

-- One slot of the table: while hashes are left to move, a slot of `high` goes to `low`.
pub move_hash : ℕ → ℕ → ℕ → ℤ × Balancer → ℤ × Balancer
move_hash low high i (left, b) =
    if leb_ℤ left (pos 0)
    then (left, b)
    else if eq_ℤ (b.hash_table i) (pos high)
    then (
      left -ℤ pos 1,
      record b {
        hash_table = update b.hash_table i (to_short low);
        members = modify gain_hash low (modify lose_hash high b.members);
      },
    )
    else (left, b)

pub move_hashes : ℕ → ℕ → ℤ → Balancer → Balancer
move_hashes low high left b = (for_range hash_table_size 0 (move_hash low high) (left, b)).1

-- The ids of the first and the last when sorted.
pub extremes : (List Server → List Server) → Balancer → ℕ × ℕ
extremes sort b =
    let sorted = sort (subjects b) in
    ((get_or sorted 0 zeroed).id, (get_or sorted (length (subjects b) - 1) zeroed).id)

pub rebalance_hash : (List Server → List Server) → Balancer → Balancer
rebalance_hash sort b =
    if leb (length (subjects b)) 1
    then b
    else (let (low, high) = extremes sort b in
        if leb_ℤ b.hash_rebalance_threshold ((b.members high).e_load -ℤ (b.members low).e_load)
        then move_hashes low high
            (div_ℤ (pos (b.members high).hash_table_usage *ℤ b.hash_rebalance_size) 100) b
        else b)
