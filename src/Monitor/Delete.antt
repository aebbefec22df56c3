-- ===== src/Monitor/Delete.antt =====
-- `handle_delete_servers` of src/monitor.c.
pub mod Outcome
use octopuslb.Base.{
  ℕ, ◌-◌, Bool, true, false, ◌&&◌, if◌then◌else◌, ◌==◌, ltb, update, ℤ, pos, eq_ℤ, for_range,
}
use octopuslb.Balancer.{Status, Server, Balancer, zeroed, hash_val_free}

abbrev pub is_deleted : Status → Bool
is_deleted Status.deleted = true
is_deleted _ = false

-- A deleted server that has no connections left.
abbrev pub is_leaving : Server → Bool
is_leaving s = is_deleted s.status && eq_ℤ s.c (pos 0)

-- The slots of member `i` are free again.
pub clear_hash : ℕ → (ℕ → ℤ) → ℕ → ℤ
clear_hash i table j = if eq_ℤ (table j) (pos i) then hash_val_free else table j

-- The count without the last server.
abbrev pub shrink : ℕ → ℕ → ℕ
shrink i n = if i == n - 1 then n - 1 else n

pub remove_member : ℕ → Balancer → Balancer
remove_member i b = record b {
  hash_table = clear_hash i b.hash_table;
  members = update b.members i zeroed;
  nmembers = shrink i b.nmembers;
}

pub remove_clone : ℕ → Balancer → Balancer
remove_clone i b = record b { clones = update b.clones i zeroed; nclones = shrink i b.nclones }

-- The test of the loop is made again in each round, as the count may have shrunk.
pub visit_member : ℕ → Balancer → Balancer
visit_member i b = if ltb i b.nmembers && is_leaving (b.members i) then remove_member i b else b

pub visit_clone : ℕ → Balancer → Balancer
visit_clone i b = if ltb i b.nclones && is_leaving (b.clones i) then remove_clone i b else b

pub handle_delete_servers : Balancer → Balancer
handle_delete_servers b =
    let b' = for_range b.nmembers 0 visit_member b in for_range b'.nclones 0 visit_clone b'
