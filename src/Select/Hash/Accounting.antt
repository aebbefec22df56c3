-- ===== src/Select/Hash/Accounting.antt =====
-- `hash_table_usage` counts the slots of the hash table that name the server (src/algorithms.c).
use octopuslb.Base.{
  ℕ, ◌+◌, ◌<◌, ◌≤◌, ◌≡◌, inl, inr, refl, arith, ◌==◌, if◌then◌else◌, Bool-cases, update, ℤ, pos,
  eq_ℤ, count_below, count_below-le, count_below-update,
}
use octopuslb.Balancer.{Balancer, hash_table_size, hash_val_free, max_servers, IsWellFormed}
use octopuslb.Select.{Selection}
use octopuslb.Select.Available.Offer.{Offered, Offered-lt}
use octopuslb.Select.Least.{set_lc_server}
use octopuslb.Select.Hash.{assign, reassign, usable, set_hash_slot}
use octopuslb.Select.Hash.Sticky.{IsEntry, lc_listed, to_short_of_lt, pos_not_free}

-- How many slots of the table name server `m`.
abbrev pub slots_of : ℕ → (ℕ → ℤ) → ℕ
slots_of m table = count_below (eq_ℤ (pos m)) hash_table_size table

-- Each counter is exact, and each entry is free or names a member.
pub record IsAccounted (b : Balancer) : Type 0 where
  pub exact : (m : ℕ) → (b.members m).hash_table_usage ≡ slots_of m b.hash_table
  pub entries : (j : ℕ) → IsEntry (b.hash_table j)

-- One slot handed to `k`: the count of `k` grows by one, unless the slot was its own.
pub slots_of-update :
    (m h k : ℕ) (table : ℕ → ℤ)
    → h < hash_table_size
    → slots_of m (update table h (pos k)) + (if eq_ℤ (pos m) (table h) then 1 else 0)
      ≡ slots_of m table + (if m == k then 1 else 0)
slots_of-update m h k table lt =
    ground (arith, count_below-update (eq_ℤ (pos m)) hash_table_size table h (pos k) lt)

pub slots_of-le : (m : ℕ) (table : ℕ → ℤ) → slots_of m table ≤ hash_table_size
slots_of-le m table = count_below-le (eq_ℤ (pos m)) hash_table_size table

pub IsEntry-update :
    (table : ℕ → ℤ) (h k j : ℕ)
    → k < max_servers
    → IsEntry (table j)
    → IsEntry (update table h (pos k) j)
IsEntry-update table h k j small e = elim (Bool-cases (h == j)) [
  | inl t ↦ rw t (inr (k, small, refl))
  | inr t ↦ rw t e
]

assign-IsAccounted :
    (h : ℕ) (b : Balancer) (s : Selection)
    → h < hash_table_size
    → IsAccounted b
    → b.hash_table h ≡ hash_val_free
    → (set_lc_server b s).next_member < max_servers
    → IsAccounted (assign h b s).0
unfolding assign
assign-IsAccounted h b s lt a free small = rw (to_short_of_lt k small) (record {
  exact = λ m. ground (
    arith,
    a.exact m,
    slots_of-update m h k b.hash_table lt,
    slots_of-le m (update b.hash_table h (pos k)),
  );
  entries = λ j. IsEntry-update b.hash_table h k j small (a.entries j);
})
  where
    k : ℕ
    k = (set_lc_server b s).next_member

reassign-IsAccounted :
    (h old : ℕ) (b : Balancer) (s : Selection)
    → h < hash_table_size
    → IsAccounted b
    → b.hash_table h ≡ pos old
    → (set_lc_server b s).next_member < max_servers
    → IsAccounted (reassign h old b s).0
unfolding reassign
reassign-IsAccounted h old b s lt a held small = rw (to_short_of_lt k small) (record {
  exact = λ m. ground (
    arith,
    a.exact m,
    slots_of-update m h k b.hash_table lt,
    slots_of-le m b.hash_table,
    slots_of-le m (update b.hash_table h (pos k)),
  );
  entries = λ j. IsEntry-update b.hash_table h k j small (a.entries j);
})
  where
    k : ℕ
    k = (set_lc_server b s).next_member

-- A choice by the HASH algorithm keeps every usage counter equal to the number of slots that name
-- the server, and every entry free or the index of a member.
pub set_hash_slot-IsAccounted :
    (h : ℕ) (b : Balancer) (s : Selection)
    → IsWellFormed b
    → Offered b s
    → h < hash_table_size
    → IsAccounted b
    → IsAccounted (set_hash_slot h b s).0
unfolding set_hash_slot
set_hash_slot-IsAccounted h b s w o lt a = elim (a.entries h) [
  | inl e ↦ rw (e, set_hash_slot) (assign-IsAccounted h b s lt a e small)
  | inr (k, _, e) ↦
      rw (e, set_hash_slot)
        (rw (pos_not_free k) (elim (Bool-cases (usable b s (b.members k))) [
          | inl u ↦ rw u a
          | inr u ↦ rw u (reassign-IsAccounted h k b s lt a e small)
        ]))
]
  where
    small : (set_lc_server b s).next_member < max_servers
    small = Offered-lt b s (set_lc_server b s).next_member w o (lc_listed b s w o)
