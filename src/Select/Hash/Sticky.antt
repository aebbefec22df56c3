-- ===== src/Select/Hash/Sticky.antt =====
-- The HASH algorithm of src/algorithms.c picks candidates, and a URI stays with its server.
use octopuslb.Base.{
  ℕ, ◌<◌, ◌≡◌, ◌≢◌, ◌⊎◌, refl, true, false, arith, contains, ℤ, pos, pos_part, eq_ℤ, to_short,
}
use octopuslb.Balancer.{Balancer, IsWellFormed, hash_val_free, max_servers}
use octopuslb.Select.{Selection}
use octopuslb.Select.Available.{verify_server_lem, first_pass-Eligible}
use octopuslb.Select.Available.Offer.{Offered, Offered-Named, Offered-lt}
use octopuslb.Select.Available.Settle.{Eligible-lt}
use octopuslb.Select.Least.{set_lc_server, set_lc_server_lem}
use octopuslb.Select.Hash.{assign, reassign, reuse, usable, set_hash_slot}

-- A server of the slot that may be used is one of the candidates.
usable-listed :
    (b : Balancer) (s : Selection) (k : ℕ)
    → IsWellFormed b
    → Offered b s
    → usable b s (b.members k) ≡ true
    → contains s.available_members k ≡ true
unfolding usable
usable-listed b s k w o h = ground (
  arith,
  verify_server_lem b (b.members k),
  Eligible-lt b b.members b.nmembers k w.members_ok,
  o.members.listed k,
  o.members.spare_used,
  first_pass-Eligible b (b.members k),
)

-- An entry of the hash table is free or the index of a member.
abbrev pub IsEntry : ℤ → Type 0
IsEntry e = (e ≡ hash_val_free) ⊎ ((k : ℕ) × (k < max_servers) × (e ≡ pos k))

pub lc_listed :
    (b : Balancer) (s : Selection)
    → IsWellFormed b
    → Offered b s
    → contains s.available_members (set_lc_server b s).next_member ≡ true
lc_listed b s w o = (set_lc_server_lem b s (Offered-Named b s w o) o.current).0

-- Whatever the table holds for the slot, the chosen member is one of the candidates.
pub set_hash_slot_listed :
    (h : ℕ) (b : Balancer) (s : Selection)
    → IsWellFormed b
    → Offered b s
    → contains s.available_members (set_hash_slot h b s).1.next_member ≡ true
unfolding set_hash_slot assign reassign reuse
set_hash_slot_listed h b s w o = ground (
  arith,
  lc_listed b s w o,
  usable-listed b s (pos_part (b.hash_table h)) w o,
  Offered-Named b s w o (pos_part (b.hash_table h)),
)

pub to_short_of_lt : (k : ℕ) → k < max_servers → to_short k ≡ pos k
to_short_of_lt k h = ground arith

-- After the choice the slot names the chosen member, and the other slots are as they were.
pub set_hash_slot_records :
    (h : ℕ) (b : Balancer) (s : Selection)
    → IsWellFormed b
    → Offered b s
    → IsEntry (b.hash_table h)
    → ((set_hash_slot h b s).0.hash_table h ≡ pos (set_hash_slot h b s).1.next_member)
      × ((j : ℕ) → h ≢ j → (set_hash_slot h b s).0.hash_table j ≡ b.hash_table j)
unfolding set_hash_slot assign reassign reuse
set_hash_slot_records h b s w o e = (
  ground (
    arith,
    to_short_of_lt (set_lc_server b s).next_member,
    Offered-lt b s (set_lc_server b s).next_member w o (lc_listed b s w o),
    usable-listed b s (pos_part (b.hash_table h)) w o,
    Offered-Named b s w o (pos_part (b.hash_table h)),
  ),
  λ j ne. ground arith,
)

pub pos_not_free : (m : ℕ) → eq_ℤ (pos m) hash_val_free ≡ false
pos_not_free m = ground arith

-- While the slot names a member that may be used, the choice is that member, and neither the table
-- nor any server changes.
pub set_hash_slot_hit :
    (h m : ℕ) (b : Balancer) (s : Selection)
    → IsWellFormed b
    → Offered b s
    → b.hash_table h ≡ pos m
    → usable b s (b.members m) ≡ true
    → ((set_hash_slot h b s).1.next_member ≡ m) × ((set_hash_slot h b s).0 ≡ b)
unfolding set_hash_slot reuse
set_hash_slot_hit h m b s w o e u =
    let listed = usable-listed b s m w o u in
    let named = Offered-Named b s w o m listed in
    rw (e, set_hash_slot) (rw (pos_not_free m, u) (named, refl))
