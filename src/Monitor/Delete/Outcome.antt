-- ===== src/Monitor/Delete/Outcome.antt =====
-- What `handle_delete_servers` of src/monitor.c removes and keeps.
use octopuslb.Base.{
  ℕ, ◌+◌, ◌<◌, ◌≡◌, ◌↔◌, refl, sym, ap, ◌∙◌, inl, inr, true, false, ◌&&◌, arith, ◌==◌, ltb,
  if◌then◌else◌, if_split, Bool-cases, update, ℤ, pos, eq_ℤ, for_range, for_range-carries,
  count_below_alike, count_below-eq_zero,
}
use octopuslb.Balancer.{Server, Balancer, zeroed, hash_table_size, hash_val_free, WellFormed}
use octopuslb.Select.Hash.Sticky.{IsEntry}
use octopuslb.Select.Hash.Accounting.{slots_of}
use octopuslb.Monitor.Shape.{IsMonitored}
use octopuslb.Monitor.Delete.{
  is_leaving, clear_hash, shrink, remove_member, remove_clone, visit_member, visit_clone,
  handle_delete_servers,
}

removed-WellFormed :
    (slots : ℕ → Server) (n i : ℕ)
    → i < n
    → WellFormed slots n
    → WellFormed (update slots i zeroed) (shrink i n)
removed-WellFormed slots n i lt w = record {
  in_bounds = ground (arith, w.in_bounds);
  beyond = λ j h. ground (arith, w.beyond j);
  named = λ j h. ground (arith, w.named j);
}

-- The slots of the removed member are gone, those of the others stay.
slots_of-clear_hash :
    (m i : ℕ) (table : ℕ → ℤ)
    → slots_of m (clear_hash i table) ≡ (if i == m then 0 else slots_of m table)
unfolding clear_hash
slots_of-clear_hash m i table = elim (Bool-cases (i == m)) [
  | inl e ↦ rw e (
      count_below-eq_zero (eq_ℤ (pos m)) hash_table_size (clear_hash i table)
        (λ j lt. ground arith))
  | inr e ↦ rw e (
      count_below_alike (eq_ℤ (pos m)) (eq_ℤ (pos m)) hash_table_size table (clear_hash i table)
        (λ j lt. ground arith))
]

remove_member-IsMonitored :
    (i : ℕ) (b : Balancer) → i < b.nmembers → IsMonitored b → IsMonitored (remove_member i b)
unfolding remove_member clear_hash
remove_member-IsMonitored i b lt a = record {
  well_formed = record {
    members_ok = removed-WellFormed b.members b.nmembers i lt a.well_formed.members_ok;
    clones_ok = a.well_formed.clones_ok;
  };
  accounted = record {
    exact = λ m. ground (arith, a.accounted.exact m, slots_of-clear_hash m i b.hash_table);
    entries = λ j.
        if_split IsEntry (eq_ℤ (b.hash_table j) (pos i)) hash_val_free (b.hash_table j)
          (λ e. inl refl) (λ e. a.accounted.entries j);
  };
  mode = λ h. a.mode h;
}

remove_clone-IsMonitored :
    (i : ℕ) (b : Balancer)
    → i < b.nclones
    → is_leaving (b.clones i) ≡ true
    → IsMonitored b
    → IsMonitored (remove_clone i b)
unfolding remove_clone
remove_clone-IsMonitored i b lt gone a = record {
  well_formed = record {
    members_ok = a.well_formed.members_ok;
    clones_ok = removed-WellFormed b.clones b.nclones i lt a.well_formed.clones_ok;
  };
  accounted = record { exact = a.accounted.exact; entries = a.accounted.entries };
  mode = λ nonoff.
      let m = a.mode nonoff in
      (
        λ h. let (j, jl, up) = m.0 h in (j, ground arith, ground arith),
        λ (j, jl, up). m.1 (j, ground arith, ground arith),
      );
}

visit_member-IsMonitored : (i : ℕ) (b : Balancer) → IsMonitored b → IsMonitored (visit_member i b)
unfolding visit_member
visit_member-IsMonitored i b a =
    if_split IsMonitored (ltb i b.nmembers && is_leaving (b.members i)) (remove_member i b) b
      (λ h. remove_member-IsMonitored i b (ground arith) a) (λ h. a)

visit_clone-IsMonitored : (i : ℕ) (b : Balancer) → IsMonitored b → IsMonitored (visit_clone i b)
unfolding visit_clone
visit_clone-IsMonitored i b a =
    if_split IsMonitored (ltb i b.nclones && is_leaving (b.clones i)) (remove_clone i b) b
      (λ h. remove_clone-IsMonitored i b (ground arith) (ground arith) a) (λ h. a)

pub handle_delete_servers-IsMonitored :
    (b : Balancer) → IsMonitored b → IsMonitored (handle_delete_servers b)
unfolding handle_delete_servers
handle_delete_servers-IsMonitored b a =
    for_range-carries (λ k c. IsMonitored c) visit_clone b₁.nclones 0 b₁.nclones b₁ (omega arith)
      (for_range-carries (λ k c. IsMonitored c) visit_member b.nmembers 0 b.nmembers b (omega arith)
        a (λ i c lt h. visit_member-IsMonitored i c h))
      (λ i c lt h. visit_clone-IsMonitored i c h)
  where
    b₁ : Balancer
    b₁ = for_range b.nmembers 0 visit_member b

-- After `k` rounds over the members.
record Visited (b : Balancer) (k : ℕ) (c : Balancer) : Type 0 where
  count : k < b.nmembers → c.nmembers ≡ b.nmembers
  members :
      (j : ℕ) → c.members j ≡ (if ltb j k && is_leaving (b.members j) then zeroed else b.members j)
  table :
      (j m : ℕ)
      → (c.hash_table j ≡ pos m)
        ↔ ((b.hash_table j ≡ pos m) × (ltb m k && is_leaving (b.members m) ≡ false))

not_yet :
    (i : ℕ) (b : Balancer)
    → (if ltb i i && is_leaving (b.members i) then zeroed else b.members i) ≡ b.members i
not_yet i b = ground arith

visit_member-Visited :
    (b c : Balancer) (i : ℕ) → i < b.nmembers → Visited b i c → Visited b (i + 1) (visit_member i c)
unfolding visit_member remove_member clear_hash
visit_member-Visited b c i lt v =
    let n = v.count lt in
    let here : is_leaving (c.members i) ≡ is_leaving (b.members i) =
      ap is_leaving (v.members i ∙ not_yet i b) in
    if_split (Visited b (i + 1)) (ltb i c.nmembers && is_leaving (c.members i)) (remove_member i c)
      c
      (λ h.
        let gone : is_leaving (b.members i) ≡ true = ground arith in
        record {
          count = λ k. ground arith;
          members = λ j. ground (arith, v.members j);
          table = λ j m. ground (arith, v.table j m);
        })
      (λ h.
        let stays : is_leaving (b.members i) ≡ false = ground arith in
        record {
          count = λ k. n;
          members = λ j. ground (arith, v.members j);
          table = λ j m. ground (arith, v.table j m);
        })

-- The loop over the clones leaves the members and the table.
record SameMembers (b c : Balancer) : Type 0 where
  members : c.members ≡ b.members
  table : c.hash_table ≡ b.hash_table

visit_clone-SameMembers :
    (b c : Balancer) (i : ℕ) → SameMembers b c → SameMembers b (visit_clone i c)
unfolding visit_clone remove_clone
visit_clone-SameMembers b c i s =
    if_split (SameMembers b) (ltb i c.nclones && is_leaving (c.clones i)) (remove_clone i c) c
      (λ h. record { members = s.members; table = s.table }) (λ h. s)

-- The removal clears exactly the members below the count that are deleted and have no connections,
-- and leaves the other members as they are; a slot of the hash table names a member afterwards
-- exactly when it named it before and the member was not removed.
pub handle_delete_servers_lem :
    (b : Balancer) (j m : ℕ)
    → ((handle_delete_servers b).members j
        ≡ (if ltb j b.nmembers && is_leaving (b.members j) then zeroed else b.members j))
      × (((handle_delete_servers b).hash_table j ≡ pos m)
          ↔ ((b.hash_table j ≡ pos m) × (ltb m b.nmembers && is_leaving (b.members m) ≡ false)))
unfolding handle_delete_servers
handle_delete_servers_lem b j m =
    let v =
      for_range-carries (Visited b) visit_member b.nmembers 0 b.nmembers b (omega arith)
        (record {
          count = λ h. refl;
          members = λ i. ground arith;
          table = λ i n. (λ h. (h, ground arith), λ h. h.0);
        })
        (λ i c lt h. visit_member-Visited b c i lt h) in
    let s =
      for_range-carries (λ k c. SameMembers b₁ c) visit_clone b₁.nclones 0 b₁.nclones b₁
        (omega arith) (record { members = refl; table = refl })
        (λ i c lt h. visit_clone-SameMembers b₁ c i h) in
    (
      ap (λ slots. slots j) s.members ∙ v.members j,
      (
        λ h. (v.table j m).0 (sym (ap (λ t. t j) s.table) ∙ h),
        λ h. ap (λ t. t j) s.table ∙ (v.table j m).1 h,
      ),
    )
  where
    b₁ : Balancer
    b₁ = for_range b.nmembers 0 visit_member b
