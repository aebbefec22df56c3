-- ===== src/Monitor/Rebalance/Outcome.antt =====
-- What `rebalance_hash` of src/monitor.c keeps: every slot still has one owner, and the counters tell.
use octopuslb.Base.{
  ℕ, ◌<◌, ◌≤◌, ◌≡◌, refl, Bool, true, false, List, arith, if_split, update, ℤ, pos, eq_ℤ, leb_ℤ,
  to_short, for_range-carries, eq_ℤ_iff, leb, length, get_or, map, zero, suc, [], ◌∷◌, ap, ◌≤ℤ◌,
  not, ◌&&◌, indices, contains-indices_zero, contains, contains-get_or,
}
use octopuslb.Balancer.{
  Server, Balancer, zeroed, is_enabled, hash_table_size, max_servers, IsWellFormed,
}
use octopuslb.Select.Hash.{gain_hash, lose_hash, modify}
use octopuslb.Select.Hash.Sticky.{to_short_of_lt}
use octopuslb.Select.Hash.Accounting.{IsAccounted, slots_of-update, slots_of-le, IsEntry-update}
use octopuslb.Monitor.Shape.{IsMonitored}
use octopuslb.Monitor.Rebalance.{subjects, move_hash, move_hashes, extremes, rebalance_hash}

-- One slot moved from `high` to `low`.
moved-IsAccounted :
    (low high i : ℕ) (b : Balancer)
    → low < max_servers
    → i < hash_table_size
    → b.hash_table i ≡ pos high
    → IsAccounted b
    → IsAccounted (record b {
      hash_table = update b.hash_table i (to_short low);
      members = modify gain_hash low (modify lose_hash high b.members);
    })
moved-IsAccounted low high i b small lt owner a = rw (to_short_of_lt low small) (record {
  exact = λ m. ground (
    arith,
    a.exact m,
    slots_of-update m i low b.hash_table lt,
    slots_of-le m b.hash_table,
    slots_of-le m (update b.hash_table i (pos low)),
  );
  entries = λ j. IsEntry-update b.hash_table i low j small (a.entries j);
})

moved-IsMonitored :
    (low high i : ℕ) (b : Balancer)
    → low < max_servers
    → i < hash_table_size
    → b.hash_table i ≡ pos high
    → IsMonitored b
    → IsMonitored (record b {
      hash_table = update b.hash_table i (to_short low);
      members = modify gain_hash low (modify lose_hash high b.members);
    })
moved-IsMonitored low high i b small lt owner a = record {
  well_formed = record {
    members_ok = record {
      in_bounds = a.well_formed.members_ok.in_bounds;
      beyond = λ j h. ground (arith, a.well_formed.members_ok.beyond j);
      named = λ j h. ground (arith, a.well_formed.members_ok.named j);
    };
    clones_ok = a.well_formed.clones_ok;
  };
  accounted = moved-IsAccounted low high i b small lt owner a.accounted;
  mode = λ h. a.mode h;
}

move_hash-IsMonitored :
    (low high i : ℕ) (left : ℤ) (b : Balancer)
    → low < max_servers
    → i < hash_table_size
    → IsMonitored b
    → IsMonitored (move_hash low high i (left, b)).1
unfolding move_hash
move_hash-IsMonitored low high i left b small lt a =
    if_split (λ (r : ℤ × Balancer). IsMonitored r.1) (leb_ℤ left (pos 0)) (left, b) _ (λ h. a)
      (λ h.
        if_split (λ (r : ℤ × Balancer). IsMonitored r.1) (eq_ℤ (b.hash_table i) (pos high)) _
          (left, b)
          (λ e.
            moved-IsMonitored low high i b small lt ((eq_ℤ_iff (b.hash_table i) (pos high)).0 e) a)
          (λ e. a))

pub move_hashes-IsMonitored :
    (low high : ℕ) (left : ℤ) (b : Balancer)
    → low < max_servers
    → IsMonitored b
    → IsMonitored (move_hashes low high left b)
unfolding move_hashes
move_hashes-IsMonitored low high left b small a =
    for_range-carries (λ k (r : ℤ × Balancer). IsMonitored r.1) (move_hash low high) hash_table_size
      0 hash_table_size (left, b) (omega arith) a
      (λ i r lt h. move_hash-IsMonitored low high i r.0 r.1 small lt h)

-- What `qsort` promises: the sorted list has the elements of the list, in ascending order.
pub record IsSort (sort : List Server → List Server) : Type 0 where
  pub elements :
      (xs : List Server) (i : ℕ)
      → i < length xs
      → (k : ℕ) × (k < length xs) × (get_or (sort xs) i zeroed ≡ get_or xs k zeroed)
  pub ascending :
      (xs : List Server) (i j : ℕ)
      → i ≤ j
      → j < length xs
      → (get_or (sort xs) i zeroed).e_load ≤ℤ (get_or (sort xs) j zeroed).e_load

get_or-map :
    (g : ℕ → Server) (xs : List ℕ) (k : ℕ)
    → k < length xs
    → get_or (map g xs) k zeroed ≡ g (get_or xs k 0)
get_or-map g [] k lt = absurd (omega arith)
get_or-map g (x ∷ xs) zero lt = refl
get_or-map g (x ∷ xs) (suc k) lt = get_or-map g xs k (omega arith)

length-map : (g : ℕ → Server) (xs : List ℕ) → length (map g xs) ≡ length xs
length-map g [] = refl
length-map g (x ∷ xs) = ap suc (length-map g xs)

listed-kept :
    (test : ℕ → Bool) (n k : ℕ) → contains (indices test n 0) k ≡ true → (k < n) × (test k ≡ true)
listed-kept test n k h =
    (ground (arith, contains-indices_zero test n k), ground (arith, contains-indices_zero test n k))

-- A subject is a member under its own index, enabled and no standby.
pub record IsSubject (b : Balancer) (s : Server) : Type 0 where
  pub below : s.id < b.nmembers
  pub member : b.members s.id ≡ s
  pub enabled : is_enabled s.status ≡ true
  pub regular : s.standby ≡ false

pub subjects-IsSubject :
    (b : Balancer) (k : ℕ)
    → IsWellFormed b
    → k < length (subjects b)
    → IsSubject b (get_or (subjects b) k zeroed)
unfolding subjects
subjects-IsSubject b k w lt = rw (get_or-map b.members listed k fits) (record {
  below = rw name keep.0;
  member = ap b.members name;
  enabled = ground (arith, keep.1);
  regular = ground (arith, keep.1);
})
  where
    test : ℕ → Bool
    test i = is_enabled (b.members i).status && not (b.members i).standby

    listed : List ℕ
    listed = indices test b.nmembers 0

    fits : k < length listed
    fits = omega (arith, length-map b.members listed)

    at : ℕ
    at = get_or listed k 0

    keep : (at < b.nmembers) × (test at ≡ true)
    keep = listed-kept test b.nmembers at (contains-get_or listed k 0 fits)

    name : (b.members at).id ≡ at
    name = w.members_ok.named at (λ f. ground (arith, keep.1))

-- With a sorting function as `qsort` promises it, the rebalancing keeps the balancer well-formed,
-- the usage counters equal to the slots of each member, and the mode of cloning right.
pub rebalance_hash-IsMonitored :
    (sort : List Server → List Server) (b : Balancer)
    → IsSort sort
    → IsMonitored b
    → IsMonitored (rebalance_hash sort b)
unfolding rebalance_hash extremes
rebalance_hash-IsMonitored sort b q a =
    if_split IsMonitored (leb (length (subjects b)) 1) b _ (λ h. a)
      (λ h.
        let (k, kl, ke) = q.elements (subjects b) 0 (ground arith) in
        let lo : IsSubject b (get_or (sort (subjects b)) 0 zeroed) =
          rw ke (subjects-IsSubject b k a.well_formed kl) in
        if_split IsMonitored (leb_ℤ b.hash_rebalance_threshold _) _ b
          (λ t.
            move_hashes-IsMonitored (extremes sort b).0 (extremes sort b).1 _ b
              (omega (arith, lo.below, a.well_formed.members_ok.in_bounds)) a)
          (λ t. a))
