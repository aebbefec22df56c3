-- ===== src/Select/Examples.antt =====
-- Runs of the algorithms of src/algorithms.c on the sample balancer.
use octopuslb.Base.{
  ℕ, ◌+◌, ◌%◌, ◌<◌, ◌≡◌, ◌≢◌, ◌↔◌, refl, true, false, [], ◌∷◌, arith, contains, position, get_or,
  pos, ltb, leb, Floats, ◌≤ℤ◌, update, pos_part, subst, ap, ◌∙◌, indices, sym, count_below-eq_zero,
  eq_ℤ, inl,
}
use octopuslb.Balancer.{Balancer, hash_table_size, IsWellFormed}
use octopuslb.Balancer.Examples.{sample, sample-IsWellFormed}
use octopuslb.Select.{
  Selection, get_available_servers, reset, scan, scan_clones, settle_member, settle_clone,
  verify_server, first_pass, second_pass,
}
use octopuslb.Select.Available.{CanTake}
use octopuslb.Select.Available.Offer.{Offered, Offered-Named, get_available_servers_lem}
use octopuslb.Select.Rotate.{Named, rounds, rounds_lem, set_rr_server, advance, indices-Distinct}
use octopuslb.Select.Least.{set_lc_server, set_lc_server_lem, IsOrdered, least}
use octopuslb.Select.Uri.{null_result, overrun, request_uri, memccpy, c_string, strchr}
use octopuslb.Select.Hash.{usable, set_hash_slot}
use octopuslb.Select.Hash.Accounting.{IsAccounted, slots_of, set_hash_slot-IsAccounted}
use octopuslb.Select.Choose.{chosen, choose, run_algorithm, choose_safe, choose_total}

-- Floats whose order is that of the bit patterns, as it is for positive numbers.
abbrev pub floats : Floats
floats = record {
  add = λ a b. a + b;
  mul = λ a b. 0;
  div = λ a b. 0;
  lt = ltb;
  le = leb;
  of_int = pos_part;
  to_int = pos;
}

abbrev start : Selection
start = record {
  next_member = 0;
  next_clone = 0;
  available_members = [];
  available_clones = [];
  use_clone = false;
  using_member_standby = false;
  using_clone_standby = false;
}

-- Both members and the clone are candidates.
abbrev candidates : Selection
candidates = record start {
  available_members = 0 ∷ 1 ∷ [];
  available_clones = 0 ∷ [];
  use_clone = true;
}

get_available_servers-sample : get_available_servers sample start ≡ (true, candidates)
unfolding get_available_servers reset scan scan_clones settle_member settle_clone verify_server
    first_pass second_pass indices
get_available_servers-sample = refl

candidates-Offered : Offered sample candidates
candidates-Offered =
    subst (λ r. Offered sample r.1) get_available_servers-sample
      ((get_available_servers_lem sample start sample-IsWellFormed).1
        (ap (λ r. r.0) get_available_servers-sample))

candidates-Named : Named sample.members candidates.available_members
candidates-Named = Offered-Named sample candidates sample-IsWellFormed candidates-Offered

get_available_servers_lem_example :
    (((get_available_servers sample start).0 ≡ false)
      ↔ ((i : ℕ) → i < 2 → ¬ CanTake sample (sample.members i)))
    × ((get_available_servers sample start).0 ≡ true
        → Offered sample (get_available_servers sample start).1)
get_available_servers_lem_example = get_available_servers_lem sample start sample-IsWellFormed

-- From member 0 the round robin goes to member 1, which has fewer connections.
choose-sample :
    choose floats sample start [] ≡ chosen sample (record candidates { next_member = 1 })
unfolding choose get_available_servers reset scan scan_clones settle_member settle_clone
    verify_server first_pass second_pass indices run_algorithm set_lc_server set_rr_server advance
    position least
choose-sample = refl

choose_safe_example : (1 < 2) × CanTake sample (sample.members 1)
choose_safe_example =
    choose_safe floats sample start [] sample (record candidates { next_member = 1 })
      sample-IsWellFormed choose-sample

CanTake-sample : CanTake sample (sample.members 0)
CanTake-sample = ground arith

no_uri_sample : (request_uri [] ≢ null_result) × (request_uri [] ≢ overrun)
unfolding request_uri memccpy c_string strchr
no_uri_sample = (λ h. cc, λ h. cc)

choose_total_example :
    (b' : Balancer) × (s' : Selection) × (choose floats sample start [] ≡ chosen b' s')
choose_total_example =
    choose_total floats sample start [] 0 sample-IsWellFormed (omega arith) CanTake-sample
      no_uri_sample

set_lc_server_lem_example :
    (contains (0 ∷ 1 ∷ []) (set_lc_server sample candidates).next_member ≡ true)
    × ((k : ℕ)
        → contains (0 ∷ 1 ∷ []) k ≡ true
        → (sample.members (set_lc_server sample candidates).next_member).c ≤ℤ (sample.members k).c)
unfolding contains
set_lc_server_lem_example = set_lc_server_lem sample candidates candidates-Named refl

floats-IsOrdered : IsOrdered floats
floats-IsOrdered = record { irrefl = λ a. ground arith; trans = λ a b c h k. ground arith }

rounds_lem_example : (rounds 5 sample candidates).next_member ≡ get_or (0 ∷ 1 ∷ []) ((0 + 5) % 2) 0
unfolding indices position
rounds_lem_example =
    rounds_lem 5 0 sample candidates candidates-Named (indices-Distinct (λ i. true) 2 0) refl

zero_slots : (m : ℕ) → 0 ≡ slots_of m sample.hash_table
zero_slots m =
    sym (count_below-eq_zero (eq_ℤ (pos m)) hash_table_size sample.hash_table (λ i h. ground arith))

no_usage : (m : ℕ) → (sample.members m).hash_table_usage ≡ 0
no_usage m = ground arith

pub nothing_hashed : IsAccounted sample
nothing_hashed = record { exact = λ m. no_usage m ∙ zero_slots m; entries = λ j. inl refl }

set_hash_slot-IsAccounted_example : IsAccounted (set_hash_slot 7 sample candidates).0
set_hash_slot-IsAccounted_example =
    set_hash_slot-IsAccounted 7 sample candidates sample-IsWellFormed candidates-Offered
      (omega arith) nothing_hashed

-- Slot 7 belongs to member 0.
abbrev hashed : Balancer
hashed = record sample { hash_table = update sample.hash_table 7 (pos 0) }

hashed-IsWellFormed : IsWellFormed hashed
hashed-IsWellFormed = record {
  members_ok = sample-IsWellFormed.members_ok;
  clones_ok = sample-IsWellFormed.clones_ok;
}

get_available_servers-hashed : get_available_servers hashed start ≡ (true, candidates)
unfolding get_available_servers reset scan scan_clones settle_member settle_clone verify_server
    first_pass second_pass indices
get_available_servers-hashed = refl

hashed-Offered : Offered hashed candidates
hashed-Offered =
    subst (λ r. Offered hashed r.1) get_available_servers-hashed
      ((get_available_servers_lem hashed start hashed-IsWellFormed).1
        (ap (λ r. r.0) get_available_servers-hashed))

usable_sample : usable hashed candidates (hashed.members 0) ≡ true
unfolding usable verify_server
usable_sample = refl
