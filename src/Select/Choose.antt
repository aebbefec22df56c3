-- ===== src/Select/Choose.antt =====
-- The part of `choose_server` of src/algorithms.c that chooses: the candidates, then the algorithm.
pub mod Kept
use octopuslb.Base.{
  ℕ, ◌+◌, ◌%◌, ◌<◌, ◌≤◌, ◌≡◌, ◌≢◌, inl, inr, refl, Bool, true, false, Option, none, some, List, [],
  ◌∷◌, arith, if◌then◌else◌, Bool-cases, Option-cases, contains, contains-get_or, get_or, length,
  length_of_contains, is_empty, Floats,
}
use octopuslb.Balancer.{Server, Balancer, Algorithm, rr, lc, ll, hash, static, IsWellFormed}
use octopuslb.Select.{Selection, get_available_servers}
use octopuslb.Select.Available.{CanTake, Eligible-iff}
use octopuslb.Select.Available.Settle.{listed-Eligible}
use octopuslb.Select.Available.Offer.{Offered, Offered-Named, get_available_servers_lem}
use octopuslb.Select.Rotate.{set_rr_server, advance_listed}
use octopuslb.Select.Least.{set_lc_server, set_ll_server, least-keeps, less_load}
use octopuslb.Select.Uri.{Uri, no_uri, null_result, overrun, slot, Uri-cases, request_uri}
use octopuslb.Select.Hash.{set_static_server, set_hash_server, set_hash_slot}
use octopuslb.Select.Hash.Sticky.{lc_listed, set_hash_slot_listed}

-- -1 from `get_available_servers`, the call of `strlen` with NULL, or the choice made.
pub data Choice : Type 0 where
  no_server : Selection → Choice
  fault : Choice
  chosen : Balancer → Selection → Choice

abbrev pub of_static : Balancer → Option Selection → Choice
of_static b none = fault
of_static b (some s) = chosen b s

abbrev pub of_hash : Option (Balancer × Selection) → Choice
of_hash none = fault
of_hash (some (b, s)) = chosen b s

unfoldable pub run_algorithm : Floats → Balancer → Selection → List ℕ → Choice
run_algorithm f b s buffer = elim b.algorithm [
  | rr ↦ chosen b (set_rr_server b s)
  | ll ↦ chosen b (set_ll_server f b s)
  | lc ↦ chosen b (set_lc_server b s)
  | hash ↦ of_hash (set_hash_server b s buffer)
  | static ↦ of_static b (set_static_server b s buffer)
]

unfoldable pub choose : Floats → Balancer → Selection → List ℕ → Choice
choose f b s buffer =
    let r = get_available_servers b s in if r.0 then run_algorithm f b r.1 buffer else no_server r.1

-- A choice of a listed member.
abbrev pub Picks : Selection → Choice → Type 0
Picks s (chosen b' s') = contains s.available_members s'.next_member ≡ true
Picks s _ = Unit {0}

static-Picks :
    (b : Balancer) (s : Selection) (buffer : List ℕ)
    → IsWellFormed b
    → Offered b s
    → Picks s (of_static b (set_static_server b s buffer))
unfolding set_static_server
static-Picks b s buffer w o = elim (Uri-cases (request_uri buffer)) [
  | inl e ↦ rw (e, set_static_server) (lc_listed b s w o)
  | inr (inl e) ↦ rw (e, set_static_server) tt
  | inr (inr (inl e)) ↦ rw (e, set_static_server) tt
  | inr (inr (inr (h, e))) ↦
      let some = length_of_contains s.available_members s.next_member o.current in
      rw (e, set_static_server)
        (contains-get_or s.available_members (h % length s.available_members) 0 (omega arith))
]

hash-Picks :
    (b : Balancer) (s : Selection) (buffer : List ℕ)
    → IsWellFormed b
    → Offered b s
    → Picks s (of_hash (set_hash_server b s buffer))
unfolding set_hash_server
hash-Picks b s buffer w o = elim (Uri-cases (request_uri buffer)) [
  | inl e ↦ rw (e, set_hash_server) (lc_listed b s w o)
  | inr (inl e) ↦ rw (e, set_hash_server) tt
  | inr (inr (inl e)) ↦ rw (e, set_hash_server) tt
  | inr (inr (inr (h, e))) ↦ rw (e, set_hash_server) (set_hash_slot_listed h b s w o)
]

-- Every algorithm chooses one of the candidates.
run_algorithm-Picks :
    (f : Floats) (b : Balancer) (s : Selection) (buffer : List ℕ) (a : Algorithm)
    → b.algorithm ≡ a
    → IsWellFormed b
    → Offered b s
    → Picks s (run_algorithm f b s buffer)
unfolding run_algorithm set_rr_server set_ll_server
run_algorithm-Picks f b s buffer rr e w o =
    rw (e, run_algorithm)
      (advance_listed b.members s.available_members s.next_member (Offered-Named b s w o) o.current)
run_algorithm-Picks f b s buffer ll e w o =
    rw (e, run_algorithm)
      (least-keeps (λ k. contains s.available_members k ≡ true) (less_load f b) b.members
        s.available_members s.next_member (Offered-Named b s w o) (λ k m. m) o.current)
run_algorithm-Picks f b s buffer lc e w o = rw (e, run_algorithm) (lc_listed b s w o)
run_algorithm-Picks f b s buffer hash e w o = rw (e, run_algorithm) (hash-Picks b s buffer w o)
run_algorithm-Picks f b s buffer static e w o = rw (e, run_algorithm) (static-Picks b s buffer w o)

Picks-chosen :
    (s : Selection) (o : Choice) (b' : Balancer) (s' : Selection)
    → Picks s o
    → o ≡ chosen b' s'
    → contains s.available_members s'.next_member ≡ true
Picks-chosen s (chosen b₀ s₀) b' s' p e = ground arith
Picks-chosen s fault b' s' p e = absurd (cc)
Picks-chosen s (no_server _) b' s' p e = absurd (cc)

-- Whichever algorithm runs and whatever the request is: where the code makes a choice on a
-- well-formed balancer, and does not crash on the request's first line, its choice is a member below
-- the count that is enabled, below its connection limit and, in strict mode, not overloaded.
pub choose_safe :
    (f : Floats) (b : Balancer) (s : Selection) (buffer : List ℕ) (b' : Balancer) (s' : Selection)
    → IsWellFormed b
    → choose f b s buffer ≡ chosen b' s'
    → (s'.next_member < b.nmembers) × CanTake b (b.members s'.next_member)
unfolding choose
choose_safe f b s buffer b' s' w e = elim (Bool-cases (get_available_servers b s).0) [
  | inr no_members ↦ absurd (ground arith)
  | inl found ↦
      let offer = (get_available_servers_lem b s w).1 found in
      let cands = (get_available_servers b s).1 in
      let picked =
        Picks-chosen cands _ b' s' (run_algorithm-Picks f b cands buffer b.algorithm refl w offer)
          (rw (found, choose) at e) in
      let r = listed-Eligible b b.members b.nmembers _ _ s'.next_member offer.members picked in
      (r.0, (Eligible-iff b (b.members s'.next_member)).0 r.1)
]

-- The choice is made, by whatever algorithm.
abbrev pub IsChosen : Choice → Type 0
IsChosen o = (b' : Balancer) × (s' : Selection) × (o ≡ chosen b' s')

static-IsChosen :
    (b : Balancer) (s : Selection) (buffer : List ℕ)
    → (request_uri buffer ≢ null_result) × (request_uri buffer ≢ overrun)
    → IsChosen (of_static b (set_static_server b s buffer))
unfolding set_static_server
static-IsChosen b s buffer fine = elim (Uri-cases (request_uri buffer)) [
  | inl e ↦ rw (e, set_static_server) (b, _, refl)
  | inr (inl e) ↦ absurd (fine.0 e)
  | inr (inr (inl e)) ↦ absurd (fine.1 e)
  | inr (inr (inr (h, e))) ↦ rw (e, set_static_server) (b, _, refl)
]

hash-IsChosen :
    (b : Balancer) (s : Selection) (buffer : List ℕ)
    → (request_uri buffer ≢ null_result) × (request_uri buffer ≢ overrun)
    → IsChosen (of_hash (set_hash_server b s buffer))
unfolding set_hash_server
hash-IsChosen b s buffer fine = elim (Uri-cases (request_uri buffer)) [
  | inl e ↦ rw (e, set_hash_server) (b, _, refl)
  | inr (inl e) ↦ absurd (fine.0 e)
  | inr (inr (inl e)) ↦ absurd (fine.1 e)
  | inr (inr (inr (h, e))) ↦ rw (e, set_hash_server) (_, _, refl)
]

run_algorithm-IsChosen :
    (f : Floats) (b : Balancer) (s : Selection) (buffer : List ℕ) (a : Algorithm)
    → b.algorithm ≡ a
    → (request_uri buffer ≢ null_result) × (request_uri buffer ≢ overrun)
    → IsChosen (run_algorithm f b s buffer)
unfolding run_algorithm
run_algorithm-IsChosen f b s buffer rr e fine = rw (e, run_algorithm) (b, _, refl)
run_algorithm-IsChosen f b s buffer ll e fine = rw (e, run_algorithm) (b, _, refl)
run_algorithm-IsChosen f b s buffer lc e fine = rw (e, run_algorithm) (b, _, refl)
run_algorithm-IsChosen f b s buffer hash e fine =
    rw (e, run_algorithm) (hash-IsChosen b s buffer fine)
run_algorithm-IsChosen f b s buffer static e fine =
    rw (e, run_algorithm) (static-IsChosen b s buffer fine)

-- If some member is enabled, below its limit and, in strict mode, not overloaded, then a server is
-- chosen, unless the request's URI is nothing but question marks or the first 200 bytes have no NUL
-- and no end of the URI, so that the code reads past them.
pub choose_total :
    (f : Floats) (b : Balancer) (s : Selection) (buffer : List ℕ) (i : ℕ)
    → IsWellFormed b
    → i < b.nmembers
    → CanTake b (b.members i)
    → (request_uri buffer ≢ null_result) × (request_uri buffer ≢ overrun)
    → (b' : Balancer) × (s' : Selection) × (choose f b s buffer ≡ chosen b' s')
unfolding choose
choose_total f b s buffer i w lt take fine = elim (Bool-cases (get_available_servers b s).0) [
  | inl found ↦
      rw (found, choose)
        (run_algorithm-IsChosen f b (get_available_servers b s).1 buffer b.algorithm refl fine)
  | inr no_members ↦ absurd ((get_available_servers_lem b s w).0.0 no_members i lt take)
]
