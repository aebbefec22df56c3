-- ===== src/Select/Available/Settle.antt =====
-- The current member and the current clone that `get_available_servers` of src/algorithms.c settles on.
use octopuslb.Base.{
  ℕ, ◌<◌, ◌≡◌, inl, inr, Bool, true, false, List, arith, ltb, Bool-cases, contains, contains-head,
  is_empty, get_or,
}
use octopuslb.Balancer.{Server, Balancer, WellFormed}
use octopuslb.Select.{Selection, second_pass, settle_member, settle_clone}
use octopuslb.Select.Available.{Eligible, Scanned, verify_server_lem, first_pass-Eligible}

-- A server of a well-formed array that is eligible stands below the count.
pub Eligible-lt :
    (b : Balancer) (slots : ℕ → Server) (n i : ℕ)
    → WellFormed slots n
    → Eligible b (slots i)
    → i < n
unfolding second_pass
Eligible-lt b slots n i w e = elim (Bool-cases (ltb i n)) [
  | inl lt ↦ ground arith
  | inr ge ↦ ground (arith, w.beyond i)
]

-- Every index that a scan lists is below the count and eligible.
pub listed-Eligible :
    (b : Balancer) (slots : ℕ → Server) (n : ℕ) (xs : List ℕ) (spare : Bool) (k : ℕ)
    → Scanned b slots n xs spare
    → contains xs k ≡ true
    → (k < n) × Eligible b (slots k)
listed-Eligible b slots n xs spare k sc h =
    ground (arith, sc.listed k, first_pass-Eligible b (slots k))

pub settle_member_rest :
    (b : Balancer) (s : Selection)
    → settle_member b s ≡ record s { next_member = (settle_member b s).next_member }
unfolding settle_member
settle_member_rest b s = ground arith

pub settle_member_listed :
    (b : Balancer) (s : Selection)
    → WellFormed b.members b.nmembers
    → Scanned b b.members b.nmembers s.available_members s.using_member_standby
    → is_empty s.available_members ≡ false
    → contains s.available_members (settle_member b s).next_member ≡ true
unfolding settle_member
settle_member_listed b s w sc some = ground (
  arith,
  contains-head s.available_members some,
  verify_server_lem b (b.members s.next_member),
  Eligible-lt b b.members b.nmembers s.next_member w,
  sc.listed s.next_member,
  sc.spare_used,
  first_pass-Eligible b (b.members s.next_member),
)

-- The clone that `settle_clone` leaves current is eligible (it may be a standby), and a change of
-- the current member is to the head of the list.
pub settle_clone-Eligible :
    (b : Balancer) (s : Selection)
    → Scanned b b.clones b.nclones s.available_clones s.using_clone_standby
    → is_empty s.available_clones ≡ false
    → Eligible b (b.clones (settle_clone b s).next_clone)
unfolding settle_clone
settle_clone-Eligible b s sc some = ground (
  arith,
  contains-head s.available_clones some,
  verify_server_lem b (b.clones s.next_clone),
  listed-Eligible b b.clones b.nclones s.available_clones s.using_clone_standby
      (get_or s.available_clones 0 0) sc,
)

pub settle_clone_rest :
    (b : Balancer) (s : Selection)
    → settle_clone b s ≡ record s {
      next_member = (settle_clone b s).next_member;
      next_clone = (settle_clone b s).next_clone;
    }
unfolding settle_clone
settle_clone_rest b s = ground arith

pub settle_clone_member :
    (b : Balancer) (s : Selection)
    → is_empty s.available_members ≡ false
    → contains s.available_members s.next_member ≡ true
    → contains s.available_members (settle_clone b s).next_member ≡ true
unfolding settle_clone
settle_clone_member b s some h = ground (arith, contains-head s.available_members some)
