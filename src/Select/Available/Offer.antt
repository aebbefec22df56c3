-- ===== src/Select/Available/Offer.antt =====
-- The candidates that `get_available_servers` of src/algorithms.c hands to the algorithms.
use octopuslb.Base.{
  ℕ, ◌<◌, ◌≡◌, ◌≢◌, ◌↔◌, inl, inr, refl, sym, subst, true, false, arith, if◌then◌else◌, Bool-cases,
  contains, is_empty,
}
use octopuslb.Balancer.{Server, Balancer, Status, IsWellFormed, max_servers}
use octopuslb.Select.{
  Selection, second_pass, scan, settle_member, scan_clones, reset, get_available_servers, is_on,
}
use octopuslb.Select.Available.{Eligible, Eligible-iff, CanTake, Scanned, scan-Scanned}
use octopuslb.Select.Available.Settle.{
  listed-Eligible, settle_member_rest, settle_member_listed, settle_clone-Eligible,
  settle_clone_rest, settle_clone_member,
}

-- The candidates: the listed members are those that the scans admit and the current member is one
-- of them; where clones are used, cloning is on, a clone is listed, and the current clone is
-- eligible.
pub record Offered (b : Balancer) (s : Selection) : Type 0 where
  pub members : Scanned b b.members b.nmembers s.available_members s.using_member_standby
  pub current : contains s.available_members s.next_member ≡ true
  pub cloning : s.use_clone ≡ true → is_on b.clone_mode ≡ true
  pub clones :
      s.use_clone ≡ true → Scanned b b.clones b.nclones s.available_clones s.using_clone_standby
  pub some_clone : s.use_clone ≡ true → is_empty s.available_clones ≡ false
  pub clone_ok : s.use_clone ≡ true → Eligible b (b.clones s.next_clone)

scan_clones-Offered :
    (b : Balancer) (s : Selection)
    → is_on b.clone_mode ≡ true
    → s.use_clone ≡ false
    → is_empty s.available_members ≡ false
    → Scanned b b.members b.nmembers s.available_members s.using_member_standby
    → contains s.available_members s.next_member ≡ true
    → Offered b (scan_clones b s)
unfolding scan_clones
scan_clones-Offered b s mode fresh some sc cur =
    elim (Bool-cases (is_empty (scan b b.clones b.nclones).0)) [
      | inl e ↦ rw e (record {
        members = sc;
        current = cur;
        cloning = λ h. mode;
        clones = λ h. absurd (cc);
        some_clone = λ h. absurd (cc);
        clone_ok = λ h. absurd (cc);
      })
      | inr e ↦ rw e (
          subst (Offered b) (sym (settle_clone_rest b found)) (record {
            members = sc;
            current = settle_clone_member b found some cur;
            cloning = λ h. mode;
            clones = λ h. scan-Scanned b b.clones b.nclones;
            some_clone = λ h. e;
            clone_ok = λ h. settle_clone-Eligible b found (scan-Scanned b b.clones b.nclones) e;
          }))
    ]
  where
    found : Selection
    found = record s {
      available_clones = (scan b b.clones b.nclones).0;
      using_clone_standby = (scan b b.clones b.nclones).1;
      use_clone = true;
    }

-- With no cloning the settled members are all the candidates.
no_clones-Offered :
    (b : Balancer) (s : Selection)
    → s.use_clone ≡ false
    → Scanned b b.members b.nmembers s.available_members s.using_member_standby
    → contains s.available_members s.next_member ≡ true
    → Offered b s
no_clones-Offered b s fresh sc cur = record {
  members = sc;
  current = cur;
  cloning = λ h. absurd (cc);
  clones = λ h. absurd (cc);
  some_clone = λ h. absurd (cc);
  clone_ok = λ h. absurd (cc);
}

settled-Offered :
    (b : Balancer) (s : Selection)
    → IsWellFormed b
    → is_empty s.available_members ≡ false
    → s.use_clone ≡ false
    → Scanned b b.members b.nmembers s.available_members s.using_member_standby
    → Offered b
        (if is_on b.clone_mode then scan_clones b (settle_member b s) else settle_member b s)
settled-Offered b s w some fresh sc =
    rw (settle_member_rest b s) (elim (Bool-cases (is_on b.clone_mode)) [
      | inl m ↦ rw m (scan_clones-Offered b settled m fresh some sc listed)
      | inr m ↦ rw m (no_clones-Offered b settled fresh sc listed)
    ])
  where
    settled : Selection
    settled = record s { next_member = (settle_member b s).next_member }

    listed : contains s.available_members (settle_member b s).next_member ≡ true
    listed = settle_member_listed b s w.members_ok sc some

reset-Scanned :
    (b : Balancer) (s : Selection)
    → Scanned b b.members b.nmembers (reset b s).available_members (reset b s).using_member_standby
unfolding reset
reset-Scanned b s = scan-Scanned b b.members b.nmembers

use_clone-reset : (b : Balancer) (s : Selection) → (reset b s).use_clone ≡ false
unfolding reset
use_clone-reset b s = refl

-- On a well-formed balancer the search fails exactly when no member is enabled, below its limit
-- and, in strict mode, not overloaded. When it succeeds, the listed members are those that the
-- scans admit, the current member is one of them, and a current clone, if clones are used, is
-- eligible.
pub get_available_servers_lem :
    (b : Balancer) (s : Selection)
    → IsWellFormed b
    → (((get_available_servers b s).0 ≡ false)
        ↔ ((i : ℕ) → i < b.nmembers → ¬ CanTake b (b.members i)))
      × ((get_available_servers b s).0 ≡ true → Offered b (get_available_servers b s).1)
unfolding get_available_servers
get_available_servers_lem b s w = elim (Bool-cases (is_empty (reset b s).available_members)) [
  | inl e ↦ rw e (
    (
      λ h i lt t. cc ((reset-Scanned b s).empty.0 e i lt, (Eligible-iff b (b.members i)).1 t),
      λ h. refl,
    ),
    λ h. absurd (cc),
  )
  | inr e ↦ rw e (
    (λ h. absurd (cc), λ h. absurd (cc ((reset-Scanned b s).empty.1 (λ i lt. refuse i (h i lt))))),
    λ h. settled-Offered b (reset b s) w e (use_clone-reset b s) (reset-Scanned b s),
  )
]
  where
    refuse : (i : ℕ) → ¬ CanTake b (b.members i) → second_pass b (b.members i) ≡ false
    refuse i no_take = elim (Bool-cases (second_pass b (b.members i))) [
      | inl e ↦ absurd (no_take ((Eligible-iff b (b.members i)).0 e))
      | inr e ↦ e
    ]

Eligible-used : (b : Balancer) (t : Server) → Eligible b t → t.status ≢ Status.free
unfolding second_pass
Eligible-used b t e h = ground arith

-- A listed member holds its own index.
pub Offered-Named :
    (b : Balancer) (s : Selection)
    → IsWellFormed b
    → Offered b s
    → (k : ℕ) → contains s.available_members k ≡ true
    → (b.members k).id ≡ k
Offered-Named b s w o k m =
    let r = listed-Eligible b b.members b.nmembers _ _ k o.members m in
    w.members_ok.named k (Eligible-used b (b.members k) r.1)

-- A listed member is within the array.
pub Offered-lt :
    (b : Balancer) (s : Selection) (k : ℕ)
    → IsWellFormed b
    → Offered b s
    → contains s.available_members k ≡ true
    → k < max_servers
Offered-lt b s k w o m =
    let r = listed-Eligible b b.members b.nmembers _ _ k o.members m in
    let le = w.members_ok.in_bounds in omega arith
