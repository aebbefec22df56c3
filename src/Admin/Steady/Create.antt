-- ===== src/Admin/Steady/Create.antt =====
-- `create_balancer_server` of src/octopus.h keeps what a session of src/admin.c keeps.
use octopuslb.Base.{
  ℕ, ◌≡◌, ◌∙◌, sym, subst, refl, Bool, true, false, arith, ◌==◌, Bool-cases, inl, inr, to_ushort,
}
use octopuslb.Balancer.{Status, Server, is_free}
use octopuslb.Balancer.Create.{
  Created, created, no_memory, invalid_port, out_of_bounds, Request, new_server,
  create_balancer_server, PlacedAt, PlacedAt-WellFormed,
}
use octopuslb.Balancer.Create.Outcome.{create_balancer_server_lem}
use octopuslb.Admin.{Target, member_at, clone_at, Admin}
use octopuslb.Admin.Steady.{IsUsed, Stable}

module _ {slots : ℕ → Server} {n : ℕ} {s : Server} {slots' : ℕ → Server} {n' k : ℕ}
    (p : PlacedAt slots n s slots' n' k) (used : is_free s.status ≡ false) where
  placed-used : (i : ℕ) → is_free (slots i).status ≡ false → is_free (slots' i).status ≡ false
  placed-used i h = rw p.written (elim (Bool-cases (k == i)) [ inl e ↦ rw e used | inr e ↦ rw e h ])

  -- The slot had no hash values, and has none.
  placed-usage :
      ((i : ℕ) → (slots i).status ≡ Status.free → (slots i).hash_table_usage ≡ 0)
      → s.hash_table_usage ≡ 0
      → (i : ℕ) → (slots' i).hash_table_usage ≡ (slots i).hash_table_usage
  placed-usage vacant zero i = rw p.written (elim (Bool-cases (k == i)) [
    | inl e ↦
        let e' : k ≡ i = ground arith in
        rw e (zero ∙ sym (vacant i (subst (λ j. (slots j).status ≡ Status.free) e' p.was_free)))
    | inr e ↦ rw e refl
  ])

  placed-vacant :
      ((i : ℕ) → (slots i).status ≡ Status.free → (slots i).hash_table_usage ≡ 0)
      → s.hash_table_usage ≡ 0
      → (i : ℕ) → (slots' i).status ≡ Status.free
      → (slots' i).hash_table_usage ≡ 0
  placed-vacant vacant zero i =
      rw p.written
        (elim (Bool-cases (k == i)) [ inl e ↦ rw e (λ h. zero) | inr e ↦ rw e (vacant i) ])

member-Stable :
    (r : Request) (a : Admin) (slots : ℕ → Server) (n k : ℕ)
    → is_free r.status ≡ false
    → PlacedAt a.balancer.members a.balancer.nmembers (new_server r) slots n k
    → Stable a
    → Stable (record a { balancer = record a.balancer { members = slots; nmembers = n } })
unfolding new_server
member-Stable r a slots n k used p (w, aims) =
    let usage = placed-usage p used w.vacant refl in
    (
      record {
        well_formed = record {
          members_ok = PlacedAt-WellFormed w.well_formed.members_ok p;
          clones_ok = w.well_formed.clones_ok;
        };
        accounted = record {
          exact = λ m. usage m ∙ w.accounted.exact m;
          entries = w.accounted.entries;
        };
        vacant = placed-vacant p used w.vacant refl;
        in_range = w.in_range;
      },
      λ i t e. kept t (aims i t e),
    )
  where
    kept :
        (t : Target)
        → IsUsed a.balancer t
        → IsUsed (record a.balancer { members = slots; nmembers = n }) t
    kept (member_at i) h = placed-used p used i h
    kept (clone_at i) h = h

clone-Stable :
    (r : Request) (a : Admin) (slots : ℕ → Server) (n k : ℕ)
    → is_free r.status ≡ false
    → PlacedAt a.balancer.clones a.balancer.nclones (new_server r) slots n k
    → Stable a
    → Stable (record a { balancer = record a.balancer { clones = slots; nclones = n } })
unfolding new_server
clone-Stable r a slots n k used p (w, aims) = (
  record {
    well_formed = record {
      members_ok = w.well_formed.members_ok;
      clones_ok = PlacedAt-WellFormed w.well_formed.clones_ok p;
    };
    accounted = record { exact = w.accounted.exact; entries = w.accounted.entries };
    vacant = w.vacant;
    in_range = w.in_range;
  },
  λ i t e. kept t (aims i t e),
)
  where
    kept :
        (t : Target)
        → IsUsed a.balancer t
        → IsUsed (record a.balancer { clones = slots; nclones = n }) t
    kept (member_at i) h = h
    kept (clone_at i) h = placed-used p used i h

-- The balancer that a creation leaves, if it makes one.
abbrev pub Makes : Admin → Created → Type 0
Makes a (created b) = Stable (record a { balancer = b })
Makes a no_memory = Unit
Makes a invalid_port = Unit
Makes a out_of_bounds = Unit

pub create_balancer_server-Makes :
    (memory : Bool) (r : Request) (a : Admin)
    → is_free r.status ≡ false
    → Stable a
    → Makes a (create_balancer_server memory r a.balancer)
unfolding create_balancer_server
create_balancer_server-Makes false r a used h = tt
create_balancer_server-Makes true r a used h = elim (Bool-cases (to_ushort r.port == 0)) [
  | inl z ↦ rw z tt
  | inr nz ↦
      let ok = create_balancer_server_lem r a.balancer h.0.well_formed (λ z. ground arith) in
      elim (Bool-cases r.clone) [
        | inr m ↦ elim (ok.0 m) [
          | inl (slots, n, k, q, p) ↦ subst (Makes a) (sym q) (member-Stable r a slots n k used p h)
          | inr (q, _) ↦ subst (Makes a) (sym q) tt
        ]
        | inl c ↦ elim (ok.1 c) [
          | inl (slots, n, k, q, p) ↦ subst (Makes a) (sym q) (clone-Stable r a slots n k used p h)
          | inr (q, _) ↦ subst (Makes a) (sym q) tt
        ]
      ]
]
