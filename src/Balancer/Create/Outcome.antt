-- ===== src/Balancer/Create/Outcome.antt =====
-- What `create_balancer_server` of src/octopus.h does to a well-formed balancer.
use octopuslb.Base.{
  ℕ, ◌≡◌, ◌≢◌, ◌⊎◌, inl, inr, Bool, true, false, arith, ◌==◌, Bool-cases, subst, to_ushort,
}
use octopuslb.Balancer.{Server, Balancer, max_servers, IsWellFormed}
use octopuslb.Balancer.Create.{
  Created, created, out_of_bounds, Request, new_server, create_balancer_server, InUse, PlacedAt,
  place_lem, PlacedAt-WellFormed,
}

-- With memory and a port that is not 0 modulo 65536, a member goes to the first free slot or to
-- the end of the members and nothing else of the balancer changes, unless all 512 slots are in use:
-- then the code writes out of bounds. A clone does so in the array of clones.
pub create_balancer_server_lem :
    (r : Request) (b : Balancer)
    → IsWellFormed b
    → to_ushort r.port ≢ 0
    → (r.clone ≡ false
        → ((slots : ℕ → Server) × (n k : ℕ) × (create_balancer_server true r b
              ≡ created (record b { members = slots; nmembers = n }))
            × PlacedAt b.members b.nmembers (new_server r) slots n k)
          ⊎ ((create_balancer_server true r b ≡ out_of_bounds) × InUse b.members max_servers))
      × (r.clone ≡ true
          → ((slots : ℕ → Server) × (n k : ℕ) × (create_balancer_server true r b
                ≡ created (record b { clones = slots; nclones = n }))
              × PlacedAt b.clones b.nclones (new_server r) slots n k)
            ⊎ ((create_balancer_server true r b ≡ out_of_bounds) × InUse b.clones max_servers))
unfolding create_balancer_server
create_balancer_server_lem r b w port = (
  λ e. elim (place_lem b.members b.nmembers (new_server r) w.members_ok) [
    | inl (slots, n, k, q, p) ↦ inl (slots, n, k, ground arith, p)
    | inr (q, used) ↦ inr (ground arith, used)
  ],
  λ e. elim (place_lem b.clones b.nclones (new_server r) w.clones_ok) [
    | inl (slots, n, k, q, p) ↦ inl (slots, n, k, ground arith, p)
    | inr (q, used) ↦ inr (ground arith, used)
  ],
)

-- A result `created b'` that is also `created b₀` carries over what holds of `b₀`.
carry :
    {b₀ b' : Balancer} (o : Created)
    → o ≡ created b₀
    → o ≡ created b'
    → IsWellFormed b₀
    → IsWellFormed b'
carry {b₀} {b'} o p q w = subst IsWellFormed (cc) w

-- Whatever is asked for, the balancer is well-formed after a creation that succeeds.
pub create_balancer_server-IsWellFormed :
    (memory : Bool) (r : Request) (b b' : Balancer)
    → IsWellFormed b
    → create_balancer_server memory r b ≡ created b'
    → IsWellFormed b'
unfolding create_balancer_server
create_balancer_server-IsWellFormed false r b b' w e = absurd (cc)
create_balancer_server-IsWellFormed true r b b' w e = elim (Bool-cases (to_ushort r.port == 0)) [
  | inl z ↦ absurd (ground arith)
  | inr nz ↦
      let ok = create_balancer_server_lem r b w (λ z. ground arith) in
      elim (Bool-cases r.clone) [
        | inr m ↦ elim (ok.0 m) [
          | inl (slots, n, k, q, p) ↦
              carry _ q e (record {
                members_ok = PlacedAt-WellFormed w.members_ok p;
                clones_ok = w.clones_ok;
              })
          | inr (q, _) ↦ absurd (cc)
        ]
        | inl c ↦ elim (ok.1 c) [
          | inl (slots, n, k, q, p) ↦
              carry _ q e (record {
                members_ok = w.members_ok;
                clones_ok = PlacedAt-WellFormed w.clones_ok p;
              })
          | inr (q, _) ↦ absurd (cc)
        ]
      ]
]
