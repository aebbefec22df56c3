-- ===== src/Balancer/Create.antt =====
-- `create_balancer_server` of src/octopus.h.
pub mod Outcome
use octopuslb.Base.{
  ℕ, zero, suc, ◌+◌, ◌≤◌, ◌<◌, ◌≡◌, ◌≢◌, ◌⊎◌, ◌↔◌, inl, inr, refl, Bool, true, false, Option, none,
  some, List, arith, ltb, ◌==◌, if◌then◌else◌, Bool-cases, Option-cases, update, ℤ, pos, take,
  to_ushort, float_minus_one, float_zero,
}
use octopuslb.Balancer.{
  Status, Server, Balancer, zeroed, is_free, max_servers, servername_max_length, WellFormed,
  IsWellFormed,
}

-- The outcomes: 0, -1 (no memory), -2 (the port is 0 as an `uint16_t`), and the write past the end
-- of the array, which the code does not guard against.
pub data Created : Type 0 where
  created : Balancer → Created
  no_memory invalid_port out_of_bounds : Created

-- The first slot `i ≤ k < i + n` whose status is FREE.
unfoldable pub first_free : (ℕ → Server) → ℕ → ℕ → Option ℕ
first_free slots zero i = none
first_free slots (suc n) i =
    let rest = first_free slots n (i + 1) in if is_free (slots i).status then some i else rest

-- Put a server into the first free slot, or else at the end of the array.
unfoldable pub place : (ℕ → Server) → ℕ → Server → Option ((ℕ → Server) × ℕ)
place slots n s = elim (first_free slots n 0) [
  | some i ↦ some (update slots i (record s { id = i }), n)
  | none ↦ if ltb n max_servers then some (update slots n (record s { id = n }), n + 1) else none
]

-- What the caller asks for; `clone` is SERVER_CLONE_TRUE.
pub record Request : Type 0 where
  pub clone : Bool
  pub name : List ℕ
  pub status : Status
  pub standby : Bool
  pub port : ℤ
  pub ip : ℕ
  pub maxc : ℤ
  pub maxl : ℕ

unfoldable pub new_server : Request → Server
new_server r = record zeroed {
  name = take servername_max_length r.name;
  status = r.status;
  standby = r.standby;
  port = r.port;
  sin_port = to_ushort r.port;
  sin_addr = r.ip;
  maxc = r.maxc;
  load = float_minus_one;
  maxl = r.maxl;
}

-- `memory` says whether `malloc` succeeds.
unfoldable pub create_balancer_server : Bool → Request → Balancer → Created
create_balancer_server memory r b =
    if memory
    then if to_ushort r.port == 0
      then invalid_port
      else if r.clone
      then elim (place b.clones b.nclones (new_server r)) [
        | some (slots, n) ↦ created (record b { clones = slots; nclones = n })
        | none ↦ out_of_bounds
      ]
      else elim (place b.members b.nmembers (new_server r)) [
        | some (slots, n) ↦ created (record b { members = slots; nmembers = n })
        | none ↦ out_of_bounds
      ]
    else no_memory

-- Every slot below `k` is in use.
abbrev pub InUse : (ℕ → Server) → ℕ → Type 0
InUse slots k = (j : ℕ) → j < k → is_free (slots j).status ≡ false

first_free-found :
    (slots : ℕ → Server) (n i k : ℕ)
    → first_free slots n i ≡ some k
    → InUse slots i
    → (k < i + n) × (is_free (slots k).status ≡ true) × InUse slots k
unfolding first_free
first_free-found slots zero i k h used = absurd (cc)
first_free-found slots (suc n) i k h used = elim (Bool-cases (is_free (slots i).status)) [
  | inl f ↦ let e : i ≡ k = ground arith in rw (← e) (omega arith, f, used)
  | inr f ↦
      let r = first_free-found slots n (i + 1) k (ground arith) (λ j lt.
        elim (Bool-cases (j == i)) [
          | inl e ↦ let e' : j ≡ i = ground arith in rw (e', f)
          | inr e ↦ used j (ground arith)
        ]) in
      (omega arith, r.1, r.2)
]

first_free-missing :
    (slots : ℕ → Server) (n i : ℕ)
    → first_free slots n i ≡ none
    → InUse slots i
    → InUse slots (i + n)
unfolding first_free
first_free-missing slots zero i h used = λ j lt. used j (omega arith)
first_free-missing slots (suc n) i h used = elim (Bool-cases (is_free (slots i).status)) [
  | inl f ↦ absurd (ground arith)
  | inr f ↦
      let r = first_free-missing slots n (i + 1) (ground arith) (λ j lt.
        elim (Bool-cases (j == i)) [
          | inl e ↦ let e' : j ≡ i = ground arith in rw (e', f)
          | inr e ↦ used j (ground arith)
        ]) in
      λ j lt. r j (omega arith)
]

is_free→free : (t : Status) → is_free t ≡ true → t ≡ Status.free
is_free→free t h = ground arith

-- `s` stands at `k`, the first free place of the array, under its new index; the count grows only
-- when `k` is the end.
pub record PlacedAt (slots : ℕ → Server) (n : ℕ) (s : Server) (slots' : ℕ → Server) (n' k : ℕ)
    : Type 0 where
  pub fits : k < max_servers
  pub earlier : InUse slots k
  pub was_free : (slots k).status ≡ Status.free
  pub written : slots' ≡ update slots k (record s { id = k })
  pub grows : ((k < n) × (n' ≡ n)) ⊎ ((k ≡ n) × (n' ≡ n + 1))

pub place_lem :
    (slots : ℕ → Server) (n : ℕ) (s : Server)
    → WellFormed slots n
    → ((slots' : ℕ → Server) × (n' k : ℕ) × (place slots n s ≡ some (slots', n'))
        × PlacedAt slots n s slots' n' k)
      ⊎ ((place slots n s ≡ none) × InUse slots max_servers)
unfolding place
place_lem slots n s w = elim (Option-cases (first_free slots n 0)) [
  | inr (k, e) ↦
      let r = first_free-found slots n 0 k e (λ j lt. absurd (omega arith)) in
      inl (
        update slots k (record s { id = k }),
        n,
        k,
        rw (e, place),
        record {
          fits = omega arith;
          earlier = r.2;
          was_free = is_free→free (slots k).status r.1;
          written = refl;
          grows = inl (omega arith, refl);
        },
      )
  | inl e ↦
      let used = first_free-missing slots n 0 e (λ j lt. absurd (omega arith)) in
      elim (Bool-cases (ltb n max_servers)) [
        | inl t ↦ inl (
          update slots n (record s { id = n }),
          n + 1,
          n,
          rw (e, place) (rw t),
          record {
            fits = ground arith;
            earlier = λ j lt. used j (omega arith);
            was_free = w.beyond n (omega arith);
            written = refl;
            grows = inr (refl, refl);
          },
        )
        | inr t ↦ inr (rw (e, place) (rw t), λ j lt. used j (ground arith))
      ]
]

-- A placed server keeps the array well-formed.
pub PlacedAt-WellFormed :
    {slots : ℕ → Server} {n : ℕ} {s : Server} {slots' : ℕ → Server} {n' k : ℕ}
    → WellFormed slots n
    → PlacedAt slots n s slots' n' k
    → WellFormed slots' n'
PlacedAt-WellFormed {slots} {n} {s} {slots'} {n'} {k} w p = rw p.written (record {
  in_bounds = ground arith;
  beyond = λ i h. ground (arith, w.beyond i);
  named = λ i h. elim (Bool-cases (k == i)) [
    | inl e ↦ let e' : k ≡ i = ground arith in rw e' (ground arith)
    | inr e ↦ rw e (w.named i (rw e at h))
  ];
})
