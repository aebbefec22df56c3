-- ===== src/Select/Available.antt =====
-- What `get_available_servers` of src/algorithms.c leaves in the globals.
pub mod Settle
pub mod Offer
use octopuslb.Base.{
  ℕ, zero, suc, ◌+◌, ◌<◌, ◌≤◌, ◌≡◌, ◌≢◌, ◌⊎◌, ◌↔◌, inl, inr, refl, Bool, true, false, not, ◌&&◌,
  List, [], ◌∷◌, arith, leb, ltb, if◌then◌else◌, Bool-cases, contains, contains_of_is_empty,
  contains-head, contains-indices_zero, contains-get_or, indices, is_empty, get_or, length, ℤ, pos,
  ◌<ℤ◌, ◌≤ℤ◌, pos_part, neg_part,
}
use octopuslb.Balancer.{
  Server, Balancer, Status, OverloadMode, strict, relaxed, is_enabled, WellFormed, IsWellFormed,
}
use octopuslb.Select.{
  Selection, Verdict, invalid, standby, valid, verify_server, first_pass, second_pass, scan,
  settle_member, settle_clone, scan_clones, reset, get_available_servers, is_on, full_or_down,
  overloaded,
}

-- A server that is enabled, below its connection limit and, in strict mode, not overloaded.
abbrev pub Eligible : Balancer → Server → Type 0
Eligible b s = second_pass b s ≡ true

-- The server is enabled, below its connection limit and, in strict mode, at most fully loaded.
abbrev pub CanTake : Balancer → Server → Type 0
CanTake b s =
    (s.status ≡ Status.enabled) × (s.c <ℤ s.maxc) × (b.overload_mode ≡ strict → s.e_load ≤ℤ pos 100)

pub Eligible-iff : (b : Balancer) (s : Server) → Eligible b s ↔ CanTake b s
unfolding second_pass
Eligible-iff b s = (ground arith, ground arith)

-- `verify_server` answers as the scans do.
pub verify_server_lem :
    (b : Balancer) (s : Server)
    → ((verify_server b s ≢ invalid) ↔ Eligible b s)
      × ((verify_server b s ≡ valid) ↔ (first_pass b s ≡ true))
unfolding verify_server first_pass second_pass
verify_server_lem b s = ((ground arith, λ h e. ground arith), (ground arith, ground arith))

pub first_pass-Eligible : (b : Balancer) (s : Server) → first_pass b s ≡ true → Eligible b s
unfolding first_pass second_pass
first_pass-Eligible b s h = ground arith

-- No index below the count passes a test.
abbrev pub NoneBelow : ℕ → (ℕ → Bool) → Type 0
NoneBelow n p = (i : ℕ) → i < n → p i ≡ false

is_empty-indices : (p : ℕ → Bool) (n : ℕ) → is_empty (indices p n 0) ≡ true → NoneBelow n p
is_empty-indices p n h i lt =
    ground (arith, contains-indices_zero p n i, contains_of_is_empty (indices p n 0) i h)

is_empty_of_none : (p : ℕ → Bool) (n : ℕ) → NoneBelow n p → is_empty (indices p n 0) ≡ true
is_empty_of_none p n h = elim (Bool-cases (is_empty (indices p n 0))) [
  | inl e ↦ e
  | inr e ↦
      let i = get_or (indices p n 0) 0 0 in
      let c = contains-head (indices p n 0) e in ground (arith, contains-indices_zero p n i, c, h i)
]

-- What `scan` returns: without standbys if there are any such servers, and else all that are
-- eligible.
pub record Scanned (b : Balancer) (slots : ℕ → Server) (n : ℕ) (xs : List ℕ) (spare : Bool)
    : Type 0 where
  pub listed :
      (k : ℕ)
      → contains xs k
        ≡ (ltb k n && (if spare then second_pass b (slots k) else first_pass b (slots k)))
  pub spare_used : spare ≡ true → NoneBelow n (λ i. first_pass b (slots i))
  pub empty : (is_empty xs ≡ true) ↔ NoneBelow n (λ i. second_pass b (slots i))

pub scan-Scanned :
    (b : Balancer) (slots : ℕ → Server) (n : ℕ)
    → Scanned b slots n (scan b slots n).0 (scan b slots n).1
unfolding scan
scan-Scanned b slots n = elim (Bool-cases (is_empty (indices one n 0))) [
  | inr e ↦ rw e (record {
    listed = λ k. contains-indices_zero one n k;
    spare_used = λ h. absurd (cc);
    empty = (λ h. absurd (cc), λ h. absurd (cc (is_empty_of_none one n (narrow h))));
  })
  | inl e ↦ rw e (record {
    listed = λ k. elim (Bool-cases (is_empty (indices two n 0))) [
      | inl f ↦ ground (
        arith,
        contains_of_is_empty (indices two n 0) k f,
        contains_of_is_empty (indices one n 0) k e,
        contains-indices_zero one n k,
      )
      | inr f ↦ ground (arith, contains-indices_zero two n k)
    ];
    spare_used = λ h. is_empty-indices one n e;
    empty = (is_empty-indices two n, is_empty_of_none two n);
  })
]
  where
    one : ℕ → Bool
    one i = first_pass b (slots i)

    two : ℕ → Bool
    two i = second_pass b (slots i)

    narrow : NoneBelow n two → NoneBelow n one
    narrow h i lt = ground (arith, first_pass-Eligible b (slots i), h i lt)
