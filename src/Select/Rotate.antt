-- ===== src/Select/Rotate.antt =====
-- `set_rr_server` of src/algorithms.c: the next server in the circular order of the candidates.
use native.Mathlib.Nat.{mod-eq_of_lt, mod-add-mod, add-zero}
use octopuslb.Base.{
  sym, ap, ◌∙◌, ℕ, zero, suc, ◌+◌, ◌%◌, ◌<◌, ◌≡◌, inl, inr, Bool, true, false, none, some, List, [],
  ◌∷◌, arith, ◌==◌, if◌then◌else◌, Bool-cases, Option-cases, contains, contains-get_or, position,
  position-lt_length, position_of_contains, get_or, length, indices, contains-indices,
}
use octopuslb.Balancer.{Server, Balancer}
use octopuslb.Select.{Selection}

-- The loop looks for the current server in the list and takes the one after it, going round; a
-- server that is not in the list stays current.
unfoldable pub advance : (ℕ → Server) → List ℕ → ℕ → ℕ
advance slots xs cur = elim (position xs cur) [
  | some i ↦ (slots (get_or xs ((i + 1) % length xs) 0)).id
  | none ↦ cur
]

unfoldable pub set_rr_server : Balancer → Selection → Selection
set_rr_server b s = record s {
  next_member = advance b.members s.available_members s.next_member;
  next_clone =
      if s.use_clone then advance b.clones s.available_clones s.next_clone else s.next_clone;
}

-- Each listed slot holds its own index.
abbrev pub Named : (ℕ → Server) → List ℕ → Type 0
Named slots xs = (k : ℕ) → contains xs k ≡ true → (slots k).id ≡ k

-- No index is listed twice: each place is the first place of its entry.
abbrev pub Distinct : List ℕ → Type 0
Distinct xs = (j : ℕ) → j < length xs → position xs (get_or xs j 0) ≡ some j

pub advance_lem :
    (slots : ℕ → Server) (xs : List ℕ) (cur i : ℕ)
    → Named slots xs
    → position xs cur ≡ some i
    → advance slots xs cur ≡ get_or xs ((i + 1) % length xs) 0
unfolding advance
advance_lem slots xs cur i named h =
    rw (h, advance)
      (named (get_or xs ((i + 1) % length xs) 0) (
        contains-get_or xs ((i + 1) % length xs) 0
          (mod_in_range (i + 1) (length xs) (position-lt_length xs cur i h))))
  where
    mod_in_range : (a n : ℕ) → i < n → a % n < n
    mod_in_range a n lt = omega arith

-- A candidate gives way to a candidate.
pub advance_listed :
    (slots : ℕ → Server) (xs : List ℕ) (cur : ℕ)
    → Named slots xs
    → contains xs cur ≡ true
    → contains xs (advance slots xs cur) ≡ true
advance_listed slots xs cur named h =
    let r = position_of_contains xs cur h in
    let lt = position-lt_length xs cur r.0 r.1 in
    rw (advance_lem slots xs cur r.0 named r.1)
      (contains-get_or xs ((r.0 + 1) % length xs) 0 (omega arith))

not_relisted :
    (keep : ℕ → Bool) (n i j : ℕ)
    → j < length (indices keep n (i + 1))
    → (i == get_or (indices keep n (i + 1)) j 0) ≡ false
not_relisted keep n i j h = ground (
  arith,
  contains-get_or (indices keep n (i + 1)) j 0 h,
  contains-indices keep n (i + 1) (get_or (indices keep n (i + 1)) j 0),
)

Distinct-cons :
    (x : ℕ) (xs : List ℕ)
    → ((j : ℕ) → j < length xs → (x == get_or xs j 0) ≡ false)
    → Distinct xs
    → Distinct (x ∷ xs)
unfolding position
Distinct-cons x xs fresh d zero h = ground arith
Distinct-cons x xs fresh d (suc j) h = rw (fresh j (omega arith), d j (omega arith))

-- The lists that the scans build have no index twice.
pub indices-Distinct : (keep : ℕ → Bool) (n i : ℕ) → Distinct (indices keep n i)
unfolding indices
indices-Distinct keep zero i = λ j h. absurd (omega arith)
indices-Distinct keep (suc n) i = elim (Bool-cases (keep i)) [
  | inr e ↦ rw e (indices-Distinct keep n (i + 1))
  | inl e ↦ rw e (
      Distinct-cons i (indices keep n (i + 1)) (not_relisted keep n i)
        (indices-Distinct keep n (i + 1)))
]

-- `k` successive choices with the same candidates.
unfoldable pub rounds : ℕ → Balancer → Selection → Selection
rounds zero b s = s
rounds (suc k) b s = rounds k b (set_rr_server b s)

get_or_of_position : (xs : List ℕ) (a i : ℕ) → position xs a ≡ some i → get_or xs i 0 ≡ a
unfolding position
get_or_of_position [] a i h = cc
get_or_of_position (x ∷ xs) a i h = elim (Option-cases (position xs a)) [
  | inl e ↦ ground arith
  | inr (j, e) ↦ ground (arith, get_or_of_position xs a j e)
]

-- With the same candidates, distinct and each under its own index, the `k`-th choice after the
-- candidate at place `i` is the one at place `i + k`, counted round the list: every candidate has
-- its turn, and the order repeats after as many choices as there are candidates.
pub rounds_lem :
    (k i : ℕ) (b : Balancer) (s : Selection)
    → Named b.members s.available_members
    → Distinct s.available_members
    → position s.available_members s.next_member ≡ some i
    → (rounds k b s).next_member
      ≡ get_or s.available_members ((i + k) % length s.available_members) 0
unfolding rounds set_rr_server
rounds_lem zero i b s named d h =
    let lt = position-lt_length s.available_members s.next_member i h in
    let e : (i + 0) % length s.available_members ≡ i = rw add-zero (mod-eq_of_lt lt) in
    rw e (sym (get_or_of_position s.available_members s.next_member i h))
rounds_lem (suc k) i b s named d h =
    let lt = position-lt_length s.available_members s.next_member i h in
    rw
      (rounds_lem k ((i + 1) % n) b (set_rr_server b s) named d
        (rw (advance_lem b.members xs s.next_member i named h) (d ((i + 1) % n) (omega arith))))
      (ap (λ j. get_or xs j 0) (mod-add-mod (i + 1) n k ∙ ap (λ j. j % n) (omega arith)))
  where
    xs : List ℕ
    xs = s.available_members

    n : ℕ
    n = length xs
