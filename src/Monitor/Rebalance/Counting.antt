-- ===== src/Monitor/Rebalance/Counting.antt =====
-- Counting servers in a list, for the sorted members of `rebalance_hash` (src/monitor.c): who is in it,
-- and that nobody is in it twice.
use octopuslb.Base.{
  ℕ, zero, suc, ◌+◌, ◌<◌, ◌≤◌, ◌≡◌, Bool, true, List, [], ◌∷◌, arith, if◌then◌else◌, leb, ◌==◌,
  length, get_or, map, indices, Bool-cases, inl, inr,
}
use octopuslb.Balancer.{Server, zeroed}

unfoldable pub count_if : (Server → Bool) → List Server → ℕ
count_if test [] = 0
count_if test (x ∷ xs) = let rest = count_if test xs in if test x then suc rest else rest

-- One element that passes is counted.
pub count_if-once :
    (test : Server → Bool) (xs : List Server) (i : ℕ)
    → i < length xs
    → test (get_or xs i zeroed) ≡ true
    → 1 ≤ count_if test xs
unfolding count_if
count_if-once test [] i lt h = absurd (omega arith)
count_if-once test (x ∷ xs) zero lt h = ground (arith, h)
count_if-once test (x ∷ xs) (suc i) lt h = ground (arith, count_if-once test xs i (omega arith) h)

-- Two elements that pass are counted.
pub count_if-twice :
    (test : Server → Bool) (xs : List Server) (i j : ℕ)
    → i < j
    → j < length xs
    → test (get_or xs i zeroed) ≡ true
    → test (get_or xs j zeroed) ≡ true
    → 2 ≤ count_if test xs
unfolding count_if
count_if-twice test [] i j lt le h k = absurd (omega arith)
count_if-twice test (x ∷ xs) i zero lt le h k = absurd (omega arith)
count_if-twice test (x ∷ xs) zero (suc j) lt le h k =
    ground (arith, h, count_if-once test xs j (omega arith) k)
count_if-twice test (x ∷ xs) (suc i) (suc j) lt le h k =
    ground (arith, count_if-twice test xs i j (omega arith) (omega arith) h k)

-- An element that is counted stands somewhere.
pub count_if-found :
    (test : Server → Bool) (xs : List Server)
    → 1 ≤ count_if test xs
    → (i : ℕ) × (i < length xs) × (test (get_or xs i zeroed) ≡ true)
unfolding count_if
count_if-found test [] h = absurd (omega arith)
count_if-found test (x ∷ xs) h = elim (Bool-cases (test x)) [
  | inl e ↦ (0, omega arith, e)
  | inr e ↦
      let (i, lt, k) = count_if-found test xs (ground (arith, e, h)) in (suc i, omega arith, k)
]

abbrev pub has_id : ℕ → Server → Bool
has_id m s = s.id == m

module _ (g : ℕ → Server) (keep : ℕ → Bool) (named : (k : ℕ) → keep k ≡ true → (g k).id ≡ k) where
  -- Nobody is listed twice.
  listed_once :
      (m n i : ℕ) → count_if (has_id m) (map g (indices keep n i)) ≤ (if leb i m then 1 else 0)
  unfolding count_if indices
  listed_once m zero i = omega arith
  listed_once m (suc n) i = elim (Bool-cases (keep i)) [
    | inl e ↦ rw (e, named i e) (ground (arith, listed_once m n (i + 1)))
    | inr e ↦ rw e (ground (arith, listed_once m n (i + 1)))
  ]

  pub listed_at_most_once : (m n : ℕ) → count_if (has_id m) (map g (indices keep n 0)) ≤ 1
  listed_at_most_once m n = ground (arith, listed_once m n 0)

  -- Whoever passes is listed.
  pub listed :
      (m n i : ℕ)
      → i ≤ m
      → m < i + n
      → keep m ≡ true
      → 1 ≤ count_if (has_id m) (map g (indices keep n i))
  unfolding count_if indices
  listed m zero i le lt k = absurd (omega arith)
  listed m (suc n) i le lt k = elim (Bool-cases (i == m)) [
    | inl e ↦ let e' : i ≡ m = ground arith in rw (e', k, named m k) (ground arith)
    | inr e ↦
        let rest = listed m n (i + 1) (ground (arith, e, le)) (omega (arith, lt)) k in
        ground (arith, rest)
  ]
