-- ===== src/Base/Loops.antt =====
-- `for (i = 0; i < n; i++)` loops: a fold over an index range, the indices that pass a test in
-- order, and whether some index passes.
use Prim.Native.Nat.{ℕ, zero, suc, ◌+◌, ◌≤◌, ◌<◌}
use mathlib.Core.Path.{◌≡◌, refl}
use mathlib.Core.Logic.{inl, inr}
use mathlib.Core.Bool.{Bool, true, false, ◌&&◌}
use mathlib.Core.List.{List, [], ◌∷◌}
use native.Mathlib.Omega.{arith}
use octopuslb.Base.Tests.{◌==◌, if◌then◌else◌, ltb, leb, Bool-cases}
use octopuslb.Base.Lists.{contains}

-- `body` for each index from `first` on, `count` times.
unfoldable pub for_range {ℓ} : {S : Type ℓ} → ℕ → ℕ → (ℕ → S → S) → S → S
for_range zero first body state = state
for_range (suc count) first body state = for_range count (first + 1) body (body first state)

-- What each round carries from its index to the next holds at the end, if it held at the start.
pub for_range-carries {ℓ κ} :
    {S : Type ℓ} (Holds : ℕ → S → Type κ) (body : ℕ → S → S)
    → (count first last : ℕ) (state : S) → first + count ≡ last
    → Holds first state
    → ((at : ℕ) (t : S) → at < last → Holds at t → Holds (at + 1) (body at t))
    → Holds last (for_range count first body state)
unfolding for_range
for_range-carries Holds body zero first last state total start round =
    let done : first ≡ last = omega arith in rw (← done) start
for_range-carries Holds body (suc count) first last state total start round =
    for_range-carries Holds body count (first + 1) last (body first state) (omega arith)
      (round first state (omega arith) start) round

-- The indices `i ≤ k < i + n` with `keep k`, in order.
unfoldable pub indices : (ℕ → Bool) → ℕ → ℕ → List ℕ
indices keep zero i = []
indices keep (suc n) i = let rest = indices keep n (i + 1) in if keep i then i ∷ rest else rest

-- Is there an index `i ≤ k < i + n` with `test k`?
unfoldable pub exists_below : (ℕ → Bool) → ℕ → ℕ → Bool
exists_below test zero i = false
exists_below test (suc n) i =
    let rest = exists_below test n (i + 1) in if test i then true else rest

-- Exactly the indices in range that pass are collected.
pub contains-indices :
    (keep : ℕ → Bool) (n i k : ℕ)
    → contains (indices keep n i) k ≡ (leb i k && ltb k (i + n) && keep k)
unfolding contains indices
contains-indices keep zero i k = ground arith
contains-indices keep (suc n) i k = elim (Bool-cases (i == k)) [
  | inl e ↦
      let e' : i ≡ k = ground arith in rw e' (ground (arith, contains-indices keep n (k + 1) k))
  | inr e ↦ ground (arith, contains-indices keep n (i + 1) k)
]

pub exists_below-witness :
    (test : ℕ → Bool) (n i : ℕ)
    → exists_below test n i ≡ true
    → (k : ℕ) × (i ≤ k) × (k < i + n) × (test k ≡ true)
unfolding exists_below
exists_below-witness test zero i h = cc
exists_below-witness test (suc n) i h = elim (Bool-cases (test i)) [
  | inl e ↦ (i, omega arith, omega arith, e)
  | inr e ↦
      let r = exists_below-witness test n (i + 1) (ground arith) in
      (r.0, omega arith, omega arith, r.3)
]

pub exists_below_intro :
    (test : ℕ → Bool) (n i k : ℕ) → i ≤ k → k < i + n → test k ≡ true → exists_below test n i ≡ true
unfolding exists_below
exists_below_intro test zero i k lo hi h = absurd (omega arith)
exists_below_intro test (suc n) i k lo hi h = elim (Bool-cases (i == k)) [
  | inl e ↦ let e' : i ≡ k = ground arith in rw (e', h)
  | inr e ↦ ground (arith, exists_below_intro test n (i + 1) k (ground arith) (omega arith) h)
]

pub contains-indices_zero :
    (keep : ℕ → Bool) (n k : ℕ) → contains (indices keep n 0) k ≡ (ltb k n && keep k)
contains-indices_zero keep n k = ground (arith, contains-indices keep n 0 k)

-- The sum of `f` over the indices below `n`.
unfoldable pub sum_below : (ℕ → ℕ) → ℕ → ℕ
sum_below f zero = 0
sum_below f (suc n) = sum_below f n + f n

pub sum_below_same :
    (f g : ℕ → ℕ) (n : ℕ) → ((j : ℕ) → j < n → g j ≡ f j) → sum_below g n ≡ sum_below f n
unfolding sum_below
sum_below_same f g zero h = refl
sum_below_same f g (suc n) h =
    omega (arith, h n (omega arith), sum_below_same f g n (λ j lt. h j (omega arith)))

-- Two functions that differ at one index below `n`.
pub sum_below_change :
    (f g : ℕ → ℕ) (i n : ℕ)
    → i < n
    → ((j : ℕ) → (i == j) ≡ false → g j ≡ f j)
    → sum_below g n + f i ≡ sum_below f n + g i
unfolding sum_below
sum_below_change f g i zero lt h = absurd (omega arith)
sum_below_change f g i (suc n) lt h = elim (Bool-cases (i == n)) [
  | inl e ↦
      let same = sum_below_same f g n (λ j l. h j (ground arith)) in
      let at : i ≡ n = ground arith in rw at (omega arith)
  | inr ne ↦ omega (arith, sum_below_change f g i n (ground arith) h, h n ne)
]

pub sum_below-eq_zero : (f : ℕ → ℕ) (n : ℕ) → ((j : ℕ) → j < n → f j ≡ 0) → sum_below f n ≡ 0
unfolding sum_below
sum_below-eq_zero f zero h = refl
sum_below-eq_zero f (suc n) h =
    omega (arith, h n (omega arith), sum_below-eq_zero f n (λ j lt. h j (omega arith)))
