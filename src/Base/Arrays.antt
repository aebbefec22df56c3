-- ===== src/Base/Arrays.antt =====
-- A C array as a function of its index, and its update at one place.
use Prim.Native.Nat.{ℕ, zero, suc, ◌+◌, ◌≤◌, ◌<◌}
use mathlib.Core.Path.{◌≡◌, refl}
use mathlib.Core.Logic.{◌≢◌, ◌⊎◌, inl, inr}
use mathlib.Core.Bool.{Bool, true, false}
use native.Mathlib.Omega.{arith}
use octopuslb.Base.Tests.{◌==◌, if◌then◌else◌, ltb, Bool-cases}

module _ {ℓ} {A : Type ℓ} where
  abbrev pub update : (ℕ → A) → ℕ → A → ℕ → A
  update f i a j = if i == j then a else f j

  pub update_self : (f : ℕ → A) (i : ℕ) (a : A) → update f i a i ≡ a
  update_self f i a = ground arith

  pub update_ne : (f : ℕ → A) (i j : ℕ) (a : A) → i ≢ j → update f i a j ≡ f j
  update_ne f i j a h = ground arith

  -- How many of the first `n` entries pass a test.
  unfoldable pub count_below : (A → Bool) → ℕ → (ℕ → A) → ℕ
  count_below p zero f = 0
  count_below p (suc n) f = count_below p n f + (if p (f n) then 1 else 0)

  pub count_below-le : (p : A → Bool) (n : ℕ) (f : ℕ → A) → count_below p n f ≤ n
  unfolding count_below
  count_below-le p zero f = omega arith
  count_below-le p (suc n) f = ground (arith, count_below-le p n f)

  count_below-update_above :
      (p : A → Bool) (n : ℕ) (f : ℕ → A) (i : ℕ) (a : A)
      → n ≤ i
      → count_below p n (update f i a) ≡ count_below p n f
  unfolding count_below
  count_below-update_above p zero f i a h = refl
  count_below-update_above p (suc n) f i a h = ground (arith, count_below-update_above p n f i a)

  -- An update below `n` exchanges the old entry for the new one in the count.
  pub count_below-update :
      (p : A → Bool) (n : ℕ) (f : ℕ → A) (i : ℕ) (a : A)
      → i < n
      → count_below p n (update f i a) + (if p (f i) then 1 else 0)
        ≡ count_below p n f + (if p a then 1 else 0)
  unfolding count_below
  count_below-update p zero f i a h = absurd (omega arith)
  count_below-update p (suc n) f i a h = elim (Bool-cases (ltb i n)) [
    | inl lo ↦ ground (arith, count_below-update p n f i a)
    | inr hi ↦ ground (arith, count_below-update_above p n f i a)
  ]

  pub count_below-eq_zero :
      (p : A → Bool) (n : ℕ) (f : ℕ → A)
      → ((i : ℕ) → i < n → p (f i) ≡ false)
      → count_below p n f ≡ 0
  unfolding count_below
  count_below-eq_zero p zero f h = refl
  count_below-eq_zero p (suc n) f h =
      ground (arith, h n (omega arith), count_below-eq_zero p n f (λ i lt. h i (omega arith)))

  -- The count is `n` when every entry passes, and else some entry fails.
  pub count_below_full :
      (p : A → Bool) (n : ℕ) (f : ℕ → A) → (i : ℕ) → count_below p n f ≡ n → i < n → p (f i) ≡ true
  unfolding count_below
  count_below_full p zero f i h lt = absurd (omega arith)
  count_below_full p (suc n) f i h lt = elim (Bool-cases (ltb i n)) [
    | inl lo ↦ ground (arith, count_below_full p n f i, count_below-le p n f)
    | inr hi ↦ let e : i ≡ n = ground arith in rw e (ground (arith, count_below-le p n f))
  ]

  pub count_below_cases :
      (p : A → Bool) (n : ℕ) (f : ℕ → A)
      → (count_below p n f ≡ n) ⊎ ((i : ℕ) × (i < n) × (p (f i) ≡ false))
  unfolding count_below
  count_below_cases p zero f = inl refl
  count_below_cases p (suc n) f = elim (Bool-cases (p (f n))) [
    | inr bad ↦ inr (n, omega arith, bad)
    | inl good ↦ elim (count_below_cases p n f) [
      | inl e ↦ inl (ground arith)
      | inr (i, lt, bad) ↦ inr (i, omega arith, bad)
    ]
  ]

-- The counts of two arrays whose elements pass the tests alike.
pub count_below_alike {ℓ} :
    {A : Type ℓ} (p q : A → Bool) (n : ℕ) (f g : ℕ → A)
    → ((i : ℕ) → i < n → q (g i) ≡ p (f i))
    → count_below q n g ≡ count_below p n f
unfolding count_below
count_below_alike p q zero f g h = refl
count_below_alike p q (suc n) f g h =
    ground (arith, h n (omega arith), count_below_alike p q n f g (λ i lt. h i (omega arith)))
