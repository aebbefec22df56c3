-- ===== src/Config/Trim/Outcome.antt =====
-- `trim_white_space` of src/config.c removes the space at both ends, and nothing else.
use octopuslb.Base.{
  ℕ, zero, suc, ◌+◌, ◌-◌, ◌<◌, ◌≤◌, ◌≡◌, ◌⊎◌, refl, sym, ap, ◌∙◌, true, false, List, [], ◌∷◌, ◌++◌,
  arith, ◌==◌, length, take, drop, get_or, Bool-cases, inl, inr, take-append-drop,
}
use octopuslb.Text.{is_space, skip_space}
use octopuslb.Config.Trim.{back_up, trim_white_space}

-- Nothing but space.
abbrev pub Blank : List ℕ → Type 0
Blank [] = Unit
Blank (x ∷ xs) = (is_space x ≡ true) × Blank xs

-- The last byte of `x ∷ xs`.
abbrev pub last : ℕ → List ℕ → ℕ
last x [] = x
last x (y ∷ ys) = last y ys

-- No space at either end.
abbrev pub Tight : List ℕ → Type 0
Tight [] = Unit
Tight (x ∷ xs) = (is_space x ≡ false) × (is_space (last x xs) ≡ false)

skip_space_lem :
    (s : List ℕ)
    → (front : List ℕ) × (s ≡ front ++ skip_space s)
      × Blank front
      × ((skip_space s ≡ [])
          ⊎ ((x : ℕ) × (xs : List ℕ) × (skip_space s ≡ x ∷ xs) × (is_space x ≡ false)))
unfolding skip_space
skip_space_lem [] = ([], refl, tt, inl refl)
skip_space_lem (x ∷ xs) = elim (Bool-cases (is_space x)) [
  | inl e ↦ let r = skip_space_lem xs in rw e (x ∷ r.0, ap (◌∷◌ x) r.1, (e, r.2), r.3)
  | inr e ↦ rw e ([], refl, tt, inr (x, xs, refl, e))
]

-- Where the search from the end stops.
back_up_lem :
    (s : List ℕ) (end : ℕ)
    → (back_up s end ≤ end)
      × ((back_up s end ≡ 0) ⊎ (is_space (get_or s (back_up s end) 0) ≡ false))
      × ((i : ℕ) → back_up s end < i → i ≤ end → is_space (get_or s i 0) ≡ true)
unfolding back_up
back_up_lem s zero = (omega arith, inl refl, λ i lo hi. absurd (omega arith))
back_up_lem s (suc end) = elim (Bool-cases (is_space (get_or s (suc end) 0))) [
  | inl e ↦
      let r = back_up_lem s end in
      rw e (
        omega (arith, r.0),
        r.1,
        λ i lo hi. elim (Bool-cases (i == suc end)) [
          | inl at ↦ let at' : i ≡ suc end = ground arith in rw at' e
          | inr off ↦ r.2 i lo (ground arith)
        ],
      )
  | inr e ↦ rw e (omega arith, inr e, λ i lo hi. absurd (omega arith))
]

-- All is blank from index `n` on.
drop-Blank :
    (s : List ℕ) (n : ℕ)
    → ((i : ℕ) → n ≤ i → i < length s → is_space (get_or s i 0) ≡ true)
    → Blank (drop n s)
drop-Blank [] zero h = tt
drop-Blank [] (suc n) h = tt
drop-Blank (x ∷ xs) zero h = (
  h 0 (omega arith) (omega arith),
  drop-Blank xs 0 (λ i lo hi. h (suc i) (omega arith) (omega arith)),
)
drop-Blank (x ∷ xs) (suc n) h = drop-Blank xs n (λ i lo hi. h (suc i) (omega arith) (omega arith))

last-take :
    (x : ℕ) (xs : List ℕ) (n : ℕ) → n < length (x ∷ xs) → last x (take n xs) ≡ get_or (x ∷ xs) n 0
last-take x xs zero h = refl
last-take x [] (suc n) h = absurd (omega arith)
last-take x (y ∷ ys) (suc n) h = last-take y ys n (omega arith)

take-Tight :
    (x : ℕ) (xs : List ℕ) (k : ℕ)
    → is_space x ≡ false
    → k < length (x ∷ xs)
    → (k ≡ 0) ⊎ (is_space (get_or (x ∷ xs) k 0) ≡ false)
    → Tight (take (suc k) (x ∷ xs))
take-Tight x xs k solid h (inl zero_k) = (solid, rw (zero_k) solid)
take-Tight x xs k solid h (inr found) = (solid, rw (last-take x xs k h) found)

-- What `trim_white_space` does behind the leading space.
trimmed_lem :
    (x : ℕ) (xs : List ℕ)
    → is_space x ≡ false
    → (back : List ℕ) × (x ∷ xs
        ≡ take (back_up (x ∷ xs) (length (x ∷ xs) - 1) + 1) (x ∷ xs) ++ back)
      × Blank back
      × Tight (take (back_up (x ∷ xs) (length (x ∷ xs) - 1) + 1) (x ∷ xs))
trimmed_lem x xs solid =
    let k = back_up (x ∷ xs) (length (x ∷ xs) - 1) in
    let r = back_up_lem (x ∷ xs) (length (x ∷ xs) - 1) in
    let next : k + 1 ≡ suc k = omega arith in
    rw next (
      drop (suc k) (x ∷ xs),
      sym (take-append-drop (suc k) (x ∷ xs)),
      drop-Blank (x ∷ xs) (suc k) (λ i lo hi. r.2 i (omega arith) (omega arith)),
      take-Tight x xs k solid (omega (arith, r.0)) r.1,
    )

-- The string is the result with space before and behind it, and the result has none at its ends.
pub trim_white_space_lem :
    (s : List ℕ)
    → (front back : List ℕ) × (s ≡ front ++ (trim_white_space s ++ back))
      × Blank front
      × Blank back
      × Tight (trim_white_space s)
unfolding trim_white_space
trim_white_space_lem s =
    let (front, eq, blank, cases) = skip_space_lem s in
    elim cases [
      | inl e ↦
          let nothing : s ≡ front ++ [] = eq ∙ ap (λ t. front ++ t) e in
          rw e (front, [], nothing, blank, tt, tt)
      | inr (x, xs, e, solid) ↦
          let r = trimmed_lem x xs solid in
          rw e (front, r.0, eq ∙ ap (λ t. front ++ t) (e ∙ r.1), blank, r.2, r.3)
    ]
