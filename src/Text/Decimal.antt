-- ===== src/Text/Decimal.antt =====
-- Numbers in decimal, and what `strtol` makes of them.
use octopuslb.Base.{
  ℕ, zero, suc, ◌+◌, ◌-◌, ◌*◌, ◌/◌, ◌%◌, ◌^◌, ◌<◌, ◌≡◌, refl, sym, ap, ◌∙◌, true, false, List, [],
  ◌∷◌, ◌++◌, arith, ltb, lt→ltb, if◌then◌else◌, Bool-cases, inl, inr, pos, append_assoc,
}
use octopuslb.Text.{
  skip_space, is_digit, read_digits, has_digit, long_of, strtol, strtol_signed, strtol_body,
}

-- `n` in decimal with at most `fuel` digits.
unfoldable pub digits : ℕ → ℕ → List ℕ
digits zero n = []
digits (suc fuel) n =
    let rest = digits fuel (n / 10) ++ (b'0' + n % 10) ∷ [] in
    if ltb n 10 then (b'0' + n) ∷ [] else rest

-- Enough for a `long`.
abbrev pub decimal : ℕ → List ℕ
decimal n = digits 19 n

-- What follows does not start with a digit.
abbrev pub Ends : List ℕ → Type 0
Ends rest = has_digit 10 rest ≡ false

-- The numbers that fit in `fuel` digits.
abbrev pub limit : ℕ → ℕ
limit zero = 1
limit (suc fuel) = 10 * limit fuel

read_digits-end : (n : ℕ) (rest : List ℕ) → Ends rest → read_digits 10 n rest ≡ n
unfolding read_digits
read_digits-end n [] h = refl
read_digits-end n (c ∷ cs) h = ground arith

read_digit :
    (m d : ℕ) (rest : List ℕ)
    → d < 10
    → read_digits 10 m ((b'0' + d) ∷ rest) ≡ read_digits 10 (m * 10 + d) rest
unfolding read_digits
read_digit m d rest h =
    let same : m * 10 + (b'0' + d - b'0') ≡ m * 10 + d = omega arith in rw (← same) (ground arith)

read_digits-digits :
    (fuel n : ℕ) (rest : List ℕ)
    → n < limit fuel
    → read_digits 10 0 (digits fuel n ++ rest) ≡ read_digits 10 n rest
unfolding digits
read_digits-digits zero n rest h = ap (λ k. read_digits 10 k rest) (omega arith)
read_digits-digits (suc fuel) n rest h = elim (Bool-cases (ltb n 10)) [
  | inl small ↦
      rw small (read_digit 0 n rest (ground arith) ∙ ap (λ k. read_digits 10 k rest) (omega arith))
  | inr large ↦ rw large (
      let split = append_assoc (digits fuel (n / 10)) ((b'0' + n % 10) ∷ []) rest in
      let more = read_digits-digits fuel (n / 10) ((b'0' + n % 10) ∷ rest) (omega arith) in
      let last : n / 10 * 10 + n % 10 ≡ n = omega arith in
      ap (read_digits 10 0) split
      ∙ more
      ∙ read_digit (n / 10) (n % 10) rest (omega arith)
      ∙ ap (λ k. read_digits 10 k rest) last)
]

-- A printed number starts with a digit.
pub digits-head :
    (fuel n : ℕ) → (c : ℕ) × (cs : List ℕ) × (digits (suc fuel) n ≡ c ∷ cs) × (is_digit 10 c ≡ true)
unfolding digits
digits-head zero n = elim (Bool-cases (ltb n 10)) [
  | inl small ↦ (b'0' + n, [], rw small, ground arith)
  | inr large ↦ (b'0' + n % 10, [], rw large, ground arith)
]
digits-head (suc fuel) n = elim (Bool-cases (ltb n 10)) [
  | inl small ↦ (b'0' + n, [], rw small, ground arith)
  | inr large ↦
      let r = digits-head fuel (n / 10) in
      (r.0, r.1 ++ (b'0' + n % 10) ∷ [], rw large (ap (λ xs. xs ++ (b'0' + n % 10) ∷ []) r.2), r.3)
]

strtol-digit :
    (c : ℕ) (cs : List ℕ)
    → is_digit 10 c ≡ true
    → strtol 10 (c ∷ cs) ≡ strtol_body 10 false (c ∷ cs)
unfolding strtol skip_space strtol_signed
strtol-digit c cs h = ground arith

-- `strtol` reads back every number that a `long` can hold, whatever follows it that is no digit.
pub strtol-decimal :
    (n : ℕ) (rest : List ℕ)
    → n < 2 ^ 63
    → Ends rest
    → strtol 10 (decimal n ++ rest) ≡ record { value = pos n; found = true; erange = false }
unfolding strtol_body
strtol-decimal n rest fits ends =
    let r = digits-head 18 n in
    let read = read_digits-digits 19 n rest (omega arith) ∙ read_digits-end n rest ends in
    let first : decimal n ++ rest ≡ r.0 ∷ (r.1 ++ rest) = ap (λ xs. xs ++ rest) r.2 in
    ap (strtol 10) first
    ∙ strtol-digit r.0 (r.1 ++ rest) r.3
    ∙ ap (λ k. long_of false k (is_digit 10 r.0)) (ap (read_digits 10 0) (sym first) ∙ read)
    ∙ rw (lt→ltb n (2 ^ 63) fits, r.3) refl
