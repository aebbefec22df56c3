-- ===== src/Admin/Prompt/Line.antt =====
-- Lines that name a command and its arguments, with a space between each two words.
use octopuslb.Base.{
  ℕ, zero, suc, ◌+◌, ◌/◌, ◌%◌, append_assoc, Bool-cases, length-append, ◌≤◌, ◌<◌, ◌≡◌, inl, inr,
  refl, sym, ap, ◌∙◌, false, some, List, [], ◌∷◌, ◌++◌, arith, ◌==◌, take, length, contains, ltb,
}
use octopuslb.Text.{strtok, split_at, codes}
use octopuslb.Text.Decimal.{decimal, digits}
use octopuslb.Admin.Prompt.{split_words}

-- No space.
abbrev pub Solid : List ℕ → Type 0
Solid [] = Unit
Solid (x ∷ xs) = ((x == 32) ≡ false) × Solid xs

abbrev pub AllSolid : List (List ℕ) → Type 0
AllSolid [] = Unit
AllSolid (w ∷ ws) = Solid w × (0 < length w) × AllSolid ws

abbrev pub join : List (List ℕ) → List ℕ
join [] = []
join (w ∷ []) = w
join (w ∷ v ∷ ws) = w ++ 32 ∷ join (v ∷ ws)

contains_space : (x : ℕ) → (x == 32) ≡ false → contains (codes " ") x ≡ false
unfolding contains
contains_space x h = ground arith

split_at-Solid : (w : List ℕ) → Solid w → split_at (codes " ") w ≡ (w, [])
unfolding split_at
split_at-Solid [] h = refl
split_at-Solid (x ∷ xs) (h, hs) =
    rw (contains_space x h) (ap (λ (r : List ℕ × List ℕ). (x ∷ r.0, r.1)) (split_at-Solid xs hs))

split_at-space : (w rest : List ℕ) → Solid w → split_at (codes " ") (w ++ 32 ∷ rest) ≡ (w, rest)
unfolding split_at contains
split_at-space [] rest h = refl
split_at-space (x ∷ xs) rest (h, hs) =
    rw (contains_space x h)
      (ap (λ (r : List ℕ × List ℕ). (x ∷ r.0, r.1)) (split_at-space xs rest hs))

strtok-one :
    (x : ℕ) (xs : List ℕ) → Solid (x ∷ xs) → strtok (codes " ") (x ∷ xs) ≡ some (x ∷ xs, [])
unfolding strtok
strtok-one x xs h = rw (contains_space x h.0) (ap some (split_at-Solid (x ∷ xs) h))

strtok-more :
    (x : ℕ) (xs rest : List ℕ)
    → Solid (x ∷ xs)
    → strtok (codes " ") ((x ∷ xs) ++ 32 ∷ rest) ≡ some (x ∷ xs, rest)
unfolding strtok
strtok-more x xs rest h = rw (contains_space x h.0) (ap some (split_at-space (x ∷ xs) rest h))

words_found :
    (n : ℕ) (s w rest : List ℕ)
    → strtok (codes " ") s ≡ some (w, rest)
    → split_words (suc n) s ≡ w ∷ split_words n rest
unfolding split_words
words_found n s w rest e = ground (arith, e)

words_none : (n : ℕ) → split_words n [] ≡ []
unfolding split_words strtok
words_none zero = refl
words_none (suc n) = refl

-- The prompt finds the words that a line was made of, as many as it looks for, if none of them is
-- empty and none has a space.
pub split_words-join :
    (n : ℕ) (ws : List (List ℕ)) → AllSolid ws → split_words n (join ws) ≡ take n ws
unfolding split_words strtok
split_words-join zero ws h = refl
split_words-join (suc n) [] h = refl
split_words-join (suc n) ([] ∷ ws) (_, h, _) = absurd (omega (arith, h))
split_words-join (suc n) ((x ∷ xs) ∷ []) (h, _, _) =
    words_found n (x ∷ xs) (x ∷ xs) [] (strtok-one x xs h)
    ∙ ap (◌∷◌ (x ∷ xs)) (words_none n ∙ sym (take_none n))
  where
    take_none : (k : ℕ) → take {A = List ℕ} k [] ≡ []
    take_none zero = refl
    take_none (suc k) = refl
split_words-join (suc n) ((x ∷ xs) ∷ v ∷ ws) (h, _, k) =
    words_found n ((x ∷ xs) ++ 32 ∷ join (v ∷ ws)) (x ∷ xs) (join (v ∷ ws))
      (strtok-more x xs (join (v ∷ ws)) h)
    ∙ ap (◌∷◌ (x ∷ xs)) (split_words-join n (v ∷ ws) k)

pub digits-Solid : (fuel n : ℕ) (rest : List ℕ) → Solid rest → Solid (digits fuel n ++ rest)
unfolding digits
digits-Solid zero n rest h = h
digits-Solid (suc fuel) n rest h = elim (Bool-cases (ltb n 10)) [
  | inl small ↦ rw small (ground arith, h)
  | inr large ↦ rw large (
      let tail : Solid ((b'0' + n % 10) ∷ rest) = (ground arith, h) in
      rw (append_assoc (digits fuel (n / 10)) ((b'0' + n % 10) ∷ []) rest)
        (digits-Solid fuel (n / 10) ((b'0' + n % 10) ∷ rest) tail))
]

pub length-digits : (fuel n : ℕ) → length (digits fuel n) ≤ fuel
unfolding digits
length-digits zero n = omega arith
length-digits (suc fuel) n = elim (Bool-cases (ltb n 10)) [
  | inl small ↦ rw small (omega arith)
  | inr large ↦ rw large (
      omega (
        arith,
        length-digits fuel (n / 10),
        length-append (digits fuel (n / 10)) ((b'0' + n % 10) ∷ []),
      ))
]

-- A line with a command and a number, as the operator types it.
abbrev pub number_line : List ℕ → ℕ → List ℕ
number_line word n = join (word ∷ (decimal n ++ 10 ∷ []) ∷ [])
