-- ===== src/Text/Lines.antt =====
-- `fgets`, as `parse_config_file` of src/config.c calls it: a file as a list of lines.
pub mod Whole
use octopuslb.Base.{
  ℕ, zero, suc, ◌+◌, ◌-◌, ◌<◌, ◌≤◌, ◌≡◌, refl, sym, ap, ◌∙◌, Bool, true, false, ◌||◌, List, [], ◌∷◌,
  ◌++◌, arith, ltb, leb, ◌==◌, if◌then◌else◌, Bool-cases, inl, inr, length, append_assoc,
}

-- A byte in front of the first line.
abbrev pub onto : ℕ → List (List ℕ) → List (List ℕ)
onto x [] = (x ∷ []) ∷ []
onto x (line ∷ lines) = (x ∷ line) ∷ lines

-- `fgets(buffer, size, fp)` until the end of the file: a line ends with its newline, or when
-- `size - 1` bytes are read. `room` bytes are left for the line that has begun.
unfoldable pub fgets_from : ℕ → ℕ → List ℕ → List (List ℕ)
fgets_from size room [] = []
fgets_from size room (x ∷ xs) =
    let ends = x == 10 || leb room 1 in
    let rest = fgets_from size (if ends then size - 1 else room - 1) xs in
    if ends then (x ∷ []) ∷ rest else onto x rest

unfoldable pub fgets_lines : ℕ → List ℕ → List (List ℕ)
unfolding fgets_from
fgets_lines size file = fgets_from size (size - 1) file

abbrev pub concat : List (List ℕ) → List ℕ
concat [] = []
concat (line ∷ lines) = line ++ concat lines

-- Every line fits into the buffer with its NUL, and none is empty.
abbrev pub Fit : ℕ → List (List ℕ) → Type 0
Fit size [] = Unit {0}
Fit size (line ∷ lines) = (0 < length line) × (length line < size) × Fit size lines

-- The first line has at most `room` bytes, and the others fit.
abbrev FitFrom : ℕ → ℕ → List (List ℕ) → Type 0
FitFrom size room [] = Unit {0}
FitFrom size room (line ∷ lines) = (0 < length line) × (length line ≤ room) × Fit size lines

concat-onto : (x : ℕ) (lines : List (List ℕ)) → concat (onto x lines) ≡ x ∷ concat lines
concat-onto x [] = refl
concat-onto x (line ∷ lines) = refl

onto-FitFrom :
    (size room x : ℕ) (lines : List (List ℕ))
    → 1 < room
    → FitFrom size (room - 1) lines
    → FitFrom size room (onto x lines)
onto-FitFrom size room x [] h fit = (omega arith, omega arith, tt)
onto-FitFrom size room x (line ∷ lines) h (a, b, fit) = (omega arith, omega arith, fit)

FitFrom-Fit :
    (size : ℕ) (lines : List (List ℕ)) → 1 < size → FitFrom size (size - 1) lines → Fit size lines
FitFrom-Fit size [] h fit = tt
FitFrom-Fit size (line ∷ lines) h (a, b, fit) = (a, omega arith, fit)

fgets_from-Fit :
    (size room : ℕ) (file : List ℕ)
    → 1 < size
    → 0 < room
    → (concat (fgets_from size room file) ≡ file) × FitFrom size room (fgets_from size room file)
unfolding fgets_from
fgets_from-Fit size room [] h some = (refl, tt)
fgets_from-Fit size room (x ∷ xs) h some = elim (Bool-cases (x == 10 || leb room 1)) [
  | inl ends ↦ rw ends (
      let r = fgets_from-Fit size (size - 1) xs h (omega arith) in
      (ap (◌∷◌ x) r.0, (omega arith, ground arith, FitFrom-Fit size _ h r.1)))
  | inr goes ↦ rw goes (
      let r = fgets_from-Fit size (room - 1) xs h (ground arith) in
      (
        concat-onto x (fgets_from size (room - 1) xs) ∙ ap (◌∷◌ x) r.0,
        onto-FitFrom size room x _ (ground arith) r.1,
      ))
]

-- The lines are the file, cut into pieces that are not empty and fit into the buffer.
pub fgets_lines-Fit :
    (size : ℕ) (file : List ℕ)
    → 1 < size
    → (concat (fgets_lines size file) ≡ file) × Fit size (fgets_lines size file)
unfolding fgets_lines
fgets_lines-Fit size file h =
    let r = fgets_from-Fit size (size - 1) file h (omega arith) in
    (r.0, FitFrom-Fit size (fgets_from size (size - 1) file) h r.1)
