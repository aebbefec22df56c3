-- ===== src/Text/Lines/Whole.antt =====
-- `fgets` finds the lines that a file was made of.
use octopuslb.Base.{
  ℕ, ◌-◌, ◌<◌, ◌≡◌, refl, sym, ap, ◌∙◌, false, ◌||◌, List, [], ◌∷◌, ◌++◌, arith, leb, ◌==◌, length,
  append_assoc,
}
use octopuslb.Text.Lines.{onto, concat, fgets_from, fgets_lines}

abbrev pub NoNewline : List ℕ → Type 0
NoNewline [] = Unit
NoNewline (x ∷ xs) = ((x == 10) ≡ false) × NoNewline xs

pub NoNewline-append : (xs ys : List ℕ) → NoNewline xs → NoNewline ys → NoNewline (xs ++ ys)
NoNewline-append [] ys p q = q
NoNewline-append (x ∷ xs) ys (a, p) q = (a, NoNewline-append xs ys p q)

-- A line with its newline, which the buffer can hold.
pub record IsLine (size : ℕ) (line : List ℕ) : Type 0 where
  pub body : List ℕ
  pub ends : line ≡ body ++ (10 ∷ [])
  pub no_newline : NoNewline body
  pub fits : length body < size - 1

abbrev pub AreLines : ℕ → List (List ℕ) → Type 0
AreLines size [] = Unit
AreLines size (line ∷ lines) = IsLine size line × AreLines size lines

fgets_from_line :
    (size room : ℕ) (body rest : List ℕ)
    → NoNewline body
    → length body < room
    → fgets_from size room (body ++ (10 ∷ rest))
      ≡ (body ++ (10 ∷ [])) ∷ fgets_from size (size - 1) rest
unfolding fgets_from
fgets_from_line size room [] rest p h = refl
fgets_from_line size room (x ∷ xs) rest (a, p) h =
    let goes : (x == 10 || leb room 1) ≡ false = ground arith in
    rw goes (ap (onto x) (fgets_from_line size (room - 1) xs rest p (omega arith)))

pub fgets_lines-concat :
    (size : ℕ) (lines : List (List ℕ))
    → AreLines size lines
    → fgets_lines size (concat lines) ≡ lines
unfolding fgets_lines fgets_from
fgets_lines-concat size [] p = refl
fgets_lines-concat size (line ∷ lines) (p, ps) =
    ap (λ l. fgets_from size (size - 1) (l ++ concat lines)) p.ends
    ∙ ap (fgets_from size (size - 1)) (append_assoc p.body (10 ∷ []) (concat lines))
    ∙ fgets_from_line size (size - 1) p.body (concat lines) p.no_newline p.fits
    ∙ ap (λ l. l ∷ fgets_lines size (concat lines)) (sym p.ends)
    ∙ ap (◌∷◌ line) (fgets_lines-concat size lines ps)
