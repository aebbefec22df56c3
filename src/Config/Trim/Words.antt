-- ===== src/Config/Trim/Words.antt =====
-- What `trim_white_space` and `strtok` make of a word, at the end of a line or not.
use octopuslb.Base.{
  ℕ, zero, suc, ◌+◌, ◌-◌, ◌<◌, ◌≡◌, refl, ap, ◌∙◌, true, false, some, none, List, [], ◌∷◌, ◌++◌,
  arith, ◌==◌, length, length-append, append-nil, ◌⊎◌, take, get_or, contains, inl, inr,
}
use octopuslb.Text.{is_space, skip_space, strtok, split_at, codes}
use octopuslb.Config.Trim.{back_up, trim_white_space}
use octopuslb.Config.Trim.Outcome.{last}
use octopuslb.Config.File.{tokens}

-- No space and no equals sign.
abbrev pub Plain : List ℕ → Type 0
Plain [] = Unit
Plain (x ∷ xs) = (is_space x ≡ false) × ((x == b'=') ≡ false) × Plain xs

abbrev pub IsWord : List ℕ → Type 0
IsWord xs = Plain xs × (0 < length xs)

last-Plain : (x : ℕ) (xs : List ℕ) → Plain (x ∷ xs) → is_space (last x xs) ≡ false
last-Plain x [] p = p.0
last-Plain x (y ∷ ys) p = last-Plain y ys p.2

get_or-last : (x : ℕ) (xs ys : List ℕ) → get_or (x ∷ (xs ++ ys)) (length xs) 0 ≡ last x xs
get_or-last x [] ys = refl
get_or-last x (y ∷ zs) ys = get_or-last y zs ys

get_or-end : (xs : List ℕ) (y : ℕ) → get_or (xs ++ (y ∷ [])) (length xs) 0 ≡ y
get_or-end [] y = refl
get_or-end (x ∷ xs) y = get_or-end xs y

pub take_front : (xs ys : List ℕ) → take (length xs) (xs ++ ys) ≡ xs
take_front [] ys = refl
take_front (x ∷ xs) ys = ap (◌∷◌ x) (take_front xs ys)

back_up_stop : (s : List ℕ) (end : ℕ) → is_space (get_or s end 0) ≡ false → back_up s end ≡ end
unfolding back_up
back_up_stop s zero h = refl
back_up_stop s (suc end) h = rw h refl

back_up_space :
    (s : List ℕ) (end : ℕ)
    → is_space (get_or s (suc end) 0) ≡ true
    → back_up s (suc end) ≡ back_up s end
unfolding back_up
back_up_space s end h = rw h refl

skip_space_stop : (x : ℕ) (xs : List ℕ) → is_space x ≡ false → skip_space (x ∷ xs) ≡ x ∷ xs
unfolding skip_space
skip_space_stop x xs h = rw h refl

-- The trimming of a string that starts with no space.
trim-cons :
    (x : ℕ) (xs : List ℕ) (k : ℕ)
    → is_space x ≡ false
    → back_up (x ∷ xs) (length xs) ≡ k
    → trim_white_space (x ∷ xs) ≡ take (suc k) (x ∷ xs)
unfolding trim_white_space
trim-cons x xs k h e =
    let end : suc (length xs) - 1 ≡ length xs = omega arith in
    let next : k + 1 ≡ suc k = omega arith in
    rw (skip_space_stop x xs h) (rw end (rw e (rw next refl)))

get_or_whole : (x : ℕ) (xs : List ℕ) → get_or (x ∷ xs) (length xs) 0 ≡ last x xs
get_or_whole x [] = refl
get_or_whole x (y ∷ ys) = get_or_whole y ys

take_whole : (xs : List ℕ) → take (length xs) xs ≡ xs
take_whole [] = refl
take_whole (x ∷ xs) = ap (◌∷◌ x) (take_whole xs)

trim_word : (xs : List ℕ) → IsWord xs → trim_white_space xs ≡ xs
trim_word [] w = absurd (omega (arith, w.1))
trim_word (x ∷ xs) (p, _) =
    let stop : is_space (get_or (x ∷ xs) (length xs) 0) ≡ false =
      rw (get_or_whole x xs) (last-Plain x xs p) in
    trim-cons x xs (length xs) p.0 (back_up_stop (x ∷ xs) (length xs) stop) ∙ take_whole (x ∷ xs)

trim_line : (xs : List ℕ) → IsWord xs → trim_white_space (xs ++ (10 ∷ [])) ≡ xs
trim_line [] w = absurd (omega (arith, w.1))
trim_line (x ∷ xs) (p, _) =
    let n = length xs in
    let s = x ∷ (xs ++ (10 ∷ [])) in
    let long : length (xs ++ (10 ∷ [])) ≡ suc n = omega (arith, length-append xs (10 ∷ [])) in
    let newline : is_space (get_or s (suc n) 0) ≡ true = rw (get_or-end xs 10) refl in
    let stop : is_space (get_or s n 0) ≡ false =
      rw (get_or-last x xs (10 ∷ [])) (last-Plain x xs p) in
    let back : back_up s (length (xs ++ (10 ∷ []))) ≡ n =
      ap (back_up s) long ∙ back_up_space s n newline ∙ back_up_stop s n stop in
    trim-cons x (xs ++ (10 ∷ [])) n p.0 back ∙ take_front (x ∷ xs) (10 ∷ [])

-- The delimiters of the first call of `strtok`, and of the second.
abbrev AreDelims : List ℕ → Type 0
AreDelims delims = (delims ≡ codes "=") ⊎ (delims ≡ codes " =")

Plain-contains :
    (delims : List ℕ) (x : ℕ)
    → AreDelims delims
    → is_space x ≡ false
    → (x == b'=') ≡ false
    → contains delims x ≡ false
unfolding contains
Plain-contains delims x (inl e) a b = rw e (ground arith)
Plain-contains delims x (inr e) a b = rw e (ground arith)

split_at-Plain :
    (delims xs ys : List ℕ)
    → AreDelims delims
    → Plain xs
    → split_at delims (xs ++ ys) ≡ (xs ++ (split_at delims ys).0, (split_at delims ys).1)
unfolding split_at
split_at-Plain delims [] ys d p = refl
split_at-Plain delims (x ∷ xs) ys d (a, b, p) =
    rw (Plain-contains delims x d a b)
      (ap (λ (r : List ℕ × List ℕ). (x ∷ r.0, r.1)) (split_at-Plain delims xs ys d p))

strtok-Plain :
    (delims xs ys : List ℕ)
    → AreDelims delims
    → IsWord xs
    → strtok delims (xs ++ ys) ≡ some (xs ++ (split_at delims ys).0, (split_at delims ys).1)
unfolding strtok
strtok-Plain delims [] ys d w = absurd (omega (arith, w.1))
strtok-Plain delims (x ∷ xs) ys d (p, _) =
    rw (Plain-contains delims x d p.0 p.1) (ap some (split_at-Plain delims (x ∷ xs) ys d p))

-- A line `key=value`.
abbrev pub setting : List ℕ → List ℕ → List ℕ
setting key value = key ++ (b'=' ∷ (value ++ (10 ∷ [])))

tokens_both :
    (line d rest v more : List ℕ)
    → strtok (codes "=") line ≡ some (d, rest)
    → strtok (codes " =") rest ≡ some (v, more)
    → tokens line ≡ (some (trim_white_space d), some (trim_white_space v))
unfolding tokens
tokens_both line d rest v more a b = ground (arith, a, b)

tokens_one :
    (line d rest : List ℕ)
    → strtok (codes "=") line ≡ some (d, rest)
    → strtok (codes " =") rest ≡ none
    → tokens line ≡ (some (trim_white_space d), none)
unfolding tokens
tokens_one line d rest a b = ground (arith, a, b)

-- The parser finds both words of a setting.
pub tokens-setting :
    (key value : List ℕ)
    → IsWord key
    → IsWord value
    → tokens (setting key value) ≡ (some key, some value)
unfolding split_at contains
tokens-setting key value k v =
    let directive : strtok (codes "=") (setting key value) ≡ some (key ++ [], value ++ (10 ∷ [])) =
      strtok-Plain (codes "=") key (b'=' ∷ (value ++ (10 ∷ []))) (inl refl) k in
    let rest : strtok (codes " =") (value ++ (10 ∷ [])) ≡ some (value ++ (10 ∷ []), []) =
      strtok-Plain (codes " =") value (10 ∷ []) (inr refl) v in
    tokens_both (setting key value) (key ++ []) (value ++ (10 ∷ [])) (value ++ (10 ∷ [])) []
      directive rest
    ∙ rw (append-nil, trim_word key k, trim_line value v) refl

-- A line with no equals sign is all directive.
pub tokens_word : (word : List ℕ) → IsWord word → tokens (word ++ (10 ∷ [])) ≡ (some word, none)
unfolding split_at contains strtok
tokens_word word w =
    let directive : strtok (codes "=") (word ++ (10 ∷ [])) ≡ some (word ++ (10 ∷ []), []) =
      strtok-Plain (codes "=") word (10 ∷ []) (inl refl) w in
    tokens_one (word ++ (10 ∷ [])) (word ++ (10 ∷ [])) [] directive refl
    ∙ rw (trim_line word w) refl
