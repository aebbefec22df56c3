-- ===== src/Text.antt =====
-- The C string functions that src/config.c and src/admin.c call. A string is the list of its bytes
-- before the NUL.
pub mod Decimal
pub mod Lines
use Prim.Native.Char.{code}
use Prim.Native.String.{String}
use octopuslb.Base.{
  ℕ, zero, suc, ◌+◌, ◌-◌, ◌*◌, ◌^◌, ◌%◌, Bool, true, false, ◌&&◌, ◌||◌, Option, none, some, List,
  [], ◌∷◌, ltb, leb, ◌==◌, if◌then◌else◌, contains, ℤ, pos, negsuc, sub_ℕ,
}

-- `isspace` in the C locale.
abbrev pub is_space : ℕ → Bool
is_space c = c == 32 || (leb 9 c && leb c 13)

unfoldable pub skip_space : List ℕ → List ℕ
skip_space [] = []
skip_space (x ∷ xs) = if is_space x then skip_space xs else x ∷ xs

-- `!strncmp(s, word, n)` for a word of `n` bytes.
unfoldable pub starts_with : List ℕ → List ℕ → Bool
starts_with s [] = true
starts_with [] (c ∷ word) = false
starts_with (x ∷ s) (c ∷ word) = if x == c then starts_with s word else false

-- The string up to the first delimiter, and what follows that delimiter.
unfoldable pub split_at : List ℕ → List ℕ → List ℕ × List ℕ
split_at delims [] = ([], [])
split_at delims (x ∷ xs) =
    let rest = split_at delims xs in if contains delims x then ([], xs) else (x ∷ rest.0, rest.1)

-- `strtok`: the next token and where the search goes on; `none` for NULL, at the end of the string.
unfoldable pub strtok : List ℕ → List ℕ → Option (List ℕ × List ℕ)
strtok delims [] = none
strtok delims (x ∷ xs) =
    if contains delims x then strtok delims xs else some (split_at delims (x ∷ xs))

abbrev pub is_digit : ℕ → ℕ → Bool
is_digit base c = leb b'0' c && ltb c (b'0' + base)

-- The digits at the start of a string, read on from `n`.
unfoldable pub read_digits : ℕ → ℕ → List ℕ → ℕ
read_digits base n [] = n
read_digits base n (c ∷ cs) =
    if is_digit base c then read_digits base (n * base + (c - b'0')) cs else n

-- What `strtol` returns: the value, whether it stores an end behind the start, and whether it sets
-- `errno` to ERANGE.
pub record Number : Type 0 where
  pub value : ℤ
  pub found : Bool
  pub erange : Bool

abbrev pub has_digit : ℕ → List ℕ → Bool
has_digit base [] = false
has_digit base (c ∷ cs) = is_digit base c

-- LONG_MAX is `2 ^ 63 - 1`, and LONG_MIN is `- 2 ^ 63`.
abbrev pub long_of : Bool → ℕ → Bool → Number
long_of false n any =
    if ltb n (2 ^ 63)
    then record { value = pos n; found = any; erange = false }
    else record { value = pos (2 ^ 63 - 1); found = any; erange = true }
long_of true n any =
    if leb n (2 ^ 63)
    then record { value = sub_ℕ 0 n; found = any; erange = false }
    else record { value = negsuc (2 ^ 63 - 1); found = any; erange = true }

unfoldable pub strtol_body : ℕ → Bool → List ℕ → Number
strtol_body base minus s = long_of minus (read_digits base 0 s) (has_digit base s)

-- A sign, and then digits. (The bases used are 8 and 10.)
unfoldable pub strtol_signed : ℕ → List ℕ → Number
unfolding strtol_body
strtol_signed base [] = strtol_body base false []
strtol_signed base (c ∷ cs) =
    if c == b'-'
    then strtol_body base true cs
    else if c == b'+'
    then strtol_body base false cs
    else strtol_body base false (c ∷ cs)

unfoldable pub strtol : ℕ → List ℕ → Number
unfolding strtol_signed
strtol base s = strtol_signed base (skip_space s)

-- A `long` that is assigned to an `int`.
abbrev pub to_int : ℤ → ℤ
to_int (pos n) =
    if ltb (n % 2 ^ 32) (2 ^ 31) then pos (n % 2 ^ 32) else negsuc (2 ^ 32 - n % 2 ^ 32 - 1)
to_int (negsuc n) =
    if ltb (n % 2 ^ 32) (2 ^ 31) then negsuc (n % 2 ^ 32) else pos (2 ^ 32 - n % 2 ^ 32 - 1)

-- The bytes of a text.
abbrev pub codes : String → List ℕ
codes String.[] = []
codes (String.◌∷◌ c s) = code c ∷ codes s
