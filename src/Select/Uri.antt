-- ===== src/Select/Uri.antt =====
-- How the HASH and STATIC algorithms of src/algorithms.c turn a request into a hash: the C string
-- functions that they call, `DJBHash`, and the common first part of `set_static_server` and
-- `set_hash_server`. A string is the list of its bytes before the NUL.
pub mod Examples
pub mod Parse
use octopuslb.Base.{
  ℕ, zero, suc, ◌+◌, ◌-◌, ◌*◌, ◌%◌, ◌^◌, ◌<◌, ◌≤◌, ◌≡◌, ◌⊎◌, refl, inl, inr, Bool, true, false,
  Option, none, some, List, [], ◌∷◌, ◌++◌, arith, ltb, ◌==◌, if◌then◌else◌, Bool-cases, contains,
  length, ◌||◌,
}
use octopuslb.Balancer.{hash_table_size}

-- `memccpy(dst, src, stop, n)`: at most `n` bytes, up to and with the first `stop`.
unfoldable pub memccpy : ℕ → ℕ → List ℕ → List ℕ
memccpy zero stop xs = []
memccpy (suc n) stop [] = []
memccpy (suc n) stop (x ∷ xs) = if x == stop then x ∷ [] else x ∷ memccpy n stop xs

-- The bytes before the NUL.
unfoldable pub c_string : List ℕ → List ℕ
c_string [] = []
c_string (x ∷ xs) = if x == 0 then [] else x ∷ c_string xs

-- `strchr`: the rest of the string from the first occurrence on.
unfoldable pub strchr : ℕ → List ℕ → Option (List ℕ)
strchr c [] = none
strchr c (x ∷ xs) = if x == c then some (x ∷ xs) else strchr c xs

unfoldable pub take_until : ℕ → List ℕ → List ℕ
take_until c [] = []
take_until c (x ∷ xs) = if x == c then [] else x ∷ take_until c xs

-- The first call of `strtok` with one delimiter: leading delimiters are passed over; NULL if
-- nothing is left.
unfoldable pub strtok : ℕ → List ℕ → Option (List ℕ)
strtok c [] = none
strtok c (x ∷ xs) = if x == c then strtok c xs else some (x ∷ take_until c xs)

-- A `char` that is added to an `unsigned int` (char is signed on the platforms supported).
abbrev pub char_value : ℕ → ℕ
char_value c = if ltb c 128 then c else c + 2 ^ 32 - 256

unfoldable pub djb_loop : ℕ → List ℕ → ℕ
djb_loop hash [] = hash
djb_loop hash (c ∷ cs) = djb_loop ((hash * 32 % 2 ^ 32 + hash + char_value c) % 2 ^ 32) cs

-- `DJBHash`, cut to an `unsigned short`.
unfoldable pub djb_hash : List ℕ → ℕ
djb_hash str = djb_loop 5381 str % 2 ^ 16

abbrev pub uri_line_len : ℕ
uri_line_len = 200

-- What the first line of the request gives: no URI; a URI of nothing but question marks, for which
-- the code passes the NULL of `strtok` to `strlen`; a search that runs past the end of
-- `request_line`, which has no NUL then; or the slot of the hash table.
pub data Uri : Type 0 where
  no_uri null_result overrun : Uri
  slot : ℕ → Uri

unfoldable pub strip_query : List ℕ → Uri
strip_query uri = elim (strchr b'?' uri) [
  | none ↦ slot (djb_hash uri % (hash_table_size - 1))
  | some _ ↦ elim (strtok b'?' uri) [
    | none ↦ null_result
    | some result ↦ slot (djb_hash result % (hash_table_size - 1))
  ]
]

-- Does `request_line`, which is all NULs before the copy, still end with a NUL?
abbrev pub is_closed : List ℕ → Bool
is_closed line = ltb (length line) uri_line_len || contains line 0

-- `strtok` finds a delimiter behind the word, within the string.
unfoldable pub is_delimited : ℕ → List ℕ → Bool
is_delimited c [] = false
is_delimited c (x ∷ xs) = if x == c then is_delimited c xs else contains (x ∷ xs) c

-- From the first space on.
unfoldable pub second_word : (closed : Bool) → List ℕ → Uri
second_word closed uri_start =
    if closed || is_delimited b' ' uri_start
    then elim (strtok b' ' uri_start) [ none ↦ no_uri | some uri ↦ strip_query uri ]
    else overrun

unfoldable pub request_uri : List ℕ → Uri
request_uri buffer =
    let line = memccpy uri_line_len 10 buffer in
    elim (strchr b' ' (c_string line)) [
      | none ↦ if is_closed line then no_uri else overrun
      | some uri_start ↦ second_word (is_closed line) uri_start
    ]

pub Uri-cases :
    (u : Uri) → (u ≡ no_uri) ⊎ ((u ≡ null_result) ⊎ ((u ≡ overrun) ⊎ ((h : ℕ) × (u ≡ slot h))))
Uri-cases no_uri = inl refl
Uri-cases null_result = inr (inl refl)
Uri-cases overrun = inr (inr (inl refl))
Uri-cases (slot h) = inr (inr (inr (h, refl)))
