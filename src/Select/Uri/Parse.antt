-- ===== src/Select/Uri/Parse.antt =====
-- Which bytes of a request decide its slot (src/algorithms.c, the first part of
-- `set_static_server` and `set_hash_server`).
use octopuslb.Base.{
  ℕ, zero, suc, ◌+◌, ◌-◌, ◌<◌, ◌≤◌, ◌≡◌, refl, true, false, Bool, ◌||◌, if_split, none, some, List,
  [], ◌∷◌, ◌++◌, arith, ◌==◌, contains, contains-append, append_assoc, length, length-append, ap,
}
use octopuslb.Select.Uri.{
  memccpy, c_string, strchr, take_until, strtok, uri_line_len, strip_query, request_uri, is_closed,
  is_delimited, second_word, overrun,
}

-- A string with no `c`.
abbrev pub Without : ℕ → List ℕ → Type 0
Without c xs = contains xs c ≡ false

strchr-none : (c : ℕ) (xs : List ℕ) → Without c xs → strchr c xs ≡ none
unfolding strchr contains
strchr-none c [] h = refl
strchr-none c (x ∷ xs) h = ground (arith, strchr-none c xs)

strchr-append : (c : ℕ) (xs ys : List ℕ) → Without c xs → strchr c (xs ++ (c ∷ ys)) ≡ some (c ∷ ys)
unfolding strchr contains
strchr-append c [] ys h = ground arith
strchr-append c (x ∷ xs) ys h = ground (arith, strchr-append c xs ys)

take_until-append : (c : ℕ) (xs ys : List ℕ) → Without c xs → take_until c (xs ++ (c ∷ ys)) ≡ xs
unfolding take_until contains
take_until-append c [] ys h = ground arith
take_until-append c (x ∷ xs) ys h = ground (arith, take_until-append c xs ys)

c_string-append : (xs ys : List ℕ) → Without 0 xs → c_string (xs ++ ys) ≡ xs ++ c_string ys
unfolding c_string contains
c_string-append [] ys h = refl
c_string-append (x ∷ xs) ys h = ground (arith, c_string-append xs ys)

memccpy-append :
    (n c : ℕ) (xs ys : List ℕ)
    → Without c xs
    → length xs ≤ n
    → memccpy n c (xs ++ ys) ≡ xs ++ memccpy (n - length xs) c ys
unfolding memccpy contains
memccpy-append n c [] ys h le = ap (λ k. memccpy k c ys) (omega arith)
memccpy-append zero c (x ∷ xs) ys h le = absurd (omega arith)
memccpy-append (suc n) c (x ∷ xs) ys h le =
    let e : suc n - suc (length xs) ≡ n - length xs = omega arith in
    rw e (ground (arith, memccpy-append n c xs ys))

strtok-cons :
    (c x : ℕ) (xs ys : List ℕ)
    → Without c (x ∷ xs)
    → strtok c ((x ∷ xs) ++ (c ∷ ys)) ≡ some (x ∷ xs)
unfolding strtok contains
strtok-cons c x xs ys h = ground (arith, take_until-append c xs ys)

strtok-skip : (c : ℕ) (xs : List ℕ) → strtok c (c ∷ xs) ≡ strtok c xs
unfolding strtok
strtok-skip c xs = ground arith

memccpy_space : (n : ℕ) (rest : List ℕ) → memccpy (suc n) 10 (32 ∷ rest) ≡ 32 ∷ memccpy n 10 rest
unfolding memccpy
memccpy_space n rest = refl

c_string_space : (xs : List ℕ) → c_string (32 ∷ xs) ≡ 32 ∷ c_string xs
unfolding c_string
c_string_space xs = refl

-- The first line's bytes up to the space behind the URI reach the parser unchanged.
line_prefix :
    (k : ℕ) (xs rest : List ℕ)
    → Without 10 xs
    → Without 0 xs
    → length xs + suc k ≡ uri_line_len
    → c_string (memccpy uri_line_len 10 (xs ++ (32 ∷ rest)))
      ≡ xs ++ (32 ∷ c_string (memccpy k 10 rest))
line_prefix k xs rest nl nul lt =
    let e : uri_line_len - length xs ≡ suc k = omega arith in
    rw (memccpy-append uri_line_len 10 xs (32 ∷ rest) nl (omega arith), e, memccpy_space k rest)
      (rw (c_string-append xs (32 ∷ memccpy k 10 rest) nul, c_string_space (memccpy k 10 rest)))

-- What the theorem below asks of a word of the request line: no space, line feed or NUL.
pub record IsWord (xs : List ℕ) : Type 0 where
  pub no_space : Without 32 xs
  pub no_newline : Without 10 xs
  pub no_nul : Without 0 xs

words :
    (a : ℕ) (xs ys : List ℕ)
    → (a == 32) ≡ false
    → Without a xs
    → Without a ys
    → Without a (xs ++ (32 ∷ ys))
unfolding contains
words a xs ys ne h g = ground (arith, contains-append xs (32 ∷ ys) a)

is_delimited-cons :
    (c x : ℕ) (xs ys : List ℕ)
    → Without c (x ∷ xs)
    → is_delimited c (c ∷ (x ∷ xs) ++ (c ∷ ys)) ≡ true
unfolding is_delimited contains
is_delimited-cons c x xs ys h = ground (arith, h, contains-append xs (c ∷ ys) c)

second_word_lem :
    (closed : Bool) (x : ℕ) (uri ys : List ℕ)
    → Without 32 (x ∷ uri)
    → second_word closed (32 ∷ (x ∷ uri) ++ (32 ∷ ys)) ≡ strip_query (x ∷ uri)
unfolding second_word
second_word_lem closed x uri ys h =
    if_split (λ u. u ≡ strip_query (x ∷ uri))
      (closed || is_delimited 32 (32 ∷ (x ∷ uri) ++ (32 ∷ ys))) _ overrun
      (λ _. rw (strtok-skip 32 ((x ∷ uri) ++ (32 ∷ ys)), strtok-cons 32 x uri ys h) refl)
      (λ e. absurd (ground (arith, e, is_delimited-cons 32 x uri ys h)))

-- Of a request line `VERB URI ...` whose first two words and the space between them take fewer
-- than 200 bytes, exactly the second word decides the slot.
pub request_uri_lem :
    (verb : List ℕ) (x : ℕ) (uri rest : List ℕ)
    → IsWord verb
    → IsWord (x ∷ uri)
    → length verb + length (x ∷ uri) + 1 < uri_line_len
    → request_uri ((verb ++ (32 ∷ x ∷ uri)) ++ (32 ∷ rest)) ≡ strip_query (x ∷ uri)
unfolding request_uri
request_uri_lem verb x uri rest v u len =
    rw
      (line, append_assoc verb (32 ∷ x ∷ uri) tail, strchr-append 32 verb _ v.no_space, request_uri)
      (second_word_lem
        (is_closed (memccpy uri_line_len 10 ((verb ++ (32 ∷ x ∷ uri)) ++ (32 ∷ rest)))) x uri
        (c_string (memccpy k 10 rest)) u.no_space)
  where
    k : ℕ
    k = uri_line_len - length (verb ++ (32 ∷ x ∷ uri)) - 1

    tail : List ℕ
    tail = 32 ∷ c_string (memccpy k 10 rest)

    line :
        c_string (memccpy uri_line_len 10 ((verb ++ (32 ∷ x ∷ uri)) ++ (32 ∷ rest)))
        ≡ (verb ++ (32 ∷ x ∷ uri)) ++ tail
    line =
        line_prefix k (verb ++ (32 ∷ x ∷ uri)) rest
          (words 10 verb (x ∷ uri) refl v.no_newline u.no_newline)
          (words 0 verb (x ∷ uri) refl v.no_nul u.no_nul)
          (omega (arith, length-append verb (32 ∷ x ∷ uri)))
