-- ===== src/Session/Buffer.antt =====
-- The byte buffers of a session: fixed arrays of which the first `used` bytes are waiting.
use native.Mathlib.Nat.{suc-add}
use octopuslb.Base.{
  append_assoc, ◌∙◌, length-replicate, ℕ, zero, suc, ◌+◌, ◌≤◌, ◌≡◌, refl, false, List, [], ◌∷◌,
  ◌++◌, arith, ◌==◌, if◌then◌else◌, length, length-append, length-take, length-drop, take, drop,
  contains, replicate, ap, ◌<◌, ltb, if_split,
}
use octopuslb.Session.{Overlap}

-- `read` and `strncpy` into the array at an offset.
unfoldable pub write_at : List ℕ → ℕ → List ℕ → List ℕ
write_at buf off bytes = take off buf ++ (bytes ++ drop (off + length bytes) buf)

-- The bytes that are left have moved to the front.
abbrev pub moved : List ℕ → ℕ → ℕ → List ℕ
moved buf n rest = take rest (drop n buf) ++ drop rest buf

-- `memcpy(buf, buf + n, rest)`. The areas overlap when `n` is below `rest`; the C standard then gives
-- the call no meaning.
unfoldable pub shift_down : Overlap → List ℕ → ℕ → ℕ → List ℕ
shift_down overlap buf n rest = if ltb n rest then overlap buf n rest else moved buf n rest

-- Areas that do not overlap, or a `memcpy` that copies such a pair as `memmove` does.
abbrev pub Moves : Overlap → List ℕ → ℕ → ℕ → Type 0
Moves overlap buf n rest = n < rest → overlap buf n rest ≡ moved buf n rest

pub shift_down-moved :
    (overlap : Overlap) (buf : List ℕ) (n rest : ℕ)
    → Moves overlap buf n rest
    → shift_down overlap buf n rest ≡ moved buf n rest
unfolding shift_down
shift_down-moved overlap buf n rest h =
    if_split (λ b. b ≡ moved buf n rest) (ltb n rest) _ _ (λ e. h (ground arith)) (λ e. refl)

-- `strncpy(dst, src, n)` with `n` bytes in reach: stops at a NUL and pads with NULs.
unfoldable pub strncpy : List ℕ → List ℕ
strncpy [] = []
strncpy (x ∷ xs) = if x == 0 then replicate (suc (length xs)) 0 else x ∷ strncpy xs

-- The bytes that are waiting.
abbrev pub waiting : List ℕ → ℕ → List ℕ
waiting buf used = take used buf

take-length : (xs ys : List ℕ) → take (length xs) (xs ++ ys) ≡ xs
take-length [] ys = refl
take-length (x ∷ xs) ys = ap (λ t. x ∷ t) (take-length xs ys)

take_exact : (n : ℕ) (xs ys : List ℕ) → n ≡ length xs → take n (xs ++ ys) ≡ xs
take_exact n xs ys h = rw h (take-length xs ys)

drop-take : (n k : ℕ) (xs : List ℕ) → take k (drop n xs) ≡ drop n (take (n + k) xs)
drop-take zero k xs = ap (λ j. take j xs) (omega arith)
drop-take (suc n) zero [] = rw suc-add refl
drop-take (suc n) (suc k) [] = rw suc-add refl
drop-take (suc n) k (x ∷ xs) = rw suc-add (drop-take n k xs)

-- After a write behind the waiting bytes, the waiting bytes are the old ones and then the new ones.
pub take-write_at :
    (buf bytes : List ℕ) (off : ℕ)
    → off ≤ length buf
    → take (off + length bytes) (write_at buf off bytes) ≡ take off buf ++ bytes
unfolding write_at
take-write_at buf bytes off h =
    rw (← append_assoc (take off buf) bytes (drop (off + length bytes) buf)) (
      take_exact (off + length bytes) (take off buf ++ bytes) _
        (omega (arith, length-append (take off buf) bytes, length-take off buf)))

pub length-write_at :
    (buf bytes : List ℕ) (off : ℕ)
    → off + length bytes ≤ length buf
    → length (write_at buf off bytes) ≡ length buf
unfolding write_at
length-write_at buf bytes off h = omega (
  arith,
  length-append (take off buf) (bytes ++ drop (off + length bytes) buf),
  length-append bytes (drop (off + length bytes) buf),
  length-take off buf,
  length-drop (off + length bytes) buf,
)

-- After the move the waiting bytes are the old ones less the first `n`.
pub take-moved :
    (buf : List ℕ) (n rest : ℕ)
    → n + rest ≤ length buf
    → take rest (moved buf n rest) ≡ drop n (take (n + rest) buf)
take-moved buf n rest h =
    take_exact rest (take rest (drop n buf)) (drop rest buf)
      (omega (arith, length-take rest (drop n buf), length-drop n buf))
    ∙ drop-take n rest buf

pub length-moved :
    (buf : List ℕ) (n rest : ℕ) → n + rest ≤ length buf → length (moved buf n rest) ≡ length buf
length-moved buf n rest h = omega (
  arith,
  length-append (take rest (drop n buf)) (drop rest buf),
  length-take rest (drop n buf),
  length-drop n buf,
  length-drop rest buf,
)

pub length-strncpy : (xs : List ℕ) → length (strncpy xs) ≡ length xs
unfolding strncpy
length-strncpy [] = refl
length-strncpy (x ∷ xs) = ground (arith, length-strncpy xs, length-replicate {A = ℕ} (length xs) 0)

-- `strncpy` copies bytes faithfully when none of them is NUL.
pub strncpy_of_no_nul : (xs : List ℕ) → contains xs 0 ≡ false → strncpy xs ≡ xs
unfolding strncpy contains
strncpy_of_no_nul [] h = refl
strncpy_of_no_nul (x ∷ xs) h = ground (arith, strncpy_of_no_nul xs)
