-- ===== src/Traffic/Buffered.antt =====
-- The handlers of src/octopus.c against queues: the bytes that wait for the member, for the client
-- and for the clone arrive in order, none lost and none twice, where `memcpy` moves them.
use octopuslb.Base.{
  ℕ, ◌+◌, ◌-◌, ◌≤◌, ◌≡◌, refl, sym, ap, ◌∙◌, inl, inr, List, ◌++◌, arith, ◌==◌, if◌then◌else◌,
  Bool-cases, length, take, drop, length-take, [], ◌∷◌, zero, suc,
}
use octopuslb.Session.{Session, Overlap, message_size_limit}
use octopuslb.Session.Buffer.{
  waiting, write_at, shift_down, Moves, shift_down-moved, take-write_at, length-write_at,
  take-moved, length-moved,
}

-- A buffer of the session's size with its waiting bytes inside.
pub record Fits (buf : List ℕ) (used : ℕ) : Type 0 where
  pub size : length buf ≡ message_size_limit
  pub within : used ≤ message_size_limit

pub record IsBuffered (s : Session) : Type 0 where
  pub client : Fits s.client_read_buffer s.client_used_buffer
  pub member : Fits s.member_read_buffer s.member_used_buffer
  pub clone : Fits s.clone_write_buffer s.clone_used_buffer

-- The bytes that wait for the member, for the client, and for the clone.
abbrev pub for_member : Session → List ℕ
for_member s = waiting s.client_read_buffer s.client_used_buffer

abbrev pub for_client : Session → List ℕ
for_client s = waiting s.member_read_buffer s.member_used_buffer

abbrev pub for_clone : Session → List ℕ
for_clone s = waiting s.clone_write_buffer s.clone_used_buffer

-- Bytes that arrive go behind the waiting ones.
pub Fits-write_at :
    (buf bytes : List ℕ) (used : ℕ)
    → Fits buf used
    → length bytes ≤ message_size_limit - used
    → Fits (write_at buf used bytes) (used + length bytes)
      × (waiting (write_at buf used bytes) (used + length bytes) ≡ waiting buf used ++ bytes)
Fits-write_at buf bytes used f room =
    let size = f.size in
    let within = f.within in
    (
      record { size = length-write_at buf bytes used (omega arith) ∙ size; within = omega arith },
      take-write_at buf bytes used (omega arith),
    )

-- What a handler makes of a buffer of which `n` bytes were sent.
abbrev pub less_sent : Overlap → List ℕ → ℕ → ℕ → List ℕ
less_sent o buf used n = if used - n == 0 then buf else shift_down o buf n (used - n)

drop_all : (n : ℕ) (xs : List ℕ) → length xs ≤ n → drop n xs ≡ []
drop_all zero [] h = refl
drop_all (suc n) [] h = refl
drop_all zero (x ∷ xs) h = absurd (omega arith)
drop_all (suc n) (x ∷ xs) h = drop_all n xs (omega arith)

take_zero : (xs : List ℕ) → take 0 xs ≡ []
take_zero [] = refl
take_zero (x ∷ xs) = refl

-- Bytes that are sent leave at the front.
pub Fits-less_sent :
    (o : Overlap) (buf : List ℕ) (used n : ℕ)
    → Fits buf used
    → n ≤ used
    → Moves o buf n (used - n)
    → Fits (less_sent o buf used n) (used - n)
      × (waiting (less_sent o buf used n) (used - n) ≡ drop n (waiting buf used))
Fits-less_sent o buf used n f le moves = elim (Bool-cases (used - n == 0)) [
  | inl e ↦
      let size = f.size in
      let all : used - n ≡ 0 = ground arith in
      rw e (
        record { size = size; within = omega (arith, f.within) },
        rw all (
            take_zero buf ∙ sym (drop_all n (take used buf) (omega (arith, length-take used buf)))),
      )
  | inr e ↦
      let size = f.size in
      let within = f.within in
      let whole : n + (used - n) ≡ used = omega arith in
      rw (e, shift_down-moved o buf n (used - n) moves)
        (
          record {
            size = length-moved buf n (used - n) (omega arith) ∙ size;
            within = omega arith;
          },
          take-moved buf n (used - n) (omega arith) ∙ ap (λ k. drop n (take k buf)) whole,
        )
]
