-- ===== src/Monitor/Sorting.antt =====
-- A sorting function that has what `qsort` promises to src/monitor.c.
use octopuslb.Base.{
  Bool, ℕ, zero, suc, ◌<◌, ◌≤◌, ◌≡◌, ◌⊎◌, refl, inl, inr, ap, ◌∙◌, List, [], ◌∷◌, arith,
  if◌then◌else◌, if_split, leb_ℤ, ◌≤ℤ◌, length, get_or,
}
use octopuslb.Balancer.{Server, zeroed}
use octopuslb.Monitor.Rebalance.Counting.{count_if}
use octopuslb.Monitor.Rebalance.Extremes.{IsExactSort}
use octopuslb.Monitor.Rebalance.Outcome.{IsSort}

pub insert : Server → List Server → List Server
insert x [] = x ∷ []
insert x (y ∷ ys) =
    let rest = insert x ys in if leb_ℤ x.e_load y.e_load then x ∷ y ∷ ys else y ∷ rest

pub insertion_sort : List Server → List Server
insertion_sort [] = []
insertion_sort (x ∷ xs) = insert x (insertion_sort xs)

abbrev at : List Server → ℕ → Server
at xs i = get_or xs i zeroed

length-insert : (x : Server) (ys : List Server) → length (insert x ys) ≡ suc (length ys)
unfolding insert
length-insert x [] = refl
length-insert x (y ∷ ys) = ground (arith, length-insert x ys)

length-insertion_sort : (xs : List Server) → length (insertion_sort xs) ≡ length xs
unfolding insertion_sort
length-insertion_sort [] = refl
length-insertion_sort (x ∷ xs) =
    length-insert x (insertion_sort xs) ∙ ap suc (length-insertion_sort xs)

-- An element of the longer list is the new one or an old one.
abbrev Origin : Server → List Server → Server → Type 0
Origin x ys s = (s ≡ x) ⊎ ((k : ℕ) × (k < length ys) × (s ≡ at ys k))

insert-Origin :
    (x : Server) (ys : List Server) (i : ℕ) → i < suc (length ys) → Origin x ys (at (insert x ys) i)
unfolding insert
insert-Origin x [] zero lt = inl refl
insert-Origin x [] (suc i) lt = absurd (omega arith)
insert-Origin x (y ∷ ys) i lt =
    if_split (λ zs. Origin x (y ∷ ys) (at zs i)) (leb_ℤ x.e_load y.e_load) (x ∷ y ∷ ys)
      (y ∷ insert x ys) (λ h. first i lt) (λ h. later (λ k l. insert-Origin x ys k l) i lt)
  where
    first : (i : ℕ) → i < suc (suc (length ys)) → Origin x (y ∷ ys) (at (x ∷ y ∷ ys) i)
    first zero lt = inl refl
    first (suc i) lt = inr (i, omega arith, refl)

    later :
        ((k : ℕ) → k < suc (length ys) → Origin x ys (at (insert x ys) k))
        → (i : ℕ) → i < suc (suc (length ys))
        → Origin x (y ∷ ys) (at (y ∷ insert x ys) i)
    later old zero lt = inr (0, omega arith, refl)
    later old (suc i) lt = elim (old i (omega arith)) [
      | inl e ↦ inl e
      | inr (k, kl, e) ↦ inr (suc k, omega arith, e)
    ]

insertion_sort-elements :
    (xs : List Server) (i : ℕ)
    → i < length xs
    → (k : ℕ) × (k < length xs) × (at (insertion_sort xs) i ≡ at xs k)
unfolding insertion_sort
insertion_sort-elements [] i lt = absurd (omega arith)
insertion_sort-elements (x ∷ xs) i lt =
    elim (insert-Origin x (insertion_sort xs) i (omega (arith, length-insertion_sort xs))) [
      | inl e ↦ (0, omega arith, e)
      | inr (k, kl, e) ↦
          let (j, jl, je) =
            insertion_sort-elements xs k (omega (arith, length-insertion_sort xs)) in
          (suc j, omega arith, e ∙ je)
    ]

IsAscending : List Server → Type 0
IsAscending xs = (i j : ℕ) → i ≤ j → j < length xs → (at xs i).e_load ≤ℤ (at xs j).e_load

-- A list whose head is below the rest, which is ascending.
IsAscending-cons :
    (x : Server) (xs : List Server)
    → ((k : ℕ) → k < length xs → x.e_load ≤ℤ (at xs k).e_load)
    → IsAscending xs
    → IsAscending (x ∷ xs)
unfolding IsAscending
IsAscending-cons x xs low asc zero zero le lt = omega arith
IsAscending-cons x xs low asc zero (suc j) le lt = low j (omega arith)
IsAscending-cons x xs low asc (suc i) zero le lt = absurd (omega arith)
IsAscending-cons x xs low asc (suc i) (suc j) le lt = asc i j (omega arith) (omega arith)

IsAscending-tail : (x : Server) (xs : List Server) → IsAscending (x ∷ xs) → IsAscending xs
unfolding IsAscending
IsAscending-tail x xs asc i j le lt = asc (suc i) (suc j) (omega arith) (omega arith)

below_all :
    (x y : Server) (ys : List Server)
    → x.e_load ≤ℤ y.e_load
    → IsAscending (y ∷ ys)
    → (k : ℕ) → k < length (y ∷ ys)
    → x.e_load ≤ℤ (at (y ∷ ys) k).e_load
unfolding IsAscending
below_all x y ys le asc k lt = let h = asc 0 k (omega arith) lt in omega arith

below_inserted :
    (x y : Server) (ys : List Server)
    → y.e_load ≤ℤ x.e_load
    → IsAscending (y ∷ ys)
    → (k : ℕ) → k < length (insert x ys)
    → y.e_load ≤ℤ (at (insert x ys) k).e_load
unfolding IsAscending
below_inserted x y ys le asc k lt =
    elim (insert-Origin x ys k (omega (arith, length-insert x ys))) [
      | inl e ↦ rw e le
      | inr (j, jl, e) ↦ rw e (asc 0 (suc j) (omega arith) (omega arith))
    ]

insert-IsAscending : (x : Server) (ys : List Server) → IsAscending ys → IsAscending (insert x ys)
unfolding insert
insert-IsAscending x [] asc = IsAscending-cons x [] (λ k lt. absurd (omega arith)) asc
insert-IsAscending x (y ∷ ys) asc =
    if_split IsAscending (leb_ℤ x.e_load y.e_load) (x ∷ y ∷ ys) (y ∷ insert x ys)
      (λ h. IsAscending-cons x (y ∷ ys) (below_all x y ys (ground arith) asc) asc)
      (λ h.
        IsAscending-cons y (insert x ys) (below_inserted x y ys (ground arith) asc)
          (insert-IsAscending x ys (IsAscending-tail y ys asc)))

insertion_sort-IsAscending : (xs : List Server) → IsAscending (insertion_sort xs)
unfolding insertion_sort IsAscending
insertion_sort-IsAscending [] = λ i j le lt. absurd (omega arith)
insertion_sort-IsAscending (x ∷ xs) =
    insert-IsAscending x (insertion_sort xs) (insertion_sort-IsAscending xs)

pub insertion_sort-IsSort : IsSort insertion_sort
unfolding IsAscending
insertion_sort-IsSort = record {
  elements = insertion_sort-elements;
  ascending = λ xs i j le lt.
      insertion_sort-IsAscending xs i j le (omega (arith, length-insertion_sort xs));
}

count_if-insert :
    (test : Server → Bool) (x : Server) (ys : List Server)
    → count_if test (insert x ys) ≡ count_if test (x ∷ ys)
unfolding count_if insert
count_if-insert test x [] = refl
count_if-insert test x (y ∷ ys) = ground (arith, count_if-insert test x ys)

count_if-cons :
    (test : Server → Bool) (x : Server) (xs ys : List Server)
    → count_if test xs ≡ count_if test ys
    → count_if test (x ∷ xs) ≡ count_if test (x ∷ ys)
unfolding count_if
count_if-cons test x xs ys h = ap (λ n. if test x then suc n else n) h

count_if-insertion_sort :
    (test : Server → Bool) (xs : List Server) → count_if test (insertion_sort xs) ≡ count_if test xs
unfolding insertion_sort
count_if-insertion_sort test [] = refl
count_if-insertion_sort test (x ∷ xs) =
    count_if-insert test x (insertion_sort xs)
    ∙ count_if-cons test x _ _ (count_if-insertion_sort test xs)

pub insertion_sort-IsExactSort : IsExactSort insertion_sort
insertion_sort-IsExactSort = record {
  sorts = insertion_sort-IsSort;
  same_length = length-insertion_sort;
  counts = count_if-insertion_sort;
}
