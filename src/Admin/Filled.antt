-- ===== src/Admin/Filled.antt =====
-- The array of subjects of src/admin.c below its count: no pointer is NULL, and a loop over it ends.
use octopuslb.Base.{
  ℕ, ◌+◌, ◌<◌, ◌≡◌, refl, ap, ◌∙◌, Bool, true, false, Option, none, some, List, arith, ◌==◌,
  if_split, Option-cases, Bool-cases, inl, inr, ℤ, for_range-carries, ◌&&◌,
}
use octopuslb.Balancer.{Server}
use octopuslb.Admin.{
  Target, member_at, clone_at, Admin, is_manageable, push, take_member, take_clone, names_slot,
  slot_index, Answer, refused, fault, when_found, set_members, set_clones, find_subjects,
  set_subject, change, change_subject, change_next, change_each, is_type, starts, strays, letter_m,
  letter_c, letter_a,
}

-- Every subject below the count is a pointer to a slot.
abbrev pub Filled : Admin → Type 0
Filled a = (i : ℕ) → i < a.subject_count → (t : Target) × (a.subject i ≡ some t)

push-Filled : (t : Target) (a : Admin) → Filled a → Filled (push t a)
push-Filled t a h i lt = elim (Bool-cases (a.subject_count == i)) [
  | inl at ↦ (t, ground (arith, at))
  | inr away ↦ let (u, e) = h i (ground (arith, lt, away)) in (u, ground (arith, e, away))
]

take_member-Filled : (i : ℕ) (a : Admin) → Filled a → Filled (take_member i a)
take_member-Filled i a h =
    if_split Filled (is_manageable (a.balancer.members i).status) (push (member_at i) a) a
      (λ ok. push-Filled (member_at i) a h) (λ out. h)

take_clone-Filled : (i : ℕ) (a : Admin) → Filled a → Filled (take_clone i a)
take_clone-Filled i a h =
    if_split Filled (is_manageable (a.balancer.clones i).status) (push (clone_at i) a) a
      (λ ok. push-Filled (clone_at i) a h) (λ out. h)

pub set_members-Filled :
    (type : List ℕ) (v : Option ℤ) (a : Admin) → Filled a → Filled (set_members type v a).0
unfolding set_members
set_members-Filled type none a h =
    for_range-carries (λ i t. Filled t) take_member a.balancer.nmembers 0 a.balancer.nmembers a
      (omega arith) h (λ i t lt k. take_member-Filled i t k)
set_members-Filled type (some v) a h =
    if_split (λ (r : Admin × Bool). Filled r.0) (starts letter_m type) _ _
      (λ m.
        if_split (λ (r : Admin × Bool). Filled r.0)
          (names_slot a.balancer.members a.balancer.nmembers v) _ _
          (λ ok. push-Filled (member_at (slot_index v)) a h) (λ out. h))
      (λ m. h)

pub set_clones-Filled :
    (type : List ℕ) (v : Option ℤ) (a : Admin) → Filled a → Filled (set_clones type v a).0
unfolding set_clones
set_clones-Filled type none a h =
    for_range-carries (λ i t. Filled t) take_clone a.balancer.nclones 0 a.balancer.nclones a
      (omega arith) h (λ i t lt k. take_clone-Filled i t k)
set_clones-Filled type (some v) a h =
    if_split (λ (r : Admin × Bool). Filled r.0) (starts letter_c type) _ _
      (λ m.
        if_split (λ (r : Admin × Bool). Filled r.0)
          (names_slot a.balancer.clones a.balancer.nclones v) _ _
          (λ ok. push-Filled (clone_at (slot_index v)) a h) (λ out. h))
      (λ m. h)

pub find_subjects-Filled :
    (type : List ℕ) (v : Option ℤ) (a : Admin) → Filled a → Filled (find_subjects type v a).0
unfolding find_subjects
find_subjects-Filled type v a h =
    let m = set_members type v a in
    let hm = set_members-Filled type v a h in
    if_split (λ (r : Admin × Bool). Filled r.0) m.1
      ((set_clones type v m.0).0, (set_clones type v m.0).1 && is_type type) (m.0, false)
      (λ ok. set_clones-Filled type v m.0 hm) (λ out. hm)

-- A loop over subjects that are all there, step by step.
pub change_each-carries :
    (P : ℕ → Admin → Type 0) (f : Server → Server) (a : Admin)
    → Filled a
    → P 0 a
    → ((k : ℕ) (c : Admin) (t : Target)
        → a.subject k ≡ some t
        → P k c
        → P (k + 1) (record c { balancer = change f t c.balancer }))
    → (c : Admin) × (change_each f a ≡ some c) × P a.subject_count c
unfolding change_each
change_each-carries P f a filled base step =
    let (c, e, same, p) =
      for_range-carries
        (λ k (o : Option Admin). (c : Admin) × (o ≡ some c) × (c.subject ≡ a.subject) × P k c)
        (change_next f) a.subject_count 0 a.subject_count (some a) (omega arith)
        (a, refl, refl, base)
        (λ k o lt (c, e, same, p).
          let (t, at) = filled k lt in
          let here : c.subject k ≡ some t = ap (λ g. g k) same ∙ at in
          (
            record c { balancer = change f t c.balancer },
            ap (change_next f k) e ∙ rw (change_subject, here) refl,
            same,
            step k c t at p,
          )) in
    (c, e, p)

-- A number that is not of an array which is read with it.
abbrev pub ReadsOutside : (List ℕ → Option ℤ) → (type id : List ℕ) → Type 0
ReadsOutside strtol type id =
    (starts letter_a id ≡ false) × ((v : ℤ) × (strtol id ≡ some v) × (strays type v ≡ true))

-- What holds of the admin however `set_subject` leaves it decides the command's answer.
pub when_found-carries :
    (P : Admin → Type 0) (Q : Answer → Type 0) (act : Admin → Answer) (strtol : List ℕ → Option ℤ)
    (type id : List ℕ) (admin_req multi : Bool) (old : Admin)
    → P (record old { subject_count = 0 })
    → ((v : Option ℤ) → P (find_subjects type v (record old { subject_count = 0 })).0)
    → (ReadsOutside strtol type id → Q fault)
    → ((a : Admin) → P a → Q (act a))
    → ((a : Admin) → P a → Q (refused a))
    → Q (when_found act (set_subject strtol type id admin_req multi old))
unfolding set_subject
when_found-carries P Q act strtol type id admin_req multi old base found outside ok denied =
    let R : Option (Admin × Bool) → Type 0 = λ o. Q (when_found act o) in
    if_split R (admin_req && old.readonly) _ _ (λ e. denied _ base)
      (λ e.
        if_split R (starts letter_a id) _ _
          (λ all.
            if_split (λ r. R (some r)) multi _ _ (λ m. result _ (found none)) (λ m. denied _ base))
          (λ one. elim (Option-cases (strtol id)) [
            | inl e' ↦ rw e' (denied _ base)
            | inr (v, e') ↦ rw e' (
                if_split R (strays type v) none _ (λ far. outside (one, (v, e', far)))
                  (λ near. result _ (found (some v))))
          ]))
  where
    result : (r : Admin × Bool) → P r.0 → Q (when_found act (some r))
    result r p = if_split Q r.1 (act r.0) (refused r.0) (λ y. ok r.0 p) (λ n. denied r.0 p)
