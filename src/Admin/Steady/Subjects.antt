-- ===== src/Admin/Steady/Subjects.antt =====
-- What the commands of src/admin.c on servers keep: every subject is a slot in use.
use octopuslb.Base.{
  ℕ, ◌≡◌, refl, subst, Bool, true, false, ◌&&◌, Option, none, some, List, arith, ◌==◌, ltb,
  if_split, Option-cases, Bool-cases, inl, inr, ℤ, for_range-carries,
}
use octopuslb.Balancer.{Status, Server, is_free}
use octopuslb.Balancer.Cloning.{set_cloned_state}
use octopuslb.Monitor.Shape.{SameServers-refl}
use octopuslb.Admin.{
  Target, member_at, clone_at, Admin, Answer, refused, fault, done, is_manageable, push,
  take_member, take_clone, names_slot, slot_index, set_members, set_clones, find_subjects,
  set_subject, change_first, change_subject, change_next, change_each, when_found, after_each,
  name_reset, reset_counters, cmd_one, cmd_many, cmd_reset, is_type, starts, letter_m, letter_c,
}
use octopuslb.Admin.Filled.{when_found-carries}
use octopuslb.Admin.Steady.{IsUsed, Stable, Gentle, change-Stable, set_cloned_state-Stable}

manageable-IsUsed : (t : Status) → is_manageable t ≡ true → is_free t ≡ false
manageable-IsUsed t h = ground arith

push-Stable : (t : Target) (a : Admin) → IsUsed a.balancer t → Stable a → Stable (push t a)
push-Stable t a used (w, aims) = (
  w,
  λ i u h. elim (Bool-cases (a.subject_count == i)) [
    | inl at ↦
        let same : some t ≡ some u = ground (arith, h, at) in
        let same' : t ≡ u = cc in subst (IsUsed a.balancer) same' used
    | inr away ↦ aims i u (ground (arith, h, away))
  ],
)

take_member-Stable : (i : ℕ) (a : Admin) → Stable a → Stable (take_member i a)
take_member-Stable i a h =
    if_split Stable (is_manageable (a.balancer.members i).status) (push (member_at i) a) a
      (λ ok. push-Stable (member_at i) a (manageable-IsUsed (a.balancer.members i).status ok) h)
      (λ no. h)

take_clone-Stable : (i : ℕ) (a : Admin) → Stable a → Stable (take_clone i a)
take_clone-Stable i a h =
    if_split Stable (is_manageable (a.balancer.clones i).status) (push (clone_at i) a) a
      (λ ok. push-Stable (clone_at i) a (manageable-IsUsed (a.balancer.clones i).status ok) h)
      (λ no. h)

named-IsUsed :
    (slots : ℕ → Server) (n : ℕ) (v : ℤ)
    → names_slot slots n v ≡ true
    → is_free (slots (slot_index v)).status ≡ false
named-IsUsed slots n v h = ground arith

set_members-Stable :
    (type : List ℕ) (v : Option ℤ) (a : Admin) → Stable a → Stable (set_members type v a).0
unfolding set_members
set_members-Stable type none a h =
    for_range-carries (λ i t. Stable t) take_member a.balancer.nmembers 0 a.balancer.nmembers a
      (omega arith) h (λ i t lt k. take_member-Stable i t k)
set_members-Stable type (some v) a h =
    if_split (λ (r : Admin × Bool). Stable r.0) (starts letter_m type) _ _
      (λ m.
        if_split (λ (r : Admin × Bool). Stable r.0)
          (names_slot a.balancer.members a.balancer.nmembers v) _ _
          (λ ok.
            push-Stable (member_at (slot_index v)) a
              (named-IsUsed a.balancer.members a.balancer.nmembers v ok) h)
          (λ no. h))
      (λ m. h)

set_clones-Stable :
    (type : List ℕ) (v : Option ℤ) (a : Admin) → Stable a → Stable (set_clones type v a).0
unfolding set_clones
set_clones-Stable type none a h =
    for_range-carries (λ i t. Stable t) take_clone a.balancer.nclones 0 a.balancer.nclones a
      (omega arith) h (λ i t lt k. take_clone-Stable i t k)
set_clones-Stable type (some v) a h =
    if_split (λ (r : Admin × Bool). Stable r.0) (starts letter_c type) _ _
      (λ m.
        if_split (λ (r : Admin × Bool). Stable r.0)
          (names_slot a.balancer.clones a.balancer.nclones v) _ _
          (λ ok.
            push-Stable (clone_at (slot_index v)) a
              (named-IsUsed a.balancer.clones a.balancer.nclones v ok) h)
          (λ no. h))
      (λ m. h)

find_subjects-Stable :
    (type : List ℕ) (v : Option ℤ) (a : Admin) → Stable a → Stable (find_subjects type v a).0
unfolding find_subjects
find_subjects-Stable type v a h =
    let m = set_members type v a in
    let hm = set_members-Stable type v a h in
    if_split (λ (r : Admin × Bool). Stable r.0) m.1
      ((set_clones type v m.0).0, (set_clones type v m.0).1 && is_type type) (m.0, false)
      (λ ok. set_clones-Stable type v m.0 hm) (λ no. hm)

-- A loop that reads through NULL leaves nothing.
abbrev IfLeft : Option Admin → Type 0
IfLeft none = Unit
IfLeft (some a) = Stable a

change_next-Stable :
    (f : Server → Server) (i : ℕ) (o : Option Admin)
    → Gentle f
    → IfLeft o
    → IfLeft (change_next f i o)
change_next-Stable f i none gentle h = tt
change_next-Stable f i (some a) gentle h = elim (Option-cases (a.subject i)) [
  | inl e ↦ rw (change_subject, e) tt
  | inr (u, e) ↦ rw (change_subject, e) (change-Stable f u a gentle (h.1 i u e) h)
]

change_each-Stable :
    (f : Server → Server) (a : Admin) → Gentle f → Stable a → IfLeft (change_each f a)
unfolding change_each
change_each-Stable f a gentle h =
    for_range-carries (λ i o. IfLeft o) (change_next f) a.subject_count 0 a.subject_count (some a)
      (omega arith) h (λ i o lt k. change_next-Stable f i o gentle k)

-- What a command on servers leaves is stable, unless it reads through NULL.
abbrev pub Leaves : Answer → Type 0
Leaves (refused a) = Stable a
Leaves fault = Unit
Leaves (done a) = Stable a

change_first-Leaves :
    (f : Server → Server) (a : Admin) → Gentle f → Stable a → Leaves (change_first f a)
change_first-Leaves f a gentle h = elim (Option-cases (a.subject 0)) [
  | inl e ↦ rw (change_first, Leaves, e) tt
  | inr (t, e) ↦ rw (change_first, Leaves, e) (change-Stable f t a gentle (h.1 0 t e) h)
]

-- The message of `reset` reads `subject[0]`.
name_first-Leaves :
    (a : Admin)
    → Stable a
    → Leaves (elim (a.subject 0) as (λ z. Answer) [ none ↦ fault | some t ↦ done a ])
name_first-Leaves a h = elim (Option-cases (a.subject 0)) [
  | inl e ↦ rw (Leaves, e) tt
  | inr (t, e) ↦ rw (Leaves, e) h
]

after_each-Leaves :
    (act : Admin → Answer) (o : Option Admin)
    → ((a : Admin) → Stable a → Leaves (act a))
    → IfLeft o
    → Leaves (after_each act o)
after_each-Leaves act none k h = tt
after_each-Leaves act (some a) k h = k a h

module _ (read : List ℕ → Option ℤ) (type id : List ℕ) (a : Admin) (h : Stable a) where
  command-Leaves :
      (multi : Bool) (act : Admin → Answer)
      → ((c : Admin) → Stable c → Leaves (act c))
      → Leaves (when_found act (set_subject read type id true multi a))
  command-Leaves multi act k =
      when_found-carries Stable Leaves act read type id true multi a h
        (λ v. find_subjects-Stable type v (record a { subject_count = 0 }) h) (λ out. tt) k
        (λ c s. s)

  pub cmd_one-Leaves : (f : Server → Server) → Gentle f → Leaves (cmd_one read type id a f)
  unfolding cmd_one
  cmd_one-Leaves f gentle =
      command-Leaves false (change_first f) (λ c s. change_first-Leaves f c gentle s)

  pub cmd_many-Leaves :
      (f : Server → Server) → Gentle f → Leaves (cmd_many read type id a f set_cloned_state)
  unfolding cmd_many
  cmd_many-Leaves f gentle = command-Leaves true _ (λ c s.
      after_each-Leaves _ (change_each f c)
        (λ d t. set_cloned_state-Stable d d.balancer (SameServers-refl d.balancer) t.0.in_range t)
        (change_each-Stable f c gentle s))

  pub cmd_reset-Leaves : Leaves (cmd_reset read type id a)
  unfolding cmd_reset
  cmd_reset-Leaves = command-Leaves true _ (λ c s.
      after_each-Leaves name_reset (change_each reset_counters c)
        (λ d t.
          if_split Leaves (ltb 1 d.subject_count) (done d) _ (λ two. t)
            (λ one. name_first-Leaves d t))
        (change_each-Stable reset_counters c
          (λ s u. record { id = refl; free = refl; usage = refl }) s))
