-- ===== src/Admin/All/Found.antt =====
-- The subjects of a command of src/admin.c on all servers: every server that may be managed.
use octopuslb.Base.{
  ℕ, ◌+◌, ◌<◌, ◌≡◌, inl, inr, refl, sym, subst, ap, true, none, some, List, arith, ◌==◌, if_split,
  Bool-cases, for_range-carries,
}
use octopuslb.Balancer.{Balancer}
use octopuslb.Admin.{
  Target, member_at, clone_at, Admin, is_manageable, push, take_member, take_clone, set_members,
  set_clones,
}

-- One of the subjects.
unfoldable pub Aimed : Admin → Target → Type 0
Aimed a t = (i : ℕ) × (i < a.subject_count) × (a.subject i ≡ some t)

push-Aimed : (u : Target) (a : Admin) → Aimed (push u a) u
unfolding Aimed
push-Aimed u a = (a.subject_count, omega arith, ground arith)

push-keeps : (u t : Target) (a : Admin) → Aimed a t → Aimed (push u a) t
unfolding Aimed
push-keeps u t a (i, lt, e) = (i, omega arith, ground (arith, lt, e))

-- While the members, and then the clones, are looked through.
unfoldable pub MembersFound : Balancer → ℕ → Admin → Type 0
MembersFound b k a =
    (a.balancer ≡ b)
    × ((j : ℕ) → j < k → is_manageable (b.members j).status ≡ true → Aimed a (member_at j))

unfoldable pub ClonesFound : Balancer → ℕ → Admin → Type 0
ClonesFound b k a =
    MembersFound b b.nmembers a
    × ((j : ℕ) → j < k → is_manageable (b.clones j).status ≡ true → Aimed a (clone_at j))

take_member-Found :
    (b : Balancer) (k : ℕ) (a : Admin)
    → MembersFound b k a
    → MembersFound b (k + 1) (take_member k a)
unfolding MembersFound
take_member-Found b k a (same, found) =
    if_split (MembersFound b (k + 1)) (is_manageable (a.balancer.members k).status)
      (push (member_at k) a) a
      (λ ok. (
        same,
        λ j lt m. elim (Bool-cases (j == k)) [
          | inl e ↦
              let e' : k ≡ j = ground arith in
              subst (λ i. Aimed (push (member_at k) a) (member_at i)) e'
                (push-Aimed (member_at k) a)
          | inr e ↦ push-keeps (member_at k) (member_at j) a (found j (ground arith) m)
        ],
      ))
      (λ out. (
        same,
        λ j lt m. elim (Bool-cases (j == k)) [
          | inl e ↦
              let e' : k ≡ j = ground arith in
              let held : is_manageable (a.balancer.members k).status ≡ true =
                subst (λ (c : Balancer). is_manageable (c.members k).status ≡ true) (sym same)
                  (subst (λ i. is_manageable (b.members i).status ≡ true) (sym e') m) in
              absurd (cc)
          | inr e ↦ found j (ground arith) m
        ],
      ))

take_clone-Found :
    (b : Balancer) (k : ℕ) (a : Admin) → ClonesFound b k a → ClonesFound b (k + 1) (take_clone k a)
unfolding ClonesFound MembersFound
take_clone-Found b k a ((same, members), found) =
    if_split (ClonesFound b (k + 1)) (is_manageable (a.balancer.clones k).status)
      (push (clone_at k) a) a
      (λ ok. (
        (same, λ j lt m. push-keeps (clone_at k) (member_at j) a (members j lt m)),
        λ j lt m. elim (Bool-cases (j == k)) [
          | inl e ↦
              let e' : k ≡ j = ground arith in
              subst (λ i. Aimed (push (clone_at k) a) (clone_at i)) e' (push-Aimed (clone_at k) a)
          | inr e ↦ push-keeps (clone_at k) (clone_at j) a (found j (ground arith) m)
        ],
      ))
      (λ out. (
        (same, members),
        λ j lt m. elim (Bool-cases (j == k)) [
          | inl e ↦
              let e' : k ≡ j = ground arith in
              let held : is_manageable (a.balancer.clones k).status ≡ true =
                subst (λ (c : Balancer). is_manageable (c.clones k).status ≡ true) (sym same)
                  (subst (λ i. is_manageable (b.clones i).status ≡ true) (sym e') m) in
              absurd (cc)
          | inr e ↦ found j (ground arith) m
        ],
      ))

clones_found :
    (type : List ℕ) (b : Balancer) (a : Admin)
    → MembersFound b b.nmembers a
    → ClonesFound b b.nclones (set_clones type none a).0
unfolding ClonesFound MembersFound set_clones
clones_found type b a h =
    subst (λ k. ClonesFound b k (set_clones type none a).0) (ap (λ (c : Balancer). c.nclones) h.0)
      (for_range-carries (ClonesFound b) take_clone a.balancer.nclones 0 a.balancer.nclones a
        (omega arith) (h, λ j lt. absurd (omega (arith, lt)))
        (λ i t lt k. take_clone-Found b i t k))

pub all_found :
    (type : List ℕ) (a : Admin)
    → ClonesFound a.balancer a.balancer.nclones (set_clones type none (set_members type none a).0).0
unfolding MembersFound set_members
all_found type a = clones_found type a.balancer (set_members type none a).0 (
    for_range-carries (MembersFound a.balancer) take_member a.balancer.nmembers 0
      a.balancer.nmembers a (omega arith) (refl, λ j lt. absurd (omega (arith, lt)))
      (λ i t lt k. take_member-Found a.balancer i t k))
