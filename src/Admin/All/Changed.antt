-- ===== src/Admin/All/Changed.antt =====
-- A loop of src/admin.c over the subjects changes them all, and no other server.
use octopuslb.Base.{
  ℕ, ◌+◌, ◌<◌, ◌≡◌, ◌⊎◌, inl, inr, refl, sym, subst, ap, ◌∙◌, true, some, arith, ◌==◌, Bool-cases,
}
use octopuslb.Balancer.{Server, Balancer}
use octopuslb.Admin.{Target, member_at, clone_at, Admin, change, change_each}
use octopuslb.Admin.Filled.{Filled, change_each-carries}
use octopuslb.Admin.Steady.{server_at}

-- Two targets are the same, or a change of the one leaves the other.
change_cases :
    (f : Server → Server) (t u : Target) (c : Balancer)
    → (t ≡ u) ⊎ (server_at t (change f u c) ≡ server_at t c)
change_cases f (member_at i) (clone_at j) c = inr refl
change_cases f (clone_at i) (member_at j) c = inr refl
change_cases f (member_at i) (member_at j) c = elim (Bool-cases (j == i)) [
  | inl e ↦ inl (ground arith)
  | inr e ↦ inr (rw e refl)
]
change_cases f (clone_at i) (clone_at j) c = elim (Bool-cases (j == i)) [
  | inl e ↦ inl (ground arith)
  | inr e ↦ inr (rw e refl)
]

change_hit :
    (f : Server → Server) (u : Target) (c : Balancer)
    → server_at u (change f u c) ≡ f (server_at u c)
change_hit f (member_at i) c = let e : (i == i) ≡ true = ground arith in rw e refl
change_hit f (clone_at i) c = let e : (i == i) ≡ true = ground arith in rw e refl

-- One of the first `k` subjects.
unfoldable pub Hit : Admin → ℕ → Target → Type 0
Hit a k t = (i : ℕ) × (i < k) × (a.subject i ≡ some t)

module _ (f : Server → Server) (once : (s : Server) → f (f s) ≡ f s) (a : Admin) where
  Changed : ℕ → Admin → Type 0
  Changed k st =
      (st.subject ≡ a.subject)
      × ((t : Target) → (server_at t st.balancer ≡ server_at t a.balancer) ⊎ Hit a k t)
      × ((t : Target) → Hit a k t → server_at t st.balancer ≡ f (server_at t a.balancer))

  later : (k : ℕ) (t : Target) → Hit a k t → Hit a (k + 1) t
  unfolding Hit
  later k t (i, lt, e) = (i, omega (arith, lt), e)

  last-Hit : (k : ℕ) (t : Target) → Hit a (k + 1) t → Hit a k t ⊎ (a.subject k ≡ some t)
  unfolding Hit
  last-Hit k t (i, lt, e) = elim (Bool-cases (i == k)) [
    | inl e' ↦ let same : i ≡ k = ground arith in inr (subst (λ j. a.subject j ≡ some t) same e)
    | inr e' ↦ inl (i, ground (arith, lt), e)
  ]

  changed :
      (k : ℕ) (st : Admin) (u : Target)
      → a.subject k ≡ some u
      → Changed k st
      → Changed (k + 1) (record st { balancer = change f u st.balancer })
  unfolding Changed Hit
  changed k st u e (subjects, either, hit) =
      let now : server_at u (change f u st.balancer) ≡ f (server_at u a.balancer) =
        change_hit f u st.balancer
        ∙ elim (either u) [ inl same ↦ ap f same | inr h ↦ ap f (hit u h) ∙ once _ ] in
      (
        subjects,
        λ t. elim (change_cases f t u st.balancer) [
          | inl same ↦ inr (k, omega arith, e ∙ ap some (sym same))
          | inr kept ↦ elim (either t) [ inl same ↦ inl (kept ∙ same) | inr h ↦ inr (later k t h) ]
        ],
        λ t h. elim (change_cases f t u st.balancer) [
          | inr kept ↦ elim (last-Hit k t h) [
            | inl h' ↦ kept ∙ hit t h'
            | inr e' ↦
                let same : t ≡ u = cc in
                subst (λ v. server_at v (change f u st.balancer) ≡ f (server_at v a.balancer))
                  (sym same) now
          ]
          | inl same ↦
              subst (λ v. server_at v (change f u st.balancer) ≡ f (server_at v a.balancer))
                (sym same) now
        ],
      )

  -- The loop ends, all of them are changed, and no other server.
  pub change_each_lem :
      Filled a
      → (c : Admin) × (change_each f a ≡ some c)
        × ((t : Target)
            → (server_at t c.balancer ≡ server_at t a.balancer) ⊎ Hit a a.subject_count t)
        × ((t : Target)
            → Hit a a.subject_count t
            → server_at t c.balancer ≡ f (server_at t a.balancer))
  unfolding Changed Hit
  change_each_lem filled =
      let (c, e, h) =
        change_each-carries Changed f a filled
          (refl, λ t. inl refl, λ t h. absurd (omega (arith, h.1)))
          (λ k st u e h. changed k st u e h) in
      (c, e, h.1, h.2)
