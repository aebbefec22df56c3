-- ===== src/Admin/All.antt =====
-- The commands `enable` and `disable` of src/admin.c on all servers.
pub mod Found
pub mod Changed
use octopuslb.Base.{
  ℕ, zero, suc, ◌+◌, ◌<◌, ◌≤◌, ◌≡◌, ◌≢◌, ◌⊎◌, inl, inr, refl, sym, subst, ap, ◌∙◌, Bool, true,
  false, Option, none, some, List, [], ◌∷◌, arith, ltb, ◌==◌, if_split, Bool-cases, Option-cases,
  update, ℤ, for_range-carries, if◌then◌else◌, ◌&&◌,
}
use octopuslb.Balancer.{Status, Server, Balancer, is_free, IsWellFormed}
use octopuslb.Balancer.Cloning.{set_cloned_state, set_cloned_state_servers}
use octopuslb.Admin.{
  Target, member_at, clone_at, Admin, Answer, refused, fault, done, is_manageable, push,
  take_member, take_clone, set_members, set_clones, find_subjects, set_subject, change,
  change_subject, change_each, enable, disable, cmd_many, cmd_enable, cmd_disable, starts, letter_a,
  is_type,
}
use octopuslb.Admin.Filled.{Filled, set_members-Filled, set_clones-Filled}
use octopuslb.Admin.Single.{if_false}
use octopuslb.Admin.Steady.{server_at}
use octopuslb.Admin.All.Found.{Aimed, MembersFound, ClonesFound, all_found}
use octopuslb.Admin.All.Changed.{Hit, change_each_lem}

-- A change that leaves free and deleted slots alone.
abbrev Skips : (Server → Server) → Type 0
Skips f = (s : Server) → is_manageable s.status ≡ false → f s ≡ s

module _ (f : Server → Server) (once : (s : Server) → f (f s) ≡ f s) (skips : Skips f)
    (type : List ℕ) (a : Admin) (empty : a.subject_count ≡ 0) (w : IsWellFormed a.balancer) where
  found : Admin
  found = (set_clones type none (set_members type none a).0).0

  found_balancer : found.balancer ≡ a.balancer
  unfolding found ClonesFound MembersFound
  found_balancer = (all_found type a).0.0

  -- A server that may be managed is below the count.
  found-Hit :
      (t : Target)
      → is_manageable (server_at t a.balancer).status ≡ true
      → Hit found found.subject_count t
  unfolding found ClonesFound MembersFound Aimed Hit
  found-Hit (member_at i) m =
      (all_found type a).0.1 i
        (elim (Bool-cases (ltb i a.balancer.nmembers)) [
          | inl e ↦ ground arith
          | inr e ↦ absurd (ground (arith, m, w.members_ok.beyond i (ground arith)))
        ])
        m
  found-Hit (clone_at i) m =
      (all_found type a).1 i
        (elim (Bool-cases (ltb i a.balancer.nclones)) [
          | inl e ↦ ground arith
          | inr e ↦ absurd (ground (arith, m, w.clones_ok.beyond i (ground arith)))
        ])
        m

  found-Filled : Filled found
  unfolding found
  found-Filled =
      set_clones-Filled type none _
        (set_members-Filled type none a (λ i lt. absurd (omega (arith, empty, lt))))

  every_server :
      (c : Admin) × (change_each f found ≡ some c)
      × ((t : Target) → server_at t c.balancer ≡ f (server_at t a.balancer))
  every_server =
      let (c, done_all, either, hit) = change_each_lem f once found found-Filled in
      (
        c,
        done_all,
        λ t.
            let same = ap (server_at t) found_balancer in
            elim (Bool-cases (is_manageable (server_at t a.balancer).status)) [
              | inl m ↦ hit t (found-Hit t m) ∙ ap f same
              | inr m ↦ elim (either t) [
                | inl kept ↦ kept ∙ same ∙ sym (skips (server_at t a.balancer) m)
                | inr h ↦ hit t h ∙ ap f same
              ]
            ],
      )

  server_at-set_cloned_state :
      (t : Target) (b : Balancer) → server_at t (set_cloned_state b) ≡ server_at t b
  server_at-set_cloned_state (member_at i) b = ap (λ g. g i) (set_cloned_state_servers b).0
  server_at-set_cloned_state (clone_at i) b = ap (λ g. g i) (set_cloned_state_servers b).1

-- The command is done, and every server is as the function makes it.
pub Everywhere : (Server → Server) → Balancer → Answer → Type 0
Everywhere f b (done a) = (t : Target) → server_at t a.balancer ≡ f (server_at t b)
Everywhere f b (refused a) = ⊥
Everywhere f b fault = ⊥

module _ (read : List ℕ → Option ℤ) (type id : List ℕ) (a : Admin) (w : IsWellFormed a.balancer)
    (free : a.readonly ≡ false) (all : starts letter_a id ≡ true)
    (known : is_type type ≡ true) where
  fresh : Admin
  fresh = record a { subject_count = 0 }

  subjects_found :
      set_subject read type id true true a
      ≡ some ((set_clones type none (set_members type none fresh).0).0, true)
  unfolding set_subject find_subjects set_members set_clones fresh
  subjects_found = if_false a.readonly _ _ free ∙ rw (all, known) refl

  cmd_many-Everywhere :
      (f : Server → Server)
      → ((s : Server) → f (f s) ≡ f s)
      → Skips f
      → Everywhere f a.balancer (cmd_many read type id a f set_cloned_state)
  unfolding cmd_many Everywhere fresh found
  cmd_many-Everywhere f once skips =
      let (c, e, each) = every_server f once skips type fresh refl w in
      rw (subjects_found, e)
        (λ t. server_at-set_cloned_state f once skips type fresh refl w t c.balancer ∙ each t)

-- On a well-formed balancer, a writable admin's `enable` with a known type and the number `all` enables
-- every disabled server, members and clones, whatever the type is, and changes no other server;
-- `disable` so disables every server that is enabled or failed, and changes no other.
pub cmd_enable-Everywhere :
    (read : List ℕ → Option ℤ) (type id : List ℕ) (a : Admin)
    → IsWellFormed a.balancer
    → a.readonly ≡ false
    → starts letter_a id ≡ true
    → is_type type ≡ true
    → Everywhere enable a.balancer (cmd_enable read type id a)
      × Everywhere disable a.balancer (cmd_disable read type id a)
cmd_enable-Everywhere read type id a w free all known = (
  cmd_many-Everywhere read type id a w free all known enable (λ s. ground arith)
      (λ s m. ground arith),
  cmd_many-Everywhere read type id a w free all known disable (λ s. ground arith)
      (λ s m. ground arith),
)
