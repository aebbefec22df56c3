-- ===== src/Select/Least.antt =====
-- `set_lc_server` and `set_ll_server` of src/algorithms.c: the candidate with the fewest
-- connections, or with the least load.
use octopuslb.Base.{
  ℕ, ◌≡◌, inl, inr, Bool, true, false, List, [], ◌∷◌, arith, ◌==◌, if◌then◌else◌, Bool-cases,
  contains, ltb_ℤ, ◌≤ℤ◌, Floats, LtTrans,
}
use octopuslb.Balancer.{Server, Balancer}
use octopuslb.Select.{Selection}
use octopuslb.Select.Rotate.{set_rr_server, advance, Named, advance_listed}

-- The loop over the candidates: each one that beats the current server becomes the current one.
unfoldable pub least : (Server → Server → Bool) → (ℕ → Server) → List ℕ → ℕ → ℕ
least better slots [] cur = cur
least better slots (i ∷ is) cur =
    least better slots is (if better (slots i) (slots cur) then (slots i).id else cur)

abbrev pub fewer_connections : Server → Server → Bool
fewer_connections s t = ltb_ℤ s.c t.c

-- `load + c * session_weight`, in floats.
abbrev pub score : Floats → Balancer → Server → ℕ
score f b s = f.add s.load (f.mul (f.of_int s.c) b.session_weight)

abbrev pub less_load : Floats → Balancer → Server → Server → Bool
less_load f b s t = f.lt (score f b s) (score f b t)

unfoldable pub set_lc_server : Balancer → Selection → Selection
set_lc_server b s =
    let r = set_rr_server b s in
    record r {
      next_member = least fewer_connections b.members r.available_members r.next_member;
      next_clone =
          if r.use_clone
          then least fewer_connections b.clones r.available_clones r.next_clone
          else r.next_clone;
    }

unfoldable pub set_ll_server : Floats → Balancer → Selection → Selection
set_ll_server f b s = record s {
  next_member = least (less_load f b) b.members s.available_members s.next_member;
  next_clone =
      if s.use_clone
      then least (less_load f b) b.clones s.available_clones s.next_clone
      else s.next_clone;
}

-- What holds of the current server and of every candidate holds of the one that the loop ends with.
pub least-keeps {κ} :
    (P : ℕ → Type κ) (better : Server → Server → Bool) (slots : ℕ → Server) (xs : List ℕ) (cur : ℕ)
    → Named slots xs
    → ((k : ℕ) → contains xs k ≡ true → P k)
    → P cur
    → P (least better slots xs cur)
unfolding least contains
least-keeps P better slots [] cur named all h = h
least-keeps P better slots (i ∷ is) cur named all h =
    least-keeps P better slots is _ (λ k m. named k (ground arith)) (λ k m. all k (ground arith))
      (elim (Bool-cases (better (slots i) (slots cur))) [
        | inl e ↦ rw e (rw (named i (ground arith)) (all i (ground arith)))
        | inr e ↦ rw e h
      ])

-- A comparison that is irreflexive and transitive, as far as it is true.
pub record IsStrict (better : Server → Server → Bool) : Type 0 where
  pub irrefl : (s : Server) → better s s ≡ false
  pub trans : (s t u : Server) → better s t ≡ true → better t u ≡ true → better s u ≡ true

module _ (better : Server → Server → Bool) (strict : IsStrict better) (slots : ℕ → Server) where
  -- What does not beat the current server does not beat the server that the loop ends with.
  least-unbeaten_start :
      (xs : List ℕ) (cur : ℕ) (u : Server)
      → Named slots xs
      → better u (slots cur) ≡ false
      → better u (slots (least better slots xs cur)) ≡ false
  unfolding least contains
  least-unbeaten_start [] cur u named h = h
  least-unbeaten_start (i ∷ is) cur u named h =
      least-unbeaten_start is _ u (λ k m. named k (ground arith))
        (ground (arith, strict.trans u (slots i) (slots cur), named i))

  -- No candidate beats the server that the loop ends with.
  pub least-unbeaten :
      (xs : List ℕ) (cur k : ℕ)
      → Named slots xs
      → contains xs k ≡ true
      → better (slots k) (slots (least better slots xs cur)) ≡ false
  unfolding least contains
  least-unbeaten [] cur k named m = absurd (cc)
  least-unbeaten (i ∷ is) cur k named m = elim (Bool-cases (i == k)) [
    | inl e ↦
        least-unbeaten_start is _ (slots k) (λ j l. named j (ground arith))
          (ground (arith, strict.irrefl (slots i), named i))
    | inr e ↦ least-unbeaten is _ k (λ j l. named j (ground arith)) (ground arith)
  ]

fewer_connections-IsStrict : IsStrict fewer_connections
fewer_connections-IsStrict = record {
  irrefl = λ s. ground arith;
  trans = λ s t u h k. ground arith;
}

-- The order of floats that the least-load comparison relies on.
pub record IsOrdered (f : Floats) : Type 0 where
  pub irrefl : (a : ℕ) → f.lt a a ≡ false
  pub trans : LtTrans f

pub less_load-IsStrict : (f : Floats) (b : Balancer) → IsOrdered f → IsStrict (less_load f b)
less_load-IsStrict f b o = record {
  irrefl = λ s. o.irrefl (score f b s);
  trans = λ s t u. o.trans (score f b s) (score f b t) (score f b u);
}

-- Least connections: from a listed current member, the choice is a listed member and no listed
-- member has fewer connections.
pub set_lc_server_lem :
    (b : Balancer) (s : Selection)
    → Named b.members s.available_members
    → contains s.available_members s.next_member ≡ true
    → (contains s.available_members (set_lc_server b s).next_member ≡ true)
      × ((k : ℕ)
          → contains s.available_members k ≡ true
          → (b.members (set_lc_server b s).next_member).c ≤ℤ (b.members k).c)
unfolding set_lc_server set_rr_server
set_lc_server_lem b s named h = (
  least-keeps (λ k. contains s.available_members k ≡ true) fewer_connections b.members
      s.available_members _ named (λ k m. m)
      (advance_listed b.members s.available_members s.next_member named h),
  λ k m. ground (
    arith,
    least-unbeaten fewer_connections fewer_connections-IsStrict b.members s.available_members
        (advance b.members s.available_members s.next_member) k named m,
  ),
)

-- Least load: from a listed current member, the choice is a listed member and no listed member has
-- a smaller weighted load, given that the comparison of floats is irreflexive and transitive.
pub set_ll_server_lem :
    (f : Floats) (b : Balancer) (s : Selection)
    → IsOrdered f
    → Named b.members s.available_members
    → contains s.available_members s.next_member ≡ true
    → (contains s.available_members (set_ll_server f b s).next_member ≡ true)
      × ((k : ℕ)
          → contains s.available_members k ≡ true
          → f.lt (score f b (b.members k)) (score f b (b.members (set_ll_server f b s).next_member))
            ≡ false)
unfolding set_ll_server
set_ll_server_lem f b s o named h = (
  least-keeps (λ k. contains s.available_members k ≡ true) (less_load f b) b.members
      s.available_members s.next_member named (λ k m. m) h,
  λ k m.
      least-unbeaten (less_load f b) (less_load-IsStrict f b o) b.members s.available_members
        s.next_member k named m,
)
