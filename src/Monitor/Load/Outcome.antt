-- ===== src/Monitor/Load/Outcome.antt =====
-- The queries and `calc_effective_load` of src/monitor.c change loads and nothing else of a server.
use octopuslb.Base.{
  ℕ, ◌≡◌, ◌<◌, ◌≤◌, ◌+◌, ◌||◌, refl, ◌∙◌, ap, inl, inr, Option, none, some, List, [], ◌∷◌, arith,
  sym, ◌==◌, ==_refl, ℤ, float_minus_two, if◌then◌else◌, if_split, Bool-cases, update, for_range,
  for_range-carries, Floats, ltb, pos,
}
use octopuslb.Balancer.{Server, Balancer, is_free}
use octopuslb.Monitor.Check.{
  SnmpAnswer, no_session, no_response, variables, read_load, snmp_load, is_asked, check_server_snmp,
}
use octopuslb.Monitor.Check.Outcome.{Sound}
use octopuslb.Monitor.Shape.{SamePlace}
use octopuslb.Monitor.Load.{
  member_load, clone_load, each_below, calc_effective_load, ask_servers, percent, has_load,
}

-- The same identity, status, slots of the table, connections, limit and use as a spare.
pub record Steady (s s' : Server) : Type 0 where
  pub id : s'.id ≡ s.id
  pub status : s'.status ≡ s.status
  pub usage : s'.hash_table_usage ≡ s.hash_table_usage
  pub connections : s'.c ≡ s.c
  pub limit : s'.maxc ≡ s.maxc
  pub spare : s'.standby ≡ s.standby

pub Steady-refl : (s : Server) → Steady s s
Steady-refl s = record {
  id = refl;
  status = refl;
  usage = refl;
  connections = refl;
  limit = refl;
  spare = refl;
}

Steady-trans : (s t u : Server) → Steady s t → Steady t u → Steady s u
Steady-trans s t u a b = record {
  id = b.id ∙ a.id;
  status = b.status ∙ a.status;
  usage = b.usage ∙ a.usage;
  connections = b.connections ∙ a.connections;
  limit = b.limit ∙ a.limit;
  spare = b.spare ∙ a.spare;
}

set_load : (s : Server) (l : ℕ) → Steady s (record s { load = l })
set_load s l = record {
  id = refl;
  status = refl;
  usage = refl;
  connections = refl;
  limit = refl;
  spare = refl;
}

set_e_load : (s : Server) (l : ℤ) → Steady s (record s { e_load = l })
set_e_load s l = record {
  id = refl;
  status = refl;
  usage = refl;
  connections = refl;
  limit = refl;
  spare = refl;
}

read_load-Steady : (vs : List (Option ℕ)) (s : Server) → Steady s (read_load vs s)
unfolding read_load
read_load-Steady [] s = Steady-refl s
read_load-Steady (none ∷ vs) s =
    let s' : Server = record s { load = float_minus_two } in
    Steady-trans s s' (read_load vs s') (set_load s float_minus_two) (read_load-Steady vs s')
read_load-Steady (some l ∷ vs) s =
    let s' : Server = record s { load = l } in
    Steady-trans s s' (read_load vs s') (set_load s l) (read_load-Steady vs s')

snmp_load-Steady : (a : SnmpAnswer) (s : Server) → Steady s (snmp_load a s)
unfolding snmp_load
snmp_load-Steady no_session s = set_load s float_minus_two
snmp_load-Steady no_response s = set_load s float_minus_two
snmp_load-Steady (variables vs) s = read_load-Steady vs s

check_server_snmp-Steady : (a : SnmpAnswer) (s : Server) → Steady s (check_server_snmp a s)
unfolding check_server_snmp
check_server_snmp-Steady a s =
    if_split (Steady s) (is_asked s.status) (snmp_load a s) s (λ h. snmp_load-Steady a s)
      (λ h. Steady-refl s)

-- A loop that changes each server of an array by a steady step.
loop-Steady :
    (g : ℕ → Server → Server) (n : ℕ) (slots : ℕ → Server)
    → ((i : ℕ) (s : Server) → Steady s (g i s))
    → (j : ℕ) → Steady (slots j) (for_range n 0 (λ i c. update c i (g i (c i))) slots j)
loop-Steady g n slots step =
    for_range-carries (λ k c. (j : ℕ) → Steady (slots j) (c j))
      (λ i (c : ℕ → Server). update c i (g i (c i))) n 0 n slots (omega arith)
      (λ j. Steady-refl (slots j))
      (λ i c lt h j. elim (Bool-cases (i == j)) [
        | inl e ↦
            let e' : i ≡ j = ground arith in
            rw e' (Steady-trans (slots j) (c j) _ (h j) (rw (==_refl j) (step j (c j))))
        | inr e ↦ rw e (h j)
      ])

-- Such a loop changes each server below `n` once, and no other.
loop_lem :
    (g : ℕ → Server → Server) (n : ℕ) (slots : ℕ → Server) (j : ℕ)
    → for_range n 0 (λ i c. update c i (g i (c i))) slots j
      ≡ (if ltb j n then g j (slots j) else slots j)
loop_lem g n slots =
    for_range-carries (λ k c. (j : ℕ) → c j ≡ (if ltb j k then g j (slots j) else slots j))
      (λ i (c : ℕ → Server). update c i (g i (c i))) n 0 n slots (omega arith) (λ j. ground arith)
      (λ i c lt h j. one_more i c h j)
  where
    one_more :
        (i : ℕ) (c : ℕ → Server)
        → ((j : ℕ) → c j ≡ (if ltb j i then g j (slots j) else slots j))
        → (j : ℕ) → update c i (g i (c i)) j ≡ (if ltb j (i + 1) then g j (slots j) else slots j)
    one_more i c h j = elim (Bool-cases (i == j)) [
      | inl e ↦
          let e' : i ≡ j = ground arith in
          let here : c j ≡ slots j = h j ∙ (rw e' (ground arith)) in
          rw (e', ==_refl j) (rw here (ground arith))
      | inr e ↦ rw e (h j ∙ ground arith)
    ]

-- After the monitor computes the effective loads, each member below the count is what it was but for
-- the effective load, which is its load in percent of its maximum if the two permit it, and 0
-- otherwise; each clone below the count is what it was but for the same, where 0 stands for a load
-- below 0 or a maximum that is not above 0; every slot from the counts on is as it was.
pub calc_effective_load_lem :
    (f : Floats) (b : Balancer) (i : ℕ)
    → (i < b.nmembers
        → (calc_effective_load f b).members i ≡ record (b.members i) {
          e_load = if has_load f (b.members i) then percent f (b.members i) else pos 0;
        })
      × (b.nmembers ≤ i → (calc_effective_load f b).members i ≡ b.members i)
      × (i < b.nclones
          → (calc_effective_load f b).clones i ≡ record (b.clones i) {
            e_load =
                if f.lt (b.clones i).load 0 || f.le (b.clones i).maxl 0
                then pos 0
                else percent f (b.clones i);
          })
      × (b.nclones ≤ i → (calc_effective_load f b).clones i ≡ b.clones i)
unfolding calc_effective_load each_below member_load clone_load
calc_effective_load_lem f b i =
    let m = loop_lem (λ k. member_load f) b.nmembers b.members i in
    let c = loop_lem (λ k. clone_load f) b.nclones b.clones i in
    (λ lt. m ∙ ground arith, λ ge. m ∙ ground arith, λ lt. c ∙ ground arith, λ ge. c ∙ ground arith)

-- All servers steady, and all else but the overall load the same.
record Measured (b b' : Balancer) : Type 0 where
  nmembers : b'.nmembers ≡ b.nmembers
  nclones : b'.nclones ≡ b.nclones
  table : b'.hash_table ≡ b.hash_table
  mode : b'.clone_mode ≡ b.clone_mode
  members : (i : ℕ) → Steady (b.members i) (b'.members i)
  clones : (i : ℕ) → Steady (b.clones i) (b'.clones i)

Steady-SamePlace : (s s' : Server) → Steady s s' → SamePlace s s'
Steady-SamePlace s s' e = record { id = e.id; free = ap is_free e.status; usage = e.usage }

Measured-Sound : (b b' : Balancer) → Measured b b' → Sound b b'
Measured-Sound b b' m = (
  record {
    nmembers = m.nmembers;
    nclones = m.nclones;
    table = m.table;
    members = λ i. Steady-SamePlace _ _ (m.members i);
    clones = λ i. Steady-SamePlace _ _ (m.clones i);
  },
  λ right nonoff.
      let was = right (λ h. nonoff (m.mode ∙ h)) in
      (
        λ h.
            let (i, lt, up) = was.0 (sym m.mode ∙ h) in
            (i, rw m.nclones lt, rw (m.clones i).status up),
        λ (i, lt, up). m.mode ∙ was.1 (i, rw m.nclones at lt, rw (m.clones i).status at up),
      ),
)

pub calc_effective_load-Sound : (f : Floats) (b : Balancer) → Sound b (calc_effective_load f b)
unfolding calc_effective_load each_below member_load clone_load
calc_effective_load-Sound f b = Measured-Sound b _ (record {
  nmembers = refl;
  nclones = refl;
  table = refl;
  mode = refl;
  members = loop-Steady (λ k. member_load f) b.nmembers b.members (λ k s. set_e_load s _);
  clones = loop-Steady (λ k. clone_load f) b.nclones b.clones (λ k s. set_e_load s _);
})

pub ask_servers-Sound : (ms cs : ℕ → SnmpAnswer) (b : Balancer) → Sound b (ask_servers ms cs b)
unfolding ask_servers
ask_servers-Sound ms cs b = Measured-Sound b _ (record {
  nmembers = refl;
  nclones = refl;
  table = refl;
  mode = refl;
  members =
      loop-Steady (λ i. check_server_snmp (ms i)) b.nmembers b.members
        (λ i s. check_server_snmp-Steady (ms i) s);
  clones =
      loop-Steady (λ i. check_server_snmp (cs i)) b.nclones b.clones
        (λ i s. check_server_snmp-Steady (cs i) s);
})
