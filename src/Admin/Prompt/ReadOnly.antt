-- ===== src/Admin/Prompt/ReadOnly.antt =====
-- A read-only admin leaves the balancer alone.
use octopuslb.Base.{
  ℕ, ◌≡◌, refl, arith, sym, subst, Bool, true, List, [], ◌∷◌, if_split, if◌then◌else◌, ℤ, Option,
}
use octopuslb.Balancer.{Server, Balancer, Settings}
use octopuslb.Text.{strtol}
use octopuslb.Config.{Library, read_int}
use octopuslb.Admin.{
  Admin, Answer, refused, set_subject, cmd_one, cmd_many, cmd_standby, cmd_delete, cmd_maxl,
  cmd_maxc, cmd_enable, cmd_disable, cmd_reset,
}
use octopuslb.Admin.Console.{
  Errno, clear, erange, Console, Round, writable, decline, answer, with_errno,
}
use octopuslb.Admin.Settings.{
  cmd_number, cmd_hri, cmd_hrs, cmd_hrt, cmd_monitor, cmd_debug, cmd_algorithm, cmd_clone_mode,
  cmd_overload_mode, cmd_snmp, cmd_create, errno_of,
}
use octopuslb.Admin.Prompt.{
  Command, read_id, subject_errno, on_servers, unchanged, with_value, with_server, run_maxl,
  run_maxc, commands, run_lines,
}
use octopuslb.Admin.Prompt.Ended.{
  Ended, Obeys, AllObey, all_obey, ◌&◌, Fit, NoBlank, with_value-Obeys, with_server-Obeys,
  with_server_value-Obeys, with_address-Obeys, run_lines-Ended,
}

-- A read-only admin of this balancer.
abbrev pub Watches : Balancer → Admin → Type 0
Watches b a = (a.readonly ≡ true) × (a.balancer ≡ b)

abbrev Same : Balancer → Admin → Type 0
Same b a = a.balancer ≡ b

-- The balancer stays as it is, and nothing is killed.
abbrev pub Untouched : Balancer → Round → Type 0
Untouched b = Ended (Watches b) (Same b) (λ a. ⊥) ⊥

-- What a command on servers does for a read-only admin.
abbrev Denied : ((List ℕ → Option ℤ) → (type id : List ℕ) → Admin → Answer) → Type 0
Denied f =
    (type id : List ℕ) (a : Admin)
    → a.readonly ≡ true
    → f read_id type id a ≡ refused (record a { subject_count = 0 })

one-Denied : (f : Server → Server) → Denied (λ read type id a. cmd_one read type id a f)
unfolding cmd_one set_subject
one-Denied f type id a h = rw h refl

many-Denied :
    (f : Server → Server) (after : Balancer → Balancer)
    → Denied (λ read type id a. cmd_many read type id a f after)
unfolding cmd_many set_subject
many-Denied f after type id a h = rw h refl

reset-Denied : Denied cmd_reset
unfolding cmd_reset set_subject
reset-Denied type id a h = rw h refl

module _ (b : Balancer) where
  writable-Untouched : (c : Console) (r : Round) → Watches b c.admin → Untouched b (writable c r)
  writable-Untouched c r (h, e) =
      if_split (Untouched b) c.readonly (decline c) r (λ yes. (h, e))
        (λ no. absurd (ground (arith, h, no)))

  on_servers-Untouched :
      (f : (List ℕ → Option ℤ) → (type id : List ℕ) → Admin → Answer) (last : Errno → Errno)
      → Denied f
      → (type id : List ℕ) (c : Console) → Watches b c.admin
      → Untouched b (on_servers f last type id c)
  on_servers-Untouched f last denied type id c (h, e) =
      subst (λ r. Untouched b (answer (subject_errno id c) (last (subject_errno id c)) r c))
        (sym (denied type id c.admin h)) (h, e)

  -- The commands, one by one.
  abbrev Quiet : (Console → Round) → Type 0
  Quiet f = Fit (Watches b) (Same b) (λ a. ⊥) ⊥ f

  number-Quiet :
      (test : ℤ → Bool) (assign : ℤ → Settings → Settings) (value : List ℕ)
      → Quiet (cmd_number test assign value)
  unfolding cmd_number
  number-Quiet test assign value c w = writable-Untouched c _ w

  debug-Quiet : (value : List ℕ) → Quiet (cmd_debug value)
  unfolding cmd_debug
  debug-Quiet value c w = writable-Untouched c _ w

  algorithm-Quiet : (value : List ℕ) → Quiet (cmd_algorithm value)
  unfolding cmd_algorithm
  algorithm-Quiet value c w = writable-Untouched c _ w

  clone_mode-Quiet : (value : List ℕ) → Quiet (cmd_clone_mode value)
  unfolding cmd_clone_mode
  clone_mode-Quiet value c w = writable-Untouched c _ w

  overload_mode-Quiet : (value : List ℕ) → Quiet (cmd_overload_mode value)
  unfolding cmd_overload_mode
  overload_mode-Quiet value c w = writable-Untouched c _ w

  snmp-Quiet : (args : List (List ℕ)) → Quiet (cmd_snmp args)
  unfolding cmd_snmp
  snmp-Quiet [] c w = writable-Untouched c _ w
  snmp-Quiet (value ∷ _) c w = writable-Untouched c _ w

  create-Quiet :
      (lib : Library) (type name ip port : List ℕ) → Quiet (cmd_create lib type name ip port)
  unfolding cmd_create
  create-Quiet lib type name ip port c w = writable-Untouched (with_errno clear c) _ w

  maxl-Quiet : (lib : Library) (type id value : List ℕ) → Quiet (run_maxl lib type id value)
  maxl-Quiet lib type id value =
      let r = lib.atof value in
      on_servers-Untouched (λ read t i a. cmd_maxl read t i a r.0) (λ e. if r.1 then erange else e)
        (one-Denied (λ s. record s { maxl = r.0 })) type id

  maxc-Quiet : (type id value : List ℕ) → Quiet (run_maxc type id value)
  maxc-Quiet type id value =
      on_servers-Untouched (λ read t i a. cmd_maxc read t i a (read_int 10 value))
        (errno_of (strtol 10 value)) (one-Denied (λ s. record s { maxc = read_int 10 value })) type
        id

  abbrev Passive : Command → Type 0
  Passive run = Obeys (Watches b) (Same b) (λ a. ⊥) ⊥ run

  on_value : (f : List ℕ → Console → Round) → ((v : List ℕ) → Quiet (f v)) → Passive (with_value f)
  on_value f k = with_value-Obeys (Watches b) (Same b) (λ a. ⊥) ⊥ f k

  on_server :
      (f : (List ℕ → Option ℤ) → (type id : List ℕ) → Admin → Answer)
      → Denied f
      → Passive (with_server (on_servers f unchanged))
  on_server f denied =
      with_server-Obeys (Watches b) (Same b) (λ a. ⊥) ⊥ (on_servers f unchanged)
        (on_servers-Untouched f unchanged denied)

  commands-Passive : (lib : Library) → AllObey (Watches b) (Same b) (λ a. ⊥) ⊥ (commands lib)
  unfolding commands cmd_hri cmd_hrs cmd_hrt cmd_monitor
  commands-Passive lib =
      (λ args c w. w.1)
      & on_server cmd_standby (one-Denied _)
      & snmp-Quiet
      & on_value cmd_clone_mode clone_mode-Quiet
      & (λ args c w. w)
      & (λ args c w. w)
      & (λ args c w. w)
      & (λ args c w. w)
      & (λ args c w. w)
      & (λ args c w. w)
      & on_server cmd_delete (one-Denied _)
      & on_value cmd_monitor (number-Quiet _ _)
      & on_value cmd_debug debug-Quiet
      & on_value cmd_hrt (number-Quiet _ _)
      & on_value cmd_hrs (number-Quiet _ _)
      & on_value cmd_hri (number-Quiet _ _)
      & (λ args c w. w)
      & on_value cmd_algorithm algorithm-Quiet
      & (λ args c w. writable-Untouched c _ w)
      & with_address-Obeys (Watches b) (Same b) (λ a. ⊥) ⊥ (cmd_create lib) (create-Quiet lib)
      & with_server_value-Obeys (Watches b) (Same b) (λ a. ⊥) ⊥ (run_maxl lib) (maxl-Quiet lib)
      & with_server_value-Obeys (Watches b) (Same b) (λ a. ⊥) ⊥ run_maxc maxc-Quiet
      & on_server cmd_reset reset-Denied
      & on_server cmd_enable (many-Denied _ _)
      & on_server cmd_disable (many-Denied _ _)
      & on_value cmd_overload_mode overload_mode-Quiet
      & all_obey

-- In read-only mode no session changes the balancer, whatever the lines are: as long as each line
-- has a word, the session ends in no crash and no signal to the server, and read-only until a scan.
pub run_lines-Untouched :
    (lib : Library) (lines : List (List ℕ)) (c : Console)
    → c.readonly ≡ true
    → NoBlank ⊥ lines
    → Untouched c.balancer (run_lines lib lines c)
run_lines-Untouched lib lines c h blank =
    run_lines-Ended (Watches c.balancer) (Same c.balancer) (λ a. ⊥) ⊥ lib
      (commands-Passive c.balancer lib) lines c blank (h, refl)
