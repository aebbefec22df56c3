-- ===== src/Admin.antt =====
-- The commands of src/admin.c that act on servers, and `set_subject`, which finds the servers.

pub mod Console
pub mod Filled
pub mod Outcome
pub mod Settings
pub mod Scan
pub mod Steady
pub mod Prompt
pub mod Single
pub mod All
pub mod Examples
use octopuslb.Base.{
  ℕ, ◌+◌, Bool, true, false, ◌&&◌, ◌||◌, not, Option, none, some, List, [], ◌∷◌, ◌==◌, ltb,
  if◌then◌else◌, update, ℤ, for_range,
}
use octopuslb.Balancer.{Status, Server, Balancer, max_servers}
use octopuslb.Balancer.Cloning.{set_cloned_state}

-- A pointer into one of the two arrays.
pub data Target : Type 0 where
  member_at clone_at : ℕ → Target

-- The globals that one command leaves to the next, with the balancer in shared memory; `none` is
-- NULL.
pub record Admin : Type 0 where
  pub readonly : Bool
  pub subject : ℕ → Option Target
  pub subject_count : ℕ
  pub balancer : Balancer

-- What `strncmp` with one character tells: the word starts with it.
abbrev pub starts : ℕ → List ℕ → Bool
starts c [] = false
starts c (x ∷ xs) = x == c

abbrev pub letter_a : ℕ
letter_a = 97

abbrev pub letter_c : ℕ
letter_c = 99

abbrev pub letter_m : ℕ
letter_m = 109

-- No deleted and no empty slots.
abbrev pub is_manageable : Status → Bool
is_manageable Status.free = false
is_manageable Status.deleted = false
is_manageable _ = true

abbrev pub push : Target → Admin → Admin
push t a = record a {
  subject = update a.subject a.subject_count (some t);
  subject_count = a.subject_count + 1;
}

abbrev pub take_member : ℕ → Admin → Admin
take_member i a = if is_manageable (a.balancer.members i).status then push (member_at i) a else a

abbrev pub take_clone : ℕ → Admin → Admin
take_clone i a = if is_manageable (a.balancer.clones i).status then push (clone_at i) a else a

-- No index of the array.
abbrev pub is_outside : ℤ → Bool
is_outside (ℤ.pos v) = not (ltb v max_servers)
is_outside (ℤ.negsuc v) = true

-- The status of the slot is read before the index is compared with 0 and the count, so that an index
-- that is not of the array is a read outside it.
abbrev pub strays : List ℕ → ℤ → Bool
strays type v = (starts letter_m type || starts letter_c type) && is_outside v

-- The four tests, for an index of the array.
abbrev pub names_slot : (ℕ → Server) → ℕ → ℤ → Bool
names_slot slots n (ℤ.pos v) = is_manageable (slots v).status && ltb v n
names_slot slots n (ℤ.negsuc v) = false

abbrev pub slot_index : ℤ → ℕ
slot_index (ℤ.pos v) = v
slot_index (ℤ.negsuc v) = 0

-- The part for members: `none` for all the servers.
pub set_members : List ℕ → Option ℤ → Admin → Admin × Bool
set_members type none a = (for_range a.balancer.nmembers 0 take_member a, true)
set_members type (some v) a =
    if starts letter_m type
    then if names_slot a.balancer.members a.balancer.nmembers v
      then (push (member_at (slot_index v)) a, true)
      else (a, false)
    else (a, true)

pub set_clones : List ℕ → Option ℤ → Admin → Admin × Bool
set_clones type none a = (for_range a.balancer.nclones 0 take_clone a, true)
set_clones type (some v) a =
    if starts letter_c type
    then if names_slot a.balancer.clones a.balancer.nclones v
      then (push (clone_at (slot_index v)) a, true)
      else (a, false)
    else (a, true)

abbrev pub is_type : List ℕ → Bool
is_type type = starts letter_c type || starts letter_m type || starts letter_a type

-- From the test of the type on: members, clones, and the check that the type is one of the three.
pub find_subjects : List ℕ → Option ℤ → Admin → Admin × Bool
find_subjects type v a =
    let m = set_members type v a in
    let c = set_clones type v m.0 in if m.1 then (c.0, c.1 && is_type type) else (m.0, false)

-- `strtol` reads a number, or sets `errno` in a way that the code refuses. True is the result 0, and
-- `none` a read outside the array of servers.
pub set_subject :
    (List ℕ → Option ℤ) → List ℕ → List ℕ → (admin_req multi : Bool) → Admin → Option (Admin × Bool)
set_subject strtol type id admin_req multi old =
    let a : Admin = record old { subject_count = 0 } in
    if admin_req && a.readonly
    then some (a, false)
    else if starts letter_a id
    then some (if multi then find_subjects type none a else (a, false))
    else elim (strtol id) [
      | none ↦ some (a, false)
      | some v ↦ if strays type v then none else some (find_subjects type (some v) a)
    ]

-- `*t = f(*t)`.
abbrev pub change : (Server → Server) → Target → Balancer → Balancer
change f (member_at i) b = record b { members = update b.members i (f (b.members i)) }
change f (clone_at i) b = record b { clones = update b.clones i (f (b.clones i)) }

-- -1, a read through NULL or outside the array of servers, or 0.
pub data Answer : Type 0 where
  refused : Admin → Answer
  fault : Answer
  done : Admin → Answer

-- A command on one server acts on `subject[0]`.
abbrev pub change_first : (Server → Server) → Admin → Answer
change_first f a = elim (a.subject 0) [
  | none ↦ fault
  | some t ↦ done (record a { balancer = change f t a.balancer })
]

-- One round of a loop over the subjects; `none` is a read through NULL.
abbrev pub change_subject : (Server → Server) → ℕ → Admin → Option Admin
change_subject f i a = elim (a.subject i) [
  | none ↦ none
  | some t ↦ some (record a { balancer = change f t a.balancer })
]

abbrev pub change_next : (Server → Server) → ℕ → Option Admin → Option Admin
change_next f i none = none
change_next f i (some a) = change_subject f i a

pub change_each : (Server → Server) → Admin → Option Admin
change_each f a = for_range a.subject_count 0 (change_next f) (some a)

abbrev pub toggle_standby : Server → Server
toggle_standby s = record s { standby = not s.standby }

abbrev pub delete : Server → Server
delete s = record s { status = Status.deleted }

abbrev pub enable : Server → Server
enable s = elim s.status [ Status.disabled ↦ record s { status = Status.enabled } | _ ↦ s ]

abbrev pub disable : Server → Server
disable s = elim s.status [
  | Status.enabled ↦ record s { status = Status.disabled }
  | Status.failed ↦ record s { status = Status.disabled }
  | _ ↦ s
]

abbrev pub reset_counters : Server → Server
reset_counters s = record s { bsent = 0; brecv = 0; completed_c = 0 }

-- The test of what `set_subject` returns.
abbrev pub when_found : (Admin → Answer) → Option (Admin × Bool) → Answer
when_found act none = fault
when_found act (some r) = if r.1 then act r.0 else refused r.0

-- What follows a loop over the subjects.
abbrev pub after_each : (Admin → Answer) → Option Admin → Answer
after_each act none = fault
after_each act (some a) = act a

-- With one subject or none, the message of `reset` reads the name of `subject[0]`.
abbrev pub name_reset : Admin → Answer
name_reset a =
    let named = elim (a.subject 0) as (λ z. Answer) [ none ↦ fault | some t ↦ done a ] in
    if ltb 1 a.subject_count then done a else named

module _ (strtol : List ℕ → Option ℤ) (type id : List ℕ) (a : Admin) where
  -- The commands on one server.
  pub cmd_one : (Server → Server) → Answer
  cmd_one f = when_found (change_first f) (set_subject strtol type id true false a)

  abbrev pub cmd_standby : Answer
  cmd_standby = cmd_one toggle_standby

  abbrev pub cmd_delete : Answer
  cmd_delete = cmd_one delete

  -- `atoi` and `atof` of the value.
  abbrev pub cmd_maxc : ℤ → Answer
  cmd_maxc value = cmd_one (λ s. record s { maxc = value })

  abbrev pub cmd_maxl : ℕ → Answer
  cmd_maxl value = cmd_one (λ s. record s { maxl = value })

  -- The commands on one server or all, and what follows the loop.
  pub cmd_many : (Server → Server) → (Balancer → Balancer) → Answer
  cmd_many f after =
      when_found
        (λ found.
          after_each (λ c. done (record c { balancer = after c.balancer })) (change_each f found))
        (set_subject strtol type id true true a)

  abbrev pub cmd_enable : Answer
  cmd_enable = cmd_many enable set_cloned_state

  abbrev pub cmd_disable : Answer
  cmd_disable = cmd_many disable set_cloned_state

  pub cmd_reset : Answer
  cmd_reset =
      when_found (λ found. after_each name_reset (change_each reset_counters found))
        (set_subject strtol type id true true a)
