-- ===== src/Admin/Settings.antt =====
-- The commands of src/admin.c that change the balancer's settings, as built with SNMP, and `create`.
use octopuslb.Base.{
  ℕ, ◌-◌, ◌^◌, Bool, true, false, not, ◌&&◌, ◌||◌, Option, none, some, List, [], ◌∷◌, ltb, ltb_ℤ,
  leb_ℤ, eq_ℤ, if◌then◌else◌, ℤ, pos, negsuc, to_ushort, length,
}
use octopuslb.Balancer.{
  Status, Settings, SnmpStatus, snmp_not_included, snmp_disabled, snmp_enabled, Algorithm, rr, lc,
  ll, hash, static, off, on, strict, relaxed,
}
use octopuslb.Balancer.Cloning.{set_cloned_state}
use octopuslb.Balancer.Create.{
  Created, Request, created, no_memory, invalid_port, out_of_bounds, create_balancer_server,
}
use octopuslb.Text.{Number, strtol, starts_with, to_int, codes}
use octopuslb.Config.{Library, read_int}
use octopuslb.Admin.Console.{
  Errno, clear, erange, is_clear, is_erange, Console, Round, crash, with_errno, on_balancer,
  on_settings, decline, accept, writable,
}

-- `errno` after a call of `strtol` that found it so.
abbrev pub errno_of : Number → Errno → Errno
errno_of n e = if n.erange then erange else e

-- LONG_MAX or LONG_MIN.
abbrev pub is_extreme : ℤ → Bool
is_extreme v = eq_ℤ v (pos (2 ^ 63 - 1)) || eq_ℤ v (negsuc (2 ^ 63 - 1))

-- The test after `strtol`.
abbrev pub is_bad : Errno → ℤ → Bool
is_bad e v = (is_erange e && is_extreme v) || (not (is_clear e) && eq_ℤ v (pos 0))

-- Read a number that has to pass a test, and store it.
unfoldable pub cmd_number : (ℤ → Bool) → (ℤ → Settings → Settings) → List ℕ → Console → Round
cmd_number test assign value c =
    let n = strtol 10 value in
    let e = errno_of n c.errno in
    let c' = with_errno e c in
    writable c (
      if is_bad e n.value
      then decline c'
      else if test n.value
      then accept (on_settings (assign n.value) c')
      else decline c')

unfoldable pub cmd_hri : List ℕ → Console → Round
cmd_hri = cmd_number (leb_ℤ (pos 0)) (λ v s. record s { hash_rebalance_interval = to_int v })

-- `0 ≤ v ≤ 100`.
abbrev pub is_percentage : ℤ → Bool
is_percentage v = leb_ℤ (pos 0) v && leb_ℤ v (pos 100)

unfoldable pub cmd_hrs : List ℕ → Console → Round
cmd_hrs = cmd_number is_percentage (λ v s. record s { hash_rebalance_size = to_int v })

unfoldable pub cmd_hrt : List ℕ → Console → Round
cmd_hrt = cmd_number is_percentage (λ v s. record s { hash_rebalance_threshold = to_int v })

unfoldable pub cmd_monitor : List ℕ → Console → Round
cmd_monitor = cmd_number (λ v. true) (λ v s. record s { monitor_interval = to_ushort v })

-- Any error that `errno` still tells of is enough.
unfoldable pub cmd_debug : List ℕ → Console → Round
cmd_debug value c =
    let n = strtol 10 value in
    let e = errno_of n c.errno in
    let c' = with_errno e c in
    writable c (
      if is_clear e
      then accept (on_settings (λ s. record s { debug_level = to_int n.value }) c')
      else decline c')

abbrev pub algorithm_named : List ℕ → Option Algorithm
algorithm_named value =
    if starts_with value (codes "rr")
    then some rr
    else if starts_with value (codes "lc")
    then some lc
    else if starts_with value (codes "ll")
    then some ll
    else if starts_with value (codes "hash")
    then some hash
    else if starts_with value (codes "stati")
    then some static
    else none

-- An unknown algorithm is an error, but the command returns 0.
unfoldable pub cmd_algorithm : List ℕ → Console → Round
cmd_algorithm value c = writable c (elim (algorithm_named value) [
  | none ↦ accept c
  | some a ↦ accept (on_balancer (λ b. record b { algorithm = a }) c)
])

unfoldable pub cmd_clone_mode : List ℕ → Console → Round
cmd_clone_mode value c = writable c (
    if starts_with value (codes "e")
    then accept (on_balancer (λ b. set_cloned_state (record b { clone_mode = on })) c)
    else if starts_with value (codes "d")
    then accept (on_balancer (λ b. set_cloned_state (record b { clone_mode = off })) c)
    else decline c)

unfoldable pub cmd_overload_mode : List ℕ → Console → Round
cmd_overload_mode value c = writable c (
    if starts_with value (codes "r")
    then accept (on_balancer (λ b. record b { overload_mode = relaxed }) c)
    else if starts_with value (codes "s")
    then accept (on_balancer (λ b. record b { overload_mode = strict }) c)
    else decline c)

abbrev pub snmp_included : SnmpStatus → Bool
snmp_included snmp_not_included = false
snmp_included _ = true

-- The first argument counts, and there may be none.
unfoldable pub cmd_snmp : List (List ℕ) → Console → Round
cmd_snmp [] c = writable c (decline c)
cmd_snmp (value ∷ _) c = writable c (
    if snmp_included c.balancer.snmp_status
    then if starts_with value (codes "on")
      then accept (on_balancer (λ b. record b { snmp_status = snmp_enabled }) c)
      else if starts_with value (codes "off")
      then accept (on_balancer (λ b. record b { snmp_status = snmp_disabled }) c)
      else accept c
    else decline c)

abbrev pub conclude : Created → Console → Round
conclude (created b) c = accept (on_balancer (λ _. b) c)
conclude no_memory c = decline c
conclude invalid_port c = decline c
conclude out_of_bounds c = crash

-- A member for false.
abbrev pub kind_of : List ℕ → Option Bool
kind_of type =
    if starts_with type (codes "m")
    then some false
    else if starts_with type (codes "c")
    then some true
    else none

-- The end of `cmd_create`, with the kind and the address read.
unfoldable pub create_at : Library → Bool → List ℕ → ℕ → List ℕ → Console → Round
create_at lib kind name address port c =
    let n = read_int 10 port in
    let c' = with_errno (errno_of (strtol 10 port) c.errno) c in
    let request : Request = record {
      clone = kind;
      name = name;
      status = Status.disabled;
      standby = false;
      port = n;
      ip = address;
      maxc = c.balancer.default_maxc;
      maxl = c.balancer.default_maxl;
    } in
    if ltb_ℤ (pos 0) n
    then conclude (create_balancer_server lib.memory request c.balancer) c'
    else decline c'

unfoldable pub cmd_create : Library → (type name ip port : List ℕ) → Console → Round
cmd_create lib type name ip port c =
    let c' = with_errno clear c in
    writable c' (
      if ltb 15 (length ip) then decline c' else elim (kind_of type) [
        | none ↦ decline c'
        | some kind ↦ elim (lib.inet_aton ip) [
          | none ↦ decline c'
          | some address ↦ create_at lib kind name address port c'
        ]
      ])
