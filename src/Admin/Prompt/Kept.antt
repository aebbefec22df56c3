-- ===== src/Admin/Prompt/Kept.antt =====
-- The commands of src/admin.c on the settings, and `create`, keep the balancer stable.
use octopuslb.Base.{
  ℕ, ◌≡◌, refl, arith, Bool, true, List, [], ◌∷◌, if_split, Option-cases, inl, inr, ℤ, pos, ltb,
  ltb_ℤ, length,
}
use octopuslb.Balancer.{
  Balancer, Settings, Algorithm, CloneMode, OverloadMode, SnmpStatus, on, off, relaxed, strict,
  snmp_enabled, snmp_disabled,
}
use octopuslb.Balancer.Cloning.{set_cloned_state}
use octopuslb.Balancer.Create.{Created, created, no_memory, invalid_port, out_of_bounds}
use octopuslb.Monitor.Shape.{SameServers, SamePlace-refl}
use octopuslb.Text.{codes, strtol, starts_with, to_int}
use octopuslb.Config.{Library, read_int}
use octopuslb.Admin.{Admin}
use octopuslb.Admin.Console.{
  clear, is_clear, Console, Round, writable, decline, accept, with_errno, on_balancer, on_settings,
}
use octopuslb.Admin.Settings.{
  cmd_number, is_bad, cmd_hri, cmd_hrs, cmd_hrt, cmd_monitor, cmd_debug, algorithm_named,
  cmd_algorithm, cmd_clone_mode, cmd_overload_mode, cmd_snmp, snmp_included, cmd_create, create_at,
  kind_of, conclude, errno_of,
}
use octopuslb.Admin.Prompt.Ended.{Ended, Fit}
use octopuslb.Admin.Steady.{InRange, Stable, SameServers-Stable, set_cloned_state-Stable}
use octopuslb.Admin.Steady.Create.{Makes, create_balancer_server-Makes}

-- What was stable is so after a line, unless that is a crash.
abbrev pub Kept : Round → Type 0
Kept = Ended Stable Stable Stable Unit

abbrev pub Keeper : (Console → Round) → Type 0
Keeper f = Fit Stable Stable Stable Unit f

writable-Kept : (c : Console) (r : Round) → Stable c.admin → Kept r → Kept (writable c r)
writable-Kept c r h k = if_split Kept c.readonly (decline c) r (λ e. h) (λ e. k)

-- A change of the settings that keeps them in range.
settings-Stable :
    (f : Settings → Settings) (a : Admin)
    → InRange (f a.balancer.settings)
    → Stable a
    → Stable (record a { balancer = record a.balancer { settings = f a.balancer.settings } })
settings-Stable f a range h =
    SameServers-Stable a (record a.balancer { settings = f a.balancer.settings })
      (record {
        nmembers = refl;
        nclones = refl;
        table = refl;
        members = λ i. SamePlace-refl (a.balancer.members i);
        clones = λ i. SamePlace-refl (a.balancer.clones i);
      })
      range h

number-Keeper :
    (test : ℤ → Bool) (assign : ℤ → Settings → Settings)
    → ((v : ℤ) (s : Settings) → test v ≡ true → InRange s → InRange (assign v s))
    → (value : List ℕ) → Keeper (cmd_number test assign value)
unfolding cmd_number
number-Keeper test assign ok value c h =
    let n = strtol 10 value in
    let c' = with_errno (errno_of n c.errno) c in
    writable-Kept c _ h (
      if_split Kept (is_bad (errno_of n c.errno) n.value) (decline c') _ (λ e. h)
        (λ e.
          if_split Kept (test n.value) (accept (on_settings (assign n.value) c')) (decline c')
            (λ t. settings-Stable (assign n.value) c.admin (ok n.value _ t h.0.in_range) h)
            (λ t. h)))

pub hri-Keeper : (value : List ℕ) → Keeper (cmd_hri value)
unfolding cmd_hri
hri-Keeper = number-Keeper _ _ (λ v s t r. ground arith)

pub hrs-Keeper : (value : List ℕ) → Keeper (cmd_hrs value)
unfolding cmd_hrs
hrs-Keeper = number-Keeper _ _ (λ v s t r. ground arith)

pub hrt-Keeper : (value : List ℕ) → Keeper (cmd_hrt value)
unfolding cmd_hrt
hrt-Keeper = number-Keeper _ _ (λ v s t r. ground arith)

pub monitor-Keeper : (value : List ℕ) → Keeper (cmd_monitor value)
unfolding cmd_monitor
monitor-Keeper = number-Keeper _ _ (λ v s t r. ground arith)

-- The modes may be any.
with_modes : Algorithm → CloneMode → OverloadMode → SnmpStatus → Balancer → Balancer
with_modes g m o s b = record b {
  algorithm = g;
  clone_mode = m;
  overload_mode = o;
  snmp_status = s;
}

with_modes-SameServers :
    (g : Algorithm) (m : CloneMode) (o : OverloadMode) (s : SnmpStatus) (b : Balancer)
    → SameServers b (with_modes g m o s b)
unfolding with_modes
with_modes-SameServers g m o s b = record {
  nmembers = refl;
  nclones = refl;
  table = refl;
  members = λ i. SamePlace-refl (b.members i);
  clones = λ i. SamePlace-refl (b.clones i);
}

modes-Stable :
    (g : Algorithm) (m : CloneMode) (o : OverloadMode) (s : SnmpStatus) (a : Admin)
    → Stable a
    → Stable (record a { balancer = with_modes g m o s a.balancer })
unfolding with_modes
modes-Stable g m o s a h =
    SameServers-Stable a (with_modes g m o s a.balancer) (with_modes-SameServers g m o s a.balancer)
      h.0.in_range h

pub debug-Keeper : (value : List ℕ) → Keeper (cmd_debug value)
unfolding cmd_debug
debug-Keeper value c h =
    let n = strtol 10 value in
    let e = errno_of n c.errno in
    let set : Settings → Settings = λ s. record s { debug_level = to_int n.value } in
    let range : InRange (set c.balancer.settings) = let r = h.0.in_range in ground arith in
    writable-Kept c _ h (
      if_split Kept (is_clear e) (accept (on_settings set (with_errno e c)))
        (decline (with_errno e c)) (λ t. settings-Stable set c.admin range h) (λ t. h))

pub algorithm-Keeper : (value : List ℕ) → Keeper (cmd_algorithm value)
unfolding cmd_algorithm with_modes
algorithm-Keeper value c h =
    let b = c.balancer in
    writable-Kept c _ h (elim (Option-cases (algorithm_named value)) [
      | inl e ↦ rw e h
      | inr (g, e) ↦ rw e (modes-Stable g b.clone_mode b.overload_mode b.snmp_status c.admin h)
    ])

cloned-Keeper :
    (m : CloneMode)
    → Keeper (λ c. accept (on_balancer (λ b. set_cloned_state (record b { clone_mode = m })) c))
unfolding with_modes
cloned-Keeper m c h =
    let b = c.balancer in
    set_cloned_state-Stable c.admin (with_modes b.algorithm m b.overload_mode b.snmp_status b)
      (with_modes-SameServers b.algorithm m b.overload_mode b.snmp_status b) h.0.in_range h

pub clone_mode-Keeper : (value : List ℕ) → Keeper (cmd_clone_mode value)
unfolding cmd_clone_mode
clone_mode-Keeper value c h = writable-Kept c _ h (
    if_split Kept (starts_with value (codes "e")) _ _ (λ e. cloned-Keeper on c h)
      (λ e.
        if_split Kept (starts_with value (codes "d")) _ _ (λ d. cloned-Keeper off c h) (λ d. h)))

pub overload_mode-Keeper : (value : List ℕ) → Keeper (cmd_overload_mode value)
unfolding cmd_overload_mode with_modes
overload_mode-Keeper value c h =
    let b = c.balancer in
    let set =
      λ (o : OverloadMode). modes-Stable b.algorithm b.clone_mode o b.snmp_status c.admin h in
    writable-Kept c _ h (
      if_split Kept (starts_with value (codes "r")) _ _ (λ e. set relaxed)
        (λ e. if_split Kept (starts_with value (codes "s")) _ _ (λ d. set strict) (λ d. h)))

pub snmp-Keeper : (args : List (List ℕ)) → Keeper (cmd_snmp args)
unfolding cmd_snmp with_modes
snmp-Keeper [] c h = writable-Kept c _ h h
snmp-Keeper (value ∷ _) c h =
    let b = c.balancer in
    let set =
      λ (s : SnmpStatus). modes-Stable b.algorithm b.clone_mode b.overload_mode s c.admin h in
    writable-Kept c _ h (
      if_split Kept (snmp_included b.snmp_status) _ _
        (λ yes.
          if_split Kept (starts_with value (codes "on")) _ _ (λ e. set snmp_enabled)
            (λ e.
              if_split Kept (starts_with value (codes "off")) _ _ (λ d. set snmp_disabled)
                (λ d. h)))
        (λ no. h))

conclude-Kept : (r : Created) (c : Console) → Stable c.admin → Makes c.admin r → Kept (conclude r c)
conclude-Kept (created b) c h made = made
conclude-Kept no_memory c h made = h
conclude-Kept invalid_port c h made = h
conclude-Kept out_of_bounds c h made = tt

create_at-Kept :
    (lib : Library) (kind : Bool) (name : List ℕ) (address : ℕ) (port : List ℕ)
    → Keeper (create_at lib kind name address port)
unfolding create_at
create_at-Kept lib kind name address port c h =
    if_split Kept (ltb_ℤ (pos 0) (read_int 10 port)) _ _
      (λ e. conclude-Kept _ _ h (create_balancer_server-Makes lib.memory _ c.admin refl h)) (λ e. h)

pub create-Keeper :
    (lib : Library) (type name ip port : List ℕ) → Keeper (cmd_create lib type name ip port)
unfolding cmd_create
create-Keeper lib type name ip port c h =
    let c' = with_errno clear c in
    writable-Kept c' _ h (
      if_split Kept (ltb 15 (length ip)) _ _ (λ e. h)
        (λ e. elim (Option-cases (kind_of type)) [
          | inl none_of ↦ rw none_of h
          | inr (kind, k) ↦ elim (Option-cases (lib.inet_aton ip)) [
            | inl bad ↦ rw (k, bad) h
            | inr (address, a) ↦ rw (k, a) (create_at-Kept lib kind name address port c' h)
          ]
        ]))
