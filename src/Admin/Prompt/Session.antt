-- ===== src/Admin/Prompt/Session.antt =====
-- What any session of src/admin.c keeps of the balancer.
use octopuslb.Base.{if◌then◌else◌, ℕ, refl, sym, arith, List, [], ◌∷◌, if_split, Option, ℤ}
use octopuslb.Text.{strtol}
use octopuslb.Config.{Library, read_int}
use octopuslb.Admin.{
  Admin, Answer, refused, fault, done, cmd_standby, cmd_delete, cmd_maxl, cmd_maxc, cmd_enable,
  cmd_disable, cmd_reset, toggle_standby, delete, enable, disable,
}
use octopuslb.Admin.Console.{Errno, erange, Console, Round, answer}
use octopuslb.Admin.Settings.{
  cmd_hri, cmd_hrs, cmd_hrt, cmd_monitor, cmd_debug, cmd_algorithm, cmd_clone_mode,
  cmd_overload_mode, cmd_create, errno_of,
}
use octopuslb.Admin.Prompt.{
  read_id, subject_errno, on_servers, unchanged, with_value, with_server, run_maxl, run_maxc,
  commands, run_lines,
}
use octopuslb.Admin.Prompt.Ended.{
  Obeys, AllObey, all_obey, ◌&◌, NoBlank, with_value-Obeys, with_server-Obeys,
  with_server_value-Obeys, with_address-Obeys, run_lines-Ended,
}
use octopuslb.Admin.Steady.{Stable, Gentle}
use octopuslb.Admin.Steady.Subjects.{Leaves, cmd_one-Leaves, cmd_many-Leaves, cmd_reset-Leaves}
use octopuslb.Admin.Prompt.Kept.{
  Kept, Keeper, hri-Keeper, hrs-Keeper, hrt-Keeper, monitor-Keeper, debug-Keeper, algorithm-Keeper,
  clone_mode-Keeper, overload_mode-Keeper, snmp-Keeper, create-Keeper,
}

-- A command on servers.
abbrev Leaver : ((List ℕ → Option ℤ) → (type id : List ℕ) → Admin → Answer) → Type 0
Leaver f = (type id : List ℕ) (a : Admin) → Stable a → Leaves (f read_id type id a)

answer-Kept : (e e' : Errno) (r : Answer) (c : Console) → Leaves r → Kept (answer e e' r c)
answer-Kept e e' (refused a) c h = h
answer-Kept e e' fault c h = tt
answer-Kept e e' (done a) c h = h

on_servers-Keeper :
    (f : (List ℕ → Option ℤ) → (type id : List ℕ) → Admin → Answer) (last : Errno → Errno)
    → Leaver f
    → (type id : List ℕ) → Keeper (on_servers f last type id)
on_servers-Keeper f last leaves type id c h =
    let e = subject_errno id c in
    answer-Kept e (last e) (f read_id type id c.admin) c (leaves type id c.admin h)

toggle_standby-Gentle : Gentle toggle_standby
toggle_standby-Gentle s u = record { id = refl; free = refl; usage = refl }

delete-Gentle : Gentle delete
delete-Gentle s u = record { id = refl; free = sym u; usage = refl }

enable-Gentle : Gentle enable
enable-Gentle s u = record { id = ground arith; free = ground arith; usage = ground arith }

disable-Gentle : Gentle disable
disable-Gentle s u = record { id = ground arith; free = ground arith; usage = ground arith }

maxl-Keeper : (lib : Library) (type id value : List ℕ) → Keeper (run_maxl lib type id value)
maxl-Keeper lib type id value =
    let r = lib.atof value in
    on_servers-Keeper (λ read t i a. cmd_maxl read t i a r.0) (λ e. if r.1 then erange else e)
      (λ t i a h.
        cmd_one-Leaves read_id t i a h (λ s. record s { maxl = r.0 })
          (λ s u. record { id = refl; free = refl; usage = refl }))
      type id

maxc-Keeper : (type id value : List ℕ) → Keeper (run_maxc type id value)
maxc-Keeper type id value =
    on_servers-Keeper (λ read t i a. cmd_maxc read t i a (read_int 10 value))
      (errno_of (strtol 10 value))
      (λ t i a h.
        cmd_one-Leaves read_id t i a h (λ s. record s { maxc = read_int 10 value })
          (λ s u. record { id = refl; free = refl; usage = refl }))
      type id

on_server :
    (f : (List ℕ → Option ℤ) → (type id : List ℕ) → Admin → Answer)
    → Leaver f
    → Obeys Stable Stable Stable Unit (with_server (on_servers f unchanged))
on_server f leaves =
    with_server-Obeys Stable Stable Stable Unit (on_servers f unchanged)
      (on_servers-Keeper f unchanged leaves)

on_value :
    (f : List ℕ → Console → Round)
    → ((v : List ℕ) → Keeper (f v))
    → Obeys Stable Stable Stable Unit (with_value f)
on_value f k = with_value-Obeys Stable Stable Stable Unit f k

commands-AllObey : (lib : Library) → AllObey Stable Stable Stable Unit (commands lib)
unfolding commands
commands-AllObey lib =
    (λ args c h. h)
    & on_server cmd_standby
        (λ t i a h. cmd_one-Leaves read_id t i a h toggle_standby toggle_standby-Gentle)
    & snmp-Keeper
    & on_value cmd_clone_mode clone_mode-Keeper
    & (λ args c h. h)
    & (λ args c h. h)
    & (λ args c h. h)
    & (λ args c h. h)
    & (λ args c h. h)
    & (λ args c h. h)
    & on_server cmd_delete (λ t i a h. cmd_one-Leaves read_id t i a h delete delete-Gentle)
    & on_value cmd_monitor monitor-Keeper
    & on_value cmd_debug debug-Keeper
    & on_value cmd_hrt hrt-Keeper
    & on_value cmd_hrs hrs-Keeper
    & on_value cmd_hri hri-Keeper
    & (λ args c h. h)
    & on_value cmd_algorithm algorithm-Keeper
    & (λ args c h. if_split Kept c.readonly _ _ (λ e. h) (λ e. h))
    & with_address-Obeys Stable Stable Stable Unit (cmd_create lib) (create-Keeper lib)
    & with_server_value-Obeys Stable Stable Stable Unit (run_maxl lib) (maxl-Keeper lib)
    & with_server_value-Obeys Stable Stable Stable Unit run_maxc maxc-Keeper
    & on_server cmd_reset (cmd_reset-Leaves read_id)
    & on_server cmd_enable (λ t i a h. cmd_many-Leaves read_id t i a h enable enable-Gentle)
    & on_server cmd_disable (λ t i a h. cmd_many-Leaves read_id t i a h disable disable-Gentle)
    & on_value cmd_overload_mode overload_mode-Keeper
    & all_obey

no_blank : (lines : List (List ℕ)) → NoBlank Unit lines
no_blank [] = tt
no_blank (input ∷ more) = (λ e. tt, no_blank more)

-- Any session, whatever its lines are: if the balancer is well-formed, the usage counters are exact,
-- no free slot has hash values, the percentages of the hash settings are from 0 to 100, the monitor's
-- interval is an unsigned short, and no subject of an earlier command is a free slot, then all that
-- still holds at the end, before a scan and before the signals that kill the server, unless the
-- session crashes.
pub run_lines-Kept :
    (lib : Library) (lines : List (List ℕ)) (c : Console)
    → Stable c.admin
    → Kept (run_lines lib lines c)
run_lines-Kept lib lines c h =
    run_lines-Ended Stable Stable Stable Unit lib (commands-AllObey lib) lines c (no_blank lines) h
