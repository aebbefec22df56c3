-- ===== src/Admin/Console.antt =====
-- The globals of src/admin.c that last from one command to the next, and how a command ends.
use octopuslb.Base.{Bool, true, false, if◌then◌else◌, ℤ, pos, negsuc}
use octopuslb.Balancer.{Balancer, Settings}
use octopuslb.Admin.{Admin, Answer, refused, fault, done}

-- 0, ERANGE, or another error.
pub data Errno : Type 0 where
  clear erange other : Errno

abbrev pub is_clear : Errno → Bool
is_clear clear = true
is_clear _ = false

abbrev pub is_erange : Errno → Bool
is_erange erange = true
is_erange _ = false

-- `status` is `command_return_value`, and `extended` is `extended_output_mode`.
pub record Console : Type 0 where
  pub admin : Admin
  pub open admin use *
  pub errno : Errno
  pub extended : Bool
  pub status : ℤ

-- After a line of input: on to the next, `exit` with a status, the call of
-- `cmd_scan_for_instances`, the signals to the server and the end, or a read through NULL or a
-- write past the end of an array.
pub data Round : Type 0 where
  next : Console → Round
  quit : ℤ → Console → Round
  scans : Console → Round
  kills : Console → Round
  crash : Round

abbrev pub with_errno : Errno → Console → Console
with_errno e c = record c { errno = e }

abbrev pub with_admin : (Admin → Admin) → Console → Console
with_admin f c = record c { admin = f c.admin }

abbrev pub on_balancer : (Balancer → Balancer) → Console → Console
on_balancer f c = with_admin (λ a. record a { balancer = f a.balancer }) c

abbrev pub on_settings : (Settings → Settings) → Console → Console
on_settings f c = on_balancer (λ b. record b { settings = f b.settings }) c

-- `return -1`.
abbrev pub decline : Console → Round
decline c = next (record c { status = negsuc 0 })

-- `return 0`.
abbrev pub accept : Console → Round
accept c = next (record c { status = pos 0 })

-- A command that a read-only admin may not give.
abbrev pub writable : Console → Round → Round
writable c r = if c.readonly then decline c else r

-- What a command on servers leaves, with `errno` after a refusal and at its end.
abbrev pub answer : Errno → Errno → Answer → Console → Round
answer e e' (refused a) c = decline (record c { admin = a; errno = e })
answer e e' fault c = crash
answer e e' (done a) c = accept (record c { admin = a; errno = e' })
