-- ===== src/Monitor/Check.antt =====
-- `check_server_state` and `check_server_snmp` of src/monitor.c. What the sockets and the SNMP
-- library answer is an argument.
pub mod Outcome
use octopuslb.Base.{
  ℕ, Bool, true, false, not, ◌&&◌, ◌||◌, Option, none, some, List, [], ◌∷◌, if◌then◌else◌, update,
  pos, float_minus_one, float_minus_two, for_range,
}
use octopuslb.Balancer.{Status, Server, Balancer}
use octopuslb.Balancer.Cloning.{set_cloned_state}

-- The answers to one check: whether `socket`, `fcntl` and TCP_NODELAY succeed; whether `connect`
-- answers 0 or EINPROGRESS; whether `select` finds the socket ready in time; whether it is readable
-- and `read` fails; and whether it is in the set of errors. (SO_REUSEADDR and SO_KEEPALIVE are only
-- logged.)
pub record Probe : Type 0 where
  pub socket : Bool
  pub nonblock : Bool
  pub nodelay : Bool
  pub connecting : Bool
  pub ready : Bool
  pub read_failed : Bool
  pub err : Bool

-- Only an enabled or a failed server is checked.
abbrev pub is_checked : Status → Bool
is_checked Status.enabled = true
is_checked Status.failed = true
is_checked _ = false

-- The check comes to a verdict.
abbrev pub is_probed : Probe → Bool
is_probed p = p.socket && p.nonblock && p.nodelay && p.connecting

abbrev pub is_alive : Probe → Bool
is_alive p = p.ready && not p.read_failed && not p.err

unfoldable pub judged : Probe → Server → Server
judged p s =
    if is_alive p
    then record s { status = Status.enabled }
    else record s { status = Status.failed; load = float_minus_one; e_load = pos 0 }

-- A check that comes to no verdict leaves the server, and the mode of cloning, as they are.
pub check_member : Probe → ℕ → Balancer → Balancer
check_member p i b =
    if is_checked (b.members i).status && is_probed p
    then set_cloned_state (record b { members = update b.members i (judged p (b.members i)) })
    else b

pub check_clone : Probe → ℕ → Balancer → Balancer
check_clone p i b =
    if is_checked (b.clones i).status && is_probed p
    then set_cloned_state (record b { clones = update b.clones i (judged p (b.clones i)) })
    else b

-- The two loops of a round over all servers.
pub check_servers : (ℕ → Probe) → (ℕ → Probe) → Balancer → Balancer
check_servers members clones b =
    let b' = for_range b.nmembers 0 (λ i c. check_member (members i) i c) b in
    for_range b'.nclones 0 (λ i c. check_clone (clones i) i c) b'

-- The answer to a query: no session, no response without an error, or the variables of the
-- response, each one a load if it is a string.
pub data SnmpAnswer : Type 0 where
  no_session no_response : SnmpAnswer
  variables : List (Option ℕ) → SnmpAnswer

-- The last variable counts.
unfoldable pub read_load : List (Option ℕ) → Server → Server
read_load [] s = s
read_load (none ∷ vs) s = read_load vs (record s { load = float_minus_two })
read_load (some l ∷ vs) s = read_load vs (record s { load = l })

-- Only an enabled or a disabled server is asked.
abbrev pub is_asked : Status → Bool
is_asked Status.enabled = true
is_asked Status.disabled = true
is_asked _ = false

unfoldable pub snmp_load : SnmpAnswer → Server → Server
snmp_load no_session s = record s { load = float_minus_two }
snmp_load no_response s = record s { load = float_minus_two }
snmp_load (variables vs) s = read_load vs s

unfoldable pub check_server_snmp : SnmpAnswer → Server → Server
check_server_snmp a s = if is_asked s.status then snmp_load a s else s
