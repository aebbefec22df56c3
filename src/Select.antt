-- ===== src/Select.antt =====
-- Which servers may take a connection, and the globals that hold the choice: `verify_server` and
-- `get_available_servers` of src/algorithms.c.
pub mod Available
pub mod Rotate
pub mod Least
pub mod Uri
pub mod Hash
pub mod Choose
pub mod Examples
use octopuslb.Base.{
  ℕ, Bool, true, false, not, ◌&&◌, ◌||◌, List, [], ◌∷◌, if◌then◌else◌, ℤ, pos, leb_ℤ, ltb_ℤ, get_or,
  is_empty, indices,
}
use octopuslb.Balancer.{Server, Balancer, CloneMode, off, on, broken, is_enabled, is_strict}

-- The globals of src/octopus.h that the algorithms work on. A list holds the first
-- `available_members_count` entries of its array.
pub record Selection : Type 0 where
  pub next_member : ℕ
  pub next_clone : ℕ
  pub available_members : List ℕ
  pub available_clones : List ℕ
  pub use_clone : Bool
  pub using_member_standby : Bool
  pub using_clone_standby : Bool

-- The results of `verify_server`: -1, 1 and 0.
pub data Verdict : Type 0 where
  invalid standby valid : Verdict

-- In strict mode a server over 100% effective load takes nothing.
abbrev pub overloaded : Balancer → Server → Bool
overloaded b s = is_strict b.overload_mode && ltb_ℤ (pos 100) s.e_load

abbrev pub full_or_down : Server → Bool
full_or_down s = leb_ℤ s.maxc s.c || not (is_enabled s.status)

unfoldable pub verify_server : Balancer → Server → Verdict
verify_server b s =
    if is_strict b.overload_mode
      && (not (is_enabled s.status) || ltb_ℤ (pos 100) s.e_load || leb_ℤ s.maxc s.c)
    then invalid
    else if not (is_enabled s.status) || leb_ℤ s.maxc s.c
    then invalid
    else if s.standby
    then standby
    else valid

-- The tests of the first scan: it passes over servers that are full or down, standbys and, in
-- strict mode, overloaded servers.
unfoldable pub first_pass : Balancer → Server → Bool
first_pass b s =
    if full_or_down s || s.standby then false else if overloaded b s then false else true

-- The second scan admits standbys.
unfoldable pub second_pass : Balancer → Server → Bool
second_pass b s = if full_or_down s then false else if overloaded b s then false else true

-- The indices that a scan collects, and whether standbys are used.
unfoldable pub scan : Balancer → (ℕ → Server) → ℕ → List ℕ × Bool
scan b slots n =
    let first = indices (λ i. first_pass b (slots i)) n 0 in
    let second = indices (λ i. second_pass b (slots i)) n 0 in
    if is_empty first then (second, not (is_empty second)) else (first, false)

-- `next_member` is replaced when it is invalid, and when it is a standby though none is needed.
unfoldable pub settle_member : Balancer → Selection → Selection
settle_member b s = elim (verify_server b (b.members s.next_member)) [
  | invalid ↦ record s { next_member = get_or s.available_members 0 0 }
  | standby ↦
      if s.using_member_standby
      then s
      else record s { next_member = get_or s.available_members 0 0 }
  | valid ↦ s
]

-- The same for `next_clone`; but where the current clone is a standby, the code tests
-- `using_member_standby` and sets `next_member`.
unfoldable pub settle_clone : Balancer → Selection → Selection
settle_clone b s = elim (verify_server b (b.clones s.next_clone)) [
  | invalid ↦ record s { next_clone = get_or s.available_clones 0 0 }
  | standby ↦
      if s.using_member_standby
      then s
      else record s { next_member = get_or s.available_members 0 0 }
  | valid ↦ s
]

unfoldable pub scan_clones : Balancer → Selection → Selection
scan_clones b s =
    let (cs, spare) = scan b b.clones b.nclones in
    let s' = record s { available_clones = cs; using_clone_standby = spare } in
    if is_empty cs then s' else settle_clone b (record s' { use_clone = true })

-- The globals as the function resets them, with the members that the scans found.
unfoldable pub reset : Balancer → Selection → Selection
reset b s =
    let (ms, spare) = scan b b.members b.nmembers in
    record s {
      available_members = ms;
      available_clones = [];
      use_clone = false;
      using_member_standby = spare;
      using_clone_standby = false;
    }

abbrev pub is_on : CloneMode → Bool
is_on on = true
is_on _ = false

-- The flag is false where the function returns -1: no member may take a connection.
unfoldable pub get_available_servers : Balancer → Selection → Bool × Selection
get_available_servers b s =
    let s' = reset b s in
    if is_empty s'.available_members then (false, s') else (
      true,
      if is_on b.clone_mode then scan_clones b (settle_member b s') else settle_member b s',
    )
