-- ===== src/Admin/Scan.antt =====
-- `cmd_scan_for_instances` and `connect_to_shm` of src/admin.c, with the system's answers as
-- arguments.
pub mod Outcome
use octopuslb.Base.{
  ℕ, zero, suc, ◌<◌, arith, Bool-cases, ◌-◌, ◌≡◌, ◌⊎◌, inl, inr, refl, Bool, true, false, ◌||◌,
  ◌&&◌, Option, none, some, List, [], ◌∷◌, ltb, ltb_ℤ, leb_ℤ, if◌then◌else◌, if_split, Option-cases,
  ℤ, pos, negsuc, length, pos_part, not,
}
use octopuslb.Balancer.{Balancer}
use octopuslb.Config.{read_int}
use octopuslb.Admin.{Admin}
use octopuslb.Admin.Console.{Errno, Console, Round, next, quit, scans, kills, crash, accept}

-- What `shmget` answers: the segment, EACCES (and whether the second call, which only reads, gets it),
-- or another error.
pub data Segment : Type 0 where
  granted : Segment
  denied : (readable : Bool) → Segment
  missing : Segment

-- The shared memory that `shmat` attaches: the balancer, whether the versions are the same, and
-- `alive`.
pub record Attached : Type 0 where
  pub balancer : Balancer
  pub same_version : Bool
  pub alive : Bool

-- A file of the run directory: `stat` and `ftok` succeed or not, and what its key leads to.
pub record Instance : Type 0 where
  pub is_there : Bool
  pub has_key : Bool
  pub segment : Segment
  pub attach : (readonly : Bool) → Option Attached

-- False is `exit(-1)`. The globals are set before the last tests, so that an exit leaves them changed.
unfoldable pub attach_shm : (ignore_version : Bool) → Instance → Admin → Bool × Admin
attach_shm ignore_version file a = elim (file.attach a.readonly) [
  | none ↦ (false, a)
  | some m ↦ ((m.same_version || ignore_version) && m.alive, record a { balancer = m.balancer })
]

unfoldable pub connect_to_shm : (ignore_version : Bool) → Instance → Admin → Bool × Admin
connect_to_shm ignore_version file a =
    if file.is_there && file.has_key
    then elim file.segment [
      | granted ↦ attach_shm ignore_version file a
      | denied readable ↦
          if readable
          then attach_shm ignore_version file (record a { readonly = true })
          else (false, a)
      | missing ↦ (false, a)
    ]
    else (false, a)

-- MAXBALANCERS.
abbrev pub max_balancers : ℕ
max_balancers = 512

abbrev pub nth : List Instance → ℕ → Option Instance
nth [] i = none
nth (x ∷ xs) zero = some x
nth (x ∷ xs) (suc i) = nth xs i

-- Only one file is taken at once; of several the user types the number. `exit(1)` is `none`.
unfoldable pub chosen : List Instance → (input : List ℕ) → Option Instance
chosen [] input = none
chosen (x ∷ []) input = some x
chosen files input =
    let n = read_int 10 input in
    if ltb_ℤ (pos (length files)) n || leb_ℤ n (pos 0) then none else nth files (pos_part n - 1)

-- The command after `readonly` was set to 0, with `errno` at its end. The list of files is an array
-- of MAXBALANCERS.
unfoldable pub cmd_scan_for_instances :
    (ignore_version : Bool) → List Instance → (input : List ℕ) → Errno → Console → Round
cmd_scan_for_instances ignore_version files input errno c =
    if ltb max_balancers (length files) then crash else elim (chosen files input) [
      | none ↦ quit (pos 1) c
      | some file ↦
          let (ok, a) = connect_to_shm ignore_version file c.admin in
          if ok
          then accept (record c { admin = a; errno = errno })
          else quit (negsuc 0) (record c { admin = a })
    ]
