-- ===== src/Session/Epoll.antt =====
-- The calls of epoll_ctl and close that src/octopus.c makes, on the set of watched descriptors.
use octopuslb.Base.{ℕ, ◌≡◌, ◌≢◌, Bool, true, false, Option, none, some, update, arith}
use octopuslb.Session.{Interest, null_ev, ro_ev, wr_ev, rw_ev}

-- EPOLL_CTL_MOD: fails, without effect, on -1 and on a descriptor that is not watched.
unfoldable pub epoll_mod : Option ℕ → Interest → (ℕ → Option Interest) → ℕ → Option Interest
epoll_mod none i set = set
epoll_mod (some fd) i set = elim (set fd) [ none ↦ set | some _ ↦ update set fd (some i) ]

-- A successful EPOLL_CTL_ADD.
abbrev pub epoll_add : ℕ → Interest → (ℕ → Option Interest) → ℕ → Option Interest
epoll_add fd i set = update set fd (some i)

-- A closed descriptor leaves the set.
abbrev pub epoll_close : ℕ → (ℕ → Option Interest) → ℕ → Option Interest
epoll_close fd set = update set fd none

-- The mask for reading and writing.
abbrev pub mask : Bool → Bool → Interest
mask true true = rw_ev
mask false true = wr_ev
mask true false = ro_ev
mask false false = null_ev

-- A change of mask reaches the watched descriptor and no other.
pub epoll_mod_self :
    (fd : ℕ) (i j : Interest) (set : ℕ → Option Interest)
    → set fd ≡ some j
    → epoll_mod (some fd) i set fd ≡ some i
unfolding epoll_mod
epoll_mod_self fd i j set h = rw (h, epoll_mod) (ground arith)

pub epoll_mod_ne :
    (fd k : ℕ) (i : Interest) (set : ℕ → Option Interest)
    → fd ≢ k
    → epoll_mod (some fd) i set k ≡ set k
unfolding epoll_mod
epoll_mod_ne fd k i set h = ground arith
