-- ===== src/Select/Hash.antt =====
-- `set_static_server` and `set_hash_server` of src/algorithms.c.
pub mod Accounting
pub mod Counts
pub mod Sticky
use octopuslb.Base.{
  ℕ, ◌%◌, Bool, true, false, Option, none, some, List, if◌then◌else◌, update, get_or, length, ℤ,
  pos, negsuc, pos_part, eq_ℤ, to_short, inc_ushort, dec_ushort,
}
use octopuslb.Balancer.{Server, Balancer, hash_val_free}
use octopuslb.Select.{Selection, Verdict, invalid, standby, valid, verify_server}
use octopuslb.Select.Uri.{Uri, no_uri, null_result, overrun, slot, request_uri}
use octopuslb.Select.Least.{set_lc_server}

-- `none` stands for the call of `strlen` with the NULL that `strtok` returns, and for the search past
-- the end of `request_line`.
unfoldable pub set_static_server : Balancer → Selection → List ℕ → Option Selection
set_static_server b s buffer = elim (request_uri buffer) [
  | no_uri ↦ some (set_lc_server b s)
  | null_result ↦ none
  | overrun ↦ none
  | slot hash ↦ some (record s {
    next_member = get_or s.available_members (hash % length s.available_members) 0;
    next_clone =
        if s.use_clone
        then get_or s.available_clones (hash % length s.available_clones) 0
        else s.next_clone;
  })
]

abbrev pub gain_hash : Server → Server
gain_hash s = record s { hash_table_usage = inc_ushort s.hash_table_usage }

abbrev pub lose_hash : Server → Server
lose_hash s = record s { hash_table_usage = dec_ushort s.hash_table_usage }

-- `slots[i]` replaced by `f` of it.
abbrev pub modify : (Server → Server) → ℕ → (ℕ → Server) → ℕ → Server
modify f i slots = update slots i (f (slots i))

-- HASH MISS: the least connected server gets the slot.
unfoldable pub assign : ℕ → Balancer → Selection → Balancer × Selection
assign hash b s =
    let s' = set_lc_server b s in
    (
      record b {
        members = modify gain_hash s'.next_member b.members;
        hash_table = update b.hash_table hash (to_short s'.next_member);
      },
      s',
    )

-- The server of the slot may not be used: the slot goes to the least connected one.
unfoldable pub reassign : ℕ → ℕ → Balancer → Selection → Balancer × Selection
reassign hash old b s =
    let s' = set_lc_server b s in
    (
      record b {
        members = modify gain_hash s'.next_member (modify lose_hash old b.members);
        hash_table = update b.hash_table hash (to_short s'.next_member);
      },
      s',
    )

-- HASH HIT on a server that may be used.
unfoldable pub reuse : ℕ → ℕ → Balancer → Selection → Selection
reuse hash old b s = record s {
  next_member = (b.members old).id;
  next_clone =
      if s.use_clone
      then get_or s.available_clones (hash % length s.available_clones) 0
      else s.next_clone;
}

-- May the server of the slot be used: a normal one, or a standby while standbys are in use.
unfoldable pub usable : Balancer → Selection → Server → Bool
usable b s t = elim (verify_server b t) [
  | valid ↦ true
  | standby ↦ s.using_member_standby
  | invalid ↦ false
]

unfoldable pub set_hash_slot : ℕ → Balancer → Selection → Balancer × Selection
set_hash_slot hash b s =
    let old = pos_part (b.hash_table hash) in
    if eq_ℤ (b.hash_table hash) hash_val_free
    then assign hash b s
    else if usable b s (b.members old)
    then (b, reuse hash old b s)
    else reassign hash old b s

unfoldable pub set_hash_server : Balancer → Selection → List ℕ → Option (Balancer × Selection)
set_hash_server b s buffer = elim (request_uri buffer) [
  | no_uri ↦ some (b, set_lc_server b s)
  | null_result ↦ none
  | overrun ↦ none
  | slot hash ↦ some (set_hash_slot hash b s)
]
