-- ===== src/Config/Trim.antt =====
-- `trim_white_space` of src/config.c.
pub mod Outcome
pub mod Words
use octopuslb.Base.{
  ℕ, zero, suc, ◌+◌, ◌-◌, Bool, true, false, List, [], ◌∷◌, if◌then◌else◌, length, take, get_or,
  is_empty,
}
use octopuslb.Text.{is_space, skip_space}

-- `while (end > str && isspace(*end)) end--`, with `end` as its distance from `str`.
unfoldable pub back_up : List ℕ → ℕ → ℕ
back_up s zero = zero
back_up s (suc end) =
    let r = back_up s end in if is_space (get_or s (suc end) 0) then r else suc end

unfoldable pub trim_white_space : List ℕ → List ℕ
unfolding back_up
trim_white_space str =
    let s = skip_space str in if is_empty s then s else take (back_up s (length s - 1) + 1) s
