-- ===== src/MoveVector.antt =====
-- aptos-agent-framework/framework/move-stdlib/src/natives/vector.rs: moving a range of items from one
-- vector to another.
pub mod Ranges
mod Tests
use aip_aptos_agent_framewor.Prelude.{
  ℕ, ◌+◌, ◌-◌, ◌*◌, ◌^◌, List, Bool, true, false, Option, none, some, not, ◌||◌, length, ltb,
  if◌then◌else◌,
}
use aip_aptos_agent_framewor.Native.{
  Native, Meter, Session, Result, abort, ok, err, pure, lift, guard, charge, ◌>>=◌, ◌>>◌,
}
use aip_aptos_agent_framewor.Native.Results.{ok_or}

abbrev pub e_index_out_of_bounds : ℕ
e_index_out_of_bounds = 1

abbrev pub e_feature_not_enabled : ℕ
e_feature_not_enabled = 2

pub record VectorGas : Type 0 where
  pub move_range_base : ℕ
  pub move_range_per_index_moved : ℕ

-- `usize::checked_add`, where `usize` has 64 bits.
abbrev pub checked_add : ℕ → ℕ → Option ℕ
checked_add a b = if ltb (a + b) (2 ^ 64) then some (a + b) else none

-- `is_none_or(|end| end > from_len)`
abbrev pub is_beyond : Option ℕ → ℕ → Bool
is_beyond none from_len = true
is_beyond (some end) from_len = ltb from_len end

abbrev pub and_add : Option ℕ → ℕ → Option ℕ
and_add none b = none
and_add (some a) b = checked_add a b

-- The vectors `from` and `to`, which are not the same vector.
abbrev pub Vectors : Type 0 → Type 0
Vectors V = List V × List V

-- `move_range` is `VectorRef::move_range`, and `unavailable` is that of the `error` module. The
-- arguments are `u64`, each of which fits `usize`. The vectors are returned.
module _ {G V : Type 0} (move_range : List V → ℕ → ℕ → List V → ℕ → Result (Vectors V))
    (unavailable : ℕ → ℕ) (is_enabled : Bool) (meter : Meter G) (gas : VectorGas) where
  unfoldable pub native_move_range : List V → ℕ → ℕ → List V → ℕ → Native G (Unit {0}) (Vectors V)
  unfolding charge
  native_move_range from removal_position len to insert_position = do
    guard is_enabled (abort (unavailable e_feature_not_enabled))
    charge meter gas.move_range_base
    let to_len = length to
    let from_len = length from
    guard
        (not (is_beyond (checked_add removal_position len) from_len || ltb to_len insert_position))
        (abort e_index_out_of_bounds)
    num_moved ← lift (
        ok_or (and_add (checked_add (from_len - removal_position) (to_len - insert_position)) len)
          (abort e_index_out_of_bounds))
    charge meter (gas.move_range_per_index_moved * num_moved)
    lift (move_range from removal_position len to insert_position)
