-- ===== src/MoveString.antt =====
-- aptos-agent-framework/framework/move-stdlib/src/natives/string.rs: natives on the bytes of UTF-8 texts.
pub mod Find
pub mod Boundaries
pub mod Outcomes
mod Tests
use aip_aptos_agent_framewor.Prelude.{
  ℕ, zero, suc, ◌+◌, ◌-◌, ◌*◌, List, [], ◌∷◌, Bool, true, false, Option, none, some, not, ◌&&◌,
  ◌||◌, ltb, leb, ◌==◌, if◌then◌else◌, length, take, drop, get_elem?,
}
use aip_aptos_agent_framewor.Text.{Bytes, is_utf8}
use aip_aptos_agent_framewor.Native.{
  Native, Meter, abort, panic, ok, err, pure, lift, guard, charge, ◌>>=◌, ◌>>◌,
}

pub record StringParams : Type 0 where
  pub check_utf8_base : ℕ
  pub check_utf8_per_byte : ℕ
  pub is_char_boundary_base : ℕ
  pub sub_string_base : ℕ
  pub sub_string_per_byte : ℕ
  pub index_of_base : ℕ
  pub index_of_per_byte_pattern : ℕ
  pub index_of_per_byte_searched : ℕ

abbrev pub is_continuation : ℕ → Bool
is_continuation b = leb 0x80 b && leb b 0xbf

abbrev pub starts_char : Bytes → Bool
starts_char [] = true
starts_char (b ∷ bs) = not (is_continuation b)

-- `str::is_char_boundary`: the start, the end, or the first byte of a character.
unfoldable pub is_char_boundary : Bytes → ℕ → Bool
is_char_boundary s i = i == 0 || leb i (length s) && starts_char (drop i s)

-- `str::find`, where `str` is searched byte by byte: the first position at which the pattern stands.
unfoldable pub starts_with : Bytes → Bytes → Bool
starts_with s [] = true
starts_with [] (c ∷ r) = false
starts_with (b ∷ s) (c ∷ r) = b == c && starts_with s r

abbrev next_position : Option ℕ → Option ℕ
next_position none = none
next_position (some n) = some (suc n)

unfoldable pub find : Bytes → Bytes → Option ℕ
unfolding starts_with
find [] r = if starts_with [] r then some 0 else none
find (b ∷ s) r =
    let rest = next_position (find s r) in if starts_with (b ∷ s) r then some 0 else rest

-- `s_str[i..j]`, which panics where the range is not one of characters.
unfoldable pub slice : Bytes → ℕ → ℕ → Option Bytes
unfolding is_char_boundary
slice s i j =
    if leb i j && is_char_boundary s i && is_char_boundary s j
    then some (take (j - i) (drop i s))
    else none

abbrev position_or_end : Option ℕ → Bytes → ℕ
position_or_end (some n) s = n
position_or_end none s = length s

module _ {G : Type 0} (meter : Meter G) (gas : StringParams) where
  unfoldable pub native_check_utf8 : Bytes → Native G (Unit {0}) Bool
  unfolding charge is_utf8
  native_check_utf8 s = do
    charge meter (gas.check_utf8_base + gas.check_utf8_per_byte * length s)
    pure (is_utf8 s)

  unfoldable pub native_is_char_boundary : Bytes → ℕ → Native G (Unit {0}) Bool
  unfolding charge is_char_boundary
  native_is_char_boundary s i = do
    charge meter gas.is_char_boundary_base
    pure (is_char_boundary s i)

  abbrev pub sliced : Option Bytes → Native G (Unit {0}) Bytes
  sliced none = lift (err panic)
  sliced (some v) = pure v

  unfoldable pub native_sub_string : Bytes → ℕ → ℕ → Native G (Unit {0}) Bytes
  unfolding charge slice
  native_sub_string s i j = do
    charge meter gas.sub_string_base
    guard (not (ltb j i)) (abort 1)
    charge meter (gas.sub_string_per_byte * (j - i))
    sliced (slice s i j)

  unfoldable pub native_index_of : Bytes → Bytes → Native G (Unit {0}) ℕ
  unfolding charge find
  native_index_of s r = do
    charge meter gas.index_of_base
    charge meter (gas.index_of_per_byte_pattern * length r)
    let pos = position_or_end (find s r) s
    charge meter (gas.index_of_per_byte_searched * pos)
    pure pos
