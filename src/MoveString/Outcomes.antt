-- ===== src/MoveString/Outcomes.antt =====
-- What `native_sub_string` does where the gas suffices.
use aip_aptos_agent_framewor.Prelude.{
  ℕ, ◌+◌, ◌-◌, ◌*◌, ◌≤◌, ◌&&◌, ◌≡◌, arith, take, drop, ltb, if◌then◌else◌,
}
use aip_aptos_agent_framewor.Text.{Bytes}
use aip_aptos_agent_framewor.Native.{Session, ok, err, abort, panic, ◌>>=◌, charge}
use aip_aptos_agent_framewor.Native.Rules.{countdown}
use aip_aptos_agent_framewor.MoveString.{StringParams, is_char_boundary, slice, native_sub_string}

module _ (gas : StringParams) where
  -- Where the gas suffices for the range, the native ends: a range whose end is before its start aborts,
  -- one between boundaries of characters gives the bytes in it, and any other panics.
  pub native_sub_string-ends :
      (s : Bytes) (i j : ℕ) (session : Session ℕ (Unit {0}))
      → gas.sub_string_base + gas.sub_string_per_byte * (j - i) ≤ session.gas
      → (native_sub_string countdown gas s i j session).0 ≡ (
          if ltb j i
          then err (abort 1)
          else if is_char_boundary s i && is_char_boundary s j
          then ok (take (j - i) (drop i s))
          else err panic)
  unfolding native_sub_string slice ◌>>=◌ charge
  native_sub_string-ends s i j session enough = ground arith
