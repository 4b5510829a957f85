-- ===== src/Text/Decimal.antt =====
-- `Display` of the unsigned integers.
use aip_aptos_agent_framewor.Prelude.{ℕ, zero, suc, ◌+◌, ◌/◌, ◌%◌, List, [], ◌∷◌, true, false, ◌==◌}

-- The digits of `n`, the last one first, before `out`; the fuel bounds their number.
unfoldable pub digits : ℕ → ℕ → List ℕ → List ℕ
digits zero n out = out
digits (suc fuel) n out = elim (n / 10 == 0) [
  | true ↦ (b'0' + n % 10) ∷ out
  | false ↦ digits fuel (n / 10) ((b'0' + n % 10) ∷ out)
]

-- A number below 2 ^ 256 has at most 78 digits.
unfoldable pub decimal : ℕ → List ℕ
unfolding digits
decimal n = digits 78 n []
