-- ===== src/MoveVector/Tests.antt =====
-- A move between two small vectors.
use aip_aptos_agent_framewor.Prelude.{ℕ, ◌+◌, List, [], ◌∷◌, ◌++◌, take, drop, true, ◌≡◌, arith}
use aip_aptos_agent_framewor.Native.{Session, Result, ok}
use aip_aptos_agent_framewor.Native.Rules.{countdown}
use aip_aptos_agent_framewor.MoveVector.{VectorGas, Vectors, native_move_range}
use aip_aptos_agent_framewor.MoveVector.Ranges.{expected, move_range_lem}

abbrev move_range : List ℕ → ℕ → ℕ → List ℕ → ℕ → Result (Vectors ℕ)
move_range from removal_position len to insert_position = ok (
  take removal_position from ++ drop (removal_position + len) from,
  take insert_position to ++ take len (drop removal_position from) ++ drop insert_position to,
)

abbrev unavailable : ℕ → ℕ
unavailable reason = 0xd0000 + reason

abbrev gas : VectorGas
gas = record { move_range_base = 4; move_range_per_index_moved = 2 }

abbrev session : Session ℕ (Unit {0})
session = record { gas = 100; ctx = tt }

move_range_example :
    native_move_range move_range unavailable true countdown gas
      (1 ∷ 2 ∷ 3 ∷ [])
      1
      2
      (7 ∷ [])
      1
      session
    ≡ expected move_range unavailable countdown gas true (1 ∷ 2 ∷ 3 ∷ []) 1 2 (7 ∷ []) 1 session
move_range_example =
    move_range_lem move_range unavailable countdown gas (1 ∷ 2 ∷ 3 ∷ []) 1 2 (7 ∷ []) 1 session
      (omega arith)
