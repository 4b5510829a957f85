-- ===== src/MoveVector/Ranges.antt =====
-- The outcome of a move on every branch.
use aip_aptos_agent_framewor.Prelude.{
  ℕ, ◌+◌, ◌-◌, ◌*◌, ◌^◌, ◌<◌, List, Bool, true, false, ◌&&◌, length, leb, ltb, ◌≡◌, refl, arith,
  Bool-cases, Option-cases, inl, inr,
}
use aip_aptos_agent_framewor.Native.{
  Native, Meter, Session, Result, abort, raise, lift, charge, ◌>>=◌, ◌>>◌,
}
use aip_aptos_agent_framewor.MoveVector.{
  VectorGas, Vectors, e_index_out_of_bounds, native_move_range,
}

module _ {G V : Type 0} (move_range : List V → ℕ → ℕ → List V → ℕ → Result (Vectors V))
    (unavailable : ℕ → ℕ) (meter : Meter G) (gas : VectorGas) where
  -- What a move within the bounds, or outside of them, pays and does.
  abbrev pub expected : Bool → List V → ℕ → ℕ → List V → ℕ → Native G (Unit {0}) (Vectors V)
  expected true from removal_position len to insert_position = do
    charge meter gas.move_range_base
    charge meter (
        gas.move_range_per_index_moved
        * (length from - removal_position + (length to - insert_position) + len))
    lift (move_range from removal_position len to insert_position)
  expected false from removal_position len to insert_position = do
    charge meter gas.move_range_base
    raise (abort e_index_out_of_bounds)

  abbrev pub is_within : List V → ℕ → ℕ → List V → ℕ → Bool
  is_within from removal_position len to insert_position =
      leb (removal_position + len) (length from) && leb insert_position (length to)

  -- With the feature, and vectors whose lengths together are below 2 ^ 62, a move whose range is in
  -- `from` and whose position is in `to` pays for the items behind both positions and for the range,
  -- and moves; any other pays its base and aborts as out of bounds.
  pub move_range_lem :
      (from : List V) (removal_position len : ℕ) (to : List V) (insert_position : ℕ)
      (s : Session G (Unit {0}))
      → length from + length to < 2 ^ 62
      → native_move_range move_range unavailable true meter gas from removal_position len to
          insert_position s
        ≡ expected
            (is_within from removal_position len to insert_position)
            from
            removal_position
            len
            to
            insert_position
            s
  unfolding native_move_range charge ◌>>=◌
  move_range_lem from removal_position len to insert_position s small =
      elim (Option-cases (meter gas.move_range_base s.gas)) [
        | inl short ↦ rw short (ground arith)
        | inr (left, enough) ↦
            rw enough
              (elim (Bool-cases
                (leb (removal_position + len) (length from) && leb insert_position (length to))) [
                  | inl within ↦
                      let fits : ltb (removal_position + len) (2 ^ 64) ≡ true = ground arith in
                      let in_from : ltb (length from) (removal_position + len) ≡ false =
                        ground arith in
                      let in_to : ltb (length to) insert_position ≡ false = ground arith in
                      let first : ltb
                            (length from - removal_position + (length to - insert_position))
                            (2 ^ 64)
                          ≡ true =
                        ground arith in
                      let second : ltb
                            (length from - removal_position + (length to - insert_position) + len)
                            (2 ^ 64)
                          ≡ true =
                        ground arith in
                      rw (within, enough, fits, in_from, in_to, first, second) refl
                  | inr beyond ↦ rw (beyond, enough) (ground arith)
                ])
      ]
