-- ===== src/Aggregator/Bounds.antt =====
-- Aggregators whose value is stored in the aggregator: what the natives return, and that the value
-- keeps its bound.
use aip_aptos_agent_framewor.Prelude.{
  ℕ, ◌+◌, ◌-◌, ◌≤◌, ◌<◌, ◌^◌, Bool, true, false, none, some, ◌≡◌, refl, arith, leb, ltb,
  if◌then◌else◌, Bool-cases, Option-cases, inl, inr,
}
use aip_aptos_agent_framewor.Native.{Native, Meter, Session, ok, pure, charge, ◌>>=◌, ◌>>◌}
use aip_aptos_agent_framewor.Aggregator.{
  Ty, u64, u128, other, Field, Aggregator, Delayed, AggregatorContext, AggregatorGas,
  native_try_add, native_try_sub, native_read,
}

-- The integer types.
abbrev pub IsInteger : Ty → Type 0
IsInteger u64 = Unit
IsInteger u128 = Unit
IsInteger other = ⊥

-- The greatest number of the type, and one more.
abbrev pub limit : Ty → ℕ
limit u64 = 2 ^ 64
limit u128 = 2 ^ 128
limit other = 0

-- The documented results of the bounded arithmetic and of the conversion.
pub record IsBounded {Data Ident : Type 0} (fields : Delayed Data Ident) : Type 0 where
  pub add :
      (max a b : ℕ) → fields.unsigned_add max a b ≡ (if leb (a + b) max then some (a + b) else none)
  pub subtract :
      (max a b : ℕ) → fields.unsigned_subtract max a b ≡ (if leb b a then some (a - b) else none)
  pub convert : (n : ℕ) → n < 2 ^ 64 → fields.u128_to_u64 n ≡ ok n

-- An aggregator that stores its value.
abbrev pub holding : {Ident : Type 0} → ℕ → ℕ → Aggregator Ident
holding value max_value = record { value = Field.number value; max_value = max_value }

-- What an addition and a subtraction make of an aggregator.
abbrev pub added : {Ident : Type 0} → ℕ → ℕ → ℕ → Bool × Aggregator Ident
added value max rhs =
    if leb (value + rhs) max then (true, holding (value + rhs) max) else (false, holding value max)

abbrev pub subtracted : {Ident : Type 0} → ℕ → ℕ → ℕ → Bool × Aggregator Ident
subtracted value max rhs =
    if leb rhs value then (true, holding (value - rhs) max) else (false, holding value max)

-- A charge and a result.
abbrev pub pay : {G C A : Type 0} → Meter G → ℕ → A → Native G C A
pay meter amount a = do charge meter amount; pure a

module _ {G Data Ident : Type 0} (fields : Delayed Data Ident) (meter : Meter G)
    (gas : AggregatorGas) where
  -- Where aggregators are stored as values, `try_add` pays and adds exactly where the sum is at most
  -- the maximum, and otherwise leaves the aggregator alone. The maximum is a number of the type.
  pub try_add_lem :
      (ty : Ty) (value max rhs : ℕ) (s : Session G (AggregatorContext Data))
      → IsBounded fields
      → IsInteger ty
      → max < limit ty
      → s.ctx.delayed_field_optimization_enabled ≡ false
      → native_try_add fields meter gas ty (holding value max) rhs s
        ≡ pay meter gas.try_add_base (added value max rhs) s
  unfolding native_try_add ◌>>=◌
  try_add_lem u64 value max rhs s bounded integer fits off =
      elim (Option-cases (meter gas.try_add_base s.gas)) [
        | inl short ↦ rw short refl
        | inr (left, enough) ↦
            rw (enough, off, bounded.add max value rhs)
              (elim (Bool-cases (leb (value + rhs) max)) [
                | inl fit ↦ rw (fit, bounded.convert (value + rhs) (ground arith)) refl
                | inr over ↦ rw over refl
              ])
      ]
  try_add_lem u128 value max rhs s bounded integer fits off =
      elim (Option-cases (meter gas.try_add_base s.gas)) [
        | inl short ↦ rw short refl
        | inr (left, enough) ↦
            rw (enough, off, bounded.add max value rhs)
              (elim (Bool-cases (leb (value + rhs) max)) [
                | inl fit ↦ rw fit refl
                | inr over ↦ rw over refl
              ])
      ]
  try_add_lem other value max rhs s bounded integer fits off = absurd integer

  -- Where aggregators are stored as values, `try_sub` pays and subtracts exactly where the value is at
  -- least the argument, and otherwise leaves the aggregator alone. The value is at most the maximum, a
  -- number of the type.
  pub try_sub_lem :
      (ty : Ty) (value max rhs : ℕ) (s : Session G (AggregatorContext Data))
      → IsBounded fields
      → IsInteger ty
      → value ≤ max
      → max < limit ty
      → s.ctx.delayed_field_optimization_enabled ≡ false
      → native_try_sub fields meter gas ty (holding value max) rhs s
        ≡ pay meter gas.try_sub_base (subtracted value max rhs) s
  unfolding native_try_sub ◌>>=◌
  try_sub_lem u64 value max rhs s bounded integer below fits off =
      elim (Option-cases (meter gas.try_sub_base s.gas)) [
        | inl short ↦ rw short refl
        | inr (left, enough) ↦
            rw (enough, off, bounded.subtract max value rhs)
              (elim (Bool-cases (leb rhs value)) [
                | inl fit ↦ rw (fit, bounded.convert (value - rhs) (ground arith)) refl
                | inr over ↦ rw over refl
              ])
      ]
  try_sub_lem u128 value max rhs s bounded integer below fits off =
      elim (Option-cases (meter gas.try_sub_base s.gas)) [
        | inl short ↦ rw short refl
        | inr (left, enough) ↦
            rw (enough, off, bounded.subtract max value rhs)
              (elim (Bool-cases (leb rhs value)) [
                | inl fit ↦ rw fit refl
                | inr over ↦ rw over refl
              ])
      ]
  try_sub_lem other value max rhs s bounded integer below fits off = absurd integer

  -- Where aggregators are stored as values, `read` pays and returns the value, which is at most the
  -- maximum, a number of the type.
  pub read_lem :
      (ty : Ty) (value max : ℕ) (s : Session G (AggregatorContext Data))
      → IsBounded fields
      → IsInteger ty
      → value ≤ max
      → max < limit ty
      → s.ctx.delayed_field_optimization_enabled ≡ false
      → native_read fields meter gas ty (holding value max) s ≡ pay meter gas.read_base value s
  unfolding native_read ◌>>=◌
  read_lem u64 value max s bounded integer below fits off =
      elim (Option-cases (meter gas.read_base s.gas)) [
        | inl short ↦ rw short refl
        | inr (left, enough) ↦
            let fine : ltb max value ≡ false = ground arith in
            rw (enough, off, fine, bounded.convert value (omega arith)) refl
      ]
  read_lem u128 value max s bounded integer below fits off =
      elim (Option-cases (meter gas.read_base s.gas)) [
        | inl short ↦ rw short refl
        | inr (left, enough) ↦
            let fine : ltb max value ≡ false = ground arith in rw (enough, off, fine) refl
      ]
  read_lem other value max s bounded integer below fits off = absurd integer
