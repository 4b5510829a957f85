-- ===== src/Aggregator/History.antt =====
-- A row of additions, subtractions and one read of an aggregator that stores its value.
use aip_aptos_agent_framewor.Prelude.{
  ℕ, ◌+◌, ◌-◌, ◌≤◌, ◌<◌, List, [], ◌∷◌, Bool, false, ◌≡◌, refl, sym, ◌∙◌, ap, arith, leb,
  if◌then◌else◌,
}
use aip_aptos_agent_framewor.Native.{Native, Meter, Session, ok, charge, ◌>>=◌}
use aip_aptos_agent_framewor.Native.Rules.{>>=-eq-ok}
use aip_aptos_agent_framewor.Aggregator.{
  Ty, Aggregator, Delayed, AggregatorContext, AggregatorGas, native_try_add, native_try_sub,
  native_read,
}
use aip_aptos_agent_framewor.Aggregator.Bounds.{
  IsBounded, IsInteger, limit, holding, added, subtracted, pay, try_add_lem, try_sub_lem, read_lem,
}

pub data Change : Type 0 where
  add sub : ℕ → Change

-- The number that the changes make of a number below a maximum: a change that would leave the bounds
-- is left out.
pub replay : ℕ → ℕ → List Change → ℕ
replay max value [] = value
replay max value (add rhs ∷ changes) =
    let next = if leb (value + rhs) max then value + rhs else value in replay max next changes
replay max value (sub rhs ∷ changes) =
    let next = if leb rhs value then value - rhs else value in replay max next changes

pay-ok :
    {G C A : Type 0} (meter : Meter G) (amount : ℕ) (a : A) (s : Session G C) {b : A}
    → (pay meter amount a s).0 ≡ ok b
    → (a ≡ b) × ((pay meter amount a s).1.ctx ≡ s.ctx)
unfolding charge ◌>>=◌
pay-ok meter amount a s h = ground arith

module _ {G Data Ident : Type 0} (fields : Delayed Data Ident) (meter : Meter G)
    (gas : AggregatorGas) where
  abbrev Act : Type 0 → Type 0
  Act A = Native G (AggregatorContext Data) A

  abbrev pub change : Ty → Change → Aggregator Ident → Act (Bool × Aggregator Ident)
  change ty (add rhs) a = native_try_add fields meter gas ty a rhs
  change ty (sub rhs) a = native_try_sub fields meter gas ty a rhs

  -- The changes in a row, and a read.
  unfoldable pub run : Ty → List Change → Aggregator Ident → Act ℕ
  run ty [] a = native_read fields meter gas ty a
  run ty (c ∷ changes) a = do (success, b) ← change ty c a; run ty changes b

  abbrev next : ℕ → ℕ → Change → ℕ
  next max value (add rhs) = if leb (value + rhs) max then value + rhs else value
  next max value (sub rhs) = if leb rhs value then value - rhs else value

  next-le : (max value : ℕ) (c : Change) → value ≤ max → next max value c ≤ max
  next-le max value (add rhs) below = ground arith
  next-le max value (sub rhs) below = ground arith

  replay-next :
      (max value : ℕ) (c : Change) (changes : List Change)
      → replay max value (c ∷ changes) ≡ replay max (next max value c) changes
  unfolding replay
  replay-next max value (add rhs) changes = refl
  replay-next max value (sub rhs) changes = refl

  change-ok :
      (ty : Ty) (max value : ℕ) (c : Change) (s : Session G (AggregatorContext Data))
      {r : Bool × Aggregator Ident}
      → IsBounded fields
      → IsInteger ty
      → value ≤ max
      → max < limit ty
      → s.ctx.delayed_field_optimization_enabled ≡ false
      → (change ty c (holding value max) s).0 ≡ ok r
      → (r.1 ≡ holding (next max value c) max) × ((change ty c (holding value max) s).1.ctx ≡ s.ctx)
  change-ok ty max value (add rhs) s {r} bounded integer below fits off h =
      let e = try_add_lem fields meter gas ty value max rhs s bounded integer fits off in
      let (same, ctx) =
        pay-ok meter gas.try_add_base (added value max rhs) s (sym (ap (λ x. x.0) e) ∙ h) in
      (ground (arith, same), ap (λ x. x.1.ctx) e ∙ ctx)
  change-ok ty max value (sub rhs) s {r} bounded integer below fits off h =
      let e = try_sub_lem fields meter gas ty value max rhs s bounded integer below fits off in
      let (same, ctx) =
        pay-ok meter gas.try_sub_base (subtracted value max rhs) s (sym (ap (λ x. x.0) e) ∙ h) in
      (ground (arith, same), ap (λ x. x.1.ctx) e ∙ ctx)

  -- Where aggregators are stored as values, a row of `try_add` and `try_sub` that ends in a `read` and
  -- returns, returns the number that the changes make of the first value, and that number is at
  -- most the maximum. The first value is at most the maximum, a number of the type.
  pub run-replay :
      (ty : Ty) (max value : ℕ) (changes : List Change) (s : Session G (AggregatorContext Data))
      {n : ℕ}
      → IsBounded fields
      → IsInteger ty
      → value ≤ max
      → max < limit ty
      → s.ctx.delayed_field_optimization_enabled ≡ false
      → (run ty changes (holding value max) s).0 ≡ ok n
      → (n ≡ replay max value changes) × (n ≤ max)
  unfolding run replay
  run-replay ty max value [] s bounded integer below fits off h =
      let e = read_lem fields meter gas ty value max s bounded integer below fits off in
      let (same, ctx) = pay-ok meter gas.read_base value s (sym (ap (λ x. x.0) e) ∙ h) in
      (sym same, omega arith)
  run-replay ty max value (c ∷ changes) s {n} bounded integer below fits off h =
      let (r, h1, rest, e) = >>=-eq-ok (change ty c (holding value max)) _ s h in
      let (same, ctx) = change-ok ty max value c s bounded integer below fits off h1 in
      let s' = (change ty c (holding value max) s).1 in
      let more : (run ty changes (holding (next max value c) max) s').0 ≡ ok n = rw (← same) rest in
      rw (replay-next max value c changes) (
        run-replay ty max (next max value c) changes s' bounded integer (next-le max value c below)
          fits (rw ctx off) more)
