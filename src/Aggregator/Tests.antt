-- ===== src/Aggregator/Tests.antt =====
-- Aggregators over a bounded arithmetic that is written out, without delayed fields.
use aip_aptos_agent_framewor.Prelude.{
  ℕ, ◌+◌, ◌-◌, ◌^◌, ◌≤◌, ◌<◌, [], ◌∷◌, true, false, none, some, ◌≡◌, refl, ltb, leb, if◌then◌else◌,
  ◌++◌, arith,
}
use aip_aptos_agent_framewor.Native.{
  Session, Result, ok, err, invariant_violation, internal_type_error, ◌>>=◌,
}
use aip_aptos_agent_framewor.Native.Rules.{countdown}
use aip_aptos_agent_framewor.Aggregator.{
  Delayed, Derived, AggregatorContext, AggregatorGas, u64, native_try_add, native_try_sub,
  native_read,
}
use aip_aptos_agent_framewor.Aggregator.Bounds.{
  IsBounded, holding, added, subtracted, pay, try_add_lem, try_sub_lem,
}
use aip_aptos_agent_framewor.Aggregator.History.{add, sub, replay, run, run-replay}

abbrev to_u64 : ℕ → Result ℕ
to_u64 n = if ltb n (2 ^ 64) then ok n else err (invariant_violation internal_type_error)

-- Identifiers are numbers, and the data is the next one; the functions on delayed fields do little.
abbrev fields : Delayed ℕ ℕ
fields = record {
  generate_delayed_field_id = λ width d. (ok d, d + 1);
  create_new_aggregator = λ id d. (ok tt, d);
  validate_delayed_field_id = λ id d. ok tt;
  try_add_or_check_delta = λ id max delta apply d. (ok true, d);
  read_aggregator = λ id d. (ok 0, d);
  snapshot = λ id max width d. (ok d, d + 1);
  create_new_snapshot = λ value width d. (ok d, d + 1);
  read_snapshot = λ id d. (ok 0, d);
  create_new_derived = λ bytes d. (ok d, d + 1);
  read_derived = λ id d. (ok [], d);
  derive_string_concat = λ id before after d. (ok d, d + 1);
  u128_to_u64 = to_u64;
  unsigned_add = λ max a b. if leb (a + b) max then some (a + b) else none;
  unsigned_subtract = λ max a b. if leb b a then some (a - b) else none;
  calculate_width_for_constant_string = λ n. n;
  calculate_width_for_integer_embedded_string = λ n width. ok (n + width);
  apply_concat = λ before after value. before ++ value ∷ after;
  bytes_and_width_to_derived_string = λ bytes width. ok (Derived.text bytes width);
}

to_u64-convert : (n : ℕ) → n < 2 ^ 64 → to_u64 n ≡ ok n
to_u64-convert n h = ground arith

abbrev bounded : IsBounded fields
bounded = record { add = λ max a b. refl; subtract = λ max a b. refl; convert = to_u64-convert }

abbrev gas : AggregatorGas
gas = record {
  create_aggregator_base = 1;
  try_add_base = 1;
  try_sub_base = 1;
  is_at_least_base = 1;
  read_base = 1;
  snapshot_base = 1;
  create_snapshot_base = 1;
  create_snapshot_per_byte = 1;
  read_snapshot_base = 1;
  string_concat_base = 1;
  string_concat_per_byte = 1;
}

abbrev session : Session ℕ (AggregatorContext ℕ)
session = record {
  gas = 100;
  ctx = record { delayed_field_optimization_enabled = false; delayed_field_data = 0 };
}

try_add_example :
    native_try_add fields countdown gas u64 (holding 3 10) 8 session
    ≡ pay countdown gas.try_add_base (added 3 10 8) session
try_add_example = try_add_lem fields countdown gas u64 3 10 8 session bounded tt (omega arith) refl

try_sub_example :
    native_try_sub fields countdown gas u64 (holding 3 10) 2 session
    ≡ pay countdown gas.try_sub_base (subtracted 3 10 2) session
try_sub_example =
    try_sub_lem fields countdown gas u64 3 10 2 session bounded tt (omega arith) (omega arith) refl

run-eq-ok :
    (run fields countdown gas u64 (add 7 ∷ add 1 ∷ sub 4 ∷ []) (holding 3 10) session).0 ≡ ok 6
unfolding run native_try_add native_try_sub native_read ◌>>=◌
run-eq-ok = refl

run-replay_example : (6 ≡ replay 10 3 (add 7 ∷ add 1 ∷ sub 4 ∷ [])) × (6 ≤ 10)
run-replay_example =
    run-replay fields countdown gas u64 10 3 (add 7 ∷ add 1 ∷ sub 4 ∷ []) session bounded tt
      (omega arith) (omega arith) refl run-eq-ok
