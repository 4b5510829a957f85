-- ===== src/Aggregator.antt =====
-- aptos-agent-framework/framework/src/natives/aggregator_natives/aggregator_v2.rs and helpers_v2.rs:
-- aggregators, their snapshots and strings derived from these, as values or as delayed fields.
mod Fields
pub mod Snapshots
pub mod Bounds
pub mod History
mod Tests
unfoldable pub use Fields.*
use aip_aptos_agent_framewor.Prelude.{
  ℕ, ◌+◌, ◌-◌, ◌*◌, ◌^◌, Bool, true, false, Option, none, some, length, ltb, not, if◌then◌else◌,
  ◌++◌,
}
use aip_aptos_agent_framewor.Text.{Bytes}
use aip_aptos_agent_framewor.Native.{
  Native, Meter, Session, Result, Error, abort, invariant_violation,
  unknown_invariant_violation_error, ok, err, pure, raise, lift, gets, guard, charge, ◌>>=◌, ◌>>◌,
}

-- `NativeAggregatorContext`, the part that these natives use; the resolver belongs to the data.
pub record AggregatorContext (Data : Type 0) : Type 0 where
  pub delayed_field_optimization_enabled : Bool
  pub delayed_field_data : Data

pub data SignedU128 : Type 0 where
  positive negative : ℕ → SignedU128

-- The functions of the delayed field data and its resolver, of the bounded arithmetic and of the
-- string formats, which are other crates'. What such a function writes before an error stays.
pub record Delayed (Data Ident : Type 0) : Type 0 where
  pub generate_delayed_field_id : ℕ → Data → Result Ident × Data
  pub create_new_aggregator : Ident → Data → Result (Unit {0}) × Data
  pub validate_delayed_field_id : Ident → Data → Result (Unit {0})
  pub try_add_or_check_delta : Ident → ℕ → SignedU128 → Bool → Data → Result Bool × Data
  pub read_aggregator : Ident → Data → Result ℕ × Data
  pub snapshot : Ident → ℕ → ℕ → Data → Result Ident × Data
  pub create_new_snapshot : ℕ → ℕ → Data → Result Ident × Data
  pub read_snapshot : Ident → Data → Result ℕ × Data
  pub create_new_derived : Bytes → Data → Result Ident × Data
  pub read_derived : Ident → Data → Result Bytes × Data
  pub derive_string_concat : Ident → Bytes → Bytes → Data → Result Ident × Data
  pub u128_to_u64 : ℕ → Result ℕ
  pub unsigned_add : ℕ → ℕ → ℕ → Option ℕ
  pub unsigned_subtract : ℕ → ℕ → ℕ → Option ℕ
  pub calculate_width_for_constant_string : ℕ → ℕ
  pub calculate_width_for_integer_embedded_string : ℕ → ℕ → Result ℕ
  pub apply_concat : Bytes → Bytes → ℕ → Bytes
  pub bytes_and_width_to_derived_string : Bytes → ℕ → Result (Derived Ident)

pub record AggregatorGas : Type 0 where
  pub create_aggregator_base : ℕ
  pub try_add_base : ℕ
  pub try_sub_base : ℕ
  pub is_at_least_base : ℕ
  pub read_base : ℕ
  pub snapshot_base : ℕ
  pub create_snapshot_base : ℕ
  pub create_snapshot_per_byte : ℕ
  pub read_snapshot_base : ℕ
  pub string_concat_base : ℕ
  pub string_concat_per_byte : ℕ

module _ {G Data Ident : Type 0} (fields : Delayed Data Ident) (meter : Meter G)
    (gas : AggregatorGas) where
  abbrev Act : Type 0 → Type 0
  Act A = Native G (AggregatorContext Data) A

  abbrev updated :
      {A : Type 0}
      → Result A × Data
      → Session G (AggregatorContext Data)
      → Result A × Session G (AggregatorContext Data)
  updated (r, d) s = (r, record s { ctx = record s.ctx { delayed_field_data = d } })

  -- A call of a function on the delayed field data.
  unfoldable pub on_data : {A : Type 0} → (Data → Result A × Data) → Act A
  on_data f s = updated (f s.ctx.delayed_field_data) s

  -- The test of `get_context_data`.
  unfoldable pub has_delayed_fields : Act Bool
  has_delayed_fields = gets (λ c. c.delayed_field_optimization_enabled)

  -- The end of the functions that `get_value_as_id_impl` makes.
  unfoldable pub validated : Ident → Act Ident
  validated id = do
    checked ← gets (λ c. fields.validate_delayed_field_id id c.delayed_field_data)
    lift checked
    pure id

  unfoldable pub new_value : Ty → Act (Field Ident)
  unfolding get_width_by_type on_data has_delayed_fields create_value_by_type
  new_value ty = do
    enabled ← has_delayed_fields
    if enabled
        then (do
          width ← lift (get_width_by_type ty e_unsupported_aggregator_type)
          id ← on_data (fields.generate_delayed_field_id width)
          on_data (fields.create_new_aggregator id)
          pure (Field.delayed id))
        else (do
          value ← lift (create_value_by_type fields.u128_to_u64 ty 0 e_unsupported_aggregator_type)
          pure (Field.number value))

  unfoldable pub create_aggregator_with_max_value : Ty → ℕ → Act (Aggregator Ident)
  unfolding new_value create_value_by_type
  create_aggregator_with_max_value ty max_value = do
    value ← new_value ty
    max ← lift (create_value_by_type fields.u128_to_u64 ty max_value e_unsupported_aggregator_type)
    pure (record { value = value; max_value = max })

  unfoldable pub native_create_aggregator : Ty → ℕ → Act (Aggregator Ident)
  unfolding charge pop_value_by_type create_aggregator_with_max_value
  native_create_aggregator ty max_value = do
    charge meter gas.create_aggregator_base
    max ← lift (pop_value_by_type ty max_value e_unsupported_aggregator_type)
    create_aggregator_with_max_value ty max

  unfoldable pub native_create_unbounded_aggregator : Ty → Act (Aggregator Ident)
  unfolding charge unbounded_aggregator_max_value create_aggregator_with_max_value
  native_create_unbounded_aggregator ty = do
    charge meter gas.create_aggregator_base
    max ← lift (unbounded_aggregator_max_value ty)
    create_aggregator_with_max_value ty max

  -- The `match` on the result of the bounded arithmetic: the new value is written to the aggregator.
  unfoldable pub store_result : Ty → Aggregator Ident → Option ℕ → Act (Bool × Aggregator Ident)
  unfolding create_value_by_type set_aggregator_value
  store_result ty aggregator none = pure (false, aggregator)
  store_result ty aggregator (some result) = do
    new_value ←
        lift (create_value_by_type fields.u128_to_u64 ty result e_unsupported_aggregator_type)
    pure (true, set_aggregator_value aggregator new_value)

  -- The delayed branch of `try_add`, `try_sub` and `is_at_least_impl`.
  unfoldable pub delta_on_delayed : Ty → Aggregator Ident → ℕ → SignedU128 → Bool → Act Bool
  unfolding get_value_as_id validated on_data
  delta_on_delayed ty aggregator max_value delta apply = do
    id ← lift (get_value_as_id aggregator.value ty e_unsupported_aggregator_type)
    valid ← validated id
    on_data (fields.try_add_or_check_delta valid max_value delta apply)

  -- The aggregator behind the reference is returned too.
  unfoldable pub native_try_add : Ty → Aggregator Ident → ℕ → Act (Bool × Aggregator Ident)
  unfolding charge pop_value_by_type get_aggregator_max_value has_delayed_fields delta_on_delayed
      get_value store_result
  native_try_add ty aggregator value = do
    charge meter gas.try_add_base
    rhs ← lift (pop_value_by_type ty value e_unsupported_aggregator_type)
    max_value ← lift (get_aggregator_max_value aggregator ty)
    enabled ← has_delayed_fields
    if enabled
        then (do
          success ← delta_on_delayed ty aggregator max_value (positive rhs) true
          pure (success, aggregator))
        else (do
          lhs ← lift (get_value aggregator.value ty e_unsupported_aggregator_type)
          store_result ty aggregator (fields.unsigned_add max_value lhs rhs))

  unfoldable pub native_try_sub : Ty → Aggregator Ident → ℕ → Act (Bool × Aggregator Ident)
  unfolding charge pop_value_by_type get_aggregator_max_value has_delayed_fields delta_on_delayed
      get_value store_result
  native_try_sub ty aggregator value = do
    charge meter gas.try_sub_base
    rhs ← lift (pop_value_by_type ty value e_unsupported_aggregator_type)
    max_value ← lift (get_aggregator_max_value aggregator ty)
    enabled ← has_delayed_fields
    if enabled
        then (do
          success ← delta_on_delayed ty aggregator max_value (negative rhs) true
          pure (success, aggregator))
        else (do
          lhs ← lift (get_value aggregator.value ty e_unsupported_aggregator_type)
          store_result ty aggregator (fields.unsigned_subtract max_value lhs rhs))

  unfoldable pub native_is_at_least_impl : Ty → Aggregator Ident → ℕ → Act Bool
  unfolding charge pop_value_by_type get_aggregator_max_value has_delayed_fields delta_on_delayed
      get_value
  native_is_at_least_impl ty aggregator value = do
    charge meter gas.is_at_least_base
    rhs ← lift (pop_value_by_type ty value e_unsupported_aggregator_type)
    max_value ← lift (get_aggregator_max_value aggregator ty)
    enabled ← has_delayed_fields
    if enabled then delta_on_delayed ty aggregator max_value (negative rhs) false else (do
      lhs ← lift (get_value aggregator.value ty e_unsupported_aggregator_type)
      pure (is_some (fields.unsigned_subtract max_value lhs rhs)))

  unfoldable pub read_value : Ty → Aggregator Ident → Act ℕ
  unfolding has_delayed_fields get_value_as_id validated on_data get_value
  read_value ty aggregator = do
    enabled ← has_delayed_fields
    if enabled
        then (do
          id ← lift (get_value_as_id aggregator.value ty e_unsupported_aggregator_type)
          valid ← validated id
          on_data (fields.read_aggregator valid))
        else lift (get_value aggregator.value ty e_unsupported_aggregator_type)

  -- A value above the maximum is an invariant violation.
  unfoldable pub native_read : Ty → Aggregator Ident → Act ℕ
  unfolding charge read_value get_aggregator_max_value create_value_by_type
  native_read ty aggregator = do
    charge meter gas.read_base
    value ← read_value ty aggregator
    max_value ← lift (get_aggregator_max_value aggregator ty)
    guard (not (ltb max_value value)) (invariant_violation unknown_invariant_violation_error)
    lift (create_value_by_type fields.u128_to_u64 ty value e_unsupported_aggregator_type)
