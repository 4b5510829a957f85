-- ===== src/Aggregator/Snapshots.antt =====
-- The natives on snapshots of aggregators and on strings derived from these.
use aip_aptos_agent_framewor.Prelude.{ℕ, ◌+◌, ◌*◌, length, ltb, not, if◌then◌else◌}
use aip_aptos_agent_framewor.Text.{Bytes}
use aip_aptos_agent_framewor.Native.{
  Native, Meter, Result, abort, invariant_violation, internal_type_error, ok, err, pure, raise,
  lift, guard, charge, ◌>>=◌, ◌>>◌,
}
use aip_aptos_agent_framewor.Aggregator.{
  Ty, Field, Aggregator, Derived, Delayed, AggregatorContext, AggregatorGas, get_width_by_type,
  pop_value_by_type, create_value_by_type, get_value, get_value_as_id, get_aggregator_max_value,
  on_data, has_delayed_fields, validated, e_unsupported_aggregator_type,
  e_unsupported_aggregator_snapshot_type, e_input_string_length_too_large,
  e_aggregator_function_not_yet_supported, derived_string_input_max_length,
}

module _ {G Data Ident : Type 0} (fields : Delayed Data Ident) (meter : Meter G)
    (gas : AggregatorGas) where
  abbrev Act : Type 0 → Type 0
  Act A = Native G (AggregatorContext Data) A

  unfoldable pub native_snapshot : Ty → Aggregator Ident → Act (Field Ident)
  unfolding charge has_delayed_fields get_width_by_type get_value_as_id validated
      get_aggregator_max_value on_data get_value create_value_by_type
  native_snapshot ty aggregator = do
    charge meter gas.snapshot_base
    enabled ← has_delayed_fields fields meter gas
    if enabled
        then (do
          width ← lift (get_width_by_type ty e_unsupported_aggregator_type)
          id ← lift (get_value_as_id aggregator.value ty e_unsupported_aggregator_type)
          valid ← validated fields meter gas id
          max_value ← lift (get_aggregator_max_value aggregator ty)
          snapshot_id ← on_data fields meter gas (fields.snapshot valid max_value width)
          pure (Field.delayed snapshot_id))
        else (do
          value ← lift (get_value aggregator.value ty e_unsupported_aggregator_type)
          result_value ← lift (
              create_value_by_type fields.u128_to_u64 ty value
                e_unsupported_aggregator_snapshot_type)
          pure (Field.number result_value))

  unfoldable pub native_create_snapshot : Ty → ℕ → Act (Field Ident)
  unfolding charge pop_value_by_type has_delayed_fields get_width_by_type on_data
      create_value_by_type
  native_create_snapshot ty arg = do
    charge meter gas.create_snapshot_base
    value ← lift (pop_value_by_type ty arg e_unsupported_aggregator_snapshot_type)
    enabled ← has_delayed_fields fields meter gas
    if enabled
        then (do
          width ← lift (get_width_by_type ty e_unsupported_aggregator_type)
          snapshot_id ← on_data fields meter gas (fields.create_new_snapshot value width)
          pure (Field.delayed snapshot_id))
        else (do
          snapshot_value ← lift (
              create_value_by_type fields.u128_to_u64 ty value
                e_unsupported_aggregator_snapshot_type)
          pure (Field.number snapshot_value))

  unfoldable pub native_copy_snapshot : Field Ident → Act (Field Ident)
  native_copy_snapshot snapshot = raise (abort e_aggregator_function_not_yet_supported)

  unfoldable pub snapshot_value : Ty → Field Ident → Act ℕ
  unfolding has_delayed_fields get_value_as_id validated on_data get_value
  snapshot_value ty snapshot = do
    enabled ← has_delayed_fields fields meter gas
    if enabled
        then (do
          id ← lift (get_value_as_id snapshot ty e_unsupported_aggregator_snapshot_type)
          valid ← validated fields meter gas id
          on_data fields meter gas (fields.read_snapshot valid))
        else lift (get_value snapshot ty e_unsupported_aggregator_snapshot_type)

  unfoldable pub native_read_snapshot : Ty → Field Ident → Act ℕ
  unfolding charge snapshot_value create_value_by_type
  native_read_snapshot ty snapshot = do
    charge meter gas.read_snapshot_base
    value ← snapshot_value ty snapshot
    lift (create_value_by_type fields.u128_to_u64 ty value e_unsupported_aggregator_snapshot_type)

  unfoldable pub native_string_concat : Bytes → Field Ident → Bytes → Act (Derived Ident)
  native_string_concat before snapshot after = raise (abort e_aggregator_function_not_yet_supported)

  abbrev derived_id : Derived Ident → Result Ident
  derived_id (Derived.text bytes width) = err (invariant_violation internal_type_error)
  derived_id (Derived.delayed id) = ok id

  abbrev derived_text : Derived Ident → Result Bytes
  derived_text (Derived.text bytes width) = ok bytes
  derived_text (Derived.delayed id) = err (invariant_violation internal_type_error)

  unfoldable pub native_read_derived_string : Derived Ident → Act Bytes
  unfolding charge has_delayed_fields validated on_data
  native_read_derived_string derived_string_snapshot = do
    charge meter gas.read_snapshot_base
    enabled ← has_delayed_fields fields meter gas
    if enabled
        then (do
          id ← lift (derived_id derived_string_snapshot)
          valid ← validated fields meter gas id
          on_data fields meter gas (fields.read_derived valid))
        else lift (derived_text derived_string_snapshot)

  unfoldable pub native_create_derived_string : Bytes → Act (Derived Ident)
  unfolding charge has_delayed_fields on_data
  native_create_derived_string value_bytes = do
    charge meter gas.create_snapshot_base
    charge meter (gas.create_snapshot_per_byte * length value_bytes)
    guard (not (ltb derived_string_input_max_length (length value_bytes)))
        (abort e_input_string_length_too_large)
    enabled ← has_delayed_fields fields meter gas
    if enabled
        then (do
          id ← on_data fields meter gas (fields.create_new_derived value_bytes)
          pure (Derived.delayed id))
        else (let width = fields.calculate_width_for_constant_string (length value_bytes) in
            lift (fields.bytes_and_width_to_derived_string value_bytes width))

  -- The sum of the lengths of two buffers in memory fits `usize`.
  unfoldable pub native_derive_string_concat :
      Ty → Bytes → Field Ident → Bytes → Act (Derived Ident)
  unfolding charge has_delayed_fields get_value_as_id validated on_data get_width_by_type get_value
  native_derive_string_concat ty prefix snapshot suffix = do
    charge meter gas.string_concat_base
    charge meter (gas.string_concat_per_byte * length suffix)
    charge meter (gas.string_concat_per_byte * length prefix)
    guard (not (ltb derived_string_input_max_length (length prefix + length suffix)))
        (abort e_input_string_length_too_large)
    enabled ← has_delayed_fields fields meter gas
    if enabled
        then (do
          id ← lift (get_value_as_id snapshot ty e_unsupported_aggregator_snapshot_type)
          valid ← validated fields meter gas id
          derived_id ← on_data fields meter gas (fields.derive_string_concat valid prefix suffix)
          pure (Derived.delayed derived_id))
        else (do
          snapshot_width ← lift (get_width_by_type ty e_unsupported_aggregator_snapshot_type)
          width ← lift (
              fields.calculate_width_for_integer_embedded_string (length prefix + length suffix)
                snapshot_width)
          value ← lift (get_value snapshot ty e_unsupported_aggregator_snapshot_type)
          lift (
              fields.bytes_and_width_to_derived_string (fields.apply_concat prefix suffix value)
                width))
