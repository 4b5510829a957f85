-- ===== src/Aggregator/Fields.antt =====
-- The Move values of the aggregator module, and the helpers that read and write their fields.
use aip_aptos_agent_framewor.Prelude.{ℕ, ◌-◌, ◌^◌, Bool, true, false, Option, none, some}
use aip_aptos_agent_framewor.Text.{Bytes}
use aip_aptos_agent_framewor.Native.{
  Result, abort, invariant_violation, internal_type_error, ok, err,
}

abbrev pub e_unsupported_aggregator_snapshot_type : ℕ
e_unsupported_aggregator_snapshot_type = 0x030005

abbrev pub e_unsupported_aggregator_type : ℕ
e_unsupported_aggregator_type = 0x030007

abbrev pub e_input_string_length_too_large : ℕ
e_input_string_length_too_large = 0x030008

abbrev pub e_aggregator_function_not_yet_supported : ℕ
e_aggregator_function_not_yet_supported = 0x030009

abbrev pub derived_string_input_max_length : ℕ
derived_string_input_max_length = 1024

-- The type arguments that the natives tell apart.
pub data Ty : Type 0 where
  u64 u128 other : Ty

-- The value field of an aggregator or of a snapshot: a number, or the identifier of a delayed field.
pub data Field (Ident : Type 0) : Type 0 where
  number : ℕ → Field Ident
  delayed : Ident → Field Ident

pub record Aggregator (Ident : Type 0) : Type 0 where
  pub value : Field Ident
  pub max_value : ℕ

-- `DerivedStringSnapshot`: a string and the width of its padding, or a delayed field.
pub data Derived (Ident : Type 0) : Type 0 where
  text : Bytes → ℕ → Derived Ident
  delayed : Ident → Derived Ident

abbrev pub is_some {ℓ} : {A : Type ℓ} → Option A → Bool
is_some none = false
is_some (some a) = true

unfoldable pub get_width_by_type : Ty → ℕ → Result ℕ
get_width_by_type u128 code = ok 16
get_width_by_type u64 code = ok 8
get_width_by_type other code = err (abort code)

-- The argument is of the type where that is an integer type.
unfoldable pub pop_value_by_type : Ty → ℕ → ℕ → Result ℕ
pop_value_by_type u128 arg code = ok arg
pop_value_by_type u64 arg code = ok arg
pop_value_by_type other arg code = err (abort code)

-- The first argument is the conversion `u128_to_u64` of the VM.
unfoldable pub create_value_by_type : (ℕ → Result ℕ) → Ty → ℕ → ℕ → Result ℕ
create_value_by_type u128_to_u64 u128 value code = ok value
create_value_by_type u128_to_u64 u64 value code = u128_to_u64 value
create_value_by_type u128_to_u64 other value code = err (abort code)

-- A cast of a field that holds something else.
abbrev wrong_field : {A : Type 0} → Result A
wrong_field = err (invariant_violation internal_type_error)

abbrev number_in : {Ident : Type 0} → Field Ident → Result ℕ
number_in (number n) = ok n
number_in (delayed id) = wrong_field

abbrev id_in : {Ident : Type 0} → Field Ident → Result Ident
id_in (number n) = wrong_field
id_in (delayed id) = ok id

module _ {Ident : Type 0} where
  -- `get_aggregator_value` and `get_snapshot_value`, by the abort code.
  unfoldable pub get_value : Field Ident → Ty → ℕ → Result ℕ
  get_value field u128 code = number_in field
  get_value field u64 code = number_in field
  get_value field other code = err (abort code)

  unfoldable pub get_aggregator_max_value : Aggregator Ident → Ty → Result ℕ
  get_aggregator_max_value aggregator u128 = ok aggregator.max_value
  get_aggregator_max_value aggregator u64 = ok aggregator.max_value
  get_aggregator_max_value aggregator other = err (abort e_unsupported_aggregator_type)

  -- `get_aggregator_value_as_id` and `get_snapshot_value_as_id` before the validation.
  unfoldable pub get_value_as_id : Field Ident → Ty → ℕ → Result Ident
  get_value_as_id field u128 code = id_in field
  get_value_as_id field u64 code = id_in field
  get_value_as_id field other code = err (abort code)

  unfoldable pub set_aggregator_value : Aggregator Ident → ℕ → Aggregator Ident
  set_aggregator_value aggregator value = record aggregator { value = number value }

unfoldable pub unbounded_aggregator_max_value : Ty → Result ℕ
unbounded_aggregator_max_value u128 = ok (2 ^ 128 - 1)
unbounded_aggregator_max_value u64 = ok (2 ^ 64 - 1)
unbounded_aggregator_max_value other = err (abort e_unsupported_aggregator_type)
