-- ===== src/StringUtils/Tests/Machine.antt =====
-- A machine of a few kinds of values and types.
use aip_aptos_agent_framewor.Prelude.{
  ℕ, List, [], ◌∷◌, ◌++◌, Bool, true, false, Option, none, some, ◌==◌,
}
use aip_aptos_agent_framewor.Text.{Bytes, codes}
use aip_aptos_agent_framewor.Text.Decimal.{decimal}
use aip_aptos_agent_framewor.Native.{
  Session, Result, ok, err, invariant_violation, internal_type_error,
}
use aip_aptos_agent_framewor.StringUtils.Layouts.{
  Layout, u8, u64, function, vector, with_types, no_field, field, Vm, StringGas,
}

-- A struct of two fields, of one, a vector of one, a variant of one field, a closure that captures one.
pub data Val : Type 0 where
  number : ℕ → Val
  text : Bytes → Val
  two : Val → Val → Val
  one : Val → Val
  items : Val → Val → Val
  case_of : ℕ → Val → Val
  closure : Val → Val

pub data MoveType : Type 0 where
  integer string nil : MoveType
  cons : MoveType → MoveType → MoveType

abbrev pub TestTag : Type 0
TestTag = Bytes × Bytes

abbrev pub wrong : {A : Type 0} → Result A
wrong = err (invariant_violation internal_type_error)

abbrev pub as_bool : Val → Result Bool
as_bool (number n) = ok (n == 1)
as_bool v = wrong

abbrev pub as_uint : ℕ → Val → Result ℕ
as_uint width (number n) = ok n
as_uint width v = wrong

abbrev pub as_bytes : Val → Result Bytes
as_bytes (text b) = ok b
as_bytes v = wrong

abbrev pub as_fields : Val → Result (List Val)
as_fields (two a b) = ok (a ∷ b ∷ [])
as_fields (one a) = ok (a ∷ [])
as_fields v = wrong

abbrev pub as_items : Val → Result (List Val)
as_items (items a b) = ok (a ∷ b ∷ [])
as_items v = wrong

abbrev pub as_variant : Val → Result (ℕ × List Val)
as_variant (case_of tag a) = ok (tag, a ∷ [])
as_variant v = wrong

abbrev pub as_closure : Val → Result (ℕ × List Val)
as_closure (closure a) = ok (0, a ∷ [])
as_closure v = wrong

abbrev pub string_layout : Layout TestTag
string_layout =
    with_types (codes "string", codes "String") (field (codes "bytes") (vector u8) no_field)

abbrev pub layout_of : MoveType → Layout TestTag
layout_of string = string_layout
layout_of ty = u64

abbrev pub tag_of : MoveType → Option TestTag
tag_of nil = some (codes "string_utils", codes "NIL")
tag_of (cons a b) = some (codes "string_utils", codes "Cons")
tag_of ty = none

abbrev pub arguments_of : MoveType → Option (List MoveType)
arguments_of (cons a b) = some (a ∷ b ∷ [])
arguments_of ty = none

abbrev pub vm : Vm Val ℕ ℕ TestTag MoveType
vm = record {
  as_bool = as_bool;
  as_uint = as_uint;
  as_address = as_uint 256;
  as_bytes = as_bytes;
  as_fields = as_fields;
  as_variant = as_variant;
  as_items = as_items;
  as_closure = as_closure;
  move_string = text;
  address_canonical_string = decimal;
  address_hex_literal = decimal;
  is_one = λ a. a == 1;
  hex_encode = λ b. b;
  tag_address = λ t. 1;
  tag_module = λ t. t.0;
  tag_name = λ t. t.1;
  tag_canonical_string = λ t. t.0 ++ codes "::" ++ t.1;
  function_canonical_string = λ f. codes "0x1::m::f";
  closure_mask = λ f. 2;
  captured_layouts = λ f. ok (some (function ∷ []));
  signer_native_format_fix = true;
  charge_bytes_for_prints = true;
  master_address_field_offset = 1;
  has_identifier_mappings = λ t. ok false;
  fully_annotated_layout = λ t. ok (layout_of t);
  struct_tag = λ t. ok (tag_of t);
  instantiation = arguments_of;
}

abbrev pub gas : StringGas
gas = record { string_utils_base = 3; string_utils_per_byte = 1 }

abbrev pub session : Session ℕ (Unit {0})
session = record { gas = 100; ctx = tt }
